-- ===== src/Tests/Orders.antt =====
-- The theorem on an order and its cancellation, at an order in the shop.
use business_platform.Tests.Examples.{shop-HasKeys, shop-IsSettled}
use business_platform.Payment.Paying.{Pays, pay_order, pay_order-Pays}
use business_platform.Payment.{CreatePaymentDto}
use business_platform.Prelude.{Option, none, some, refl, ◌≡◌}
use business_platform.Schema.{OrderStatus}
use business_platform.Platform.{
  Result, ok, err, within, ◌>>=◌, find_unique, find_first, find_many, find_many_by, update_many,
  create, fresh_id,
}
use business_platform.Platform.Constraints.{inventory_check, order_check, order_item_check}
use business_platform.Order.{OrderSummary, no_options, create_order, cancel_order}
use business_platform.Order.Defs.{aggregate_items, aggregate_from}
use business_platform.Order.Pricing.{price_lines}
use business_platform.Order.Creating.{
  input_items, create_order_in, check_customer, priced_variants, all_active, take_all, take_stock,
  write_order, link_booking, create_line, create_lines,
}
use business_platform.Order.Cancelling.{
  cancel_order_in, mark_cancelled, put_back_items, restock_all, restock, item_quantities_from,
  reread_order,
}
use business_platform.Order.Undoing.{UndoneAfter, cancel_order-undoes_create_order}
use business_platform.Tests.Memory.{in_memory}
use business_platform.Tests.Shop.{shop, shop-IsConsistent, order_of, two_items, pending_order}

cancel_order-undoes_create_order_example :
    UndoneAfter 7 300 7 none 21 shop
      (create_order 3 (order_of two_items) no_options (within 7 200) shop)
cancel_order-undoes_create_order_example =
    cancel_order-undoes_create_order 7 200 300 7 none 21 3 (order_of two_items) no_options shop
      shop-IsConsistent (refl, refl) refl

-- In the shop the order is created, and its cancellation succeeds.
abbrev status_of : Result OrderSummary → Option OrderStatus
status_of (ok order) = some order.status
status_of (err e) = none

status-cancel_order :
    status_of
      ((create_order 3 (order_of two_items) no_options >>= λ order. cancel_order order.id)
        (within 7 200)
        shop).0
    ≡ some OrderStatus.cancelled
unfolding create_order create_order_in input_items check_customer aggregate_items aggregate_from
    priced_variants price_lines all_active take_all take_stock write_order link_booking create_line
    create_lines cancel_order cancel_order_in mark_cancelled put_back_items restock_all restock
    item_quantities_from reread_order find_unique find_first find_many find_many_by update_many
    create fresh_id inventory_check order_check order_item_check
status-cancel_order = refl

abbrev card_payment : CreatePaymentDto
card_payment = record { order_id = 51; method = 4 }

pay_order-Pays_example :
    Pays 7 200 card_payment pending_order shop (pay_order card_payment (within 7 200) shop)
pay_order-Pays_example =
    pay_order-Pays 7 200 card_payment pending_order shop shop-HasKeys shop-IsSettled refl refl refl
