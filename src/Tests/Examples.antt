-- ===== src/Tests/Examples.antt =====
-- The theorems on the requests, at requests to the shop.
use business_platform.Prelude.{
  inl, inr, sym, subst, if◌then◌else◌, count, negsuc, pos, List, Option, [], arith, none, refl,
  some, ◌∷◌, ◌≡◌,
}
use business_platform.Schema.{
  Order, Payment, PaymentStatus, OrderStatus, Key, Instant, Db, PosSessionStatus,
}
use business_platform.Platform.{
  ok, captured_cannot_fail, failed_cannot_capture, within, outside, err, conflict, not_open,
  update_many, find_unique, internal_server_error, no_tenant_context,
}
use business_platform.Platform.Constraints.{payment_check, order_check, pos_session_check}
use business_platform.Platform.Isolation.{foreign}
use business_platform.Inventory.{InventoryScope, adjust_scoped}
use business_platform.Inventory.Adjusting.{Ends, adjust_scoped-moves}
use business_platform.Order.{no_options, create_order}
use business_platform.Order.Creating.{input_items}
use business_platform.Order.Selling.{Sold, create_order-takes_stock}
use business_platform.Pos.Sale.{create_sale}
use business_platform.Pos.Opening.{Opened, open_session-Opened}
use business_platform.Pos.Session.{open_session, close_session, find_session, refuse_close}
use business_platform.Pos.Shifts.{close_session-twice}
use business_platform.Pos.Linking.{create_sale-links_no_booking}
use business_platform.Payment.{
  capture_payment, capture_payment_in, capture_by_status, capture_processing, reread, fail_payment,
  fail_payment_in, fail_by_status, fail_processing, to_summary,
}
use business_platform.Payment.Lifecycle.{capture_payment-final, fail_payment-final}
use business_platform.Payment.Settlement.{
  HasKeys, IsSettled, captured_of, is_paid, capture_payment-IsSettled,
}
use business_platform.Order.Pricing.{PricedLine, price_lines, subtotal_from}
use business_platform.Order.Totals.{AreLines, price_lines-charges}
use business_platform.Api.Calls.{Call, perform, serve}
use business_platform.Api.Tenants.{
  own_data, perform-keeps_others, perform-outside, serve-keeps_tenant,
}
use business_platform.Tests.Memory.{in_memory, numbers, runtime_of_tests}
use business_platform.Tests.Shop.{
  processing_payment, pending_order, shop, two_items, order_of, booked_sale, online,
  shop-IsConsistent,
}

-- Adjusting the store's pool of variant 21 by -3.
adjust_scoped-moves_example :
    Ends 7 200
      (InventoryScope.store 1)
      (record { variant_id = 21; delta = negsuc 2 })
      7
      (some 1)
      21
      shop
      (adjust_scoped
        (InventoryScope.store 1)
        (record { variant_id = 21; delta = negsuc 2 })
        (within 7 200)
        shop)
adjust_scoped-moves_example =
    adjust_scoped-moves 7 200 (InventoryScope.store 1)
      (record { variant_id = 21; delta = negsuc 2 }) 7 (some 1) 21 shop shop-IsConsistent

create_order-takes_stock_example :
    Sold 7 none 7 none 21 2 shop
      (create_order 3 (order_of two_items) no_options (within 7 200) shop)
unfolding input_items
create_order-takes_stock_example =
    create_order-takes_stock 7 200 3 (order_of two_items) no_options 7 none 21 shop
      shop-IsConsistent refl

create_sale-links_no_booking_example :
    (create_sale 3 booked_sale online (within 7 200) shop).1.bookings ≡ shop.bookings
create_sale-links_no_booking_example = create_sale-links_no_booking 7 200 3 booked_sale online shop

perform-keeps_others_example :
    foreign 7 (perform (Call.creates_order 3 (order_of two_items) no_options) (within 7 200) shop).1
    ≡ foreign 7 shop
perform-keeps_others_example =
    perform-keeps_others 7 200 (Call.creates_order 3 (order_of two_items) no_options) shop

perform-outside_example :
    perform (Call.cancels_order 51) (outside 200) shop
    ≡ (err (internal_server_error no_tenant_context), shop)
perform-outside_example = perform-outside 200 (Call.cancels_order 51) shop

-- A sale, a cancellation without a tenant, and an adjustment.
abbrev a_day : List (Option Key × Instant × Call)
a_day =
    (some 7, 200, Call.creates_sale 3 booked_sale online)
    ∷ (none, 250, Call.cancels_order 51)
    ∷ (
      some 7,
      300,
      Call.adjusts_inventory InventoryScope.global (record { variant_id = 22; delta = pos 9 }),
    )
    ∷ []

serve-keeps_tenant_example : own_data 8 (serve a_day shop) ≡ own_data 8 shop
serve-keeps_tenant_example =
    serve-keeps_tenant 8 a_day shop ((λ e. omega (arith, e)), ((λ e. omega (arith, e)), tt))

-- The shop after its session is closed at 200.
abbrev shut : Db
shut = record shop {
  pos_sessions =
      record {
        id = 72;
        tenant_id = 7;
        device_id = 71;
        store_id = 1;
        user_id = 3;
        status = PosSessionStatus.closed;
        opened_at = 100;
        closed_at = some 200;
        created_at = 100;
        updated_at = 200;
      }
      ∷ [];
}

close_session-twice_example : close_session 72 (within 7 300) shut ≡ (err (conflict not_open), shut)
unfolding close_session find_session refuse_close update_many find_unique pos_session_check
close_session-twice_example = close_session-twice 7 200 300 72 shop refl

-- The payment of the shop with a status that was written at 200, and the shop that holds it.
abbrev paid : PaymentStatus → Payment
paid st = record processing_payment { status = st; updated_at = 200 }

abbrev captured_shop : Db
captured_shop = record shop {
  payments = paid PaymentStatus.captured ∷ [];
  orders = record pending_order { status = OrderStatus.paid; updated_at = 200 } ∷ [];
}

abbrev failed_shop : Db
failed_shop = record shop { payments = paid PaymentStatus.failed ∷ [] }

capture_payment-final_example :
    (capture_payment 81 (within 7 300) captured_shop
      ≡ (ok (to_summary (paid PaymentStatus.captured)), captured_shop))
    × (fail_payment 81 (within 7 300) captured_shop
        ≡ (err (conflict captured_cannot_fail), captured_shop))
unfolding capture_payment capture_payment_in capture_by_status capture_processing reread update_many
    find_unique payment_check order_check
capture_payment-final_example = capture_payment-final 7 200 300 81 shop refl

fail_payment-final_example :
    (fail_payment 81 (within 7 300) failed_shop
      ≡ (ok (to_summary (paid PaymentStatus.failed)), failed_shop))
    × (capture_payment 81 (within 7 300) failed_shop
        ≡ (err (conflict failed_cannot_capture), failed_shop))
unfolding fail_payment fail_payment_in fail_by_status fail_processing reread update_many find_unique
    payment_check
fail_payment-final_example = fail_payment-final 7 200 300 81 shop refl

-- Two units at 250 and three at 40.
abbrev two_lines : List PricedLine
two_lines =
    record { variant_id = 21; quantity = 2; unit_amount = 250; line_total = 500 }
    ∷ record { variant_id = 22; quantity = 3; unit_amount = 40; line_total = 120 }
    ∷ []

price_lines-charges_example :
    AreLines shop.prices (some 840) ((21, 2) ∷ (22, 3) ∷ []) two_lines
    × (subtotal_from 0 two_lines ≡ 620)
unfolding price_lines
price_lines-charges_example =
    price_lines-charges shop.prices none ((21, 2) ∷ (22, 3) ∷ []) two_lines (some 840) refl

pub shop-HasKeys : HasKeys shop
unfolding order_check payment_check
shop-HasKeys = (refl, refl)

pub shop-IsSettled : IsSettled 7 shop
shop-IsSettled o (inl e) h =
    subst
      (λ (x : Order).
        count (captured_of 7 x.id) shop.payments ≡ (if is_paid x.status then 1 else 0))
      (sym e) refl
shop-IsSettled o (inr i) h = elim i [ ]

capture_payment-IsSettled_example : IsSettled 7 (capture_payment 81 (within 7 200) shop).1
capture_payment-IsSettled_example =
    capture_payment-IsSettled 7 200 81 shop shop-HasKeys shop-IsSettled

open_session-Opened_example : Opened 7 300 3 71 shut (open_session 3 71 (within 7 300) shut)
open_session-Opened_example = open_session-Opened 7 300 3 71 shut
