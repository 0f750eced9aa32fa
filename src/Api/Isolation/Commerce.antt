-- ===== src/Api/Isolation/Commerce.antt =====
-- Tenant isolation of src/order/order.service.ts and src/payment/payment.service.ts.
use business_platform.Prelude.{List, Option, [], none, some, ℕ, ◌∷◌}
use business_platform.Prisma.{Prisma}
use business_platform.Platform.{within}
use business_platform.Platform.Frames.{Keeps, Keeps-then}
use business_platform.Platform.Isolation.{foreign, isolation}
use business_platform.Schema.{
  Key, Instant, Currency, ProductVariant, Product, Payment, PaymentStatus,
}
use business_platform.Order.Defs.{Quantities, CreateOrderDto, CreateOrderOptions, OrderItemInput}
use business_platform.Order.Pricing.{PricedLine}
use business_platform.Order.Creating.{
  check_customer, priced_variants, create_order_in, create_line, create_lines, take_stock, take_all,
  write_order, link_booking, input_items, create_order, get_order,
}
use business_platform.Order.Cancelling.{
  reread_order, put_back_items, mark_cancelled, cancel_order_in, restock, restock_all, cancel_order,
}
use business_platform.Payment.{
  create_payment, get_payment, capture_by_status, capture_payment, fail_by_status, fail_payment,
  CreatePaymentDto,
}

module _ ⦃prisma : Prisma⦄ (t : Key) (now : Instant) where
  take_stock-isolated :
      (s : Option Key) (v q : ℕ) → Keeps (within t now) (foreign t) (take_stock s v q)
  unfolding take_stock
  take_stock-isolated s v q = search isolation depth 12

  take_all-isolated :
      (s : Option Key) (m : Quantities) → Keeps (within t now) (foreign t) (take_all s m)
  unfolding take_all
  take_all-isolated s [] = search isolation
  take_all-isolated s ((v, q) ∷ m) = Keeps-then (take_stock-isolated s v q) (take_all-isolated s m)

  create_line-isolated :
      (tenant order_id : Key) (cur : Currency) (vs : List ProductVariant) (ps : List Product)
      (l : PricedLine)
      → Keeps (within t now) (foreign t) (create_line tenant order_id cur vs ps l)
  unfolding create_line
  create_line-isolated tenant order_id cur vs ps l = search isolation depth 12

  create_lines-isolated :
      (tenant order_id : Key) (cur : Currency) (vs : List ProductVariant) (ps : List Product)
      (ls : List PricedLine)
      → Keeps (within t now) (foreign t) (create_lines tenant order_id cur vs ps ls)
  unfolding create_lines
  create_lines-isolated tenant order_id cur vs ps [] = search isolation
  create_lines-isolated tenant order_id cur vs ps (l ∷ ls) =
      Keeps-then (create_line-isolated tenant order_id cur vs ps l)
        (create_lines-isolated tenant order_id cur vs ps ls)

  link_booking-isolated :
      (order_id id : Key) → Keeps (within t now) (foreign t) (link_booking order_id id)
  unfolding link_booking
  link_booking-isolated order_id id = search isolation depth 12

  input_items-isolated :
      (user : Key) (items : Option (List OrderItemInput))
      → Keeps (within t now) (foreign t) (input_items user items)
  unfolding input_items
  input_items-isolated user (some (it ∷ its)) = search isolation depth 12
  input_items-isolated user (some []) = search isolation depth 12
  input_items-isolated user none = search isolation depth 12

  write_order-isolated :
      (tenant user : Key) (dto : CreateOrderDto) (options : CreateOrderOptions) (cart : Option Key)
      (vs : List ProductVariant) (ps : List Product) (ls : List PricedLine) (cur : Currency)
      → Keeps (within t now) (foreign t) (write_order tenant user dto options cart vs ps ls cur)
  unfolding write_order
  write_order-isolated tenant user dto options cart vs ps ls cur =
      search (isolation, create_lines-isolated, link_booking-isolated) depth 20

  pub create_order-isolated :
      (user : Key) (dto : CreateOrderDto) (options : CreateOrderOptions)
      → Keeps (within t now) (foreign t) (create_order user dto options)
  unfolding create_order create_order_in priced_variants check_customer
  create_order-isolated user dto options =
      search (isolation, input_items-isolated, take_all-isolated, write_order-isolated) depth 20

  pub get_order-isolated : (id : Key) → Keeps (within t now) (foreign t) (get_order id)
  unfolding get_order
  get_order-isolated id = search isolation depth 12

  restock-isolated : (s : Option Key) (v q : ℕ) → Keeps (within t now) (foreign t) (restock s v q)
  unfolding restock
  restock-isolated s v q = search isolation depth 15

  restock_all-isolated :
      (s : Option Key) (m : Quantities) → Keeps (within t now) (foreign t) (restock_all s m)
  unfolding restock_all
  restock_all-isolated s [] = search isolation
  restock_all-isolated s ((v, q) ∷ m) =
      Keeps-then (restock-isolated s v q) (restock_all-isolated s m)

  pub cancel_order-isolated : (id : Key) → Keeps (within t now) (foreign t) (cancel_order id)
  unfolding cancel_order cancel_order_in mark_cancelled put_back_items reread_order
  cancel_order-isolated id = search (isolation, restock_all-isolated) depth 20

  pub create_payment-isolated :
      (dto : CreatePaymentDto) → Keeps (within t now) (foreign t) (create_payment dto)
  unfolding create_payment
  create_payment-isolated dto = search isolation depth 20

  pub get_payment-isolated : (id : Key) → Keeps (within t now) (foreign t) (get_payment id)
  unfolding get_payment
  get_payment-isolated id = search isolation depth 12

  capture_by_status-isolated :
      (status : PaymentStatus) (id : Key) (p : Payment)
      → Keeps (within t now) (foreign t) (capture_by_status status id p)
  unfolding capture_by_status
  capture_by_status-isolated PaymentStatus.processing id p = search isolation depth 15
  capture_by_status-isolated PaymentStatus.captured id p = search isolation
  capture_by_status-isolated PaymentStatus.failed id p = search isolation

  pub capture_payment-isolated : (id : Key) → Keeps (within t now) (foreign t) (capture_payment id)
  unfolding capture_payment
  capture_payment-isolated id = search (isolation, capture_by_status-isolated) depth 12

  fail_by_status-isolated :
      (status : PaymentStatus) (id : Key) (p : Payment)
      → Keeps (within t now) (foreign t) (fail_by_status status id p)
  unfolding fail_by_status
  fail_by_status-isolated PaymentStatus.processing id p = search isolation depth 15
  fail_by_status-isolated PaymentStatus.captured id p = search isolation
  fail_by_status-isolated PaymentStatus.failed id p = search isolation

  pub fail_payment-isolated : (id : Key) → Keeps (within t now) (foreign t) (fail_payment id)
  unfolding fail_payment
  fail_payment-isolated id = search (isolation, fail_by_status-isolated) depth 12
