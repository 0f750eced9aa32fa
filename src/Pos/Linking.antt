-- ===== src/Pos/Linking.antt =====
-- What `createSale` of src/pos/pos-sale.service.ts does to bookings.
use business_platform.Prelude.{List, Option, [], none, refl, some, ℕ, ◌∷◌, ◌≡◌}
use business_platform.Prisma.{Prisma}
use business_platform.Schema.{Db, Key, Instant, Currency, ProductVariant, Product, Booking}
use business_platform.Platform.{
  within, order_item_model, order_model, cart_model, inventory_model, payment_model, pos_sale_model,
}
use business_platform.Platform.Frames.{
  Keeps, Keeps-then, Keeps-create, Keeps-update, Keeps-update_many, Keeps-fresh_id, keeps,
}
use business_platform.Schema.{Payment, PaymentStatus, PosSession}
use business_platform.Order.{CreateOrderDto, OrderItemInput, Quantities, OrderSummary}
use business_platform.Order.Pricing.{PricedLine}
use business_platform.Order.Creating.{
  create_line, create_lines, take_stock, take_all, write_order, input_items, check_customer,
  create_order_in, priced_variants, create_order, get_order,
}
use business_platform.Payment.{
  PaymentSummary, CreatePaymentDto, create_payment, capture_by_status, capture_payment,
}
use business_platform.Pos.Sale.{
  CreatePosSaleDto, SaleOptions, Method, order_options, settle, create_sale,
}

abbrev pub bookings : Db → List Booking
bookings db = db.bookings

module _ ⦃prisma : Prisma⦄ (t : Key) (now : Instant) where
  take_stock-Keeps : (s : Option Key) (v q : ℕ) → Keeps (within t now) bookings (take_stock s v q)
  unfolding take_stock
  take_stock-Keeps s v q =
      search (keeps, Keeps-update_many bookings inventory_model refl (λ rs db. refl))

  take_all-Keeps : (s : Option Key) (m : Quantities) → Keeps (within t now) bookings (take_all s m)
  unfolding take_all
  take_all-Keeps s [] = search keeps
  take_all-Keeps s ((v, q) ∷ m) = Keeps-then (take_stock-Keeps s v q) (take_all-Keeps s m)

  create_line-Keeps :
      (tenant order_id : Key) (cur : Currency) (vs : List ProductVariant) (ps : List Product)
      (l : PricedLine)
      → Keeps (within t now) bookings (create_line tenant order_id cur vs ps l)
  unfolding create_line
  create_line-Keeps tenant order_id cur vs ps l = search (
    keeps,
    Keeps-create bookings order_item_model refl (λ rs db. refl),
    Keeps-fresh_id bookings (λ n db. refl),
  )

  create_lines-Keeps :
      (tenant order_id : Key) (cur : Currency) (vs : List ProductVariant) (ps : List Product)
      (ls : List PricedLine)
      → Keeps (within t now) bookings (create_lines tenant order_id cur vs ps ls)
  unfolding create_lines
  create_lines-Keeps tenant order_id cur vs ps [] = search keeps
  create_lines-Keeps tenant order_id cur vs ps (l ∷ ls) =
      Keeps-then (create_line-Keeps tenant order_id cur vs ps l)
        (create_lines-Keeps tenant order_id cur vs ps ls)

  -- Without a booking in its options an order links none.
  write_order-Keeps :
      (tenant user : Key) (dto : CreateOrderDto) (session : PosSession) (cart : Option Key)
      (vs : List ProductVariant) (ps : List Product) (ls : List PricedLine) (cur : Currency)
      → Keeps
          (within t now)
          bookings
          (write_order tenant user dto (order_options session) cart vs ps ls cur)
  unfolding write_order
  write_order-Keeps tenant user dto session cart vs ps ls cur =
      search
        (
          keeps,
          create_lines-Keeps,
          Keeps-create bookings order_model refl (λ rs db. refl),
          Keeps-update bookings cart_model refl (λ rs db. refl),
          Keeps-fresh_id bookings (λ n db. refl),
        )
        depth 20

  input_items-Keeps :
      (user : Key) (items : Option (List OrderItemInput))
      → Keeps (within t now) bookings (input_items user items)
  unfolding input_items
  input_items-Keeps user (some (it ∷ its)) = search keeps
  input_items-Keeps user (some []) = search keeps depth 12
  input_items-Keeps user none = search keeps depth 12

  create_order-Keeps :
      (user : Key) (dto : CreateOrderDto) (session : PosSession)
      → Keeps (within t now) bookings (create_order user dto (order_options session))
  unfolding create_order create_order_in priced_variants check_customer
  create_order-Keeps user dto session =
      search (keeps, input_items-Keeps, take_all-Keeps, write_order-Keeps) depth 20

  create_payment-Keeps :
      (dto : CreatePaymentDto) → Keeps (within t now) bookings (create_payment dto)
  unfolding create_payment
  create_payment-Keeps dto =
      search
        (
          keeps,
          Keeps-create bookings payment_model refl (λ rs db. refl),
          Keeps-fresh_id bookings (λ n db. refl),
        )
        depth 20

  capture_by_status-Keeps :
      (status : PaymentStatus) (id : Key) (p : Payment)
      → Keeps (within t now) bookings (capture_by_status status id p)
  unfolding capture_by_status
  capture_by_status-Keeps PaymentStatus.processing id p =
      search
        (
          keeps,
          Keeps-update_many bookings payment_model refl (λ rs db. refl),
          Keeps-update_many bookings order_model refl (λ rs db. refl),
        )
        depth 15
  capture_by_status-Keeps PaymentStatus.captured id p = search keeps
  capture_by_status-Keeps PaymentStatus.failed id p = search keeps

  capture_payment-Keeps : (id : Key) → Keeps (within t now) bookings (capture_payment id)
  unfolding capture_payment
  capture_payment-Keeps id = search (keeps, capture_by_status-Keeps) depth 12

  settle-Keeps :
      (method : Method) (order : OrderSummary) (payment : PaymentSummary)
      → Keeps (within t now) bookings (settle method order payment)
  unfolding settle get_order
  settle-Keeps method order payment = search (keeps, capture_payment-Keeps) depth 15

  create_sale-Keeps :
      (user : Key) (dto : CreatePosSaleDto) (options : SaleOptions)
      → Keeps (within t now) bookings (create_sale user dto options)
  unfolding create_sale
  create_sale-Keeps user dto options =
      search
        (
          keeps,
          create_order-Keeps,
          create_payment-Keeps,
          settle-Keeps,
          Keeps-create bookings pos_sale_model refl (λ rs db. refl),
          Keeps-fresh_id bookings (λ n db. refl),
        )
        depth 25

  -- A sale never links a booking: whatever booking its payload names, every booking is as it was
  -- before.
  pub create_sale-links_no_booking :
      (user : Key) (dto : CreatePosSaleDto) (options : SaleOptions) (db : Db)
      → (create_sale user dto options (within t now) db).1.bookings ≡ db.bookings
  create_sale-links_no_booking user dto options db = (create_sale-Keeps user dto options).apply db
