-- ===== src/Order/Frames.antt =====
-- Which parts of `createOrder` leave the pools alone, and which only read.
use business_platform.Prelude.{List, Option, [], none, refl, some, ◌∷◌}
use business_platform.Prisma.{Prisma}
use business_platform.Schema.{Db, Key, Instant, Currency, ProductVariant, Product, Inventory}
use business_platform.Platform.{within, order_item_model, order_model, booking_model, cart_model}
use business_platform.Platform.Frames.{
  Keeps, Keeps-then, Keeps-create, Keeps-update, Keeps-update_many, Keeps-fresh_id, keeps,
}
use business_platform.Order.Defs.{CreateOrderDto, CreateOrderOptions, OrderItemInput, Quantities}
use business_platform.Order.Pricing.{PricedLine}
use business_platform.Order.Creating.{
  create_line, create_lines, link_booking, write_order, input_items, check_customer,
  priced_variants,
}

abbrev pub pools : Db → List Inventory
pools db = db.inventories

abbrev pub everything : Db → Db
everything db = db

module _ ⦃prisma : Prisma⦄ (t : Key) (now : Instant) where
  create_line-Keeps-pools :
      (tenant order_id : Key) (cur : Currency) (vs : List ProductVariant) (ps : List Product)
      (l : PricedLine)
      → Keeps (within t now) pools (create_line tenant order_id cur vs ps l)
  unfolding create_line
  create_line-Keeps-pools tenant order_id cur vs ps l = search (
    keeps,
    Keeps-create pools order_item_model refl (λ rs db. refl),
    Keeps-fresh_id pools (λ n db. refl),
  )

  create_lines-Keeps-pools :
      (tenant order_id : Key) (cur : Currency) (vs : List ProductVariant) (ps : List Product)
      (ls : List PricedLine)
      → Keeps (within t now) pools (create_lines tenant order_id cur vs ps ls)
  unfolding create_lines
  create_lines-Keeps-pools tenant order_id cur vs ps [] = search keeps
  create_lines-Keeps-pools tenant order_id cur vs ps (l ∷ ls) =
      Keeps-then (create_line-Keeps-pools tenant order_id cur vs ps l)
        (create_lines-Keeps-pools tenant order_id cur vs ps ls)

  link_booking-Keeps-pools :
      (order_id id : Key) → Keeps (within t now) pools (link_booking order_id id)
  unfolding link_booking
  link_booking-Keeps-pools order_id id =
      search (keeps, Keeps-update_many pools booking_model refl (λ rs db. refl))

  pub write_order-Keeps-pools :
      (tenant user : Key) (dto : CreateOrderDto) (options : CreateOrderOptions) (cart : Option Key)
      (vs : List ProductVariant) (ps : List Product) (ls : List PricedLine) (cur : Currency)
      → Keeps (within t now) pools (write_order tenant user dto options cart vs ps ls cur)
  unfolding write_order
  write_order-Keeps-pools tenant user dto options cart vs ps ls cur =
      search
        (
          keeps,
          create_lines-Keeps-pools,
          link_booking-Keeps-pools,
          Keeps-create pools order_model refl (λ rs db. refl),
          Keeps-update pools cart_model refl (λ rs db. refl),
          Keeps-fresh_id pools (λ n db. refl),
        )
        depth 20

  pub input_items-reads :
      (user : Key) (items : Option (List OrderItemInput))
      → Keeps (within t now) everything (input_items user items)
  unfolding input_items
  input_items-reads user (some (it ∷ its)) = search keeps
  input_items-reads user (some []) = search keeps depth 12
  input_items-reads user none = search keeps depth 12

  pub check_customer-reads : (id : Key) → Keeps (within t now) everything (check_customer id)
  unfolding check_customer
  check_customer-reads id = search keeps

  pub priced_variants-reads : (m : Quantities) → Keeps (within t now) everything (priced_variants m)
  unfolding priced_variants
  priced_variants-reads m = search keeps depth 12
