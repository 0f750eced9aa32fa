-- ===== src/Order/Written.antt =====
-- What a new order of `createOrder` holds: its items, the ones of the pricing loop.
use business_platform.Prelude.{
  List, Option, Option-cases, [], arith, if◌then◌else◌, inl, inr, refl, some, sum_of, suc, ℕ, ◌+◌,
  ◌==◌, ◌∷◌, ◌≡◌, first, none, ◌∙◌, total, ap, subst,
}
use business_platform.Prisma.{Prisma}
use business_platform.Schema.{
  Db, Key, Instant, Currency, ProductVariant, Product, OrderItem, PosSale, OrderStatus, Order,
  CartStatus,
}
use business_platform.Platform.{
  within, fresh_id, cart_model, booking_model, order_model, order_item_model, update, pure,
  when_given, create, find_many_by, ◌>>◌, ◌>>=◌,
}
use business_platform.Platform.Facts.{create_cases, owned}
use business_platform.Platform.Frames.{
  Keeps, Keeps-update, Keeps-update_many, keeps, Keeps-when_given, Keeps-find_many_by,
}
use business_platform.Platform.Ends.{Ends, Ends-bind, Ends-pure, Ends-Keeps, Ends-weaken, Ends-then}
use business_platform.Order.Defs.{
  CreateOrderDto, CreateOrderOptions, OrderSummary, truthy, to_summary,
}
use business_platform.Order.Pricing.{PricedLine, subtotal_from}
use business_platform.Order.Creating.{create_line, create_lines, link_booking, write_order}
use business_platform.Order.Restocking.{ordered, item_amount}
use business_platform.Inventory.Stock.{same_locator}

-- The items and the POS sales, which tell what a cancellation puts back.
abbrev pub held : Db → List OrderItem × List PosSale
held db = (db.order_items, db.pos_sales)

-- How many units of the pool `t' s' v'` a line takes from the store `s` of tenant `t`.
abbrev pub line_amount : Key → Option Key → Key → Option Key → Key → PricedLine → ℕ
line_amount t s t' s' v' l = if same_locator t s l.variant_id t' s' v' then l.quantity else 0

module _ ⦃prisma : Prisma⦄ (t : Key) (now : Instant) (s : Option Key) (t' : Key) (s' : Option Key)
    (v' : Key) where
  -- The items of the order `id` hold `n` units of the pool more than in `db`.
  abbrev Adds : Key → ℕ → Db → {A : Type 0} → A → Db → Type 0
  Adds id n db a db' =
      (ordered t id s t' s' v' db' ≡ ordered t id s t' s' v' db + n)
      × (db'.pos_sales ≡ db.pos_sales)

  create_line-Adds :
      (id : Key) (cur : Currency) (vs : List ProductVariant) (ps : List Product) (l : PricedLine)
      (db : Db)
      → Ends
          (within t now)
          (Adds id (line_amount t s t' s' v' l) db)
          db
          (create_line t id cur vs ps l)
  unfolding create_line fresh_id
  create_line-Adds id cur vs ps l db = record {
    apply = elim (Option-cases (first (λ (r : ProductVariant). r.id == l.variant_id) vs)) [
      | inl e ↦ ground arith
      | inr (variant, e) ↦ ground (
        arith,
        create_cases order_item_model refl t now (record db { generated = suc db.generated })
            record {
              id = prisma.new_id db.generated;
              tenant_id = t;
              order_id = id;
              variant_id = l.variant_id;
              product_name = elim (first (λ (r : Product). r.id == variant.product_id) ps) [
                | none ↦ none
                | some p ↦ some p.name
              ];
              variant_name = variant.name;
              sku = variant.sku;
              quantity = l.quantity;
              currency = cur;
              unit_amount_minor = l.unit_amount;
              line_total_minor = l.line_total;
              created_at = now;
            },
      )
    ];
  }

  create_lines-Adds :
      (id : Key) (cur : Currency) (vs : List ProductVariant) (ps : List Product)
      (ls : List PricedLine) (db : Db)
      → Ends
          (within t now)
          (Adds id (sum_of (line_amount t s t' s' v') ls) db)
          db
          (create_lines t id cur vs ps ls)
  unfolding create_lines
  create_lines-Adds id cur vs ps [] db = Ends-pure tt (omega arith, refl)
  create_lines-Adds id cur vs ps (l ∷ ls) db =
      Ends-bind (create_line-Adds id cur vs ps l db) λ a db' h.
        Ends-weaken (λ b db'' k. (omega (arith, h.0, k.0), k.1 ∙ h.1))
          (create_lines-Adds id cur vs ps ls db')

  link_booking-Keeps-held :
      (order_id id : Key) → Keeps (within t now) held (link_booking order_id id)
  unfolding link_booking
  link_booking-Keeps-held order_id id =
      search (keeps, Keeps-update_many held booking_model refl (λ rs db. refl))

  -- The items and the POS sales are those of `db`.
  abbrev Same : Db → {A : Type 0} → A → Db → Type 0
  Same db a db' = held db' ≡ held db

  pub Adds-from :
      (id : Key) (n : ℕ) {A : Type 0} (a : A) (db db' db'' : Db)
      → held db' ≡ held db
      → Adds id n db' a db''
      → Adds id n db a db''
  Adds-from id n a db db' db'' same h =
      let amount = λ (items : List OrderItem).
        total (owned order_item_model t (λ r. r.order_id == id)) (item_amount t s t' s' v') items in
      (h.0 ∙ ap (λ p. amount p.0 + n) same, h.1 ∙ ap (λ p. p.1) same)

  Adds-upto :
      (id : Key) (n : ℕ) {A B : Type 0} (a : A) (b : B) (db db' db'' : Db)
      → held db'' ≡ held db'
      → Adds id n db a db'
      → Adds id n db b db''
  Adds-upto id n a b db db' db'' same h =
      let amount = λ (items : List OrderItem).
        total (owned order_item_model t (λ r. r.order_id == id)) (item_amount t s t' s' v') items in
      (ap (λ p. amount p.0) same ∙ h.0, ap (λ p. p.1) same ∙ h.1)

  read_items-Same :
      (id : Key) (db : Db)
      → Ends
          (within t now)
          (Same db)
          db
          (find_many_by order_item_model (λ r. r.created_at) (λ r. r.order_id == id))
  read_items-Same id db = Ends-Keeps (Keeps-find_many_by {view = held} order_item_model _ _)

  link_booking-Same :
      (booking : Option Key) (order_id : Key) (db : Db)
      → Ends (within t now) (Same db) db (when_given booking (link_booking order_id))
  link_booking-Same booking order_id db =
      Ends-Keeps (Keeps-when_given booking (link_booking-Keeps-held order_id))

  convert_cart-Same :
      (cart : Option Key) (db : Db)
      → Ends (within t now) (Same db) db (
          when_given cart λ k. do
            update cart_model (λ r. r.id == k) (λ r. record r { status = CartStatus.converted })
            pure tt)
  convert_cart-Same cart db =
      Ends-Keeps (search (keeps, Keeps-update held cart_model refl (λ rs db. refl)))

  create_order-Same :
      (r : Order) (db : Db)
      → Ends
          (within t now)
          (λ o db'. (o.id ≡ r.id) × (held db' ≡ held db))
          db
          (create order_model r)
  create_order-Same r db = record {
    apply = ground (arith, create_cases order_model refl t now db r);
  }

  -- The new order has the next identifier, and its items hold what the lines say.
  abbrev pub Written : Key → ℕ → Db → OrderSummary → Db → Type 0
  Written id n db order db' = (order.id ≡ id) × Adds id n db order db'

  -- What follows the order's own row.
  after_order :
      (dto : CreateOrderDto) (options : CreateOrderOptions) (cart : Option Key)
      (vs : List ProductVariant) (ps : List Product) (ls : List PricedLine) (cur : Currency)
      (order : Order) (db : Db)
      → Ends (within t now) (Written order.id (sum_of (line_amount t s t' s' v') ls) db) db (do
        when_given (truthy options.booking_id) (link_booking order.id)
        create_lines t order.id cur vs ps ls
        when_given (truthy cart) (λ k. do
          update cart_model (λ r. r.id == k) (λ r. record r { status = CartStatus.converted })
          pure tt)
        items ← find_many_by order_item_model (λ r. r.created_at) (λ r. r.order_id == order.id)
        pure (to_summary order items))
  after_order dto options cart vs ps ls cur order db =
      let n = sum_of (line_amount t s t' s' v') ls in
      Ends-then (link_booking-Same (truthy options.booking_id) order.id db) λ a db1 h1.
        Ends-then (create_lines-Adds order.id cur vs ps ls db1) λ b db2 h2.
          Ends-then (convert_cart-Same (truthy cart) db2) λ c db3 h3.
            Ends-bind (read_items-Same order.id db3) λ items db4 h4.
              Ends-pure (to_summary order items) (
                refl,
                Adds-from order.id n (to_summary order items) db db1 db4 h1
                    (Adds-upto order.id n b (to_summary order items) db1 db2 db4 (h4 ∙ h3) h2),
              )

  pub write_order-Written :
      (user : Key) (dto : CreateOrderDto) (options : CreateOrderOptions) (cart : Option Key)
      (vs : List ProductVariant) (ps : List Product) (ls : List PricedLine) (cur : Currency)
      (db : Db)
      → Ends
          (within t now)
          (Written (prisma.new_id db.generated) (sum_of (line_amount t s t' s' v') ls) db)
          db
          (write_order t user dto options cart vs ps ls cur)
  unfolding write_order fresh_id
  write_order-Written user dto options cart vs ps ls cur db =
      let n = sum_of (line_amount t s t' s' v') ls in
      let db1 = record db { generated = suc db.generated } in
      let row : Order = record {
        id = prisma.new_id db.generated;
        tenant_id = t;
        user_id = user;
        customer_id = dto.customer_id;
        status = OrderStatus.pending;
        currency = cur;
        subtotal_minor = subtotal_from 0 ls;
        cancelled_at = none;
        created_at = now;
        updated_at = now;
      } in
      record {
        apply =
            (Ends-bind (create_order-Same row db1) λ order db2 h2.
              Ends-weaken
                (λ o db3 k.
                  subst (λ id. Written id n db o db3) h2.0
                    (k.0, Adds-from order.id n o db db2 db3 h2.1 k.1))
                (after_order dto options cart vs ps ls cur order db2)).apply;
      }
