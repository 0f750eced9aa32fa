-- ===== src/Order/Undoing.antt =====
-- `createOrder` and then `cancelOrder`.
use business_platform.Order.Holding.{create_order-Written}
use business_platform.Order.Cancelling.{cancel_order, restock_store}
use business_platform.Order.Restocking.{item_amount, ordered, sale_store, cancel_order-restocks}
use business_platform.Inventory.Stock.{stock, IsConsistent}
use business_platform.Order.Selling.{requested, create_order-takes_stock}
use business_platform.Platform.Facts.{owned}
use business_platform.Prelude.{
  List, Option, ap, arith, count, count_le, count_pos, first, first_cases, inl, inr, none, subst,
  sym, total, total-none, ℕ, ◌==◌, ◌∙◌, ◌≡◌,
}
use business_platform.Prisma.{Prisma}
use business_platform.Schema.{Db, Key, Instant, OrderItem, PosSale}
use business_platform.Platform.{
  ok, within, Result-cases, order_item_model, pos_sale_model, Result, err, Outcome-cases, Error,
}
use business_platform.Order.Defs.{CreateOrderDto, CreateOrderOptions, OrderItemInput, OrderSummary}
use business_platform.Order.Creating.{pool_store, create_order, input_items}
use business_platform.Order.Frames.{input_items-reads}

-- No item and no POS sale names the next identifier yet.
abbrev pub IsUnused : ⦃prisma : Prisma⦄ → Db → Type 0
IsUnused ⦃prisma⦄ db =
    (count (λ r. r.order_id == prisma.new_id db.generated) db.order_items ≡ 0)
    × (count (λ r. r.order_id == prisma.new_id db.generated) db.pos_sales ≡ 0)

total_unfit :
    (t : Key) (f : OrderItem → ℕ) (id : Key) (items : List OrderItem)
    → count (λ (r : OrderItem). r.order_id == id) items ≡ 0
    → total (owned order_item_model t (λ r. r.order_id == id)) f items ≡ 0
total_unfit t f id items h =
    let w = owned order_item_model t (λ (r : OrderItem). r.order_id == id) in
    total-none w f items (
      omega
        (arith, h, count_le w (λ (r : OrderItem). r.order_id == id) (λ r k. ground arith) items))

no_sale :
    (t id : Key) (sales : List PosSale)
    → count (λ (r : PosSale). r.order_id == id) sales ≡ 0
    → first (owned pos_sale_model t (λ r. r.order_id == id)) sales ≡ none
no_sale t id sales h = elim (first_cases (owned pos_sale_model t (λ r. r.order_id == id)) sales) [
  | inl (e, k) ↦ e
  | inr (r, e, i, k) ↦ ground (arith, count_pos (λ (r : PosSale). r.order_id == id) sales r i)
]

-- A cancellation after `createOrder` that took the database from `db` to `db'`.
abbrev pub Undone : Key → Option Key → Key → Db → Db → Result OrderSummary × Db → Type 0
Undone t' s' v' db db' (ok order, db'') = stock t' s' v' db'' ≡ stock t' s' v' db
Undone t' s' v' db db' (err e, db'') = db'' ≡ db'

module _ ⦃prisma : Prisma⦄ (t : Key) (later : Instant) (t' : Key) (s' : Option Key) (v' : Key) where
  -- The cancellation that follows, if `createOrder` returns an order.
  abbrev pub UndoneAfter : Db → Result OrderSummary × Db → Type 0
  UndoneAfter db (ok order, db') =
      Undone t' s' v' db db' (cancel_order order.id (within t later) db')
  UndoneAfter db (err e, db') = db' ≡ db

module _ ⦃prisma : Prisma⦄ (t : Key) (now later : Instant) (t' : Key) (s' : Option Key) (v' : Key)
    (user : Key) (dto : CreateOrderDto) (options : CreateOrderOptions) where
  has_input :
      (db : Db) (order : OrderSummary) (db' : Db)
      → create_order user dto options (within t now) db ≡ (ok order, db')
      → (input : List OrderItemInput × Option Key) × ((input_items user dto.items
            (within t now)
            db).0
          ≡ ok input)
  unfolding create_order
  has_input db order db' created =
      elim (Result-cases (input_items user dto.items (within t now) db).0) [
        | inl (input, e) ↦ (input, e)
        | inr (x, e) ↦ ground arith
      ]

  -- The new order's items hold what it took.
  holds_all :
      (input : List OrderItemInput × Option Key) (db : Db) (order : OrderSummary) (db' : Db)
      → IsUnused db
      → (input_items user dto.items (within t now) db).0 ≡ ok input
      → create_order user dto options (within t now) db ≡ (ok order, db')
      → (sale_store t order.id db' ≡ none)
        × (ordered t order.id none t' s' v' db' ≡ requested t none t' s' v' input.0)
  holds_all input db order db' unused given_items created =
      let id = prisma.new_id db.generated in
      let ends =
        (create_order-Written t now none t' s' v' user dto options input db given_items).apply in
      let written = rw created at ends in
      let zero = total_unfit t (item_amount t none t' s' v') id db.order_items unused.0 in
      let no_sale_yet = no_sale t id db.pos_sales unused.1 in
      let w = λ (k : Key). owned pos_sale_model t (λ r. r.order_id == k) in
      (
        ap (λ k. sale_store t k db') written.0
            ∙ ap (λ sales. restock_store (first (w id) sales)) written.1.1
            ∙ ap restock_store no_sale_yet,
        ap (λ k. ordered t k none t' s' v' db') written.0 ∙ omega (arith, written.1.0, zero),
      )

  undone :
      (db : Db) (order : OrderSummary) (db' : Db)
      → IsConsistent db
      → IsUnused db
      → pool_store options ≡ none
      → create_order user dto options (within t now) db ≡ (ok order, db')
      → Undone t' s' v' db db' (cancel_order order.id (within t later) db')
  undone db order db' consistent unused online created =
      let (input, given_items) = has_input db order db' created in
      let sold =
        rw created at
          (create_order-takes_stock t now user dto options t' s' v' db consistent given_items) in
      let (sale, amount) = holds_all input db order db' unused given_items created in
      let cancelled = cancel_order-restocks t later t' s' v' order.id db' sold.1 in
      let put : ordered t order.id (sale_store t order.id db') t' s' v' db'
          ≡ requested t (pool_store options) t' s' v' input.0 =
        ap (λ s. ordered t order.id s t' s' v' db') sale
        ∙ amount
        ∙ ap (λ s. requested t s t' s' v' input.0) (sym online) in
      elim (Outcome-cases (cancel_order order.id (within t later) db')) [
        | inl (o, db'', e) ↦
            subst (Undone t' s' v' db db') (sym e)
              (omega (arith, (rw e at cancelled).0, put, sold.0))
        | inr (x, db'', e) ↦ subst (Undone t' s' v' db db') (sym e) (rw e at cancelled)
      ]

  no_input :
      (db : Db) (x : Error)
      → (input_items user dto.items (within t now) db).0 ≡ err x
      → (create_order user dto options (within t now) db).1 ≡ db
  unfolding create_order
  no_input db x thrown =
      let reads = (input_items-reads t now user dto.items).apply db in ground arith

  refused :
      (db : Db) (e : Error) (db' : Db)
      → IsConsistent db
      → create_order user dto options (within t now) db ≡ (err e, db')
      → db' ≡ db
  refused db e db' consistent thrown =
      elim (Result-cases (input_items user dto.items (within t now) db).0) [
        | inl (input, k) ↦ rw thrown at (
            create_order-takes_stock t now user dto options t' s' v' db {input = input} consistent
              k)
        | inr (x, k) ↦ ap (λ o. o.1) (sym thrown) ∙ no_input db x k
      ]

  -- If an order from the tenant's global pool is created and then cancelled, at whatever times, the
  -- stock of every pool of every tenant is what it was before the order. A creation that fails
  -- changes nothing in the database, and a cancellation that fails changes nothing in what the
  -- creation left. The stock is consistent before, and no item and no POS sale refers to the
  -- identifier that the order gets.
  pub cancel_order-undoes_create_order :
      (db : Db)
      → IsConsistent db
      → IsUnused db
      → pool_store options ≡ none
      → UndoneAfter t later t' s' v' db (create_order user dto options (within t now) db)
  cancel_order-undoes_create_order db consistent unused online =
      elim (Outcome-cases (create_order user dto options (within t now) db)) [
        | inl (order, db', e) ↦
            subst (UndoneAfter t later t' s' v' db) (sym e)
              (undone db order db' consistent unused online e)
        | inr (x, db', e) ↦
            subst (UndoneAfter t later t' s' v' db) (sym e) (refused db x db' consistent e)
      ]
