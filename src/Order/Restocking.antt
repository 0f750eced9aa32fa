-- ===== src/Order/Restocking.antt =====
-- What `cancelOrder` does to the stock: it puts the order's items back into the order's pool.
use business_platform.Prelude.{
  subst, ap, sym, ◌∙◌, inl, inr, Bool-cases, List, Option, [], arith, count, count_pos, false,
  first, if◌then◌else◌, refl, same_option_refl, same_option→eq, set_where, suc, sum_of, total,
  total-set_where, total-set_where_outside, true, ℕ, ◌+◌, ◌==◌, ◌∷◌, ◌≡◌,
}
use business_platform.Prisma.{Prisma}
use business_platform.Schema.{Db, Key, Instant, Inventory, OrderItem}
use business_platform.Platform.{
  transaction, Error, Outcome-cases, order_model, pos_sale_model, order_item_model, fresh_id,
  Result, ok, err, within, inventory_model,
}
use business_platform.Platform.Facts.{
  find_many_eq, find_unique_eq, owned, owned_values, find_first_cases, update_many_cases,
  create_cases,
}
use business_platform.Inventory.Stock.{
  pool, on_hand, stock, same_locator, IsConsistent, pool_unique, consistent_unique,
}
use business_platform.Platform.Frames.{Keeps, Keeps-update_many, keeps}
use business_platform.Order.Defs.{OrderSummary, Quantities, add_quantity}
use business_platform.Order.Frames.{everything}
use business_platform.Order.Cancelling.{
  reread_order, cancel_order_in, cancel_order, put_back_items, mark_cancelled, restock_store,
  restock_where, restocked, restock, restock_all, item_quantities_from,
}
use business_platform.Order.Stock.{named}
use business_platform.Order.Selling.{named-add_quantity}

-- How many units of the pool `t' s' v'` an order item took from the store `s` of tenant `t`.
abbrev pub item_amount : Key → Option Key → Key → Option Key → Key → OrderItem → ℕ
item_amount t s t' s' v' it = if same_locator t s it.variant_id t' s' v' then it.quantity else 0

module _ (t : Key) (s : Option Key) (t' : Key) (s' : Option Key) (v' : Key) where
  named-item_quantities_from :
      (m : Quantities) (its : List OrderItem)
      → named t s t' s' v' (item_quantities_from m its)
        ≡ named t s t' s' v' m + sum_of (item_amount t s t' s' v') its
  unfolding item_quantities_from
  named-item_quantities_from m [] = omega arith
  named-item_quantities_from m (it ∷ its) = omega (
    arith,
    named-item_quantities_from (add_quantity it.variant_id it.quantity m) its,
    named-add_quantity t s t' s' v' it.variant_id it.quantity m,
  )

module _ (t : Key) (now : Instant) (s : Option Key) (v : Key) (q : ℕ) (t' : Key) (s' : Option Key)
    (v' : Key) where
  abbrev put_back : Inventory → Inventory
  put_back = owned_values inventory_model t now (restocked q)

  module _ (same : same_locator t s v t' s' v' ≡ true) where
    put_back_row :
        (r : Inventory)
        → pool t s v r ≡ true
        → (pool t' s' v' r ≡ true)
          × (pool t' s' v' (put_back r) ≡ true)
          × (on_hand (put_back r) + 0 ≡ on_hand r + q)
    put_back_row r h =
        ground (arith, same_option→eq r.store_id s, same_option→eq s s', same_option_refl s')

  module _ (apart : same_locator t s v t' s' v' ≡ false) where
    put_back_outside :
        (r : Inventory)
        → pool t s v r ≡ true
        → (pool t' s' v' r ≡ false) × (pool t' s' v' (put_back r) ≡ false)
    put_back_outside r h = ground (arith, same_option→eq r.store_id s)

  put_back_moves :
      (rs : List Inventory)
      → count (pool t s v) rs ≡ 1
      → total (pool t' s' v') on_hand (set_where (pool t s v) put_back rs)
        ≡ total (pool t' s' v') on_hand rs + (if same_locator t s v t' s' v' then q else 0)
  put_back_moves rs one = elim (Bool-cases (same_locator t s v t' s' v')) [
    | inl e ↦
        let moved =
          rw one at (
            total-set_where (pool t' s' v') (pool t s v) put_back on_hand q 0 (put_back_row e)
              rs) in
        rw e (omega (arith, moved))
    | inr e ↦ rw e (
        omega (
          arith,
          total-set_where_outside (pool t' s' v') (pool t s v) put_back on_hand (put_back_outside e)
              rs,
        ))
  ]

-- How a restock of the quantities `m` may end.
abbrev pub Restocked :
    Key → Option Key → Key → Option Key → Key → ℕ → Db → {A : Type 0} → Result A × Db → Type 0
Restocked t s t' s' v' n db (ok a, db') =
    (stock t' s' v' db' ≡ stock t' s' v' db + n) × IsConsistent db'
Restocked t s t' s' v' n db (err e, db') = Unit

module _ ⦃prisma : Prisma⦄ (t : Key) (now : Instant) (s : Option Key) (t' : Key) (s' : Option Key)
    (v' : Key) where
  restock-Restocked :
      (v q : ℕ) (db : Db)
      → IsConsistent db
      → Restocked t s t' s' v'
          (if same_locator t s v t' s' v' then q else 0)
          db
          (restock s v q (within t now) db)
  unfolding restock fresh_id
  restock-Restocked v q db consistent =
      elim (find_first_cases inventory_model refl t now db (restock_where v s)) [
        | inl missing ↦ ground (
          arith,
          create_cases inventory_model refl t now (record db { generated = suc db.generated })
              record {
                id = prisma.new_id db.generated;
                tenant_id = t;
                variant_id = v;
                store_id = s;
                quantity_on_hand = q;
                created_at = now;
                updated_at = now;
              },
          same_option_refl s,
          same_option→eq s s',
        )
        | inr (r, found, there, fits) ↦ ground (
          arith,
          update_many_cases inventory_model refl t now db (restock_where v s) (restocked q),
          put_back_moves t now s v q t' s' v' db.inventories,
          pool_unique t s v db.inventories (consistent_unique db consistent),
          count_pos (pool t s v) db.inventories r there fits,
        )
      ]

  restock_all-Restocked :
      (m : Quantities) (db : Db)
      → IsConsistent db
      → Restocked t s t' s' v' (named t s t' s' v' m) db (restock_all s m (within t now) db)
  unfolding restock_all
  restock_all-Restocked [] db consistent = (omega arith, consistent)
  restock_all-Restocked ((v, q) ∷ m) db consistent =
      elim (Outcome-cases (restock s v q (within t now) db)) [
        | inr (e, db', thrown) ↦ ground arith
        | inl (u, db', put) ↦
            let first_step = rw put at (restock-Restocked v q db consistent) in
            ground (arith, restock_all-Restocked m db' first_step.1)
      ]

-- The store whose pool an order's items go back to: its POS sale's, if it has one.
abbrev pub sale_store : Key → Key → Db → Option Key
sale_store t id db =
    restock_store (first (owned pos_sale_model t (λ r. r.order_id == id)) db.pos_sales)

-- How many units of the pool `t' s' v'` the items of the order `id` hold.
abbrev pub ordered : Key → Key → Option Key → Key → Option Key → Key → Db → ℕ
ordered t id s t' s' v' db =
    total (owned order_item_model t (λ r. r.order_id == id)) (item_amount t s t' s' v')
      db.order_items

-- All but the orders.
abbrev without_orders : Db → Db
without_orders db = record db { orders = [] }

module _ ⦃prisma : Prisma⦄ (t : Key) (now : Instant) where
  mark_cancelled-Keeps : (id : Key) → Keeps (within t now) without_orders (mark_cancelled id)
  unfolding mark_cancelled
  mark_cancelled-Keeps id =
      search (keeps, Keeps-update_many without_orders order_model refl (λ rs db. refl))

  module _ (t' : Key) (s' : Option Key) (v' : Key) where
    -- The writes after the order has been marked.
    Restocked-after :
        (id : Key) (db : Db)
        → IsConsistent db
        → Restocked t
            (sale_store t id db)
            t'
            s'
            v'
            (ordered t id (sale_store t id db) t' s' v' db)
            db
            (put_back_items id (within t now) db)
    unfolding put_back_items
    Restocked-after id db consistent =
        let sale = sale_store t id db in
        let w = λ (r : OrderItem). r.order_id == id in
        let items = prisma.find_many OrderItem (owned order_item_model t w) db.order_items in
        ground (
          arith,
          find_unique_eq pos_sale_model refl t now db (λ r. r.order_id == id),
          find_many_eq order_item_model refl t now db w,
          restock_all-Restocked t now sale t' s' v' (item_quantities_from [] items) db consistent,
          named-item_quantities_from t sale t' s' v' [] items,
          prisma.find_many_total OrderItem (owned order_item_model t w)
              (item_amount t sale t' s' v') db.order_items,
        )

    reread_order-reads : (id : Key) → Keeps (within t now) everything (reread_order id)
    unfolding reread_order
    reread_order-reads id = search keeps depth 12

    -- The amounts that are put back are told by tables that marking the order leaves alone.
    Restocked-from :
        (id : Key) (db db' : Db) (o : Result (Unit {0}) × Db)
        → without_orders db' ≡ without_orders db
        → Restocked t
            (sale_store t id db')
            t'
            s'
            v'
            (ordered t id (sale_store t id db') t' s' v' db')
            db'
            o
        → Restocked t
            (sale_store t id db)
            t'
            s'
            v'
            (ordered t id (sale_store t id db) t' s' v' db)
            db
            o
    Restocked-from id db db' o kept =
        let view = λ (d : Db).
          Restocked t (sale_store t id d) t' s' v' (ordered t id (sale_store t id d) t' s' v' d) d
            o in
        subst view kept

    -- How a cancellation may end.
    abbrev pub Cancelled : Key → Db → Result OrderSummary × Db → Type 0
    Cancelled id db (ok order, db') =
        (stock t' s' v' db' ≡ stock t' s' v' db + ordered t id (sale_store t id db) t' s' v' db)
        × IsConsistent db'
    Cancelled id db (err e, db') = db' ≡ db

    unmarked :
        (id : Key) (db db' : Db) (e : Error)
        → mark_cancelled id (within t now) db ≡ (err e, db')
        → Cancelled id db (transaction (cancel_order_in id) (within t now) db)
    unfolding cancel_order_in
    unmarked id db db' e thrown = ground arith

    marked_then :
        (id : Key) (db db' : Db) (u : Unit {0})
        → IsConsistent db
        → mark_cancelled id (within t now) db ≡ (ok u, db')
        → without_orders db' ≡ without_orders db
        → Cancelled id db (transaction (cancel_order_in id) (within t now) db)
    unfolding cancel_order_in
    marked_then id db db' u consistent marked kept =
        let put = put_back_items id (within t now) db' in
        let same_pools : db'.inventories ≡ db.inventories = ap (λ d. d.inventories) kept in
        ground (
          arith,
          Restocked-from id db db' put kept (Restocked-after id db' (rw same_pools consistent)),
          (reread_order-reads id).apply put.1,
        )

    cancel_order_in-Cancelled :
        (id : Key) (db : Db)
        → IsConsistent db
        → Cancelled id db (transaction (cancel_order_in id) (within t now) db)
    cancel_order_in-Cancelled id db consistent =
        elim (Outcome-cases (mark_cancelled id (within t now) db)) [
          | inr (e, db', thrown) ↦ unmarked id db db' e thrown
          | inl (u, db', marked) ↦
              marked_then id db db' u consistent marked
                (ap (λ o. without_orders o.1) (sym marked) ∙ (mark_cancelled-Keeps id).apply db)
        ]

    pub cancel_order-restocks :
        (id : Key) (db : Db) → IsConsistent db → Cancelled id db (cancel_order id (within t now) db)
    unfolding cancel_order
    cancel_order-restocks id db consistent = ground (
      arith,
      find_unique_eq order_model refl t now db (λ r. r.id == id),
      cancel_order_in-Cancelled id db consistent,
    )
