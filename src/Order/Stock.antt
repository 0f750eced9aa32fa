-- ===== src/Order/Stock.antt =====
-- What the stock loops of `createOrder` and `cancelOrder` do to every pool: the first takes the
-- ordered quantities, the second puts them back.
use business_platform.Prelude.{
  Bool, Bool-cases, List, Option, [], arith, count, count_le, false, if◌then◌else◌, inl, inr, refl,
  same_option_refl, same_option→eq, set_where, total, total-set_where, total-set_where_outside,
  true, ℕ, ◌+◌, ◌∷◌, ◌≡◌, ◌≤◌,
}
use business_platform.Prisma.{Prisma}
use business_platform.Schema.{Db, Key, Instant, Inventory}
use business_platform.Platform.{Outcome-cases, Result, ok, err, within, inventory_model}
use business_platform.Platform.Facts.{owned, owned_values, update_many_cases}
use business_platform.Inventory.Stock.{
  pool, on_hand, stock, same_locator, IsConsistent, pool_unique, consistent_unique,
}
use business_platform.Order.Defs.{Quantities}
use business_platform.Order.Creating.{take_all, holds, taken, take_stock}

-- How much of the pool `t' s' v'` a list of quantities for the store `s` of tenant `t` names.
abbrev pub named : Key → Option Key → Key → Option Key → Key → Quantities → ℕ
named t s t' s' v' [] = 0
named t s t' s' v' ((v, q) ∷ m) =
    (if same_locator t s v t' s' v' then q else 0) + named t s t' s' v' m

module _ (t : Key) (now : Instant) (s : Option Key) (v : Key) (q : ℕ) (t' : Key) (s' : Option Key)
    (v' : Key) where
  abbrev holding : Inventory → Bool
  holding = owned inventory_model t (holds v s q)

  abbrev take : Inventory → Inventory
  take = owned_values inventory_model t now (taken q)

  module _ (same : same_locator t s v t' s' v' ≡ true) where
    taken_row :
        (r : Inventory)
        → holding r ≡ true
        → (pool t' s' v' r ≡ true)
          × (pool t' s' v' (take r) ≡ true)
          × (on_hand (take r) + q ≡ on_hand r + 0)
    taken_row r h =
        ground (arith, same_option→eq r.store_id s, same_option→eq s s', same_option_refl s')

  module _ (apart : same_locator t s v t' s' v' ≡ false) where
    taken_outside :
        (r : Inventory)
        → holding r ≡ true
        → (pool t' s' v' r ≡ false) × (pool t' s' v' (take r) ≡ false)
    taken_outside r h = ground (arith, same_option→eq r.store_id s)

  take_moves :
      (rs : List Inventory)
      → count holding rs ≡ 1
      → total (pool t' s' v') on_hand (set_where holding take rs)
          + (if same_locator t s v t' s' v' then q else 0)
        ≡ total (pool t' s' v') on_hand rs
  take_moves rs one = elim (Bool-cases (same_locator t s v t' s' v')) [
    | inl e ↦
        let moved =
          rw one at (total-set_where (pool t' s' v') holding take on_hand 0 q (taken_row e) rs) in
        rw e (omega (arith, moved))
    | inr e ↦ rw e (
        omega (
          arith,
          total-set_where_outside (pool t' s' v') holding take on_hand (taken_outside e) rs,
        ))
  ]

  at_most_one : (db : Db) → IsConsistent db → count holding db.inventories ≤ 1
  at_most_one db consistent = omega (
    arith,
    pool_unique t s v db.inventories (consistent_unique db consistent),
    count_le holding (pool t s v) (λ r h. ground arith) db.inventories,
  )

-- What holds after the stock loop.
abbrev pub Took :
    Key → Option Key → Key → Option Key → Key → Quantities → Db → Result (Unit {0}) × Db → Type 0
Took t s t' s' v' m db (ok _, db') =
    (stock t' s' v' db' + named t s t' s' v' m ≡ stock t' s' v' db)
    × IsConsistent db'
    × (db' ≡ record db { inventories = db'.inventories })
Took t s t' s' v' m db (err e, db') = Unit

module _ ⦃prisma : Prisma⦄ (t : Key) (now : Instant) (s : Option Key) (t' : Key) (s' : Option Key)
    (v' : Key) where
  take_stock-Took :
      (v : Key) (q : ℕ) (db : Db)
      → IsConsistent db
      → Took t s t' s' v' ((v, q) ∷ []) db (take_stock s v q (within t now) db)
  unfolding take_stock
  take_stock-Took v q db consistent = ground (
    arith,
    update_many_cases inventory_model refl t now db (holds v s q) (taken q),
    at_most_one t now s v q t' s' v' db consistent,
    take_moves t now s v q t' s' v' db.inventories,
  )

  -- The loop takes every named quantity from its pool, and touches nothing but the pools.
  pub take_all-Took :
      (m : Quantities) (db : Db)
      → IsConsistent db
      → Took t s t' s' v' m db (take_all s m (within t now) db)
  unfolding take_all
  take_all-Took [] db consistent = (omega arith, consistent, refl)
  take_all-Took ((v, q) ∷ m) db consistent =
      elim (Outcome-cases (take_stock s v q (within t now) db)) [
        | inr (e, db', thrown) ↦ ground arith
        | inl (u, db', taken_from) ↦
            let first_step = rw taken_from at (take_stock-Took v q db consistent) in
            ground (arith, take_all-Took m db' first_step.1)
      ]
