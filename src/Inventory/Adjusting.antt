-- ===== src/Inventory/Adjusting.antt =====
-- What adjusting a pool does to every pool: `adjustScoped` moves the named one by exactly its
-- delta and no other, or throws and moves none.
use business_platform.Prelude.{
  Option, suc, ◌+◌, ◌≤◌, ◌≡◌, refl, ◌⊎◌, inl, inr, ◌&&◌, arith, ◌==◌, same_option→eq,
  same_option_refl, if◌then◌else◌, count, set_where, set_where-none, count_le, count-set_where_le,
  ℤ, pos_part, neg_part, Bool-cases,
}
use business_platform.Prisma.{Prisma, DbError}
use business_platform.Schema.{Db, Key, Instant}
use business_platform.Platform.{
  Result, ok, err, Error, database, within, catch, fresh_id, inventory_model, product_variant_model,
  store_model,
}
use business_platform.Platform.Facts.{
  find_unique_eq, find_first_cases, update_many_cases, create_cases,
}
use business_platform.Inventory.{
  InventoryScope, scope_store, global, store, pool_where, covers, increment, AdjustInventoryDto,
  InventorySummary, to_summary, guarded_increment, adjusted, assert_scope_store, create_pool, retry,
  adjust_pool, adjust_scoped,
}
use business_platform.Inventory.Stock.{
  pool, stock, same_locator, covered, incremented, stock-increment, stock-increment_other,
  pool_unique, IsConsistent, consistent_unique,
}

-- The change of the pool `t' s' v'` from `db` to `db'`, when `delta` is meant for the pool
-- `t s v`.
abbrev pub Moved : Key → Option Key → Key → Key → Option Key → Key → ℤ → Db → Db → Type 0
Moved t s v t' s' v' delta db db' =
    let here = same_locator t s v t' s' v' in
    stock t' s' v' db' + (if here then neg_part delta else 0)
    ≡ stock t' s' v' db + (if here then pos_part delta else 0)

module _ ⦃prisma : Prisma⦄ (t : Key) (now : Instant) (scope : InventoryScope)
    (dto : AdjustInventoryDto) (t' : Key) (s' : Option Key) (v' : Key) where
  abbrev pub MovedHere : Db → Db → Type 0
  MovedHere = Moved t (scope_store scope) dto.variant_id t' s' v' dto.delta

  increment_moves :
      (db : Db)
      → count (covered t (scope_store scope) dto.variant_id dto.delta) db.inventories ≡ 1
      → MovedHere db (record db {
        inventories =
            set_where
              (covered t (scope_store scope) dto.variant_id dto.delta)
              (incremented t now dto.delta)
              db.inventories;
      })
  increment_moves db one =
      elim (Bool-cases (same_locator t (scope_store scope) dto.variant_id t' s' v')) [
        | inl e ↦
            let moved = rw one at (
              stock-increment t now (scope_store scope) dto.variant_id dto.delta t' s' v' e
                db.inventories) in
            rw e (omega (arith, moved))
        | inr e ↦ rw e (
            omega (
              arith,
              stock-increment_other t now (scope_store scope) dto.variant_id dto.delta t' s' v' e
                  db.inventories,
            ))
      ]

  at_most_one :
      (db : Db)
      → IsConsistent db
      → count (covered t (scope_store scope) dto.variant_id dto.delta) db.inventories ≤ 1
  at_most_one db consistent = omega (
    arith,
    pool_unique t (scope_store scope) dto.variant_id db.inventories
        (consistent_unique db consistent),
    count_le (covered t (scope_store scope) dto.variant_id dto.delta)
        (pool t (scope_store scope) dto.variant_id) (λ r h. ground arith) db.inventories,
  )

  still_there :
      (db : Db)
      → count (covered t (scope_store scope) dto.variant_id dto.delta) db.inventories ≡ 1
      → 1
        ≤ count (pool t (scope_store scope) dto.variant_id) (
            set_where
              (covered t (scope_store scope) dto.variant_id dto.delta)
              (incremented t now dto.delta)
              db.inventories)
  still_there db one = omega (
    arith,
    count-set_where_le (covered t (scope_store scope) dto.variant_id dto.delta)
        (pool t (scope_store scope) dto.variant_id) (incremented t now dto.delta)
        (λ r h. ground arith) db.inventories,
  )

  -- The guarded increment moves the pool, or finds no row that covers the delta, or throws.
  guarded_increment_cases :
      (db : Db)
      → IsConsistent db
      → ((db' : Db) × (guarded_increment scope dto (within t now) db ≡ (ok 1, db'))
          × MovedHere db db'
          × IsConsistent db'
          × (1 ≤ count (pool t (scope_store scope) dto.variant_id) db'.inventories))
        ⊎ (guarded_increment scope dto (within t now) db ≡ (ok 0, db))
        ⊎ ((e : DbError) × (guarded_increment scope dto (within t now) db ≡ (err (database e), db)))
  unfolding guarded_increment
  guarded_increment_cases db consistent =
      elim (update_many_cases inventory_model refl t now db
        (λ r. pool_where scope dto.variant_id r && covers dto.delta r) (increment dto.delta)) [
          | inr (x, e) ↦ inr (inr (x, e))
          | inl (e, k) ↦
              elim (Bool-cases (
                count (covered t (scope_store scope) dto.variant_id dto.delta) db.inventories
                == 1)) [
                  | inl one ↦
                      let one' : count (covered t (scope_store scope) dto.variant_id dto.delta)
                            db.inventories
                          ≡ 1 =
                        ground arith in
                      inl (_, rw one' at e, increment_moves db one', k, still_there db one')
                  | inr other ↦
                      let zero' : count (covered t (scope_store scope) dto.variant_id dto.delta)
                            db.inventories
                          ≡ 0 =
                        ground (arith, at_most_one db consistent) in
                      inr (
                        inl
                          (rw (zero', set_where-none _ (incremented t now dto.delta) _ zero') at e))
                ]
        ]

  adjusted_found :
      (db : Db)
      → 1 ≤ count (pool t (scope_store scope) dto.variant_id) db.inventories
      → (s : InventorySummary) × (adjusted scope dto (within t now) db ≡ (ok s, db))
  unfolding adjusted
  adjusted_found db there =
      elim (find_first_cases inventory_model refl t now db (pool_where scope dto.variant_id)) [
        | inl none_there ↦ absurd (omega (arith, none_there.1))
        | inr (r, e, i, h) ↦ (to_summary r, ground arith)
      ]

  -- How a call that began at `db` may end.
  abbrev pub Ends : Db → Result InventorySummary × Db → Type 0
  Ends db (ok s, db') = MovedHere db db' × IsConsistent db'
  Ends db (err e, db') = db'.inventories ≡ db.inventories

  retry-Ends :
      (db : Db) (e : Error) → IsConsistent db → Ends db (retry scope dto e (within t now) db)
  unfolding retry
  retry-Ends db e consistent = elim (guarded_increment_cases db consistent) [
    | inl (db', g, moved, k, there) ↦ let (s, found) = adjusted_found db' there in ground arith
    | inr rest ↦ ground arith
  ]

  -- A new pool for a delta that is not negative, or the retry after the unique index refused it.
  created_or_retried-Ends :
      (db : Db)
      → IsConsistent db
      → neg_part dto.delta ≡ 0
      → Ends db (catch (create_pool t scope dto) (retry scope dto) (within t now) db)
  unfolding create_pool fresh_id
  created_or_retried-Ends db consistent positive =
      let counted = record db { generated = suc db.generated } in
      elim (create_cases inventory_model refl t now counted record {
        id = prisma.new_id db.generated;
        tenant_id = t;
        variant_id = dto.variant_id;
        store_id = scope_store scope;
        quantity_on_hand = pos_part dto.delta;
        created_at = now;
        updated_at = now;
      }) [
        | inl (e, k) ↦
            ground
              (arith, same_option_refl (scope_store scope), same_option→eq (scope_store scope) s')
        | inr (x, e, k) ↦ ground (arith, retry-Ends counted (database x) consistent)
      ]

  adjust_pool-Ends : (db : Db) → IsConsistent db → Ends db (adjust_pool scope dto (within t now) db)
  unfolding adjust_pool
  adjust_pool-Ends db consistent = elim (guarded_increment_cases db consistent) [
    | inl (db', g, moved, k, there) ↦ let (s, found) = adjusted_found db' there in ground arith
    | inr (inl g) ↦ ground (
      arith,
      find_first_cases inventory_model refl t now db (pool_where scope dto.variant_id),
      created_or_retried-Ends db consistent,
    )
    | inr (inr failed) ↦ ground arith
  ]

-- Looking a s's store up writes nothing.
assert_scope_store_reads :
    ⦃prisma : Prisma⦄ (t : Key) (now : Instant) (scope : InventoryScope) (db : Db)
    → (assert_scope_store scope (within t now) db).1 ≡ db
unfolding assert_scope_store
assert_scope_store_reads t now global db = refl
assert_scope_store_reads t now (store s) db =
    ground (arith, find_unique_eq store_model refl t now db (λ r. r.id == s))

-- Adjusting a pool of tenant `t` whose tables are consistent either succeeds, and then the stock
-- of every pool of every tenant is what it was, but for the named pool, which moved by exactly the
-- delta, and the constraints still hold; or it throws, and no pool has changed.
pub adjust_scoped-moves :
    ⦃prisma : Prisma⦄ (t : Key) (now : Instant) (scope : InventoryScope) (dto : AdjustInventoryDto)
    (t' : Key) (s' : Option Key) (v' : Key) (db : Db)
    → IsConsistent db
    → Ends t now scope dto t' s' v' db (adjust_scoped scope dto (within t now) db)
unfolding adjust_scoped
adjust_scoped-moves t now scope dto t' s' v' db consistent = ground (
  arith,
  find_unique_eq product_variant_model refl t now db (λ r. r.id == dto.variant_id),
  assert_scope_store_reads t now scope db,
  adjust_pool-Ends t now scope dto t' s' v' db consistent,
)
