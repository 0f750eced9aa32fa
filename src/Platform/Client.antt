-- ===== src/Platform/Client.antt =====
-- The operations of the tenant-scoped client: the extension's arguments, then the query.
use business_platform.Platform.Constraints.{some_row}
use business_platform.Prelude.{
  drop_where, ℕ, suc, Bool, Option, List, map, length, ◌&&◌, if◌then◌else◌, take,
}
use business_platform.Prisma.{Prisma, Reply, reply, fault, p2003, SortDirection}
use business_platform.Schema.{Db, Key}
use business_platform.Platform.Models.{Model}
use business_platform.Platform.Effects.{Result, ok, err, database, Action}
use business_platform.Platform.Scoping.{Operation, filter_args, all_operations}

module _ ⦃prisma : Prisma⦄ {Row : Type 0} where
  -- The reply of a write: its rows are stored, or its error is thrown.
  abbrev stored : {A : Type 0} → Model Row → Reply (A × List Row) → Db → Result A × Db
  stored m (reply (a, rs)) db = (ok a, m.with_rows rs db)
  stored m (fault e) db = (err (database e), db)

  unfoldable pub find_unique : Model Row → (Row → Bool) → Action (Option Row)
  find_unique m w c db = elim (all_operations m Operation.find_unique (filter_args w) c) [
    | err e ↦ (err e, db)
    | ok a ↦ (ok (prisma.find_unique Row a.filter (m.rows db)), db)
  ]

  unfoldable pub find_first : Model Row → (Row → Bool) → Action (Option Row)
  find_first m w c db = elim (all_operations m Operation.find_first (filter_args w) c) [
    | err e ↦ (err e, db)
    | ok a ↦ (ok (prisma.find_first Row a.filter (m.rows db)), db)
  ]

  unfoldable pub find_many : Model Row → (Row → Bool) → Action (List Row)
  find_many m w c db = elim (all_operations m Operation.find_many (filter_args w) c) [
    | err e ↦ (err e, db)
    | ok a ↦ (ok (prisma.find_many Row a.filter (m.rows db)), db)
  ]

  unfoldable pub find_first_by : Model Row → (Row → ℕ) → (Row → Bool) → Action (Option Row)
  find_first_by m key w c db = elim (all_operations m Operation.find_first (filter_args w) c) [
    | err e ↦ (err e, db)
    | ok a ↦ (ok (prisma.find_first_by Row key a.filter (m.rows db)), db)
  ]

  unfoldable pub find_many_by : Model Row → (Row → ℕ) → (Row → Bool) → Action (List Row)
  find_many_by m key w c db = elim (all_operations m Operation.find_many (filter_args w) c) [
    | err e ↦ (err e, db)
    | ok a ↦ (ok (prisma.find_many_by Row key a.filter (m.rows db)), db)
  ]

  -- `findMany` with `orderBy: buildOrderBy(…)` and `take`.
  unfoldable pub find_page :
      Model Row → SortDirection → (Row → ℕ) → (Row → Key) → (Row → Bool) → ℕ → Action (List Row)
  find_page m direction primary id w n c db =
      elim (all_operations m Operation.find_many (filter_args w) c) [
        | err e ↦ (err e, db)
        | ok a ↦ (
          ok (take n (prisma.find_many_sorted Row direction primary id a.filter (m.rows db))),
          db,
        )
      ]

  unfoldable pub create : Model Row → Row → Action Row
  create m r c db = elim (all_operations m Operation.create (filter_args (λ _. Bool.true)) c) [
    | err e ↦ (err e, db)
    | ok a ↦ stored m (prisma.create Row m.check (a.values r) (m.rows db)) db
  ]

  unfoldable pub update : Model Row → (Row → Bool) → (Row → Row) → Action Row
  update m w f c db =
      elim (all_operations m Operation.update (record (filter_args w) { values = f }) c) [
        | err e ↦ (err e, db)
        | ok a ↦
            stored m
              (prisma.update Row m.check a.filter (λ r. m.touch c.now (a.values r)) (m.rows db)) db
      ]

  unfoldable pub update_many : Model Row → (Row → Bool) → (Row → Row) → Action ℕ
  update_many m w f c db =
      elim (all_operations m Operation.update_many (record (filter_args w) { values = f }) c) [
        | err e ↦ (err e, db)
        | ok a ↦
            stored m
              (prisma.update_many Row m.check a.filter (λ r. m.touch c.now (a.values r))
                (m.rows db))
              db
      ]

module _ ⦃prisma : Prisma⦄ {Row : Type 0} where
  unfoldable pub delete : Model Row → (Row → Bool) → Action Row
  delete m w c db = elim (all_operations m Operation.delete (filter_args w) c) [
    | err e ↦ (err e, db)
    | ok a ↦ stored m (prisma.delete Row a.filter (m.rows db)) db
  ]

  -- The same where a foreign key is ON DELETE RESTRICT: a row that is referred to stays.
  unfoldable pub delete_unless : Model Row → (Row → Db → Bool) → (Row → Bool) → Action Row
  delete_unless m is_referenced w c db =
      elim (all_operations m Operation.delete (filter_args w) c) [
        | err e ↦ (err e, db)
        | ok a ↦
            if some_row (λ r. a.filter r && is_referenced r db) (m.rows db)
            then (err (database p2003), db)
            else stored m (prisma.delete Row a.filter (m.rows db)) db
      ]

  unfoldable pub delete_many : Model Row → (Row → Bool) → Action ℕ
  delete_many m w c db = elim (all_operations m Operation.delete_many (filter_args w) c) [
    | err e ↦ (err e, db)
    | ok a ↦ stored m (prisma.delete_many Row a.filter (m.rows db)) db
  ]

  unfoldable pub create_many : Model Row → List Row → Action ℕ
  create_many m rs c db =
      elim (all_operations m Operation.create_many (filter_args (λ _. Bool.true)) c) [
        | err e ↦ (err e, db)
        | ok a ↦ stored m (prisma.create_many Row m.check (map a.values rs) (m.rows db)) db
      ]

  -- The number of rows that fit.
  unfoldable pub count_rows : Model Row → (Row → Bool) → Action ℕ
  count_rows m w c db = elim (all_operations m Operation.count (filter_args w) c) [
    | err e ↦ (err e, db)
    | ok a ↦ (ok (length (prisma.find_many Row a.filter (m.rows db))), db)
  ]

  -- `include` and a nested `select`: related rows, which the extension does not scope.
  unfoldable pub find_related : (Db → List Row) → (Row → Bool) → Action (List Row)
  find_related rows w c db = (ok (prisma.find_many Row w (rows db)), db)

  -- ON DELETE CASCADE: the rows that refer to a deleted one go with it.
  unfoldable pub cascade : Model Row → (Row → Bool) → Action (Unit {0})
  cascade m w c db = (ok tt, m.with_rows (drop_where w (m.rows db)) db)

-- The next identifier that the client generates.
unfoldable pub fresh_id : ⦃prisma : Prisma⦄ → Action Key
fresh_id ⦃prisma⦄ c db =
    (ok (prisma.new_id db.generated), record db { generated = suc db.generated })
