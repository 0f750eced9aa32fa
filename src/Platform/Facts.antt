-- ===== src/Platform/Facts.antt =====
-- What each operation of the tenant-scoped client does in a request that runs for tenant `t`, and
-- that it fails closed outside of one.
use business_platform.Prelude.{
  drop_where, ℕ, ◌≡◌, ◌⊎◌, inl, inr, Bool, true, ◌&&◌, ◌==◌, none, some, ◌∷◌, arith, first,
  first_cases, count, set_where, In, Option-cases, take,
}
use business_platform.Prisma.{Prisma, DbError, p2025, SortDirection}
use business_platform.Schema.{Db, Key, Instant}
use business_platform.Platform.Effects.{ok, err, database, within}
use business_platform.Platform.Models.{Model}
use business_platform.Platform.Scoping.{is_tenant_scoped}
use business_platform.Platform.Client.{
  find_unique, find_first, find_many, find_many_by, find_page, create, update, update_many, delete,
}

-- The row test that the extension passes on.
abbrev pub owned : {Row : Type 0} → Model Row → Key → (Row → Bool) → Row → Bool
owned m t w r = w r && m.tenant_of r == t

-- The row change that the extension passes on, with the `@updatedAt` column.
abbrev pub owned_values : {Row : Type 0} → Model Row → Key → Instant → (Row → Row) → Row → Row
owned_values m t now f r = m.touch now (m.with_tenant t (f r))

module _ ⦃prisma : Prisma⦄ {Row : Type 0} (m : Model Row) (scoped : is_tenant_scoped m.name ≡ true)
    (t : Key) (now : Instant) (db : Db) where
  pub find_unique_eq :
      (w : Row → Bool)
      → find_unique m w (within t now) db ≡ (ok (first (owned m t w) (m.rows db)), db)
  unfolding find_unique
  find_unique_eq w = ground (arith, prisma.find_unique_lem Row (owned m t w) (m.rows db))

  pub find_first_cases :
      (w : Row → Bool)
      → ((find_first m w (within t now) db ≡ (ok none, db)) × (count (owned m t w) (m.rows db) ≡ 0))
        ⊎ ((r : Row) × (find_first m w (within t now) db ≡ (ok (some r), db))
            × In r (m.rows db)
            × (owned m t w r ≡ true))
  unfolding find_first
  find_first_cases w = elim (Option-cases (prisma.find_first Row (owned m t w) (m.rows db))) [
    | inl e ↦ inl (ground arith, prisma.find_first_none Row (owned m t w) (m.rows db) e)
    | inr (r, e) ↦
        let (i, h) = prisma.find_first_some Row (owned m t w) (m.rows db) r e in
        inr (r, ground arith, i, h)
  ]

  pub update_many_cases :
      (w : Row → Bool) (f : Row → Row)
      → ((update_many m w f (within t now) db ≡ (
        ok (count (owned m t w) (m.rows db)),
        m.with_rows (set_where (owned m t w) (owned_values m t now f) (m.rows db)) db,
      ))
          × (m.check (set_where (owned m t w) (owned_values m t now f) (m.rows db)) ≡ none))
        ⊎ ((e : DbError) × (update_many m w f (within t now) db ≡ (err (database e), db)))
  unfolding update_many
  update_many_cases w f =
      let law =
        prisma.update_many_lem Row m.check (owned m t w) (owned_values m t now f) (m.rows db) in
      elim (Option-cases (m.check (set_where (owned m t w) (owned_values m t now f) (m.rows db)))) [
        | inl e ↦ inl (ground arith, e)
        | inr (x, e) ↦ inr (x, ground arith)
      ]

  pub update_many_eq :
      (w : Row → Bool) (f : Row → Row)
      → m.check (set_where (owned m t w) (owned_values m t now f) (m.rows db)) ≡ none
      → update_many m w f (within t now) db ≡ (
        ok (count (owned m t w) (m.rows db)),
        m.with_rows (set_where (owned m t w) (owned_values m t now f) (m.rows db)) db,
      )
  unfolding update_many
  update_many_eq w f h =
      ground (
        arith,
        prisma.update_many_lem Row m.check (owned m t w) (owned_values m t now f) (m.rows db),
      )

  pub create_cases :
      (r : Row)
      → ((create m r (within t now) db
            ≡ (ok (m.with_tenant t r), m.with_rows (m.with_tenant t r ∷ m.rows db) db))
          × (m.check (m.with_tenant t r ∷ m.rows db) ≡ none))
        ⊎ ((e : DbError) × (create m r (within t now) db ≡ (err (database e), db))
            × (m.check (m.with_tenant t r ∷ m.rows db) ≡ some e))
  unfolding create
  create_cases r =
      let law = prisma.create_lem Row m.check (m.with_tenant t r) (m.rows db) in
      elim (Option-cases (m.check (m.with_tenant t r ∷ m.rows db))) [
        | inl e ↦ inl (ground arith, e)
        | inr (x, e) ↦ inr (x, ground arith, e)
      ]

  pub update_cases :
      (w : Row → Bool) (f : Row → Row)
      → ((update m w f (within t now) db ≡ (err (database p2025), db))
          × (count (owned m t w) (m.rows db) ≡ 0))
        ⊎ ((r : Row) × (update m w f (within t now) db ≡ (
          ok (owned_values m t now f r),
          m.with_rows (set_where (owned m t w) (owned_values m t now f) (m.rows db)) db,
        ))
            × (first (owned m t w) (m.rows db) ≡ some r)
            × (owned m t w r ≡ true)
            × (m.check (set_where (owned m t w) (owned_values m t now f) (m.rows db)) ≡ none))
        ⊎ ((e : DbError) × (update m w f (within t now) db ≡ (err (database e), db))
            × (m.check (set_where (owned m t w) (owned_values m t now f) (m.rows db)) ≡ some e))
  unfolding update
  update_cases w f =
      let law = prisma.update_lem Row m.check (owned m t w) (owned_values m t now f) (m.rows db) in
      elim (first_cases (owned m t w) (m.rows db)) [
        | inl (none_fits, zero_fit) ↦ inl (ground arith, zero_fit)
        | inr (r, fits, i, h) ↦
            elim (Option-cases
              (m.check (set_where (owned m t w) (owned_values m t now f) (m.rows db)))) [
                | inl e ↦ inr (inl (r, ground arith, fits, h, e))
                | inr (x, e) ↦ inr (inr (x, ground arith, e))
              ]
      ]

  pub delete_cases :
      (w : Row → Bool)
      → ((delete m w (within t now) db ≡ (err (database p2025), db))
          × (count (owned m t w) (m.rows db) ≡ 0))
        ⊎ ((r : Row) × (delete m w (within t now) db
              ≡ (ok r, m.with_rows (drop_where (owned m t w) (m.rows db)) db))
            × (first (owned m t w) (m.rows db) ≡ some r))
  unfolding delete
  delete_cases w =
      let law = prisma.delete_lem Row (owned m t w) (m.rows db) in
      elim (first_cases (owned m t w) (m.rows db)) [
        | inl (none_fits, zero_fit) ↦ inl (ground arith, zero_fit)
        | inr (r, fits, i, h) ↦ inr (r, ground arith, fits)
      ]

  pub find_many_eq :
      (w : Row → Bool)
      → find_many m w (within t now) db ≡ (ok (prisma.find_many Row (owned m t w) (m.rows db)), db)
  unfolding find_many
  find_many_eq w = ground arith

  pub find_page_eq :
      (direction : SortDirection) (primary : Row → ℕ) (id : Row → Key) (w : Row → Bool) (n : ℕ)
      → find_page m direction primary id w n (within t now) db ≡ (
        ok (take n (prisma.find_many_sorted Row direction primary id (owned m t w) (m.rows db))),
        db,
      )
  unfolding find_page
  find_page_eq direction primary id w n = ground arith

  pub find_many_by_eq :
      (key : Row → ℕ) (w : Row → Bool)
      → find_many_by m key w (within t now) db
        ≡ (ok (prisma.find_many_by Row key (owned m t w) (m.rows db)), db)
  unfolding find_many_by
  find_many_by_eq key w = ground arith
