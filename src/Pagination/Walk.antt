-- ===== src/Pagination/Walk.antt =====
-- That a client that follows the cursors of a list sees each row that fits once, and gets to the end.
use business_platform.Pagination.Lemmas.{
  In-append, append_nothing, length-append, last-In, In-length, fetch_page-last, select-select,
  select_all, length-sum_of, length-total,
}
use business_platform.Prelude.{
  Bool, In, In-select, List, Option, ap, arith, leb, length, none, refl, select, some, subst, suc,
  sym, take, true, zero, ℕ, ◌&&◌, ◌++◌, ◌<◌, ◌↔◌, ◌∙◌, ◌≡◌, ◌≢◌, ◌≤◌,
}
use mathlib.Core.Option.{some-injective}
use business_platform.Prisma.{Prisma, SortDirection}
use business_platform.Schema.{Db, Key, Instant}
use business_platform.Platform.{Action, Model, ok, pure, within, ◌>>=◌}
use business_platform.Platform.Facts.{owned, find_page_eq}
use business_platform.Platform.Scoping.{is_tenant_scoped}
use business_platform.Platform.Unique.{IsKeyed}
use business_platform.Pagination.{Token, fetch_page, last}
use business_platform.Pagination.Pages.{fetch_page-Splits, Splits, IsListed, after}
use business_platform.Pagination.Listing.{
  Runtime, Filters, Paginated, SortColumn, list_rows, or_default, max_date, encode_row_cursor,
  to_paginated, resolve_list_continuation, is_after, filter_fingerprint,
}
use business_platform.Pagination.Sorted.{
  sorted-In, sorted-select, sorted_once-IsListed, select-IsListed,
}

-- A client that asks for a page, then for the one of its cursor, and so on until a page has none;
-- `none` if there were more pages than it wanted to see.
abbrev pub walk :
    {A : Type 0}
    → (Option Token → Action (Paginated A))
    → ℕ
    → Option Token
    → Action (Option (List A))
walk request zero cursor = pure none
walk request (suc n) cursor = request cursor >>= λ page. elim page.next_cursor [
  | none ↦ pure (some page.rows)
  | some token ↦ walk request n (some token) >>= λ rest.
      pure (elim rest [ none ↦ none | some rows ↦ some (page.rows ++ rows) ])
]

module _ ⦃prisma : Prisma⦄ ⦃runtime : Runtime⦄ {Row : Type 0} (column : SortColumn Row)
    (m : Model Row) (scoped : is_tenant_scoped m.name ≡ true) (fits : Row → Bool)
    (equality : Filters) (limit : ℕ) (order : Option SortDirection) (t : Key) (now : Instant)
    (db : Db) where
  abbrev direction : SortDirection
  direction = or_default order SortDirection.asc

  -- The list method, asked for pages of one row or more.
  abbrev pub request : Option Token → Action (Paginated Row)
  request cursor =
      list_rows column m fits equality
        record { limit = some (suc limit); cursor = cursor; order = order }

  abbrev listing : List Row
  listing =
      prisma.find_many_sorted Row direction column.primary column.id (owned m t fits) (m.rows db)

  -- A page, from a continuation that was resolved.
  request-page :
      (cursor : Option Token) (start : Option (ℕ × Key))
      → resolve_list_continuation cursor column.name direction equality true
        ≡ ok (record { fingerprint = filter_fingerprint equality; after = start })
      → request cursor (within t now) db ≡ (
        ok (
            to_paginated column direction (filter_fingerprint equality) (
              fetch_page
                (take (suc (suc limit)) (
                  prisma.find_many_sorted Row direction column.primary column.id
                    (owned m t λ r. fits r && is_after column direction start r)
                    (m.rows db)))
                (suc limit))),
        db,
      )
  unfolding list_rows
  request-page cursor start e = ground (
    arith,
    find_page_eq m scoped t now db direction column.primary column.id
        (λ r. fits r && is_after column direction start r) (suc (suc limit)),
  )

  -- The rows of tenant `t` that fit, in the order of the list.
  abbrev pub Lists : List Row → Type 0
  Lists rs =
      IsListed column.primary column.id direction rs
      × ((r : Row) → In r rs ↔ (In r (m.rows db) × (m.tenant_of r ≡ t) × (fits r ≡ true)))

  module _ (keyed : IsKeyed column.id (m.rows db))
      (dated : (r : Row)
        → In r (m.rows db)
        → (column.id r ≢ 0) × (leb (column.primary r) max_date ≡ true)) where
    -- A cursor that the list method made is read back.
    resolves_row :
        (y : Row)
        → In y (m.rows db)
        → resolve_list_continuation
            (some (encode_row_cursor column direction (filter_fingerprint equality) y))
            column.name
            direction
            equality
            true
          ≡ ok (record {
            fingerprint = filter_fingerprint equality;
            after = some (column.primary y, column.id y);
          })
    resolves_row y i = let (named, in_range) = dated y i in ground arith

    -- The rows that are left after a key.
    abbrev left : Option (ℕ × Key) → List Row
    left start = select (is_after column direction start) listing

    found_left :
        (start : Option (ℕ × Key))
        → prisma.find_many_sorted Row direction column.primary column.id
            (owned m t λ r. fits r && is_after column direction start r)
            (m.rows db)
          ≡ left start
    found_left start =
        sorted-select column.primary column.id direction (m.rows db) keyed (owned m t fits)
          (is_after column direction start)
          (owned m t λ r. fits r && is_after column direction start r) (λ r. ground arith)

    left-IsListed :
        (start : Option (ℕ × Key)) → IsListed column.primary column.id direction (left start)
    left-IsListed start =
        select-IsListed column.primary column.id direction (is_after column direction start) listing
          (sorted_once-IsListed column.primary column.id direction (m.rows db) keyed
            (owned m t fits))

    after_key :
        (start : Option (ℕ × Key)) (y r : Row)
        → is_after column direction start y ≡ true
        → after column.primary column.id direction y r ≡ true
        → is_after column direction start r ≡ true
    after_key none y r h k = refl
    after_key (some (p, i)) y r h k = ground arith

    -- What one request does: the page is the last, or its cursor leads to the rows behind it.
    abbrev Turns : List Row → List Row × Option Row → Type 0
    Turns rs (page, none) = page ≡ rs
    Turns rs (page, some y) =
        In y rs
        × (page ++ select (after column.primary column.id direction y) rs ≡ rs)
        × (1 ≤ length page)

    Splits-Turns :
        (rs : List Row) (out : List Row × Option Row)
        → Splits column.primary column.id direction (suc limit) rs out
        → ((y : Row) → out.1 ≡ some y → last out.0 ≡ some y)
        → Turns rs out
    Splits-Turns rs (page, none) h k = sym (append_nothing page) ∙ h.0
    Splits-Turns rs (page, some y) h k =
        let i = last-In page y (k y refl) in
        (
          subst (In y) h.0
              (In-append page (select (after column.primary column.id direction y) rs) y i),
          h.0,
          In-length page y i,
        )

    next_left :
        (start : Option (ℕ × Key)) (y : Row)
        → In y (left start)
        → select (after column.primary column.id direction y) (left start)
          ≡ left (some (column.primary y, column.id y))
    next_left start y i =
        select-select (after column.primary column.id direction y) (is_after column direction start)
          listing
          (λ r h. after_key start y r (In-select (is_after column direction start) listing y i).1 h)

    -- The rows of a page, and then those of the pages behind it.
    turn :
        (n : ℕ) (cursor : Option Token) (start : Option (ℕ × Key)) (out : List Row × Option Row)
        → request cursor (within t now) db
          ≡ (ok (to_paginated column direction (filter_fingerprint equality) out), db)
        → Turns (left start) out
        → ((y : Row)
            → out.1 ≡ some y
            → walk request n
                (some (encode_row_cursor column direction (filter_fingerprint equality) y))
                (within t now)
                db
              ≡ (ok (some (left (some (column.primary y, column.id y)))), db))
        → walk request (suc n) cursor (within t now) db ≡ (ok (some (left start)), db)
    turn n cursor start (page, none) e turns ih = ground arith
    turn n cursor start (page, some y) e (i, whole, some_row) ih =
        let rest = ih y refl in let behind = next_left start y i in ground arith

    behind_a_page :
        (rs : List Row) (out : List Row × Option Row) (y : Row)
        → Turns rs out
        → out.1 ≡ some y
        → In y rs × (length (select (after column.primary column.id direction y) rs) < length rs)
    behind_a_page rs (page, none) y turns e = ground arith
    behind_a_page rs (page, some z) y (i, whole, some_row) e =
        let behind : Row → List Row = λ x. select (after column.primary column.id direction x) rs in
        let same = some-injective z y e in
        let fewer : length (behind z) < length rs =
          omega (arith, length-append page (behind z), ap length whole) in
        (subst (λ x. In x rs) same i, subst (λ x. length (behind x) < length rs) same fewer)

    walks :
        (n : ℕ) (cursor : Option Token) (start : Option (ℕ × Key))
        → resolve_list_continuation cursor column.name direction equality true
          ≡ ok (record { fingerprint = filter_fingerprint equality; after = start })
        → length (left start) < n
        → walk request n cursor (within t now) db ≡ (ok (some (left start)), db)
    walks zero cursor start e h = elim h [ ]
    walks (suc n) cursor start e h =
        let found = fetch_page (take (suc (suc limit)) (left start)) (suc limit) in
        let page : request cursor (within t now) db
            ≡ (ok (to_paginated column direction (filter_fingerprint equality) found), db) =
          subst
            (λ rs. request cursor (within t now) db ≡ (
              ok (
                  to_paginated column direction (filter_fingerprint equality)
                    (fetch_page (take (suc (suc limit)) rs) (suc limit))),
              db,
            ))
            (found_left start) (request-page cursor start e) in
        let splits =
          fetch_page-Splits column.primary column.id direction limit (left start)
            (left-IsListed start) in
        let turns = Splits-Turns (left start) found splits (λ y ends.
          fetch_page-last (take (suc (suc limit)) (left start)) found.0 (suc limit) y
            (ground arith)) in
        turn n cursor start found page turns λ y ends.
          let (i, fewer) = behind_a_page (left start) found y turns ends in
          let listed = (In-select (is_after column direction start) listing y i).0 in
          let there =
            (prisma.find_many_sorted_in Row direction column.primary column.id (owned m t fits)
              (m.rows db) y listed).0 in
          walks n (some (encode_row_cursor column direction (filter_fingerprint equality) y))
            (some (column.primary y, column.id y)) (resolves_row y there)
            (omega (arith, fewer, h, ap length (next_left start y i)))

    -- If identifiers are unique and not empty and the instants of the list are those of dates, a
    -- client that follows the cursors of a list, from no cursor on and through more pages than the
    -- table has rows, gets to the end and has seen just the rows of its tenant that fit, each once
    -- and in the order of the list; nothing is changed.
    pub walk-Lists :
        (n : ℕ)
        → length (m.rows db) < n
        → (rs : List Row) × (walk request n none (within t now) db ≡ (ok (some rs), db)) × Lists rs
    walk-Lists n enough =
        let whole = select_all listing in
        let short = length-total (owned m t fits) (m.rows db) in
        let as_long =
          length-sum_of listing
          ∙ prisma.find_many_sorted_total Row direction column.primary column.id (owned m t fits)
              (λ r. 1) (m.rows db) in
        (
          left none,
          walks n none none refl (omega (arith, short, as_long, enough, ap length whole)),
          (
            left-IsListed none,
            λ r. (
              (λ i.
                  let (j, own) =
                    prisma.find_many_sorted_in Row direction column.primary column.id
                      (owned m t fits) (m.rows db) r (subst (In r) whole i) in
                  (j, ground arith, ground arith)),
              λ (i, own, fit). subst (In r) (sym whole) (
                  sorted-In column.primary column.id direction (m.rows db) keyed (owned m t fits) r
                    i (ground arith)),
            ),
          ),
        )
