-- ===== src/Reservation/Listed.antt =====
-- What a client sees of the reservations by following the cursors of their list.
use business_platform.Reservation.{ReservationSummary, to_summary}
use business_platform.Pagination.Mapped.{summaries, walk-map, walk_same}
use business_platform.Pagination.Walk.{walk, request, walk-Lists}
use business_platform.Pagination.Pages.{IsListed}
use business_platform.Pagination.{Token}
use business_platform.Platform.Unique.{IsKeyed}
use business_platform.Platform.{ok, within, reservation_model, Action}
use business_platform.Prisma.{Prisma, SortDirection}
use business_platform.Prelude.{
  true, Option, some, inl, inr, ◌<◌, ◌≡◌, arith, Option-cases, [], ◌∷◌, List, map, ◌≢◌, ◌↔◌, suc,
  length, leb, ℕ, none, In, refl, ◌∙◌, false,
}
use business_platform.Schema.{Key, Instant, Reservation, ReservationStatus, Db}
use business_platform.Pagination.Listing.{
  text_of, equals, Runtime, Filters, Paginated, SortColumn, or_default, max_date, status_name,
  customer_id_name, equipment_id_name, from_name, to_name, given_field,
}
use business_platform.Reservation.Listing.{
  ReservationListQueryDto, is_listed, reservation_status_text, in_range, SortBy, sort_column,
  is_empty_range, parse_given, list_reservations,
}

-- That a reservation is one that the query asks for: of the status, the customer and the equipment
-- that it names, and meeting the time between its instants.
pub record IsWanted (query : ReservationListQueryDto) (f t : Option Instant) (r : Reservation)
    : Type 0 where
  pub status : (s : ReservationStatus) → query.status ≡ some s → r.status ≡ s
  pub customer : (k : Key) → query.customer_id ≡ some k → r.customer_id ≡ k
  pub equipment : (k : Key) → query.equipment_id ≡ some k → r.equipment_id ≡ k
  pub ends_after : (i : Instant) → f ≡ some i → i < r.end_at
  pub starts_before : (i : Instant) → t ≡ some i → r.start_at < i

same_status_text :
    (a b : ReservationStatus) → reservation_status_text a ≡ reservation_status_text b → a ≡ b
same_status_text a b h = ground arith

is_listed-IsWanted :
    (query : ReservationListQueryDto) (f t : Option Instant) (r : Reservation)
    → is_listed query f t r ≡ true
    → IsWanted query f t r
is_listed-IsWanted query f t r h = record {
  status = λ s e. ground (arith, same_status_text r.status s);
  customer = λ k e. ground arith;
  equipment = λ k e. ground arith;
  ends_after = λ i e. ground arith;
  starts_before = λ i e. ground arith;
}

IsWanted-is_listed :
    (query : ReservationListQueryDto) (f t : Option Instant) (r : Reservation)
    → IsWanted query f t r
    → is_listed query f t r ≡ true
IsWanted-is_listed query f t r h =
    let status : equals (text_of reservation_status_text query.status)
          (reservation_status_text r.status)
        ≡ true =
      elim (Option-cases query.status) [
        | inl e ↦ ground arith
        | inr (s, e) ↦ let same = h.status s e in ground arith
      ] in
    let customer : equals query.customer_id r.customer_id ≡ true =
      elim (Option-cases query.customer_id) [
        | inl e ↦ ground arith
        | inr (k, e) ↦ let same = h.customer k e in ground arith
      ] in
    let equipment : equals query.equipment_id r.equipment_id ≡ true =
      elim (Option-cases query.equipment_id) [
        | inl e ↦ ground arith
        | inr (k, e) ↦ let same = h.equipment k e in ground arith
      ] in
    let window : in_range f t r ≡ true = elim (Option-cases f) [
      | inl e ↦ elim (Option-cases t) [
        | inl e' ↦ ground arith
        | inr (j, e') ↦ let before = h.starts_before j e' in ground arith
      ]
      | inr (i, e) ↦
          let behind = h.ends_after i e in
          elim (Option-cases t) [
            | inl e' ↦ ground arith
            | inr (j, e') ↦ let before = h.starts_before j e' in ground arith
          ]
    ] in
    ground arith

module _ ⦃prisma : Prisma⦄ ⦃runtime : Runtime⦄ (tenant : Key) (now : Instant) (db : Db)
    (query : ReservationListQueryDto) (limit : ℕ) (order : Option SortDirection)
    (f t : Option Instant) where
  -- The list method, asked for pages of one row or more.
  abbrev pub pages : Option Token → Action (Paginated ReservationSummary)
  pages cursor =
      list_reservations
        record query { page = record { limit = some (suc limit); cursor = cursor; order = order } }

  abbrev column : SortColumn Reservation
  column = sort_column (or_default query.sort_by SortBy.created_at)

  abbrev filters : Filters
  filters =
      (status_name, given_field (text_of reservation_status_text query.status))
      ∷ (customer_id_name, given_field query.customer_id)
      ∷ (equipment_id_name, given_field query.equipment_id)
      ∷ (from_name, given_field (text_of runtime.to_iso_string f))
      ∷ (to_name, given_field (text_of runtime.to_iso_string t))
      ∷ []

  abbrev rows_request : Option Token → Action (Paginated Reservation)
  rows_request =
      request column reservation_model refl (is_listed query f t) filters limit order tenant now db

  -- The reservations of the tenant that the query asks for, in its order.
  abbrev pub Answers : List Reservation → Type 0
  Answers rs =
      IsListed column.primary column.id (or_default order SortDirection.asc) rs
      × ((r : Reservation)
          → In r rs ↔ (In r db.reservations × (r.tenant_id ≡ tenant) × IsWanted query f t r))

  pages-rows :
      parse_given query.from_instant ≡ ok f
      → parse_given query.to_instant ≡ ok t
      → is_empty_range f t ≡ false
      → (cursor : Option Token) (d : Db)
      → pages cursor (within tenant now) d
        ≡ summaries to_summary rows_request (within tenant now) cursor (within tenant now) d
  unfolding list_reservations
  pages-rows from_read to_read some_range cursor d = ground arith

  -- If the instants of the query can be read and are in order, identifiers are unique and not empty
  -- and the instants that the list is sorted by are those of dates, then a client that follows the
  -- cursors, through more pages than there are reservations, gets to the end and has seen just the
  -- reservations of its tenant that the query asks for, each once and in order; nothing is changed.
  pub list_reservations-Answers :
      parse_given query.from_instant ≡ ok f
      → parse_given query.to_instant ≡ ok t
      → is_empty_range f t ≡ false
      → IsKeyed (λ (r : Reservation). r.id) db.reservations
      → ((r : Reservation)
          → In r db.reservations
          → (r.id ≢ 0) × (leb (column.primary r) max_date ≡ true))
      → (n : ℕ) → length db.reservations < n
      → (rs : List Reservation) × (walk pages n none (within tenant now) db
          ≡ (ok (some (map to_summary rs)), db))
        × Answers rs
  list_reservations-Answers from_read to_read some_range keyed dated n enough =
      let (rs, seen, (listed, wanted)) =
        walk-Lists column reservation_model refl (is_listed query f t) filters limit order tenant
          now db keyed dated n enough in
      (
        rs,
        walk_same pages (summaries to_summary rows_request (within tenant now)) (within tenant now)
              (pages-rows from_read to_read some_range) n none db
            ∙ walk-map to_summary rows_request (within tenant now) n none rs db db seen,
        (
          listed,
          λ r. (
            (λ i.
                let (j, own, fits) = (wanted r).0 i in
                (j, own, is_listed-IsWanted query f t r fits)),
            λ (j, own, asked). (wanted r).1 (j, own, IsWanted-is_listed query f t r asked),
          ),
        ),
      )
