-- ===== src/Reservation/Listing.antt =====
-- listReservations of src/reservation/reservation.service.ts.
use business_platform.Prelude.{Option, Bool, true, false, [], ◌∷◌, ◌&&◌, ltb, map, none, some, not}
use business_platform.Prisma.{Prisma}
use business_platform.Schema.{Key, Text, Instant, Reservation, ReservationStatus}
use business_platform.Platform.{
  Action, Result, ok, err, pure, returns, throw_if, bad_request, invalid_list_range, ◌>>=◌, ◌>>◌,
  require_tenant_id, reservation_model,
}
use business_platform.Pagination.Listing.{
  Runtime, SortColumn, PageQuery, Paginated, list_rows, map_page, status_name, customer_id_name,
  equipment_id_name, from_name, to_name, created_at_name, start_at_name, text_of, given_field,
  equals, or_default,
}
use business_platform.Reservation.{Timestamp, ReservationSummary, to_summary, parse_instant}

-- The columns that a list may be sorted by.
pub data SortBy : Type 0 where
  created_at start_at : SortBy

pub record ReservationListQueryDto : Type 0 where
  pub page : PageQuery
  pub status : Option ReservationStatus
  pub customer_id : Option Key
  pub equipment_id : Option Key
  pub from_instant : Option Timestamp
  pub to_instant : Option Timestamp
  pub sort_by : Option SortBy

abbrev pub reservation_status_text : ReservationStatus → Text
reservation_status_text ReservationStatus.reserved = 1
reservation_status_text ReservationStatus.active = 2
reservation_status_text ReservationStatus.completed = 3
reservation_status_text ReservationStatus.cancelled = 4

abbrev pub sort_name : SortBy → Text
sort_name SortBy.created_at = created_at_name
sort_name SortBy.start_at = start_at_name

abbrev pub sort_value : SortBy → Reservation → Instant
sort_value SortBy.created_at r = r.created_at
sort_value SortBy.start_at r = r.start_at

abbrev pub sort_column : SortBy → SortColumn Reservation
sort_column s = record { name = sort_name s; primary = sort_value s; id = λ r. r.id }

abbrev pub parse_given : Option Timestamp → Result (Option Instant)
parse_given none = ok none
parse_given (some v) = elim (parse_instant v) [ ok i ↦ ok (some i) | err e ↦ err e ]

-- `from && to && !(from.getTime() < to.getTime())`
abbrev pub is_empty_range : Option Instant → Option Instant → Bool
is_empty_range (some f) (some t) = not (ltb f t)
is_empty_range _ _ = false

-- `{ startAt: { lt: to } }` and `{ endAt: { gt: from } }`
abbrev pub in_range : Option Instant → Option Instant → Reservation → Bool
in_range none none r = true
in_range none (some t) r = ltb r.start_at t
in_range (some f) none r = ltb f r.end_at
in_range (some f) (some t) r = ltb r.start_at t && ltb f r.end_at

abbrev pub is_listed :
    ReservationListQueryDto → Option Instant → Option Instant → Reservation → Bool
is_listed query f t r =
    (equals (text_of reservation_status_text query.status) (reservation_status_text r.status)
      && (equals query.customer_id r.customer_id && equals query.equipment_id r.equipment_id))
    && in_range f t r

unfoldable pub list_reservations :
    ⦃prisma : Prisma⦄
    → ⦃runtime : Runtime⦄ → ReservationListQueryDto
    → Action (Paginated ReservationSummary)
list_reservations ⦃runtime⦄ query = do
  require_tenant_id
  f ← returns (parse_given query.from_instant)
  t ← returns (parse_given query.to_instant)
  throw_if (is_empty_range f t) (bad_request invalid_list_range)
  page ←
      list_rows (sort_column (or_default query.sort_by SortBy.created_at)) reservation_model
        (is_listed query f t)
        ((status_name, given_field (text_of reservation_status_text query.status))
          ∷ (customer_id_name, given_field query.customer_id)
          ∷ (equipment_id_name, given_field query.equipment_id)
          ∷ (from_name, given_field (text_of runtime.to_iso_string f))
          ∷ (to_name, given_field (text_of runtime.to_iso_string t))
          ∷ [])
        query.page
  pure (map_page (map to_summary) page)
