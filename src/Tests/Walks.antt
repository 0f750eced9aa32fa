-- ===== src/Tests/Walks.antt =====
-- The theorems on the walk through a list, at three reservations of the shop.
use business_platform.Prelude.{
  arith, In, inl, inr, List, map, none, refl, some, true, ◌∷◌, ◌≡◌, ◌≢◌, [], leb, subst, sym, ◌+◌,
}
use business_platform.Prisma.{SortDirection}
use business_platform.Schema.{Db, Instant, Key, Reservation, ReservationStatus}
use business_platform.Platform.{ok, within, reservation_model}
use business_platform.Pagination.Listing.{max_date}
use business_platform.Pagination.Walk.{walk, request, Lists, walk-Lists}
use business_platform.Reservation.{to_summary, iso}
use business_platform.Reservation.Listing.{SortBy, ReservationListQueryDto, sort_column, sort_value}
use business_platform.Reservation.Listed.{pages, Answers, list_reservations-Answers}
use business_platform.Tests.Memory.{in_memory, runtime_of_tests}
use business_platform.Tests.Shop.{shop}

abbrev held : Key → Key → Instant → Reservation
held id tenant start = record {
  id = id;
  tenant_id = tenant;
  customer_id = 2;
  equipment_id = 91;
  start_at = start;
  end_at = start + 100;
  status = ReservationStatus.reserved;
  notes = none;
  created_at = 100;
  updated_at = 100;
}

-- Three reservations of tenant 7, and one of tenant 8.
abbrev calendar : Db
calendar = record shop {
  reservations = held 92 7 3000 ∷ held 93 8 1500 ∷ held 94 7 1000 ∷ held 95 7 2000 ∷ [];
}

held_dated :
    (s : SortBy) (r : Reservation) (id tenant : Key) (start : Instant)
    → r ≡ held id tenant start
    → id ≢ 0
    → leb start max_date ≡ true
    → leb 100 max_date ≡ true
    → (r.id ≢ 0) × (leb (sort_value s r) max_date ≡ true)
held_dated SortBy.created_at r id tenant start e h k l =
    subst (λ y. (y.id ≢ 0) × (leb y.created_at max_date ≡ true)) (sym e) (h, l)
held_dated SortBy.start_at r id tenant start e h k l =
    subst (λ y. (y.id ≢ 0) × (leb y.start_at max_date ≡ true)) (sym e) (h, k)

calendar_dated :
    (s : SortBy) (r : Reservation)
    → In r calendar.reservations
    → (r.id ≢ 0) × (leb (sort_value s r) max_date ≡ true)
calendar_dated s r (inl e) = held_dated s r 92 7 3000 e (λ z. omega (arith, z)) refl refl
calendar_dated s r (inr (inl e)) = held_dated s r 93 8 1500 e (λ z. omega (arith, z)) refl refl
calendar_dated s r (inr (inr (inl e))) =
    held_dated s r 94 7 1000 e (λ z. omega (arith, z)) refl refl
calendar_dated s r (inr (inr (inr (inl e)))) =
    held_dated s r 95 7 2000 e (λ z. omega (arith, z)) refl refl
calendar_dated s r (inr (inr (inr (inr i)))) = elim i [ ]

walk-Lists_example :
    (rs : List Reservation) × (walk
        (request
          (sort_column SortBy.start_at)
          reservation_model
          refl
          (λ r. true)
          []
          0
          none
          7
          200
          calendar)
        5
        none
        (within 7 200)
        calendar
      ≡ (ok (some rs), calendar))
    × Lists
        (sort_column SortBy.start_at)
        reservation_model
        refl
        (λ r. true)
        []
        0
        none
        7
        200
        calendar
        rs
walk-Lists_example =
    walk-Lists (sort_column SortBy.start_at) reservation_model refl (λ r. true) [] 0 none 7 200
      calendar refl (calendar_dated SortBy.start_at) 5 (omega arith)

-- Those that are held after instant 1200, latest first.
abbrev late : ReservationListQueryDto
late = record {
  page = record { limit = none; cursor = none; order = none };
  status = some ReservationStatus.reserved;
  customer_id = none;
  equipment_id = some 91;
  from_instant = some (iso 1200);
  to_instant = none;
  sort_by = some SortBy.start_at;
}

list_reservations-Answers_example :
    (rs : List Reservation) × (walk
        (pages 7 200 calendar late 0 (some SortDirection.desc) (some 1200) none)
        5
        none
        (within 7 200)
        calendar
      ≡ (ok (some (map to_summary rs)), calendar))
    × Answers 7 200 calendar late 0 (some SortDirection.desc) (some 1200) none rs
list_reservations-Answers_example =
    list_reservations-Answers 7 200 calendar late 0 (some SortDirection.desc) (some 1200) none refl
      refl refl refl (calendar_dated SortBy.start_at) 5 (omega arith)
