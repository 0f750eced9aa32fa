-- ===== src/Reservation/Calendar.antt =====
-- What `createReservation` of src/reservation/reservation.service.ts adds to an equipment's
-- calendar.
use business_platform.Prelude.{List, false, none, ◌<◌, ◌∷◌, ◌≡◌, ◌⊎◌}
use business_platform.Prisma.{Prisma}
use business_platform.Schema.{Db, Key, Instant, Reservation, ReservationStatus}
use business_platform.Platform.{Action, Error, Result, ok, err, within}
use business_platform.Platform.Constraints.{reservation_check, reservations_clash, some_row}
use business_platform.Reservation.{
  CreateReservationDto, ReservationSummary, to_summary, parse_instant, is_exclusion_violation,
}

-- The row that a creation adds in front of the table `rs`: reserved, as the payload says, not empty,
-- and clear of every reservation of the table that holds the equipment, of any tenant.
abbrev pub IsPlaced : Key → CreateReservationDto → Reservation → List Reservation → Type 0
IsPlaced t dto r rs =
    (r.tenant_id ≡ t)
    × (r.status ≡ ReservationStatus.reserved)
    × (r.equipment_id ≡ dto.equipment_id)
    × (r.customer_id ≡ dto.customer_id)
    × (parse_instant dto.start_at ≡ ok r.start_at)
    × (parse_instant dto.end_at ≡ ok r.end_at)
    × (r.start_at < r.end_at)
    × (some_row (reservations_clash r) rs ≡ false)

-- How a creation that began at `db` may end.
abbrev pub Placed : Key → CreateReservationDto → Db → Result ReservationSummary × Db → Type 0
Placed t dto db (ok s, db') =
    (r : Reservation) × (db'.reservations ≡ r ∷ db.reservations)
    × (to_summary r ≡ s)
    × IsPlaced t dto r db.reservations
    × (reservation_check db'.reservations ≡ none)
Placed t dto db (err e, db') =
    (db'.reservations ≡ db.reservations) × (is_exclusion_violation e ≡ false)

module _ ⦃prisma : Prisma⦄ (t : Key) (now : Instant) (dto : CreateReservationDto) where
  -- A check passes, or throws an error that is no exclusion violation, and writes nothing.
  abbrev Checks : Action (Unit {0}) → Db → Type 0
  Checks m db =
      (m (within t now) db ≡ (ok tt, db))
      ⊎ ((e : Error) × (m (within t now) db ≡ (err e, db)) × (is_exclusion_violation e ≡ false))
