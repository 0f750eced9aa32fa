-- ===== src/Reservation.antt =====
-- src/reservation/reservation.service.ts: reservations of equipment over half-open intervals, their
-- life cycle and the overlap check. The list endpoint's page is in Pagination.
pub mod Calendar
pub mod Listing
pub mod Listed
use business_platform.Prelude.{
  Bool, Option, false, if◌then◌else◌, ltb, none, not, some, true, ◌&&◌, ◌==◌, ◌||◌,
}
use business_platform.Prisma.{Prisma, exclusion_violation}
use business_platform.Schema.{Key, Instant, Text, Reservation, ReservationStatus}
use business_platform.Platform.{
  Error, database, Message, not_found, conflict, bad_request, reservation_not_found,
  customer_not_found, equipment_not_found, overlap_conflict, not_mutable, already_cancelled,
  invalid_range, not_startable, not_completable, not_before_start, not_before_end,
  invalid_timestamp, Result, ok, err, Action, pure, throw, or_throw, throw_if, returns, when, catch,
  ◌>>=◌, ◌>>◌, require_tenant_id, current_time, find_unique, find_first, create, update, fresh_id,
  reservation_model, customer_model, equipment_model,
}
use business_platform.Platform.Constraints.{holds_equipment}

-- What `new Date(value)` makes of a text: an instant, or NaN.
pub data Timestamp : Type 0 where
  iso : Instant → Timestamp
  garbage : Timestamp

pub record CreateReservationDto : Type 0 where
  pub customer_id : Key
  pub equipment_id : Key
  pub start_at : Timestamp
  pub end_at : Timestamp
  pub notes : Option Text

pub record UpdateReservationDto : Type 0 where
  pub start_at : Option Timestamp
  pub end_at : Option Timestamp
  pub notes : Option Text

pub record ReservationSummary : Type 0 where
  pub id : Key
  pub tenant_id : Key
  pub customer_id : Key
  pub equipment_id : Key
  pub start_at : Instant
  pub end_at : Instant
  pub status : ReservationStatus
  pub notes : Option Text
  pub created_at : Instant
  pub updated_at : Instant

abbrev pub to_summary : Reservation → ReservationSummary
to_summary r = record {
  id = r.id;
  tenant_id = r.tenant_id;
  customer_id = r.customer_id;
  equipment_id = r.equipment_id;
  start_at = r.start_at;
  end_at = r.end_at;
  status = r.status;
  notes = r.notes;
  created_at = r.created_at;
  updated_at = r.updated_at;
}

abbrev pub same_status : ReservationStatus → ReservationStatus → Bool
same_status ReservationStatus.reserved ReservationStatus.reserved = true
same_status ReservationStatus.active ReservationStatus.active = true
same_status ReservationStatus.completed ReservationStatus.completed = true
same_status ReservationStatus.cancelled ReservationStatus.cancelled = true
same_status _ _ = false

abbrev pub parse_instant : Timestamp → Result Instant
parse_instant (iso n) = ok n
parse_instant garbage = err (bad_request invalid_timestamp)

-- `value !== undefined ? this.parseInstant(value) : stored`
abbrev pub parse_or : Option Timestamp → Instant → Result Instant
parse_or (some v) stored = parse_instant v
parse_or none stored = ok stored

abbrev pub assert_positive_range : Instant → Instant → Action (Unit {0})
assert_positive_range s e = throw_if (not (ltb s e)) (bad_request invalid_range)

-- `excludeId !== undefined ? { id: { not: excludeId } } : {}`
abbrev pub not_excluded : Option Key → Reservation → Bool
not_excluded none r = true
not_excluded (some k) r = not (r.id == k)

-- The where-clause of the overlap query.
abbrev pub overlaps : Key → Instant → Instant → Option Key → Reservation → Bool
overlaps equipment s e exclude r =
    (r.equipment_id == equipment && holds_equipment r.status)
    && ((ltb r.start_at e && ltb s r.end_at) && not_excluded exclude r)

-- `isExclusionViolation`
abbrev pub is_exclusion_violation : Error → Bool
is_exclusion_violation (database exclusion_violation) = true
is_exclusion_violation _ = false

abbrev pub overlap_or_rethrow : {A : Type 0} → Error → Action A
overlap_or_rethrow e = throw (if is_exclusion_violation e then conflict overlap_conflict else e)

abbrev pub given : {A : Type 0} → Option A → Bool
given none = false
given (some a) = true

abbrev pub or_stored : {A : Type 0} → Option A → A → A
or_stored none a = a
or_stored (some b) a = b

-- The gate of a transition: the scheduled time that must have come, and the message if not.
pub data TimeGate : Type 0 where
  start_gate end_gate : TimeGate

abbrev pub gate_time : TimeGate → Reservation → Instant
gate_time start_gate r = r.start_at
gate_time end_gate r = r.end_at

abbrev pub gate_message : TimeGate → Message
gate_message start_gate = not_before_start
gate_message end_gate = not_before_end

module _ ⦃prisma : Prisma⦄ where
  unfoldable pub assert_no_overlap : Key → Instant → Instant → Option Key → Action (Unit {0})
  assert_no_overlap equipment s e exclude = do
    overlapping ← find_first reservation_model (overlaps equipment s e exclude)
    throw_if (given overlapping) (conflict overlap_conflict)

  unfoldable pub resolve_customer_id : Key → Action (Unit {0})
  resolve_customer_id id = do
    found ← find_unique customer_model (λ r. r.id == id)
    throw_if (not (given found)) (not_found customer_not_found)

  unfoldable pub resolve_equipment_id : Key → Action (Unit {0})
  resolve_equipment_id id = do
    found ← find_unique equipment_model (λ r. r.id == id)
    throw_if (not (given found)) (not_found equipment_not_found)

  unfoldable pub get_reservation : Key → Action ReservationSummary
  get_reservation id = do
    require_tenant_id
    found ← find_unique reservation_model (λ r. r.id == id)
    reservation ← or_throw found (not_found reservation_not_found)
    pure (to_summary reservation)

  -- The insert of `createReservation`, with its handler.
  unfoldable pub insert_reservation :
      Key → CreateReservationDto → Instant → Instant → Action ReservationSummary
  insert_reservation tenant_id dto s e = do
    id ← fresh_id
    now ← current_time
    reservation ←
        catch
          (create reservation_model record {
            id = id;
            tenant_id = tenant_id;
            customer_id = dto.customer_id;
            equipment_id = dto.equipment_id;
            start_at = s;
            end_at = e;
            status = ReservationStatus.reserved;
            notes = dto.notes;
            created_at = now;
            updated_at = now;
          })
          overlap_or_rethrow
    pure (to_summary reservation)

  unfoldable pub create_reservation : CreateReservationDto → Action ReservationSummary
  unfolding assert_no_overlap resolve_customer_id resolve_equipment_id insert_reservation
  create_reservation dto = do
    tenant_id ← require_tenant_id
    resolve_customer_id dto.customer_id
    resolve_equipment_id dto.equipment_id
    s ← returns (parse_instant dto.start_at)
    e ← returns (parse_instant dto.end_at)
    assert_positive_range s e
    assert_no_overlap dto.equipment_id s e none
    insert_reservation tenant_id dto s e

  -- The update of `updateReservation`, with its handler.
  unfoldable pub store_reservation :
      Key → UpdateReservationDto → Instant → Instant → Action ReservationSummary
  store_reservation id dto s e = do
    updated ←
        catch
          (update reservation_model (λ r. r.id == id)
            (λ r. record r {
              start_at = if given dto.start_at then s else r.start_at;
              end_at = if given dto.end_at then e else r.end_at;
              notes = if given dto.notes then dto.notes else r.notes;
            }))
          overlap_or_rethrow
    pure (to_summary updated)

  unfoldable pub update_reservation : Key → UpdateReservationDto → Action ReservationSummary
  unfolding assert_no_overlap store_reservation
  update_reservation id dto = do
    require_tenant_id
    found ← find_unique reservation_model (λ r. r.id == id)
    reservation ← or_throw found (not_found reservation_not_found)
    throw_if (not (same_status reservation.status ReservationStatus.reserved))
        (conflict not_mutable)
    s ← returns (parse_or dto.start_at reservation.start_at)
    e ← returns (parse_or dto.end_at reservation.end_at)
    assert_positive_range s e
    when (given dto.start_at || given dto.end_at)
        (assert_no_overlap reservation.equipment_id s e (some id))
    store_reservation id dto s e

  unfoldable pub transition :
      Key → ReservationStatus → ReservationStatus → Message → TimeGate → Action ReservationSummary
  transition id from_status to_status message gate = do
    require_tenant_id
    found ← find_unique reservation_model (λ r. r.id == id)
    reservation ← or_throw found (not_found reservation_not_found)
    throw_if (not (same_status reservation.status from_status)) (conflict message)
    now ← current_time
    throw_if (ltb now (gate_time gate reservation)) (conflict (gate_message gate))
    updated ← update reservation_model (λ r. r.id == id) (λ r. record r { status = to_status })
    pure (to_summary updated)

  unfoldable pub start_reservation : Key → Action ReservationSummary
  unfolding transition
  start_reservation id =
      transition id ReservationStatus.reserved ReservationStatus.active not_startable start_gate

  unfoldable pub complete_reservation : Key → Action ReservationSummary
  unfolding transition
  complete_reservation id =
      transition id ReservationStatus.active ReservationStatus.completed not_completable end_gate

  unfoldable pub delete_reservation : Key → Action Key
  delete_reservation id = do
    require_tenant_id
    found ← find_unique reservation_model (λ r. r.id == id)
    reservation ← or_throw found (not_found reservation_not_found)
    throw_if (same_status reservation.status ReservationStatus.cancelled)
        (conflict already_cancelled)
    update reservation_model (λ r. r.id == id)
        (λ r. record r { status = ReservationStatus.cancelled })
    pure id
