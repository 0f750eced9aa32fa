-- ===== src/Booking.antt =====
-- src/booking/booking.service.ts: bookings of a service over time, and their partial update. The
-- list endpoint's page is in Pagination.
pub mod Listing
use business_platform.Prelude.{
  Bool, Option, false, if◌then◌else◌, none, not, same_option, some, true, ◌==◌,
}
use business_platform.Prisma.{
  Prisma, p2002, p2003, p2004, exclusion_violation, check_violation, validation,
}
use business_platform.Schema.{Key, Instant, ServiceStatus, Booking, BookingStatus}
use business_platform.Platform.{
  Error, database, not_found, conflict, bad_request, booking_not_found, overlap_error,
  service_not_found, service_not_active, customer_not_found, end_before_start, Action, pure, throw,
  or_throw, throw_if, when_given, when, catch, ◌>>=◌, ◌>>◌, require_tenant_id, current_time,
  find_unique, create, update, fresh_id, booking_model, service_model, customer_model,
}

-- Instants have passed `@IsISO8601` in the DTO. Absent fields are undefined.
pub record CreateBookingDto : Type 0 where
  pub service_id : Key
  pub customer_id : Option Key
  pub start_at : Instant
  pub end_at : Instant
  pub status : Option BookingStatus

pub record UpdateBookingDto : Type 0 where
  pub service_id : Option Key
  pub customer_id : Option Key
  pub start_at : Option Instant
  pub end_at : Option Instant
  pub status : Option BookingStatus

pub record BookingSummary : Type 0 where
  pub id : Key
  pub tenant_id : Key
  pub service_id : Key
  pub customer_id : Option Key
  pub order_id : Option Key
  pub start_at : Instant
  pub end_at : Instant
  pub status : BookingStatus
  pub created_at : Instant
  pub updated_at : Instant

abbrev pub to_summary : Booking → BookingSummary
to_summary b = record {
  id = b.id;
  tenant_id = b.tenant_id;
  service_id = b.service_id;
  customer_id = b.customer_id;
  order_id = b.order_id;
  start_at = b.start_at;
  end_at = b.end_at;
  status = b.status;
  created_at = b.created_at;
  updated_at = b.updated_at;
}

abbrev pub is_active : ServiceStatus → Bool
is_active ServiceStatus.active = true
is_active _ = false

-- `isConflictError`
abbrev pub is_conflict_error : Error → Bool
is_conflict_error (database (p2002 target)) = true
is_conflict_error (database p2003) = true
is_conflict_error (database p2004) = true
is_conflict_error (database exclusion_violation) = true
is_conflict_error (database validation) = true
is_conflict_error _ = false

-- `isCheckConstraintViolation`
abbrev pub is_check_constraint_violation : Error → Bool
is_check_constraint_violation (database check_violation) = true
is_check_constraint_violation _ = false

-- The handler of `createBooking`.
abbrev pub create_handler : {A : Type 0} → Error → Action A
create_handler e = throw (
    if is_conflict_error e
    then conflict overlap_error
    else (if is_check_constraint_violation e then bad_request end_before_start else e))

-- The handler of `updateBooking`, which logs and rethrows what is no conflict.
abbrev pub update_handler : {A : Type 0} → Error → Action A
update_handler e = throw (if is_conflict_error e then conflict overlap_error else e)

abbrev pub or_stored : {A : Type 0} → Option A → A → A
or_stored none a = a
or_stored (some b) a = b

-- `{ ...(dto.x !== undefined ? { x: dto.x } : {}), … }`
abbrev pub patched : UpdateBookingDto → Booking → Booking
patched dto b = record b {
  service_id = or_stored dto.service_id b.service_id;
  customer_id = elim dto.customer_id [ none ↦ b.customer_id | some k ↦ some k ];
  start_at = or_stored dto.start_at b.start_at;
  end_at = or_stored dto.end_at b.end_at;
  status = or_stored dto.status b.status;
}

-- `if (x)` on an optional identifier: null, undefined and the empty string are falsy.
abbrev pub truthy : Option Key → Option Key
truthy none = none
truthy (some k) = if k == 0 then none else some k

module _ ⦃prisma : Prisma⦄ where
  unfoldable pub check_service : Key → Action (Unit {0})
  check_service id = do
    found ← find_unique service_model (λ r. r.id == id)
    service ← or_throw found (not_found service_not_found)
    throw_if (not (is_active service.status)) (conflict service_not_active)

  unfoldable pub check_customer : Key → Action (Unit {0})
  check_customer id = do
    found ← find_unique customer_model (λ r. r.id == id)
    or_throw found (not_found customer_not_found)
    pure tt

  unfoldable pub get_booking : Key → Action BookingSummary
  get_booking id = do
    require_tenant_id
    found ← find_unique booking_model (λ r. r.id == id)
    booking ← or_throw found (not_found booking_not_found)
    pure (to_summary booking)

  unfoldable pub create_booking : CreateBookingDto → Action BookingSummary
  unfolding check_service check_customer
  create_booking dto = do
    tenant_id ← require_tenant_id
    check_service dto.service_id
    when_given (truthy dto.customer_id) check_customer
    id ← fresh_id
    now ← current_time
    booking ←
        catch
          (create booking_model record {
            id = id;
            tenant_id = tenant_id;
            service_id = dto.service_id;
            customer_id = dto.customer_id;
            order_id = none;
            start_at = dto.start_at;
            end_at = dto.end_at;
            status = or_stored dto.status BookingStatus.booked;
            created_at = now;
            updated_at = now;
          })
          create_handler
    pure (to_summary booking)

  unfoldable pub update_booking : Key → UpdateBookingDto → Action BookingSummary
  unfolding check_service check_customer
  update_booking id dto = do
    require_tenant_id
    found ← find_unique booking_model (λ r. r.id == id)
    booking ← or_throw found (not_found booking_not_found)
    when_given (truthy dto.service_id) (λ k. when (not (k == booking.service_id)) (check_service k))
    when_given (truthy dto.customer_id)
        (λ k. when (not (same_option (some k) booking.customer_id)) (check_customer k))
    updated ← catch (update booking_model (λ r. r.id == id) (patched dto)) update_handler
    pure (to_summary updated)
