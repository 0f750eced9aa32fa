-- ===== src/Schema/Scheduling.antt =====
-- Equipment reservations and service bookings.
use business_platform.Prelude.{Option}
use business_platform.Schema.Types.{
  Key, Instant, Text, ReservationStatus, ServiceStatus, BookingStatus,
}

pub record Equipment : Type 0 where
  pub id : Key
  pub tenant_id : Key

pub record Reservation : Type 0 where
  pub id : Key
  pub tenant_id : Key
  pub customer_id : Key
  pub equipment_id : Key
  pub start_at : Instant
  pub end_at : Instant
  pub status : ReservationStatus
  pub notes : Option Text
  pub created_at : Instant
  pub updated_at : Instant

pub record Service : Type 0 where
  pub id : Key
  pub tenant_id : Key
  pub status : ServiceStatus

pub record Booking : Type 0 where
  pub id : Key
  pub tenant_id : Key
  pub service_id : Key
  pub customer_id : Option Key
  pub order_id : Option Key
  pub start_at : Instant
  pub end_at : Instant
  pub status : BookingStatus
  pub created_at : Instant
  pub updated_at : Instant
