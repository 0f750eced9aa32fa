-- ===== src/Api/Isolation/Scheduling.antt =====
-- Tenant isolation of the reservation, booking and session services.
use business_platform.Prisma.{Prisma, p2002}
use business_platform.Platform.{conflict, already_open, database, within, Error}
use business_platform.Platform.Frames.{Keeps-throw, Keeps}
use business_platform.Platform.Isolation.{foreign, isolation}
use business_platform.Schema.{Key, Instant, PosSession}
use business_platform.Reservation.{
  CreateReservationDto, UpdateReservationDto, get_reservation, create_reservation,
  update_reservation, start_reservation, complete_reservation, delete_reservation,
}
use business_platform.Booking.{
  CreateBookingDto, UpdateBookingDto, get_booking, create_booking, update_booking,
}
use business_platform.Pos.Session.{open_handler, open_session, get_session, close_session}

module _ ⦃prisma : Prisma⦄ (t : Key) (now : Instant) where
  open_handler-isolated :
      (e : Error) → Keeps (within t now) (foreign t) (open_handler {A = PosSession} e)
  open_handler-isolated (database (p2002 target)) = Keeps-throw (conflict already_open)
  open_handler-isolated e = Keeps-throw e

  pub get_reservation-isolated : (id : Key) → Keeps (within t now) (foreign t) (get_reservation id)
  unfolding get_reservation
  get_reservation-isolated id = search isolation depth 20

  pub create_reservation-isolated :
      (dto : CreateReservationDto) → Keeps (within t now) (foreign t) (create_reservation dto)
  unfolding create_reservation
  create_reservation-isolated dto = search isolation depth 20 fits 5000

  pub update_reservation-isolated :
      (id : Key) (dto : UpdateReservationDto)
      → Keeps (within t now) (foreign t) (update_reservation id dto)
  unfolding update_reservation
  update_reservation-isolated id dto = search isolation depth 20

  pub start_reservation-isolated :
      (id : Key) → Keeps (within t now) (foreign t) (start_reservation id)
  unfolding start_reservation
  start_reservation-isolated id = search isolation depth 20

  pub complete_reservation-isolated :
      (id : Key) → Keeps (within t now) (foreign t) (complete_reservation id)
  unfolding complete_reservation
  complete_reservation-isolated id = search isolation depth 20

  pub delete_reservation-isolated :
      (id : Key) → Keeps (within t now) (foreign t) (delete_reservation id)
  unfolding delete_reservation
  delete_reservation-isolated id = search isolation depth 20

  pub get_booking-isolated : (id : Key) → Keeps (within t now) (foreign t) (get_booking id)
  unfolding get_booking
  get_booking-isolated id = search isolation depth 20

  pub create_booking-isolated :
      (dto : CreateBookingDto) → Keeps (within t now) (foreign t) (create_booking dto)
  unfolding create_booking
  create_booking-isolated dto = search isolation depth 20

  pub update_booking-isolated :
      (id : Key) (dto : UpdateBookingDto) → Keeps (within t now) (foreign t) (update_booking id dto)
  unfolding update_booking
  update_booking-isolated id dto = search isolation depth 20

  pub open_session-isolated :
      (user device : Key) → Keeps (within t now) (foreign t) (open_session user device)
  unfolding open_session
  open_session-isolated user device = search (isolation, open_handler-isolated) depth 20

  pub get_session-isolated : (id : Key) → Keeps (within t now) (foreign t) (get_session id)
  unfolding get_session
  get_session-isolated id = search isolation depth 20

  pub close_session-isolated : (id : Key) → Keeps (within t now) (foreign t) (close_session id)
  unfolding close_session
  close_session-isolated id = search isolation depth 20
