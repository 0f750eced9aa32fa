-- ===== src/Booking/Listing.antt =====
-- listBookings of src/booking/booking.service.ts.
use business_platform.Prelude.{Option, Bool, [], ◌∷◌, ◌&&◌, map}
use business_platform.Prisma.{Prisma}
use business_platform.Schema.{Key, Text, Booking, BookingStatus}
use business_platform.Platform.{Action, pure, ◌>>=◌, booking_model}
use business_platform.Pagination.Listing.{
  Runtime, SortColumn, PageQuery, Paginated, list_rows, map_page, status_name, service_id_name,
  customer_id_name, start_at_name, text_of, given_field, equals, equals_some,
}
use business_platform.Booking.{BookingSummary, to_summary}

-- The filter `order_id` is accepted, and the service does not look at it.
pub record BookingListQueryDto : Type 0 where
  pub page : PageQuery
  pub status : Option BookingStatus
  pub service_id : Option Key
  pub customer_id : Option Key
  pub order_id : Option Key

abbrev pub booking_status_text : BookingStatus → Text
booking_status_text BookingStatus.booked = 1
booking_status_text BookingStatus.confirmed = 2
booking_status_text BookingStatus.active = 3
booking_status_text BookingStatus.completed = 4
booking_status_text BookingStatus.cancelled = 5
booking_status_text BookingStatus.no_show = 6

abbrev pub by_start_at : SortColumn Booking
by_start_at = record { name = start_at_name; primary = λ r. r.start_at; id = λ r. r.id }

abbrev pub is_listed : BookingListQueryDto → Booking → Bool
is_listed query r =
    equals (text_of booking_status_text query.status) (booking_status_text r.status)
    && (equals query.service_id r.service_id && equals_some query.customer_id r.customer_id)

unfoldable pub list_bookings :
    ⦃prisma : Prisma⦄
    → ⦃runtime : Runtime⦄ → BookingListQueryDto
    → Action (Paginated BookingSummary)
list_bookings query = do
  page ←
      list_rows by_start_at booking_model (is_listed query)
        ((status_name, given_field (text_of booking_status_text query.status))
          ∷ (service_id_name, given_field query.service_id)
          ∷ (customer_id_name, given_field query.customer_id)
          ∷ [])
        query.page
  pure (map_page (map to_summary) page)
