-- ===== src/Api/Isolation/Lists.antt =====
-- The isolation of the requests for lists.
use business_platform.Prelude.{List, Bool, [], ◌∷◌}
use business_platform.Prisma.{Prisma}
use business_platform.Schema.{Key, Instant, Order, PosSale}
use business_platform.Platform.{Model, within, order_item_model}
use business_platform.Platform.Frames.{Keeps, Keeps-bind, Keeps-pure, Keeps-find_many_by}
use business_platform.Platform.Isolation.{foreign, isolation}
use business_platform.Pagination.Listing.{Runtime, SortColumn, Filters, PageQuery, list_rows}
use business_platform.Catalog.Listing.{ProductListQueryDto, list_categories, list_products}
use business_platform.Order.Listing.{OrderListQueryDto, with_items, list_orders}
use business_platform.Reservation.Listing.{ReservationListQueryDto, list_reservations}
use business_platform.Booking.Listing.{BookingListQueryDto, list_bookings}
use business_platform.Pos.Listing.{
  PosDeviceListQueryDto, list_devices, project_sale, project_sales, list_session_sales,
}
use business_platform.Api.Isolation.Commerce.{get_order-isolated, get_payment-isolated}

module _ ⦃prisma : Prisma⦄ (t : Key) (now : Instant) where
  list_rows-isolated :
      ⦃runtime : Runtime⦄ {Row : Type 0} (column : SortColumn Row) (m : Model Row)
      (fits : Row → Bool) (equality : Filters) (query : PageQuery)
      → Keeps (within t now) (foreign t) (list_rows column m fits equality query)
  unfolding list_rows
  list_rows-isolated column m fits equality query = search isolation depth 12

  with_items-isolated : (os : List Order) → Keeps (within t now) (foreign t) (with_items os)
  unfolding with_items
  with_items-isolated [] = search isolation
  with_items-isolated (o ∷ os) =
      Keeps-bind (Keeps-find_many_by order_item_model _ _)
        λ a. Keeps-bind (with_items-isolated os) λ b. Keeps-pure _

  project_sale-isolated : (sale : PosSale) → Keeps (within t now) (foreign t) (project_sale sale)
  unfolding project_sale
  project_sale-isolated sale = search (isolation, get_order-isolated, get_payment-isolated)

  project_sales-isolated :
      (sales : List PosSale) → Keeps (within t now) (foreign t) (project_sales sales)
  unfolding project_sales
  project_sales-isolated [] = search isolation
  project_sales-isolated (s ∷ ss) =
      Keeps-bind (project_sale-isolated s)
        λ a. Keeps-bind (project_sales-isolated ss) λ b. Keeps-pure (a ∷ b)

  pub list_session_sales-isolated :
      (session : Key) → Keeps (within t now) (foreign t) (list_session_sales session)
  unfolding list_session_sales
  list_session_sales-isolated session = search (isolation, project_sales-isolated) depth 12

module _ ⦃prisma : Prisma⦄ ⦃runtime : Runtime⦄ (t : Key) (now : Instant) where
  pub list_categories-isolated :
      (query : PageQuery) → Keeps (within t now) (foreign t) (list_categories query)
  unfolding list_categories
  list_categories-isolated query = search (isolation, list_rows-isolated)

  pub list_products-isolated :
      (query : ProductListQueryDto) → Keeps (within t now) (foreign t) (list_products query)
  unfolding list_products
  list_products-isolated query = search (isolation, list_rows-isolated)

  pub list_orders-isolated :
      (query : OrderListQueryDto) → Keeps (within t now) (foreign t) (list_orders query)
  unfolding list_orders
  list_orders-isolated query = search (isolation, list_rows-isolated, with_items-isolated)

  pub list_reservations-isolated :
      (query : ReservationListQueryDto) → Keeps (within t now) (foreign t) (list_reservations query)
  unfolding list_reservations
  list_reservations-isolated query = search (isolation, list_rows-isolated) depth 12

  pub list_bookings-isolated :
      (query : BookingListQueryDto) → Keeps (within t now) (foreign t) (list_bookings query)
  unfolding list_bookings
  list_bookings-isolated query = search (isolation, list_rows-isolated) depth 12

  pub list_devices-isolated :
      (query : PosDeviceListQueryDto) → Keeps (within t now) (foreign t) (list_devices query)
  unfolding list_devices
  list_devices-isolated query = search (isolation, list_rows-isolated)
