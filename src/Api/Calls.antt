-- ===== src/Api/Calls.antt =====
-- The requests of the controllers to the modelled services, and the dispatch to the method that each
-- calls. Those that write grants or delete by a cascading foreign key are in Cascades.
use business_platform.Prelude.{List, Option, [], some, ℕ, ◌∷◌}
use business_platform.Prisma.{Prisma}
use business_platform.Schema.{Instant, Db, Key, Text}
use business_platform.Platform.{Action, pure, ◌>>◌, ◌>>=◌, current_time}
use business_platform.Inventory.{
  InventoryScope, AdjustInventoryDto, get_scoped_inventory, adjust_scoped,
}
use business_platform.Order.{
  CreateOrderDto, CreateOrderOptions, create_order, get_order, cancel_order,
}
use business_platform.Payment.{
  CreatePaymentDto, create_payment, get_payment, capture_payment, fail_payment,
}
use business_platform.Reservation.{
  CreateReservationDto, UpdateReservationDto, get_reservation, create_reservation,
  update_reservation, start_reservation, complete_reservation, delete_reservation,
}
use business_platform.Booking.{
  CreateBookingDto, UpdateBookingDto, get_booking, create_booking, update_booking,
}
use business_platform.Pos.Device.{
  Crypto, CreatePosDeviceDto, UpdatePosDeviceDto, Transition, register_device, get_device,
  update_device, transition, rotate_credential,
}
use business_platform.Pos.Operation.{
  RecordOfflineSaleIntentDto, record_offline_sale_intent, get_operation, list_device_operations,
}
use business_platform.Pos.Sync.{SyncResult, sync_operation, alone}
use business_platform.Pos.Feed.{pull_feed}
use business_platform.Pos.Reconciliation.{get_device_reconciliation, get_session_reconciliation}
use business_platform.Cart.Editing.{
  AddCartItemDto, UpdateCartItemDto, get_cart, add_item, update_item, remove_item,
}
use business_platform.Pos.Session.{open_session, get_session, close_session}
use business_platform.Pos.Sale.{CreatePosSaleDto, SaleOptions, create_sale, get_sale}
use business_platform.Catalog.Categories.{
  CreateCategoryDto, UpdateCategoryDto, get_category, create_category, update_category,
  delete_category,
}
use business_platform.Catalog.Products.{
  CreateProductDto, UpdateProductDto, get_product, create_product, update_product,
}
use business_platform.Catalog.Listing.{ProductListQueryDto, list_categories, list_products}
use business_platform.Pagination.Listing.{Runtime, PageQuery}
use business_platform.Order.Listing.{OrderListQueryDto, list_orders}
use business_platform.Reservation.Listing.{ReservationListQueryDto, list_reservations}
use business_platform.Booking.Listing.{BookingListQueryDto, list_bookings}
use business_platform.Pos.Listing.{PosDeviceListQueryDto, list_devices, list_session_sales}
use business_platform.Rbac.Permission.{Memo}
use business_platform.Rbac.Role.{
  UpdateRoleDto, get_role, list_roles, update_role, assign_role_to_membership,
}
use business_platform.Member.{NewStatus, get_member, list_members, update_member_status}

pub data Call : Type 0 where
  reads_inventory : InventoryScope → Key → Call
  adjusts_inventory : InventoryScope → AdjustInventoryDto → Call
  creates_order : Key → CreateOrderDto → CreateOrderOptions → Call
  reads_order cancels_order : Key → Call
  creates_payment : CreatePaymentDto → Call
  reads_payment captures_payment fails_payment : Key → Call
  creates_reservation : CreateReservationDto → Call
  updates_reservation : Key → UpdateReservationDto → Call
  reads_reservation starts_reservation completes_reservation deletes_reservation : Key → Call
  creates_booking : CreateBookingDto → Call
  updates_booking : Key → UpdateBookingDto → Call
  reads_booking : Key → Call
  opens_session : Key → Key → Call
  reads_session closes_session : Key → Call
  creates_sale : Key → CreatePosSaleDto → SaleOptions → Call
  reads_sale : Key → Call
  registers_device : CreatePosDeviceDto → Call
  reads_device : Key → Call
  updates_device : Key → UpdatePosDeviceDto → Call
  transitions_device : Key → Transition → Call
  rotates_credential : Key → Call
  records_intent : Key → RecordOfflineSaleIntentDto → Call
  reads_operation : Key → Call
  lists_operations : Key → Call
  syncs_operation : Key → Key → Option Text → Call
  pulls_feed : ℕ → Call
  reconciles_device : Key → Call
  reconciles_session : Key → Call
  reads_cart : Key → Call
  adds_item : Key → AddCartItemDto → Call
  updates_item : Key → Key → UpdateCartItemDto → Call
  removes_item : Key → Key → Call
  reads_category : Key → Call
  creates_category : CreateCategoryDto → Call
  updates_category : Key → UpdateCategoryDto → Call
  deletes_category : Key → Call
  reads_product : Key → Call
  creates_product : CreateProductDto → Call
  updates_product : Key → UpdateProductDto → Call
  lists_categories : PageQuery → Call
  lists_products : ProductListQueryDto → Call
  lists_orders : OrderListQueryDto → Call
  lists_reservations : ReservationListQueryDto → Call
  lists_bookings : BookingListQueryDto → Call
  lists_devices : PosDeviceListQueryDto → Call
  lists_sales : Key → Call
  reads_role : Memo → Key → Key → Call
  lists_roles : Memo → Key → Call
  updates_role : Memo → Key → Key → UpdateRoleDto → Call
  assigns_role : Memo → Key → Key → Key → Call
  reads_member : Memo → Key → Key → Call
  lists_members : Memo → Key → Call
  updates_member : Memo → Key → Key → NewStatus → Call

-- The response is left out.
abbrev pub done : {A : Type 0} → Action A → Action (Unit {0})
done m = m >> pure tt

module _ ⦃prisma : Prisma⦄ ⦃crypto : Crypto⦄ where
  -- A synchronisation in a request of its own, with no snapshot in its memo and no other request
  -- beside it.
  unfoldable pub sync_alone : Key → Key → Option Text → Action SyncResult
  sync_alone user id credential = do
    now ← current_time
    sync_operation (alone now) (some []) user id credential

module _ ⦃prisma : Prisma⦄ ⦃crypto : Crypto⦄ ⦃runtime : Runtime⦄ where
  unfoldable pub perform : Call → Action (Unit {0})
  perform (Call.reads_inventory scope v) = done (get_scoped_inventory scope v)
  perform (Call.adjusts_inventory scope dto) = done (adjust_scoped scope dto)
  perform (Call.creates_order user dto options) = done (create_order user dto options)
  perform (Call.reads_order id) = done (get_order id)
  perform (Call.cancels_order id) = done (cancel_order id)
  perform (Call.creates_payment dto) = done (create_payment dto)
  perform (Call.reads_payment id) = done (get_payment id)
  perform (Call.captures_payment id) = done (capture_payment id)
  perform (Call.fails_payment id) = done (fail_payment id)
  perform (Call.creates_reservation dto) = done (create_reservation dto)
  perform (Call.updates_reservation id dto) = done (update_reservation id dto)
  perform (Call.reads_reservation id) = done (get_reservation id)
  perform (Call.starts_reservation id) = done (start_reservation id)
  perform (Call.completes_reservation id) = done (complete_reservation id)
  perform (Call.deletes_reservation id) = done (delete_reservation id)
  perform (Call.creates_booking dto) = done (create_booking dto)
  perform (Call.updates_booking id dto) = done (update_booking id dto)
  perform (Call.reads_booking id) = done (get_booking id)
  perform (Call.opens_session user device) = done (open_session user device)
  perform (Call.reads_session id) = done (get_session id)
  perform (Call.closes_session id) = done (close_session id)
  perform (Call.creates_sale user dto options) = done (create_sale user dto options)
  perform (Call.reads_sale id) = done (get_sale id)
  perform (Call.registers_device dto) = done (register_device dto)
  perform (Call.reads_device id) = done (get_device id)
  perform (Call.updates_device id dto) = done (update_device id dto)
  perform (Call.transitions_device id action) = done (transition id action)
  perform (Call.rotates_credential id) = done (rotate_credential id)
  perform (Call.records_intent user dto) = done (record_offline_sale_intent user dto)
  perform (Call.reads_operation id) = done (get_operation id)
  perform (Call.lists_operations device) = done (list_device_operations device)
  perform (Call.syncs_operation user id credential) = done (sync_alone user id credential)
  perform (Call.pulls_feed since) = done (pull_feed since)
  perform (Call.reconciles_device id) = done (get_device_reconciliation id)
  perform (Call.reconciles_session id) = done (get_session_reconciliation id)
  perform (Call.reads_cart user) = done (get_cart user)
  perform (Call.adds_item user dto) = done (add_item user dto)
  perform (Call.updates_item user id dto) = done (update_item user id dto)
  perform (Call.removes_item user id) = done (remove_item user id)
  perform (Call.reads_category id) = done (get_category id)
  perform (Call.creates_category dto) = done (create_category dto)
  perform (Call.updates_category id dto) = done (update_category id dto)
  perform (Call.deletes_category id) = done (delete_category id)
  perform (Call.reads_product id) = done (get_product id)
  perform (Call.creates_product dto) = done (create_product dto)
  perform (Call.updates_product id dto) = done (update_product id dto)
  perform (Call.lists_categories query) = done (list_categories query)
  perform (Call.lists_products query) = done (list_products query)
  perform (Call.lists_orders query) = done (list_orders query)
  perform (Call.lists_reservations query) = done (list_reservations query)
  perform (Call.lists_bookings query) = done (list_bookings query)
  perform (Call.lists_devices query) = done (list_devices query)
  perform (Call.lists_sales session) = done (list_session_sales session)
  perform (Call.reads_role memo actor id) = done (get_role memo actor id)
  perform (Call.lists_roles memo actor) = done (list_roles memo actor)
  perform (Call.updates_role memo actor id dto) = done (update_role memo actor id dto)
  perform (Call.assigns_role memo actor membership role) =
      done (assign_role_to_membership memo actor membership role)
  perform (Call.reads_member memo actor user) = done (get_member memo actor user)
  perform (Call.lists_members memo actor) = done (list_members memo actor)
  perform (Call.updates_member memo actor membership status) =
      done (update_member_status memo actor membership status)

  -- The database after a sequence of requests, each with its tenant, if it has one, and its time.
  unfoldable pub serve : List (Option Key × Instant × Call) → Db → Db
  serve [] db = db
  serve ((tenant, now, call) ∷ calls) db =
      serve calls (perform call (record { tenant_id = tenant; now = now }) db).1
