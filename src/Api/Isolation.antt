-- ===== src/Api/Isolation.antt =====
-- Tenant isolation of each of the calls.
mod Stock
mod Commerce
mod Scheduling
mod Sales
mod Devices
mod Offline
mod Carts
mod Catalog
mod Lists
pub mod Access
use Stock.{get_scoped_inventory-isolated, adjust_scoped-isolated}
use Commerce.{
  create_order-isolated, get_order-isolated, cancel_order-isolated, create_payment-isolated,
  get_payment-isolated, capture_payment-isolated, fail_payment-isolated,
}
use Scheduling.{
  get_reservation-isolated, create_reservation-isolated, update_reservation-isolated,
  start_reservation-isolated, complete_reservation-isolated, delete_reservation-isolated,
  get_booking-isolated, create_booking-isolated, update_booking-isolated, open_session-isolated,
  get_session-isolated, close_session-isolated,
}
use Devices.{
  register_device-isolated, get_device-isolated, update_device-isolated, transition-isolated,
  rotate_credential-isolated,
}
use Offline.{
  record_offline_sale_intent-isolated, get_operation-isolated, list_device_operations-isolated,
  sync_alone-isolated, pull_feed-isolated, get_device_reconciliation-isolated,
  get_session_reconciliation-isolated,
}
use Carts.{get_cart-isolated, add_item-isolated, update_item-isolated, remove_item-isolated}
use Catalog.{
  get_category-isolated, create_category-isolated, update_category-isolated,
  delete_category-isolated, get_product-isolated, create_product-isolated, update_product-isolated,
}
use Access.{
  get_role-isolated, list_roles-isolated, update_role-isolated, assign_role_to_membership-isolated,
  get_member-isolated, list_members-isolated, update_member_status-isolated,
}
use Lists.{
  list_categories-isolated, list_products-isolated, list_orders-isolated,
  list_reservations-isolated, list_bookings-isolated, list_devices-isolated,
  list_session_sales-isolated,
}
use Sales.{create_sale-isolated, get_sale-isolated}
use business_platform.Prelude.{ℕ}
use business_platform.Prisma.{Prisma}
use business_platform.Schema.{Db, Key, Instant}
use business_platform.Platform.{within, Context}
use business_platform.Platform.Frames.{Keeps, Keeps-then, Keeps-pure}
use business_platform.Platform.Isolation.{foreign}
use business_platform.Pos.Device.{Crypto}
use business_platform.Pagination.Listing.{Runtime}
use business_platform.Api.Calls.{Call, perform, serve, done}

ruleset reads_and_writes = (
  get_scoped_inventory-isolated, adjust_scoped-isolated, create_order-isolated, get_order-isolated,
  cancel_order-isolated, create_payment-isolated, get_payment-isolated, capture_payment-isolated,
  fail_payment-isolated, get_reservation-isolated, create_reservation-isolated,
  update_reservation-isolated, start_reservation-isolated, complete_reservation-isolated,
  delete_reservation-isolated, get_booking-isolated, create_booking-isolated,
  update_booking-isolated, open_session-isolated, get_session-isolated, close_session-isolated,
  create_sale-isolated, get_sale-isolated, register_device-isolated, get_device-isolated,
  update_device-isolated, transition-isolated, rotate_credential-isolated,
  record_offline_sale_intent-isolated, get_operation-isolated, list_device_operations-isolated,
  sync_alone-isolated, pull_feed-isolated, get_device_reconciliation-isolated,
  get_session_reconciliation-isolated, get_cart-isolated, add_item-isolated, update_item-isolated,
  remove_item-isolated, get_category-isolated, create_category-isolated, update_category-isolated,
  delete_category-isolated, get_product-isolated, create_product-isolated, update_product-isolated,
  list_categories-isolated, list_products-isolated, list_orders-isolated,
  list_reservations-isolated, list_bookings-isolated, list_devices-isolated,
  list_session_sales-isolated, get_role-isolated, list_roles-isolated, update_role-isolated,
  assign_role_to_membership-isolated, get_member-isolated, list_members-isolated,
  update_member_status-isolated, Keeps-then, Keeps-pure,
)

module _ ⦃prisma : Prisma⦄ ⦃crypto : Crypto⦄ ⦃runtime : Runtime⦄ (t : Key) (now : Instant) where
  pub perform-isolated : (call : Call) → Keeps (within t now) (foreign t) (perform call)
  unfolding perform
  perform-isolated (Call.reads_inventory scope v) = search reads_and_writes
  perform-isolated (Call.adjusts_inventory scope dto) = search reads_and_writes
  perform-isolated (Call.creates_order user dto options) = search reads_and_writes
  perform-isolated (Call.reads_order id) = search reads_and_writes
  perform-isolated (Call.cancels_order id) = search reads_and_writes
  perform-isolated (Call.creates_payment dto) = search reads_and_writes
  perform-isolated (Call.reads_payment id) = search reads_and_writes
  perform-isolated (Call.captures_payment id) = search reads_and_writes
  perform-isolated (Call.fails_payment id) = search reads_and_writes
  perform-isolated (Call.creates_reservation dto) = search reads_and_writes
  perform-isolated (Call.updates_reservation id dto) = search reads_and_writes
  perform-isolated (Call.reads_reservation id) = search reads_and_writes
  perform-isolated (Call.starts_reservation id) = search reads_and_writes
  perform-isolated (Call.completes_reservation id) = search reads_and_writes
  perform-isolated (Call.deletes_reservation id) = search reads_and_writes
  perform-isolated (Call.creates_booking dto) = search reads_and_writes
  perform-isolated (Call.updates_booking id dto) = search reads_and_writes
  perform-isolated (Call.reads_booking id) = search reads_and_writes
  perform-isolated (Call.opens_session user device) = search reads_and_writes
  perform-isolated (Call.reads_session id) = search reads_and_writes
  perform-isolated (Call.closes_session id) = search reads_and_writes
  perform-isolated (Call.creates_sale user dto options) = search reads_and_writes
  perform-isolated (Call.reads_sale id) = search reads_and_writes
  perform-isolated (Call.registers_device dto) = search reads_and_writes
  perform-isolated (Call.reads_device id) = search reads_and_writes
  perform-isolated (Call.updates_device id dto) = search reads_and_writes
  perform-isolated (Call.transitions_device id action) = search reads_and_writes
  perform-isolated (Call.rotates_credential id) = search reads_and_writes
  perform-isolated (Call.records_intent user dto) = search reads_and_writes
  perform-isolated (Call.reads_operation id) = search reads_and_writes
  perform-isolated (Call.lists_operations device) = search reads_and_writes
  perform-isolated (Call.syncs_operation user id credential) = search reads_and_writes
  perform-isolated (Call.pulls_feed since) = search reads_and_writes
  perform-isolated (Call.reconciles_device id) = search reads_and_writes
  perform-isolated (Call.reconciles_session id) = search reads_and_writes
  perform-isolated (Call.reads_cart user) = search reads_and_writes
  perform-isolated (Call.adds_item user dto) = search reads_and_writes
  perform-isolated (Call.updates_item user id dto) = search reads_and_writes
  perform-isolated (Call.removes_item user id) = search reads_and_writes
  perform-isolated (Call.reads_category id) = search reads_and_writes
  perform-isolated (Call.creates_category dto) = search reads_and_writes
  perform-isolated (Call.updates_category id dto) = search reads_and_writes
  perform-isolated (Call.deletes_category id) = search reads_and_writes
  perform-isolated (Call.reads_product id) = search reads_and_writes
  perform-isolated (Call.creates_product dto) = search reads_and_writes
  perform-isolated (Call.updates_product id dto) = search reads_and_writes
  perform-isolated (Call.lists_categories query) = search reads_and_writes
  perform-isolated (Call.lists_products query) = search reads_and_writes
  perform-isolated (Call.lists_orders query) = search reads_and_writes
  perform-isolated (Call.lists_reservations query) = search reads_and_writes
  perform-isolated (Call.lists_bookings query) = search reads_and_writes
  perform-isolated (Call.lists_devices query) = search reads_and_writes
  perform-isolated (Call.lists_sales session) = search reads_and_writes
  perform-isolated (Call.reads_role memo actor id) = search reads_and_writes
  perform-isolated (Call.lists_roles memo actor) = search reads_and_writes
  perform-isolated (Call.updates_role memo actor id dto) = search reads_and_writes
  perform-isolated (Call.assigns_role memo actor membership role) = search reads_and_writes
  perform-isolated (Call.reads_member memo actor user) = search reads_and_writes
  perform-isolated (Call.lists_members memo actor) = search reads_and_writes
  perform-isolated (Call.updates_member memo actor membership status) = search reads_and_writes
