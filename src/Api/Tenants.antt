-- ===== src/Api/Tenants.antt =====
-- The calls of one tenant beside the data of another, and calls that have no tenant.
use business_platform.Prelude.{
  List, Option, [], ap, arith, none, refl, select, some, sym, ◌==◌, ◌∙◌, ◌∷◌, ◌≡◌, ◌≢◌,
}
use business_platform.Prisma.{Prisma}
use business_platform.Schema.{Db, Key, Instant}
use business_platform.Platform.{
  store_model, customer_model, category_model, product_model, product_variant_model, price_model,
  inventory_model, cart_model, cart_item_model, order_model, order_item_model, payment_model,
  equipment_model, reservation_model, service_model, booking_model, pos_device_model,
  pos_session_model, pos_sale_model, pos_operation_model, pos_operation_item_model,
  pos_feed_event_model, membership_model, role_model, within, outside, err, internal_server_error,
  no_tenant_context, Model,
}
use business_platform.Platform.Isolation.{foreign, others}
use business_platform.Inventory.{get_scoped_inventory, adjust_scoped}
use business_platform.Order.{create_order, get_order, cancel_order}
use business_platform.Payment.{create_payment, get_payment, capture_payment, fail_payment}
use business_platform.Reservation.{
  get_reservation, create_reservation, update_reservation, start_reservation, complete_reservation,
  delete_reservation,
}
use business_platform.Booking.{get_booking, create_booking, update_booking}
use business_platform.Pos.Session.{open_session, get_session, close_session}
use business_platform.Pos.Sale.{create_sale, get_sale}
use business_platform.Pos.Device.{
  Crypto, register_device, get_device, update_device, transition, rotate_credential,
}
use business_platform.Pos.Operation.{
  record_offline_sale_intent, get_operation, list_device_operations,
}
use business_platform.Pos.Sync.{sync_operation}
use business_platform.Pos.Feed.{pull_feed}
use business_platform.Pos.Reconciliation.{get_device_reconciliation, get_session_reconciliation}
use business_platform.Cart.Editing.{get_cart, add_item, update_item, remove_item}
use business_platform.Catalog.Categories.{
  require_category, get_category, create_category, update_category, delete_category,
}
use business_platform.Catalog.Products.{
  require_product, get_product, create_product, update_product,
}
use business_platform.Catalog.Listing.{list_categories, list_products}
use business_platform.Pagination.Listing.{Runtime, list_rows}
use business_platform.Order.Listing.{list_orders}
use business_platform.Reservation.Listing.{list_reservations}
use business_platform.Booking.Listing.{list_bookings}
use business_platform.Pos.Listing.{list_devices, list_session_sales}
use business_platform.Rbac.Permission.{assert_permissions, get_permissions}
use business_platform.Rbac.Role
use business_platform.Rbac.Role.{get_role, list_roles, update_role, assign_role_to_membership}
use business_platform.Member
use business_platform.Member.{get_member, list_members, update_member_status}
use business_platform.Api.Calls.{sync_alone, serve, Call, perform}
use business_platform.Api.Isolation.{perform-isolated}

module _ ⦃prisma : Prisma⦄ ⦃crypto : Crypto⦄ ⦃runtime : Runtime⦄ where
  -- Whichever call tenant `t` makes, and whether it succeeds or fails, every row of every other
  -- tenant, in every table, is as it was before. The calls are the constructors of Call: the requests
  -- to the modelled services but createRole, deleteRole, assignPermissions, discardCart and
  -- deleteProduct.
  pub perform-keeps_others :
      (t : Key) (now : Instant) (call : Call) (db : Db)
      → foreign t (perform call (within t now) db).1 ≡ foreign t db
  perform-keeps_others t now call db = (perform-isolated t now call).apply db

  -- A call outside of a tenant context throws an internal server error and changes nothing.
  pub perform-outside :
      (now : Instant) (call : Call) (db : Db)
      → perform call (outside now) db ≡ (err (internal_server_error no_tenant_context), db)
  unfolding perform get_scoped_inventory adjust_scoped create_order get_order cancel_order
      create_payment get_payment capture_payment fail_payment create_reservation update_reservation
      get_reservation start_reservation complete_reservation delete_reservation create_booking
      update_booking get_booking open_session get_session close_session create_sale get_sale
      register_device get_device update_device transition rotate_credential
      record_offline_sale_intent get_operation list_device_operations sync_alone pull_feed
      get_device_reconciliation get_session_reconciliation get_cart add_item update_item remove_item
      sync_operation require_category require_product list_rows create_category create_product
      delete_category get_category get_product list_bookings list_categories list_devices
      list_orders list_products list_reservations list_session_sales update_category update_product
      get_permissions assert_permissions get_role list_roles update_role assign_role_to_membership
      get_member list_members update_member_status Role.assert_manage Role.assert_read
      Member.assert_manage Member.assert_read
  perform-outside now (Call.reads_inventory scope v) db = refl
  perform-outside now (Call.adjusts_inventory scope dto) db = refl
  perform-outside now (Call.creates_order user dto options) db = refl
  perform-outside now (Call.reads_order id) db = refl
  perform-outside now (Call.cancels_order id) db = refl
  perform-outside now (Call.creates_payment dto) db = refl
  perform-outside now (Call.reads_payment id) db = refl
  perform-outside now (Call.captures_payment id) db = refl
  perform-outside now (Call.fails_payment id) db = refl
  perform-outside now (Call.creates_reservation dto) db = refl
  perform-outside now (Call.updates_reservation id dto) db = refl
  perform-outside now (Call.reads_reservation id) db = refl
  perform-outside now (Call.starts_reservation id) db = refl
  perform-outside now (Call.completes_reservation id) db = refl
  perform-outside now (Call.deletes_reservation id) db = refl
  perform-outside now (Call.creates_booking dto) db = refl
  perform-outside now (Call.updates_booking id dto) db = refl
  perform-outside now (Call.reads_booking id) db = refl
  perform-outside now (Call.opens_session user device) db = refl
  perform-outside now (Call.reads_session id) db = refl
  perform-outside now (Call.closes_session id) db = refl
  perform-outside now (Call.creates_sale user dto options) db = refl
  perform-outside now (Call.reads_sale id) db = refl
  perform-outside now (Call.registers_device dto) db = refl
  perform-outside now (Call.reads_device id) db = refl
  perform-outside now (Call.updates_device id dto) db = refl
  perform-outside now (Call.transitions_device id action) db = refl
  perform-outside now (Call.rotates_credential id) db = refl
  perform-outside now (Call.records_intent user dto) db = refl
  perform-outside now (Call.reads_operation id) db = refl
  perform-outside now (Call.lists_operations device) db = refl
  perform-outside now (Call.syncs_operation user id credential) db = refl
  perform-outside now (Call.pulls_feed since) db = refl
  perform-outside now (Call.reconciles_device id) db = refl
  perform-outside now (Call.reconciles_session id) db = refl
  perform-outside now (Call.reads_cart user) db = refl
  perform-outside now (Call.adds_item user dto) db = refl
  perform-outside now (Call.updates_item user id dto) db = refl
  perform-outside now (Call.removes_item user id) db = refl
  perform-outside now (Call.reads_category id) db = refl
  perform-outside now (Call.creates_category dto) db = refl
  perform-outside now (Call.updates_category id dto) db = refl
  perform-outside now (Call.deletes_category id) db = refl
  perform-outside now (Call.reads_product id) db = refl
  perform-outside now (Call.creates_product dto) db = refl
  perform-outside now (Call.updates_product id dto) db = refl
  perform-outside now (Call.lists_categories query) db = refl
  perform-outside now (Call.lists_products query) db = refl
  perform-outside now (Call.lists_orders query) db = refl
  perform-outside now (Call.lists_reservations query) db = refl
  perform-outside now (Call.lists_bookings query) db = refl
  perform-outside now (Call.lists_devices query) db = refl
  perform-outside now (Call.lists_sales session) db = refl
  perform-outside now (Call.reads_role memo actor id) db = refl
  perform-outside now (Call.lists_roles memo actor) db = refl
  perform-outside now (Call.updates_role memo actor id dto) db = refl
  perform-outside now (Call.assigns_role memo actor membership role) db = refl
  perform-outside now (Call.reads_member memo actor user) db = refl
  perform-outside now (Call.lists_members memo actor) db = refl
  perform-outside now (Call.updates_member memo actor membership status) db = refl

-- The rows of tenant `u`.
abbrev pub own : {Row : Type 0} → Model Row → Key → List Row → List Row
own m u rs = select (λ r. m.tenant_of r == u) rs

own-others :
    {Row : Type 0} (m : Model Row) (t u : Key) (rs : List Row)
    → t ≢ u
    → own m u (others m t rs) ≡ own m u rs
own-others m t u [] h = refl
own-others m t u (r ∷ rs) h = ground (arith, own-others m t u rs h)

-- All that belongs to tenant `u`.
abbrev pub own_data : Key → Db → Db
own_data u db = record {
  stores = own store_model u db.stores;
  customers = own customer_model u db.customers;
  categories = own category_model u db.categories;
  products = own product_model u db.products;
  variants = own product_variant_model u db.variants;
  prices = own price_model u db.prices;
  inventories = own inventory_model u db.inventories;
  carts = own cart_model u db.carts;
  cart_items = own cart_item_model u db.cart_items;
  orders = own order_model u db.orders;
  order_items = own order_item_model u db.order_items;
  payments = own payment_model u db.payments;
  equipments = own equipment_model u db.equipments;
  reservations = own reservation_model u db.reservations;
  services = own service_model u db.services;
  bookings = own booking_model u db.bookings;
  pos_devices = own pos_device_model u db.pos_devices;
  pos_sessions = own pos_session_model u db.pos_sessions;
  pos_sales = own pos_sale_model u db.pos_sales;
  pos_operations = own pos_operation_model u db.pos_operations;
  pos_operation_items = own pos_operation_item_model u db.pos_operation_items;
  pos_feed_events = own pos_feed_event_model u db.pos_feed_events;
  memberships = own membership_model u db.memberships;
  roles = own role_model u db.roles;
  permissions = db.permissions;
  role_permissions = db.role_permissions;
  users = db.users;
  generated = 0;
}

own_data-foreign : (t u : Key) (db : Db) → t ≢ u → own_data u (foreign t db) ≡ own_data u db
own_data-foreign t u db h = cc (
  own-others store_model t u db.stores h,
  own-others customer_model t u db.customers h,
  own-others category_model t u db.categories h,
  own-others product_model t u db.products h,
  own-others product_variant_model t u db.variants h,
  own-others price_model t u db.prices h,
  own-others inventory_model t u db.inventories h,
  own-others cart_model t u db.carts h,
  own-others cart_item_model t u db.cart_items h,
  own-others order_model t u db.orders h,
  own-others order_item_model t u db.order_items h,
  own-others payment_model t u db.payments h,
  own-others equipment_model t u db.equipments h,
  own-others reservation_model t u db.reservations h,
  own-others service_model t u db.services h,
  own-others booking_model t u db.bookings h,
  own-others pos_device_model t u db.pos_devices h,
  own-others pos_session_model t u db.pos_sessions h,
  own-others pos_sale_model t u db.pos_sales h,
  own-others pos_operation_model t u db.pos_operations h,
  own-others pos_operation_item_model t u db.pos_operation_items h,
  own-others pos_feed_event_model t u db.pos_feed_events h,
  own-others membership_model t u db.memberships h,
  own-others role_model t u db.roles h,
)

-- No request of the sequence runs for tenant `u`.
abbrev pub NoneFor : Key → List (Option Key × Instant × Call) → Type 0
NoneFor u [] = Unit
NoneFor u ((none, now, call) ∷ calls) = NoneFor u calls
NoneFor u ((some t, now, call) ∷ calls) = (t ≢ u) × NoneFor u calls

module _ ⦃prisma : Prisma⦄ ⦃crypto : Crypto⦄ ⦃runtime : Runtime⦄ where
  -- After any sequence of calls of which none runs for tenant `u`, whichever of the constructors of
  -- Call they are and in whatever order they come, the data of tenant `u` are as they were before.
  -- Call has the requests to the modelled services but createRole, deleteRole, assignPermissions,
  -- discardCart and deleteProduct.
  pub serve-keeps_tenant :
      (u : Key) (calls : List (Option Key × Instant × Call)) (db : Db)
      → NoneFor u calls
      → own_data u (serve calls db) ≡ own_data u db
  unfolding serve
  serve-keeps_tenant u [] db h = refl
  serve-keeps_tenant u ((none, now, call) ∷ calls) db h =
      serve-keeps_tenant u calls _ h ∙ ap (λ o. own_data u o.1) (perform-outside now call db)
  serve-keeps_tenant u ((some t, now, call) ∷ calls) db h =
      let db' = (perform call (within t now) db).1 in
      serve-keeps_tenant u calls db' h.1
      ∙ sym (own_data-foreign t u db' h.0)
      ∙ ap (own_data u) (perform-keeps_others t now call db)
      ∙ own_data-foreign t u db h.0
