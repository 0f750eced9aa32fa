-- ===== src/Platform/Models.antt =====
-- One descriptor for each model of prisma/schema.prisma: its table, its tenant column, its
-- `@updatedAt` column and the constraints of its table.
use business_platform.Prelude.{Option, List}
use business_platform.Prisma.{DbError}
use business_platform.Schema.{
  Permission, RolePermission, PosOperation, PosOperationItem, PosFeedEvent, Membership, Role, Db,
  Key, Instant, ModelName, Store, Customer, Category, Product, ProductVariant, Price, Inventory,
  Cart, CartItem, Order, OrderItem, Payment, Equipment, Reservation, Service, Booking, PosDevice,
  PosSession, PosSale,
}
use business_platform.Platform.Constraints.{
  role_permission_check, category_check, product_check, pos_device_check, pos_operation_check,
  pos_operation_item_check, membership_check, role_check, inventory_check, cart_item_check,
  order_item_check, reservation_check, booking_check, pos_session_check, pos_sale_check, unchecked,
  order_check, payment_check, cart_check,
}

pub record Model (Row : Type 0) : Type 0 where
  pub name : ModelName
  pub rows : Db → List Row
  pub with_rows : List Row → Db → Db
  pub tenant_of : Row → Key
  pub with_tenant : Key → Row → Row
  pub touch : Instant → Row → Row
  pub check : List Row → Option DbError

abbrev pub store_model : Model Store
store_model = record {
  name = ModelName.store;
  rows = λ db. db.stores;
  with_rows = λ rs db. record db { stores = rs };
  tenant_of = λ r. r.tenant_id;
  with_tenant = λ t r. record r { tenant_id = t };
  touch = λ now r. r;
  check = unchecked;
}

abbrev pub customer_model : Model Customer
customer_model = record {
  name = ModelName.customer;
  rows = λ db. db.customers;
  with_rows = λ rs db. record db { customers = rs };
  tenant_of = λ r. r.tenant_id;
  with_tenant = λ t r. record r { tenant_id = t };
  touch = λ now r. r;
  check = unchecked;
}

abbrev pub category_model : Model Category
category_model = record {
  name = ModelName.category;
  rows = λ db. db.categories;
  with_rows = λ rs db. record db { categories = rs };
  tenant_of = λ r. r.tenant_id;
  with_tenant = λ t r. record r { tenant_id = t };
  touch = λ now r. record r { updated_at = now };
  check = category_check;
}

abbrev pub product_model : Model Product
product_model = record {
  name = ModelName.product;
  rows = λ db. db.products;
  with_rows = λ rs db. record db { products = rs };
  tenant_of = λ r. r.tenant_id;
  with_tenant = λ t r. record r { tenant_id = t };
  touch = λ now r. record r { updated_at = now };
  check = product_check;
}

abbrev pub product_variant_model : Model ProductVariant
product_variant_model = record {
  name = ModelName.product_variant;
  rows = λ db. db.variants;
  with_rows = λ rs db. record db { variants = rs };
  tenant_of = λ r. r.tenant_id;
  with_tenant = λ t r. record r { tenant_id = t };
  touch = λ now r. r;
  check = unchecked;
}

abbrev pub price_model : Model Price
price_model = record {
  name = ModelName.price;
  rows = λ db. db.prices;
  with_rows = λ rs db. record db { prices = rs };
  tenant_of = λ r. r.tenant_id;
  with_tenant = λ t r. record r { tenant_id = t };
  touch = λ now r. r;
  check = unchecked;
}

abbrev pub inventory_model : Model Inventory
inventory_model = record {
  name = ModelName.inventory;
  rows = λ db. db.inventories;
  with_rows = λ rs db. record db { inventories = rs };
  tenant_of = λ r. r.tenant_id;
  with_tenant = λ t r. record r { tenant_id = t };
  touch = λ now r. record r { updated_at = now };
  check = inventory_check;
}

abbrev pub cart_model : Model Cart
cart_model = record {
  name = ModelName.cart;
  rows = λ db. db.carts;
  with_rows = λ rs db. record db { carts = rs };
  tenant_of = λ r. r.tenant_id;
  with_tenant = λ t r. record r { tenant_id = t };
  touch = λ now r. record r { updated_at = now };
  check = cart_check;
}

abbrev pub cart_item_model : Model CartItem
cart_item_model = record {
  name = ModelName.cart_item;
  rows = λ db. db.cart_items;
  with_rows = λ rs db. record db { cart_items = rs };
  tenant_of = λ r. r.tenant_id;
  with_tenant = λ t r. record r { tenant_id = t };
  touch = λ now r. record r { updated_at = now };
  check = cart_item_check;
}

abbrev pub order_model : Model Order
order_model = record {
  name = ModelName.order;
  rows = λ db. db.orders;
  with_rows = λ rs db. record db { orders = rs };
  tenant_of = λ r. r.tenant_id;
  with_tenant = λ t r. record r { tenant_id = t };
  touch = λ now r. record r { updated_at = now };
  check = order_check;
}

abbrev pub order_item_model : Model OrderItem
order_item_model = record {
  name = ModelName.order_item;
  rows = λ db. db.order_items;
  with_rows = λ rs db. record db { order_items = rs };
  tenant_of = λ r. r.tenant_id;
  with_tenant = λ t r. record r { tenant_id = t };
  touch = λ now r. r;
  check = order_item_check;
}

abbrev pub payment_model : Model Payment
payment_model = record {
  name = ModelName.payment;
  rows = λ db. db.payments;
  with_rows = λ rs db. record db { payments = rs };
  tenant_of = λ r. r.tenant_id;
  with_tenant = λ t r. record r { tenant_id = t };
  touch = λ now r. record r { updated_at = now };
  check = payment_check;
}

abbrev pub equipment_model : Model Equipment
equipment_model = record {
  name = ModelName.equipment;
  rows = λ db. db.equipments;
  with_rows = λ rs db. record db { equipments = rs };
  tenant_of = λ r. r.tenant_id;
  with_tenant = λ t r. record r { tenant_id = t };
  touch = λ now r. r;
  check = unchecked;
}

abbrev pub reservation_model : Model Reservation
reservation_model = record {
  name = ModelName.reservation;
  rows = λ db. db.reservations;
  with_rows = λ rs db. record db { reservations = rs };
  tenant_of = λ r. r.tenant_id;
  with_tenant = λ t r. record r { tenant_id = t };
  touch = λ now r. record r { updated_at = now };
  check = reservation_check;
}

abbrev pub service_model : Model Service
service_model = record {
  name = ModelName.service;
  rows = λ db. db.services;
  with_rows = λ rs db. record db { services = rs };
  tenant_of = λ r. r.tenant_id;
  with_tenant = λ t r. record r { tenant_id = t };
  touch = λ now r. r;
  check = unchecked;
}

abbrev pub booking_model : Model Booking
booking_model = record {
  name = ModelName.booking;
  rows = λ db. db.bookings;
  with_rows = λ rs db. record db { bookings = rs };
  tenant_of = λ r. r.tenant_id;
  with_tenant = λ t r. record r { tenant_id = t };
  touch = λ now r. record r { updated_at = now };
  check = booking_check;
}

abbrev pub pos_device_model : Model PosDevice
pos_device_model = record {
  name = ModelName.pos_device;
  rows = λ db. db.pos_devices;
  with_rows = λ rs db. record db { pos_devices = rs };
  tenant_of = λ r. r.tenant_id;
  with_tenant = λ t r. record r { tenant_id = t };
  touch = λ now r. record r { updated_at = now };
  check = pos_device_check;
}

abbrev pub pos_session_model : Model PosSession
pos_session_model = record {
  name = ModelName.pos_session;
  rows = λ db. db.pos_sessions;
  with_rows = λ rs db. record db { pos_sessions = rs };
  tenant_of = λ r. r.tenant_id;
  with_tenant = λ t r. record r { tenant_id = t };
  touch = λ now r. record r { updated_at = now };
  check = pos_session_check;
}

abbrev pub pos_sale_model : Model PosSale
pos_sale_model = record {
  name = ModelName.pos_sale;
  rows = λ db. db.pos_sales;
  with_rows = λ rs db. record db { pos_sales = rs };
  tenant_of = λ r. r.tenant_id;
  with_tenant = λ t r. record r { tenant_id = t };
  touch = λ now r. r;
  check = pos_sale_check;
}

abbrev pub pos_operation_model : Model PosOperation
pos_operation_model = record {
  name = ModelName.pos_operation;
  rows = λ db. db.pos_operations;
  with_rows = λ rs db. record db { pos_operations = rs };
  tenant_of = λ r. r.tenant_id;
  with_tenant = λ t r. record r { tenant_id = t };
  touch = λ now r. record r { updated_at = now };
  check = pos_operation_check;
}

abbrev pub pos_operation_item_model : Model PosOperationItem
pos_operation_item_model = record {
  name = ModelName.pos_operation_item;
  rows = λ db. db.pos_operation_items;
  with_rows = λ rs db. record db { pos_operation_items = rs };
  tenant_of = λ r. r.tenant_id;
  with_tenant = λ t r. record r { tenant_id = t };
  touch = λ now r. record r { updated_at = now };
  check = pos_operation_item_check;
}

abbrev pub pos_feed_event_model : Model PosFeedEvent
pos_feed_event_model = record {
  name = ModelName.pos_feed_event;
  rows = λ db. db.pos_feed_events;
  with_rows = λ rs db. record db { pos_feed_events = rs };
  tenant_of = λ r. r.tenant_id;
  with_tenant = λ t r. record r { tenant_id = t };
  touch = λ now r. r;
  check = unchecked;
}

abbrev pub membership_model : Model Membership
membership_model = record {
  name = ModelName.membership;
  rows = λ db. db.memberships;
  with_rows = λ rs db. record db { memberships = rs };
  tenant_of = λ r. r.tenant_id;
  with_tenant = λ t r. record r { tenant_id = t };
  touch = λ now r. record r { updated_at = now };
  check = membership_check;
}

abbrev pub role_model : Model Role
role_model = record {
  name = ModelName.role;
  rows = λ db. db.roles;
  with_rows = λ rs db. record db { roles = rs };
  tenant_of = λ r. r.tenant_id;
  with_tenant = λ t r. record r { tenant_id = t };
  touch = λ now r. record r { updated_at = now };
  check = role_check;
}

-- The two tables of permissions have no tenant column.
abbrev pub permission_model : Model Permission
permission_model = record {
  name = ModelName.permission;
  rows = λ db. db.permissions;
  with_rows = λ rs db. record db { permissions = rs };
  tenant_of = λ r. 0;
  with_tenant = λ t r. r;
  touch = λ now r. r;
  check = unchecked;
}

abbrev pub role_permission_model : Model RolePermission
role_permission_model = record {
  name = ModelName.role_permission;
  rows = λ db. db.role_permissions;
  with_rows = λ rs db. record db { role_permissions = rs };
  tenant_of = λ r. 0;
  with_tenant = λ t r. r;
  touch = λ now r. r;
  check = role_permission_check;
}
