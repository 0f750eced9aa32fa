-- ===== src/Rbac/Catalog.antt =====
-- src/rbac/permission-catalog.ts: the permissions of the platform and the roles that every tenant
-- starts with.
use Prim.Native.String.{String}
use business_platform.Prelude.{List, [], ◌∷◌}
use business_platform.Schema.{Text}

-- The keys of `PERMISSIONS`; `store_read` is 'store:read'.
pub data PermissionKey : Type 0 where
  store_read store_create store_update store_delete store_manage member_read : PermissionKey
  member_manage asset_read asset_create asset_update asset_delete asset_manage : PermissionKey
  equipment_read equipment_create equipment_update equipment_delete : PermissionKey
  equipment_manage customer_read customer_create customer_update customer_delete : PermissionKey
  customer_manage reservation_read reservation_create reservation_update : PermissionKey
  reservation_delete reservation_manage category_read category_create : PermissionKey
  category_update category_delete category_manage product_read product_create : PermissionKey
  product_update product_delete product_manage inventory_read inventory_manage : PermissionKey
  cart_manage order_read order_create order_delete order_manage payment_read : PermissionKey
  payment_create payment_manage pos_read pos_create pos_manage service_read : PermissionKey
  service_create service_manage booking_read booking_create booking_manage : PermissionKey
  role_read role_manage settings_read settings_manage report_read : PermissionKey

-- The text of a key, by number.
unfoldable pub code : PermissionKey → Text
code store_read = 1
code store_create = 2
code store_update = 3
code store_delete = 4
code store_manage = 5
code member_read = 6
code member_manage = 7
code asset_read = 8
code asset_create = 9
code asset_update = 10
code asset_delete = 11
code asset_manage = 12
code equipment_read = 13
code equipment_create = 14
code equipment_update = 15
code equipment_delete = 16
code equipment_manage = 17
code customer_read = 18
code customer_create = 19
code customer_update = 20
code customer_delete = 21
code customer_manage = 22
code reservation_read = 23
code reservation_create = 24
code reservation_update = 25
code reservation_delete = 26
code reservation_manage = 27
code category_read = 28
code category_create = 29
code category_update = 30
code category_delete = 31
code category_manage = 32
code product_read = 33
code product_create = 34
code product_update = 35
code product_delete = 36
code product_manage = 37
code inventory_read = 38
code inventory_manage = 39
code cart_manage = 40
code order_read = 41
code order_create = 42
code order_delete = 43
code order_manage = 44
code payment_read = 45
code payment_create = 46
code payment_manage = 47
code pos_read = 48
code pos_create = 49
code pos_manage = 50
code service_read = 51
code service_create = 52
code service_manage = 53
code booking_read = 54
code booking_create = 55
code booking_manage = 56
code role_read = 57
code role_manage = 58
code settings_read = 59
code settings_manage = 60
code report_read = 61

-- The texts of `PERMISSION_CATEGORIES`.
pub data Category : Type 0 where
  store assets equipment customer reservations categories products inventory cart : Category
  orders payments pos services bookings members rbac settings reporting : Category

pub record PermissionDefinition : Type 0 where
  pub key : PermissionKey
  pub name : String
  pub category : Category
  pub description : String

abbrev defined : PermissionKey → String → Category → String → PermissionDefinition
defined k n c d = record { key = k; name = n; category = c; description = d }

unfoldable pub permission_definitions : List PermissionDefinition
permission_definitions =
    defined store_read "Read stores" Category.store "View store records in the tenant"
    ∷ defined store_create "Create stores" Category.store "Create stores in the tenant"
    ∷ defined store_update "Update stores" Category.store "Update stores in the tenant"
    ∷ defined store_delete "Delete stores" Category.store "Delete stores in the tenant"
    ∷ defined store_manage "Manage stores" Category.store "Full store management in the tenant"
    ∷ defined asset_read "Read assets" Category.assets "View asset records in the tenant"
    ∷ defined asset_create "Create assets" Category.assets "Create assets in the tenant"
    ∷ defined asset_update "Update assets" Category.assets "Update assets in the tenant"
    ∷ defined asset_delete "Delete assets" Category.assets "Delete assets in the tenant"
    ∷ defined asset_manage "Manage assets" Category.assets "Full asset management in the tenant"
    ∷ defined equipment_read "Read equipment" Category.equipment
        "View equipment records in the tenant"
    ∷ defined equipment_create "Create equipment" Category.equipment
        "Create equipment records in the tenant"
    ∷ defined equipment_update "Update equipment" Category.equipment
        "Update equipment records in the tenant"
    ∷ defined equipment_delete "Delete equipment" Category.equipment
        "Delete equipment records in the tenant"
    ∷ defined equipment_manage "Manage equipment" Category.equipment
        "Full equipment management in the tenant"
    ∷ defined customer_read "Read customers" Category.customer "View customer records in the tenant"
    ∷ defined customer_create "Create customers" Category.customer
        "Create customer records in the tenant"
    ∷ defined customer_update "Update customers" Category.customer
        "Update customer records in the tenant"
    ∷ defined customer_delete "Delete customers" Category.customer
        "Delete customer records in the tenant"
    ∷ defined customer_manage "Manage customers" Category.customer
        "Full customer management in the tenant"
    ∷ defined reservation_read "Read reservations" Category.reservations
        "View reservations in the tenant"
    ∷ defined reservation_create "Create reservations" Category.reservations
        "Create reservations in the tenant"
    ∷ defined reservation_update "Update reservations" Category.reservations
        "Update reservations in the tenant"
    ∷ defined reservation_delete "Cancel reservations" Category.reservations
        "Cancel (soft-delete) reservations in the tenant"
    ∷ defined reservation_manage "Manage reservations" Category.reservations
        "Full reservation management in the tenant"
    ∷ defined category_read "Read categories" Category.categories
        "View product categories in the tenant"
    ∷ defined category_create "Create categories" Category.categories
        "Create product categories in the tenant"
    ∷ defined category_update "Update categories" Category.categories
        "Update product categories in the tenant"
    ∷ defined category_delete "Delete categories" Category.categories
        "Delete product categories in the tenant"
    ∷ defined category_manage "Manage categories" Category.categories
        "Full product category management in the tenant"
    ∷ defined product_read "Read products" Category.products "View products in the tenant"
    ∷ defined product_create "Create products" Category.products "Create products in the tenant"
    ∷ defined product_update "Update products" Category.products "Update products in the tenant"
    ∷ defined product_delete "Delete products" Category.products "Delete products in the tenant"
    ∷ defined product_manage "Manage products" Category.products
        "Full product management in the tenant"
    ∷ defined inventory_read "Read inventory" Category.inventory
        "View inventory levels in the tenant"
    ∷ defined inventory_manage "Manage inventory" Category.inventory
        "Adjust inventory levels in the tenant"
    ∷ defined cart_manage "Manage cart" Category.cart "Manage own cart in the tenant"
    ∷ defined order_read "Read orders" Category.orders "View orders in the tenant"
    ∷ defined order_create "Create orders" Category.orders "Create orders in the tenant"
    ∷ defined order_delete "Cancel orders" Category.orders "Cancel pending orders in the tenant"
    ∷ defined order_manage "Manage orders" Category.orders "Full order management in the tenant"
    ∷ defined payment_read "Read payments" Category.payments "View payments in the tenant"
    ∷ defined payment_create "Create payments" Category.payments "Create payments in the tenant"
    ∷ defined payment_manage "Manage payments" Category.payments
        "Full payment management in the tenant (capture/fail)"
    ∷ defined pos_read "Read POS devices and sessions" Category.pos
        "View POS devices and sessions in the tenant"
    ∷ defined pos_create "Register POS devices and open sessions" Category.pos
        "Register POS devices and open POS sessions in the tenant (A1: admin-level authority; employees are read-only)"
    ∷ defined pos_manage "Manage POS devices and sessions" Category.pos
        "Suspend/resume/retire POS devices, rotate device credentials, and close POS sessions in the tenant"
    ∷ defined service_read "Read services" Category.services
        "View service catalog entries in the tenant"
    ∷ defined service_create "Create services" Category.services
        "Create service catalog entries in the tenant"
    ∷ defined service_manage "Manage services" Category.services
        "Update and archive service catalog entries in the tenant (catalog definition only — no booking, scheduling, pricing, or assignment)"
    ∷ defined booking_read "Read bookings" Category.bookings "View service bookings in the tenant"
    ∷ defined booking_create "Create bookings" Category.bookings
        "Create service bookings in the tenant"
    ∷ defined booking_manage "Manage bookings" Category.bookings
        "Update and cancel service bookings in the tenant"
    ∷ defined member_read "Read members" Category.members "View tenant members"
    ∷ defined member_manage "Manage members" Category.members "Manage memberships and their roles"
    ∷ defined role_read "Read roles" Category.rbac "View roles and their permissions"
    ∷ defined role_manage "Manage roles" Category.rbac
        "Create, update, delete roles and assign permissions"
    ∷ defined settings_read "Read settings" Category.settings "View tenant settings"
    ∷ defined settings_manage "Manage settings" Category.settings "Update tenant settings"
    ∷ defined report_read "Read reports" Category.reporting "View tenant reports"
    ∷ []

-- The texts of `SYSTEM_ROLE_KEYS`, by number.
pub data SystemRoleKey : Type 0 where
  owner admin employee : SystemRoleKey

abbrev pub role_text : SystemRoleKey → Text
role_text owner = 1
role_text admin = 2
role_text employee = 3

pub record SystemRoleDefinition : Type 0 where
  pub key : SystemRoleKey
  pub name : String
  pub description : String
  pub default_permissions : List PermissionKey

abbrev pub owner_role : SystemRoleDefinition
owner_role = record {
  key = SystemRoleKey.owner;
  name = "Owner";
  description = "Full control over the tenant (all permissions)";
  default_permissions = [];
}

abbrev pub admin_role : SystemRoleDefinition
admin_role = record {
  key = SystemRoleKey.admin;
  name = "Admin";
  description = "Tenant administration";
  default_permissions =
      role_read ∷ role_manage ∷ member_manage ∷ settings_manage ∷ store_manage ∷ asset_manage
      ∷ equipment_manage ∷ customer_manage ∷ reservation_manage ∷ category_manage ∷ product_manage
      ∷ inventory_manage ∷ cart_manage ∷ order_manage ∷ payment_manage ∷ pos_read ∷ pos_create
      ∷ pos_manage ∷ service_read ∷ service_create ∷ service_manage ∷ booking_read ∷ booking_create
      ∷ booking_manage ∷ report_read ∷ [];
}

abbrev pub employee_role : SystemRoleDefinition
employee_role = record {
  key = SystemRoleKey.employee;
  name = "Employee";
  description = "Baseline operational access";
  default_permissions =
      store_read ∷ asset_read ∷ equipment_read ∷ customer_read ∷ reservation_read ∷ category_read
      ∷ product_read ∷ inventory_read ∷ cart_manage ∷ order_create ∷ payment_create ∷ pos_read
      ∷ service_read ∷ booking_read ∷ [];
}

unfoldable pub system_role_definitions : List SystemRoleDefinition
system_role_definitions = owner_role ∷ admin_role ∷ employee_role ∷ []
