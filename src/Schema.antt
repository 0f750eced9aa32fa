-- ===== src/Schema.antt =====
-- The tables of prisma/schema.prisma that the modelled services read and write, one record for
-- each model, and the database as a record of tables. Relation fields are left out: a query
-- that includes related rows reads their table.
pub mod Types
pub mod Catalog
pub mod Commerce
pub mod Scheduling
pub mod Pos
pub mod Access
pub use Types.*
pub use Catalog.*
pub use Commerce.*
pub use Scheduling.*
pub use Pos.*
pub use Access.*
use business_platform.Prelude.{ℕ, List, []}

-- The state of the database.
pub record Db : Type 0 where
  pub stores : List Store
  pub customers : List Customer
  pub categories : List Category
  pub products : List Product
  pub variants : List ProductVariant
  pub prices : List Price
  pub inventories : List Inventory
  pub carts : List Cart
  pub cart_items : List CartItem
  pub orders : List Order
  pub order_items : List OrderItem
  pub payments : List Payment
  pub equipments : List Equipment
  pub reservations : List Reservation
  pub services : List Service
  pub bookings : List Booking
  pub pos_devices : List PosDevice
  pub pos_sessions : List PosSession
  pub pos_sales : List PosSale
  pub pos_operations : List PosOperation
  pub pos_operation_items : List PosOperationItem
  pub pos_feed_events : List PosFeedEvent
  pub memberships : List Membership
  pub roles : List Role
  pub permissions : List Permission
  pub role_permissions : List RolePermission
  pub users : List User
  pub generated : ℕ  -- how many identifiers the client has generated

abbrev pub empty_db : Db
empty_db = record {
  stores = [];
  customers = [];
  categories = [];
  products = [];
  variants = [];
  prices = [];
  inventories = [];
  carts = [];
  cart_items = [];
  orders = [];
  order_items = [];
  payments = [];
  equipments = [];
  reservations = [];
  services = [];
  bookings = [];
  pos_devices = [];
  pos_sessions = [];
  pos_sales = [];
  pos_operations = [];
  pos_operation_items = [];
  pos_feed_events = [];
  memberships = [];
  roles = [];
  permissions = [];
  role_permissions = [];
  users = [];
  generated = 0;
}
