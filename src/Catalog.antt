-- ===== src/Catalog.antt =====
-- The catalog: its categories (src/category) and its products (src/product).
pub mod Categories
pub mod Products
pub mod Listing
pub mod Deletion
pub mod Integrity
pub mod History
pub mod Requests
