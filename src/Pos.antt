-- ===== src/Pos.antt =====
-- The point of sale, src/pos: devices and their credentials, cashier sessions, sales on top of
-- orders and payments, and the offline sales that are recorded first and synchronised later.
pub mod Session
pub mod Sale
pub mod Listing
pub mod Linking
pub mod Shifts
pub mod Opening
pub mod Device
pub mod Operation
pub mod Recording
pub mod Validation
pub mod Executable
pub mod Sync
pub mod Settling
pub mod Once
pub mod Feed
pub mod Reconciliation
pub mod Reports
pub mod Lifecycle
pub mod Credentials
pub mod Watermark
