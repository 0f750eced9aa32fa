-- ===== src/Tests.antt =====
-- An in-memory client, a sample shop, and what the theorems say at requests to it.
pub mod Memory
pub mod Shop
pub mod Examples
pub mod Lists
pub mod Devices
pub mod Offline
pub mod Access
pub mod Members
pub mod Products
pub mod Walks
pub mod Orders
