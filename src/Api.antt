-- ===== src/Api.antt =====
-- The requests that reach the modelled services, as one type, and their effect on the database.
pub mod Calls
pub mod Isolation
pub mod Tenants
pub mod Grants
pub mod Cascades
pub use Calls.{Call}
unfoldable pub use Calls.{perform, serve}
