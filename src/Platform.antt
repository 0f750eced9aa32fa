-- ===== src/Platform.antt =====
-- What every service stands on: exceptions, the request's tenant context
-- (src/common/tenant-context), actions on the database with rollback, and the tenant-scoped
-- client of src/common/database/prisma.
mod Effects
pub mod Constraints
mod Models
mod Client
pub mod Scoping
pub mod Facts
pub mod Frames
pub mod Unique
pub mod Isolation
pub mod Leaves
pub mod Ends
pub use Effects.*
pub use Models.*
unfoldable pub use Client.{
  find_unique, find_first, find_many, find_first_by, find_many_by, find_page, create, update,
  update_many, fresh_id, delete, delete_many, create_many, count_rows, delete_unless, find_related,
  cascade,
}
