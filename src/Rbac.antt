-- ===== src/Rbac.antt =====
-- src/rbac: the permission catalog and the permissions of a member.
pub mod Catalog
pub mod Permission
pub mod Grants
pub mod Role
pub mod Holding
pub mod Bounded
pub mod Steps
pub mod Granting
pub mod Replacing
pub mod Owners
pub mod Assigning
