-- ===== src/Schema/Access.antt =====
-- Users, memberships, roles and permissions. Users, permissions and their grants belong to no tenant.
use business_platform.Prelude.{Bool, Option}
use business_platform.Schema.Types.{Key, Instant, Text, MembershipStatus}

pub record Membership : Type 0 where
  pub id : Key
  pub user_id : Key
  pub tenant_id : Key
  pub role_id : Key
  pub status : MembershipStatus
  pub created_at : Instant
  pub updated_at : Instant

pub record Role : Type 0 where
  pub id : Key
  pub tenant_id : Key
  pub key : Text
  pub name : Text
  pub description : Option Text
  pub is_system : Bool
  pub created_at : Instant
  pub updated_at : Instant

pub record Permission : Type 0 where
  pub id : Key
  pub key : Text
  pub name : Text
  pub description : Option Text
  pub category : Option Text

pub record RolePermission : Type 0 where
  pub role_id : Key
  pub permission_id : Key

-- A user belongs to no tenant.
pub record User : Type 0 where
  pub id : Key
  pub email : Text
  pub first_name : Option Text
  pub last_name : Option Text
