-- ===== src/Rbac/Role.antt =====
-- src/rbac/role.service.ts: the roles of a tenant, their grants and who holds them. The memo of the
-- permission service is handed on, and gone after a mutation.
use business_platform.Prelude.{
  ℕ, Bool, List, Option, [], ◌∷◌, false, first, if◌then◌else◌, leb, length, ltb, map, none, not,
  select, some, true, ◌&&◌, ◌==◌, ◌||◌,
}
use business_platform.Prisma.{Prisma, p2002, p2003}
use business_platform.Schema.{Db, Key, Text, Membership, Permission, Role, RolePermission}
use business_platform.Platform.{
  Error, Message, Action, pure, throw, or_throw, throw_if, catch, transaction, database, not_found,
  conflict, bad_request, forbidden, type_error, role_key_taken, role_assigned, role_not_found,
  system_role_immutable, unknown_permission, duplicate_permission, permission_list_too_large,
  permission_id_too_long, create_requires_permission, reserved_role_key, grant_exceeds_actor,
  self_role_change, owner_assignment, last_owner, membership_not_found, ◌>>=◌, ◌>>◌,
  require_tenant_id, current_time, find_unique, find_many, find_many_by, find_related, create,
  create_many, update, delete, delete_many, count_rows, cascade, fresh_id, role_model,
  membership_model, permission_model, role_permission_model,
}
use business_platform.Platform.Constraints.{some_row}
use business_platform.Pos.Validation.{distinct_from}
use business_platform.Rbac.Catalog.{PermissionKey, SystemRoleKey, role_text}
use business_platform.Rbac.Permission.{
  Memo, Mode, assert_permissions, get_permissions, includes, is_active_member,
}

pub record CreateRoleDto : Type 0 where
  pub key : Text
  pub name : Text
  pub description : Option Text
  pub permission_ids : List Key

pub record UpdateRoleDto : Type 0 where
  pub name : Option Text
  pub description : Option (Option Text)  -- undefined, null or a text

-- A role with the permissions that its grants lead to.
pub record RoleWithPermissions : Type 0 where
  pub role : Role
  pub permissions : List Permission

pub record RoleListEntry : Type 0 where
  pub role : Role
  pub permission_count : ℕ

-- `MAX_PERMISSION_IDS` and `MAX_PERMISSION_ID_LENGTH`.
abbrev pub max_permission_ids : ℕ
max_permission_ids = 50

abbrev pub max_permission_id_length : ℕ
max_permission_id_length = 40

abbrev pub is_owner_key : Text → Bool
is_owner_key k = k == role_text SystemRoleKey.owner

-- `Object.values(SYSTEM_ROLE_KEYS).includes(key)`
abbrev pub is_reserved : Text → Bool
is_reserved k =
    k == role_text SystemRoleKey.owner
    || (k == role_text SystemRoleKey.admin || k == role_text SystemRoleKey.employee)

abbrev pub assert_not_reserved_key : Text → Action (Unit {0})
assert_not_reserved_key k = throw_if (is_reserved k) (bad_request reserved_role_key)

abbrev pub assert_mutable : Bool → Action (Unit {0})
assert_mutable is_system = throw_if is_system (forbidden system_role_immutable)

-- `dto.name ?? role.name`
abbrev pub or_else : {A : Type 0} → Option A → A → A
or_else none a = a
or_else (some b) a = b

-- `dto.description === undefined ? role.description : dto.description`
abbrev pub or_kept : Option (Option Text) → Option Text → Option Text
or_kept none d = d
or_kept (some t) d = t

-- A permission of the list that the actor's keys do not hold.
abbrev pub unheld : List Text → Permission → Bool
unheld keys p = not (includes keys p.key)

abbrev pub to_grant : Key → Permission → RolePermission
to_grant role_id p = record { role_id = role_id; permission_id = p.id }

-- The handlers of `createRole` and `deleteRole`.
abbrev pub create_role_handler : {A : Type 0} → Error → Action A
create_role_handler (database (p2002 target)) = throw (conflict role_key_taken)
create_role_handler e = throw e

abbrev pub delete_role_handler : {A : Type 0} → Error → Action A
delete_role_handler (database p2003) = throw (conflict role_assigned)
delete_role_handler e = throw e

-- The rows of the raw query of src/rbac/last-active-owner.ts: the active memberships of tenant `t`
-- in an owner role of `t`.
abbrev pub is_owner_role : Key → Key → Role → Bool
is_owner_role t id r = r.tenant_id == t && (is_owner_key r.key && r.id == id)

abbrev pub is_active_owner : Key → Db → Membership → Bool
is_active_owner t db m =
    m.tenant_id == t && (is_active_member m.status && some_row (is_owner_role t m.role_id) db.roles)

-- `assertNotLastActiveOwner`, inside of a transaction. The lock that the query takes shows only in
-- the order of concurrent transactions.
unfoldable pub assert_not_last_active_owner : Key → Message → Action (Unit {0})
assert_not_last_active_owner tenant_id message c db =
    throw_if (leb (length (select (is_active_owner tenant_id db) db.memberships)) 1)
      (conflict message) c db

module _ ⦃prisma : Prisma⦄ where
  unfoldable pub assert_manage : Memo → Key → Action Memo
  assert_manage memo actor =
      assert_permissions memo actor
        record { mode = Mode.all; permissions = PermissionKey.role_manage ∷ [] }

  unfoldable pub assert_read : Memo → Key → Action Memo
  assert_read memo actor =
      assert_permissions memo actor
        record { mode = Mode.all; permissions = PermissionKey.role_read ∷ [] }

  unfoldable pub find_role : Key → Action (Option Role)
  find_role id = find_unique role_model (λ r. r.id == id)

  unfoldable pub permissions_of : Key → Action (List Permission)
  permissions_of role_id = do
    grants ← find_related (λ db. db.role_permissions) (λ r. r.role_id == role_id)
    find_related (λ db. db.permissions) (λ p. includes (map (λ g. g.permission_id) grants) p.id)

  -- The checks of the list, its resolution, and an error for an unknown identifier.
  unfoldable pub resolve_permissions : (Key → ℕ) → List Key → Action (List Permission)
  resolve_permissions text_length ids = do
    throw_if (ltb max_permission_ids (length ids)) (bad_request permission_list_too_large)
    throw_if (some_row (λ id. ltb max_permission_id_length (text_length id)) ids)
        (bad_request permission_id_too_long)
    throw_if (not (length (distinct_from [] ids) == length ids)) (bad_request duplicate_permission)
    found ← find_many permission_model (λ p. includes (distinct_from [] ids) p.id)
    throw_if (not (length found == length (distinct_from [] ids))) (bad_request unknown_permission)
    pure found

  -- For a list that is not empty.
  unfoldable pub assert_held : Memo → Key → List Permission → Action Memo
  assert_held memo actor permissions = do
    found ← get_permissions memo actor
    throw_if (not found.0.is_owner && some_row (unheld found.0.keys) permissions)
        (forbidden grant_exceeds_actor)
    pure found.1

  unfoldable pub assert_bounded_grants : Memo → Key → List Permission → Action Memo
  assert_bounded_grants memo actor [] = pure memo
  assert_bounded_grants memo actor (p ∷ ps) = assert_held memo actor (p ∷ ps)

  -- The transaction of `createRole`.
  unfoldable pub create_role_in : CreateRoleDto → List Permission → Action Role
  create_role_in dto permissions = do
    tenant_id ← require_tenant_id
    id ← fresh_id
    now ← current_time
    created ← create role_model record {
      id = id;
      tenant_id = tenant_id;
      key = dto.key;
      name = dto.name;
      description = dto.description;
      is_system = false;
      created_at = now;
      updated_at = now;
    }
    create_many role_permission_model (map (to_grant created.id) permissions)
    pure created

  unfoldable pub create_role : (Key → ℕ) → Memo → Key → CreateRoleDto → Action Role
  create_role text_length memo actor dto = do
    known ← assert_manage memo actor
    assert_not_reserved_key dto.key
    throw_if (length dto.permission_ids == 0) (bad_request create_requires_permission)
    permissions ← resolve_permissions text_length dto.permission_ids
    assert_bounded_grants known actor permissions
    catch (transaction (create_role_in dto permissions)) create_role_handler

  -- The roles with the numbers of their grants.
  unfoldable pub count_grants : List Role → Action (List RoleListEntry)
  count_grants [] = pure []
  count_grants (r ∷ rs) = do
    grants ← find_related (λ db. db.role_permissions) (λ g. g.role_id == r.id)
    others ← count_grants rs
    pure (record { role = r; permission_count = length grants } ∷ others)

  unfoldable pub list_roles : Memo → Key → Action (List RoleListEntry)
  list_roles memo actor = do
    assert_read memo actor
    roles ← find_many_by role_model (λ r. r.created_at) (λ r. true)
    count_grants roles

  unfoldable pub get_role : Memo → Key → Key → Action RoleWithPermissions
  get_role memo actor role_id = do
    assert_read memo actor
    found ← find_role role_id
    role ← or_throw found (not_found role_not_found)
    permissions ← permissions_of role.id
    pure record { role = role; permissions = permissions }

  -- The role, if it may be changed.
  unfoldable pub mutable_role : Key → Action Role
  mutable_role role_id = do
    found ← find_role role_id
    role ← or_throw found (not_found role_not_found)
    assert_mutable role.is_system
    pure role

  unfoldable pub update_role : Memo → Key → Key → UpdateRoleDto → Action Role
  update_role memo actor role_id dto = do
    assert_manage memo actor
    role ← mutable_role role_id
    update role_model (λ r. r.id == role_id)
        (λ r. record r {
          name = or_else dto.name role.name;
          description = or_kept dto.description role.description;
        })

  -- The grants go with the role, by ON DELETE CASCADE.
  unfoldable pub delete_role : Memo → Key → Key → Action Key
  delete_role memo actor role_id = do
    assert_manage memo actor
    mutable_role role_id
    members ← count_rows membership_model (λ m. m.role_id == role_id)
    throw_if (not (members == 0)) (conflict role_assigned)
    catch (delete role_model (λ r. r.id == role_id)) delete_role_handler
    cascade role_permission_model (λ g. g.role_id == role_id)
    pure role_id

  -- The transaction of `assignPermissions`; an empty list is not inserted.
  unfoldable pub replace_grants : Key → List Permission → Action (Unit {0})
  replace_grants role_id [] = do
    delete_many role_permission_model (λ g. g.role_id == role_id)
    pure tt
  replace_grants role_id (p ∷ ps) = do
    delete_many role_permission_model (λ g. g.role_id == role_id)
    create_many role_permission_model (map (to_grant role_id) (p ∷ ps))
    pure tt

  unfoldable pub assign_permissions : (Key → ℕ) → Memo → Key → Key → List Key → Action (Key × ℕ)
  assign_permissions text_length memo actor role_id permission_ids = do
    known ← assert_manage memo actor
    mutable_role role_id
    permissions ← resolve_permissions text_length permission_ids
    assert_bounded_grants known actor permissions
    transaction (replace_grants role_id permissions)
    pure (role_id, length permissions)

  -- The role of a membership.
  unfoldable pub role_of : Membership → Action Role
  role_of m = do
    roles ← find_related (λ db. db.roles) (λ r. r.id == m.role_id)
    or_throw (first (λ r. true) roles) type_error

  unfoldable pub set_role : Key → Key → Action Membership
  set_role membership_id role_id =
      update membership_model (λ m. m.id == membership_id) (λ m. record m { role_id = role_id })

  unfoldable pub demote_owner : Key → Key → Action Membership
  demote_owner membership_id new_role_id = do
    tenant_id ← require_tenant_id
    transaction
        (do assert_not_last_active_owner tenant_id last_owner; set_role membership_id new_role_id)

  -- Only the owner may make an owner.
  unfoldable pub assert_may_assign : Memo → Key → Role → Action (Unit {0})
  assert_may_assign memo actor role =
      if is_owner_key role.key
      then (do
        found ← get_permissions memo actor
        throw_if (not found.0.is_owner) (forbidden owner_assignment))
      else pure tt

  -- The last step of `assignRoleToMembership`: a demotion, or a plain update.
  unfoldable pub give_role : Key → Role → Role → Action Membership
  give_role membership_id current role =
      if is_owner_key current.key && not (is_owner_key role.key)
      then demote_owner membership_id role.id
      else set_role membership_id role.id

  unfoldable pub assign_role_to_membership : Memo → Key → Key → Key → Action Membership
  assign_role_to_membership memo actor membership_id role_id = do
    known ← assert_manage memo actor
    found ← find_role role_id
    role ← or_throw found (not_found role_not_found)
    found_membership ← find_unique membership_model (λ m. m.id == membership_id)
    membership ← or_throw found_membership (not_found membership_not_found)
    current ← role_of membership
    throw_if (membership.user_id == actor) (forbidden self_role_change)
    assert_may_assign known actor role
    give_role membership_id current role
