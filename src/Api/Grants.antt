-- ===== src/Api/Grants.antt =====
-- The requests to src/rbac/role.service.ts that write grants, which have no tenant column: they keep
-- every row of another tenant in every table that has one.
use business_platform.Prelude.{List, [], ap, arith, refl, ℕ, ◌∷◌, Bool}
use business_platform.Prisma.{Prisma, p2002, p2003}
use business_platform.Schema.{Db, Key, Instant, Role, Permission, RolePermission, Membership}
use business_platform.Platform.{
  Action, Error, database, within, create, create_many, delete, delete_many, cascade, count_rows,
  fresh_id, role_model, role_permission_model, membership_model,
}
use business_platform.Platform.Frames.{Keeps, Keeps-throw, keeps}
use business_platform.Platform.Isolation.{
  foreign, role-IsLocal, Isolated-create, Isolated-delete, Isolated-fresh_id,
}
use business_platform.Rbac.Permission.{
  Memo, PermissionRequirement, get_permissions, assert_permissions,
}
use business_platform.Rbac.Role
use business_platform.Rbac.Role.{
  CreateRoleDto, create_role_handler, delete_role_handler, resolve_permissions, assert_held,
  assert_bounded_grants, create_role_in, create_role, mutable_role, delete_role, replace_grants,
  assign_permissions,
}
use business_platform.Api.Isolation.Access.{
  get_permissions-isolated, assert_permissions-isolated, mutable_role-isolated,
}

-- The rows of other tenants, in the tables that have a tenant column.
abbrev pub tenant_rows : Key → Db → Db
tenant_rows t db = record (foreign t db) { role_permissions = [] }

module _ ⦃prisma : Prisma⦄ (t : Key) (now : Instant) where
  pub Keeps-tenant_rows :
      {A : Type 0} {m : Action A}
      → Keeps (within t now) (foreign t) m
      → Keeps (within t now) (tenant_rows t) m
  Keeps-tenant_rows kept = record {
    apply = λ db. ap (λ (d : Db). record d { role_permissions = [] }) (kept.apply db);
  }

  new_role-kept : (r : Role) → Keeps (within t now) (tenant_rows t) (create role_model r)
  new_role-kept r = Keeps-tenant_rows (Isolated-create role-IsLocal r)

  dropped_role-kept : (w : Role → Bool) → Keeps (within t now) (tenant_rows t) (delete role_model w)
  dropped_role-kept w = Keeps-tenant_rows (Isolated-delete role-IsLocal w)

  fresh_id-kept : Keeps (within t now) (tenant_rows t) fresh_id
  fresh_id-kept = Keeps-tenant_rows Isolated-fresh_id

  new_grants-kept :
      (gs : List RolePermission)
      → Keeps (within t now) (tenant_rows t) (create_many role_permission_model gs)
  unfolding create_many
  new_grants-kept gs = record { apply = λ db. ground arith }

  dropped_grants-kept :
      (w : RolePermission → Bool)
      → Keeps (within t now) (tenant_rows t) (delete_many role_permission_model w)
  unfolding delete_many
  dropped_grants-kept w = record { apply = λ db. ground arith }

  cascaded_grants-kept :
      (w : RolePermission → Bool)
      → Keeps (within t now) (tenant_rows t) (cascade role_permission_model w)
  unfolding cascade
  cascaded_grants-kept w = record { apply = λ db. refl }

  members-kept :
      (w : Membership → Bool) → Keeps (within t now) (tenant_rows t) (count_rows membership_model w)
  unfolding count_rows
  members-kept w = record { apply = λ db. ground arith }

  assert_permissions-kept :
      (memo : Memo) (user : Key) (requirement : PermissionRequirement)
      → Keeps (within t now) (tenant_rows t) (assert_permissions memo user requirement)
  assert_permissions-kept memo user requirement =
      Keeps-tenant_rows (assert_permissions-isolated t now memo user requirement)

  mutable_role-kept : (id : Key) → Keeps (within t now) (tenant_rows t) (mutable_role id)
  mutable_role-kept id = Keeps-tenant_rows (mutable_role-isolated t now id)

  resolve_permissions-kept :
      (text_length : Key → ℕ) (ids : List Key)
      → Keeps (within t now) (tenant_rows t) (resolve_permissions text_length ids)
  unfolding resolve_permissions
  resolve_permissions-kept text_length ids = search keeps depth 25

  get_permissions-kept :
      (memo : Memo) (user : Key) → Keeps (within t now) (tenant_rows t) (get_permissions memo user)
  get_permissions-kept memo user = Keeps-tenant_rows (get_permissions-isolated t now memo user)

  bounded-kept :
      (memo : Memo) (actor : Key) (ps : List Permission)
      → Keeps (within t now) (tenant_rows t) (assert_bounded_grants memo actor ps)
  unfolding assert_bounded_grants assert_held
  bounded-kept memo actor [] = search keeps
  bounded-kept memo actor (p ∷ ps) = search (keeps, get_permissions-kept)

  create_role_handler-kept :
      {A : Type 0} (e : Error)
      → Keeps (within t now) (tenant_rows t) (create_role_handler {A = A} e)
  create_role_handler-kept (database (p2002 target)) = Keeps-throw _
  create_role_handler-kept e = Keeps-throw e

  delete_role_handler-kept :
      {A : Type 0} (e : Error)
      → Keeps (within t now) (tenant_rows t) (delete_role_handler {A = A} e)
  delete_role_handler-kept (database p2003) = Keeps-throw _
  delete_role_handler-kept e = Keeps-throw e

  pub create_role-kept :
      (text_length : Key → ℕ) (memo : Memo) (actor : Key) (dto : CreateRoleDto)
      → Keeps (within t now) (tenant_rows t) (create_role text_length memo actor dto)
  unfolding create_role create_role_in Role.assert_manage
  create_role-kept text_length memo actor dto =
      search
        (
          keeps, assert_permissions-kept, resolve_permissions-kept, bounded-kept, fresh_id-kept,
          new_role-kept, new_grants-kept, create_role_handler-kept,
        )
        depth 25

  pub delete_role-kept :
      (memo : Memo) (actor id : Key)
      → Keeps (within t now) (tenant_rows t) (delete_role memo actor id)
  unfolding delete_role Role.assert_manage
  delete_role-kept memo actor id =
      search
        (
          keeps, assert_permissions-kept, mutable_role-kept, members-kept, dropped_role-kept,
          cascaded_grants-kept, delete_role_handler-kept,
        )
        depth 25

  replace_grants-kept :
      (id : Key) (ps : List Permission)
      → Keeps (within t now) (tenant_rows t) (replace_grants id ps)
  unfolding replace_grants
  replace_grants-kept id [] = search (keeps, dropped_grants-kept)
  replace_grants-kept id (p ∷ ps) = search (keeps, dropped_grants-kept, new_grants-kept)

  pub assign_permissions-kept :
      (text_length : Key → ℕ) (memo : Memo) (actor id : Key) (ids : List Key)
      → Keeps (within t now) (tenant_rows t) (assign_permissions text_length memo actor id ids)
  unfolding assign_permissions Role.assert_manage
  assign_permissions-kept text_length memo actor id ids =
      search
        (
          keeps, assert_permissions-kept, mutable_role-kept, resolve_permissions-kept, bounded-kept,
          replace_grants-kept,
        )
        depth 25
