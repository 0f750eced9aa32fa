-- ===== src/Rbac/Steps.antt =====
-- What the steps of `createRole` and `assignPermissions` of src/rbac/role.service.ts find and write.
use business_platform.Platform.Facts.{create_cases}
use business_platform.Platform.{
  err, Outcome-cases, ok, within, find_many, create_many, delete_many, fresh_id, role_model,
  role_permission_model, database,
}
use business_platform.Pos.Validation.{distinct_from}
use business_platform.Prelude.{
  Bool, List, Option-cases, [], arith, drop_where, false, inl, inr, length, map, refl, subst, suc,
  ℕ, ◌++◌, ◌==◌, ◌∷◌, ◌≡◌, ◌⊎◌,
}
use business_platform.Prisma.{Prisma, DbError}
use business_platform.Schema.{Db, Key, Instant, Permission, RolePermission, Role}
use business_platform.Platform.Constraints.{role_permission_check}
use business_platform.Rbac.Role.{
  CreateRoleDto, assert_held, create_role_in, replace_grants, assert_manage, assert_bounded_grants,
  resolve_permissions, to_grant,
}
use business_platform.Rbac.Permission.{get_permissions, Memo, assert_permissions, includes}
use business_platform.Rbac.Holding.{get_permissions-Recalls, Recalls, load_snapshot-Holds}
use business_platform.Rbac.Bounded.{Resolved, Held, find_many-Resolved, some_row-held, map_same}

module _ ⦃prisma : Prisma⦄ (t : Key) (now : Instant) (user : Key) (db : Db) where
  pub resolve_permissions-Resolved :
      (text_length : Key → ℕ) (ids : List Key) (ps : List Permission) (db' : Db)
      → resolve_permissions text_length ids (within t now) db ≡ (ok ps, db')
      → Resolved t now user db ps
  unfolding resolve_permissions find_many
  resolve_permissions-Resolved text_length ids ps db' h =
      let w : Permission → Bool = λ p. includes (distinct_from [] ids) p.id in
      let same : prisma.find_many Permission w db.permissions ≡ ps = ground arith in
      subst (Resolved t now user db) same (find_many-Resolved t now user db w)

  pub assert_bounded_grants-Held :
      (memo : Memo) (ps : List Permission) (memo' : Memo)
      → Recalls t now db user memo
      → assert_bounded_grants memo user ps (within t now) db ≡ (ok memo', db)
      → Held t now user db ps
  unfolding assert_bounded_grants assert_held
  assert_bounded_grants-Held memo [] memo' recalls h k g = ground arith
  assert_bounded_grants-Held memo (p ∷ ps) memo' recalls h k g =
      elim (Outcome-cases (get_permissions memo user (within t now) db)) [
        | inl ((s, known), db', out) ↦
            let unchanged : db' ≡ db = ground arith in
            let got : get_permissions memo user (within t now) db ≡ (ok (s, known), db) =
              ground arith in
            let loaded = (get_permissions-Recalls t now db memo user s known recalls got).0 in
            load_snapshot-Holds t now db user s db k loaded
              (ground (arith, some_row-held s.keys k (p ∷ ps)))
        | inr (x, db', out) ↦ ground arith
      ]

  pub assert_manage-Recalls :
      (memo memo' : Memo)
      → Recalls t now db user memo
      → assert_manage memo user (within t now) db ≡ (ok memo', db)
      → Recalls t now db user memo'
  unfolding assert_manage assert_permissions
  assert_manage-Recalls memo memo' recalls h =
      elim (Outcome-cases (get_permissions memo user (within t now) db)) [
        | inl ((s, known), db', out) ↦
            let unchanged : db' ≡ db = ground arith in
            let got : get_permissions memo user (within t now) db ≡ (ok (s, known), db) =
              ground arith in
            let same : known ≡ memo' = ground arith in
            subst (Recalls t now db user) same
              (get_permissions-Recalls t now db memo user s known recalls got).1
        | inr (x, db', out) ↦ ground arith
      ]

  grant_many-cases :
      (rs : List RolePermission) (d : Db)
      → ((n : ℕ) × (create_many role_permission_model rs (within t now) d
            ≡ (ok n, record d { role_permissions = rs ++ d.role_permissions })))
        ⊎ ((e : DbError) × (create_many role_permission_model rs (within t now) d
              ≡ (err (database e), d)))
  unfolding create_many
  grant_many-cases rs d =
      let law = prisma.create_many_lem RolePermission role_permission_check rs d.role_permissions in
      let kept = map_same rs in
      elim (Option-cases (role_permission_check (rs ++ d.role_permissions))) [
        | inl e ↦ inl (length rs, rw (kept, law) (ground arith))
        | inr (x, e) ↦ inr (x, rw (kept, law) (ground arith))
      ]

  abbrev new_role : CreateRoleDto → Role
  new_role dto = record {
    id = prisma.new_id db.generated;
    tenant_id = t;
    key = dto.key;
    name = dto.name;
    description = dto.description;
    is_system = false;
    created_at = now;
    updated_at = now;
  }

  pub create_role_in-grants :
      (dto : CreateRoleDto) (ps : List Permission) (r : Role) (db' : Db)
      → create_role_in dto ps (within t now) db ≡ (ok r, db')
      → (db'.permissions ≡ db.permissions)
        × (db'.role_permissions ≡ map (to_grant r.id) ps ++ db.role_permissions)
  unfolding create_role_in fresh_id
  create_role_in-grants dto ps r db' h =
      elim (create_cases role_model refl t now (record db { generated = suc db.generated })
        (new_role dto)) [
          | inl (e, c) ↦
              elim (grant_many-cases (map (to_grant r.id) ps) (record db {
                generated = suc db.generated;
                roles = role_model.with_tenant t (new_role dto) ∷ db.roles;
              })) [ inl (n, e') ↦ (ground arith, ground arith) | inr (x, e') ↦ ground arith ]
          | inr (x, e, c) ↦ ground arith
        ]

  pub replace_grants-grants :
      (role : Key) (ps : List Permission) (u : Unit {0}) (db' : Db)
      → replace_grants role ps (within t now) db ≡ (ok u, db')
      → db' ≡ record db {
        role_permissions =
            map (to_grant role) ps ++ drop_where (λ g. g.role_id == role) db.role_permissions;
      }
  unfolding replace_grants delete_many
  replace_grants-grants role [] u db' h =
      ground
        (arith, prisma.delete_many_lem RolePermission (λ g. g.role_id == role) db.role_permissions)
  replace_grants-grants role (p ∷ ps) u db' h =
      let kept =
        prisma.delete_many_lem RolePermission (λ g. g.role_id == role) db.role_permissions in
      let d = record db {
        role_permissions = drop_where (λ g. g.role_id == role) db.role_permissions;
      } in
      elim (grant_many-cases (map (to_grant role) (p ∷ ps)) d) [
        | inl (n, e) ↦ ground arith
        | inr (x, e) ↦ ground arith
      ]
