-- ===== src/Rbac/Granting.antt =====
-- That `createRole` and `assignPermissions` of src/rbac/role.service.ts grant nothing that the user
-- who calls them does not hold.
use business_platform.Rbac.Grants.{is_granted, membership_in}
use business_platform.Order.Frames.{everything}
use business_platform.Platform.Leaves.{Leaves, Leaves-bind, Leaves-catch, Leaves-transaction}
use business_platform.Platform.Frames.{Keeps, Keeps-throw_if, keeps, Keeps-throw, Keeps-pure}
use business_platform.Platform.{
  Error, within, database, bad_request, reserved_role_key, create_requires_permission, conflict,
  role_key_taken, Result,
}
use business_platform.Prelude.{
  Bool, Bool-cases, List, [], arith, drop_where, false, inl, inr, length, map, none, some, true, ℕ,
  ◌&&◌, ◌==◌, ◌∷◌, ◌≡◌, ◌⊎◌, ap,
}
use business_platform.Prisma.{Prisma, p2002}
use business_platform.Schema.{Text, Db, Key, Instant, Permission}
use business_platform.Platform.Unique.{IsKeyed}
use business_platform.Rbac.Role.{
  CreateRoleDto, assert_held, create_role_in, replace_grants, assert_manage, assert_bounded_grants,
  resolve_permissions, to_grant, is_reserved, create_role, mutable_role, find_role,
  create_role_handler, assign_permissions,
}
use business_platform.Rbac.Permission.{
  granted_keys, role_snapshot, load_snapshot, get_permissions, Memo, assert_permissions,
  is_active_member,
}
use business_platform.Rbac.Holding.{Recalls, is_grantable}
use business_platform.Rbac.Bounded.{Covered, granting, some_row-added, some_row-dropped}
use business_platform.Rbac.Steps.{
  resolve_permissions-Resolved, assert_bounded_grants-Held, assert_manage-Recalls,
  create_role_in-grants, replace_grants-grants,
}

module _ ⦃prisma : Prisma⦄ (t : Key) (now : Instant) (user : Key) (db : Db) where
  pub assert_manage-reads :
      (memo : Memo) → Keeps (within t now) everything (assert_manage memo user)
  unfolding assert_manage assert_permissions get_permissions load_snapshot role_snapshot
      granted_keys
  assert_manage-reads memo = search keeps depth 25

  pub resolve_permissions-reads :
      (text_length : Key → ℕ) (ids : List Key)
      → Keeps (within t now) everything (resolve_permissions text_length ids)
  unfolding resolve_permissions
  resolve_permissions-reads text_length ids = search keeps depth 25

  pub assert_bounded_grants-reads :
      (memo : Memo) (ps : List Permission)
      → Keeps (within t now) everything (assert_bounded_grants memo user ps)
  unfolding assert_bounded_grants assert_held get_permissions load_snapshot role_snapshot
      granted_keys
  assert_bounded_grants-reads memo [] = search keeps
  assert_bounded_grants-reads memo (p ∷ ps) = search keeps depth 25

  pub mutable_role-reads : (id : Key) → Keeps (within t now) everything (mutable_role id)
  unfolding mutable_role find_role
  mutable_role-reads id = search keeps depth 12

  create_role_handler-reads :
      {A : Type 0} (e : Error) → Keeps (within t now) everything (create_role_handler {A = A} e)
  create_role_handler-reads (database (p2002 target)) = Keeps-throw (conflict role_key_taken)
  create_role_handler-reads e = Keeps-throw e

  module _ (text_length : Key → ℕ) (memo : Memo) (recalls : Recalls t now db user memo)
      (keyed : IsKeyed (λ (p : Permission). p.id) db.permissions) where
    create_role-Leaves :
        (dto : CreateRoleDto)
        → Leaves (within t now) (Covered t user db) db (create_role text_length memo user dto)
    unfolding create_role
    create_role-Leaves dto =
        let as_before : Covered t user db db = λ role k h. inl h in
        Leaves-bind as_before (assert_manage-reads memo) λ known managed.
          Leaves-bind as_before
            (Keeps-throw_if (is_reserved dto.key) (bad_request reserved_role_key))
            λ u free.
              Leaves-bind as_before
                (Keeps-throw_if (length dto.permission_ids == 0)
                  (bad_request create_requires_permission))
                λ u' some_ids.
                  Leaves-bind as_before (resolve_permissions-reads text_length dto.permission_ids)
                    λ ps found.
                      Leaves-bind as_before (assert_bounded_grants-reads known ps) λ known' bounded.
                        Leaves-catch (create_role_in dto ps) as_before create_role_handler-reads
                          λ r db' made.
                            let (same, grants) =
                              create_role_in-grants t now user db dto ps r db' made in
                            granting t now user db r.id ps db' keyed
                              (resolve_permissions-Resolved t now user db text_length
                                dto.permission_ids ps db found)
                              (assert_bounded_grants-Held t now user db known ps known'
                                (assert_manage-Recalls t now user db memo known recalls managed)
                                bounded)
                              same
                              (some_row-added (map (to_grant r.id) ps) db.role_permissions
                                db'.role_permissions grants)

    assign_permissions-Leaves :
        (id : Key) (ids : List Key)
        → Leaves
            (within t now)
            (Covered t user db)
            db
            (assign_permissions text_length memo user id ids)
    unfolding assign_permissions
    assign_permissions-Leaves id ids =
        let as_before : Covered t user db db = λ role k h. inl h in
        Leaves-bind as_before (assert_manage-reads memo) λ known managed.
          Leaves-bind as_before (mutable_role-reads id) λ role found_role.
            Leaves-bind as_before (resolve_permissions-reads text_length ids) λ ps found.
              Leaves-bind as_before (assert_bounded_grants-reads known ps) λ known' bounded.
                Leaves-transaction (replace_grants id ps) as_before
                  (λ u. Keeps-pure (id, length ps))
                  λ u db' made.
                    let written = replace_grants-grants t now user db id ps u db' made in
                    let same = ap (λ (d : Db). d.permissions) written in
                    let grants = ap (λ (d : Db). d.role_permissions) written in
                    granting t now user db id ps db' keyed
                      (resolve_permissions-Resolved t now user db text_length ids ps db found)
                      (assert_bounded_grants-Held t now user db known ps known'
                        (assert_manage-Recalls t now user db memo known recalls managed) bounded)
                      same
                      (λ v h.
                        elim (some_row-added (map (to_grant id) ps)
                          (drop_where (λ g. g.role_id == id) db.role_permissions)
                          db'.role_permissions grants v h) [
                            | inl new ↦ inl new
                            | inr old ↦
                                inr (
                                  some_row-dropped v (λ g. g.role_id == id) db.role_permissions old)
                          ])

-- Whether the user is an active member of tenant `t` whose role holds the permission.
abbrev pub holds : Key → Key → Text → Db → Bool
holds t user k db = elim (membership_in t user db) [
  | none ↦ false
  | some m ↦ is_active_member m.status && is_grantable m.role_id k db
]

-- A role does not grant the permission after an action, or it did before, or the user holds it.
abbrev pub Bounded : {A : Type 0} → Key → Key → Key → Text → Db → Result A × Db → Type 0
Bounded t user role k db (r, db') =
    (is_granted role k db' ≡ false) ⊎ (is_granted role k db ≡ true) ⊎ (holds t user k db ≡ true)

bounded :
    {A : Type 0} (t user role : Key) (k : Text) (db : Db) (o : Result A × Db)
    → Covered t user db o.1
    → Bounded t user role k db o
bounded t user role k db o covered = elim (Bool-cases (is_granted role k o.1)) [
  | inl e ↦ elim (covered role k e) [
    | inl before ↦ inr (inl before)
    | inr (m, e', active, grants) ↦ inr (inr (ground arith))
  ]
  | inr e ↦ inl e
]

module _ ⦃prisma : Prisma⦄ (t : Key) (now : Instant) (text_length : Key → ℕ) (memo : Memo)
    (user : Key) (db : Db) (role : Key) (k : Text) where
  -- If the memo of the request agrees with the tables and identifiers of permissions are unique,
  -- then what a role of any tenant grants after a role was created, it granted before, or the user
  -- who created it is an active member whose own role holds it; whether the creation succeeds or
  -- fails.
  pub create_role-Bounded :
      Recalls t now db user memo
      → IsKeyed (λ (p : Permission). p.id) db.permissions
      → (dto : CreateRoleDto)
      → Bounded t user role k db (create_role text_length memo user dto (within t now) db)
  create_role-Bounded recalls keyed dto =
      bounded t user role k db (create_role text_length memo user dto (within t now) db)
        (create_role-Leaves t now user db text_length memo recalls keyed dto).apply

  -- If the memo of the request agrees with the tables and identifiers of permissions are unique,
  -- then what a role of any tenant grants after the permissions of a role were replaced, it granted
  -- before, or the user who replaced them is an active member whose own role holds it; whether the
  -- replacement succeeds or fails.
  pub assign_permissions-Bounded :
      Recalls t now db user memo
      → IsKeyed (λ (p : Permission). p.id) db.permissions
      → (id : Key) (ids : List Key)
      → Bounded t user role k db (assign_permissions text_length memo user id ids (within t now) db)
  assign_permissions-Bounded recalls keyed id ids =
      bounded t user role k db (assign_permissions text_length memo user id ids (within t now) db)
        (assign_permissions-Leaves t now user db text_length memo recalls keyed id ids).apply
