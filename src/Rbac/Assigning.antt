-- ===== src/Rbac/Assigning.antt =====
-- That `assignRoleToMembership` of src/rbac/role.service.ts leaves a tenant an active owner.
use business_platform.Platform.Leaves.{Leaves-bind, Leaves-then}
use business_platform.Order.Frames.{everything}
use business_platform.Platform.Frames.{
  Keeps, keeps, Keeps-or_throw, Keeps-find_unique, Keeps-throw_if,
}
use business_platform.Platform.Facts.{owned, find_unique_eq}
use business_platform.Rbac.Permission.{
  Memo, assert_permissions, get_permissions, load_snapshot, role_snapshot, granted_keys,
}
use business_platform.Prelude.{
  Bool-cases, In, Option, arith, false, first, first_cases, inl, inr, not, refl, subst, true, ◌&&◌,
  ◌==◌, ◌≡◌, ◌≤◌,
}
use business_platform.Prisma.{Prisma}
use business_platform.Schema.{Db, Key, Instant, Membership, Role}
use business_platform.Platform.{
  ok, within, last_owner, Error, role_model, membership_model, forbidden, self_role_change,
  or_throw, not_found, role_not_found, membership_not_found, find_unique,
}
use business_platform.Platform.Unique.{same_row, some_row-true}
use business_platform.Rbac.Role.{
  is_owner_key, is_owner_role, is_active_owner, role_of, set_role, demote_owner, give_role,
  assert_manage, assert_may_assign, find_role, assign_role_to_membership,
}
use business_platform.Rbac.Owners.{
  active_owners, HasKeyedMembers, HasOwner, role_of-owner, update-HasOwner, guarded-HasOwner,
  LeavesOwner, or_throw-some,
}

module _ ⦃prisma : Prisma⦄ (t : Key) (now : Instant) where
  give_role-demotes :
      (id : Key) (current role : Role) (db : Db)
      → HasKeyedMembers db
      → 1 ≤ active_owners t db
      → is_owner_key current.key && not (is_owner_key role.key) ≡ true
      → HasOwner t (give_role id current role (within t now) db)
  unfolding give_role demote_owner set_role
  give_role-demotes id current role db keyed some_owner h = rw h (
      guarded-HasOwner t now id (λ m. record m { role_id = role.id }) last_owner db keyed.0
        some_owner)

  give_role-keeps :
      (id : Key) (m : Membership) (current role : Role) (db db' : Db)
      → HasKeyedMembers db
      → 1 ≤ active_owners t db
      → In m db.memberships
      → m.id ≡ id
      → role_of m (within t now) db ≡ (ok current, db')
      → In role db.roles
      → role.tenant_id ≡ t
      → is_owner_key current.key && not (is_owner_key role.key) ≡ false
      → HasOwner t (give_role id current role (within t now) db)
  unfolding give_role set_role
  give_role-keeps id m current role db db' keyed some_owner i same found j own h = rw h (
      update-HasOwner t now id (λ m. record m { role_id = role.id }) db
        (λ x k fits owner.
          let one =
            same_row (λ (y : Membership). y.id) db.memberships x m keyed.0 k i (ground arith) in
          let is_owner : is_active_owner t db m ≡ true =
            subst (λ y. is_active_owner t db y ≡ true) one owner in
          let was = role_of-owner t now db m current db' keyed.1 is_owner found in
          let stays = some_row-true (is_owner_role t role.id) db.roles role j (ground arith) in
          ground arith)
        some_owner)

  find_role-eq :
      (id : Key) (db : Db)
      → find_role id (within t now) db
        ≡ (ok (first (owned role_model t λ r. r.id == id) db.roles), db)
  unfolding find_role
  find_role-eq id db = find_unique_eq role_model refl t now db λ (r : Role). r.id == id

  role_of-reads : (m : Membership) → Keeps (within t now) everything (role_of m)
  unfolding role_of
  role_of-reads m = search keeps

  module _ (memo : Memo) (actor : Key) where
    assert_manage-reads : Keeps (within t now) everything (assert_manage memo actor)
    unfolding assert_manage assert_permissions get_permissions load_snapshot role_snapshot
        granted_keys
    assert_manage-reads = search keeps depth 25

    assert_may_assign-reads :
        (role : Role) → Keeps (within t now) everything (assert_may_assign memo actor role)
    unfolding assert_may_assign get_permissions load_snapshot role_snapshot granted_keys
    assert_may_assign-reads role = search keeps depth 25

  find_role-reads : (id : Key) → Keeps (within t now) everything (find_role id)
  unfolding find_role
  find_role-reads id = search keeps

  -- What the lookups found.
  found_role :
      (id : Key) (found : Option Role) (role : Role) (x : Error) (db db' : Db)
      → find_role id (within t now) db ≡ (ok found, db)
      → or_throw found x (within t now) db ≡ (ok role, db')
      → In role db.roles × (role.tenant_id ≡ t)
  found_role id found role x db db' e h =
      let some_found = or_throw-some found x (within t now) db db' role h in
      elim (first_cases (owned role_model t λ (r : Role). r.id == id) db.roles) [
        | inl (none_fits, z) ↦ ground (arith, find_role-eq id db)
        | inr (r, fits, i, own) ↦
            let eq : r ≡ role = ground (arith, find_role-eq id db) in
            (subst (λ y. In y db.roles) eq i, subst (λ y. y.tenant_id ≡ t) eq (ground arith))
      ]

  found_member :
      (id : Key) (found : Option Membership) (m : Membership) (x : Error) (db db' : Db)
      → find_unique membership_model (λ y. y.id == id) (within t now) db ≡ (ok found, db)
      → or_throw found x (within t now) db ≡ (ok m, db')
      → In m db.memberships × (m.id ≡ id)
  found_member id found m x db db' e h =
      let some_found = or_throw-some found x (within t now) db db' m h in
      let law = find_unique_eq membership_model refl t now db λ (y : Membership). y.id == id in
      elim (first_cases (owned membership_model t λ (y : Membership). y.id == id) db.memberships) [
        | inl (none_fits, z) ↦ ground arith
        | inr (r, fits, i, own) ↦
            let eq : r ≡ m = ground arith in
            (subst (λ y. In y db.memberships) eq i, subst (λ y. y.id ≡ id) eq (ground arith))
      ]

  give_role-LeavesOwner :
      (id : Key) (m : Membership) (current role : Role) (db db' : Db)
      → HasKeyedMembers db
      → 1 ≤ active_owners t db
      → In m db.memberships × (m.id ≡ id)
      → In role db.roles × (role.tenant_id ≡ t)
      → role_of m (within t now) db ≡ (ok current, db')
      → LeavesOwner t now db (give_role id current role)
  give_role-LeavesOwner id m current role db db' keyed some_owner (i, same) (j, own) found =
      record {
        apply = elim (Bool-cases (is_owner_key current.key && not (is_owner_key role.key))) [
          | inl demotes ↦ give_role-demotes id current role db keyed some_owner demotes
          | inr keeps_it ↦
              give_role-keeps id m current role db db' keyed some_owner i same found j own keeps_it
        ];
      }

  leaves :
      (memo : Memo) (actor id role_id : Key) (db : Db)
      → HasKeyedMembers db
      → 1 ≤ active_owners t db
      → LeavesOwner t now db (assign_role_to_membership memo actor id role_id)
  unfolding assign_role_to_membership
  leaves memo actor id role_id db keyed some_owner =
      Leaves-bind some_owner (assert_manage-reads memo actor) λ known managed.
        Leaves-bind some_owner (find_role-reads role_id) λ found e.
          Leaves-bind some_owner (Keeps-or_throw found (not_found role_not_found)) λ role is_role.
            Leaves-bind some_owner (Keeps-find_unique membership_model _) λ found_one e'.
              Leaves-bind some_owner (Keeps-or_throw found_one (not_found membership_not_found))
                λ m is_member. Leaves-bind some_owner (role_of-reads m) λ current is_current.
                  Leaves-then some_owner
                    (Keeps-throw_if (m.user_id == actor) (forbidden self_role_change))
                    (Leaves-then some_owner (assert_may_assign-reads known actor role) (
                      give_role-LeavesOwner id m current role db db keyed some_owner
                        (found_member id found_one m (not_found membership_not_found) db db e'
                          is_member)
                        (found_role role_id found role (not_found role_not_found) db db e is_role)
                        is_current))

  -- If identifiers are unique and the tenant has an active owner, it has one after a role was
  -- assigned to a membership, whether the assignment succeeds or fails.
  pub assign_role_to_membership-HasOwner :
      (memo : Memo) (actor id role_id : Key) (db : Db)
      → HasKeyedMembers db
      → 1 ≤ active_owners t db
      → HasOwner t (assign_role_to_membership memo actor id role_id (within t now) db)
  assign_role_to_membership-HasOwner memo actor id role_id db keyed some_owner =
      (leaves memo actor id role_id db keyed some_owner).apply
