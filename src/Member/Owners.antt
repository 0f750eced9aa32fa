-- ===== src/Member/Owners.antt =====
-- That `updateMemberStatus` of src/member/member.service.ts leaves a tenant an active owner.
use business_platform.Platform.Leaves.{Leaves-bind, Leaves-then, Leaves-before}
use business_platform.Prelude.{
  ◌≤◌, first, true, false, ◌==◌, ◌≡◌, refl, arith, sym, subst, inl, inr, Bool-cases, Option-cases,
  In, first_cases,
}
use business_platform.Prisma.{Prisma}
use business_platform.Schema.{Db, Key, Instant, Membership, Role, User}
use business_platform.Platform.{
  ok, within, membership_model, find_related, last_active_owner, forbidden, self_status_change,
}
use business_platform.Platform.Facts.{owned, find_unique_eq}
use business_platform.Platform.Frames.{Keeps, keeps, Keeps-throw_if, Keeps-pure}
use business_platform.Platform.Unique.{same_row}
use business_platform.Order.Frames.{everything}
use business_platform.Rbac.Permission.{
  Memo, assert_permissions, get_permissions, load_snapshot, role_snapshot, granted_keys,
}
use business_platform.Rbac.Role.{is_active_owner, role_of}
use business_platform.Rbac.Owners.{
  active_owners, HasKeyedMembers, HasOwner, role_of-owner, update-HasOwner, guarded-HasOwner,
  LeavesOwner,
}
use business_platform.Member.{
  MemberWithRelations, NewStatus, to_status, removes_owner, assert_manage, with_relations,
  find_membership, set_status, suspend_owner, update_with_owner_lock, change_status,
  update_member_status, to_summary,
}

module _ ⦃prisma : Prisma⦄ (t : Key) (now : Instant) where
  with_relations-reads : (m : Membership) → Keeps (within t now) everything (with_relations m)
  unfolding with_relations role_of
  with_relations-reads m = search keeps depth 12

  find_membership-reads : (id : Key) → Keeps (within t now) everything (find_membership id)
  unfolding find_membership
  find_membership-reads id = search (keeps, with_relations-reads)

  assert_manage-reads :
      (memo : Memo) (actor : Key) → Keeps (within t now) everything (assert_manage memo actor)
  unfolding assert_manage assert_permissions get_permissions load_snapshot role_snapshot
      granted_keys
  assert_manage-reads memo actor = search keeps depth 25

  with_relations-found :
      (m : Membership) (l : MemberWithRelations) (db db' : Db)
      → with_relations m (within t now) db ≡ (ok l, db')
      → (l.membership ≡ m) × (role_of m (within t now) db ≡ (ok l.role, db))
  unfolding with_relations role_of find_related
  with_relations-found m l db db' h =
      let users = prisma.find_many User (λ u. u.id == m.user_id) db.users in
      let roles = prisma.find_many Role (λ r. r.id == m.role_id) db.roles in
      elim (Option-cases (first (λ (u : User). true) users)) [
        | inl e ↦ ground arith
        | inr (u, e) ↦ elim (Option-cases (first (λ (r : Role). true) roles)) [
          | inl e' ↦ ground arith
          | inr (r, e') ↦ (ground arith, ground arith)
        ]
      ]

  -- The member that a lookup found.
  abbrev Found : Key → Db → MemberWithRelations → Type 0
  Found id db l =
      In l.membership db.memberships
      × (l.membership.id ≡ id)
      × (role_of l.membership (within t now) db ≡ (ok l.role, db))

  find_membership-Found :
      (id : Key) (l : MemberWithRelations) (db db' : Db)
      → find_membership id (within t now) db ≡ (ok l, db')
      → Found id db l
  unfolding find_membership
  find_membership-Found id l db db' h =
      let law = find_unique_eq membership_model refl t now db λ (y : Membership). y.id == id in
      elim (first_cases (owned membership_model t λ (y : Membership). y.id == id) db.memberships) [
        | inl (none_fits, z) ↦ ground arith
        | inr (m, fits, i, own) ↦
            let (eq, role) = with_relations-found m l db db' (ground arith) in
            (
              subst (λ y. In y db.memberships) (sym eq) i,
              subst (λ y. y.id ≡ id) (sym eq) (ground arith),
              subst (λ y. role_of y (within t now) db ≡ (ok l.role, db)) (sym eq) role,
            )
      ]

  suspend_owner-LeavesOwner :
      (id : Key) (status : NewStatus) (db : Db)
      → HasKeyedMembers db
      → 1 ≤ active_owners t db
      → LeavesOwner t now db (suspend_owner id status)
  unfolding suspend_owner set_status
  suspend_owner-LeavesOwner id status db keyed some_owner = record {
    apply =
        guarded-HasOwner t now id (λ m. record m { status = to_status status }) last_active_owner db
          keyed.0 some_owner;
  }

  set_status-LeavesOwner :
      (id : Key) (status : NewStatus) (l : MemberWithRelations) (db : Db)
      → HasKeyedMembers db
      → 1 ≤ active_owners t db
      → Found id db l
      → removes_owner l status ≡ false
      → LeavesOwner t now db (set_status id status)
  unfolding set_status
  set_status-LeavesOwner id status l db keyed some_owner (i, same, found) keeps_it = record {
    apply =
        update-HasOwner t now id (λ m. record m { status = to_status status }) db
          (λ x k fits owner.
            let one =
              same_row (λ (y : Membership). y.id) db.memberships x l.membership keyed.0 k i
                (ground arith) in
            let is_owner : is_active_owner t db l.membership ≡ true =
              subst (λ y. is_active_owner t db y ≡ true) one owner in
            let was = role_of-owner t now db l.membership l.role db keyed.1 is_owner found in
            ground arith)
          some_owner;
  }

  change_status-LeavesOwner :
      (id : Key) (status : NewStatus) (l : MemberWithRelations) (db : Db)
      → HasKeyedMembers db
      → 1 ≤ active_owners t db
      → Found id db l
      → LeavesOwner t now db (change_status l id status)
  unfolding change_status update_with_owner_lock
  change_status-LeavesOwner id status l db keyed some_owner found =
      elim (Bool-cases (removes_owner l status)) [
        | inl removes ↦ rw removes (
            Leaves-before (suspend_owner-LeavesOwner id status db keyed some_owner)
              (λ a. find_membership-reads id))
        | inr other ↦ rw other (
            Leaves-before (set_status-LeavesOwner id status l db keyed some_owner found other)
              with_relations-reads)
      ]

  leaves :
      (memo : Memo) (actor id : Key) (status : NewStatus) (db : Db)
      → HasKeyedMembers db
      → 1 ≤ active_owners t db
      → LeavesOwner t now db (update_member_status memo actor id status)
  unfolding update_member_status
  leaves memo actor id status db keyed some_owner =
      Leaves-then some_owner (assert_manage-reads memo actor) (
        Leaves-bind some_owner (find_membership-reads id) λ l e.
          Leaves-then some_owner
            (Keeps-throw_if (l.membership.user_id == actor) (forbidden self_status_change))
            (Leaves-before
              (change_status-LeavesOwner id status l db keyed some_owner
                (find_membership-Found id l db db e))
              (λ updated. Keeps-pure (to_summary updated))))

  -- If identifiers are unique and the tenant has an active owner, it has one after the status of a
  -- member was changed, whether the change succeeds or fails.
  pub update_member_status-HasOwner :
      (memo : Memo) (actor id : Key) (status : NewStatus) (db : Db)
      → HasKeyedMembers db
      → 1 ≤ active_owners t db
      → HasOwner t (update_member_status memo actor id status (within t now) db)
  update_member_status-HasOwner memo actor id status db keyed some_owner =
      (leaves memo actor id status db keyed some_owner).apply
