-- ===== src/Api/Isolation/Access.antt =====
-- The isolation of the requests to src/rbac/role.service.ts and src/member/member.service.ts that
-- write no grant.
use business_platform.Prelude.{List, [], arith, ◌==◌, ◌∷◌}
use business_platform.Prisma.{Prisma}
use business_platform.Schema.{Key, Instant, Role, Membership}
use business_platform.Platform.{Message, within}
use business_platform.Platform.Frames.{Keeps, Keeps-bind, Keeps-pure, Keeps-find_related}
use business_platform.Platform.Isolation.{foreign, isolation}
use business_platform.Rbac.Permission.{
  Memo, PermissionRequirement, granted_keys, role_snapshot, load_snapshot, get_permissions,
  assert_permissions,
}
use business_platform.Rbac.Role
use business_platform.Rbac.Role.{
  UpdateRoleDto, find_role, permissions_of, count_grants, list_roles, get_role, mutable_role,
  update_role, assert_not_last_active_owner, role_of, set_role, demote_owner, assert_may_assign,
  give_role, assign_role_to_membership,
}
use business_platform.Member
use business_platform.Member.{
  MemberWithRelations, NewStatus, with_relations, summarize, list_members, find_member_by_user_id,
  get_member, find_membership, set_status, suspend_owner, update_with_owner_lock, change_status,
  update_member_status,
}

module _ ⦃prisma : Prisma⦄ (t : Key) (now : Instant) where
  pub get_permissions-isolated :
      (memo : Memo) (user : Key) → Keeps (within t now) (foreign t) (get_permissions memo user)
  unfolding get_permissions load_snapshot role_snapshot granted_keys
  get_permissions-isolated memo user = search isolation depth 25

  pub assert_permissions-isolated :
      (memo : Memo) (user : Key) (requirement : PermissionRequirement)
      → Keeps (within t now) (foreign t) (assert_permissions memo user requirement)
  unfolding assert_permissions
  assert_permissions-isolated memo user requirement = search (isolation, get_permissions-isolated)

  pub mutable_role-isolated : (id : Key) → Keeps (within t now) (foreign t) (mutable_role id)
  unfolding mutable_role find_role
  mutable_role-isolated id = search isolation

  count_grants-isolated : (rs : List Role) → Keeps (within t now) (foreign t) (count_grants rs)
  unfolding count_grants
  count_grants-isolated [] = search isolation
  count_grants-isolated (r ∷ rs) =
      Keeps-bind (Keeps-find_related (λ db. db.role_permissions) (λ g. g.role_id == r.id))
        λ a. Keeps-bind (count_grants-isolated rs) λ b. Keeps-pure _

  pub list_roles-isolated :
      (memo : Memo) (actor : Key) → Keeps (within t now) (foreign t) (list_roles memo actor)
  unfolding list_roles Role.assert_read
  list_roles-isolated memo actor =
      search (isolation, assert_permissions-isolated, count_grants-isolated)

  pub get_role-isolated :
      (memo : Memo) (actor id : Key) → Keeps (within t now) (foreign t) (get_role memo actor id)
  unfolding get_role Role.assert_read find_role permissions_of
  get_role-isolated memo actor id = search (isolation, assert_permissions-isolated) depth 12

  pub update_role-isolated :
      (memo : Memo) (actor id : Key) (dto : UpdateRoleDto)
      → Keeps (within t now) (foreign t) (update_role memo actor id dto)
  unfolding update_role Role.assert_manage
  update_role-isolated memo actor id dto =
      search (isolation, assert_permissions-isolated, mutable_role-isolated)

  last_owner-isolated :
      (tenant : Key) (message : Message)
      → Keeps (within t now) (foreign t) (assert_not_last_active_owner tenant message)
  unfolding assert_not_last_active_owner
  last_owner-isolated tenant message = record { apply = λ db. ground arith }

  role_of-isolated : (m : Membership) → Keeps (within t now) (foreign t) (role_of m)
  unfolding role_of
  role_of-isolated m = search isolation

  give_role-isolated :
      (id : Key) (current role : Role)
      → Keeps (within t now) (foreign t) (give_role id current role)
  unfolding give_role demote_owner set_role
  give_role-isolated id current role = search (isolation, last_owner-isolated) depth 12

  may_assign-isolated :
      (memo : Memo) (actor : Key) (role : Role)
      → Keeps (within t now) (foreign t) (assert_may_assign memo actor role)
  unfolding assert_may_assign
  may_assign-isolated memo actor role = search (isolation, get_permissions-isolated)

  pub assign_role_to_membership-isolated :
      (memo : Memo) (actor membership role : Key)
      → Keeps (within t now) (foreign t) (assign_role_to_membership memo actor membership role)
  unfolding assign_role_to_membership Role.assert_manage find_role
  assign_role_to_membership-isolated memo actor membership role =
      search
        (
          isolation, assert_permissions-isolated, role_of-isolated, may_assign-isolated,
          give_role-isolated,
        )
        depth 20

  with_relations-isolated : (m : Membership) → Keeps (within t now) (foreign t) (with_relations m)
  unfolding with_relations
  with_relations-isolated m = search (isolation, role_of-isolated)

  summarize-isolated : (ms : List Membership) → Keeps (within t now) (foreign t) (summarize ms)
  unfolding summarize
  summarize-isolated [] = search isolation
  summarize-isolated (m ∷ ms) =
      Keeps-bind (with_relations-isolated m)
        λ a. Keeps-bind (summarize-isolated ms) λ b. Keeps-pure _

  pub list_members-isolated :
      (memo : Memo) (actor : Key) → Keeps (within t now) (foreign t) (list_members memo actor)
  unfolding list_members Member.assert_read
  list_members-isolated memo actor =
      search (isolation, assert_permissions-isolated, summarize-isolated)

  pub get_member-isolated :
      (memo : Memo) (actor user : Key)
      → Keeps (within t now) (foreign t) (get_member memo actor user)
  unfolding get_member Member.assert_read find_member_by_user_id
  get_member-isolated memo actor user =
      search (isolation, assert_permissions-isolated, with_relations-isolated) depth 12

  find_membership-isolated : (id : Key) → Keeps (within t now) (foreign t) (find_membership id)
  unfolding find_membership
  find_membership-isolated id = search (isolation, with_relations-isolated)

  change_status-isolated :
      (m : MemberWithRelations) (id : Key) (status : NewStatus)
      → Keeps (within t now) (foreign t) (change_status m id status)
  unfolding change_status update_with_owner_lock suspend_owner set_status
  change_status-isolated m id status =
      search (isolation, last_owner-isolated, find_membership-isolated, with_relations-isolated)
        depth 15

  pub update_member_status-isolated :
      (memo : Memo) (actor membership : Key) (status : NewStatus)
      → Keeps (within t now) (foreign t) (update_member_status memo actor membership status)
  unfolding update_member_status Member.assert_manage
  update_member_status-isolated memo actor membership status =
      search
        (isolation, assert_permissions-isolated, find_membership-isolated, change_status-isolated)
        depth 15
