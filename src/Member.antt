-- ===== src/Member.antt =====
-- src/member/member.service.ts: the members of a tenant and their status. Onboarding, which writes
-- the users that all tenants share, is left out.
pub mod Owners
use business_platform.Prelude.{
  Bool, List, Option, [], ◌∷◌, false, first, if◌then◌else◌, true, ◌&&◌, ◌==◌,
}
use business_platform.Prisma.{Prisma}
use business_platform.Schema.{Key, Instant, Text, Membership, Role, User, MembershipStatus}
use business_platform.Platform.{
  Action, pure, or_throw, throw_if, transaction, not_found, forbidden, type_error,
  membership_not_found, self_status_change, last_active_owner, ◌>>=◌, ◌>>◌, require_tenant_id,
  find_unique, find_many_by, find_related, update, membership_model,
}
use business_platform.Rbac.Catalog.{PermissionKey}
use business_platform.Rbac.Permission.{Memo, Mode, assert_permissions, is_active_member}
use business_platform.Rbac.Role.{role_of, is_owner_key, assert_not_last_active_owner}

-- `MemberWithRelations`
pub record MemberWithRelations : Type 0 where
  pub membership : Membership
  pub user : User
  pub role : Role

pub record RoleSummary : Type 0 where
  pub id : Key
  pub key : Text
  pub name : Text
  pub is_system : Bool

pub record MemberSummary : Type 0 where
  pub membership_id : Key
  pub user_id : Key
  pub email : Text
  pub first_name : Option Text
  pub last_name : Option Text
  pub role : RoleSummary
  pub status : MembershipStatus
  pub created_at : Instant
  pub updated_at : Instant

abbrev pub to_summary : MemberWithRelations → MemberSummary
to_summary m = record {
  membership_id = m.membership.id;
  user_id = m.membership.user_id;
  email = m.user.email;
  first_name = m.user.first_name;
  last_name = m.user.last_name;
  role = record {
    id = m.role.id;
    key = m.role.key;
    name = m.role.name;
    is_system = m.role.is_system;
  };
  status = m.membership.status;
  created_at = m.membership.created_at;
  updated_at = m.membership.updated_at;
}

-- The statuses that the DTO allows.
pub data NewStatus : Type 0 where
  activate suspend : NewStatus

abbrev pub to_status : NewStatus → MembershipStatus
to_status activate = MembershipStatus.active
to_status suspend = MembershipStatus.suspended

abbrev pub is_suspension : NewStatus → Bool
is_suspension activate = false
is_suspension suspend = true

module _ ⦃prisma : Prisma⦄ where
  unfoldable pub assert_read : Memo → Key → Action Memo
  assert_read memo actor =
      assert_permissions memo actor
        record { mode = Mode.all; permissions = PermissionKey.member_read ∷ [] }

  unfoldable pub assert_manage : Memo → Key → Action Memo
  assert_manage memo actor =
      assert_permissions memo actor
        record { mode = Mode.all; permissions = PermissionKey.member_manage ∷ [] }

  -- `include: MEMBER_INCLUDE`
  unfoldable pub with_relations : Membership → Action MemberWithRelations
  with_relations m = do
    users ← find_related (λ db. db.users) (λ u. u.id == m.user_id)
    user ← or_throw (first (λ u. true) users) type_error
    role ← role_of m
    pure record { membership = m; user = user; role = role }

  unfoldable pub summarize : List Membership → Action (List MemberSummary)
  summarize [] = pure []
  summarize (m ∷ ms) = do
    loaded ← with_relations m
    others ← summarize ms
    pure (to_summary loaded ∷ others)

  unfoldable pub list_members : Memo → Key → Action (List MemberSummary)
  list_members memo actor = do
    assert_read memo actor
    memberships ← find_many_by membership_model (λ m. m.created_at) (λ m. true)
    summarize memberships

  unfoldable pub find_member_by_user_id : Key → Action MemberWithRelations
  find_member_by_user_id user_id = do
    tenant_id ← require_tenant_id
    found ← find_unique membership_model (λ m. m.user_id == user_id && m.tenant_id == tenant_id)
    membership ← or_throw found (not_found membership_not_found)
    with_relations membership

  unfoldable pub get_member : Memo → Key → Key → Action MemberSummary
  get_member memo actor user_id = do
    assert_read memo actor
    member ← find_member_by_user_id user_id
    pure (to_summary member)

  unfoldable pub find_membership : Key → Action MemberWithRelations
  find_membership membership_id = do
    found ← find_unique membership_model (λ m. m.id == membership_id)
    membership ← or_throw found (not_found membership_not_found)
    with_relations membership

  unfoldable pub set_status : Key → NewStatus → Action Membership
  set_status membership_id status =
      update membership_model (λ m. m.id == membership_id)
        (λ m. record m { status = to_status status })

  -- The transaction that suspends an owner.
  unfoldable pub suspend_owner : Key → NewStatus → Action Membership
  suspend_owner membership_id status = do
    tenant_id ← require_tenant_id
    transaction (do
      assert_not_last_active_owner tenant_id last_active_owner
      set_status membership_id status)

  unfoldable pub update_with_owner_lock : Key → NewStatus → Action MemberWithRelations
  update_with_owner_lock membership_id status = do
    suspend_owner membership_id status
    find_membership membership_id

  -- `removingActiveOwner`
  abbrev pub removes_owner : MemberWithRelations → NewStatus → Bool
  removes_owner m status =
      is_owner_key m.role.key && (is_active_member m.membership.status && is_suspension status)

  unfoldable pub change_status : MemberWithRelations → Key → NewStatus → Action MemberWithRelations
  change_status m membership_id status =
      if removes_owner m status
      then update_with_owner_lock membership_id status
      else (do updated ← set_status membership_id status; with_relations updated)

  unfoldable pub update_member_status : Memo → Key → Key → NewStatus → Action MemberSummary
  update_member_status memo actor membership_id status = do
    assert_manage memo actor
    m ← find_membership membership_id
    throw_if (m.membership.user_id == actor) (forbidden self_status_change)
    updated ← change_status m membership_id status
    pure (to_summary updated)
