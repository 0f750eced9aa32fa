-- ===== src/Tests/Members.antt =====
-- The theorems on owners, at the shop with an owner.
use business_platform.Platform.Constraints.{role_permission_check}
use business_platform.Rbac.Permission.{
  assert_permissions, get_permissions, load_snapshot, role_snapshot, satisfies,
}
use business_platform.Rbac.Holding.{Recalls}
use business_platform.Rbac.Granting.{Bounded, create_role-Bounded, assign_permissions-Bounded}
use business_platform.Prelude.{[], arith, none, refl, some, true, ◌∷◌, ◌≡◌}
use business_platform.Schema.{Db, MembershipStatus}
use business_platform.Platform.{
  within, ok, find_unique, find_many, delete_many, create_many, find_related,
}
use business_platform.Rbac.Role.{
  assign_role_to_membership, CreateRoleDto, create_role, assign_permissions, replace_grants,
  assert_manage, mutable_role, find_role, resolve_permissions, assert_bounded_grants, assert_held,
}
use business_platform.Rbac.Owners.{HasOwner}
use business_platform.Rbac.Assigning.{assign_role_to_membership-HasOwner}
use business_platform.Member.{NewStatus, update_member_status}
use business_platform.Member.Owners.{update_member_status-HasOwner}
use business_platform.Rbac.Replacing.{Replaced, assign_permissions-Replaces}
use business_platform.Tests.Memory.{in_memory}
use business_platform.Tests.Shop.{shop}

-- User 4 is the owner of tenant 7, through role 68.
abbrev staffed : Db
staffed = record shop {
  memberships =
      record {
        id = 64;
        user_id = 4;
        tenant_id = 7;
        role_id = 68;
        status = MembershipStatus.active;
        created_at = 90;
        updated_at = 90;
      }
      ∷ shop.memberships;
  roles =
      record {
        id = 68;
        tenant_id = 7;
        key = 1;
        name = 507;
        description = none;
        is_system = true;
        created_at = 90;
        updated_at = 90;
      }
      ∷ shop.roles;
}

-- The owner is to be given role 66.
assign_role_to_membership-HasOwner_example :
    HasOwner 7 (assign_role_to_membership (some []) 3 64 66 (within 7 200) staffed)
assign_role_to_membership-HasOwner_example =
    assign_role_to_membership-HasOwner 7 200 (some []) 3 64 66 staffed (refl, refl) (omega arith)

-- The owner is to be suspended.
update_member_status-HasOwner_example :
    HasOwner 7 (update_member_status (some []) 3 64 NewStatus.suspend (within 7 200) staffed)
update_member_status-HasOwner_example =
    update_member_status-HasOwner 7 200 (some []) 3 64 NewStatus.suspend staffed (refl, refl)
      (omega arith)

-- A role with permission 67, of every text as one character long.
abbrev cashier : CreateRoleDto
cashier = record { key = 508; name = 509; description = none; permission_ids = 67 ∷ [] }

-- A request that has not looked the owner up.
nothing_recalled : Recalls 7 200 staffed 4 (some [])
nothing_recalled s h = ground arith

create_role-Bounded_example :
    Bounded 7 4 101 49 staffed (create_role (λ k. 1) (some []) 4 cashier (within 7 200) staffed)
create_role-Bounded_example =
    create_role-Bounded 7 200 (λ k. 1) (some []) 4 staffed 101 49 nothing_recalled refl cashier

assign_permissions-Bounded_example :
    Bounded 7 4 66 49 staffed
      (assign_permissions (λ k. 1) (some []) 4 66 (67 ∷ []) (within 7 200) staffed)
assign_permissions-Bounded_example =
    assign_permissions-Bounded 7 200 (λ k. 1) (some []) 4 staffed 66 49 nothing_recalled refl 66
      (67 ∷ [])

assign_permissions-Replaces_example :
    Replaced 7 66
      (67 ∷ [])
      67
      staffed
      (assign_permissions (λ k. 1) (some []) 4 66 (67 ∷ []) (within 7 200) staffed)
assign_permissions-Replaces_example =
    assign_permissions-Replaces 7 200 staffed (λ k. 1) (some []) 4 66 (67 ∷ []) 67

assign_permissions-accepted :
    (assign_permissions (λ k. 1) (some []) 4 66 (67 ∷ []) (within 7 200) staffed).0 ≡ ok (66, 1)
unfolding assign_permissions replace_grants assert_manage assert_permissions get_permissions
    load_snapshot role_snapshot mutable_role find_role resolve_permissions assert_bounded_grants
    assert_held find_unique find_many delete_many create_many find_related satisfies
    role_permission_check
assign_permissions-accepted = refl
