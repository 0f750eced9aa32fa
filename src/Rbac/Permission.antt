-- ===== src/Rbac/Permission.antt =====
-- src/rbac/permission.service.ts: what a user may do in the tenant of the request. The memo is the
-- one of the request's context, if the request has one.
use business_platform.Prelude.{
  Bool, List, Option, [], false, first, if◌then◌else◌, map, none, not, some, true, ℕ, ◌&&◌, ◌==◌,
  ◌||◌, ◌∷◌,
}
use business_platform.Prisma.{Prisma}
use business_platform.Schema.{Key, Text, MembershipStatus}
use business_platform.Platform.{
  Action, pure, or_throw, throw_if, if_found, forbidden, insufficient_permissions, type_error,
  ◌>>=◌, ◌>>◌, require_tenant_id, find_unique, find_related, membership_model,
}
use business_platform.Rbac.Catalog.{PermissionKey, code, SystemRoleKey, role_text}

pub record PermissionSnapshot : Type 0 where
  pub is_owner : Bool
  pub keys : List Text

pub data Mode : Type 0 where
  any all : Mode

-- `PermissionRequirement` of permission.decorator.ts.
pub record PermissionRequirement : Type 0 where
  pub mode : Mode
  pub permissions : List PermissionKey

-- The snapshots by tenant and user.
abbrev pub Memo : Type 0
Memo = Option (List ((Key × Key) × PermissionSnapshot))

abbrev pub same_member : Key → Key → (Key × Key) × PermissionSnapshot → Bool
same_member t u ((t', u'), s) = t' == t && u' == u

abbrev pub recall : Memo → Key → Key → Option PermissionSnapshot
recall none t u = none
recall (some l) t u = elim (first (same_member t u) l) [ none ↦ none | some e ↦ some e.1 ]

abbrev pub memorize : Memo → Key → Key → PermissionSnapshot → Memo
memorize none t u s = none
memorize (some l) t u s = some (((t, u), s) ∷ l)

abbrev pub includes : List ℕ → ℕ → Bool
includes [] k = false
includes (x ∷ xs) k = x == k || includes xs k

abbrev pub has_some : List Text → List PermissionKey → Bool
has_some keys [] = false
has_some keys (p ∷ ps) = includes keys (code p) || has_some keys ps

abbrev pub has_every : List Text → List PermissionKey → Bool
has_every keys [] = true
has_every keys (p ∷ ps) = includes keys (code p) && has_every keys ps

unfoldable pub satisfies : PermissionSnapshot → PermissionRequirement → Bool
satisfies snapshot requirement = if snapshot.is_owner then true else elim requirement.mode [
  | any ↦ has_some snapshot.keys requirement.permissions
  | all ↦ has_every snapshot.keys requirement.permissions
]

abbrev pub is_active_member : MembershipStatus → Bool
is_active_member MembershipStatus.active = true
is_active_member _ = false

abbrev pub nothing_granted : PermissionSnapshot
nothing_granted = record { is_owner = false; keys = [] }

abbrev pub everything_granted : PermissionSnapshot
everything_granted = record { is_owner = true; keys = [] }

module _ ⦃prisma : Prisma⦄ where
  -- The keys that the role's grants lead to. The client runs a nested select as one query for each
  -- relation, and so does this.
  unfoldable pub granted_keys : Key → Action (List Text)
  granted_keys role_id = do
    grants ← find_related (λ db. db.role_permissions) (λ r. r.role_id == role_id)
    permissions ←
        find_related (λ db. db.permissions) (λ p. includes (map (λ g. g.permission_id) grants) p.id)
    pure (map (λ p. p.key) permissions)

  -- The snapshot of an active member, by the role of the membership.
  unfoldable pub role_snapshot : Key → Action PermissionSnapshot
  role_snapshot role_id = do
    roles ← find_related (λ db. db.roles) (λ r. r.id == role_id)
    role ← or_throw (first (λ r. true) roles) type_error
    if role.key == role_text SystemRoleKey.owner
        then pure everything_granted
        else (do keys ← granted_keys role.id; pure (record { is_owner = false; keys = keys }))

  unfoldable pub load_snapshot : Key → Key → Action PermissionSnapshot
  load_snapshot user_id tenant_id = do
    membership ←
        find_unique membership_model (λ r. r.user_id == user_id && r.tenant_id == tenant_id)
    if_found membership (pure nothing_granted)
        λ m. if is_active_member m.status then role_snapshot m.role_id else pure nothing_granted

  unfoldable pub get_permissions : Memo → Key → Action (PermissionSnapshot × Memo)
  get_permissions memo user_id = do
    tenant_id ← require_tenant_id
    if_found (recall memo tenant_id user_id)
        (do
          snapshot ← load_snapshot user_id tenant_id
          pure (snapshot, memorize memo tenant_id user_id snapshot))
        λ cached. pure (cached, memo)

  unfoldable pub assert_permissions : Memo → Key → PermissionRequirement → Action Memo
  assert_permissions memo user_id requirement = do
    found ← get_permissions memo user_id
    throw_if (not (satisfies found.0 requirement)) (forbidden insufficient_permissions)
    pure found.1
