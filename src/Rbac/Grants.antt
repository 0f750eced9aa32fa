-- ===== src/Rbac/Grants.antt =====
-- What the grants of a role and the catalog come to.
use business_platform.Order.Frames.{everything}
use business_platform.Platform.Frames.{Keeps, keeps}
use business_platform.Platform.Facts.{find_unique_eq}
use business_platform.Prelude.{
  Bool, Bool-cases, List, Option, Option-cases, [], ap, arith, false, first, inl, inr, ltb, map,
  none, one_if, refl, some, subst, sum_of, sym, total, true, ℕ, ◌&&◌, ◌==◌, ◌∙◌, ◌∷◌, ◌≡◌,
}
use business_platform.Prisma.{Prisma}
use business_platform.Schema.{Db, Key, Instant, Text, Permission, RolePermission, Membership}
use business_platform.Platform.{
  Result, ok, err, within, find_related, Outcome-cases, forbidden, insufficient_permissions,
  membership_model,
}
use business_platform.Platform.Constraints.{some_row}
use business_platform.Rbac.Catalog.{PermissionKey}
use business_platform.Rbac.Permission.{
  includes, granted_keys, Memo, Mode, PermissionRequirement, recall, satisfies, nothing_granted,
  is_active_member, role_snapshot, load_snapshot, get_permissions, assert_permissions, any, all,
}

-- The permissions that a role is granted, by the join of the two tables.
abbrev pub is_granted : Key → Text → Db → Bool
is_granted role k db =
    some_row
      (λ p.
        some_row (λ g. g.role_id == role && g.permission_id == p.id) db.role_permissions
        && p.key == k)
      db.permissions

-- To be there is to be counted.
pub some_row-total :
    {A : Type 0} (w v : A → Bool) (rs : List A)
    → some_row (λ r. w r && v r) rs ≡ ltb 0 (total w (one_if v) rs)
some_row-total w v [] = refl
some_row-total w v (x ∷ xs) = ground (arith, some_row-total w v xs)

includes-sum_of :
    {A : Type 0} (f : A → ℕ) (k : ℕ) (rs : List A)
    → includes (map f rs) k ≡ ltb 0 (sum_of (one_if λ r. f r == k) rs)
includes-sum_of f k [] = refl
includes-sum_of f k (x ∷ xs) = ground (arith, includes-sum_of f k xs)

some_row_ext :
    {A : Type 0} (v w : A → Bool)
    → ((r : A) → v r ≡ w r)
    → (rs : List A) → some_row v rs ≡ some_row w rs
some_row_ext v w h [] = refl
some_row_ext v w h (x ∷ xs) = rw (h x, some_row_ext v w h xs) refl

abbrev pub Grants : Key → Db → Result (List Text) × Db → Type 0
Grants role db (ok keys, db') = ((k : Text) → includes keys k ≡ is_granted role k db) × (db' ≡ db)
Grants role db (err e, db') = ⊥

module _ ⦃prisma : Prisma⦄ where
  -- What a related read finds by a key is there.
  pub find_many-some_row :
      {A : Type 0} (w : A → Bool) (f : A → ℕ) (k : ℕ) (rs : List A)
      → includes (map f (prisma.find_many A w rs)) k ≡ some_row (λ r. w r && f r == k) rs
  find_many-some_row {A} w f k rs =
      includes-sum_of f k (prisma.find_many A w rs)
      ∙ ap (ltb 0) (prisma.find_many_total A w (one_if λ r. f r == k) rs)
      ∙ sym (some_row-total w (λ r. f r == k) rs)

  -- The keys of a role are just those that the join of its grants with the permissions has, and
  -- reading them changes nothing.
  pub granted_keys-join :
      (t : Key) (now : Instant) (role : Key) (db : Db)
      → Grants role db (granted_keys role (within t now) db)
  unfolding granted_keys find_related
  granted_keys-join t now role db =
      let grants = prisma.find_many RolePermission (λ r. r.role_id == role) db.role_permissions in
      (
        (λ k.
            find_many-some_row
              (λ (p : Permission). includes (map (λ g. g.permission_id) grants) p.id) (λ p. p.key) k
              db.permissions
            ∙ some_row_ext (λ p. includes (map (λ g. g.permission_id) grants) p.id && p.key == k)
                (λ p.
                  some_row (λ g. g.role_id == role && g.permission_id == p.id) db.role_permissions
                  && p.key == k)
                (λ p.
                  ap (λ b. b && p.key == k)
                    (find_many-some_row (λ g. g.role_id == role) (λ g. g.permission_id) p.id
                      db.role_permissions))
                db.permissions),
        refl,
      )

-- The membership of a user in a tenant.
abbrev pub membership_in : Key → Key → Db → Option Membership
membership_in t user db =
    first (λ m. (m.user_id == user && m.tenant_id == t) && m.tenant_id == t) db.memberships

-- Who may: an active member.
abbrev pub Members : Key → Key → Db → Result Memo × Db → Type 0
Members t user db (err e, db') = db' ≡ db
Members t user db (ok memo, db') =
    (m : Membership) × (membership_in t user db ≡ some m)
    × (is_active_member m.status ≡ true)
    × (db' ≡ db)

satisfies-nothing :
    (mode : Mode) (p : PermissionKey) (ps : List PermissionKey)
    → satisfies nothing_granted record { mode = mode; permissions = p ∷ ps } ≡ false
unfolding satisfies
satisfies-nothing any p [] = refl
satisfies-nothing any p (q ∷ ps) = satisfies-nothing any q ps
satisfies-nothing all p ps = refl

module _ ⦃prisma : Prisma⦄ (t : Key) (now : Instant) (memo : Memo) (user : Key)
    (fresh : recall memo t user ≡ none) (mode : Mode) (p : PermissionKey)
    (ps : List PermissionKey) where
  abbrev asked : PermissionRequirement
  asked = record { mode = mode; permissions = p ∷ ps }

  assert_permissions-reads : Keeps (within t now) everything (assert_permissions memo user asked)
  unfolding assert_permissions get_permissions load_snapshot role_snapshot granted_keys
  assert_permissions-reads = search keeps depth 25

  assert_permissions-refuses :
      (db : Db)
      → load_snapshot user t (within t now) db ≡ (ok nothing_granted, db)
      → assert_permissions memo user asked (within t now) db
        ≡ (err (forbidden insufficient_permissions), db)
  unfolding assert_permissions get_permissions
  assert_permissions-refuses db e = ground (arith, satisfies-nothing mode p ps)

  load_snapshot-stranger :
      (db : Db)
      → membership_in t user db ≡ none
      → load_snapshot user t (within t now) db ≡ (ok nothing_granted, db)
  unfolding load_snapshot
  load_snapshot-stranger db e = ground (
    arith,
    find_unique_eq membership_model refl t now db
        λ (m : Membership). m.user_id == user && m.tenant_id == t,
  )

  load_snapshot-inactive :
      (db : Db) (m : Membership)
      → membership_in t user db ≡ some m
      → is_active_member m.status ≡ false
      → load_snapshot user t (within t now) db ≡ (ok nothing_granted, db)
  unfolding load_snapshot
  load_snapshot-inactive db m e inactive = ground (
    arith,
    find_unique_eq membership_model refl t now db
        λ (m : Membership). m.user_id == user && m.tenant_id == t,
  )

  -- In a request that has not looked the user up yet, a check that asks for at least one permission
  -- passes only for an active member of the tenant. A user without a membership, or with one that
  -- is invited or suspended, is refused whatever the role is. Nothing is changed.
  pub assert_permissions-Members :
      (db : Db) → Members t user db (assert_permissions memo user asked (within t now) db)
  assert_permissions-Members db = elim (Option-cases (membership_in t user db)) [
    | inl e ↦
        subst (Members t user db)
          (sym (assert_permissions-refuses db (load_snapshot-stranger db e))) refl
    | inr (m, e) ↦ elim (Bool-cases (is_active_member m.status)) [
      | inr inactive ↦
          subst (Members t user db)
            (sym (assert_permissions-refuses db (load_snapshot-inactive db m e inactive))) refl
      | inl active ↦
          let same = assert_permissions-reads.apply db in
          elim (Outcome-cases (assert_permissions memo user asked (within t now) db)) [
            | inl (memo', db', out) ↦
                subst (Members t user db) (sym out) (m, e, active, sym (ap (λ o. o.1) out) ∙ same)
            | inr (x, db', out) ↦
                subst (Members t user db) (sym out) (sym (ap (λ o. o.1) out) ∙ same)
          ]
    ]
  ]
