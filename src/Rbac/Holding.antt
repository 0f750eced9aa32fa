-- ===== src/Rbac/Holding.antt =====
-- What a snapshot of the permission service tells of the tables.
use business_platform.Platform.Facts.{find_unique_eq}
use business_platform.Prelude.{
  arith, Bool, List, [], ◌∷◌, Option-cases, Bool-cases, ap, first, inl, inr, map, none, refl, some,
  subst, sym, true, false, ℕ, ◌&&◌, ◌==◌, ◌∙◌, ◌≡◌, ◌||◌,
}
use business_platform.Prisma.{Prisma}
use business_platform.Schema.{Db, Key, Instant, Text, Membership, Role}
use business_platform.Platform.{Outcome-cases, ok, within, find_related, membership_model}
use business_platform.Platform.Constraints.{some_row}
use business_platform.Rbac.Role.{is_owner_key}
use business_platform.Rbac.Permission.{
  includes, granted_keys, Memo, PermissionSnapshot, recall, memorize, is_active_member,
  role_snapshot, load_snapshot, get_permissions,
}
use business_platform.Rbac.Grants.{
  is_granted, membership_in, granted_keys-join, find_many-some_row, Grants,
}

-- That a role may grant a permission: the owner any, another those that it is granted.
abbrev pub is_grantable : Key → Text → Db → Bool
is_grantable role k db =
    some_row (λ r. r.id == role && is_owner_key r.key) db.roles || is_granted role k db

-- The user is an active member whose role holds the permission.
abbrev pub Holds : Key → Key → Text → Db → Type 0
Holds t user k db =
    (m : Membership) × (membership_in t user db ≡ some m)
    × (is_active_member m.status ≡ true)
    × (is_grantable m.role_id k db ≡ true)

-- That a snapshot has a permission.
abbrev pub snapshot_holds : PermissionSnapshot → Text → Bool
snapshot_holds s k = s.is_owner || includes s.keys k

some_row-both :
    {A : Type 0} (f : A → ℕ) (i j : ℕ) (rs : List A)
    → some_row (λ r. f r == i && f r == j) rs ≡ true
    → i ≡ j
some_row-both f i j [] h = ground arith
some_row-both f i j (x ∷ xs) h = ground (arith, some_row-both f i j xs)

includes-first :
    {A : Type 0} (f : A → ℕ) (rs : List A) (r : A)
    → first (λ x. true) rs ≡ some r
    → includes (map f rs) (f r) ≡ true
includes-first f [] r h = ground arith
includes-first f (x ∷ xs) r h = ground arith

module _ ⦃prisma : Prisma⦄ (t : Key) (now : Instant) (db : Db) where
  -- The role that a related read finds first.
  related_role :
      (id : Key) (r : Role)
      → first (λ x. true) (prisma.find_many Role (λ x. x.id == id) db.roles) ≡ some r
      → (r.id ≡ id) × (some_row (λ x. x.id == id && x.key == r.key) db.roles ≡ true)
  related_role id r h =
      let found = prisma.find_many Role (λ x. x.id == id) db.roles in
      let by_id = find_many-some_row (λ (x : Role). x.id == id) (λ x. x.id) r.id db.roles in
      let by_key = find_many-some_row (λ (x : Role). x.id == id) (λ x. x.key) r.key db.roles in
      (
        sym (
            some_row-both (λ (x : Role). x.id) id r.id db.roles
              (sym by_id ∙ includes-first (λ (x : Role). x.id) found r h)),
        sym by_key ∙ includes-first (λ (x : Role). x.key) found r h,
      )

  role_snapshot-grantable :
      (id : Key) (s : PermissionSnapshot) (db' : Db) (k : Text)
      → role_snapshot id (within t now) db ≡ (ok s, db')
      → snapshot_holds s k ≡ true
      → is_grantable id k db ≡ true
  unfolding role_snapshot find_related
  role_snapshot-grantable id s db' k h held =
      let found = prisma.find_many Role (λ x. x.id == id) db.roles in
      elim (Option-cases (first (λ (x : Role). true) found)) [
        | inl e ↦ ground arith
        | inr (r, e) ↦
            let (same, there) = related_role id r e in
            let keys = granted_keys-join t now r.id db in
            elim (Bool-cases (is_owner_key r.key)) [
              | inl owner ↦ ground arith
              | inr other ↦ elim (Outcome-cases (granted_keys r.id (within t now) db)) [
                | inl (ks, db1, o) ↦
                    let join : Grants r.id db (ok ks, db1) = subst (Grants r.id db) o keys in
                    let kept : s ≡ record { is_owner = false; keys = ks } = ground arith in
                    let granted : is_granted id k db ≡ true =
                      ap (λ y. is_granted y k db) (sym same)
                      ∙ sym (join.0 k)
                      ∙ ap (λ y. snapshot_holds y k) (sym kept)
                      ∙ held in
                    ground arith
                | inr (x, db1, o) ↦ elim (subst (Grants r.id db) o keys) [ ]
              ]
            ]
      ]

  pub load_snapshot-Holds :
      (user : Key) (s : PermissionSnapshot) (db' : Db) (k : Text)
      → load_snapshot user t (within t now) db ≡ (ok s, db')
      → snapshot_holds s k ≡ true
      → Holds t user k db
  unfolding load_snapshot
  load_snapshot-Holds user s db' k h held =
      let law =
        find_unique_eq membership_model refl t now db
          λ (m : Membership). m.user_id == user && m.tenant_id == t in
      elim (Option-cases (membership_in t user db)) [
        | inl e ↦ ground arith
        | inr (m, e) ↦ elim (Bool-cases (is_active_member m.status)) [
          | inl active ↦
              (m, e, active, role_snapshot-grantable m.role_id s db' k (ground arith) held)
          | inr other ↦ ground arith
        ]
      ]

  -- The memo has only what the tables say of the user.
  abbrev pub Recalls : Key → Memo → Type 0
  Recalls user memo =
      (s : PermissionSnapshot)
      → recall memo t user ≡ some s
      → load_snapshot user t (within t now) db ≡ (ok s, db)

  recall-memorize :
      (memo : Memo) (user : Key) (s s' : PermissionSnapshot)
      → recall (memorize memo t user s) t user ≡ some s'
      → s ≡ s'
  recall-memorize none user s s' h = ground arith
  recall-memorize (some l) user s s' h = ground arith

  pub get_permissions-Recalls :
      (memo : Memo) (user : Key) (s : PermissionSnapshot) (memo' : Memo)
      → Recalls user memo
      → get_permissions memo user (within t now) db ≡ (ok (s, memo'), db)
      → (load_snapshot user t (within t now) db ≡ (ok s, db)) × Recalls user memo'
  unfolding get_permissions
  get_permissions-Recalls memo user s memo' recalls h = elim (Option-cases (recall memo t user)) [
    | inl e ↦ elim (Outcome-cases (load_snapshot user t (within t now) db)) [
      | inl (s0, db0, out) ↦
          let same : s0 ≡ s = ground arith in
          let same_memo : memo' ≡ memorize memo t user s = ground arith in
          let loaded : load_snapshot user t (within t now) db ≡ (ok s, db) = ground arith in
          (
            loaded,
            subst (Recalls user) (sym same_memo) λ s' r.
                subst (λ y. load_snapshot user t (within t now) db ≡ (ok y, db))
                  (recall-memorize memo user s s' r) loaded,
          )
      | inr (x, db0, out) ↦ ground arith
    ]
    | inr (s0, e) ↦
        let same : s0 ≡ s = ground arith in
        let same_memo : memo ≡ memo' = ground arith in
        (recalls s (e ∙ ap some same), subst (Recalls user) same_memo recalls)
  ]
