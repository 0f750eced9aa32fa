-- ===== src/Rbac/Bounded.antt =====
-- What it is to grant nothing that one does not hold, and when new grants do so.
use business_platform.Prelude.{
  Bool, Bool-cases, In, List, [], ap, arith, drop_where, false, inl, inr, ltb, map, one_if, refl,
  subst, sum_of, sym, true, ◌&&◌, ◌++◌, ◌==◌, ◌∙◌, ◌∷◌, ◌≡◌, ◌⊎◌,
}
use business_platform.Prisma.{Prisma}
use business_platform.Schema.{Db, Key, Instant, Text, Permission, RolePermission}
use business_platform.Platform.Constraints.{some_row}
use business_platform.Platform.Unique.{IsKeyed, same_row, some_row-true}
use business_platform.Rbac.Role.{unheld, to_grant}
use business_platform.Rbac.Permission.{includes}
use business_platform.Rbac.Grants.{is_granted, some_row-total}
use business_platform.Rbac.Holding.{Holds}

-- Whatever a role grants after an action, it granted before or the user holds.
abbrev pub Covered : Key → Key → Db → Db → Type 0
Covered t user db db' =
    (role : Key) (k : Text)
    → is_granted role k db' ≡ true
    → (is_granted role k db ≡ true) ⊎ Holds t user k db

some_row-found :
    {A : Type 0} (w : A → Bool) (rs : List A)
    → some_row w rs ≡ true
    → (r : A) × In r rs × (w r ≡ true)
some_row-found w [] h = ground arith
some_row-found w (x ∷ xs) h = elim (Bool-cases (w x)) [
  | inl e ↦ (x, inl refl, e)
  | inr e ↦ let (r, i, fits) = some_row-found w xs (ground arith) in (r, inr i, fits)
]

pub some_row-sum_of :
    {A : Type 0} (v : A → Bool) (rs : List A) → some_row v rs ≡ ltb 0 (sum_of (one_if v) rs)
some_row-sum_of v [] = refl
some_row-sum_of v (x ∷ xs) = ground (arith, some_row-sum_of v xs)

pub map_same : {A : Type 0} (rs : List A) → map (λ r. r) rs ≡ rs
map_same [] = refl
map_same (x ∷ xs) = ap (λ ys. x ∷ ys) (map_same xs)

-- The grants of some permissions to a role.
some_row-grants :
    (role : Key) (v : RolePermission → Bool) (ps : List Permission)
    → some_row v (map (to_grant role) ps) ≡ some_row (λ p. v (to_grant role p)) ps
some_row-grants role v [] = refl
some_row-grants role v (p ∷ ps) = rw (some_row-grants role v ps) refl

-- What is there after an addition was added or was there.
pub some_row-added :
    {A : Type 0} (new old rs : List A)
    → rs ≡ new ++ old
    → (v : A → Bool) → some_row v rs ≡ true
    → (some_row v new ≡ true) ⊎ (some_row v old ≡ true)
some_row-added [] old rs e v h = inr (subst (λ y. some_row v y ≡ true) e h)
some_row-added (x ∷ xs) old rs e v h =
    let all_rows = subst (λ y. some_row v y ≡ true) e h in
    elim (Bool-cases (v x)) [
      | inl fits ↦ inl (ground arith)
      | inr other ↦ elim (some_row-added xs old (xs ++ old) refl v (ground arith)) [
        | inl new ↦ inl (ground arith)
        | inr there ↦ inr there
      ]
    ]

pub some_row-dropped :
    {A : Type 0} (v w : A → Bool) (rs : List A)
    → some_row v (drop_where w rs) ≡ true
    → some_row v rs ≡ true
some_row-dropped v w [] h = h
some_row-dropped v w (x ∷ xs) h = ground (arith, some_row-dropped v w xs)

pub some_row-held :
    (keys : List Text) (k : Text) (ps : List Permission)
    → some_row (unheld keys) ps ≡ false
    → some_row (λ p. p.key == k) ps ≡ true
    → includes keys k ≡ true
some_row-held keys k [] h g = ground arith
some_row-held keys k (p ∷ ps) h g = elim (Bool-cases (p.key == k)) [
  | inl e ↦
      let same : p.key ≡ k = ground arith in
      let here : includes keys p.key ≡ true = ground arith in
      subst (λ y. includes keys y ≡ true) same here
  | inr e ↦ some_row-held keys k ps (ground arith) (ground arith)
]

key_of : (p q : Permission) → p ≡ q → p.key ≡ q.key
key_of p q e = ap (λ r. r.key) e

module _ ⦃prisma : Prisma⦄ (t : Key) (now : Instant) (user : Key) (db : Db) where
  -- The permissions are rows of the table.
  abbrev pub Resolved : List Permission → Type 0
  Resolved ps =
      (v : Permission → Bool)
      → some_row v ps ≡ true
      → (r : Permission) × In r db.permissions × (v r ≡ true)

  abbrev pub Held : List Permission → Type 0
  Held ps = (k : Text) → some_row (λ p. p.key == k) ps ≡ true → Holds t user k db

  -- New grants of permissions that the user holds.
  pub granting :
      (role : Key) (ps : List Permission) (db' : Db)
      → IsKeyed (λ (p : Permission). p.id) db.permissions
      → Resolved ps
      → Held ps
      → db'.permissions ≡ db.permissions
      → ((v : RolePermission → Bool)
          → some_row v db'.role_permissions ≡ true
          → (some_row v (map (to_grant role) ps) ≡ true) ⊎ (some_row v db.role_permissions ≡ true))
      → Covered t user db db'
  granting role ps db' keyed resolved held same grants x k h =
      let (q, i, fits) =
        some_row-found
          (λ (p : Permission).
            some_row (λ g. g.role_id == x && g.permission_id == p.id) db'.role_permissions
            && p.key == k)
          db'.permissions h in
      let j = subst (In q) same i in
      let test : RolePermission → Bool = λ g. g.role_id == x && g.permission_id == q.id in
      elim (grants test (ground arith)) [
        | inr old ↦ inl (
            some_row-true
              (λ (p : Permission).
                some_row (λ g. g.role_id == x && g.permission_id == p.id) db.role_permissions
                && p.key == k)
              db.permissions q j (ground arith))
        | inl new ↦
            let granted = sym (some_row-grants role test ps) ∙ new in
            let (p, p_in, p_fits) = some_row-found (λ p. test (to_grant role p)) ps granted in
            let (r, r_in, r_fits) =
              resolved (λ y. y.id == p.id && y.key == p.key)
                (some_row-true (λ y. y.id == p.id && y.key == p.key) ps p p_in (ground arith)) in
            let one =
              same_row (λ (y : Permission). y.id) db.permissions r q keyed r_in j (ground arith) in
            let keys = key_of r q one in
            inr (held k (some_row-true (λ y. y.key == k) ps p p_in (ground arith)))
      ]

  pub find_many-Resolved :
      (w : Permission → Bool) → Resolved (prisma.find_many Permission w db.permissions)
  find_many-Resolved w v h =
      let found : some_row (λ r. w r && v r) db.permissions ≡ true =
        some_row-total w v db.permissions
        ∙ ap (ltb 0) (sym (prisma.find_many_total Permission w (one_if v) db.permissions))
        ∙ sym (some_row-sum_of v (prisma.find_many Permission w db.permissions))
        ∙ h in
      let (r, i, fits) = some_row-found (λ r. w r && v r) db.permissions found in
      (r, i, ground arith)
