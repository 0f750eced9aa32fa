-- ===== src/Rbac/Replacing.antt =====
-- What `assignPermissions` of src/rbac/role.service.ts makes of the grants of a role.
use business_platform.Prelude.{
  Bool, Bool-cases, Option-cases, List, [], arith, drop_where, false, first, inl, inr, length, map,
  some, true, ℕ, ◌++◌, ◌&&◌, ◌||◌, ◌==◌, ◌∷◌, ◌≡◌, ◌∙◌, refl, subst, sym, ap, ltb, one_if,
}
use business_platform.Prisma.{Prisma}
use business_platform.Schema.{Db, Key, Instant, Permission, Role, RolePermission}
use business_platform.Order.Frames.{everything}
use business_platform.Platform.{
  Action, Context, Error, Result, Outcome-cases, ok, err, within, ◌>>=◌, ◌>>◌, role_model,
  transaction, pure, find_many,
}
use business_platform.Platform.Constraints.{some_row}
use business_platform.Platform.Facts.{owned, find_unique_eq}
use business_platform.Platform.Frames.{Keeps}
use business_platform.Order.Defs
use business_platform.Pos.Validation.{distinct_from}
use business_platform.Rbac.Grants.{some_row-total}
use business_platform.Rbac.Bounded.{some_row-sum_of}
use business_platform.Rbac.Permission.{Memo, includes}
use business_platform.Rbac.Role.{
  mutable_role, find_role, resolve_permissions, replace_grants, assign_permissions, to_grant,
}
use business_platform.Rbac.Steps.{replace_grants-grants}
use business_platform.Rbac.Granting.{
  assert_manage-reads, mutable_role-reads, resolve_permissions-reads, assert_bounded_grants-reads,
}

abbrev pub is_granted_to : Key → Key → RolePermission → Bool
is_granted_to role k g = g.role_id == role && g.permission_id == k

-- How the replacement of a role's grants by those of the listed permissions may end.
abbrev pub Replaced : Key → Key → List Key → Key → Db → Result (Key × ℕ) × Db → Type 0
Replaced t role ids k db (ok (id, n), db') =
    (id ≡ role)
    × (n ≡ length ids)
    × ((r : Role) × (first (owned role_model t (λ x. x.id == role)) db.roles ≡ some r)
        × (r.is_system ≡ false))
    × (some_row (is_granted_to role k) db'.role_permissions
        ≡ includes ids k && some_row (λ p. p.id == k) db.permissions)
    × (drop_where (λ g. g.role_id == role) db'.role_permissions
        ≡ drop_where (λ g. g.role_id == role) db.role_permissions)
    × (record db' { role_permissions = [] } ≡ record db { role_permissions = [] })
Replaced t role ids k db (err e, db') = db' ≡ db

-- Run on the database `db`, the action ends as `post` says of its outcome.
record Settles {A : Type 0} (c : Context) (post : Result A × Db → Type 0) (db : Db) (m : Action A)
    : Type 0 where
  apply : post (m c db)

-- A read, and what follows it with what it found.
Settles-bind :
    {A B : Type 0} {c : Context} {db : Db} {post : Result B × Db → Type 0} {m : Action A}
    {f : A → Action B}
    → ((e : Error) → post (err e, db))
    → Keeps c everything m
    → ((a : A) → m c db ≡ (ok a, db) → Settles c post db (f a))
    → Settles c post db (m >>= f)
Settles-bind {c} {db} {post} {m} {f} failed reads next =
    let same = reads.apply db in
    record {
      apply = elim (Outcome-cases (m c db)) [
        | inl (a, db', e) ↦
            let found : m c db ≡ (ok a, db) = ground arith in
            let out : (m >>= f) c db ≡ f a c db = ground arith in
            subst post (sym out) (next a found).apply
        | inr (x, db', e) ↦
            let out : (m >>= f) c db ≡ (err x, db) = ground arith in subst post (sym out) (failed x)
      ];
    }

includes-++ : (xs ys : List Key) (k : Key) → includes (xs ++ ys) k ≡ includes xs k || includes ys k
includes-++ [] ys k = refl
includes-++ (x ∷ xs) ys k = ground (arith, includes-++ xs ys k)

seen-includes :
    (seen : List Key) (x k : Key)
    → Defs.includes seen x ≡ true
    → (x == k) ≡ true
    → includes seen k ≡ true
seen-includes [] x k h e = h
seen-includes (y ∷ ys) x k h e = elim (Bool-cases (y == x)) [
  | inl here ↦ let y_x : y ≡ x = ground arith in let x_k : x ≡ k = ground arith in ground arith
  | inr other ↦ let there = seen-includes ys x k (ground arith) e in ground arith
]

includes-distinct_from :
    (seen ids : List Key) (k : Key)
    → includes (distinct_from seen ids) k ≡ includes seen k || includes ids k
includes-distinct_from seen [] k = ground arith
includes-distinct_from seen (x ∷ ids) k = elim (Bool-cases (Defs.includes seen x)) [
  | inl e ↦
      let rest = includes-distinct_from seen ids k in
      elim (Bool-cases (x == k)) [
        | inl same ↦ let there = seen-includes seen x k e same in rw e (ground arith)
        | inr other ↦ rw e (ground arith)
      ]
  | inr e ↦
      let rest = includes-distinct_from (seen ++ x ∷ []) ids k in
      let longer = includes-++ seen (x ∷ []) k in rw e (ground arith)
]

some_row-++ :
    {A : Type 0} (v : A → Bool) (xs ys : List A)
    → some_row v (xs ++ ys) ≡ some_row v xs || some_row v ys
some_row-++ v [] ys = refl
some_row-++ v (x ∷ xs) ys = ground (arith, some_row-++ v xs ys)

granted-map :
    (role k : Key) (ps : List Permission)
    → some_row (is_granted_to role k) (map (to_grant role) ps) ≡ some_row (λ p. p.id == k) ps
granted-map role k [] = refl
granted-map role k (p ∷ ps) = ground (arith, granted-map role k ps)

granted-dropped :
    (role k : Key) (gs : List RolePermission)
    → some_row (is_granted_to role k) (drop_where (λ g. g.role_id == role) gs) ≡ false
granted-dropped role k [] = refl
granted-dropped role k (g ∷ gs) = ground (arith, granted-dropped role k gs)

dropped-map :
    (role : Key) (ps : List Permission) (gs : List RolePermission)
    → drop_where (λ g. g.role_id == role) (map (to_grant role) ps ++ gs)
      ≡ drop_where (λ g. g.role_id == role) gs
dropped-map role [] gs = refl
dropped-map role (p ∷ ps) gs = ground (arith, dropped-map role ps gs)

dropped-dropped :
    (role : Key) (gs : List RolePermission)
    → drop_where (λ g. g.role_id == role) (drop_where (λ g. g.role_id == role) gs)
      ≡ drop_where (λ g. g.role_id == role) gs
dropped-dropped role [] = refl
dropped-dropped role (g ∷ gs) = ground (arith, dropped-dropped role gs)

listed :
    (w : Key → Bool) (k : Key) (ps : List Permission)
    → some_row (λ p. w p.id && p.id == k) ps ≡ w k && some_row (λ p. p.id == k) ps
listed w k [] = ground arith
listed w k (p ∷ ps) = elim (Bool-cases (p.id == k)) [
  | inl e ↦
      let same : p.id ≡ k = ground arith in
      let w_same = ap w same in let rest = listed w k ps in ground arith
  | inr e ↦ let rest = listed w k ps in ground arith
]

module _ ⦃prisma : Prisma⦄ (t : Key) (now : Instant) (db : Db) where
  some_row-find_many :
      (w v : Permission → Bool)
      → some_row v (prisma.find_many Permission w db.permissions)
        ≡ some_row (λ p. w p && v p) db.permissions
  some_row-find_many w v =
      some_row-sum_of v (prisma.find_many Permission w db.permissions)
      ∙ ap (ltb 0) (prisma.find_many_total Permission w (one_if v) db.permissions)
      ∙ sym (some_row-total w v db.permissions)

  -- The rows that `resolvePermissions` finds for a list.
  abbrev IsListed : List Key → List Permission → Type 0
  IsListed ids ps =
      (length ps ≡ length ids)
      × (ps
          ≡ prisma.find_many Permission (λ p. includes (distinct_from [] ids) p.id) db.permissions)

  resolve_permissions-found :
      (text_length : Key → ℕ) (ids : List Key) (ps : List Permission)
      → resolve_permissions text_length ids (within t now) db ≡ (ok ps, db)
      → IsListed ids ps
  unfolding resolve_permissions find_many
  resolve_permissions-found text_length ids ps h = (ground arith, ground arith)

  mutable_role-found :
      (id : Key) (r : Role)
      → mutable_role id (within t now) db ≡ (ok r, db)
      → (first (owned role_model t (λ x. x.id == id)) db.roles ≡ some r) × (r.is_system ≡ false)
  unfolding mutable_role find_role
  mutable_role-found id r h =
      let read = find_unique_eq role_model refl t now db (λ x. x.id == id) in
      elim (Option-cases (first (owned role_model t (λ x. x.id == id)) db.roles)) [
        | inl none_there ↦ ground arith
        | inr (r', found) ↦ (ground arith, ground arith)
      ]

  replaced :
      (role k : Key) (ids : List Key) (ps : List Permission) (r : Role)
      → (first (owned role_model t (λ x. x.id == role)) db.roles ≡ some r) × (r.is_system ≡ false)
      → IsListed ids ps
      → Replaced t role ids k db (
        ok (role, length ps),
        record db {
          role_permissions =
              map (to_grant role) ps ++ drop_where (λ g. g.role_id == role) db.role_permissions;
        },
      )
  replaced role k ids ps r own (as_many, found) =
      let w : Key → Bool = includes (distinct_from [] ids) in
      let old = drop_where (λ g. g.role_id == role) db.role_permissions in
      let rows : some_row (λ p. p.id == k) ps
          ≡ includes ids k && some_row (λ p. p.id == k) db.permissions =
        ap (some_row (λ p. p.id == k)) found
        ∙ some_row-find_many (λ p. w p.id) (λ p. p.id == k)
        ∙ listed w k db.permissions
        ∙ ap (λ b. b && some_row (λ p. p.id == k) db.permissions)
            (includes-distinct_from [] ids k) in
      let parts = some_row-++ (is_granted_to role k) (map (to_grant role) ps) old in
      let new = granted-map role k ps in
      let none_left = granted-dropped role k db.role_permissions in
      (
        refl,
        as_many,
        (r, own.0, own.1),
        ground arith,
        dropped-map role ps old ∙ dropped-dropped role db.role_permissions,
        refl,
      )

  store_grants-Settles :
      (role k : Key) (ids : List Key) (ps : List Permission) (r : Role)
      → (first (owned role_model t (λ x. x.id == role)) db.roles ≡ some r) × (r.is_system ≡ false)
      → IsListed ids ps
      → Settles
          (within t now)
          (Replaced t role ids k db)
          db
          (transaction (replace_grants role ps) >> pure (role, length ps))
  store_grants-Settles role k ids ps r own found =
      let m : Action (Key × ℕ) = transaction (replace_grants role ps) >> pure (role, length ps) in
      record {
        apply = elim (Outcome-cases (replace_grants role ps (within t now) db)) [
          | inl (u, db', e) ↦
              let written = replace_grants-grants t now role db role ps u db' e in
              let out : m (within t now) db ≡ (ok (role, length ps), db') = ground arith in
              subst (Replaced t role ids k db)
                (sym (out ∙ ap (λ d. (ok (role, length ps), d)) written))
                (replaced role k ids ps r own found)
          | inr (x, db', e) ↦
              let out : m (within t now) db ≡ (err x, db) = ground arith in
              subst (Replaced t role ids k db) (sym out) refl
        ];
      }

  assign_permissions-Settles :
      (text_length : Key → ℕ) (memo : Memo) (user id : Key) (ids : List Key) (k : Key)
      → Settles
          (within t now)
          (Replaced t id ids k db)
          db
          (assign_permissions text_length memo user id ids)
  unfolding assign_permissions
  assign_permissions-Settles text_length memo user id ids k =
      Settles-bind (λ e. refl) (assert_manage-reads t now user db memo)
        λ known managed.
          Settles-bind (λ e. refl) (mutable_role-reads t now user db id)
            λ role found_role.
              Settles-bind (λ e. refl) (resolve_permissions-reads t now user db text_length ids)
                λ ps found.
                  Settles-bind (λ e. refl) (assert_bounded_grants-reads t now user db known ps)
                    λ known' bounded.
                      store_grants-Settles id k ids ps role (mutable_role-found id role found_role)
                        (resolve_permissions-found text_length ids ps found)

  -- A replacement that succeeds was of a role of tenant `t` that is not a system role. The role then
  -- grants a permission, by its identifier `k`, exactly if the list has it and there is such a
  -- permission; the number returned is the length of the list; the grants of every other role and
  -- all other tables are as they were. A replacement that fails changes nothing.
  pub assign_permissions-Replaces :
      (text_length : Key → ℕ) (memo : Memo) (user id : Key) (ids : List Key) (k : Key)
      → Replaced t id ids k db (assign_permissions text_length memo user id ids (within t now) db)
  assign_permissions-Replaces text_length memo user id ids k =
      (assign_permissions-Settles text_length memo user id ids k).apply
