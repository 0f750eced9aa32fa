-- ===== src/Rbac/Owners.antt =====
-- That a tenant never loses its last active owner.
use business_platform.Platform.Leaves.{Leaves}
use business_platform.Platform.Facts.{owned, owned_values, update_cases}
use business_platform.Prelude.{
  Bool, Bool-cases, In, List, Option, Option-cases, [], ap, arith, count, false, first, inl, inr,
  length, none, not, one_if, refl, select, set_where, some, sum_of, total-one_if, true, ℕ, ◌&&◌,
  ◌+◌, ◌==◌, ◌∙◌, ◌∷◌, ◌≡◌, ◌≤◌,
}
use business_platform.Prisma.{Prisma}
use business_platform.Schema.{Db, Key, Instant, Membership, Role}
use business_platform.Platform.{
  ok, within, find_related, Result, Message, transaction, update, membership_model, ◌>>◌, Action,
  Context, or_throw, Error,
}
use business_platform.Platform.Constraints.{some_row}
use business_platform.Platform.Unique.{IsKeyed, same_row, count-none, count_le_one}
use business_platform.Rbac.Role.{
  is_owner_key, is_owner_role, is_active_owner, role_of, assert_not_last_active_owner,
}

-- How many active owners tenant `t` has.
abbrev pub active_owners : Key → Db → ℕ
active_owners t db = count (is_active_owner t db) db.memberships

length-select : {A : Type 0} (w : A → Bool) (rs : List A) → length (select w rs) ≡ count w rs
length-select w [] = refl
length-select w (x ∷ xs) = ground (arith, length-select w xs)

-- A replacement loses at most the replaced rows.
pub count-set_where_loss :
    {A : Type 0} (q w : A → Bool) (f : A → A) (rs : List A)
    → count q rs ≤ count q (set_where w f rs) + count w rs
count-set_where_loss q w f [] = omega arith
count-set_where_loss q w f (x ∷ xs) = ground (arith, count-set_where_loss q w f xs)

-- A replacement that keeps the test loses none.
pub count-set_where_keeps :
    {A : Type 0} (q w : A → Bool) (f : A → A) (rs : List A)
    → ((r : A) → In r rs → w r ≡ true → q r ≡ true → q (f r) ≡ true)
    → count q rs ≤ count q (set_where w f rs)
count-set_where_keeps q w f [] h = omega arith
count-set_where_keeps q w f (x ∷ xs) h =
    let rest = count-set_where_keeps q w f xs (λ r i. h r (inr i)) in
    elim (Bool-cases (w x)) [
      | inl fits ↦ elim (Bool-cases (q x)) [
        | inl e ↦ let kept = h x (inl refl) fits e in ground arith
        | inr e ↦ ground arith
      ]
      | inr out ↦ ground arith
    ]

some_row-In :
    {A : Type 0} (w : A → Bool) (rs : List A)
    → some_row w rs ≡ true
    → (r : A) × In r rs × (w r ≡ true)
some_row-In w [] h = ground arith
some_row-In w (x ∷ xs) h = elim (Bool-cases (w x)) [
  | inl e ↦ (x, inl refl, e)
  | inr e ↦ let (r, i, k) = some_row-In w xs (ground arith) in (r, inr i, k)
]

first-sum_of :
    {A : Type 0} (v : A → Bool) (rs : List A) (r : A)
    → first (λ x. true) rs ≡ some r
    → sum_of (one_if v) rs ≡ 0
    → v r ≡ false
first-sum_of v [] r e h = ground arith
first-sum_of v (x ∷ xs) r e h = ground arith

module _ ⦃prisma : Prisma⦄ (t : Key) (now : Instant) where
  -- The role of an owner's membership is an owner role.
  pub role_of-owner :
      (db : Db) (m : Membership) (r : Role) (db' : Db)
      → IsKeyed (λ (x : Role). x.id) db.roles
      → is_active_owner t db m ≡ true
      → role_of m (within t now) db ≡ (ok r, db')
      → is_owner_key r.key ≡ true
  unfolding role_of find_related
  role_of-owner db m r db' keyed owner found =
      let w = λ (x : Role). x.id == m.role_id in
      let v = λ (x : Role). not (is_owner_key x.key) in
      let roles = prisma.find_many Role w db.roles in
      let (o, i, k) = some_row-In (is_owner_role t m.role_id) db.roles (ground arith) in
      let none_else : count (λ x. w x && v x) db.roles ≡ 0 =
        count-none (λ (x : Role). x.id) (λ x. w x && v x) db.roles
          λ x j. elim (Bool-cases (w x && v x)) [
            | inr e ↦ e
            | inl e ↦
                let one = same_row (λ (y : Role). y.id) db.roles x o keyed j i (ground arith) in
                ground (arith, ap (λ y. is_owner_key y.key) one)
          ] in
      let zero_sum : sum_of (one_if v) roles ≡ 0 =
        prisma.find_many_total Role w (one_if v) db.roles ∙ total-one_if w v db.roles ∙ none_else in
      elim (Option-cases (first (λ (x : Role). true) roles)) [
        | inl e ↦ ground arith
        | inr (c, e) ↦
            let is_c : c ≡ r = ground arith in
            ground (arith, first-sum_of v roles c e zero_sum, ap (λ y. is_owner_key y.key) is_c)
      ]

-- Identifiers of memberships and of roles are unique.
abbrev pub HasKeyedMembers : Db → Type 0
HasKeyedMembers db =
    IsKeyed (λ (m : Membership). m.id) db.memberships × IsKeyed (λ (r : Role). r.id) db.roles

-- There is an active owner after an action.
abbrev pub HasOwner : {A : Type 0} → Key → Result A × Db → Type 0
HasOwner t (r, db') = 1 ≤ active_owners t db'

module _ ⦃prisma : Prisma⦄ (t : Key) (now : Instant) (k : Key) (f : Membership → Membership) where
  abbrev changed_row : Membership → Bool
  changed_row = owned membership_model t λ m. m.id == k

  abbrev change : Membership → Membership
  change = owned_values membership_model t now f

  -- An update that keeps the owners among the rows that it changes.
  pub update-HasOwner :
      (db : Db)
      → ((m : Membership)
          → In m db.memberships
          → changed_row m ≡ true
          → is_active_owner t db m ≡ true
          → is_active_owner t db (change m) ≡ true)
      → 1 ≤ active_owners t db
      → HasOwner t (update membership_model (λ m. m.id == k) f (within t now) db)
  update-HasOwner db keeps_owner some_owner = ground (
    arith,
    update_cases membership_model refl t now db (λ m. m.id == k) f,
    count-set_where_keeps (is_active_owner t db) changed_row change db.memberships keeps_owner,
  )

  -- A change that is made only if there are two active owners or more.
  pub guarded-HasOwner :
      (message : Message) (db : Db)
      → IsKeyed (λ (m : Membership). m.id) db.memberships
      → 1 ≤ active_owners t db
      → HasOwner t (
          transaction
            (assert_not_last_active_owner t message >> update membership_model (λ m. m.id == k) f)
            (within t now)
            db)
  unfolding assert_not_last_active_owner
  guarded-HasOwner message db keyed some_owner = ground (
    arith,
    length-select (is_active_owner t db) db.memberships,
    update_cases membership_model refl t now db (λ m. m.id == k) f,
    count-set_where_loss (is_active_owner t db) changed_row change db.memberships,
    count_le_one (λ (m : Membership). m.id) changed_row k (λ m h. ground arith) db.memberships
        keyed,
  )

-- From the database `db`, the action leaves an active owner.
abbrev pub LeavesOwner : {A : Type 0} → Key → Instant → Db → Action A → Type 0
LeavesOwner t now db m = Leaves (within t now) (λ d. 1 ≤ active_owners t d) db m

pub or_throw-some :
    {A : Type 0} (o : Option A) (e : Error) (c : Context) (db db' : Db) (a : A)
    → or_throw o e c db ≡ (ok a, db')
    → o ≡ some a
or_throw-some none e c db db' a h = ground arith
or_throw-some (some b) e c db db' a h = ground arith
