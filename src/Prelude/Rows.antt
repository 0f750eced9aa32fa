-- ===== src/Prelude/Rows.antt =====
-- Lists of rows: selection by a Boolean predicate, replacement, sums and counts.
use Prim.Native.Nat.{ℕ, zero, suc, ◌+◌, ◌*◌, ◌≤◌, ◌<◌}
use mathlib.Core.Path.{◌≡◌, refl, ap, ◌∙◌, subst}
use mathlib.Core.Logic.{◌⊎◌, inl, inr}
use mathlib.Core.Bool.{Bool, true, false, ◌&&◌}
use mathlib.Core.Option.{Option, none, some}
use mathlib.Core.List.{List, [], ◌∷◌}
use native.Mathlib.Omega.{arith}
use business_platform.Prelude.Tests.{if◌then◌else◌, Bool-cases}

module _ {ℓ} {A : Type ℓ} where
  abbrev pub length : List A → ℕ
  length [] = 0
  length (x ∷ xs) = suc (length xs)

  -- The first row that satisfies `w`.
  abbrev pub first : (A → Bool) → List A → Option A
  first w [] = none
  first w (x ∷ xs) = if w x then some x else first w xs

  -- How many rows satisfy `w`.
  abbrev pub count : (A → Bool) → List A → ℕ
  count w [] = 0
  count w (x ∷ xs) = if w x then suc (count w xs) else count w xs

  -- The rows that satisfy `w`.
  abbrev pub select : (A → Bool) → List A → List A
  select w [] = []
  select w (x ∷ xs) = if w x then x ∷ select w xs else select w xs

  -- Every row that satisfies `w` is replaced by its image under `f`.
  abbrev pub set_where : (A → Bool) → (A → A) → List A → List A
  set_where w f [] = []
  set_where w f (x ∷ xs) = (if w x then f x else x) ∷ set_where w f xs

  -- The rows that do not satisfy `w`.
  abbrev pub drop_where : (A → Bool) → List A → List A
  drop_where w [] = []
  drop_where w (x ∷ xs) = if w x then drop_where w xs else x ∷ drop_where w xs

  -- The first `n` rows.
  abbrev pub take : ℕ → List A → List A
  take zero xs = []
  take (suc n) [] = []
  take (suc n) (x ∷ xs) = x ∷ take n xs

  -- The sum of `f` over the rows that satisfy `w`.
  abbrev pub total : (A → Bool) → (A → ℕ) → List A → ℕ
  total w f [] = 0
  total w f (x ∷ xs) = (if w x then f x else 0) + total w f xs

-- The sum of `f` over all rows.
abbrev pub sum_of {ℓ} : {A : Type ℓ} → (A → ℕ) → List A → ℕ
sum_of f [] = 0
sum_of f (x ∷ xs) = f x + sum_of f xs

-- `r` stands in the list.
abbrev pub In : {A : Type 0} → A → List A → Type 0
In r [] = ⊥
In r (x ∷ xs) = (r ≡ x) ⊎ In r xs

-- Each key is at most the next.
abbrev pub IsOrdered {ℓ} : {A : Type ℓ} → (A → ℕ) → List A → Type 0
IsOrdered key [] = Unit
IsOrdered key (x ∷ xs) = (elim xs [ [] ↦ Unit | y ∷ ys ↦ key x ≤ key y ]) × IsOrdered key xs

-- How replacing rows changes a count or a sum.
module _ {A : Type 0} where
  pub set_where-none :
      (w : A → Bool) (f : A → A) (xs : List A) → count w xs ≡ 0 → set_where w f xs ≡ xs
  set_where-none w f [] h = refl
  set_where-none w f (x ∷ xs) h = ground (arith, set_where-none w f xs)

  pub total-none : (w : A → Bool) (f : A → ℕ) (xs : List A) → count w xs ≡ 0 → total w f xs ≡ 0
  total-none w f [] h = refl
  total-none w f (x ∷ xs) h = ground (arith, total-none w f xs)

  -- Each replaced row stays in the sum, and its summand moves by `p` up and `n` down.
  pub total-set_where :
      (q w : A → Bool) (f : A → A) (val : A → ℕ) (p n : ℕ)
      → ((r : A) → w r ≡ true → (q r ≡ true) × (q (f r) ≡ true) × (val (f r) + n ≡ val r + p))
      → (xs : List A)
      → total q val (set_where w f xs) + count w xs * n ≡ total q val xs + count w xs * p
  total-set_where q w f val p n h [] = omega arith
  total-set_where q w f val p n h (x ∷ xs) = elim (Bool-cases (w x)) [
    | inl e ↦
        rw (e, (h x e).0, (h x e).1) (omega (arith, (h x e).2, total-set_where q w f val p n h xs))
    | inr e ↦ rw e (omega (arith, total-set_where q w f val p n h xs))
  ]

  -- The replaced rows are outside of the sum, before and after.
  pub total-set_where_outside :
      (q w : A → Bool) (f : A → A) (val : A → ℕ)
      → ((r : A) → w r ≡ true → (q r ≡ false) × (q (f r) ≡ false))
      → (xs : List A) → total q val (set_where w f xs) ≡ total q val xs
  total-set_where_outside q w f val h [] = refl
  total-set_where_outside q w f val h (x ∷ xs) = elim (Bool-cases (w x)) [
    | inl e ↦ rw (e, (h x e).0, (h x e).1) (omega (arith, total-set_where_outside q w f val h xs))
    | inr e ↦ rw e (omega (arith, total-set_where_outside q w f val h xs))
  ]

  pub first_cases :
      (w : A → Bool) (xs : List A)
      → ((first w xs ≡ none) × (count w xs ≡ 0))
        ⊎ ((r : A) × (first w xs ≡ some r) × In r xs × (w r ≡ true))
  first_cases w [] = inl (refl, refl)
  first_cases w (x ∷ xs) = elim (Bool-cases (w x)) [
    | inl e ↦ inr (x, rw e, inl refl, e)
    | inr e ↦ elim (first_cases w xs) [
      | inl (n, c) ↦ inl (rw e n, rw e c)
      | inr (r, s, i, h) ↦ inr (r, rw e s, inr i, h)
    ]
  ]

-- A stricter test selects no more rows.
module _ {A : Type 0} where
  pub count_le :
      (w q : A → Bool)
      → ((r : A) → w r ≡ true → q r ≡ true)
      → (xs : List A) → count w xs ≤ count q xs
  count_le w q h [] = omega arith
  count_le w q h (x ∷ xs) = elim (Bool-cases (w x)) [
    | inl e ↦ rw (e, h x e) (omega (arith, count_le w q h xs))
    | inr e ↦ rw e (ground (arith, count_le w q h xs))
  ]

  -- The images of the replaced rows that satisfy `q` are counted.
  pub count-set_where_le :
      (w q : A → Bool) (f : A → A)
      → ((r : A) → w r ≡ true → q (f r) ≡ true)
      → (xs : List A) → count w xs ≤ count q (set_where w f xs)
  count-set_where_le w q f h [] = omega arith
  count-set_where_le w q f h (x ∷ xs) = elim (Bool-cases (w x)) [
    | inl e ↦ rw (e, h x e) (omega (arith, count-set_where_le w q f h xs))
    | inr e ↦ rw e (ground (arith, count-set_where_le w q f h xs))
  ]

  -- A row of the list that satisfies `w` is counted.
  pub count_pos : (w : A → Bool) (xs : List A) (r : A) → In r xs → w r ≡ true → 0 < count w xs
  count_pos w [] r i h = elim i [ ]
  count_pos w (x ∷ xs) r (inl e) h = rw (← e, h) (omega arith)
  count_pos w (x ∷ xs) r (inr i) h = ground (arith, count_pos w xs r i h)

-- Replacing rows that satisfy `q` keeps the place of the first that does.
pub first-set_where :
    {A : Type 0} (q w : A → Bool) (f : A → A)
    → ((r : A) → w r ≡ true → (q r ≡ true) × (q (f r) ≡ true))
    → (xs : List A) (r : A) → first q xs ≡ some r
    → w r ≡ true
    → first q (set_where w f xs) ≡ some (f r)
first-set_where q w f h [] r e k = ground arith
first-set_where q w f h (x ∷ xs) r e k = ground (arith, h x, first-set_where q w f h xs r)

-- A test as a measure: its sum is a count.
abbrev pub one_if : {A : Type 0} → (A → Bool) → A → ℕ
one_if w r = if w r then 1 else 0

pub total-one_if :
    {A : Type 0} (w v : A → Bool) (rs : List A) → total w (one_if v) rs ≡ count (λ r. w r && v r) rs
total-one_if w v [] = refl
total-one_if w v (x ∷ xs) = ground (arith, total-one_if w v xs)

pub In-select :
    {A : Type 0} (w : A → Bool) (xs : List A) (r : A) → In r (select w xs) → In r xs × (w r ≡ true)
In-select w [] r i = elim i [ ]
In-select w (x ∷ xs) r i = elim (Bool-cases (w x)) [
  | inl e ↦ elim (rw e at i) [
    | inl same ↦ (inl same, ap w same ∙ e)
    | inr j ↦ let (k, fits) = In-select w xs r j in (inr k, fits)
  ]
  | inr e ↦ let (k, fits) = In-select w xs r (rw e at i) in (inr k, fits)
]

-- The first row that fits is there and fits.
pub first_fits :
    {A : Type 0} (w : A → Bool) (xs : List A) (r : A) → first w xs ≡ some r → In r xs × (w r ≡ true)
first_fits w xs r e = elim (first_cases w xs) [
  | inl (missing, k) ↦ ground arith
  | inr (x, found, i, k) ↦
      let same : x ≡ r = ground arith in subst (λ y. In y xs × (w y ≡ true)) same (i, k)
]
