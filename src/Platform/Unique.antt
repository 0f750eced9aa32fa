-- ===== src/Platform/Unique.antt =====
-- What a primary key gives: rows of one identifier are one row.
use business_platform.Prelude.{
  Bool, Bool-cases, In, List, [], ap, arith, count, false, inl, inr, refl, set_where, sym, true, ℕ,
  ◌+◌, ◌==◌, ◌∙◌, ◌∷◌, ◌≡◌, ◌≤◌, ◌⊎◌,
}
use business_platform.Platform.Constraints.{clash, some_row}

module _ {A : Type 0} where
  pub some_row-In :
      (w : A → Bool) (rs : List A) (b : A) → some_row w rs ≡ false → In b rs → w b ≡ false
  some_row-In w [] b h i = elim i [ ]
  some_row-In w (x ∷ xs) b h (inl e) = ground (arith, ap w e)
  some_row-In w (x ∷ xs) b h (inr i) = ground (arith, some_row-In w xs b)

  module _ (id : A → ℕ) where
    -- No two rows of the table have the same identifier.
    abbrev pub IsKeyed : List A → Type 0
    IsKeyed rs = clash (λ a b. id a == id b) rs ≡ false

    pub same_row : (rs : List A) (a b : A) → IsKeyed rs → In a rs → In b rs → id a ≡ id b → a ≡ b
    same_row [] a b h i j e = elim i [ ]
    same_row (x ∷ xs) a b h (inl k) (inl l) e = k ∙ sym l
    same_row (x ∷ xs) a b h (inl k) (inr j) e =
        ground (arith, ap id k, some_row-In (λ y. id x == id y) xs b)
    same_row (x ∷ xs) a b h (inr i) (inl l) e =
        ground (arith, ap id l, some_row-In (λ y. id x == id y) xs a)
    same_row (x ∷ xs) a b h (inr i) (inr j) e = ground (arith, same_row xs a b)

    none_else :
        (w : A → Bool) (k : ℕ) (xs : List A)
        → ((r : A) → w r ≡ true → id r ≡ k)
        → some_row (λ y. k == id y) xs ≡ false
        → count w xs ≡ 0
    none_else w k [] h e = refl
    none_else w k (x ∷ xs) h e = ground (arith, h x, none_else w k xs h)

    pub count_le_one :
        (w : A → Bool) (k : ℕ)
        → ((r : A) → w r ≡ true → id r ≡ k)
        → (rs : List A) → IsKeyed rs
        → count w rs ≤ 1
    count_le_one w k h [] e = omega arith
    count_le_one w k h (x ∷ xs) e = elim (Bool-cases (w x)) [
      | inl fits ↦ rw fits (ground (arith, none_else w (id x) xs (λ r g. h r g ∙ sym (h x fits))))
      | inr out ↦ rw out (ground (arith, count_le_one w k h xs))
    ]

    pub count-none :
        (w : A → Bool) (rs : List A) → ((r : A) → In r rs → w r ≡ false) → count w rs ≡ 0
    count-none w [] h = refl
    count-none w (x ∷ xs) h = rw (h x (inl refl)) (count-none w xs (λ r i. h r (inr i)))

    -- Of the rows of one identifier, of which `d` is the first, none satisfies a stricter test that
    -- `d` does not.
    pub first-only :
        (q w : A → Bool) (k : ℕ) (rs : List A) (d : A)
        → IsKeyed rs
        → ((r : A) → q r ≡ true → id r ≡ k)
        → ((r : A) → w r ≡ true → q r ≡ true)
        → In d rs
        → q d ≡ true
        → w d ≡ false
        → count w rs ≡ 0
    first-only q w k rs d keyed same stricter i fits out = count-none w rs λ r j.
        elim (Bool-cases (w r)) [
          | inr e ↦ e
          | inl e ↦
              let one = same_row rs r d keyed j i (same r (stricter r e) ∙ sym (same d fits)) in
              ground (arith, ap w one)
        ]

-- How a count moves when rows are replaced.
module _ {A : Type 0} (q w : A → Bool) (f : A → A) where
  pub count-set_where_gain :
      (xs : List A)
      → ((r : A) → In r xs → w r ≡ true → (q r ≡ false) × (q (f r) ≡ true))
      → count q (set_where w f xs) ≡ count q xs + count w xs
  count-set_where_gain [] h = refl
  count-set_where_gain (x ∷ xs) h =
      let rest = count-set_where_gain xs (λ r i. h r (inr i)) in
      elim (Bool-cases (w x)) [
        | inl fits ↦
            let (before, after) = h x (inl refl) fits in
            rw (fits, before, after) (omega (arith, rest))
        | inr out ↦ rw out (ground (arith, rest))
      ]

  pub count-set_where_same :
      (xs : List A)
      → ((r : A) → In r xs → w r ≡ true → (q r ≡ false) × (q (f r) ≡ false))
      → count q (set_where w f xs) ≡ count q xs
  count-set_where_same [] h = refl
  count-set_where_same (x ∷ xs) h =
      let rest = count-set_where_same xs (λ r i. h r (inr i)) in
      elim (Bool-cases (w x)) [
        | inl fits ↦
            let (before, after) = h x (inl refl) fits in
            rw (fits, before, after) (omega (arith, rest))
        | inr out ↦ rw out (ground (arith, rest))
      ]

-- A row after the replacement, by the row that it was.
module _ {A : Type 0} (w : A → Bool) (f : A → A) where
  pub In-set_where :
      (xs : List A) (b : A)
      → In b (set_where w f xs)
      → (a : A) × In a xs × (((w a ≡ true) × (b ≡ f a)) ⊎ ((w a ≡ false) × (b ≡ a)))
  In-set_where [] b i = elim i [ ]
  In-set_where (x ∷ xs) b (inr i) = let (a, j, k) = In-set_where xs b i in (a, inr j, k)
  In-set_where (x ∷ xs) b (inl e) = elim (Bool-cases (w x)) [
    | inl fits ↦ (x, inl refl, inl (fits, rw fits at e))
    | inr out ↦ (x, inl refl, inr (out, rw out at e))
  ]

pub some_row-true :
    {A : Type 0} (w : A → Bool) (rs : List A) (b : A) → In b rs → w b ≡ true → some_row w rs ≡ true
some_row-true w [] b i h = elim i [ ]
some_row-true w (x ∷ xs) b (inl e) h = ground (arith, ap w e)
some_row-true w (x ∷ xs) b (inr i) h = ground (arith, some_row-true w xs b i h)

-- A write that leaves the identifiers alone leaves the rows as unique as they were.
module _ {A : Type 0} (id : A → ℕ) (w : A → Bool) (f : A → A)
    (same : (r : A) → id (f r) ≡ id r) where
  some_row-set_where :
      (k : ℕ) (rs : List A)
      → some_row (λ y. k == id y) (set_where w f rs) ≡ some_row (λ y. k == id y) rs
  some_row-set_where k [] = refl
  some_row-set_where k (x ∷ xs) = ground (arith, some_row-set_where k xs, same x)

  pub clash-set_where :
      (rs : List A)
      → clash (λ a b. id a == id b) (set_where w f rs) ≡ clash (λ a b. id a == id b) rs
  clash-set_where [] = refl
  clash-set_where (x ∷ xs) = ground (
    arith,
    clash-set_where xs,
    same x,
    some_row-set_where (id x) xs,
    some_row-set_where (id (f x)) xs,
  )

pub some_row-count :
    {A : Type 0} (id : A → ℕ) (k : ℕ) (rs : List A)
    → count (λ r. id r == k) rs ≡ 0
    → some_row (λ r. k == id r) rs ≡ false
some_row-count id k [] h = refl
some_row-count id k (x ∷ xs) h = ground (arith, some_row-count id k xs)
