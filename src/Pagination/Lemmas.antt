-- ===== src/Pagination/Lemmas.antt =====
-- Lists, for the walk through the pages of a list.
use business_platform.Prelude.{
  Bool, In, List, Option-cases, [], ap, arith, inl, inr, length, refl, select, some, sum_of, total,
  true, ℕ, ◌++◌, ◌+◌, ◌∷◌, ◌≡◌, ◌≤◌,
}
use business_platform.Pagination.{fetch_page, last}

module _ {Row : Type 0} where
  pub In-append : (xs ys : List Row) (r : Row) → In r xs → In r (xs ++ ys)
  In-append [] ys r i = elim i [ ]
  In-append (x ∷ xs) ys r (inl e) = inl e
  In-append (x ∷ xs) ys r (inr i) = inr (In-append xs ys r i)

  pub append_nothing : (xs : List Row) → xs ++ [] ≡ xs
  append_nothing [] = refl
  append_nothing (x ∷ xs) = ap (λ ys. x ∷ ys) (append_nothing xs)

  pub length-append : (xs ys : List Row) → length (xs ++ ys) ≡ length xs + length ys
  length-append [] ys = omega arith
  length-append (x ∷ xs) ys = ground (arith, length-append xs ys)

  pub last-In : (xs : List Row) (y : Row) → last xs ≡ some y → In y xs
  last-In [] y h = ground arith
  last-In (x ∷ xs) y h = elim (Option-cases (last xs)) [
    | inl e ↦ inl (ground arith)
    | inr (z, e) ↦ inr (last-In xs y (ground arith))
  ]

  pub In-length : (xs : List Row) (y : Row) → In y xs → 1 ≤ length xs
  In-length [] y i = elim i [ ]
  In-length (x ∷ xs) y i = omega arith

  pub fetch_page-last :
      (found page : List Row) (limit : ℕ) (y : Row)
      → fetch_page found limit ≡ (page, some y)
      → last page ≡ some y
  fetch_page-last found page limit y h = ground arith

  pub select-select :
      (v s : Row → Bool) (xs : List Row)
      → ((r : Row) → v r ≡ true → s r ≡ true)
      → select v (select s xs) ≡ select v xs
  select-select v s [] h = refl
  select-select v s (x ∷ xs) h = ground (arith, h x, select-select v s xs h)

  pub select_all : (xs : List Row) → select (λ r. true) xs ≡ xs
  select_all [] = refl
  select_all (x ∷ xs) = ap (λ ys. x ∷ ys) (select_all xs)

  pub length-sum_of : (xs : List Row) → length xs ≡ sum_of (λ r. 1) xs
  length-sum_of [] = refl
  length-sum_of (x ∷ xs) = ground (arith, length-sum_of xs)

  pub length-total : (w : Row → Bool) (xs : List Row) → total w (λ r. 1) xs ≤ length xs
  length-total w [] = omega arith
  length-total w (x ∷ xs) = ground (arith, length-total w xs)
