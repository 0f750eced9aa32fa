-- ===== src/Pagination/Sorted.antt =====
-- That the order of a list leaves the database no choice: what a sorted query finds is fixed by the
-- rows that fit, if their identifiers are unique.
use business_platform.Prelude.{
  Bool, Bool-cases, In, In-select, List, [], ap, arith, count, count_pos, false, inl, inr, one_if,
  refl, select, subst, sum_of, sym, total-one_if, true, ℕ, ◌&&◌, ◌==◌, ◌∙◌, ◌∷◌, ◌≡◌, ◌≤◌,
}
use business_platform.Prisma.{Prisma, SortDirection, precedes, IsSorted}
use business_platform.Platform.Unique.{IsKeyed, same_row, count_le_one}
use business_platform.Pagination.Pages.{IsListed, after}

module _ {Row : Type 0} where
  sum_of-one_if : (v : Row → Bool) (rs : List Row) → sum_of (one_if v) rs ≡ count v rs
  sum_of-one_if v [] = refl
  sum_of-one_if v (x ∷ xs) = ground (arith, sum_of-one_if v xs)

  row_of_count :
      (v : Row → Bool) (rs : List Row) → 1 ≤ count v rs → (r : Row) × In r rs × (v r ≡ true)
  row_of_count v [] h = elim h [ ]
  row_of_count v (x ∷ xs) h = elim (Bool-cases (v x)) [
    | inl e ↦ (x, inl refl, e)
    | inr e ↦ let (r, i, fits) = row_of_count v xs (rw e at h) in (r, inr i, fits)
  ]

module _ {Row : Type 0} (primary id : Row → ℕ) (d : SortDirection) where
  after_trans :
      (a b c : Row)
      → after primary id d a b ≡ true
      → after primary id d b c ≡ true
      → after primary id d a c ≡ true
  after_trans a b c h k = ground arith

  after_not : (a b : Row) → after primary id d a b ≡ true → after primary id d b a ≡ false
  after_not a b h = ground arith

  after_self : (a : Row) → after primary id d a a ≡ false
  after_self a = ground arith

  after_total :
      (a b : Row)
      → precedes d primary id b a ≡ false
      → id b == id a ≡ false
      → after primary id d a b ≡ true
  after_total a b h k = ground arith

  -- Lists in the strict order with the same rows are equal.
  pub listed_unique :
      (xs ys : List Row)
      → IsListed primary id d xs
      → IsListed primary id d ys
      → ((r : Row) → In r xs → In r ys)
      → ((r : Row) → In r ys → In r xs)
      → xs ≡ ys
  listed_unique [] [] h k f g = refl
  listed_unique [] (y ∷ ys) h k f g = elim (g y (inl refl)) [ ]
  listed_unique (x ∷ xs) [] h k f g = elim (f x (inl refl)) [ ]
  listed_unique (x ∷ xs) (y ∷ ys) h k f g =
      let heads : x ≡ y = elim (f x (inl refl)) [
        | inl e ↦ e
        | inr i ↦ elim (g y (inl refl)) [
          | inl e ↦ sym e
          | inr j ↦ let one = k.0 x i in let two = after_not x y (h.0 y j) in ground arith
        ]
      ] in
      let tails : xs ≡ ys =
        listed_unique xs ys h.1 k.1
          (λ r i. elim (f r (inr i)) [
            | inl e ↦
                let late = h.0 r i in
                let same : r ≡ x = e ∙ sym heads in
                let self = after_self x in
                let clash = subst (λ z. after primary id d x z ≡ true) same late in ground arith
            | inr j ↦ j
          ])
          (λ r i. elim (g r (inr i)) [
            | inl e ↦
                let late = k.0 r i in
                let same : r ≡ y = e ∙ heads in
                let self = after_self y in
                let clash = subst (λ z. after primary id d y z ≡ true) same late in ground arith
            | inr j ↦ j
          ]) in
      ap (λ zs. x ∷ zs) tails ∙ ap (λ z. z ∷ ys) heads

  -- A sorted list with unique identifiers is in the strict order.
  sorted-IsListed :
      (xs : List Row)
      → ((k : ℕ) → count (λ r. id r == k) xs ≤ 1)
      → IsSorted (precedes d primary id) xs
      → IsListed primary id d xs
  sorted-IsListed [] once h = tt
  sorted-IsListed (x ∷ xs) once h = (
    (λ y i.
        after_total x y (h.0 y i)
          (ground (arith, once (id x), count_pos (λ r. id r == id x) xs y i))),
    sorted-IsListed xs (λ k. ground (arith, once k)) h.1,
  )

  select-In : (w : Row → Bool) (xs : List Row) (r : Row) → In r xs → w r ≡ true → In r (select w xs)
  select-In w [] r i h = elim i [ ]
  select-In w (x ∷ xs) r (inl e) h = rw (ap w (sym e) ∙ h) (inl e)
  select-In w (x ∷ xs) r (inr i) h = elim (Bool-cases (w x)) [
    | inl e ↦ rw e (inr (select-In w xs r i h))
    | inr e ↦ rw e (select-In w xs r i h)
  ]

  pub select-IsListed :
      (w : Row → Bool) (xs : List Row)
      → IsListed primary id d xs
      → IsListed primary id d (select w xs)
  select-IsListed w [] h = tt
  select-IsListed w (x ∷ xs) h = elim (Bool-cases (w x)) [
    | inl e ↦ rw e ((λ b i. h.0 b (In-select w xs b i).0), select-IsListed w xs h.1)
    | inr e ↦ rw e (select-IsListed w xs h.1)
  ]

  module _ ⦃prisma : Prisma⦄ (t : List Row) (keyed : IsKeyed id t) where
    -- What the sorted query finds.
    abbrev pub sorted : (Row → Bool) → List Row
    sorted w = prisma.find_many_sorted Row d primary id w t

    count-sorted : (w v : Row → Bool) → count v (sorted w) ≡ count (λ r. w r && v r) t
    count-sorted w v =
        sym (sum_of-one_if v (sorted w))
        ∙ prisma.find_many_sorted_total Row d primary id w (one_if v) t
        ∙ total-one_if w v t

    pub sorted-In : (w : Row → Bool) (r : Row) → In r t → w r ≡ true → In r (sorted w)
    sorted-In w r i h =
        let here = count_pos (λ y. w y && id y == id r) t r i (ground arith) in
        let (s, j, same) =
          row_of_count (λ y. id y == id r) (sorted w)
            (subst (λ n. 1 ≤ n) (sym (count-sorted w λ y. id y == id r)) here) in
        let (k, fits) = prisma.find_many_sorted_in Row d primary id w t s j in
        let one = same_row id t s r keyed k i (ground arith) in subst (λ y. In y (sorted w)) one j

    pub sorted_once-IsListed : (w : Row → Bool) → IsListed primary id d (sorted w)
    sorted_once-IsListed w =
        sorted-IsListed (sorted w)
          (λ k.
            subst (λ n. n ≤ 1) (sym (count-sorted w λ r. id r == k))
              (count_le_one id (λ r. w r && id r == k) k (λ r h. ground arith) t keyed))
          (prisma.find_many_sorted_order Row d primary id w t)

    -- A narrower query finds the same list with the other rows left out.
    pub sorted-select :
        (w v u : Row → Bool) → ((r : Row) → u r ≡ (w r && v r)) → sorted u ≡ select v (sorted w)
    sorted-select w v u both =
        listed_unique (sorted u) (select v (sorted w)) (sorted_once-IsListed u)
          (select-IsListed v (sorted w) (sorted_once-IsListed w))
          (λ r i.
            let (j, fits) = prisma.find_many_sorted_in Row d primary id u t r i in
            let fits_both = both r in
            select-In v (sorted w) r (sorted-In w r j (ground arith)) (ground arith))
          (λ r i.
            let (j, fits) = In-select v (sorted w) r i in
            let (k, fits') = prisma.find_many_sorted_in Row d primary id w t r j in
            let fits_both = both r in sorted-In u r k (ground arith))
