-- ===== src/Tests/Memory.antt =====
-- A client over lists: the statements as their laws say, and an order by insertion. It shows that
-- the laws hold of something, and the tests run on it.
use business_platform.Pagination.Listing.{Runtime}
use business_platform.Pos.Device.{Crypto}
use mathlib.Core.Option.{some-injective}
use business_platform.Prelude.{
  Bool, Bool-cases, drop_where, In, IsOrdered, List, Option, Option-cases, [], ap, arith, count,
  count_pos, false, first, if◌then◌else◌, inl, inr, leb, none, refl, select, set_where, some, subst,
  suc, sum_of, sym, total, true, ℕ, ◌+◌, ◌∷◌, ◌≡◌, ◌≤◌, length, ◌++◌, ◌⊎◌, ◌∙◌,
}
use business_platform.Prisma.{
  reply, Prisma, commit, fault, p2025, SortDirection, precedes, IsSorted,
}

module _ {Row : Type 0} where
  abbrev pub insert_by : (Row → ℕ) → Row → List Row → List Row
  insert_by key x [] = x ∷ []
  insert_by key x (y ∷ ys) =
      let rest = insert_by key x ys in if leb (key x) (key y) then x ∷ y ∷ ys else y ∷ rest

  abbrev pub select_by : (Row → ℕ) → (Row → Bool) → List Row → List Row
  select_by key w [] = []
  select_by key w (x ∷ xs) =
      let rest = select_by key w xs in if w x then insert_by key x rest else rest

  abbrev pub lesser : (Row → ℕ) → Row → Option Row → Row
  lesser key x none = x
  lesser key x (some y) = if leb (key x) (key y) then x else y

  abbrev pub least_by : (Row → ℕ) → (Row → Bool) → List Row → Option Row
  least_by key w [] = none
  least_by key w (x ∷ xs) =
      let rest = least_by key w xs in if w x then some (lesser key x rest) else rest

  pub sum_of-select :
      (w : Row → Bool) (f : Row → ℕ) (xs : List Row) → sum_of f (select w xs) ≡ total w f xs
  sum_of-select w f [] = refl
  sum_of-select w f (x ∷ xs) = ground (arith, sum_of-select w f xs)

  pub sum_of-insert_by :
      (key f : Row → ℕ) (x : Row) (xs : List Row)
      → sum_of f (insert_by key x xs) ≡ f x + sum_of f xs
  sum_of-insert_by key f x [] = refl
  sum_of-insert_by key f x (y ∷ ys) = ground (arith, sum_of-insert_by key f x ys)

  pub sum_of-select_by :
      (key : Row → ℕ) (w : Row → Bool) (f : Row → ℕ) (xs : List Row)
      → sum_of f (select_by key w xs) ≡ total w f xs
  sum_of-select_by key w f [] = refl
  sum_of-select_by key w f (x ∷ xs) =
      ground (arith, sum_of-insert_by key f x (select_by key w xs), sum_of-select_by key w f xs)

  pub insert_by-IsOrdered :
      (key : Row → ℕ) (x : Row) (xs : List Row)
      → IsOrdered key xs
      → IsOrdered key (insert_by key x xs)
  insert_by-IsOrdered key x [] h = ground arith
  insert_by-IsOrdered key x (y ∷ []) h = ground arith
  insert_by-IsOrdered key x (y ∷ z ∷ zs) h = ground (arith, insert_by-IsOrdered key x (z ∷ zs) h.1)

  pub select_by-IsOrdered :
      (key : Row → ℕ) (w : Row → Bool) (xs : List Row) → IsOrdered key (select_by key w xs)
  select_by-IsOrdered key w [] = ground arith
  select_by-IsOrdered key w (x ∷ xs) =
      let rest = select_by-IsOrdered key w xs in
      ground (arith, insert_by-IsOrdered key x (select_by key w xs) rest)

  pub least_by-none :
      (key : Row → ℕ) (w : Row → Bool) (xs : List Row) → least_by key w xs ≡ none → count w xs ≡ 0
  least_by-none key w [] h = refl
  least_by-none key w (x ∷ xs) h = ground (arith, least_by-none key w xs)

  -- `r` stands in the list, satisfies `w`, and no row that does has a smaller key.
  abbrev pub IsLeast : (Row → ℕ) → (Row → Bool) → List Row → Row → Type 0
  IsLeast key w xs r = In r xs × (w r ≡ true) × ((s : Row) → In s xs → w s ≡ true → key r ≤ key s)

  IsLeast-skip :
      (key : Row → ℕ) (w : Row → Bool) (x : Row) (xs : List Row) (r : Row)
      → w x ≡ false
      → IsLeast key w xs r
      → IsLeast key w (x ∷ xs) r
  IsLeast-skip key w x xs r out (i, h, m) =
      (inr i, h, λ s j k. elim j [ inl e ↦ ground (arith, ap w e) | inr j' ↦ m s j' k ])

  IsLeast-alone :
      (key : Row → ℕ) (w : Row → Bool) (x : Row) (xs : List Row)
      → w x ≡ true
      → count w xs ≡ 0
      → IsLeast key w (x ∷ xs) x
  IsLeast-alone key w x xs fits alone = (
    inl refl,
    fits,
    λ s j k. elim j [
      | inl e ↦ rw e (omega arith)
      | inr j' ↦ absurd (omega (arith, count_pos w xs s j' k))
    ],
  )

  lesser-first :
      (key : Row → ℕ) (x y : Row) → leb (key x) (key y) ≡ true → lesser key x (some y) ≡ x
  lesser-first key x y e = rw e refl

  lesser-second :
      (key : Row → ℕ) (x y : Row) → leb (key x) (key y) ≡ false → lesser key x (some y) ≡ y
  lesser-second key x y e = rw e refl

  IsLeast-lesser :
      (key : Row → ℕ) (w : Row → Bool) (x : Row) (xs : List Row) (y : Row)
      → w x ≡ true
      → IsLeast key w xs y
      → IsLeast key w (x ∷ xs) (lesser key x (some y))
  IsLeast-lesser key w x xs y fits (i, h, m) = elim (Bool-cases (leb (key x) (key y))) [
    | inl e ↦ subst (IsLeast key w (x ∷ xs)) (sym (lesser-first key x y e)) (
      inl refl,
      fits,
      λ s j k. elim j [ inl e' ↦ rw e' (omega arith) | inr j' ↦ ground (arith, m s j' k) ],
    )
    | inr e ↦
        subst (IsLeast key w (x ∷ xs)) (sym (lesser-second key x y e))
          (inr i, h, λ s j k. elim j [ inl e' ↦ rw e' (ground arith) | inr j' ↦ m s j' k ])
  ]

  pub least_by-IsLeast :
      (key : Row → ℕ) (w : Row → Bool) (xs : List Row) (r : Row)
      → least_by key w xs ≡ some r
      → IsLeast key w xs r
  least_by-IsLeast key w [] r h = ground arith
  least_by-IsLeast key w (x ∷ xs) r h = elim (Bool-cases (w x)) [
    | inr out ↦ IsLeast-skip key w x xs r out (least_by-IsLeast key w xs r (rw out at h))
    | inl fits ↦ elim (Option-cases (least_by key w xs)) [
      | inl e ↦
          subst (IsLeast key w (x ∷ xs)) (some-injective _ _ (rw (fits, e) at h))
            (IsLeast-alone key w x xs fits (least_by-none key w xs e))
      | inr (y, e) ↦
          subst (IsLeast key w (x ∷ xs)) (some-injective _ _ (rw (fits, e) at h))
            (IsLeast-lesser key w x xs y fits (least_by-IsLeast key w xs y e))
    ]
  ]

  pub first-some :
      (w : Row → Bool) (xs : List Row) (r : Row) → first w xs ≡ some r → In r xs × (w r ≡ true)
  first-some w [] r h = ground arith
  first-some w (x ∷ xs) r h = ground (arith, first-some w xs r)

  pub first-none : (w : Row → Bool) (xs : List Row) → first w xs ≡ none → count w xs ≡ 0
  first-none w [] h = refl
  first-none w (x ∷ xs) h = ground (arith, first-none w xs)

module _ {Row : Type 0} (d : SortDirection) (primary id : Row → ℕ) where
  abbrev pub insert_sorted : Row → List Row → List Row
  insert_sorted x [] = x ∷ []
  insert_sorted x (y ∷ ys) =
      let rest = insert_sorted x ys in if precedes d primary id y x then y ∷ rest else x ∷ y ∷ ys

  abbrev pub select_sorted : (Row → Bool) → List Row → List Row
  select_sorted w [] = []
  select_sorted w (x ∷ xs) =
      let rest = select_sorted w xs in if w x then insert_sorted x rest else rest

  sum_of-insert_sorted :
      (f : Row → ℕ) (x : Row) (xs : List Row) → sum_of f (insert_sorted x xs) ≡ f x + sum_of f xs
  sum_of-insert_sorted f x [] = refl
  sum_of-insert_sorted f x (y ∷ ys) = elim (Bool-cases (precedes d primary id y x)) [
    | inl e ↦ rw e (omega (arith, sum_of-insert_sorted f x ys))
    | inr e ↦ rw e refl
  ]

  pub sum_of-select_sorted :
      (w : Row → Bool) (f : Row → ℕ) (xs : List Row) → sum_of f (select_sorted w xs) ≡ total w f xs
  sum_of-select_sorted w f [] = refl
  sum_of-select_sorted w f (x ∷ xs) = elim (Bool-cases (w x)) [
    | inl e ↦
        rw e (
          omega (arith, sum_of-insert_sorted f x (select_sorted w xs), sum_of-select_sorted w f xs))
    | inr e ↦ rw e (omega (arith, sum_of-select_sorted w f xs))
  ]

  In-insert_sorted :
      (x : Row) (xs : List Row) (z : Row) → In z (insert_sorted x xs) → (z ≡ x) ⊎ In z xs
  In-insert_sorted x [] z i = i
  In-insert_sorted x (y ∷ ys) z i = elim (Bool-cases (precedes d primary id y x)) [
    | inl e ↦ elim (rw e at i) [
      | inl same ↦ inr (inl same)
      | inr j ↦ elim (In-insert_sorted x ys z j) [ inl here ↦ inl here | inr k ↦ inr (inr k) ]
    ]
    | inr e ↦ rw e at i
  ]

  pub In-select_sorted :
      (w : Row → Bool) (xs : List Row) (r : Row)
      → In r (select_sorted w xs)
      → In r xs × (w r ≡ true)
  In-select_sorted w [] r i = elim i [ ]
  In-select_sorted w (x ∷ xs) r i = elim (Bool-cases (w x)) [
    | inl e ↦ elim (In-insert_sorted x (select_sorted w xs) r (rw e at i)) [
      | inl same ↦ (inl same, ap w same ∙ e)
      | inr j ↦ let (k, fits) = In-select_sorted w xs r j in (inr k, fits)
    ]
    | inr e ↦ let (k, fits) = In-select_sorted w xs r (rw e at i) in (inr k, fits)
  ]

  precedes_asym : (x y : Row) → precedes d primary id y x ≡ true → precedes d primary id x y ≡ false
  precedes_asym x y h = ground arith

  precedes_through :
      (x y z : Row)
      → precedes d primary id y x ≡ false
      → precedes d primary id z y ≡ false
      → precedes d primary id z x ≡ false
  precedes_through x y z h k = ground arith

  insert_sorted-IsSorted :
      (x : Row) (xs : List Row)
      → IsSorted (precedes d primary id) xs
      → IsSorted (precedes d primary id) (insert_sorted x xs)
  insert_sorted-IsSorted x [] h = ((λ y i. elim i [ ]), tt)
  insert_sorted-IsSorted x (y ∷ ys) h = elim (Bool-cases (precedes d primary id y x)) [
    | inl e ↦ rw e (
      (λ z i. elim (In-insert_sorted x ys z i) [
        | inl same ↦ subst (λ r. precedes d primary id r y ≡ false) (sym same) (precedes_asym x y e)
        | inr j ↦ h.0 z j
      ]),
      insert_sorted-IsSorted x ys h.1,
    )
    | inr e ↦ rw e (
      (λ z i. elim i [
        | inl same ↦ subst (λ r. precedes d primary id r x ≡ false) (sym same) e
        | inr j ↦ precedes_through x y z e (h.0 z j)
      ]),
      h,
    )
  ]

  pub select_sorted-IsSorted :
      (w : Row → Bool) (xs : List Row) → IsSorted (precedes d primary id) (select_sorted w xs)
  select_sorted-IsSorted w [] = tt
  select_sorted-IsSorted w (x ∷ xs) = elim (Bool-cases (w x)) [
    | inl e ↦ rw e (insert_sorted-IsSorted x (select_sorted w xs) (select_sorted-IsSorted w xs))
    | inr e ↦ rw e (select_sorted-IsSorted w xs)
  ]

instance abbrev pub in_memory : Prisma
in_memory = record {
  new_id = suc;
  find_unique = λ Row w t. first w t;
  find_first = λ Row w t. first w t;
  find_many = λ Row w t. select w t;
  find_first_by = λ Row key w t. least_by key w t;
  find_many_by = λ Row key w t. select_by key w t;
  find_many_sorted = λ Row d primary id w t. select_sorted d primary id w t;
  create = λ Row check r t. commit check r (r ∷ t);
  create_many = λ Row check rs t. commit check (length rs) (rs ++ t);
  update = λ Row check w f t. elim (first w t) [
    | none ↦ fault p2025
    | some r ↦ commit check (f r) (set_where w f t)
  ];
  update_many = λ Row check w f t. commit check (count w t) (set_where w f t);
  delete = λ Row w t. elim (first w t) [ none ↦ fault p2025 | some r ↦ reply (r, drop_where w t) ];
  delete_many = λ Row w t. reply (count w t, drop_where w t);
  new_id-injective = λ i j h. omega arith;
  new_id_pos = λ i. omega arith;
  find_unique_lem = λ Row w t. refl;
  find_first_some = λ Row w t r h. first-some w t r h;
  find_first_none = λ Row w t h. first-none w t h;
  find_many_total = λ Row w f t. sum_of-select w f t;
  find_first_by_some = λ Row key w t r h. least_by-IsLeast key w t r h;
  find_first_by_none = λ Row key w t h. least_by-none key w t h;
  find_many_by_total = λ Row key w f t. sum_of-select_by key w f t;
  find_many_by_ordered = λ Row key w t. select_by-IsOrdered key w t;
  find_many_sorted_total = λ Row d primary id w f t. sum_of-select_sorted d primary id w f t;
  find_many_sorted_in = λ Row d primary id w t r i. In-select_sorted d primary id w t r i;
  find_many_sorted_order = λ Row d primary id w t. select_sorted-IsSorted d primary id w t;
  create_lem = λ Row check r t. refl;
  create_many_lem = λ Row check rs t. refl;
  update_lem = λ Row check w f t. refl;
  update_many_lem = λ Row check w f t. refl;
  delete_lem = λ Row w t. refl;
  delete_many_lem = λ Row w t. refl;
}

-- Digests and secrets for the tests.
instance abbrev pub numbers : Crypto
numbers = record { sha256_hex = λ t. t + 300; random_secret = λ n. n; byte_length = λ t. 64 }

instance abbrev pub runtime_of_tests : Runtime
runtime_of_tests = record { to_iso_string = λ i. i; digest = λ fields. 5; parse_date = λ t. none }
