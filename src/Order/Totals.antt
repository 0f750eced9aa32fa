-- ===== src/Order/Totals.antt =====
-- What `createOrder` charges: the lines that its pricing loop computes, and their sum.
use business_platform.Prelude.{
  Bool, In, In-select, List, Option, [], ap, arith, first_cases, inl, inr, refl, select, some,
  subst, sum_of, sym, ℕ, ◌*◌, ◌+◌, ◌==◌, ◌∙◌, ◌∷◌, ◌≡◌, ◌⊎◌,
}
use business_platform.Schema.{Key, Currency, Price}
use business_platform.Platform.{Result-cases, ok}
use business_platform.Order.Defs.{Quantities}
use business_platform.Order.Pricing.{
  PricedLine, priced, pick_price, target_currency, price_lines, subtotal_from,
}

-- A price of the variant `v` in the currency `c`.
abbrev pub IsPriceOf : List Price → Key → Option Currency → Price → Type 0
IsPriceOf prices v c p = In p prices × (p.variant_id ≡ v) × (c ≡ some p.currency)

-- One line for each entry, in order: its variant and quantity, the amount of a price of that variant
-- in the one currency `c`, and their product.
abbrev pub AreLines : List Price → Option Currency → Quantities → List PricedLine → Type 0
AreLines prices c [] [] = Unit
AreLines prices c ((v, q) ∷ m) (l ∷ ls) =
    ((p : Price) × IsPriceOf prices v c p × (l.unit_amount ≡ p.amount_minor))
    × (l.variant_id ≡ v)
    × (l.quantity ≡ q)
    × (l.line_total ≡ l.unit_amount * q)
    × AreLines prices c m ls
AreLines prices c [] (l ∷ ls) = ⊥
AreLines prices c (e ∷ m) [] = ⊥

pick_price-first :
    (c : Currency) (ps : List Price) (p : Price)
    → pick_price c ps ≡ ok p
    → In p ps × (p.currency ≡ c)
pick_price-first c ps p h = elim (first_cases (λ (r : Price). r.currency == c) ps) [
  | inl (none_there, k) ↦ ground arith
  | inr (r, e, i, k) ↦
      let same : r ≡ p = ground arith in
      subst (λ x. In x ps × (x.currency ≡ c)) same (i, ground arith)
]

select_cases :
    (w : Price → Bool) (ps : List Price)
    → (select w ps ≡ []) ⊎ ((r : Price) × (rs : List Price) × (select w ps ≡ r ∷ rs))
select_cases w ps = go (select w ps)
  where
    go : (l : List Price) → (l ≡ []) ⊎ ((r : Price) × (rs : List Price) × (l ≡ r ∷ rs))
    go [] = inl refl
    go (r ∷ rs) = inr (r, rs, refl)

-- One round of a loop that succeeds.
abbrev Round :
    List Price → Option Currency → Key → ℕ → Quantities → List PricedLine → Option Currency → Type 0
Round prices target v q m ls c =
    (p : Price) × (ps : List Price) × (found : Price) × (ls' : List PricedLine) × (select
        (λ (r : Price). r.variant_id == v) prices
      ≡ p ∷ ps)
    × (pick_price (target_currency target p) (p ∷ ps) ≡ ok found)
    × (price_lines prices (some (target_currency target p)) m ≡ ok (ls', c))
    × (ls ≡ priced v q found ∷ ls')

price_lines-Round :
    (prices : List Price) (target : Option Currency) (v q : ℕ) (m : Quantities)
    (ls : List PricedLine) (c : Option Currency)
    → price_lines prices target ((v, q) ∷ m) ≡ ok (ls, c)
    → Round prices target v q m ls c
unfolding price_lines
price_lines-Round prices target v q m ls c h =
    elim (select_cases (λ (r : Price). r.variant_id == v) prices) [
      | inl e ↦ ground arith
      | inr (p, ps, e) ↦ elim (Result-cases (pick_price (target_currency target p) (p ∷ ps))) [
        | inr (x, refused) ↦ ground arith
        | inl (found, picked) ↦
            elim (Result-cases (price_lines prices (some (target_currency target p)) m)) [
              | inr (x, refused) ↦ ground arith
              | inl ((ls', c'), rest) ↦ (p, ps, found, ls', e, picked, ground arith, ground arith)
            ]
      ]
    ]

-- The currency does not change once it is set.
price_lines-currency :
    (prices : List Price) (c : Currency) (m : Quantities) (ls : List PricedLine)
    (c' : Option Currency)
    → price_lines prices (some c) m ≡ ok (ls, c')
    → c' ≡ some c
unfolding price_lines
price_lines-currency prices c [] ls c' h = ground arith
price_lines-currency prices c ((v, q) ∷ m) ls c' h =
    let (p, ps, found, ls', e, picked, rest, split) =
      price_lines-Round prices (some c) v q m ls c' h in
    price_lines-currency prices c m ls' c' rest

price_lines-AreLines :
    (prices : List Price) (target : Option Currency) (m : Quantities) (ls : List PricedLine)
    (c : Option Currency)
    → price_lines prices target m ≡ ok (ls, c)
    → AreLines prices c m ls
unfolding price_lines
price_lines-AreLines prices target [] ls c h =
    let same : [] ≡ ls = ground arith in subst (AreLines prices c []) same tt
price_lines-AreLines prices target ((v, q) ∷ m) ls c h =
    let (p, ps, found, ls', e, picked, rest, split) =
      price_lines-Round prices target v q m ls c h in
    let (i, k) = pick_price-first (target_currency target p) (p ∷ ps) found picked in
    let w = λ (r : Price). r.variant_id == v in
    let (there, fits) = In-select w prices found (subst (In found) (sym e) i) in
    let kept = price_lines-currency prices (target_currency target p) m ls' c rest in
    subst (AreLines prices c ((v, q) ∷ m)) (sym split) (
      (found, (there, ground arith, kept ∙ ap some (sym k)), refl),
      refl,
      refl,
      refl,
      price_lines-AreLines prices (some (target_currency target p)) m ls' c rest,
    )

-- The subtotal is the sum of the line totals.
subtotal_from-sum_of :
    (acc : ℕ) (ls : List PricedLine)
    → subtotal_from acc ls ≡ acc + sum_of (λ (l : PricedLine). l.line_total) ls
subtotal_from-sum_of acc [] = omega arith
subtotal_from-sum_of acc (l ∷ ls) = omega (arith, subtotal_from-sum_of (acc + l.line_total) ls)

-- If the pricing loop succeeds, it yields one line for each variant, in order, each at a price of
-- its variant, all in one currency, and each total is the unit amount times the quantity; and the
-- subtotal that the order is charged is the sum of the line totals.
pub price_lines-charges :
    (prices : List Price) (target : Option Currency) (m : Quantities) (ls : List PricedLine)
    (c : Option Currency)
    → price_lines prices target m ≡ ok (ls, c)
    → AreLines prices c m ls × (subtotal_from 0 ls ≡ sum_of (λ (l : PricedLine). l.line_total) ls)
price_lines-charges prices target m ls c h =
    (price_lines-AreLines prices target m ls c h, omega (arith, subtotal_from-sum_of 0 ls))
