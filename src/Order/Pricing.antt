-- ===== src/Order/Pricing.antt =====
-- The price loop of `createOrder`: the first variant's first price sets the currency, and every
-- variant needs a price in it.
use business_platform.Prelude.{ℕ, ◌+◌, ◌*◌, Option, none, some, List, [], ◌∷◌, ◌==◌, first, select}
use business_platform.Schema.{Key, Currency, Price}
use business_platform.Platform.{Result, ok, err, conflict, price_not_found, currency_mismatch}
use business_platform.Order.Defs.{Quantities}

-- One entry of `aggregated` with its entries in `unitPrices` and `lineTotals`, which are maps over
-- the same variants.
pub record PricedLine : Type 0 where
  pub variant_id : Key
  pub quantity : ℕ
  pub unit_amount : ℕ
  pub line_total : ℕ

abbrev pub priced : Key → ℕ → Price → PricedLine
priced v q p = record {
  variant_id = v;
  quantity = q;
  unit_amount = p.amount_minor;
  line_total = p.amount_minor * q;
}

-- The lines and the target currency, which is absent only while there is no line.
abbrev pub Priced : Type 0
Priced = List PricedLine × Option Currency

abbrev pub add_line : PricedLine → Result Priced → Result Priced
add_line l (ok (ls, c)) = ok (l ∷ ls, c)
add_line l (err e) = err e

-- `vPrices.find((p) => p.currency === targetCurrency)` and its refusal.
abbrev pub pick_price : Currency → List Price → Result Price
pick_price c ps = elim (first (λ p. p.currency == c) ps) [
  | none ↦ err (conflict currency_mismatch)
  | some p ↦ ok p
]

-- `if (targetCurrency === null) targetCurrency = vPrices[0].currency`, for the prices `p ∷ ps`.
abbrev pub target_currency : Option Currency → Price → Currency
target_currency none p = p.currency
target_currency (some c) p = c

unfoldable pub price_lines : List Price → Option Currency → Quantities → Result Priced
price_lines prices target [] = ok ([], target)
price_lines prices target ((v, q) ∷ m) = elim (select (λ p. p.variant_id == v) prices) [
  | [] ↦ err (conflict price_not_found)
  | p ∷ ps ↦ elim (pick_price (target_currency target p) (p ∷ ps)) [
    | err e ↦ err e
    | ok found ↦
        add_line (priced v q found) (price_lines prices (some (target_currency target p)) m)
  ]
]

-- The loop that sums the line totals.
abbrev pub subtotal_from : ℕ → List PricedLine → ℕ
subtotal_from acc [] = acc
subtotal_from acc (l ∷ ls) = subtotal_from (acc + l.line_total) ls
