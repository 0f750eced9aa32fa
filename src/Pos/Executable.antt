-- ===== src/Pos/Executable.antt =====
-- What an offline sale that passes `validateIntent` may rely on.
use business_platform.Pos.Operation.{OperationWithItems}
use business_platform.Order.Creating.{all_active}
use business_platform.Prelude.{
  Bool, Bool-cases, In, List, Option, Option-cases, [], arith, count, if◌then◌else◌, inl, inr,
  length, ltb, map, none, refl, same_option, same_option→eq, some, sum_of, total, true, ℕ, ◌&&◌,
  ◌<◌, ◌==◌, ◌∷◌, ◌≡◌, ◌≤◌,
}
use business_platform.Prisma.{Prisma}
use business_platform.Schema.{
  Db, Key, Instant, Currency, PosOperationItem, Price, Inventory, ProductVariant,
}
use business_platform.Platform.{ok, within, inventory_model, price_model, product_variant_model}
use business_platform.Platform.Facts.{find_first_cases, owned, find_many_eq}
use business_platform.Order.{Quantities, includes, aggregate_items}
use business_platform.Pos.Validation.{
  check_lines, check_price, check_stock, server_price, distinct_from, sale_item, validate_intent,
  validate_lines,
}

-- The store of the sale has `q` units of `v` in a row of tenant `t`.
abbrev pub InStock : Key → Key → Db → Key → ℕ → Type 0
InStock t store db v q =
    (r : Inventory) × In r db.inventories
    × (r.tenant_id ≡ t)
    × (r.variant_id ≡ v)
    × (r.store_id ≡ some store)
    × (q ≤ r.quantity_on_hand)

abbrev pub AllInStock : Key → Key → Db → Quantities → Type 0
AllInStock t store db [] = Unit
AllInStock t store db ((v, q) ∷ m) = InStock t store db v q × AllInStock t store db m

-- Every line is in the currency `c`, at the price that `price` gives its variant in it.
abbrev pub AtPrices : (Key → Currency → Option ℕ) → Currency → List PosOperationItem → Type 0
AtPrices price c [] = Unit
AtPrices price c (l ∷ ls) =
    (l.currency ≡ c)
    × (price l.variant_id c ≡ some l.observed_unit_amount_minor)
    × AtPrices price c ls

check_price-passes :
    (prices : List Price) (l : PosOperationItem)
    → check_price prices l ≡ none
    → server_price prices l.variant_id l.currency ≡ some l.observed_unit_amount_minor
check_price-passes prices l h = elim (Option-cases (server_price prices l.variant_id l.currency)) [
  | inl e ↦ ground arith
  | inr (n, e) ↦ ground arith
]

check_lines-passes :
    (prices : List Price) (c : Currency) (ls : List PosOperationItem)
    → check_lines prices (some c) ls ≡ none
    → AtPrices (server_price prices) c ls
unfolding check_lines
check_lines-passes prices c [] h = tt
check_lines-passes prices c (l ∷ ls) h =
    let rest = check_lines-passes prices c ls in
    elim (Bool-cases (l.currency == c)) [
      | inr other ↦ ground arith
      | inl same ↦ elim (Option-cases (check_price prices l)) [
        | inr (code, e) ↦ ground arith
        | inl e ↦
            let at_price = check_price-passes prices l e in
            let eq : l.currency ≡ c = ground arith in (eq, rw eq at at_price, rest (ground arith))
      ]
    ]

module _ ⦃prisma : Prisma⦄ (t : Key) (now : Instant) where
  check_stock-passes :
      (store : Key) (m : Quantities) (db : Db)
      → (check_stock store m (within t now) db).0 ≡ ok none
      → AllInStock t store db m
  unfolding check_stock
  check_stock-passes store [] db h = tt
  check_stock-passes store ((v, q) ∷ m) db h =
      let rest = check_stock-passes store m db in
      elim (find_first_cases inventory_model refl t now db
        (λ r. r.variant_id == v && same_option r.store_id (some store))) [
          | inl (e, z) ↦ ground arith
          | inr (r, e, i, own) ↦ elim (Bool-cases (ltb r.quantity_on_hand q)) [
            | inl short ↦ ground arith
            | inr enough ↦ (
              (
                r,
                i,
                ground arith,
                ground arith,
                same_option→eq r.store_id (some store) (ground arith),
                ground arith,
              ),
              rest (ground arith),
            )
          ]
        ]

-- Tenant `t` has a price row for `v` in the currency `c` of just `n`.
abbrev pub is_price : Key → Key → Currency → ℕ → Price → Bool
is_price t v c n p =
    (p.variant_id == v && p.currency == c) && (p.amount_minor == n && p.tenant_id == t)

abbrev pub AreOnSale : Key → Db → Currency → List PosOperationItem → Type 0
AreOnSale t db c [] = Unit
AreOnSale t db c (l ∷ ls) =
    (l.currency ≡ c)
    × (0 < count (is_price t l.variant_id c l.observed_unit_amount_minor) db.prices)
    × AreOnSale t db c ls

abbrev matches : Key → Currency → ℕ → Price → ℕ
matches v c n p = if p.variant_id == v && p.currency == c && p.amount_minor == n then 1 else 0

server_price-matches :
    (ps : List Price) (v : Key) (c : Currency) (n : ℕ)
    → server_price ps v c ≡ some n
    → 0 < sum_of (matches v c n) ps
server_price-matches [] v c n h = ground arith
server_price-matches (p ∷ ps) v c n h = elim (Option-cases (server_price ps v c)) [
  | inr (m, e) ↦ ground (arith, server_price-matches ps v c n)
  | inl e ↦ ground arith
]

total-matches :
    (w : Price → Bool) (t v : Key) (c : Currency) (n : ℕ)
    → ((p : Price) → w p ≡ true → p.tenant_id ≡ t)
    → (ps : List Price) → total w (matches v c n) ps ≤ count (is_price t v c n) ps
total-matches w t v c n h [] = omega arith
total-matches w t v c n h (p ∷ ps) = ground (arith, h p, total-matches w t v c n h ps)

-- An intent that may be executed: lines in one currency at the tenant's prices, and the store has
-- what they ask for together, of each variant.
abbrev pub IsExecutable : Key → OperationWithItems → Db → Type 0
IsExecutable t o db =
    (0 < length o.items)
    × ((c : Currency) × AreOnSale t db c o.items)
    × AllInStock t o.operation.store_id db (aggregate_items (map sale_item o.items))

module _ ⦃prisma : Prisma⦄ (t : Key) (now : Instant) where
  -- The prices that are read for the variants `ids`.
  abbrev read_prices : List Key → Db → List Price
  read_prices ids db =
      prisma.find_many Price (owned price_model t λ r. includes ids r.variant_id) db.prices

  AtPrices-AreOnSale :
      (ids : List Key) (db : Db) (c : Currency) (ls : List PosOperationItem)
      → AtPrices (server_price (read_prices ids db)) c ls
      → AreOnSale t db c ls
  AtPrices-AreOnSale ids db c [] h = tt
  AtPrices-AreOnSale ids db c (l ∷ ls) (same, price, rest) =
      let w = owned price_model t λ r. includes ids r.variant_id in
      let n = l.observed_unit_amount_minor in
      (
        same,
        omega (
          arith,
          server_price-matches (read_prices ids db) l.variant_id c n price,
          prisma.find_many_total Price w (matches l.variant_id c n) db.prices,
          total-matches w t l.variant_id c n (λ p k. ground arith) db.prices,
        ),
        AtPrices-AreOnSale ids db c ls rest,
      )

  -- The first line sets the currency.
  check_lines-AtPrices :
      (prices : List Price) (ls : List PosOperationItem)
      → check_lines prices none ls ≡ none
      → 0 < length ls
      → (c : Currency) × AtPrices (server_price prices) c ls
  unfolding check_lines
  check_lines-AtPrices prices [] h k = ground arith
  check_lines-AtPrices prices (l ∷ ls) h k =
      (l.currency, check_lines-passes prices l.currency (l ∷ ls) h)

  validate_lines-passes :
      (store : Key) (ids : List Key) (items : List PosOperationItem) (db : Db)
      → (validate_lines store ids items (within t now) db).0 ≡ ok none
      → (check_lines (read_prices ids db) none items ≡ none)
        × ((check_stock store (aggregate_items (map sale_item items)) (within t now) db).0
            ≡ ok none)
  unfolding validate_lines
  validate_lines-passes store ids items db h =
      let vs =
        prisma.find_many ProductVariant (owned product_variant_model t λ r. includes ids r.id)
          db.variants in
      let read_variants =
        find_many_eq product_variant_model refl t now db
          λ (r : ProductVariant). includes ids r.id in
      let read = find_many_eq price_model refl t now db λ (r : Price). includes ids r.variant_id in
      elim (Bool-cases (length vs == length ids)) [
        | inr unknown ↦ ground arith
        | inl known ↦ elim (Bool-cases (all_active vs)) [
          | inr inactive ↦ ground arith
          | inl active ↦ elim (Option-cases (check_lines (read_prices ids db) none items)) [
            | inr (code, e) ↦ ground arith
            | inl e ↦ (e, ground arith)
          ]
        ]
      ]

  -- If the validation of an offline sale finds nothing to reject, the sale has lines, all in one
  -- currency, the tenant has for each a price row of just the amount that the device observed, and
  -- the session's store has on hand what the lines ask for of each variant together.
  pub validate_intent-IsExecutable :
      (o : OperationWithItems) (db : Db)
      → (validate_intent o (within t now) db).0 ≡ ok none
      → IsExecutable t o db
  unfolding validate_intent
  validate_intent-IsExecutable o db h = elim (Bool-cases (length o.items == 0)) [
    | inl empty ↦ ground arith
    | inr lines ↦
        let store = o.operation.store_id in
        let ids = distinct_from [] (map (λ (it : PosOperationItem). it.variant_id) o.items) in
        let nonempty : 0 < length o.items = ground arith in
        let (priced, stocked) = validate_lines-passes store ids o.items db (ground arith) in
        let (c, at_prices) = check_lines-AtPrices (read_prices ids db) o.items priced nonempty in
        (
          nonempty,
          (c, AtPrices-AreOnSale ids db c o.items at_prices),
          check_stock-passes t now store (aggregate_items (map sale_item o.items)) db stocked,
        )
  ]
