-- ===== src/Pos/Validation.antt =====
-- `validateIntent` of src/pos/pos-sync.service.ts: an offline sale against the catalog, the prices and
-- the stock of the server.
use business_platform.Prelude.{
  Bool, List, Option, [], if◌then◌else◌, length, ltb, map, none, not, same_option, some, true, ℕ,
  ◌&&◌, ◌++◌, ◌==◌, ◌∷◌,
}
use business_platform.Prisma.{Prisma}
use business_platform.Schema.{Key, Currency, PosOperationItem, ResultCode, Price, Inventory}
use business_platform.Platform.{
  Action, pure, if_found, ◌>>=◌, find_first, find_many, product_variant_model, price_model,
  inventory_model,
}
use business_platform.Order.{Quantities, OrderItemInput, aggregate_items, includes}
use business_platform.Order.Creating.{all_active}
use business_platform.Pos.Operation.{OperationWithItems}

-- `Array.from(new Set(ids))`
abbrev pub distinct_from : List Key → List Key → List Key
distinct_from seen [] = seen
distinct_from seen (k ∷ ks) = distinct_from (if includes seen k then seen else seen ++ k ∷ []) ks

-- `priceMap.get(v)?.get(c)`: of rows with one variant and currency, the last.
abbrev pub server_price : List Price → Key → Currency → Option ℕ
server_price [] v c = none
server_price (p ∷ ps) v c = elim (server_price ps v c) [
  | some n ↦ some n
  | none ↦ if p.variant_id == v && p.currency == c then some p.amount_minor else none
]

-- A line against the price of the server.
abbrev pub check_price : List Price → PosOperationItem → Option ResultCode
check_price prices l = elim (server_price prices l.variant_id l.currency) [
  | none ↦ some ResultCode.price_not_found
  | some n ↦ if n == l.observed_unit_amount_minor then none else some ResultCode.price_changed
]

-- `if (targetCurrency === null) targetCurrency = line.currency`
abbrev pub line_currency : Option Currency → Currency → Currency
line_currency none c = c
line_currency (some t) c = t

-- The loop over the lines, with the currency of the first.
unfoldable pub check_lines :
    List Price → Option Currency → List PosOperationItem → Option ResultCode
check_lines prices target [] = none
check_lines prices target (l ∷ ls) =
    let currency = line_currency target l.currency in
    let rest = check_lines prices (some currency) ls in
    if l.currency == currency
    then elim (check_price prices l) [ none ↦ rest | some e ↦ some e ]
    else some ResultCode.currency_mix

abbrev pub sale_item : PosOperationItem → OrderItemInput
sale_item it = record { variant_id = it.variant_id; quantity = it.quantity }

abbrev pub short_of : ℕ → Option Inventory → Bool
short_of q none = true
short_of q (some r) = ltb r.quantity_on_hand q

module _ ⦃prisma : Prisma⦄ where
  -- The loop over `aggregated.entries()`.
  unfoldable pub check_stock : Key → Quantities → Action (Option ResultCode)
  check_stock store_id [] = pure none
  check_stock store_id ((v, q) ∷ m) = do
    row ←
        find_first inventory_model
          (λ r. r.variant_id == v && same_option r.store_id (some store_id))
    if short_of q row then pure (some ResultCode.out_of_stock) else check_stock store_id m

  -- The lines of an intent against the variants, the prices and the stock of the moment.
  unfoldable pub validate_lines :
      Key → List Key → List PosOperationItem → Action (Option ResultCode)
  validate_lines store_id variant_ids items = do
    variants ← find_many product_variant_model (λ r. includes variant_ids r.id)
    if not (length variants == length variant_ids)
        then pure (some ResultCode.variant_not_found)
        else if not (all_active variants)
        then pure (some ResultCode.variant_not_active)
        else (do
          prices ← find_many price_model (λ r. includes variant_ids r.variant_id)
          if_found (check_lines prices none items)
              (check_stock store_id (aggregate_items (map sale_item items)))
              λ code. pure (some code))

  unfoldable pub validate_intent : OperationWithItems → Action (Option ResultCode)
  validate_intent o =
      if length o.items == 0
      then pure (some ResultCode.empty_intent)
      else validate_lines o.operation.store_id
          (distinct_from [] (map (λ (it : PosOperationItem). it.variant_id) o.items)) o.items
