-- ===== src/Cart/Summary.antt =====
-- `enrichCart` of src/cart/cart.service.ts: the lines of a cart at the prices of the moment.
use business_platform.Prelude.{
  ℕ, ◌+◌, ◌*◌, List, Option, [], ◌∷◌, map, select, if◌then◌else◌, none, some, ◌==◌,
}
use business_platform.Prisma.{Prisma}
use business_platform.Schema.{
  Key, Instant, Text, Currency, Cart, CartItem, CartStatus, ProductVariant, VariantStatus, Price,
}
use business_platform.Platform.{
  Action, pure, ◌>>=◌, find_many, find_many_by, cart_item_model, product_variant_model, price_model,
}
use business_platform.Order.Defs.{includes}

pub record Amount : Type 0 where
  pub currency : Currency
  pub minor : ℕ

pub record VariantSummary : Type 0 where
  pub id : Key
  pub sku : Text
  pub name : Option Text
  pub status : VariantStatus

pub record CartItemSummary : Type 0 where
  pub id : Key
  pub variant_id : Key
  pub quantity : ℕ
  pub variant : Option VariantSummary
  pub prices : List Amount
  pub line_totals : List Amount

pub record CartSummary : Type 0 where
  pub id : Key
  pub tenant_id : Key
  pub user_id : Key
  pub status : CartStatus
  pub items : List CartItemSummary
  pub totals : List Amount
  pub created_at : Instant
  pub updated_at : Instant

-- `variantMap.get(id)`: of rows with one identifier, the last.
abbrev pub variant_of : List ProductVariant → Key → Option ProductVariant
variant_of [] id = none
variant_of (v ∷ vs) id =
    let later = variant_of vs id in
    elim later [ some w ↦ some w | none ↦ if v.id == id then some v else none ]

abbrev pub variant_summary : ProductVariant → VariantSummary
variant_summary v = record { id = v.id; sku = v.sku; name = v.name; status = v.status }

-- `priceMap.get(id) ?? []`
abbrev pub prices_of : List Price → Key → List Price
prices_of prices id = select (λ p. p.variant_id == id) prices

abbrev pub price_amount : Price → Amount
price_amount p = record { currency = p.currency; minor = p.amount_minor }

abbrev pub line_total : ℕ → Price → Amount
line_total q p = record { currency = p.currency; minor = p.amount_minor * q }

abbrev pub to_item_summary : List ProductVariant → List Price → CartItem → CartItemSummary
to_item_summary variants prices it = record {
  id = it.id;
  variant_id = it.variant_id;
  quantity = it.quantity;
  variant = elim (variant_of variants it.variant_id) [
    | none ↦ none
    | some v ↦ some (variant_summary v)
  ];
  prices = map price_amount (prices_of prices it.variant_id);
  line_totals = map (line_total it.quantity) (prices_of prices it.variant_id);
}

-- `totalsMap.set(cur, (totalsMap.get(cur) ?? 0n) + amount)`
abbrev pub add_amount : Currency → ℕ → List Amount → List Amount
add_amount c n [] = record { currency = c; minor = n } ∷ []
add_amount c n (a ∷ rest) =
    let others = add_amount c n rest in
    if a.currency == c then record a { minor = a.minor + n } ∷ rest else a ∷ others

-- The inner loop, over the prices of one item.
abbrev pub add_prices : ℕ → List Price → List Amount → List Amount
add_prices q [] totals = totals
add_prices q (p ∷ ps) totals = add_prices q ps (add_amount p.currency (p.amount_minor * q) totals)

-- The outer loop, over the items.
unfoldable pub totals_from : List Price → List Amount → List CartItem → List Amount
totals_from prices totals [] = totals
totals_from prices totals (it ∷ its) =
    totals_from prices (add_prices it.quantity (prices_of prices it.variant_id) totals) its

abbrev pub to_summary : Cart → List CartItemSummary → List Amount → CartSummary
to_summary c items totals = record {
  id = c.id;
  tenant_id = c.tenant_id;
  user_id = c.user_id;
  status = c.status;
  items = items;
  totals = totals;
  created_at = c.created_at;
  updated_at = c.updated_at;
}

abbrev pub variant_ids : List CartItem → List Key
variant_ids items = map (λ it. it.variant_id) items

module _ ⦃prisma : Prisma⦄ where
  -- The summary of a cart that has items.
  unfoldable pub price_items : Cart → List CartItem → Action CartSummary
  price_items cart items = do
    variants ← find_many product_variant_model (λ r. includes (variant_ids items) r.id)
    prices ← find_many price_model (λ r. includes (variant_ids items) r.variant_id)
    pure (
        to_summary cart (map (to_item_summary variants prices) items) (totals_from prices [] items))

  abbrev pub enrich_items : Cart → List CartItem → Action CartSummary
  enrich_items cart [] = pure (to_summary cart [] [])
  enrich_items cart (it ∷ its) = price_items cart (it ∷ its)

  unfoldable pub enrich_cart : Cart → Action CartSummary
  enrich_cart cart = do
    items ← find_many_by cart_item_model (λ r. r.created_at) (λ r. r.cart_id == cart.id)
    enrich_items cart items
