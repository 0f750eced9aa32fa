-- ===== src/Order/Defs.antt =====
-- The shapes of src/order/order.service.ts: inputs, summaries, and the aggregation by variant.
use business_platform.Prelude.{
  ℕ, ◌+◌, Bool, true, false, Option, none, some, List, [], ◌∷◌, map, ◌==◌, if◌then◌else◌,
}
use business_platform.Schema.{Key, Instant, Text, Currency, Order, OrderStatus, OrderItem}
use business_platform.Inventory.{InventoryScope}

pub record OrderItemInput : Type 0 where
  pub variant_id : Key
  pub quantity : ℕ

pub record CreateOrderDto : Type 0 where
  pub items : Option (List OrderItemInput)
  pub customer_id : Option Key
  pub booking_id : Option Key

pub record CreateOrderOptions : Type 0 where
  pub inventory_scope : Option InventoryScope
  pub booking_id : Option Key

-- No options: the tenant-global pool and no booking.
abbrev pub no_options : CreateOrderOptions
no_options = record { inventory_scope = none; booking_id = none }

pub record OrderItemSummary : Type 0 where
  pub id : Key
  pub variant_id : Key
  pub product_name : Option Text
  pub variant_name : Option Text
  pub sku : Text
  pub quantity : ℕ
  pub currency : Currency
  pub unit_amount_minor : ℕ
  pub line_total_minor : ℕ

pub record OrderSummary : Type 0 where
  pub id : Key
  pub tenant_id : Key
  pub user_id : Key
  pub customer_id : Option Key
  pub status : OrderStatus
  pub currency : Currency
  pub subtotal_minor : ℕ
  pub cancelled_at : Option Instant
  pub created_at : Instant
  pub updated_at : Instant
  pub items : List OrderItemSummary

abbrev pub item_summary : OrderItem → OrderItemSummary
item_summary it = record {
  id = it.id;
  variant_id = it.variant_id;
  product_name = it.product_name;
  variant_name = it.variant_name;
  sku = it.sku;
  quantity = it.quantity;
  currency = it.currency;
  unit_amount_minor = it.unit_amount_minor;
  line_total_minor = it.line_total_minor;
}

abbrev pub to_summary : Order → List OrderItem → OrderSummary
to_summary o items = record {
  id = o.id;
  tenant_id = o.tenant_id;
  user_id = o.user_id;
  customer_id = o.customer_id;
  status = o.status;
  currency = o.currency;
  subtotal_minor = o.subtotal_minor;
  cancelled_at = o.cancelled_at;
  created_at = o.created_at;
  updated_at = o.updated_at;
  items = map item_summary items;
}

-- A JavaScript `Map` from variants to quantities, in insertion order.
abbrev pub Quantities : Type 0
Quantities = List (Key × ℕ)

-- `map.set(v, (map.get(v) ?? 0) + q)`
abbrev pub add_quantity : Key → ℕ → Quantities → Quantities
add_quantity v q [] = (v, q) ∷ []
add_quantity v q ((k, n) ∷ m) = if k == v then (k, n + q) ∷ m else (k, n) ∷ add_quantity v q m

-- The loop of `aggregateItems`, from the map so far.
unfoldable pub aggregate_from : Quantities → List OrderItemInput → Quantities
aggregate_from m [] = m
aggregate_from m (it ∷ its) = aggregate_from (add_quantity it.variant_id it.quantity m) its

unfoldable pub aggregate_items : List OrderItemInput → Quantities
aggregate_items its = aggregate_from [] its

-- `map.keys()`
abbrev pub keys : Quantities → List Key
keys [] = []
keys ((k, n) ∷ m) = k ∷ keys m

-- `{ in: ids }`
abbrev pub includes : List Key → Key → Bool
includes [] k = false
includes (x ∷ xs) k = if k == x then true else includes xs k

-- `if (id)`: the empty string and null are falsy.
abbrev pub truthy : Option Key → Option Key
truthy none = none
truthy (some k) = if k == 0 then none else some k
