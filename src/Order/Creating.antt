-- ===== src/Order/Creating.antt =====
-- `createOrder` and `getOrder` of src/order/order.service.ts.
use business_platform.Prelude.{
  ℕ, ◌-◌, Bool, true, false, Option, none, some, List, [], ◌∷◌, map, ◌&&◌, ◌==◌, leb, not,
  same_option, length, first,
}
use business_platform.Prisma.{Prisma}
use business_platform.Schema.{
  Key, Currency, VariantStatus, CartStatus, OrderStatus, ProductVariant, Product, Inventory,
  CartItem,
}
use business_platform.Platform.{
  not_found, conflict, bad_request, type_error, variant_not_found, variant_not_active,
  price_not_found, insufficient_stock, cart_empty, customer_not_found, booking_already_linked,
  order_not_found, Action, pure, or_throw, throw_if, returns, when_given, transaction, ◌>>=◌, ◌>>◌,
  require_tenant_id, find_unique, find_first_by, find_many, find_many_by, create, update,
  update_many, fresh_id, current_time, cart_model, cart_item_model, customer_model,
  product_variant_model, price_model, product_model, inventory_model, order_model, order_item_model,
  booking_model,
}
use business_platform.Inventory.{scope_store}
use business_platform.Order.Defs.{
  OrderItemInput, CreateOrderDto, CreateOrderOptions, OrderSummary, to_summary, Quantities,
  aggregate_items, keys, includes, truthy,
}
use business_platform.Order.Pricing.{PricedLine, Priced, price_lines, subtotal_from}

abbrev pub is_active : VariantStatus → Bool
is_active VariantStatus.active = true
is_active VariantStatus.archived = false

abbrev pub is_open : CartStatus → Bool
is_open CartStatus.opened = true
is_open CartStatus.converted = false

-- `options?.inventoryScope?.kind === 'store' ? options.inventoryScope.storeId : null`
abbrev pub pool_store : CreateOrderOptions → Option Key
pool_store o = elim o.inventory_scope [ none ↦ none | some scope ↦ scope_store scope ]

abbrev pub cart_input : CartItem → OrderItemInput
cart_input ci = record { variant_id = ci.variant_id; quantity = ci.quantity }

-- The rows that `inventory.updateMany` may take `q` units of `v` from.
abbrev pub holds : Key → Option Key → ℕ → Inventory → Bool
holds v s q r = (r.variant_id == v && same_option r.store_id s) && leb q r.quantity_on_hand

abbrev pub taken : ℕ → Inventory → Inventory
taken q r = record r { quantity_on_hand = r.quantity_on_hand - q }

unfoldable pub all_active : List ProductVariant → Bool
all_active [] = true
all_active (v ∷ vs) = is_active v.status && all_active vs

module _ ⦃prisma : Prisma⦄ where
  -- The items of the caller's open cart, and the cart.
  unfoldable pub cart_items : Key → Action (List OrderItemInput × Option Key)
  cart_items user_id = do
    found ←
        find_first_by cart_model (λ r. r.created_at) (λ r. r.user_id == user_id && is_open r.status)
    cart ← or_throw found (bad_request cart_empty)
    items ← find_many cart_item_model (λ r. r.cart_id == cart.id)
    throw_if (length items == 0) (bad_request cart_empty)
    pure (map cart_input items, some cart.id)

  -- `if (dto.items && dto.items.length > 0)`: the given items, or the cart's.
  unfoldable pub input_items :
      Key → Option (List OrderItemInput) → Action (List OrderItemInput × Option Key)
  unfolding cart_items
  input_items user_id (some (it ∷ its)) = pure (it ∷ its, none)
  input_items user_id (some []) = cart_items user_id
  input_items user_id none = cart_items user_id

  unfoldable pub check_customer : Key → Action (Unit {0})
  check_customer id = do
    found ← find_unique customer_model (λ r. r.id == id)
    or_throw found (not_found customer_not_found)
    pure tt

  -- The guarded decrement of one pool.
  unfoldable pub take_stock : Option Key → Key → ℕ → Action (Unit {0})
  take_stock s v q = do
    count ← update_many inventory_model (holds v s q) (taken q)
    throw_if (count == 0) (conflict insufficient_stock)

  -- The loop over `aggregated.entries()`.
  unfoldable pub take_all : Option Key → Quantities → Action (Unit {0})
  take_all s [] = pure tt
  take_all s ((v, q) ∷ m) = take_stock s v q >> take_all s m

  -- The conditional link of a booking to the new order.
  unfoldable pub link_booking : Key → Key → Action (Unit {0})
  link_booking order_id id = do
    count ←
        update_many booking_model (λ r. r.id == id && same_option r.order_id none)
          (λ r. record r { order_id = some order_id })
    throw_if (count == 0) (conflict booking_already_linked)

  unfoldable pub create_line :
      Key → Key → Currency → List ProductVariant → List Product → PricedLine → Action (Unit {0})
  create_line tenant_id order_id currency variants products l = do
    variant ← or_throw (first (λ r. r.id == l.variant_id) variants) type_error
    id ← fresh_id
    now ← current_time
    create order_item_model record {
      id = id;
      tenant_id = tenant_id;
      order_id = order_id;
      variant_id = l.variant_id;
      product_name = elim (first (λ r. r.id == variant.product_id) products) [
        | none ↦ none
        | some p ↦ some p.name
      ];
      variant_name = variant.name;
      sku = variant.sku;
      quantity = l.quantity;
      currency = currency;
      unit_amount_minor = l.unit_amount;
      line_total_minor = l.line_total;
      created_at = now;
    }
    pure tt

  unfoldable pub create_lines :
      Key
      → Key
      → Currency
      → List ProductVariant
      → List Product
      → List PricedLine
      → Action (Unit {0})
  create_lines t o c vs ps [] = pure tt
  create_lines t o c vs ps (l ∷ ls) = create_line t o c vs ps l >> create_lines t o c vs ps ls

  -- The writes of the transaction that follow the stock.
  unfoldable pub write_order :
      Key
      → Key
      → CreateOrderDto
      → CreateOrderOptions
      → Option Key
      → List ProductVariant
      → List Product
      → List PricedLine
      → Currency
      → Action OrderSummary
  write_order tenant_id user_id dto options cart_to_convert variants products lines currency = do
    id ← fresh_id
    now ← current_time
    order ← create order_model record {
      id = id;
      tenant_id = tenant_id;
      user_id = user_id;
      customer_id = dto.customer_id;
      status = OrderStatus.pending;
      currency = currency;
      subtotal_minor = subtotal_from 0 lines;
      cancelled_at = none;
      created_at = now;
      updated_at = now;
    }
    when_given (truthy options.booking_id) (link_booking order.id)
    create_lines tenant_id order.id currency variants products lines
    when_given (truthy cart_to_convert) (λ cart. do
      update cart_model (λ r. r.id == cart) (λ r. record r { status = CartStatus.converted })
      pure tt)
    items ← find_many_by order_item_model (λ r. r.created_at) (λ r. r.order_id == order.id)
    pure (to_summary order items)

  -- The reads of the transaction: the variants, which must be known and active, and the lines.
  unfoldable pub priced_variants : Quantities → Action (List ProductVariant × Priced)
  priced_variants aggregated = do
    variants ← find_many product_variant_model (λ r. includes (keys aggregated) r.id)
    throw_if (not (length variants == length (keys aggregated))) (not_found variant_not_found)
    throw_if (not (all_active variants)) (conflict variant_not_active)
    prices ← find_many price_model (λ r. includes (keys aggregated) r.variant_id)
    lines ← returns (price_lines prices none aggregated)
    pure (variants, lines)

  abbrev pub product_ids : List ProductVariant → List Key
  product_ids vs = map (λ v. v.product_id) vs

  unfoldable pub create_order_in :
      Key
      → Key
      → CreateOrderDto
      → CreateOrderOptions
      → Option Key
      → Quantities
      → Action OrderSummary
  create_order_in tenant_id user_id dto options cart_to_convert aggregated = do
    found ← priced_variants aggregated
    currency ← or_throw found.1.1 (conflict price_not_found)
    products ← find_many product_model (λ r. includes (product_ids found.0) r.id)
    take_all (pool_store options) aggregated
    write_order tenant_id user_id dto options cart_to_convert found.0 products found.1.0 currency

  unfoldable pub create_order : Key → CreateOrderDto → CreateOrderOptions → Action OrderSummary
  create_order user_id dto options = do
    tenant_id ← require_tenant_id
    input ← input_items user_id dto.items
    when_given dto.customer_id check_customer
    transaction (create_order_in tenant_id user_id dto options input.1 (aggregate_items input.0))

  unfoldable pub get_order : Key → Action OrderSummary
  get_order id = do
    require_tenant_id
    found ← find_unique order_model (λ r. r.id == id)
    order ← or_throw found (not_found order_not_found)
    items ← find_many_by order_item_model (λ r. r.created_at) (λ r. r.order_id == order.id)
    pure (to_summary order items)
