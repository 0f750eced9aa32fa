-- ===== src/Order/Cancelling.antt =====
-- `cancelOrder` of src/order/order.service.ts.
use business_platform.Prelude.{
  ℕ, ◌+◌, Bool, true, false, Option, none, some, List, [], ◌∷◌, ◌&&◌, ◌==◌, same_option,
  if◌then◌else◌,
}
use business_platform.Prisma.{Prisma}
use business_platform.Schema.{Key, OrderStatus, Inventory, OrderItem, PosSale}
use business_platform.Platform.{
  not_found, conflict, order_not_found, not_pending, Action, pure, or_throw, throw_if, if_found,
  transaction, ◌>>=◌, ◌>>◌, require_tenant_id, find_unique, find_first, find_many, find_many_by,
  create, update_many, fresh_id, current_time, inventory_model, order_model, order_item_model,
  pos_sale_model,
}
use business_platform.Payment.{is_pending}
use business_platform.Order.Defs.{OrderSummary, to_summary, Quantities, add_quantity}

-- The pool that a restock goes to.
abbrev pub restock_where : Key → Option Key → Inventory → Bool
restock_where v s r = r.variant_id == v && same_option r.store_id s

abbrev pub restocked : ℕ → Inventory → Inventory
restocked q r = record r { quantity_on_hand = r.quantity_on_hand + q }

-- The aggregation of the order's items.
unfoldable pub item_quantities_from : Quantities → List OrderItem → Quantities
item_quantities_from m [] = m
item_quantities_from m (it ∷ its) =
    item_quantities_from (add_quantity it.variant_id it.quantity m) its

-- `posSale?.storeId ?? null`
abbrev pub restock_store : Option PosSale → Option Key
restock_store none = none
restock_store (some sale) = some sale.store_id

module _ ⦃prisma : Prisma⦄ where
  -- One round of the restock loop.
  unfoldable pub restock : Option Key → Key → ℕ → Action (Unit {0})
  restock s v q = do
    existing ← find_first inventory_model (restock_where v s)
    if_found existing
        (do
          tenant_id ← require_tenant_id
          id ← fresh_id
          now ← current_time
          create inventory_model record {
            id = id;
            tenant_id = tenant_id;
            variant_id = v;
            store_id = s;
            quantity_on_hand = q;
            created_at = now;
            updated_at = now;
          }
          pure tt)
        (λ r. do update_many inventory_model (restock_where v s) (restocked q); pure tt)

  unfoldable pub restock_all : Option Key → Quantities → Action (Unit {0})
  restock_all s [] = pure tt
  restock_all s ((v, q) ∷ m) = restock s v q >> restock_all s m

  -- The order's status, flipped once.
  unfoldable pub mark_cancelled : Key → Action (Unit {0})
  mark_cancelled id = do
    now ← current_time
    count ←
        update_many order_model (λ r. r.id == id && is_pending r.status)
          (λ r. record r { status = OrderStatus.cancelled; cancelled_at = some now })
    throw_if (count == 0) (conflict not_pending)

  -- The order's items, back into the pool that they came from.
  unfoldable pub put_back_items : Key → Action (Unit {0})
  put_back_items id = do
    sale ← find_unique pos_sale_model (λ r. r.order_id == id)
    items ← find_many order_item_model (λ r. r.order_id == id)
    restock_all (restock_store sale) (item_quantities_from [] items)

  unfoldable pub reread_order : Key → Action OrderSummary
  reread_order id = do
    fresh ← find_unique order_model (λ r. r.id == id)
    order ← or_throw fresh (not_found order_not_found)
    fresh_items ← find_many_by order_item_model (λ r. r.created_at) (λ r. r.order_id == id)
    pure (to_summary order fresh_items)

  unfoldable pub cancel_order_in : Key → Action OrderSummary
  cancel_order_in id = do mark_cancelled id; put_back_items id; reread_order id

  unfoldable pub cancel_order : Key → Action OrderSummary
  cancel_order id = do
    require_tenant_id
    found ← find_unique order_model (λ r. r.id == id)
    order ← or_throw found (not_found order_not_found)
    throw_if (if is_pending order.status then false else true) (conflict not_pending)
    transaction (cancel_order_in id)
