-- ===== src/Inventory.antt =====
-- src/inventory/inventory.service.ts: stock pools, one for each variant of a tenant and each store
-- (or none), read and adjusted.
pub mod Stock
pub mod Adjusting
use business_platform.Prelude.{
  ℕ, ◌+◌, ◌-◌, Bool, true, false, Option, none, some, ◌&&◌, ◌==◌, leb, same_option, if◌then◌else◌,
  ℤ, pos_part, neg_part,
}
use business_platform.Prisma.{Prisma, p2002}
use business_platform.Schema.{Key, Instant, Inventory, ProductVariant}
use business_platform.Platform.{
  Error, not_found, conflict, database, variant_not_found, store_not_found, insufficient_stock,
  Action, pure, throw, or_throw, throw_if, if_found, catch, ◌>>=◌, ◌>>◌, require_tenant_id,
  find_unique, find_first, create, update_many, fresh_id, current_time, inventory_model,
  product_variant_model, store_model,
}

pub record InventorySummary : Type 0 where
  pub id : Option Key
  pub tenant_id : Key
  pub store_id : Option Key
  pub variant_id : Key
  pub quantity_on_hand : ℕ
  pub created_at : Option Instant
  pub updated_at : Option Instant

pub data InventoryScope : Type 0 where
  global : InventoryScope
  store : Key → InventoryScope

pub record AdjustInventoryDto : Type 0 where
  pub variant_id : Key
  pub delta : ℤ

-- `scope.kind === 'store' ? scope.storeId : null`
abbrev pub scope_store : InventoryScope → Option Key
scope_store global = none
scope_store (store s) = some s

abbrev pub pool_where : InventoryScope → Key → Inventory → Bool
pool_where scope v r = r.variant_id == v && same_option r.store_id (scope_store scope)

-- `quantityOnHand: { gte: -delta }`
abbrev pub covers : ℤ → Inventory → Bool
covers delta r = leb (neg_part delta) (r.quantity_on_hand + pos_part delta)

-- `quantityOnHand: { increment: delta }`, for a row that covers it.
abbrev pub increment : ℤ → Inventory → Inventory
increment delta r = record r {
  quantity_on_hand = r.quantity_on_hand + pos_part delta - neg_part delta;
}

abbrev pub to_summary : Inventory → InventorySummary
to_summary r = record {
  id = some r.id;
  tenant_id = r.tenant_id;
  store_id = r.store_id;
  variant_id = r.variant_id;
  quantity_on_hand = r.quantity_on_hand;
  created_at = some r.created_at;
  updated_at = some r.updated_at;
}

-- A missing row is zero on hand.
unfoldable pub zero_summary : InventoryScope → Key → Action InventorySummary
zero_summary scope v = do
  tenant_id ← require_tenant_id
  pure record {
    id = none;
    tenant_id = tenant_id;
    store_id = scope_store scope;
    variant_id = v;
    quantity_on_hand = 0;
    created_at = none;
    updated_at = none;
  }

unfoldable pub is_p2002 : Error → Bool
is_p2002 (database (p2002 target)) = true
is_p2002 _ = false

module _ ⦃prisma : Prisma⦄ where
  unfoldable pub find_variant : Key → Action (Option ProductVariant)
  find_variant v = find_unique product_variant_model (λ r. r.id == v)

  -- `assertScopeStore`
  unfoldable pub assert_scope_store : InventoryScope → Action (Unit {0})
  assert_scope_store global = pure tt
  assert_scope_store (store s) = do
    found ← find_unique store_model (λ r. r.id == s)
    or_throw found (not_found store_not_found)
    pure tt

  unfoldable pub get_scoped_inventory : InventoryScope → Key → Action InventorySummary
  unfolding zero_summary find_variant assert_scope_store
  get_scoped_inventory scope v = do
    require_tenant_id
    variant ← find_variant v
    or_throw variant (not_found variant_not_found)
    assert_scope_store scope
    inventory ← find_first inventory_model (pool_where scope v)
    if_found inventory (zero_summary scope v) (λ r. pure (to_summary r))

  unfoldable pub get_inventory : Key → Action InventorySummary
  get_inventory v = get_scoped_inventory global v

  -- The guarded conditional increment: how many rows it changed.
  unfoldable pub guarded_increment : InventoryScope → AdjustInventoryDto → Action ℕ
  guarded_increment scope dto =
      update_many inventory_model (λ r. pool_where scope dto.variant_id r && covers dto.delta r)
        (increment dto.delta)

  -- The pool as it is after a successful increment.
  unfoldable pub adjusted : InventoryScope → AdjustInventoryDto → Action InventorySummary
  adjusted scope dto = do
    inventory ← find_first inventory_model (pool_where scope dto.variant_id)
    row ← or_throw inventory (conflict insufficient_stock)
    pure (to_summary row)

  -- The lazy creation of a pool.
  unfoldable pub create_pool : Key → InventoryScope → AdjustInventoryDto → Action InventorySummary
  create_pool tenant_id scope dto = do
    id ← fresh_id
    now ← current_time
    created ← create inventory_model record {
      id = id;
      tenant_id = tenant_id;
      variant_id = dto.variant_id;
      store_id = scope_store scope;
      quantity_on_hand = pos_part dto.delta;
      created_at = now;
      updated_at = now;
    }
    pure (to_summary created)

  -- The retry after a lost race on the pool's unique index.
  unfoldable pub retry : InventoryScope → AdjustInventoryDto → Error → Action InventorySummary
  unfolding is_p2002 guarded_increment adjusted
  retry scope dto e =
      if is_p2002 e
      then (do
        count ← guarded_increment scope dto
        if count == 1 then adjusted scope dto else throw (conflict insufficient_stock))
      else throw e

  -- What follows the lookups: the guarded increment, else the lazy creation.
  unfoldable pub adjust_pool : InventoryScope → AdjustInventoryDto → Action InventorySummary
  unfolding guarded_increment adjusted create_pool retry
  adjust_pool scope dto = do
    tenant_id ← require_tenant_id
    count ← guarded_increment scope dto
    if count == 1 then adjusted scope dto else (do
      existing ← find_first inventory_model (pool_where scope dto.variant_id)
      if_found existing
          (do
            throw_if (leb 1 (neg_part dto.delta)) (conflict insufficient_stock)
            catch (create_pool tenant_id scope dto) (retry scope dto))
          (λ r. throw (conflict insufficient_stock)))

  unfoldable pub adjust_scoped : InventoryScope → AdjustInventoryDto → Action InventorySummary
  unfolding find_variant assert_scope_store adjust_pool
  adjust_scoped scope dto = do
    require_tenant_id
    variant ← find_variant dto.variant_id
    or_throw variant (not_found variant_not_found)
    assert_scope_store scope
    adjust_pool scope dto

  unfoldable pub adjust : AdjustInventoryDto → Action InventorySummary
  adjust dto = adjust_scoped global dto

  -- `storeExists`
  unfoldable pub store_exists : Key → Action Bool
  store_exists s = do
    found ← find_unique store_model (λ r. r.id == s)
    pure (elim found [ none ↦ false | some r ↦ true ])
