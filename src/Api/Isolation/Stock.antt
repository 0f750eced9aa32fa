-- ===== src/Api/Isolation/Stock.antt =====
-- Tenant isolation of src/inventory/inventory.service.ts.
use business_platform.Prisma.{Prisma}
use business_platform.Platform.{within, Error}
use business_platform.Platform.Frames.{Keeps}
use business_platform.Platform.Isolation.{foreign, isolation}
use business_platform.Schema.{Key, Instant}
use business_platform.Inventory.{
  InventoryScope, global, store, assert_scope_store, retry, AdjustInventoryDto,
  get_scoped_inventory, adjust_pool, adjust_scoped,
}

module _ ⦃prisma : Prisma⦄ (t : Key) (now : Instant) where
  assert_scope_store-isolated :
      (scope : InventoryScope) → Keeps (within t now) (foreign t) (assert_scope_store scope)
  unfolding assert_scope_store
  assert_scope_store-isolated global = search isolation
  assert_scope_store-isolated (store s) = search isolation

  pub get_scoped_inventory-isolated :
      (scope : InventoryScope) (v : Key)
      → Keeps (within t now) (foreign t) (get_scoped_inventory scope v)
  unfolding get_scoped_inventory
  get_scoped_inventory-isolated scope v = search (isolation, assert_scope_store-isolated) depth 12

  retry-isolated :
      (scope : InventoryScope) (dto : AdjustInventoryDto) (e : Error)
      → Keeps (within t now) (foreign t) (retry scope dto e)
  unfolding retry
  retry-isolated scope dto e = search isolation depth 12

  adjust_pool-isolated :
      (scope : InventoryScope) (dto : AdjustInventoryDto)
      → Keeps (within t now) (foreign t) (adjust_pool scope dto)
  unfolding adjust_pool
  adjust_pool-isolated scope dto = search (isolation, retry-isolated) depth 12

  pub adjust_scoped-isolated :
      (scope : InventoryScope) (dto : AdjustInventoryDto)
      → Keeps (within t now) (foreign t) (adjust_scoped scope dto)
  unfolding adjust_scoped
  adjust_scoped-isolated scope dto =
      search (isolation, assert_scope_store-isolated, adjust_pool-isolated) depth 12
