-- ===== src/Catalog/Deletion.antt =====
-- deleteProduct of src/product/product.service.ts, with the foreign keys that the migrations declare:
-- the variants go with their product, and with them their prices, pools and cart lines; a variant
-- that an order item names is not deleted, so its product is not either.
use business_platform.Prelude.{Bool, ◌==◌, ◌&&◌}
use business_platform.Prisma.{Prisma}
use business_platform.Schema.{Db, Key, Product}
use business_platform.Platform.{
  Action, pure, ◌>>◌, delete_unless, cascade, product_model, product_variant_model, price_model,
  inventory_model, cart_item_model,
}
use business_platform.Platform.Constraints.{some_row}
use business_platform.Catalog.Products.{require_product}

-- `ProductVariant_productId_fkey`
abbrev pub is_variant_of : Key → Key → Db → Bool
is_variant_of id k db = some_row (λ v. v.product_id == id && v.id == k) db.variants

-- `OrderItem_variantId_fkey`, which is ON DELETE RESTRICT.
abbrev pub is_ordered : Product → Db → Bool
is_ordered p db = some_row (λ it. is_variant_of p.id it.variant_id db) db.order_items

module _ ⦃prisma : Prisma⦄ where
  -- `Price_variantId_fkey`, `Inventory_variantId_fkey` and `CartItem_variantId_fkey`, which are ON
  -- DELETE CASCADE like the one of the variants.
  unfoldable pub cascade_product : Key → Action (Unit {0})
  cascade_product id c db =
      (cascade price_model (λ p. is_variant_of id p.variant_id db)
          >> cascade inventory_model (λ r. is_variant_of id r.variant_id db)
          >> cascade cart_item_model (λ r. is_variant_of id r.variant_id db)
          >> cascade product_variant_model (λ v. v.product_id == id))
        c db

  unfoldable pub delete_product : Key → Action Key
  delete_product id = do
    require_product id
    delete_unless product_model is_ordered (λ r. r.id == id)
    cascade_product id
    pure id
