-- ===== src/Tests/Products.antt =====
-- The theorems on the catalog, at the shop.
use business_platform.Api.Cascades.{Removal, remove, remove-keeps_others}
use business_platform.Api.Grants.{tenant_rows}
use business_platform.Catalog.History.{HasVariants, Deleted, delete_product-Deleted}
use business_platform.Catalog.Deletion.{delete_product, cascade_product}
use business_platform.Catalog.Products.{require_product, find_product}
use business_platform.Schema.{Db, ProductStatus, VariantStatus}
use business_platform.Prisma.{p2003}
use business_platform.Prelude.{refl, inl, inr, none, ◌∷◌, ◌≡◌}
use business_platform.Platform.{within, ok, err, database, find_unique, delete_unless, cascade}
use business_platform.Catalog.Integrity.{IsCategorized}
use business_platform.Catalog.Requests.{handle, deletes_category, handle-IsCategorized}
use business_platform.Tests.Memory.{in_memory}
use business_platform.Tests.Shop.{shop}

-- The category of a product is to be deleted.
handle-IsCategorized_example : IsCategorized (handle (deletes_category 12) (within 7 200) shop).1
handle-IsCategorized_example = handle-IsCategorized 7 200 shop (deletes_category 12) refl

-- Another product of the shop, with a variant that was never sold and a price of it.
abbrev new_stock : Db
new_stock = record shop {
  products =
      record {
        id = 13;
        tenant_id = 7;
        category_id = none;
        name = 503;
        code = 513;
        description = none;
        status = ProductStatus.draft;
        created_at = 90;
        updated_at = 90;
      }
      ∷ shop.products;
  variants =
      record {
        id = 25;
        tenant_id = 7;
        product_id = 13;
        sku = 603;
        name = none;
        status = VariantStatus.active;
      }
      ∷ shop.variants;
  prices =
      record { id = 33; tenant_id = 7; variant_id = 25; currency = 840; amount_minor = 90 }
      ∷ shop.prices;
}

new_stock-HasVariants : HasVariants new_stock
new_stock-HasVariants it (inl e) = rw e refl
new_stock-HasVariants it (inr i) = elim i [ ]

delete_product-Deleted_example : Deleted 7 13 new_stock (delete_product 13 (within 7 200) new_stock)
delete_product-Deleted_example = delete_product-Deleted 7 200 13 new_stock new_stock-HasVariants

-- It succeeds, but the deletion of the product that was sold does not: the foreign key's error is
-- not handled.
delete_product-unsold : (delete_product 13 (within 7 200) new_stock).0 ≡ ok 13
unfolding delete_product require_product find_product find_unique delete_unless cascade_product
    cascade
delete_product-unsold = refl

delete_product-sold : delete_product 11 (within 7 200) new_stock ≡ (err (database p2003), new_stock)
unfolding delete_product require_product find_product find_unique delete_unless cascade_product
    cascade
delete_product-sold = refl

remove-keeps_others_example :
    tenant_rows 7 (remove (Removal.deletes_product 13) (within 7 200) new_stock).1
    ≡ tenant_rows 7 new_stock
remove-keeps_others_example =
    remove-keeps_others 7 200 new_stock (Removal.deletes_product 13) (refl, refl, refl, refl, refl)

-- The condition is needed: a variant of tenant 8 that refers to the product goes with it.
abbrev stray : Db
stray = record new_stock {
  variants =
      record {
        id = 24;
        tenant_id = 8;
        product_id = 13;
        sku = 604;
        name = none;
        status = VariantStatus.active;
      }
      ∷ new_stock.variants;
}

delete_product-stray : (delete_product 13 (within 7 200) stray).1.variants ≡ shop.variants
unfolding delete_product require_product find_product find_unique delete_unless cascade_product
    cascade
delete_product-stray = refl
