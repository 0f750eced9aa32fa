-- ===== src/Schema/Catalog.antt =====
-- Stores, customers, categories, products, variants, prices and stock pools.
use business_platform.Prelude.{ℕ, Option}
use business_platform.Schema.Types.{Key, Instant, Text, Currency, VariantStatus, ProductStatus}

pub record Store : Type 0 where
  pub id : Key
  pub tenant_id : Key

pub record Customer : Type 0 where
  pub id : Key
  pub tenant_id : Key

pub record Category : Type 0 where
  pub id : Key
  pub tenant_id : Key
  pub name : Text
  pub description : Option Text
  pub created_at : Instant
  pub updated_at : Instant

pub record Product : Type 0 where
  pub id : Key
  pub tenant_id : Key
  pub category_id : Option Key
  pub name : Text
  pub code : Text
  pub description : Option Text
  pub status : ProductStatus
  pub created_at : Instant
  pub updated_at : Instant

pub record ProductVariant : Type 0 where
  pub id : Key
  pub tenant_id : Key
  pub product_id : Key
  pub sku : Text
  pub name : Option Text
  pub status : VariantStatus

pub record Price : Type 0 where
  pub id : Key
  pub tenant_id : Key
  pub variant_id : Key
  pub currency : Currency
  pub amount_minor : ℕ  -- BIGINT, CHECK (>= 0)

-- A stock pool: the tenant's global one if `store_id` is absent, else a store's.
pub record Inventory : Type 0 where
  pub id : Key
  pub tenant_id : Key
  pub variant_id : Key
  pub store_id : Option Key
  pub quantity_on_hand : ℕ  -- INTEGER, CHECK (>= 0)
  pub created_at : Instant
  pub updated_at : Instant
