-- ===== src/Catalog/Products.antt =====
-- src/product/product.service.ts; listProducts stands in Listing, deleteProduct in Deletion.
use business_platform.Prelude.{Option, ◌==◌, none, some}
use business_platform.Prisma.{Prisma, p2002}
use business_platform.Schema.{Key, Instant, Text, Product, ProductStatus}
use business_platform.Platform.{
  Action, Error, pure, throw, or_throw, catch, database, not_found, conflict, category_not_found,
  product_not_found, code_taken, ◌>>=◌, ◌>>◌, require_tenant_id, current_time, find_unique, create,
  update, fresh_id, category_model, product_model,
}
use business_platform.Catalog.Categories.{set_or, set_some}

pub record CreateProductDto : Type 0 where
  pub name : Text
  pub code : Text
  pub category_id : Option Key
  pub description : Option Text
  pub status : Option ProductStatus

pub record UpdateProductDto : Type 0 where
  pub name : Option Text
  pub code : Option Text
  pub category_id : Option Key
  pub description : Option Text
  pub status : Option ProductStatus

pub record ProductSummary : Type 0 where
  pub id : Key
  pub tenant_id : Key
  pub category_id : Option Key
  pub name : Text
  pub code : Text
  pub description : Option Text
  pub status : ProductStatus
  pub created_at : Instant
  pub updated_at : Instant

abbrev pub to_summary : Product → ProductSummary
to_summary r = record {
  id = r.id;
  tenant_id = r.tenant_id;
  category_id = r.category_id;
  name = r.name;
  code = r.code;
  description = r.description;
  status = r.status;
  created_at = r.created_at;
  updated_at = r.updated_at;
}

abbrev pub code_handler : {A : Type 0} → Error → Action A
code_handler (database (p2002 target)) = throw (conflict code_taken)
code_handler e = throw e

abbrev pub edit_product : UpdateProductDto → Option Key → Product → Product
edit_product dto category_id r = record r {
  name = set_or dto.name r.name;
  code = set_or dto.code r.code;
  category_id = set_some category_id r.category_id;
  description = set_some dto.description r.description;
  status = set_or dto.status r.status;
}

module _ ⦃prisma : Prisma⦄ where
  unfoldable pub find_product : Key → Action (Option Product)
  find_product id = find_unique product_model (λ r. r.id == id)

  unfoldable pub require_product : Key → Action Product
  require_product id = do
    require_tenant_id
    found ← find_product id
    or_throw found (not_found product_not_found)

  unfoldable pub resolve_category_id : Option Key → Action (Option Key)
  resolve_category_id none = pure none
  resolve_category_id (some id) = do
    found ← find_unique category_model (λ r. r.id == id)
    category ← or_throw found (not_found category_not_found)
    pure (some category.id)

  unfoldable pub get_product : Key → Action ProductSummary
  get_product id = do product ← require_product id; pure (to_summary product)

  -- The insert of `createProduct`.
  unfoldable pub insert_product : Key → CreateProductDto → Option Key → Action Product
  insert_product tenant_id dto category_id = do
    id ← fresh_id
    now ← current_time
    create product_model record {
      id = id;
      tenant_id = tenant_id;
      category_id = category_id;
      name = dto.name;
      code = dto.code;
      description = dto.description;
      status = set_or dto.status ProductStatus.draft;
      created_at = now;
      updated_at = now;
    }

  unfoldable pub create_product : CreateProductDto → Action ProductSummary
  create_product dto = do
    tenant_id ← require_tenant_id
    category_id ← resolve_category_id dto.category_id
    product ← catch (insert_product tenant_id dto category_id) code_handler
    pure (to_summary product)

  unfoldable pub update_product : Key → UpdateProductDto → Action ProductSummary
  update_product id dto = do
    require_product id
    category_id ← resolve_category_id dto.category_id
    updated ←
        catch (update product_model (λ r. r.id == id) (edit_product dto category_id)) code_handler
    pure (to_summary updated)
