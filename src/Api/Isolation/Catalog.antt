-- ===== src/Api/Isolation/Catalog.antt =====
-- The isolation of the requests to src/category/category.service.ts and
-- src/product/product.service.ts.
use business_platform.Prelude.{Option, none, some}
use business_platform.Prisma.{Prisma, p2002, p2003}
use business_platform.Schema.{Key, Instant}
use business_platform.Platform.{Error, database, within}
use business_platform.Platform.Frames.{Keeps, Keeps-throw}
use business_platform.Platform.Isolation.{foreign, isolation}
use business_platform.Catalog.Categories.{
  CreateCategoryDto, UpdateCategoryDto, category_name_handler, in_use_handler, find_category,
  require_category, get_category, insert_category, create_category, update_category,
  delete_category,
}
use business_platform.Catalog.Products.{
  CreateProductDto, UpdateProductDto, code_handler, find_product, require_product,
  resolve_category_id, get_product, insert_product, create_product, update_product,
}

module _ ⦃prisma : Prisma⦄ (t : Key) (now : Instant) where
  category_name_handler-isolated :
      {A : Type 0}
      → (e : Error) → Keeps (within t now) (foreign t) (category_name_handler {A = A} e)
  category_name_handler-isolated (database (p2002 target)) = Keeps-throw _
  category_name_handler-isolated e = Keeps-throw e

  in_use_handler-isolated :
      {A : Type 0} → (e : Error) → Keeps (within t now) (foreign t) (in_use_handler {A = A} e)
  in_use_handler-isolated (database p2003) = Keeps-throw _
  in_use_handler-isolated e = Keeps-throw e

  code_handler-isolated :
      {A : Type 0} → (e : Error) → Keeps (within t now) (foreign t) (code_handler {A = A} e)
  code_handler-isolated (database (p2002 target)) = Keeps-throw _
  code_handler-isolated e = Keeps-throw e

  ruleset handlers =
      (isolation, category_name_handler-isolated, in_use_handler-isolated, code_handler-isolated)

  require_category-isolated : (id : Key) → Keeps (within t now) (foreign t) (require_category id)
  unfolding require_category find_category
  require_category-isolated id = search isolation

  pub get_category-isolated : (id : Key) → Keeps (within t now) (foreign t) (get_category id)
  unfolding get_category
  get_category-isolated id = search (isolation, require_category-isolated)

  pub create_category-isolated :
      (dto : CreateCategoryDto) → Keeps (within t now) (foreign t) (create_category dto)
  unfolding create_category insert_category
  create_category-isolated dto = search handlers depth 12

  pub update_category-isolated :
      (id : Key) (dto : UpdateCategoryDto)
      → Keeps (within t now) (foreign t) (update_category id dto)
  unfolding update_category
  update_category-isolated id dto = search (handlers, require_category-isolated) depth 12

  pub delete_category-isolated : (id : Key) → Keeps (within t now) (foreign t) (delete_category id)
  unfolding delete_category
  delete_category-isolated id = search (handlers, require_category-isolated) depth 12

  require_product-isolated : (id : Key) → Keeps (within t now) (foreign t) (require_product id)
  unfolding require_product find_product
  require_product-isolated id = search isolation

  resolve_category_id-isolated :
      (id : Option Key) → Keeps (within t now) (foreign t) (resolve_category_id id)
  unfolding resolve_category_id
  resolve_category_id-isolated none = search isolation
  resolve_category_id-isolated (some id) = search isolation

  pub get_product-isolated : (id : Key) → Keeps (within t now) (foreign t) (get_product id)
  unfolding get_product
  get_product-isolated id = search (isolation, require_product-isolated)

  pub create_product-isolated :
      (dto : CreateProductDto) → Keeps (within t now) (foreign t) (create_product dto)
  unfolding create_product insert_product
  create_product-isolated dto = search (handlers, resolve_category_id-isolated) depth 12

  pub update_product-isolated :
      (id : Key) (dto : UpdateProductDto) → Keeps (within t now) (foreign t) (update_product id dto)
  unfolding update_product
  update_product-isolated id dto =
      search (handlers, require_product-isolated, resolve_category_id-isolated) depth 12
