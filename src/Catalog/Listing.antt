-- ===== src/Catalog/Listing.antt =====
-- listCategories of src/category/category.service.ts and listProducts of
-- src/product/product.service.ts.
use business_platform.Prelude.{Option, Bool, true, [], ◌∷◌, ◌&&◌, map}
use business_platform.Prisma.{Prisma}
use business_platform.Schema.{Key, Text, Category, Product, ProductStatus}
use business_platform.Platform.{Action, pure, ◌>>=◌, category_model, product_model}
use business_platform.Pagination.Listing.{
  Runtime, SortColumn, PageQuery, Paginated, list_rows, map_page, status_name, category_id_name,
  created_at_name, text_of, given_field, equals, equals_some,
}
use business_platform.Catalog.Categories
use business_platform.Catalog.Products
use business_platform.Catalog.Categories.{CategorySummary}
use business_platform.Catalog.Products.{ProductSummary}

pub record ProductListQueryDto : Type 0 where
  pub page : PageQuery
  pub status : Option ProductStatus
  pub category_id : Option Key

abbrev pub product_status_text : ProductStatus → Text
product_status_text ProductStatus.draft = 1
product_status_text ProductStatus.active = 2
product_status_text ProductStatus.archived = 3

abbrev pub categories_by_created_at : SortColumn Category
categories_by_created_at = record {
  name = created_at_name;
  primary = λ r. r.created_at;
  id = λ r. r.id;
}

abbrev pub products_by_created_at : SortColumn Product
products_by_created_at = record {
  name = created_at_name;
  primary = λ r. r.created_at;
  id = λ r. r.id;
}

abbrev pub is_listed : ProductListQueryDto → Product → Bool
is_listed query r =
    equals (text_of product_status_text query.status) (product_status_text r.status)
    && equals_some query.category_id r.category_id

module _ ⦃prisma : Prisma⦄ ⦃runtime : Runtime⦄ where
  unfoldable pub list_categories : PageQuery → Action (Paginated CategorySummary)
  list_categories query = do
    page ← list_rows categories_by_created_at category_model (λ r. true) [] query
    pure (map_page (map Categories.to_summary) page)

  unfoldable pub list_products : ProductListQueryDto → Action (Paginated ProductSummary)
  list_products query = do
    page ←
        list_rows products_by_created_at product_model (is_listed query)
          ((status_name, given_field (text_of product_status_text query.status))
            ∷ (category_id_name, given_field query.category_id)
            ∷ [])
          query.page
    pure (map_page (map Products.to_summary) page)
