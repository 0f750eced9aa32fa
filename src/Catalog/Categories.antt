-- ===== src/Catalog/Categories.antt =====
-- src/category/category.service.ts; listCategories stands in Listing.
use business_platform.Prelude.{Bool, Option, ◌==◌, none, some}
use business_platform.Prisma.{Prisma, p2002, p2003}
use business_platform.Schema.{Db, Key, Instant, Text, Category, Product}
use business_platform.Platform.{
  Action, Error, pure, throw, or_throw, catch, database, not_found, conflict, category_not_found,
  category_name_taken, in_use, ◌>>=◌, ◌>>◌, require_tenant_id, current_time, find_unique, create,
  update, delete_unless, fresh_id, category_model,
}
use business_platform.Platform.Constraints.{some_row}

pub record CreateCategoryDto : Type 0 where
  pub name : Text
  pub description : Option Text

pub record UpdateCategoryDto : Type 0 where
  pub name : Option Text
  pub description : Option Text

pub record CategorySummary : Type 0 where
  pub id : Key
  pub tenant_id : Key
  pub name : Text
  pub description : Option Text
  pub created_at : Instant
  pub updated_at : Instant

abbrev pub to_summary : Category → CategorySummary
to_summary r = record {
  id = r.id;
  tenant_id = r.tenant_id;
  name = r.name;
  description = r.description;
  created_at = r.created_at;
  updated_at = r.updated_at;
}

-- The handlers of the writes and of `deleteCategory`.
abbrev pub category_name_handler : {A : Type 0} → Error → Action A
category_name_handler (database (p2002 target)) = throw (conflict category_name_taken)
category_name_handler e = throw e

abbrev pub in_use_handler : {A : Type 0} → Error → Action A
in_use_handler (database p2003) = throw (conflict in_use)
in_use_handler e = throw e

-- `...(value !== undefined ? { field: value } : {})`, for a column and for one that may be null.
abbrev pub set_or : {A : Type 0} → Option A → A → A
set_or none a = a
set_or (some b) a = b

abbrev pub set_some : {A : Type 0} → Option A → Option A → Option A
set_some none a = a
set_some (some b) a = some b

abbrev pub edit_category : UpdateCategoryDto → Category → Category
edit_category dto r = record r {
  name = set_or dto.name r.name;
  description = set_some dto.description r.description;
}

-- `Product_categoryId_fkey`, which is ON DELETE RESTRICT.
abbrev pub refers_to : Key → Product → Bool
refers_to id p = elim p.category_id [ none ↦ Bool.false | some k ↦ k == id ]

abbrev pub has_products : Category → Db → Bool
has_products r db = some_row (refers_to r.id) db.products

module _ ⦃prisma : Prisma⦄ where
  unfoldable pub find_category : Key → Action (Option Category)
  find_category id = find_unique category_model (λ r. r.id == id)

  unfoldable pub require_category : Key → Action Category
  require_category id = do
    require_tenant_id
    found ← find_category id
    or_throw found (not_found category_not_found)

  unfoldable pub get_category : Key → Action CategorySummary
  get_category id = do category ← require_category id; pure (to_summary category)

  -- The insert of `createCategory`.
  unfoldable pub insert_category : Key → CreateCategoryDto → Action Category
  insert_category tenant_id dto = do
    id ← fresh_id
    now ← current_time
    create category_model record {
      id = id;
      tenant_id = tenant_id;
      name = dto.name;
      description = dto.description;
      created_at = now;
      updated_at = now;
    }

  unfoldable pub create_category : CreateCategoryDto → Action CategorySummary
  create_category dto = do
    tenant_id ← require_tenant_id
    category ← catch (insert_category tenant_id dto) category_name_handler
    pure (to_summary category)

  unfoldable pub update_category : Key → UpdateCategoryDto → Action CategorySummary
  update_category id dto = do
    require_category id
    updated ←
        catch (update category_model (λ r. r.id == id) (edit_category dto)) category_name_handler
    pure (to_summary updated)

  unfoldable pub delete_category : Key → Action Key
  delete_category id = do
    require_category id
    catch (delete_unless category_model has_products (λ r. r.id == id)) in_use_handler
    pure id
