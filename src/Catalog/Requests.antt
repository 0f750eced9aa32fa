-- ===== src/Catalog/Requests.antt =====
-- The requests that change the catalog, and what they keep.
use business_platform.Catalog.History.{delete_product_cases}
use business_platform.Catalog.Deletion.{delete_product}
use business_platform.Platform.Constraints.{some_row}
use business_platform.Order.Frames.{everything}
use business_platform.Prelude.{
  arith, Option, first_cases, inl, inr, none, refl, some, true, ◌==◌, ◌≡◌, ◌&&◌, List, drop_where,
  false, not, Bool, [], ◌∷◌, subst, sym,
}
use business_platform.Prisma.{Prisma, p2002, p2003}
use business_platform.Schema.{Db, Key, Instant, Category}
use business_platform.Platform.{
  Action, Error, ok, pure, within, database, conflict, category_name_taken, code_taken, in_use,
  ◌>>◌, category_model, update, delete_unless, product_model,
}
use business_platform.Platform.Facts.{owned, find_unique_eq}
use business_platform.Platform.Frames.{Keeps, keeps, Keeps-throw, Keeps-pure}
use business_platform.Platform.Leaves.{
  Leaves, Leaves-bind, Leaves-then, Leaves-before, Leaves-handled,
}
use business_platform.Platform.Unique.{some_row-true}
use business_platform.Catalog.Categories.{
  CreateCategoryDto, UpdateCategoryDto, category_name_handler, in_use_handler, edit_category,
  find_category, require_category, insert_category, create_category, update_category,
  delete_category, has_products,
}
use business_platform.Catalog.Products.{
  CreateProductDto, UpdateProductDto, code_handler, find_product, require_product,
  resolve_category_id, insert_product, create_product, update_product, edit_product,
}
use business_platform.Catalog.Categories
use business_platform.Catalog.Products
use business_platform.Catalog.Integrity.{
  has_category, IsCategorized, insert_category-Leaves, edit-Leaves, insert_product-Leaves,
  edit_product-Leaves, delete_unless-Leaves, is_categorized,
}

pub data CatalogRequest : Type 0 where
  creates_category : CreateCategoryDto → CatalogRequest
  updates_category : Key → UpdateCategoryDto → CatalogRequest
  deletes_category : Key → CatalogRequest
  creates_product : CreateProductDto → CatalogRequest
  updates_product : Key → UpdateProductDto → CatalogRequest
  deletes_product : Key → CatalogRequest

module _ ⦃prisma : Prisma⦄ where
  unfoldable pub handle : CatalogRequest → Action (Unit {0})
  handle (creates_category dto) = create_category dto >> pure tt
  handle (updates_category id dto) = update_category id dto >> pure tt
  handle (deletes_category id) = delete_category id >> pure tt
  handle (creates_product dto) = create_product dto >> pure tt
  handle (updates_product id dto) = update_product id dto >> pure tt
  handle (deletes_product id) = delete_product id >> pure tt

module _ ⦃prisma : Prisma⦄ {t : Key} {now : Instant} where
  category_name_handler-reads :
      {A : Type 0} (e : Error) → Keeps (within t now) everything (category_name_handler {A = A} e)
  category_name_handler-reads (database (p2002 target)) = Keeps-throw (conflict category_name_taken)
  category_name_handler-reads e = Keeps-throw e

  code_handler-reads :
      {A : Type 0} (e : Error) → Keeps (within t now) everything (code_handler {A = A} e)
  code_handler-reads (database (p2002 target)) = Keeps-throw (conflict code_taken)
  code_handler-reads e = Keeps-throw e

  in_use_handler-reads :
      {A : Type 0} (e : Error) → Keeps (within t now) everything (in_use_handler {A = A} e)
  in_use_handler-reads (database p2003) = Keeps-throw (conflict in_use)
  in_use_handler-reads e = Keeps-throw e

  require_category-reads : (id : Key) → Keeps (within t now) everything (require_category id)
  unfolding require_category find_category
  require_category-reads id = search keeps

  require_product-reads : (id : Key) → Keeps (within t now) everything (require_product id)
  unfolding require_product find_product
  require_product-reads id = search keeps

  resolve_category_id-reads :
      (id : Option Key) → Keeps (within t now) everything (resolve_category_id id)
  unfolding resolve_category_id
  resolve_category_id-reads none = search keeps
  resolve_category_id-reads (some id) = search keeps

some_row-drop_where :
    {A : Type 0} (q w : A → Bool) (rs : List A)
    → some_row q rs ≡ false
    → some_row q (drop_where w rs) ≡ false
some_row-drop_where q w [] h = refl
some_row-drop_where q w (x ∷ xs) h = ground (arith, some_row-drop_where q w xs)

module _ ⦃prisma : Prisma⦄ (t : Key) (now : Instant) (db : Db) where
  -- What is resolved is there.
  resolve_category_id-there :
      (asked found : Option Key)
      → resolve_category_id asked (within t now) db ≡ (ok found, db)
      → (k : Key) → found ≡ some k
      → has_category t k db.categories ≡ true
  unfolding resolve_category_id
  resolve_category_id-there none found h k e = ground arith
  resolve_category_id-there (some id) found h k e =
      let law = find_unique_eq category_model refl t now db λ (r : Category). r.id == id in
      elim (first_cases (owned category_model t λ (r : Category). r.id == id) db.categories) [
        | inl (none_fits, z) ↦ ground arith
        | inr (r, fits, i, own) ↦
            let same : r.id ≡ k = ground arith in
            some_row-true (λ c. c.id == k && c.tenant_id == t) db.categories r i (ground arith)
      ]

  module _ (fine : IsCategorized db) where
    create_category-Leaves :
        (dto : CreateCategoryDto) → Leaves (within t now) IsCategorized db (create_category dto)
    unfolding create_category
    create_category-Leaves dto = record {
      apply =
          (Leaves-before
            (Leaves-handled (insert_category t dto) (insert_category-Leaves t now db fine dto)
              category_name_handler-reads)
            (λ a. Keeps-pure (Categories.to_summary a))).apply;
    }

    update_category-Leaves :
        (id : Key) (dto : UpdateCategoryDto)
        → Leaves (within t now) IsCategorized db (update_category id dto)
    unfolding update_category
    update_category-Leaves id dto = Leaves-then fine (require_category-reads id) (
        Leaves-before
          (Leaves-handled (update category_model (λ r. r.id == id) (edit_category dto))
            (edit-Leaves t now db fine (λ r. r.id == id) (edit_category dto) (λ r. refl))
            category_name_handler-reads)
          (λ a. Keeps-pure (Categories.to_summary a)))

    delete_category-Leaves :
        (id : Key) → Leaves (within t now) IsCategorized db (delete_category id)
    unfolding delete_category
    delete_category-Leaves id = Leaves-then fine (require_category-reads id) (
        Leaves-before
          (Leaves-handled (delete_unless category_model has_products (λ r. r.id == id))
            (delete_unless-Leaves t now db fine id) in_use_handler-reads)
          (λ a. Keeps-pure id))

    create_product-Leaves :
        (dto : CreateProductDto) → Leaves (within t now) IsCategorized db (create_product dto)
    unfolding create_product
    create_product-Leaves dto = record {
      apply =
          (Leaves-bind fine (resolve_category_id-reads dto.category_id) λ found e.
            Leaves-before
              (Leaves-handled (insert_product t dto found)
                (insert_product-Leaves t now db fine dto found
                  (resolve_category_id-there dto.category_id found e))
                code_handler-reads)
              (λ a. Keeps-pure (Products.to_summary a))).apply;
    }

    update_product-Leaves :
        (id : Key) (dto : UpdateProductDto)
        → Leaves (within t now) IsCategorized db (update_product id dto)
    unfolding update_product
    update_product-Leaves id dto = Leaves-then fine (require_product-reads id) (
        Leaves-bind fine (resolve_category_id-reads dto.category_id) λ found e.
          Leaves-before
            (Leaves-handled (update product_model (λ r. r.id == id) (edit_product dto found))
              (edit_product-Leaves t now db fine id dto found
                (resolve_category_id-there dto.category_id found e))
              code_handler-reads)
            (λ a. Keeps-pure (Products.to_summary a)))

    delete_product-Leaves : (id : Key) → Leaves (within t now) IsCategorized db (delete_product id)
    delete_product-Leaves id = record {
      apply = elim (delete_product_cases t now id db) [
        | inr (e, out) ↦ subst (λ o. IsCategorized o.1) (sym out) fine
        | inl (p, free, out) ↦
            subst (λ o. IsCategorized o.1) (sym out)
              (some_row-drop_where (λ r. not (is_categorized db.categories r))
                (λ r. r.id == id && r.tenant_id == t) db.products fine)
      ];
    }

    leaves : (r : CatalogRequest) → Leaves (within t now) IsCategorized db (handle r)
    unfolding handle
    leaves (creates_category dto) = Leaves-before (create_category-Leaves dto) (λ a. Keeps-pure tt)
    leaves (updates_category id dto) =
        Leaves-before (update_category-Leaves id dto) (λ a. Keeps-pure tt)
    leaves (deletes_category id) = Leaves-before (delete_category-Leaves id) (λ a. Keeps-pure tt)
    leaves (creates_product dto) = Leaves-before (create_product-Leaves dto) (λ a. Keeps-pure tt)
    leaves (updates_product id dto) =
        Leaves-before (update_product-Leaves id dto) (λ a. Keeps-pure tt)
    leaves (deletes_product id) = Leaves-before (delete_product-Leaves id) (λ a. Keeps-pure tt)

  -- If every product names a category of its own tenant or none, that is so after a category was
  -- created, changed or deleted or a product was, whether that succeeds or fails.
  pub handle-IsCategorized :
      (r : CatalogRequest) → IsCategorized db → IsCategorized (handle r (within t now) db).1
  handle-IsCategorized r fine = (leaves fine r).apply
