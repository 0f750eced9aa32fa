-- ===== src/Catalog/Integrity.antt =====
-- That every product names a category of its own tenant, or none.
use business_platform.Prelude.{
  arith, drop_where, Bool, Bool-cases, In, List, Option, Option-cases, [], false, first_cases, inl,
  inr, none, not, refl, set_where, some, suc, true, ◌&&◌, ◌==◌, ◌∙◌, ◌∷◌, ◌≡◌,
}
use business_platform.Prisma.{Prisma}
use business_platform.Schema.{Db, Key, Instant, Category, Product, ProductStatus}
use business_platform.Platform.{
  within, category_model, product_model, update, delete_unless, fresh_id,
}
use business_platform.Platform.Constraints.{some_row}
use business_platform.Platform.Facts.{owned, owned_values, create_cases, update_cases}
use business_platform.Platform.Leaves.{Leaves}
use business_platform.Platform.Unique.{some_row-true, some_row-In}
use business_platform.Catalog.Categories.{
  refers_to, has_products, insert_category, CreateCategoryDto, set_or,
}
use business_platform.Catalog.Products.{
  insert_product, CreateProductDto, edit_product, UpdateProductDto,
}

-- That a category is there for a tenant.
abbrev pub has_category : Key → Key → List Category → Bool
has_category t k cs = some_row (λ c. c.id == k && c.tenant_id == t) cs

abbrev pub is_categorized : List Category → Product → Bool
is_categorized cs p = elim p.category_id [ none ↦ true | some k ↦ has_category p.tenant_id k cs ]

-- Every product names a category of its tenant, or none.
abbrev pub IsCategorized : Db → Type 0
IsCategorized db = some_row (λ p. not (is_categorized db.categories p)) db.products ≡ false

-- If every row that passes one test passes another.
every-every :
    {A : Type 0} (v w : A → Bool) (rs : List A)
    → ((r : A) → In r rs → v r ≡ true → w r ≡ true)
    → some_row (λ r. not (v r)) rs ≡ false
    → some_row (λ r. not (w r)) rs ≡ false
every-every v w [] h e = refl
every-every v w (x ∷ xs) h e =
    let here = h x (inl refl) in let rest = every-every v w xs (λ r i. h r (inr i)) in ground arith

every-set_where :
    {A : Type 0} (v w : A → Bool) (f : A → A) (rs : List A)
    → ((r : A) → v r ≡ true → w r ≡ true → v (f r) ≡ true)
    → some_row (λ r. not (v r)) rs ≡ false
    → some_row (λ r. not (v r)) (set_where w f rs) ≡ false
every-set_where v w f [] h e = refl
every-set_where v w f (x ∷ xs) h e =
    let here = h x in let rest = every-set_where v w f xs h in ground arith

pub some_row-kept :
    {A : Type 0} (q w : A → Bool) (rs : List A)
    → ((r : A) → In r rs → q r ≡ true → w r ≡ false)
    → some_row q rs ≡ true
    → some_row q (drop_where w rs) ≡ true
some_row-kept q w [] h e = e
some_row-kept q w (x ∷ xs) h e =
    let here = h x (inl refl) in
    let rest = some_row-kept q w xs (λ r i. h r (inr i)) in ground arith

some_row-set_where_same :
    {A : Type 0} (q w : A → Bool) (f : A → A) (rs : List A)
    → ((r : A) → w r ≡ true → q (f r) ≡ q r)
    → some_row q (set_where w f rs) ≡ some_row q rs
some_row-set_where_same q w f [] h = refl
some_row-set_where_same q w f (x ∷ xs) h =
    let here = h x in let rest = some_row-set_where_same q w f xs h in ground arith

-- The categories change, and every category that a product names stays.
recategorized :
    (cs cs' : List Category) (ps : List Product)
    → ((p : Product) (k : Key)
        → In p ps
        → p.category_id ≡ some k
        → has_category p.tenant_id k cs ≡ true
        → has_category p.tenant_id k cs' ≡ true)
    → some_row (λ p. not (is_categorized cs p)) ps ≡ false
    → some_row (λ p. not (is_categorized cs' p)) ps ≡ false
recategorized cs cs' ps stays h =
    every-every (is_categorized cs) (is_categorized cs') ps
      (λ p i named. elim (Option-cases p.category_id) [
        | inl e ↦ ground arith
        | inr (k, e) ↦ let kept = stays p k i e in ground arith
      ])
      h

module _ ⦃prisma : Prisma⦄ (t : Key) (now : Instant) (db : Db) (fine : IsCategorized db) where
  pub insert_category-Leaves :
      (dto : CreateCategoryDto) → Leaves (within t now) IsCategorized db (insert_category t dto)
  unfolding insert_category fresh_id
  insert_category-Leaves dto = record {
    apply = ground (
      arith,
      create_cases category_model refl t now (record db { generated = suc db.generated })
          record {
            id = prisma.new_id db.generated;
            tenant_id = t;
            name = dto.name;
            description = dto.description;
            created_at = now;
            updated_at = now;
          },
      recategorized db.categories
          (record {
            id = prisma.new_id db.generated;
            tenant_id = t;
            name = dto.name;
            description = dto.description;
            created_at = now;
            updated_at = now;
          }
            ∷ db.categories)
          db.products (λ p k i e h. ground arith) fine,
    );
  }

  pub edit-Leaves :
      (w : Category → Bool) (f : Category → Category)
      → ((r : Category) → (f r).id ≡ r.id)
      → Leaves (within t now) IsCategorized db (update category_model w f)
  edit-Leaves w f same = record {
    apply = ground (
      arith,
      update_cases category_model refl t now db w f,
      recategorized db.categories
          (set_where (owned category_model t w) (owned_values category_model t now f) db.categories)
          db.products
          (λ p k i e h.
            some_row-set_where_same (λ c. c.id == k && c.tenant_id == p.tenant_id)
              (owned category_model t w) (owned_values category_model t now f) db.categories
              (λ r fits. ground (arith, same r))
            ∙ h)
          fine,
    );
  }

  pub insert_product-Leaves :
      (dto : CreateProductDto) (category_id : Option Key)
      → ((k : Key) → category_id ≡ some k → has_category t k db.categories ≡ true)
      → Leaves (within t now) IsCategorized db (insert_product t dto category_id)
  unfolding insert_product fresh_id
  insert_product-Leaves dto category_id there =
      let d : Db = record db { generated = suc db.generated } in
      let row : Product = record {
        id = prisma.new_id db.generated;
        tenant_id = t;
        category_id = category_id;
        name = dto.name;
        code = dto.code;
        description = dto.description;
        status = set_or dto.status ProductStatus.draft;
        created_at = now;
        updated_at = now;
      } in
      let named : is_categorized db.categories row ≡ true = elim (Option-cases category_id) [
        | inl e ↦ ground arith
        | inr (k, e) ↦ let here = there k e in ground arith
      ] in
      record { apply = ground (arith, create_cases product_model refl t now d row) }

  pub edit_product-Leaves :
      (id : Key) (dto : UpdateProductDto) (category_id : Option Key)
      → ((k : Key) → category_id ≡ some k → has_category t k db.categories ≡ true)
      → Leaves
          (within t now)
          IsCategorized
          db
          (update product_model (λ r. r.id == id) (edit_product dto category_id))
  edit_product-Leaves id dto category_id there = record {
    apply = ground (
      arith,
      update_cases product_model refl t now db (λ r. r.id == id) (edit_product dto category_id),
      every-set_where (is_categorized db.categories) (owned product_model t λ r. r.id == id)
          (owned_values product_model t now (edit_product dto category_id)) db.products
          (λ r named fits. elim (Option-cases category_id) [
            | inl e ↦ ground arith
            | inr (k, e) ↦ let here = there k e in ground arith
          ])
          fine,
    );
  }

  pub delete_unless-Leaves :
      (id : Key)
      → Leaves
          (within t now)
          IsCategorized
          db
          (delete_unless category_model has_products (λ r. r.id == id))
  unfolding delete_unless
  delete_unless-Leaves id =
      let w : Category → Bool = owned category_model t λ r. r.id == id in
      let law = prisma.delete_lem Category w db.categories in
      elim (Bool-cases (some_row (λ r. w r && has_products r db) db.categories)) [
        | inl used ↦ record { apply = ground arith }
        | inr free ↦ elim (first_cases w db.categories) [
          | inl (none_fits, z) ↦ record { apply = ground arith }
          | inr (r, fits, i, own) ↦
              let dropped =
                recategorized db.categories (drop_where w db.categories) db.products
                  (λ p k pi e h.
                    some_row-kept (λ c. c.id == k && c.tenant_id == p.tenant_id) w db.categories
                      (λ c ci q. elim (Bool-cases (w c)) [
                        | inl wc ↦
                            let unused =
                              some_row-In (λ y. w y && has_products y db) db.categories c free ci in
                            let refers =
                              some_row-true (refers_to c.id) db.products p pi (ground arith) in
                            ground arith
                        | inr other ↦ other
                      ])
                      h)
                  fine in
              record { apply = ground arith }
        ]
      ]
