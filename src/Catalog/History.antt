-- ===== src/Catalog/History.antt =====
-- That the deletion of a product leaves the history of orders alone.
use business_platform.Prelude.{
  Bool, Bool-cases, In, List, [], arith, count, drop_where, false, first_cases, inl, inr, refl,
  true, ◌&&◌, ◌==◌, ◌∷◌, ◌≡◌, subst, sym, ◌⊎◌,
}
use business_platform.Prisma.{Prisma, p2003}
use business_platform.Schema.{
  Db, Key, Instant, OrderItem, Product, ProductVariant, Price, Inventory, CartItem,
}
use business_platform.Platform.{
  Result, ok, err, within, product_model, cascade, delete_unless, Error, not_found,
  product_not_found, database,
}
use business_platform.Platform.Constraints.{some_row}
use business_platform.Platform.Facts.{find_unique_eq, owned}
use business_platform.Platform.Unique.{some_row-true, some_row-In}
use business_platform.Catalog.Products.{find_product, require_product}
use business_platform.Catalog.Integrity.{some_row-kept}
use business_platform.Catalog.Deletion.{is_variant_of, is_ordered, cascade_product, delete_product}

-- Every order item names a variant that is there.
abbrev pub HasVariants : Db → Type 0
HasVariants db =
    (it : OrderItem)
    → In it db.order_items
    → some_row (λ v. v.id == it.variant_id) db.variants ≡ true

-- Nothing of the product `id` is left that `db` had of it.
abbrev pub IsGone : Key → Db → Db → Type 0
IsGone id db db' =
    (count (λ v. v.product_id == id) db'.variants ≡ 0)
    × (count (λ p. is_variant_of id p.variant_id db) db'.prices ≡ 0)
    × (count (λ r. is_variant_of id r.variant_id db) db'.inventories ≡ 0)
    × (count (λ r. is_variant_of id r.variant_id db) db'.cart_items ≡ 0)

-- How a deletion may end.
abbrev pub Deleted : Key → Key → Db → Result Key × Db → Type 0
Deleted t id db (ok k, db') =
    (k ≡ id)
    × (count (owned product_model t (λ r. r.id == id)) db'.products ≡ 0)
    × IsGone id db db'
    × (db'.order_items ≡ db.order_items)
    × HasVariants db'
Deleted t id db (err e, db') = db' ≡ db

count-drop_where : {A : Type 0} (w : A → Bool) (rs : List A) → count w (drop_where w rs) ≡ 0
count-drop_where w [] = refl
count-drop_where w (x ∷ xs) = ground (arith, count-drop_where w xs)

module _ ⦃prisma : Prisma⦄ (t : Key) (now : Instant) (id : Key) (db : Db) where
  abbrev pub its_product : Product → Bool
  its_product = owned product_model t (λ r. r.id == id)

  abbrev pub remaining : Db
  remaining = record db {
    products = drop_where its_product db.products;
    prices = drop_where (λ p. is_variant_of id p.variant_id db) db.prices;
    inventories = drop_where (λ r. is_variant_of id r.variant_id db) db.inventories;
    cart_items = drop_where (λ r. is_variant_of id r.variant_id db) db.cart_items;
    variants = drop_where (λ v. v.product_id == id) db.variants;
  }

  -- The product is there and no item names a variant of it.
  abbrev IsFree : Product → Type 0
  IsFree p =
      In p db.products
      × (its_product p ≡ true)
      × (some_row (λ r. its_product r && is_ordered r db) db.products ≡ false)

  pub delete_product_cases :
      ((p : Product) × IsFree p × (delete_product id (within t now) db ≡ (ok id, remaining)))
      ⊎ ((e : Error) × (delete_product id (within t now) db ≡ (err e, db)))
  unfolding delete_product require_product find_product delete_unless cascade_product cascade
  delete_product_cases =
      let read = find_unique_eq product_model refl t now db (λ r. r.id == id) in
      let law = prisma.delete_lem Product its_product db.products in
      elim (first_cases its_product db.products) [
        | inl (missing, z) ↦ inr (not_found product_not_found, ground arith)
        | inr (p, found, i, own) ↦
            elim (Bool-cases (some_row (λ r. its_product r && is_ordered r db) db.products)) [
              | inl used ↦ inr (database p2003, ground arith)
              | inr free ↦ inl (p, (i, own, free), ground arith)
            ]
      ]

module _ ⦃prisma : Prisma⦄ (t : Key) (now : Instant) (id : Key) (db : Db)
    (named : HasVariants db) where
  -- The product is not deleted if an item names a variant of it.
  still_named :
      (p : Product)
      → In p db.products
      → owned product_model t (λ r. r.id == id) p ≡ true
      → some_row (λ r. owned product_model t (λ x. x.id == id) r && is_ordered r db) db.products
        ≡ false
      → (it : OrderItem) → In it db.order_items
      → some_row (λ v. v.id == it.variant_id) (drop_where (λ v. v.product_id == id) db.variants)
        ≡ true
  still_named p i own free it j =
      some_row-kept (λ (v : ProductVariant). v.id == it.variant_id)
        (λ (v : ProductVariant). v.product_id == id) db.variants
        (λ v k same. elim (Bool-cases (v.product_id == id)) [
          | inl its ↦
              let unused =
                some_row-In
                  (λ (r : Product). owned product_model t (λ x. x.id == id) r && is_ordered r db)
                  db.products p free i in
              let sold =
                some_row-true (λ (x : OrderItem). is_variant_of id x.variant_id db) db.order_items
                  it j
                  (some_row-true
                    (λ (y : ProductVariant). y.product_id == id && y.id == it.variant_id)
                    db.variants v k (ground arith)) in
              let same_product : p.id ≡ id = ground arith in
              let ordered : is_ordered p db ≡ true =
                subst
                  (λ k.
                    some_row (λ (x : OrderItem). is_variant_of k x.variant_id db) db.order_items
                    ≡ true)
                  (sym same_product) sold in
              ground arith
          | inr other ↦ other
        ])
        (named it j)

  -- If every order item names a variant that is there, that is so after the deletion of a product.
  -- One that succeeds leaves nothing of the product: neither it nor a variant of it, nor a price, a
  -- stock pool or a cart line of one; and no order item is changed. One that fails changes nothing.
  pub delete_product-Deleted : Deleted t id db (delete_product id (within t now) db)
  delete_product-Deleted = elim (delete_product_cases t now id db) [
    | inr (e, out) ↦ subst (Deleted t id db) (sym out) refl
    | inl (p, (i, own, free), out) ↦ subst (Deleted t id db) (sym out) (
      refl,
      count-drop_where (its_product t now id db) db.products,
      (
        count-drop_where (λ (v : ProductVariant). v.product_id == id) db.variants,
        count-drop_where (λ (p : Price). is_variant_of id p.variant_id db) db.prices,
        count-drop_where (λ (r : Inventory). is_variant_of id r.variant_id db) db.inventories,
        count-drop_where (λ (r : CartItem). is_variant_of id r.variant_id db) db.cart_items,
      ),
      refl,
      still_named p i own free,
    )
  ]
