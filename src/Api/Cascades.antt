-- ===== src/Api/Cascades.antt =====
-- The requests that are not among the calls: those that write grants, and the deletions that the
-- database extends by foreign keys, whatever the tenant of a row that refers to the deleted one.
use business_platform.Prelude.{
  Bool, List, [], arith, count, drop_where, inl, inr, not, refl, subst, sym, true, ℕ, ◌&&◌, ◌==◌,
  ◌∷◌, ◌≡◌, In, ◌⊎◌, ap,
}
use business_platform.Prisma.{Prisma, p2025}
use business_platform.Schema.{Db, Key, Instant, Cart, ProductVariant, Product}
use business_platform.Platform.{
  Action, Model, Outcome-cases, ok, err, pure, within, ◌>>◌, product_model, product_variant_model,
  price_model, inventory_model, cart_model, cart_item_model, cascade, Error, not_found,
  cart_not_found, database,
}
use business_platform.Platform.Constraints.{some_row}
use business_platform.Platform.Facts.{owned, find_first_cases, delete_cases}
use business_platform.Platform.Frames.{Keeps-then, Keeps-pure}
use business_platform.Platform.Isolation.{others, foreign, others-drop_where}
use business_platform.Platform.Unique.{some_row-true}
use business_platform.Rbac.Permission.{Memo}
use business_platform.Rbac.Role.{CreateRoleDto, create_role, delete_role, assign_permissions}
use business_platform.Order.Creating.{is_open}
use business_platform.Cart.Editing.{discard_cart}
use business_platform.Catalog.Deletion.{is_variant_of, delete_product}
use business_platform.Catalog.History.{delete_product_cases}
use business_platform.Api.Grants.{
  tenant_rows, create_role-kept, delete_role-kept, assign_permissions-kept,
}

pub data Removal : Type 0 where
  creates_role : (Key → ℕ) → Memo → Key → CreateRoleDto → Removal
  deletes_role : Memo → Key → Key → Removal
  replaces_permissions : (Key → ℕ) → Memo → Key → Key → List Key → Removal
  discards_cart : Key → Removal
  deletes_product : Key → Removal

-- The rows that refer to a product, a variant of one or a cart of tenant `t`.
abbrev pub is_product_of : Key → Db → Key → Bool
is_product_of t db k = some_row (λ p. p.id == k && p.tenant_id == t) db.products

abbrev pub is_sold_by : Key → Db → Key → Bool
is_sold_by t db k = some_row (λ v. v.id == k && is_product_of t db v.product_id) db.variants

abbrev pub is_cart_of : Key → Db → Key → Bool
is_cart_of t db k = some_row (λ c. c.id == k && c.tenant_id == t) db.carts

-- No row of another tenant passes the test.
abbrev pub AreOwn : {Row : Type 0} → Model Row → Key → (Row → Bool) → List Row → Type 0
AreOwn m t w rs = count (λ r. w r && not (m.tenant_of r == t)) rs ≡ 0

-- What refers to a row of tenant `t` by a cascading foreign key belongs to tenant `t`.
abbrev pub IsLinked : Key → Db → Type 0
IsLinked t db =
    AreOwn product_variant_model t (λ v. is_product_of t db v.product_id) db.variants
    × AreOwn price_model t (λ p. is_sold_by t db p.variant_id) db.prices
    × AreOwn inventory_model t (λ r. is_sold_by t db r.variant_id) db.inventories
    × AreOwn cart_item_model t (λ r. is_sold_by t db r.variant_id) db.cart_items
    × AreOwn cart_item_model t (λ r. is_cart_of t db r.cart_id) db.cart_items

others-drop_own :
    {Row : Type 0} (m : Model Row) (t : Key) (w own : Row → Bool)
    → ((r : Row) → w r ≡ true → own r ≡ true)
    → (rs : List Row) → AreOwn m t own rs
    → others m t (drop_where w rs) ≡ others m t rs
others-drop_own m t w own h [] k = refl
others-drop_own m t w own h (r ∷ rs) k = ground (arith, h r, others-drop_own m t w own h rs)

some_row_le :
    {A : Type 0} (v w : A → Bool)
    → ((a : A) → v a ≡ true → w a ≡ true)
    → (xs : List A) → some_row v xs ≡ true
    → some_row w xs ≡ true
some_row_le v w h [] e = e
some_row_le v w h (x ∷ xs) e = ground (arith, h x, some_row_le v w h xs)

module _ ⦃prisma : Prisma⦄ (t : Key) (now : Instant) (db : Db) (linked : IsLinked t db) where
  deleted_sold :
      (id : Key)
      → is_product_of t db id ≡ true
      → (k : Key) → is_variant_of id k db ≡ true
      → is_sold_by t db k ≡ true
  deleted_sold id there k =
      some_row_le (λ (v : ProductVariant). v.product_id == id && v.id == k)
        (λ v. v.id == k && is_product_of t db v.product_id)
        (λ v h.
          let same : v.product_id ≡ id = ground arith in
          let here = subst (λ x. is_product_of t db x ≡ true) (sym same) there in ground arith)
        db.variants

  delete_product-kept :
      (id : Key) → foreign t (delete_product id (within t now) db).1 ≡ foreign t db
  delete_product-kept id = elim (delete_product_cases t now id db) [
    | inr (e, out) ↦ subst (λ o. foreign t o.1 ≡ foreign t db) (sym out) refl
    | inl (p, (i, own, free), out) ↦
        let there =
          some_row-true (λ (x : Product). x.id == id && x.tenant_id == t) db.products p i own in
        let sold = deleted_sold id there in
        let (variants, prices, inventories, cart_items, carts) = linked in
        subst (λ o. foreign t o.1 ≡ foreign t db) (sym out)
          (cc (
            others-drop_where product_model t (λ x. x.id == id) db.products,
            others-drop_own product_variant_model t (λ v. v.product_id == id)
                (λ v. is_product_of t db v.product_id)
                (λ v h. subst (λ x. is_product_of t db x ≡ true) (sym (ground arith)) there)
                db.variants variants,
            others-drop_own price_model t (λ x. is_variant_of id x.variant_id db)
                (λ x. is_sold_by t db x.variant_id) (λ x h. sold x.variant_id h) db.prices prices,
            others-drop_own inventory_model t (λ x. is_variant_of id x.variant_id db)
                (λ x. is_sold_by t db x.variant_id) (λ x h. sold x.variant_id h) db.inventories
                inventories,
            others-drop_own cart_item_model t (λ x. is_variant_of id x.variant_id db)
                (λ x. is_sold_by t db x.variant_id) (λ x h. sold x.variant_id h) db.cart_items
                cart_items,
          ))
  ]

  abbrev without_cart : Cart → Db
  without_cart c = record db {
    carts = drop_where (owned cart_model t (λ r. r.id == c.id)) db.carts;
    cart_items = drop_where (λ r. r.cart_id == c.id) db.cart_items;
  }

  discard_cart_cases :
      (user : Key)
      → ((c : Cart) × In c db.carts
          × (c.tenant_id == t ≡ true)
          × (discard_cart user (within t now) db ≡ (ok tt, without_cart c)))
        ⊎ ((e : Error) × (discard_cart user (within t now) db ≡ (err e, db)))
  unfolding discard_cart cascade
  discard_cart_cases user =
      elim (find_first_cases cart_model refl t now db
        (λ r. r.user_id == user && is_open r.status)) [
          | inl (missing, z) ↦ inr (not_found cart_not_found, ground arith)
          | inr (c, found, i, fits) ↦
              elim (delete_cases cart_model refl t now db (λ r. r.id == c.id)) [
                | inl (gone, z) ↦ inr (database p2025, ground arith)
                | inr (r, gone, there) ↦ inl (c, i, ground arith, ground arith)
              ]
        ]

  discard_cart-kept :
      (user : Key) → foreign t (discard_cart user (within t now) db).1 ≡ foreign t db
  discard_cart-kept user = elim (discard_cart_cases user) [
    | inr (e, out) ↦ subst (λ o. foreign t o.1 ≡ foreign t db) (sym out) refl
    | inl (c, i, own, out) ↦
        let there =
          some_row-true (λ (x : Cart). x.id == c.id && x.tenant_id == t) db.carts c i
            (ground arith) in
        let (variants, prices, inventories, cart_items, carts) = linked in
        subst (λ o. foreign t o.1 ≡ foreign t db) (sym out)
          (cc (
            others-drop_where cart_model t (λ x. x.id == c.id) db.carts,
            others-drop_own cart_item_model t (λ x. x.cart_id == c.id)
                (λ x. is_cart_of t db x.cart_id)
                (λ x h. subst (λ k. is_cart_of t db k ≡ true) (sym (ground arith)) there)
                db.cart_items carts,
          ))
  ]

module _ ⦃prisma : Prisma⦄ where
  unfoldable pub remove : Removal → Action (Unit {0})
  remove (creates_role text_length memo actor dto) =
      create_role text_length memo actor dto >> pure tt
  remove (deletes_role memo actor id) = delete_role memo actor id >> pure tt
  remove (replaces_permissions text_length memo actor id ids) =
      assign_permissions text_length memo actor id ids >> pure tt
  remove (discards_cart user) = discard_cart user
  remove (deletes_product id) = delete_product id >> pure tt

-- The two deletions are safe where what refers to the tenant's rows is the tenant's own.
abbrev pub IsSafe : Key → Db → Removal → Type 0
IsSafe t db (discards_cart user) = IsLinked t db
IsSafe t db (deletes_product id) = IsLinked t db
IsSafe t db r = Unit

grants_aside :
    (t : Key) (db db' : Db) → foreign t db' ≡ foreign t db → tenant_rows t db' ≡ tenant_rows t db
grants_aside t db db' e = ap (λ (d : Db). record d { role_permissions = [] }) e

module _ ⦃prisma : Prisma⦄ (t : Key) (now : Instant) (db : Db) where
  then_done :
      {A : Type 0} (m : Action A)
      → foreign t (m (within t now) db).1 ≡ foreign t db
      → foreign t ((m >> pure tt) (within t now) db).1 ≡ foreign t db
  then_done m e = elim (Outcome-cases (m (within t now) db)) [
    | inl (a, db', out) ↦
        let same : (m >> pure tt) (within t now) db ≡ (ok tt, db') = ground arith in
        subst (λ o. foreign t o.1 ≡ foreign t db) (sym same) (rw out at e)
    | inr (x, db', out) ↦
        let same : (m >> pure tt) (within t now) db ≡ (err x, db') = ground arith in
        subst (λ o. foreign t o.1 ≡ foreign t db) (sym same) (rw out at e)
  ]

  -- A request of tenant `t` that creates a role, deletes one or replaces its permissions keeps every
  -- row of every other tenant in every table that has a tenant column, whether it succeeds or fails.
  -- So does one that discards a cart or deletes a product, where the rows that refer to a product, a
  -- variant of one or a cart of tenant `t` by a cascading foreign key belong to tenant `t` as well.
  pub remove-keeps_others :
      (r : Removal)
      → IsSafe t db r
      → tenant_rows t (remove r (within t now) db).1 ≡ tenant_rows t db
  unfolding remove
  remove-keeps_others (creates_role text_length memo actor dto) safe =
      (Keeps-then (create_role-kept t now text_length memo actor dto) (Keeps-pure tt)).apply db
  remove-keeps_others (deletes_role memo actor id) safe =
      (Keeps-then (delete_role-kept t now memo actor id) (Keeps-pure tt)).apply db
  remove-keeps_others (replaces_permissions text_length memo actor id ids) safe =
      (Keeps-then (assign_permissions-kept t now text_length memo actor id ids)
          (Keeps-pure tt)).apply
        db
  remove-keeps_others (discards_cart user) safe =
      grants_aside t db (discard_cart user (within t now) db).1
        (discard_cart-kept t now db safe user)
  remove-keeps_others (deletes_product id) safe =
      grants_aside t db ((delete_product id >> pure tt) (within t now) db).1
        (then_done (delete_product id) (delete_product-kept t now db safe id))
