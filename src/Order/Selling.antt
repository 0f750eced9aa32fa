-- ===== src/Order/Selling.antt =====
-- What `createOrder` does to the stock: it takes what was ordered from the order's pool, and
-- nothing from any other, or leaves the database as it was.
use business_platform.Prelude.{
  some, none, refl, inr, inl, List, Option, [], arith, if◌then◌else◌, ℕ, ◌+◌, ◌∷◌, ◌≡◌,
}
use business_platform.Prisma.{Prisma}
use business_platform.Schema.{Db, Key, Instant, Currency, ProductVariant, Product}
use business_platform.Platform.{
  conflict, price_not_found, Result-cases, Error, Result, ok, err, within, ◌>>◌, transaction,
}
use business_platform.Inventory.Stock.{stock, same_locator, IsConsistent}
use business_platform.Order.Defs.{
  includes, CreateOrderDto, CreateOrderOptions, OrderItemInput, OrderSummary, Quantities,
  add_quantity, aggregate_from, aggregate_items,
}
use business_platform.Order.Pricing.{PricedLine}
use business_platform.Order.Creating.{
  priced_variants, product_ids, create_order_in, create_order, input_items, pool_store, take_all,
  write_order,
}
use business_platform.Order.Stock.{named, take_all-Took}
use business_platform.Platform.{product_model}
use business_platform.Platform.Facts.{owned, find_many_eq}
use business_platform.Platform.Frames.{Keeps-when_given}
use business_platform.Order.Frames.{
  everything, input_items-reads, check_customer-reads, priced_variants-reads,
  write_order-Keeps-pools,
}

-- How many units of the pool `t' s' v'` the items ask for, in an order of tenant `t` from the store
-- `s`.
abbrev pub requested : Key → Option Key → Key → Option Key → Key → List OrderItemInput → ℕ
requested t s t' s' v' [] = 0
requested t s t' s' v' (it ∷ its) =
    (if same_locator t s it.variant_id t' s' v' then it.quantity else 0)
    + requested t s t' s' v' its

module _ (t : Key) (s : Option Key) (t' : Key) (s' : Option Key) (v' : Key) where
  pub named-add_quantity :
      (v q : ℕ) (m : Quantities)
      → named t s t' s' v' (add_quantity v q m)
        ≡ named t s t' s' v' m + (if same_locator t s v t' s' v' then q else 0)
  named-add_quantity v q [] = omega arith
  named-add_quantity v q ((k, n) ∷ m) = ground (arith, named-add_quantity v q m)

  named-aggregate_from :
      (m : Quantities) (its : List OrderItemInput)
      → named t s t' s' v' (aggregate_from m its)
        ≡ named t s t' s' v' m + requested t s t' s' v' its
  unfolding aggregate_from
  named-aggregate_from m [] = omega arith
  named-aggregate_from m (it ∷ its) = omega (
    arith,
    named-aggregate_from (add_quantity it.variant_id it.quantity m) its,
    named-add_quantity it.variant_id it.quantity m,
  )

  -- Aggregation by variant keeps the amount that is asked of every pool.
  pub named-aggregate_items :
      (its : List OrderItemInput)
      → named t s t' s' v' (aggregate_items its) ≡ requested t s t' s' v' its
  unfolding aggregate_items
  named-aggregate_items its = omega (arith, named-aggregate_from [] its)

-- How an order of the quantities `m` may end.
abbrev pub Sold :
    Key → Option Key → Key → Option Key → Key → ℕ → Db → Result OrderSummary × Db → Type 0
Sold t s t' s' v' n db (ok order, db') =
    (stock t' s' v' db' + n ≡ stock t' s' v' db) × IsConsistent db'
Sold t s t' s' v' n db (err e, db') = db' ≡ db

module _ ⦃prisma : Prisma⦄ (t : Key) (now : Instant) (user : Key) (dto : CreateOrderDto)
    (options : CreateOrderOptions) (t' : Key) (s' : Option Key) (v' : Key) where
  -- In a transaction, the stock loop and the writes after it.
  sell :
      (cart : Option Key) (m : Quantities) (vs : List ProductVariant) (ps : List Product)
      (ls : List PricedLine) (cur : Currency) (db : Db)
      → IsConsistent db
      → Sold t (pool_store options) t' s' v' (named t (pool_store options) t' s' v' m) db (
          transaction
            (take_all (pool_store options) m >> write_order t user dto options cart vs ps ls cur)
            (within t now)
            db)
  sell cart m vs ps ls cur db consistent =
      let took = take_all (pool_store options) m (within t now) db in
      ground (
        arith,
        take_all-Took t now (pool_store options) t' s' v' m db consistent,
        (write_order-Keeps-pools t now t user dto options cart vs ps ls cur).apply took.1,
      )

  abbrev SoldIn : Option Key → Quantities → Db → Type 0
  SoldIn cart m db =
      Sold t (pool_store options) t' s' v' (named t (pool_store options) t' s' v' m) db
        (transaction (create_order_in t user dto options cart m) (within t now) db)

  sold_if_unpriced :
      (cart : Option Key) (m : Quantities) (db : Db) (e : Error)
      → (priced_variants m (within t now) db).0 ≡ err e
      → SoldIn cart m db
  unfolding create_order_in
  sold_if_unpriced cart m db e thrown = ground arith

  -- The products of the priced variants, as the lookup finds them.
  abbrev ordered : List ProductVariant → Db → List Product
  ordered vs db =
      prisma.find_many Product (owned product_model t λ r. includes (product_ids vs) r.id)
        db.products

  -- Without a currency to sell in, nothing is written.
  create_order_in-no_currency :
      (cart : Option Key) (m : Quantities) (vs : List ProductVariant) (ls : List PricedLine)
      (db : Db)
      → (priced_variants m (within t now) db).0 ≡ ok (vs, (ls, none))
      → (create_order_in t user dto options cart m (within t now) db).0
        ≡ err (conflict price_not_found)
  unfolding create_order_in
  create_order_in-no_currency cart m vs ls db priced_as = ground arith

  -- What a priced order still does.
  create_order_in-priced :
      (cart : Option Key) (m : Quantities) (vs : List ProductVariant) (ls : List PricedLine)
      (cur : Currency) (db : Db)
      → (priced_variants m (within t now) db).0 ≡ ok (vs, (ls, some cur))
      → (priced_variants m (within t now) db).1 ≡ db
      → create_order_in t user dto options cart m (within t now) db
        ≡ (take_all (pool_store options) m
              >> write_order t user dto options cart vs (ordered vs db) ls cur)
            (within t now)
            db
  unfolding create_order_in
  create_order_in-priced cart m vs ls cur db priced_as same = ground (
    arith,
    find_many_eq product_model refl t now db λ (r : Product). includes (product_ids vs) r.id,
  )

  sold_if_priced :
      (cart : Option Key) (m : Quantities) (vs : List ProductVariant) (ls : List PricedLine)
      (currency : Option Currency) (db : Db)
      → IsConsistent db
      → (priced_variants m (within t now) db).0 ≡ ok (vs, (ls, currency))
      → (priced_variants m (within t now) db).1 ≡ db
      → SoldIn cart m db
  sold_if_priced cart m vs ls none db consistent priced_as same =
      ground (arith, create_order_in-no_currency cart m vs ls db priced_as)
  sold_if_priced cart m vs ls (some cur) db consistent priced_as same = ground (
    arith,
    create_order_in-priced cart m vs ls cur db priced_as same,
    sell cart m vs (ordered vs db) ls cur db consistent,
  )

  create_order_in-Sold :
      (cart : Option Key) (m : Quantities) (db : Db) → IsConsistent db → SoldIn cart m db
  create_order_in-Sold cart m db consistent =
      elim (Result-cases (priced_variants m (within t now) db).0) [
        | inr (e, thrown) ↦ sold_if_unpriced cart m db e thrown
        | inl (found, priced_as) ↦
            sold_if_priced cart m found.0 found.1.0 found.1.1 db consistent priced_as
              ((priced_variants-reads t now m).apply db)
      ]

  -- An order that succeeds takes exactly what its items ask for from the pool of its store, or the
  -- global pool if it names none: for every pool of every tenant the stock after, with what was
  -- asked of that pool, is the stock before. An order that fails changes nothing in the database.
  pub create_order-takes_stock :
      (db : Db) {input : List OrderItemInput × Option Key}
      → IsConsistent db
      → (input_items user dto.items (within t now) db).0 ≡ ok input
      → Sold t
          (pool_store options)
          t'
          s'
          v'
          (requested t (pool_store options) t' s' v' input.0)
          db
          (create_order user dto options (within t now) db)
  unfolding create_order
  create_order-takes_stock db {input} consistent given_items = ground (
    arith,
    (input_items-reads t now user dto.items).apply db,
    (Keeps-when_given {c = within t now} {view = everything} dto.customer_id
          (check_customer-reads t now)).apply
        db,
    create_order_in-Sold input.1 (aggregate_items input.0) db consistent,
    named-aggregate_items t (pool_store options) t' s' v' input.0,
  )
