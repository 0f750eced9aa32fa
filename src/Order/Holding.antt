-- ===== src/Order/Holding.antt =====
-- `createOrder`: the items of the new order hold what was asked for.
use business_platform.Order.Selling.{requested, named-aggregate_items}
use business_platform.Platform.Facts.{owned, find_many_eq}
use business_platform.Prelude.{
  List, Option, [], arith, inl, inr, none, refl, sum_of, ℕ, ◌∙◌, ◌∷◌, ◌≡◌, ap, subst,
}
use business_platform.Prisma.{Prisma}
use business_platform.Schema.{
  Db, Key, Instant, OrderItem, PosSale, Price, Currency, ProductVariant, Product,
}
use business_platform.Platform.{
  ok, within, inventory_model, product_variant_model, price_model, product_model, Result-cases,
  conflict, price_not_found,
}
use business_platform.Platform.Frames.{
  Keeps, Keeps-then, Keeps-update_many, keeps, Keeps-find_many, Keeps-or_throw, Keeps-when_given,
}
use business_platform.Platform.Ends.{
  Ends, Ends-bind, Ends-then, Ends-Keeps, Ends-weaken, Ends-transaction,
}
use business_platform.Order.Defs.{
  CreateOrderDto, CreateOrderOptions, OrderItemInput, Quantities, includes, keys, OrderSummary,
  aggregate_items,
}
use business_platform.Order.Pricing.{PricedLine, price_lines}
use business_platform.Order.Creating.{
  take_stock, take_all, pool_store, priced_variants, create_order_in, create_order, input_items,
  product_ids,
}
use business_platform.Order.Totals.{AreLines, price_lines-charges}
use business_platform.Order.Frames.{everything, input_items-reads, check_customer-reads}
use business_platform.Order.Stock.{named}
use business_platform.Order.Written.{held, line_amount, Written, write_order-Written, Adds-from}

module _ (t : Key) (s : Option Key) (t' : Key) (s' : Option Key) (v' : Key) where
  -- The lines take what the aggregated quantities name.
  line_amount-named :
      (prices : List Price) (c : Option Currency) (m : Quantities) (ls : List PricedLine)
      → AreLines prices c m ls
      → sum_of (line_amount t s t' s' v') ls ≡ named t s t' s' v' m
  line_amount-named prices c [] [] h = refl
  line_amount-named prices c [] (l ∷ ls) h = elim h [ ]
  line_amount-named prices c (e ∷ m) [] h = elim h [ ]
  line_amount-named prices c ((v, q) ∷ m) (l ∷ ls) (p, e, f, g, h) =
      ground (arith, line_amount-named prices c m ls h)

-- All that a stock loop leaves alone and the order depends on.
abbrev kept : Db → (List OrderItem × List PosSale) × ℕ
kept db = (held db, db.generated)

module _ ⦃prisma : Prisma⦄ (t : Key) (now : Instant) where
  take_stock-Keeps-kept :
      (s : Option Key) (v : Key) (q : ℕ) → Keeps (within t now) kept (take_stock s v q)
  unfolding take_stock
  take_stock-Keeps-kept s v q =
      search (keeps, Keeps-update_many kept inventory_model refl (λ rs db. refl))

  take_all-Keeps-kept : (s : Option Key) (m : Quantities) → Keeps (within t now) kept (take_all s m)
  unfolding take_all
  take_all-Keeps-kept s [] = search keeps
  take_all-Keeps-kept s ((v, q) ∷ m) =
      Keeps-then (take_stock-Keeps-kept s v q) (take_all-Keeps-kept s m)

  module _ (s : Option Key) (t' : Key) (s' : Option Key) (v' : Key) where
    -- The lines of the pricing loop take what is named, and nothing is written.
    priced_variants-AsNamed :
        (m : Quantities) (db : Db)
        → Ends
            (within t now)
            (λ found db'.
              (sum_of (line_amount t s t' s' v') found.1.0 ≡ named t s t' s' v' m) × (db' ≡ db))
            db
            (priced_variants m)
    unfolding priced_variants
    priced_variants-AsNamed m db =
        let prices =
          prisma.find_many Price (owned price_model t λ (r : Price). includes (keys m) r.variant_id)
            db.prices in
        let variants_found =
          find_many_eq product_variant_model refl t now db
            λ (r : ProductVariant). includes (keys m) r.id in
        let prices_found =
          find_many_eq price_model refl t now db λ (r : Price). includes (keys m) r.variant_id in
        record {
          apply = elim (Result-cases (price_lines prices none m)) [
            | inr (x, e) ↦ ground (arith, variants_found, prices_found)
            | inl (lines, e) ↦
                let amounts =
                  line_amount-named t s t' s' v' prices lines.1 m lines.0
                    (price_lines-charges prices none m lines.0 lines.1 e).0 in
                ground (arith, variants_found, prices_found)
          ];
        }

    -- Neither the stock loop nor the reads before it change what the new order depends on.
    Written-from :
        (ls : List PricedLine) (m : Quantities) (db db' db'' : Db) (order : OrderSummary)
        → sum_of (line_amount t s t' s' v') ls ≡ named t s t' s' v' m
        → kept db' ≡ kept db
        → Written t now s t' s' v'
            (prisma.new_id db'.generated)
            (sum_of (line_amount t s t' s' v') ls)
            db'
            order
            db''
        → Written t now s t' s' v' (prisma.new_id db.generated) (named t s t' s' v' m) db order db''
    Written-from ls m db db' db'' order amounts same k =
        let id = prisma.new_id db'.generated in
        let n = sum_of (line_amount t s t' s' v') ls in
        let here : Written t now s t' s' v' id n db order db'' =
          (k.0, Adds-from t now s t' s' v' id n order db db' db'' (ap (λ p. p.0) same) k.1) in
        subst (λ x. Written t now s t' s' v' x (named t s t' s' v' m) db order db'')
          (ap (λ p. prisma.new_id p.1) same)
          (subst (λ x. Written t now s t' s' v' id x db order db'') amounts here)

    create_order_in-Written :
        (user : Key) (dto : CreateOrderDto) (options : CreateOrderOptions) (cart : Option Key)
        (m : Quantities) (db : Db)
        → Ends
            (within t now)
            (Written t now s t' s' v' (prisma.new_id db.generated) (named t s t' s' v' m) db)
            db
            (create_order_in t user dto options cart m)
    unfolding create_order_in
    create_order_in-Written user dto options cart m db =
        Ends-bind (priced_variants-AsNamed m db) λ found db1 h1.
          Ends-bind
            (Ends-Keeps (Keeps-or_throw {view = everything} found.1.1 (conflict price_not_found)))
            λ currency db2 h2.
              Ends-bind
                (Ends-Keeps (
                  Keeps-find_many {view = everything} product_model
                    (λ (r : Product). includes (product_ids found.0) r.id)))
                λ products db3 h3.
                  Ends-then (Ends-Keeps (take_all-Keeps-kept (pool_store options) m)) λ u db4 h4.
                    Ends-weaken
                      (λ order db5 k.
                        Written-from found.1.0 m db db4 db5 order h1.0
                          (h4 ∙ ap kept (h3 ∙ h2 ∙ h1.1)) k)
                      (write_order-Written t now s t' s' v' user dto options cart found.0 products
                        found.1.0 currency db4)

    input_items-Ends :
        (user : Key) (items : Option (List OrderItemInput))
        (input : List OrderItemInput × Option Key) (db : Db)
        → (input_items user items (within t now) db).0 ≡ ok input
        → Ends
            (within t now)
            (λ found db'. (found ≡ input) × (db' ≡ db))
            db
            (input_items user items)
    input_items-Ends user items input db given_items = record {
      apply = ground (arith, (input_items-reads t now user items).apply db);
    }

    pub create_order-Written :
        (user : Key) (dto : CreateOrderDto) (options : CreateOrderOptions)
        (input : List OrderItemInput × Option Key) (db : Db)
        → (input_items user dto.items (within t now) db).0 ≡ ok input
        → Ends
            (within t now)
            (Written t now s t' s' v'
              (prisma.new_id db.generated)
              (requested t s t' s' v' input.0)
              db)
            db
            (create_order user dto options)
    unfolding create_order
    create_order-Written user dto options input db given_items =
        let amount = λ (a : List OrderItemInput × Option Key). requested t s t' s' v' a.0 in
        let rest = Ends-bind (input_items-Ends user dto.items input db given_items) λ found db1 h1.
          Ends-then
            (Ends-Keeps
              (Keeps-when_given {view = everything} dto.customer_id (check_customer-reads t now)))
            λ u db2 h2.
              Ends-weaken
                (λ order db3 k.
                  subst
                    (λ d.
                      Written t now s t' s' v' (prisma.new_id d.generated) (amount input) d order
                        db3)
                    (h2 ∙ h1.1)
                    (subst
                      (λ n. Written t now s t' s' v' (prisma.new_id db2.generated) n db2 order db3)
                      (named-aggregate_items t s t' s' v' found.0 ∙ ap amount h1.0) k))
                (Ends-transaction (
                  create_order_in-Written user dto options found.1 (aggregate_items found.0)
                    db2)) in
        record { apply = rest.apply }
