-- ===== src/Cart/Merging.antt =====
-- What adding to a cart does to its lines.
use business_platform.Prelude.{
  Bool, Bool-cases, In, List, [], ap, arith, count, count_pos, false, if◌then◌else◌, inl, inr, none,
  refl, set_where, some, subst, suc, sym, total, true, ℕ, ◌&&◌, ◌+◌, ◌==◌, ◌∙◌, ◌∷◌, ◌≡◌,
}
use business_platform.Prisma.{Prisma, p2002}
use business_platform.Schema.{Db, Key, Instant, CartItem}
use business_platform.Platform.{
  Result, ok, err, within, cart_item_model, Error, conflict, database, cart_item_not_found, catch,
  fresh_id, Outcome-cases, find_first,
}
use business_platform.Platform.Facts.{
  owned, owned_values, update_cases, find_first_cases, create_cases,
}
use business_platform.Platform.Unique.{IsKeyed, same_row, count_le_one}
use business_platform.Cart.Editing.{
  AddCartItemDto, increment, line_handler, find_line, create_line, merge_line,
}

-- The line of a variant in a cart of tenant `t`.
abbrev pub is_line : Key → Key → Key → CartItem → Bool
is_line t cart v r = (r.cart_id == cart && r.variant_id == v) && r.tenant_id == t

-- How many units of a variant a cart holds.
abbrev pub units : Key → Key → Key → Db → ℕ
units t cart v db = total (is_line t cart v) (λ r. r.quantity) db.cart_items

abbrev pub same_line : Key → Key → Key → Key → Key → Key → Bool
same_line t cart v t' cart' v' = (cart == cart' && v == v') && t == t'

-- Each replaced row stays in the sum with `p` more, or stays outside of it.
total-set_where_more :
    {A : Type 0} (q w : A → Bool) (f : A → A) (val : A → ℕ) (p : ℕ) (b : Bool) (xs : List A)
    → ((r : A) → In r xs → w r ≡ true → (q r ≡ b) × (q (f r) ≡ b) × (val (f r) ≡ val r + p))
    → total q val (set_where w f xs) ≡ total q val xs + (if b then total w (λ r. p) xs else 0)
total-set_where_more q w f val p true [] h = refl
total-set_where_more q w f val p false [] h = refl
total-set_where_more q w f val p b (x ∷ xs) h =
    let rest = total-set_where_more q w f val p b xs (λ r i. h r (inr i)) in
    elim (Bool-cases (w x)) [
      | inl e ↦ let (before, after, more) = h x (inl refl) e in ground arith
      | inr e ↦ ground arith
    ]

total-once :
    {A : Type 0} (w : A → Bool) (p : ℕ) (xs : List A) → count w xs ≡ 0 → total w (λ r. p) xs ≡ 0
total-once w p [] h = refl
total-once w p (x ∷ xs) h = ground (arith, total-once w p xs)

total-one :
    {A : Type 0} (w : A → Bool) (p : ℕ) (xs : List A) → count w xs ≡ 1 → total w (λ r. p) xs ≡ p
total-one w p [] h = ground arith
total-one w p (x ∷ xs) h = ground (arith, total-one w p xs, total-once w p xs)

-- How an addition of `q` units ends: the line has them more, and every other line is as it was; or
-- with an error, and no line has changed.
abbrev pub Adds : {A : Type 0} → Key → Key → Key → ℕ → Key → Key → Key → Db → Result A × Db → Type 0
Adds t cart v q t' cart' v' db (ok a, db') =
    units t' cart' v' db' ≡ units t' cart' v' db + (if same_line t cart v t' cart' v' then q else 0)
Adds t cart v q t' cart' v' db (err e, db') = db'.cart_items ≡ db.cart_items

module _ ⦃prisma : Prisma⦄ (t : Key) (now : Instant) (cart : Key) (dto : AddCartItemDto)
    (t' cart' v' : Key) where
  abbrev added : List CartItem → ℕ
  added rs = total (is_line t' cart' v') (λ r. r.quantity) rs

  -- One more of a line that is there.
  increment-Adds :
      (db : Db) (r : CartItem)
      → IsKeyed (λ (x : CartItem). x.id) db.cart_items
      → In r db.cart_items
      → is_line t cart dto.variant_id r ≡ true
      → Adds t cart dto.variant_id dto.quantity t' cart' v' db
          (increment r.id dto.quantity (within t now) db)
  unfolding increment
  increment-Adds db r keyed i line =
      let q = dto.quantity in
      let w = owned cart_item_model t λ x. x.id == r.id in
      let f = owned_values cart_item_model t now λ x. record x { quantity = x.quantity + q } in
      let b = same_line t cart dto.variant_id t' cart' v' in
      let once : count w db.cart_items ≡ 1 = omega (
        arith,
        count_le_one (λ (x : CartItem). x.id) w r.id (λ x k. ground arith) db.cart_items keyed,
        count_pos w db.cart_items r i (ground arith),
      ) in
      let moved =
        total-set_where_more (is_line t' cart' v') w f (λ x. x.quantity) q b db.cart_items
          λ x j k.
            let one =
              same_row (λ (y : CartItem). y.id) db.cart_items x r keyed j i (ground arith) in
            rw one (ground arith, ground arith, refl) in
      ground (
        arith,
        update_cases cart_item_model refl t now db (λ x. x.id == r.id)
            λ x. record x { quantity = x.quantity + q },
        moved,
        total-one w q db.cart_items once,
      )

  abbrev AddsHere : {A : Type 0} → Db → Result A × Db → Type 0
  AddsHere db out = Adds t cart dto.variant_id dto.quantity t' cart' v' db out

  abbrev line_row : CartItem → Bool
  line_row = owned cart_item_model t λ r. r.cart_id == cart && r.variant_id == dto.variant_id

  -- A new line, of a variant that the cart does not hold.
  create_line-Adds : (db : Db) → AddsHere db (create_line t cart dto (within t now) db)
  unfolding create_line fresh_id
  create_line-Adds db =
      let later = record db { generated = suc db.generated } in
      ground (
        arith,
        create_cases cart_item_model refl t now later record {
          id = prisma.new_id db.generated;
          tenant_id = t;
          cart_id = cart;
          variant_id = dto.variant_id;
          quantity = dto.quantity;
          created_at = now;
          updated_at = now;
        },
      )

  -- After a failure to create it, the line is looked for in vain.
  line_handler-fails :
      (db : Db) (e : Error)
      → count line_row db.cart_items ≡ 0
      → (x : Error) × (line_handler cart dto e (within t now) db ≡ (err x, db))
  unfolding line_handler find_line
  line_handler-fails db (database (p2002 target)) none_fits =
      elim (find_first_cases cart_item_model refl t now db
        (λ r. r.cart_id == cart && r.variant_id == dto.variant_id)) [
          | inl (e, z) ↦ (conflict cart_item_not_found, ground arith)
          | inr (r, e, i, h) ↦ ground (arith, count_pos line_row db.cart_items r i h)
        ]
  line_handler-fails db e none_fits = (e, refl)

  merge_line-found :
      (db : Db) (r : CartItem)
      → find_first cart_item_model
          (λ x. x.cart_id == cart && x.variant_id == dto.variant_id)
          (within t now)
          db
        ≡ (ok (some r), db)
      → merge_line t cart dto (within t now) db ≡ increment r.id dto.quantity (within t now) db
  unfolding merge_line find_line
  merge_line-found db r e = ground arith

  merge_line-new :
      (db : Db)
      → find_first cart_item_model
          (λ x. x.cart_id == cart && x.variant_id == dto.variant_id)
          (within t now)
          db
        ≡ (ok none, db)
      → merge_line t cart dto (within t now) db
        ≡ catch (create_line t cart dto) (line_handler cart dto) (within t now) db
  unfolding merge_line find_line
  merge_line-new db e = ground arith

  new-Adds :
      (db : Db)
      → count line_row db.cart_items ≡ 0
      → AddsHere db (catch (create_line t cart dto) (line_handler cart dto) (within t now) db)
  new-Adds db none_fits =
      let created = create_line-Adds db in
      elim (Outcome-cases (create_line t cart dto (within t now) db)) [
        | inl (r, db', e) ↦
            let kept = subst (AddsHere db) e created in
            let out : catch (create_line t cart dto) (line_handler cart dto) (within t now) db
                ≡ (ok r, db') =
              ground arith in
            subst (AddsHere db) (sym out) kept
        | inr (x, db', e) ↦
            let kept = subst (AddsHere db) e created in
            let (y, thrown) = line_handler-fails db' x (ap (count line_row) kept ∙ none_fits) in
            let out : catch (create_line t cart dto) (line_handler cart dto) (within t now) db
                ≡ (err y, db') =
              ground arith in
            subst (AddsHere db) (sym out) kept
      ]

  -- Adding a variant to a cart gives its line in the cart exactly the units that were asked for,
  -- whether the line is new or was there, and changes no line of another variant, cart or tenant;
  -- where it fails, no line has changed. Identifiers must be unique in the table.
  pub merge_line-Adds :
      (db : Db)
      → IsKeyed (λ (x : CartItem). x.id) db.cart_items
      → Adds t cart dto.variant_id dto.quantity t' cart' v' db
          (merge_line t cart dto (within t now) db)
  merge_line-Adds db keyed =
      elim (find_first_cases cart_item_model refl t now db
        (λ r. r.cart_id == cart && r.variant_id == dto.variant_id)) [
          | inl (e, z) ↦ subst (AddsHere db) (sym (merge_line-new db e)) (new-Adds db z)
          | inr (r, e, i, h) ↦
              subst (AddsHere db) (sym (merge_line-found db r e)) (increment-Adds db r keyed i h)
        ]
