-- ===== src/Pagination/Mapped.antt =====
-- That a list of summaries is walked as the list of its rows.
use business_platform.Prelude.{
  ℕ, Option, Option-cases, List, [], ◌∷◌, ◌++◌, ◌≡◌, map, some, suc, zero, arith, ap, inl, inr,
  refl,
}
use business_platform.Schema.{Db}
use business_platform.Platform.{Action, Context, ok, pure, Outcome-cases, ◌>>=◌}
use business_platform.Pagination.{Token}
use business_platform.Pagination.Listing.{Paginated, map_page}
use business_platform.Pagination.Walk.{walk}

map-append : {A B : Type 0} (f : A → B) (xs ys : List A) → map f (xs ++ ys) ≡ map f xs ++ map f ys
map-append f [] ys = refl
map-append f (x ∷ xs) ys = ap (λ zs. f x ∷ zs) (map-append f xs ys)

module _ {A B : Type 0} (f : A → B) (request : Option Token → Action (Paginated A))
    (c : Context) where
  abbrev pub summaries : Option Token → Action (Paginated B)
  summaries cursor = request cursor >>= λ page. pure (map_page (map f) page)

  pub walk-map :
      (n : ℕ) (cursor : Option Token) (rs : List A) (db db' : Db)
      → walk request n cursor c db ≡ (ok (some rs), db')
      → walk summaries n cursor c db ≡ (ok (some (map f rs)), db')
  walk-map zero cursor rs db db' h = ground arith
  walk-map (suc n) cursor rs db db' h = elim (Outcome-cases (request cursor c db)) [
    | inr (e, d, out) ↦ ground arith
    | inl (page, d, out) ↦ elim (Option-cases page.next_cursor) [
      | inl last ↦ ground arith
      | inr (token, next) ↦ elim (Outcome-cases (walk request n (some token) c d)) [
        | inr (e, d', out') ↦ ground arith
        | inl (rest, d', out') ↦ elim (Option-cases rest) [
          | inl too_many ↦ ground arith
          | inr (more, e) ↦
              let same : walk request n (some token) c d ≡ (ok (some more), db') = ground arith in
              let ih = walk-map n (some token) more d db' same in
              let joined = map-append f page.rows more in ground arith
        ]
      ]
    ]
  ]

-- Requests that do the same are walked the same.
pub walk_same :
    {A : Type 0} (f g : Option Token → Action (Paginated A)) (c : Context)
    → ((cursor : Option Token) (db : Db) → f cursor c db ≡ g cursor c db)
    → (n : ℕ) (cursor : Option Token) (db : Db) → walk f n cursor c db ≡ walk g n cursor c db
walk_same f g c same zero cursor db = refl
walk_same f g c same (suc n) cursor db =
    let here = same cursor db in
    elim (Outcome-cases (g cursor c db)) [
      | inr (e, d, out) ↦ ground arith
      | inl (page, d, out) ↦ elim (Option-cases page.next_cursor) [
        | inl last ↦ ground arith
        | inr (token, next) ↦ let ih = walk_same f g c same n (some token) d in ground arith
      ]
    ]
