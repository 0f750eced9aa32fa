-- ===== src/Pagination/Pages.antt =====
-- That pages lose no row and repeat none, and that cursors are read back.
use business_platform.Prisma.{SortDirection}
use business_platform.Prelude.{
  take, Bool, Bool-cases, In, List, Option, [], ap, arith, false, inl, inr, length, ltb, none, refl,
  select, some, subst, suc, sym, true, zero, ℕ, ◌++◌, ◌<◌, ◌∷◌, ◌≡◌, ◌≤◌,
}
use business_platform.Schema.{Key}
use business_platform.Pagination.{ℕ, build_keyset_where, last, fetch_page}

module _ {Row : Type 0} (primary : Row → ℕ) (id : Row → Key) (d : SortDirection) where
  abbrev pub after : Row → Row → Bool
  after a = build_keyset_where primary id (primary a) (id a) d

  -- Every row comes strictly after each that stands before it.
  abbrev pub IsListed : List Row → Type 0
  IsListed [] = Unit
  IsListed (r ∷ rs) = ((b : Row) → In b rs → after r b ≡ true) × IsListed rs

  after_asym : (a b : Row) → after a b ≡ true → after b a ≡ false
  after_asym a b h = ground arith

  after_irrefl : (a : Row) → after a a ≡ false
  after_irrefl a = ground arith

  select-all :
      (w : Row → Bool) (rs : List Row) → ((b : Row) → In b rs → w b ≡ true) → select w rs ≡ rs
  select-all w [] h = refl
  select-all w (r ∷ rs) h =
      let rest = select-all w rs (λ b i. h b (inr i)) in
      let fits = h r (inl refl) in rw (fits, rest) refl

  -- Where a full page ends: its last row, which the rest of the rows come after.
  page_end :
      (n : ℕ) (rs : List Row)
      → IsListed rs
      → suc n < length rs
      → (y : Row) × In y rs
        × (last (take (suc n) rs) ≡ some y)
        × (take (suc n) rs ++ select (after y) rs ≡ rs)
  page_end n [] h k = ground arith
  page_end zero (x ∷ rs) h k =
      (x, inl refl, refl, rw (after_irrefl x, select-all (after x) rs h.0) refl)
  page_end (suc n) (x ∷ rs) h k =
      let (y, i, l, e) = page_end n rs h.1 (omega (arith, k)) in
      let before = after_asym x y (h.0 y i) in
      (y, inr i, rw l refl, rw before (ap (λ ys. x ∷ ys) e))

  length-take : (n : ℕ) (rs : List Row) → n ≤ length rs → length (take n rs) ≡ n
  length-take zero rs h = refl
  length-take (suc n) [] h = ground arith
  length-take (suc n) (x ∷ rs) h = ground (arith, length-take n rs)

  take_short : (n : ℕ) (rs : List Row) → length rs ≤ n → take n rs ≡ rs
  take_short zero [] h = refl
  take_short zero (x ∷ rs) h = ground arith
  take_short (suc n) [] h = refl
  take_short (suc n) (x ∷ rs) h = ap (λ ys. x ∷ ys) (take_short n rs (omega (arith, h)))

  take-take : (n : ℕ) (rs : List Row) → take n (take (suc n) rs) ≡ take n rs
  take-take zero rs = refl
  take-take (suc n) [] = refl
  take-take (suc n) (x ∷ rs) = ap (λ ys. x ∷ ys) (take-take n rs)

  -- The rows that the next request finds: those after the row of the cursor, or none without one.
  abbrev pub following : List Row → Option Row → List Row
  following rs none = []
  following rs (some y) = select (after y) rs

  append_nil : (rs : List Row) → rs ++ [] ≡ rs
  append_nil [] = refl
  append_nil (x ∷ rs) = ap (λ ys. x ∷ ys) (append_nil rs)

  -- A page and what follows it make up the table, and the page keeps to its limit.
  abbrev pub Splits : ℕ → List Row → List Row × Option Row → Type 0
  Splits limit rs (page, cursor) = (page ++ following rs cursor ≡ rs) × (length page ≤ limit)

  -- Of a table in the order of the list, a page of at least one row, read with one row more than its
  -- limit, and what the keyset of its cursor selects of the same table make up the whole table: no
  -- row is lost or comes twice, and no page is longer than its limit.
  pub fetch_page-Splits :
      (limit : ℕ) (rs : List Row)
      → IsListed rs
      → Splits (suc limit) rs (fetch_page (take (suc (suc limit)) rs) (suc limit))
  fetch_page-Splits limit rs h = elim (Bool-cases (ltb (suc limit) (length rs))) [
    | inl more ↦
        let (y, i, l, e) = page_end limit rs h (ground arith) in
        let out : fetch_page (take (suc (suc limit)) rs) (suc limit)
            ≡ (take (suc limit) rs, some y) =
          rw (length-take (suc (suc limit)) rs (ground arith), take-take (suc limit) rs, l)
            (ground arith) in
        subst (Splits (suc limit) rs) (sym out) (e, ground (arith, length-take (suc limit) rs))
    | inr done ↦
        let out : fetch_page (take (suc (suc limit)) rs) (suc limit) ≡ (rs, none) =
          rw (take_short (suc (suc limit)) rs (ground arith), done) refl in
        subst (Splits (suc limit) rs) (sym out) (append_nil rs, ground arith)
  ]
