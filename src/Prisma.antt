-- ===== src/Prisma.antt =====
-- What the program relies on of the Prisma client and PostgreSQL, which are not part of the
-- repository: a record of operations and of their documented laws, which every definition that
-- touches the database takes as an instance argument.
use business_platform.Prelude.{
  sum_of, total, ℕ, ◌≤◌, ◌<◌, ◌≡◌, Bool, true, Option, none, some, List, ◌∷◌, first, count,
  set_where, drop_where, In, IsOrdered, length, ◌++◌, ltb, ◌||◌, ◌&&◌, ◌==◌, false, [],
}

-- The column set that a unique index covers, as `error.meta.target` tells it.
pub data Target : Type 0 where
  client_uuid other_columns : Target

-- What a failing statement throws: a known request error with its code (P2002 unique, P2003
-- foreign key, P2004 constraint, P2025 record not found), an unknown request error whose message
-- embeds the SQLSTATE (23P01 exclusion, 23514 check, 22003 out of range), or a validation error.
pub data DbError : Type 0 where
  p2002 : Target → DbError
  p2003 p2004 p2025 exclusion_violation check_violation out_of_range validation : DbError

-- The reply of a statement.
pub data Reply (A : Type 0) : Type 0 where
  reply : A → Reply A
  fault : DbError → Reply A

-- A statement is atomic: the new rows are stored if the constraints of the table hold of them, and
-- nothing is stored if one does not.
abbrev pub commit :
    {A Row : Type 0} → (List Row → Option DbError) → A → List Row → Reply (A × List Row)
commit check a rows = elim (check rows) [ none ↦ reply (a, rows) | some e ↦ fault e ]

-- `SortDirection` of src/common/pagination/cursor.ts, which is what the client's `orderBy` takes.
pub data SortDirection : Type 0 where
  asc desc : SortDirection

module _ {Row : Type 0} where
  -- `orderBy: [{ primary: direction }, { id: direction }]`: one row stands before the other.
  abbrev pub precedes : SortDirection → (Row → ℕ) → (Row → ℕ) → Row → Row → Bool
  precedes asc primary id a b =
      ltb (primary a) (primary b) || (primary b == primary a && ltb (id a) (id b))
  precedes desc primary id a b =
      ltb (primary b) (primary a) || (primary b == primary a && ltb (id b) (id a))

  -- No row stands before one that comes earlier in the list.
  abbrev pub IsSorted : (Row → Row → Bool) → List Row → Type 0
  IsSorted before [] = Unit
  IsSorted before (x ∷ xs) = ((y : Row) → In y xs → before y x ≡ false) × IsSorted before xs

pub record Prisma : Type 1 where
  -- The n-th identifier that the client generates, by `@default(cuid())` or `@default(uuid())`.
  pub new_id : ℕ → ℕ
  pub find_unique : (Row : Type 0) → (Row → Bool) → List Row → Option Row
  pub find_first : (Row : Type 0) → (Row → Bool) → List Row → Option Row
  pub find_many : (Row : Type 0) → (Row → Bool) → List Row → List Row
  -- The same with `orderBy: { key: 'asc' }`.
  pub find_first_by : (Row : Type 0) → (Row → ℕ) → (Row → Bool) → List Row → Option Row
  pub find_many_by : (Row : Type 0) → (Row → ℕ) → (Row → Bool) → List Row → List Row
  -- The same with an order of two keys, of which `take` gives the first rows.
  pub find_many_sorted :
      (Row : Type 0) → SortDirection → (Row → ℕ) → (Row → ℕ) → (Row → Bool) → List Row → List Row
  pub create :
      (Row : Type 0) → (List Row → Option DbError) → Row → List Row → Reply (Row × List Row)
  pub create_many :
      (Row : Type 0) → (List Row → Option DbError) → List Row → List Row → Reply (ℕ × List Row)
  pub update :
      (Row : Type 0)
      → (List Row → Option DbError)
      → (Row → Bool)
      → (Row → Row)
      → List Row
      → Reply (Row × List Row)
  pub update_many :
      (Row : Type 0)
      → (List Row → Option DbError)
      → (Row → Bool)
      → (Row → Row)
      → List Row
      → Reply (ℕ × List Row)
  pub delete : (Row : Type 0) → (Row → Bool) → List Row → Reply (Row × List Row)
  pub delete_many : (Row : Type 0) → (Row → Bool) → List Row → Reply (ℕ × List Row)
  pub new_id-injective : (i j : ℕ) → new_id i ≡ new_id j → i ≡ j
  pub new_id_pos : (i : ℕ) → 0 < new_id i
  -- `where` holds a unique key, so at most one row fits.
  pub find_unique_lem :
      (Row : Type 0) (w : Row → Bool) (t : List Row) → find_unique Row w t ≡ first w t
  -- Some row that fits, and null only if none does. Without an order it may be any of them.
  pub find_first_some :
      (Row : Type 0) (w : Row → Bool) (t : List Row) (r : Row)
      → find_first Row w t ≡ some r
      → In r t × (w r ≡ true)
  pub find_first_none :
      (Row : Type 0) (w : Row → Bool) (t : List Row) → find_first Row w t ≡ none → count w t ≡ 0
  -- The rows that fit, each as often as the table has it, in some order: every measure of rows sums
  -- to the same.
  pub find_many_total :
      (Row : Type 0) (w : Row → Bool) (f : Row → ℕ) (t : List Row)
      → sum_of f (find_many Row w t) ≡ total w f t
  -- In ascending order of the key: a least row, and the rows from the least on.
  pub find_first_by_some :
      (Row : Type 0) (key : Row → ℕ) (w : Row → Bool) (t : List Row) (r : Row)
      → find_first_by Row key w t ≡ some r
      → In r t × (w r ≡ true) × ((s : Row) → In s t → w s ≡ true → key r ≤ key s)
  pub find_first_by_none :
      (Row : Type 0) (key : Row → ℕ) (w : Row → Bool) (t : List Row)
      → find_first_by Row key w t ≡ none
      → count w t ≡ 0
  pub find_many_by_total :
      (Row : Type 0) (key : Row → ℕ) (w : Row → Bool) (f : Row → ℕ) (t : List Row)
      → sum_of f (find_many_by Row key w t) ≡ total w f t
  pub find_many_by_ordered :
      (Row : Type 0) (key : Row → ℕ) (w : Row → Bool) (t : List Row)
      → IsOrdered key (find_many_by Row key w t)
  pub find_many_sorted_total :
      (Row : Type 0) (d : SortDirection) (primary id : Row → ℕ) (w : Row → Bool) (f : Row → ℕ)
      (t : List Row)
      → sum_of f (find_many_sorted Row d primary id w t) ≡ total w f t
  pub find_many_sorted_in :
      (Row : Type 0) (d : SortDirection) (primary id : Row → ℕ) (w : Row → Bool) (t : List Row)
      (r : Row)
      → In r (find_many_sorted Row d primary id w t)
      → In r t × (w r ≡ true)
  pub find_many_sorted_order :
      (Row : Type 0) (d : SortDirection) (primary id : Row → ℕ) (w : Row → Bool) (t : List Row)
      → IsSorted (precedes d primary id) (find_many_sorted Row d primary id w t)
  pub create_lem :
      (Row : Type 0) (check : List Row → Option DbError) (r : Row) (t : List Row)
      → create Row check r t ≡ commit check r (r ∷ t)
  pub create_many_lem :
      (Row : Type 0) (check : List Row → Option DbError) (rs t : List Row)
      → create_many Row check rs t ≡ commit check (length rs) (rs ++ t)
  pub update_lem :
      (Row : Type 0) (check : List Row → Option DbError) (w : Row → Bool) (f : Row → Row)
      (t : List Row)
      → update Row check w f t
        ≡ elim (first w t) [ none ↦ fault p2025 | some r ↦ commit check (f r) (set_where w f t) ]
  pub update_many_lem :
      (Row : Type 0) (check : List Row → Option DbError) (w : Row → Bool) (f : Row → Row)
      (t : List Row)
      → update_many Row check w f t ≡ commit check (count w t) (set_where w f t)
  pub delete_lem :
      (Row : Type 0) (w : Row → Bool) (t : List Row)
      → delete Row w t
        ≡ elim (first w t) [ none ↦ fault p2025 | some r ↦ reply (r, drop_where w t) ]
  pub delete_many_lem :
      (Row : Type 0) (w : Row → Bool) (t : List Row)
      → delete_many Row w t ≡ reply (count w t, drop_where w t)
