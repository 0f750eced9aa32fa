-- ===== src/Pagination/Listing.antt =====
-- The rest of src/common/pagination/cursor.ts and paginate.ts, and the body that the paginated list
-- methods of the services share.
use business_platform.Prelude.{
  ℕ, Bool, true, false, Option, some, none, List, [], ◌∷◌, ◌+◌, ◌&&◌, leb, if◌then◌else◌, ◌==◌,
}
use business_platform.Prisma.{Prisma, SortDirection}
use business_platform.Schema.{Key, Text, Instant}
use business_platform.Platform.{
  Result, ok, err, bad_request, invalid_cursor, Action, Model, pure, returns, ◌>>=◌, ◌>>◌,
  require_tenant_id, find_page,
}
use business_platform.Pagination.{
  Field, Token, CursorKeyValue, DecodedCursor, text_key, number_key, encode_cursor, decode_cursor,
  build_keyset_where, fetch_page, text,
}

-- What the runtime has: the first digits of the SHA-256 of a JSON text, and the reading of a date,
-- if it is one, and the writing of one.
pub record Runtime : Type 0 where
  pub to_iso_string : Instant → Text
  pub digest : List (Text × Field) → Text
  pub parse_date : Text → Option Instant

-- A filter by name, undefined if it is not asked for. Names are numbered in alphabetical order.
abbrev pub Filters : Type 0
Filters = List (Text × Option Field)

-- `Object.keys(filters).sort()`, without the undefined ones.
abbrev pub insert_filter : Text × Field → List (Text × Field) → List (Text × Field)
insert_filter f [] = f ∷ []
insert_filter f (g ∷ gs) =
    let rest = insert_filter f gs in if leb f.0 g.0 then f ∷ g ∷ gs else g ∷ rest

abbrev pub normalized : Filters → List (Text × Field)
normalized [] = []
normalized ((name, none) ∷ fs) = normalized fs
normalized ((name, some value) ∷ fs) = insert_filter (name, value) (normalized fs)

-- The names of the filters and of the sort columns.
abbrev pub category_id_name : Text
category_id_name = 1

abbrev pub customer_id_name : Text
customer_id_name = 2

abbrev pub equipment_id_name : Text
equipment_id_name = 3

abbrev pub from_name : Text
from_name = 4

abbrev pub service_id_name : Text
service_id_name = 5

abbrev pub status_name : Text
status_name = 6

abbrev pub to_name : Text
to_name = 7

abbrev pub created_at_name : Text
created_at_name = 8

abbrev pub start_at_name : Text
start_at_name = 9

-- `if (query.x !== undefined) equality.x = query.x`: the filter, and its test of a row's value.
abbrev pub text_of : {A : Type 0} → (A → Text) → Option A → Option Text
text_of f none = none
text_of f (some a) = some (f a)

abbrev pub given_field : Option Text → Option Field
given_field none = none
given_field (some t) = some (text t)

abbrev pub equals : Option Text → Text → Bool
equals none value = true
equals (some t) value = value == t

-- The same of a column that may be null.
abbrev pub equals_some : Option Text → Option Text → Bool
equals_some none value = true
equals_some (some t) none = false
equals_some (some t) (some value) = value == t

-- The largest instant of a `Date`, in milliseconds.
abbrev pub max_date : ℕ
max_date = 8640000000000000

abbrev pub default_page_size : ℕ
default_page_size = 20

-- `PageQueryDto`
pub record PageQuery : Type 0 where
  pub limit : Option ℕ
  pub cursor : Option Token
  pub order : Option SortDirection

-- `Paginated`: `data` and `meta.nextCursor`.
pub record Paginated (A : Type 0) : Type 0 where
  pub rows : List A
  pub next_cursor : Option Token

-- `ListContinuation`: the fingerprint, and the key that the keyset starts after.
pub record ListContinuation : Type 0 where
  pub fingerprint : Text
  pub after : Option (ℕ × Key)

abbrev pub map_page : {A B : Type 0} → (List A → List B) → Paginated A → Paginated B
map_page f page = record { rows = f page.rows; next_cursor = page.next_cursor }

-- `??`
abbrev pub or_default : {A : Type 0} → Option A → A → A
or_default none a = a
or_default (some b) a = b

-- A value of a column that is no date.
abbrev pub plain_key : CursorKeyValue → ℕ
plain_key (text_key n) = n
plain_key (number_key n) = n

module _ ⦃runtime : Runtime⦄ where
  abbrev pub filter_fingerprint : Filters → Text
  filter_fingerprint filters = runtime.digest (normalized filters)

  abbrev pub date_key_from_cursor : CursorKeyValue → Result Instant
  date_key_from_cursor (number_key n) =
      if leb n max_date then ok n else err (bad_request invalid_cursor)
  date_key_from_cursor (text_key s) = elim (runtime.parse_date s) [
    | none ↦ err (bad_request invalid_cursor)
    | some i ↦ ok i
  ]

  -- `dateSortColumn === false ? decoded.primaryValue : dateKeyFromCursor(decoded.primaryValue)`
  abbrev pub primary_key_of : Bool → CursorKeyValue → Result ℕ
  primary_key_of false value = ok (plain_key value)
  primary_key_of true value = date_key_from_cursor value

  -- `resolveListContinuation`
  abbrev pub continue_after : Bool → Text → DecodedCursor → Result ListContinuation
  continue_after is_date fingerprint decoded = elim (primary_key_of is_date decoded.primary_value) [
    | err e ↦ err e
    | ok primary ↦
        ok (record { fingerprint = fingerprint; after = some (primary, decoded.id_value) })
  ]

  abbrev pub resolve_list_continuation :
      Option Token → Text → SortDirection → Filters → Bool → Result ListContinuation
  resolve_list_continuation none sort_by direction equality is_date =
      ok (record { fingerprint = filter_fingerprint equality; after = none })
  resolve_list_continuation (some cursor) sort_by direction equality is_date =
      elim (decode_cursor cursor record {
        sort_by = sort_by;
        direction = direction;
        fingerprint = filter_fingerprint equality;
      }) [
        | err e ↦ err e
        | ok decoded ↦ continue_after is_date (filter_fingerprint equality) decoded
      ]

-- A list by a column with instants: the column's name and value, and the identifier.
pub record SortColumn (Row : Type 0) : Type 0 where
  pub name : Text
  pub primary : Row → Instant
  pub id : Row → Key

module _ {Row : Type 0} (column : SortColumn Row) where
  -- `keyValueFromRow` and `encodeRowCursor`, of a column with dates.
  abbrev pub key_value_from_row : Row → CursorKeyValue
  key_value_from_row r = number_key (column.primary r)

  abbrev pub encode_row_cursor : SortDirection → Text → Row → Token
  encode_row_cursor direction fingerprint r =
      encode_cursor column.name direction (key_value_from_row r) (column.id r) fingerprint

  -- The page that `fetchPage` makes, with the cursor of its last row.
  abbrev pub to_paginated : SortDirection → Text → List Row × Option Row → Paginated Row
  to_paginated direction fingerprint (rows, last_row) = record {
    rows = rows;
    next_cursor = elim last_row [
      | none ↦ none
      | some r ↦ some (encode_row_cursor direction fingerprint r)
    ];
  }

  -- The keyset, if there is a cursor.
  abbrev pub is_after : SortDirection → Option (ℕ × Key) → Row → Bool
  is_after direction none r = true
  is_after direction (some (p, i)) r = build_keyset_where column.primary column.id p i direction r

  -- What the list methods do, for the rows that fit their filters.
  unfoldable pub list_rows :
      ⦃prisma : Prisma⦄
      → ⦃runtime : Runtime⦄ → Model Row
      → (Row → Bool)
      → Filters
      → PageQuery
      → Action (Paginated Row)
  list_rows m fits equality query = do
    require_tenant_id
    let limit = or_default query.limit default_page_size
    let direction = or_default query.order SortDirection.asc
    continuation ←
        returns (resolve_list_continuation query.cursor column.name direction equality true)
    found ←
        find_page m direction column.primary column.id
          (λ r. fits r && is_after direction continuation.after r) (limit + 1)
    pure (to_paginated direction continuation.fingerprint (fetch_page found limit))
