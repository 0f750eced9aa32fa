-- ===== src/Pagination.antt =====
-- src/common/pagination: cursors, the keyset predicate and the trimming of a page. A cursor is
-- JSON in base64url; Token is what decoding that text by Buffer and JSON.parse gives.
pub mod Listing
pub mod Pages
pub mod Sorted
pub mod Lemmas
pub mod Walk
pub mod Mapped
use business_platform.Prisma.{SortDirection}
use business_platform.Prelude.{
  take, &&-true, Bool, Bool-cases, In, IsOrdered, List, Option, Option-cases, [], ap, arith, count,
  count-set_where_le, count_le, count_pos, false, first, first-set_where, first_cases,
  if◌then◌else◌, inl, inr, leb, length, ltb, map, neg_part, none, not, pos_part, refl, same_option,
  same_option_refl, same_option→eq, select, set_where, set_where-none, some, subst, suc, sum_of,
  sym, total, total-none, total-set_where, total-set_where_outside, true, zero, ℕ, ℤ, ◌&&◌, ◌*◌,
  ◌++◌, ◌+◌, ◌-◌, ◌<◌, ◌==◌, ◌||◌, ◌↔◌, ◌∙◌, ◌∷◌, ◌≡◌, ◌≢◌, ◌≤◌, ◌⊎◌,
}
use business_platform.Schema.{Key, Text}
use business_platform.Platform.{Result, ok, err, bad_request, invalid_cursor}

abbrev pub same_direction : SortDirection → SortDirection → Bool
same_direction SortDirection.asc SortDirection.asc = true
same_direction SortDirection.desc SortDirection.desc = true
same_direction _ _ = false

-- A field of the parsed object. A text is a number, 0 the empty one; a JSON number that is too large
-- for a double parses to Infinity.
pub data Field : Type 0 where
  text : Text → Field
  number : ℕ → Field
  infinity other : Field

-- The field `k`.
pub data KeyTuple : Type 0 where
  tuple : List Field → KeyTuple
  not_array : KeyTuple

pub record CursorPayload : Type 0 where
  pub v : Field
  pub s : Field
  pub d : Field
  pub k : KeyTuple
  pub f : Field

pub data Token : Type 0 where
  object : CursorPayload → Token
  no_object unparsable : Token

-- `CursorKeyValue`
pub data CursorKeyValue : Type 0 where
  text_key : Text → CursorKeyValue
  number_key : ℕ → CursorKeyValue

pub record CursorExpectation : Type 0 where
  pub sort_by : Text
  pub direction : SortDirection
  pub fingerprint : Text

pub record DecodedCursor : Type 0 where
  pub primary_value : CursorKeyValue
  pub id_value : Key

-- 'asc' and 'desc', as texts.
abbrev pub direction_text : SortDirection → Text
direction_text SortDirection.asc = 1
direction_text SortDirection.desc = 2

abbrev pub key_field : CursorKeyValue → Field
key_field (text_key n) = text n
key_field (number_key n) = number n

abbrev pub cursor_version : ℕ
cursor_version = 1

abbrev pub encode_cursor : Text → SortDirection → CursorKeyValue → Key → Text → Token
encode_cursor sort_by direction primary_value id_value fingerprint = object record {
  v = number cursor_version;
  s = text sort_by;
  d = text (direction_text direction);
  k = tuple (key_field primary_value ∷ text id_value ∷ []);
  f = text fingerprint;
}

-- `===` with a text or a number.
abbrev pub is_text : Text → Field → Bool
is_text n (text m) = m == n
is_text n _ = false

abbrev pub is_number : ℕ → Field → Bool
is_number n (number m) = m == n
is_number n _ = false

-- The key tuple, if its first value is a text or a finite number and its second a text that is not
-- empty.
abbrev pub decode_keys : KeyTuple → Result DecodedCursor
decode_keys (tuple (text p ∷ text i ∷ [])) =
    if i == 0
    then err (bad_request invalid_cursor)
    else ok (record { primary_value = text_key p; id_value = i })
decode_keys (tuple (number p ∷ text i ∷ [])) =
    if i == 0
    then err (bad_request invalid_cursor)
    else ok (record { primary_value = number_key p; id_value = i })
decode_keys _ = err (bad_request invalid_cursor)

abbrev pub decode_cursor : Token → CursorExpectation → Result DecodedCursor
decode_cursor unparsable expected = err (bad_request invalid_cursor)
decode_cursor no_object expected = err (bad_request invalid_cursor)
decode_cursor (object p) expected =
    if (is_number cursor_version p.v && is_text expected.sort_by p.s)
      && (is_text (direction_text expected.direction) p.d && is_text expected.fingerprint p.f)
    then decode_keys p.k
    else err (bad_request invalid_cursor)

module _ {Row : Type 0} where
  -- `buildKeysetWhere`, for the sort column `primary`: the rows strictly after a key.
  abbrev pub build_keyset_where : (Row → ℕ) → (Row → Key) → ℕ → Key → SortDirection → Row → Bool
  build_keyset_where primary id c i SortDirection.asc r =
      ltb c (primary r) || (primary r == c && ltb i (id r))
  build_keyset_where primary id c i SortDirection.desc r =
      ltb (primary r) c || (primary r == c && ltb (id r) i)

  -- `rows[rows.length - 1]`
  abbrev pub last : List Row → Option Row
  last [] = none
  last (r ∷ rs) = elim (last rs) [ none ↦ some r | some y ↦ some y ]

  -- `fetchPage`: the rows that are kept, and the one that the next cursor is made from.
  abbrev pub fetch_page : List Row → ℕ → List Row × Option Row
  fetch_page found limit =
      if ltb limit (length found)
      then (take limit found, last (take limit found))
      else (found, none)
