-- ===== src/Conversations/Paging/Query.antt =====
-- The list query (apps/backend/src/conversations/dto/list-conversations.query.ts), its
-- filters and the order of the rows. A query is one that the validation lets through.
use Prim.Native.String.{String}
use drills.Prelude.{ℕ, Bool, true, false, ◌&&◌, ◌||◌, Option, none, some, leb, ltb, ◌==◌}
use drills.Prelude.Result.{Result, ok, err}
use drills.Prelude.Text.{Text}
use drills.Conversations.Table.{Status, open_status, closed_status, Row}

pub data SortKey : Type 0 where
  by_updated_at by_created_at : SortKey

pub data PagingMode : Type 0 where
  offset keyset : PagingMode

pub record ListQuery : Type 0 where
  pub page : ℕ
  pub page_size : ℕ
  pub sort : SortKey
  pub paging : PagingMode
  pub cursor : Option Text
  pub status : Option Status
  pub updated_from : Option Text
  pub updated_to : Option Text

-- What a cursor carries.
pub record Payload : Type 0 where
  pub v : ℕ
  pub k : Text
  pub i : Text
  pub f : Text

-- The JSON value that a decoded cursor holds: the fields that are there and have the expected type.
pub record Parsed : Type 0 where
  pub v : Option ℕ
  pub k : Option Text
  pub i : Option Text
  pub f : Option Text

-- What Postgres and Node do with texts: the casts to `timestamptz` and `uuid` and what prints
-- these, whether `Date.parse` gives a number, JSON with base64url, and the collation of
-- names.
pub record Runtime : Type 0 where
  pub instant : Text → Option ℕ
  pub to_char : ℕ → Text
  pub uuid : Text → Option ℕ
  pub uuid_text : ℕ → Text
  pub is_date : Text → Bool
  pub stringify : Payload → Text
  pub parse : Text → Option Parsed
  pub collates : Text → Text → Bool

-- A SQLSTATE: 22007 and 22P02 are a time and a uuid that do not parse.
pub data BadCursor : Type 0 where
  not_decodable bad_version bad_key bad_id other_query : BadCursor

pub data ListError : Type 0 where
  cursor_with_offset : ListError
  bad_cursor : BadCursor → ListError
  database : String → ListError

-- The WHERE of both arms and of the count.
pub record Filters : Type 0 where
  pub org_id : ℕ
  pub status : Option Status
  pub updated_from : Option ℕ
  pub updated_to : Option ℕ

abbrev pub same_status : Status → Status → Bool
same_status open_status open_status = true
same_status open_status closed_status = false
same_status closed_status open_status = false
same_status closed_status closed_status = true

abbrev pub passes {ℓ} : {A : Type ℓ} → (A → Bool) → Option A → Bool
passes test none = true
passes test (some a) = test a

unfoldable pub matches : Filters → Row → Bool
matches f row =
    row.org_id == f.org_id
    && passes (same_status row.status) f.status
    && passes (λ from. leb from row.updated_at) f.updated_from
    && passes (λ to. ltb row.updated_at to) f.updated_to

-- `$n::timestamptz`, if the filter is there.
unfoldable pub cast_bound : Runtime → Option Text → Result ListError (Option ℕ)
cast_bound rt none = ok none
cast_bound rt (some text) = elim (rt.instant text) [
  | none ↦ err (database "22007")
  | some t ↦ ok (some t)
]

unfoldable pub filters_for : Runtime → ℕ → ListQuery → Result ListError Filters
unfolding cast_bound
filters_for rt org query = elim (cast_bound rt query.updated_from) [
  | err e ↦ err e
  | ok from ↦ elim (cast_bound rt query.updated_to) [
    | err e ↦ err e
    | ok to ↦
        ok (record { org_id = org; status = query.status; updated_from = from; updated_to = to })
  ]
]

abbrev pub sort_column : SortKey → Row → ℕ
sort_column by_updated_at row = row.updated_at
sort_column by_created_at row = row.created_at

-- (a, i) < (b, j)
unfoldable pub row_lt : ℕ → ℕ → ℕ → ℕ → Bool
row_lt a i b j = ltb a b || a == b && ltb i j

-- ORDER BY sort_column DESC, id DESC: does `y` come before `x`?
unfoldable pub before : SortKey → Row → Row → Bool
unfolding row_lt
before key y x = row_lt (sort_column key x) x.id (sort_column key y) y.id
