-- ===== src/Conversations/Paging/Listing.antt =====
-- `list`: the page, its count, and the names and tags of its rows.
use Prim.Native.String.{String}
use drills.Prelude.{
  ℕ, ◌+◌, ◌-◌, ◌*◌, Bool, true, false, ◌&&◌, ◌||◌, Option, none, some, List, [], ◌∷◌, ◌++◌, map,
  any, length, take, drop, ltb, ◌==◌, if◌then◌else◌,
}
use drills.Prelude.Division.{ceil_div}
use drills.Prelude.Sorting.{keep, sort}
use drills.Prelude.Result.{Result, ok, err}
use drills.Prelude.Text.{Text}
use drills.Conversations.Table.{Row, Summary, to_summary, Directory, join_name}
use drills.Conversations.Paging.Query.{
  SortKey, offset, keyset, ListQuery, Payload, Runtime, ListError, cursor_with_offset, bad_cursor,
  database, Filters, matches, filters_for, sort_column, row_lt, before,
}
use drills.Conversations.Paging.Cursor.{encode_cursor, decode_cursor}

pub record TagItem : Type 0 where
  pub id : ℕ
  pub name : Text

-- A row of `conversation_tags` joined to `tags`.
pub record TagRow : Type 0 where
  pub conversation_id : ℕ
  pub id : ℕ
  pub name : Text

-- What the tenant's scope shows: its conversations, its tag rows, and the names of its members.
pub record Tables : Type 0 where
  pub conversations : List Row
  pub tag_rows : List TagRow
  pub names : Directory

pub record ListItem : Type 0 where
  pub summary : Summary
  pub assignee_name : Option String
  pub tags : List TagItem

pub data Page : Type 0 where
  offset_page : List ListItem → ℕ → ℕ → ℕ → ℕ → Page
  cursor_page : List ListItem → ℕ → Option Text → Bool → Page

-- Where the keyset arm goes on: anywhere, after a sort key, or after a sort key and an id.
pub data Position : Type 0 where
  start : Position
  below : ℕ → Position
  row_below : ℕ → ℕ → Position

pub record Paging : Type 0 where
  pub filters : Filters
  pub position : Position
  pub limit : ℕ
  pub offset : Option ℕ

unfoldable pub in_position : SortKey → Position → Row → Bool
in_position key start row = true
in_position key (below k) row = ltb (sort_column key row) k
in_position key (row_below k i) row = row_lt (sort_column key row) row.id k i

-- The casts of a cursor's key and id. Without the tiebreak the id is not bound.
unfoldable pub cast_position : Runtime → Bool → Payload → Result ListError Position
cast_position rt tiebreak p = elim (rt.instant p.k) [
  | none ↦ err (database "22007")
  | some k ↦
      if tiebreak
      then (elim (rt.uuid p.i) [ none ↦ err (database "22P02") | some i ↦ ok (row_below k i) ])
      else ok (below k)
]

unfoldable pub position_at : Runtime → Bool → ListQuery → Option Text → Result ListError Position
position_at rt tiebreak query none = ok start
position_at rt tiebreak query (some cursor) = elim (decode_cursor rt cursor query) [
  | err e ↦ err (bad_cursor e)
  | ok p ↦ cast_position rt tiebreak p
]

-- `pagingFor`. What the client sent wrong is found before any statement runs; of two casts that
-- fail, which one Postgres reports is not fixed.
unfoldable pub with_filters :
    ListQuery → Position → Result ListError Filters → Result ListError Paging
with_filters query position (err e) = err e
with_filters query position (ok filters) = ok (elim query.paging [
  | offset ↦ record {
    filters = filters;
    position = position;
    limit = query.page_size;
    offset = some ((query.page - 1) * query.page_size);
  }
  | keyset ↦ record {
    filters = filters;
    position = position;
    limit = query.page_size + 1;
    offset = none;
  }
])

abbrev pub cursor_of : ListQuery → Option Text
cursor_of query = elim query.paging [ offset ↦ none | keyset ↦ query.cursor ]

unfoldable pub paging_for : Runtime → Bool → ℕ → ListQuery → Result ListError Paging
unfolding position_at with_filters
paging_for rt tiebreak org query = elim (position_at rt tiebreak query (cursor_of query)) [
  | err e ↦ err e
  | ok position ↦ with_filters query position (filters_for rt org query)
]

abbrev pub or_zero : Option ℕ → ℕ
or_zero none = 0
or_zero (some n) = n

-- WHERE, ORDER BY, OFFSET, LIMIT
unfoldable pub select_rows : SortKey → Paging → List Row → List Row
select_rows key p table = take p.limit (
    drop (or_zero p.offset) (
      sort (before key)
        (keep (λ row. matches p.filters row && in_position key p.position row) table)))

-- `countFor`: nothing on the keyset arm.
unfoldable pub count_for : Paging → List Row → Option ℕ
count_for p table = elim p.offset [
  | none ↦ none
  | some n ↦ some (length (keep (matches p.filters) table))
]

-- `slice`
unfoldable pub slice {ℓ} : {A : Type ℓ} → ListQuery → List A → List A × Bool
slice query rows = elim query.paging [
  | offset ↦ (rows, false)
  | keyset ↦
      if ltb query.page_size (length rows) then (take query.page_size rows, true) else (rows, false)
]

abbrev pub tag_item : TagRow → TagItem
tag_item r = record { id = r.id; name = r.name }

abbrev pub of_conversation : ℕ → TagRow → Bool
of_conversation id r = r.conversation_id == id

-- SELECT … WHERE ct.conversation_id = $1 ORDER BY t.name
unfoldable pub tags_of : Runtime → List TagRow → ℕ → List TagItem
tags_of rt tag_rows id =
    map tag_item (sort (λ a b. rt.collates a.name b.name) (keep (of_conversation id) tag_rows))

unfoldable pub items_naive : Runtime → Tables → List Row → List ListItem
items_naive rt t [] = []
items_naive rt t (row ∷ rows) =
    record {
      summary = to_summary row;
      assignee_name = join_name t.names row.assignee_id;
      tags = tags_of rt t.tag_rows row.id;
    }
    ∷ items_naive rt t rows

-- ORDER BY ct.conversation_id, t.name
unfoldable pub tag_before : Runtime → TagRow → TagRow → Bool
tag_before rt a b =
    ltb a.conversation_id b.conversation_id
    || a.conversation_id == b.conversation_id && rt.collates a.name b.name

unfoldable pub is_one_of : List ℕ → TagRow → Bool
is_one_of ids r = any (λ id. r.conversation_id == id) ids

-- `tagsByConversation`
abbrev pub TagMap : Type 0
TagMap = ℕ → Option (List TagItem)

abbrev pub or_nil : Option (List TagItem) → List TagItem
or_nil none = []
or_nil (some tags) = tags

unfoldable pub push_tag : TagRow → TagMap → TagMap
push_tag r m id =
    if r.conversation_id == id
    then some (or_nil (m r.conversation_id) ++ (tag_item r ∷ []))
    else m id

unfoldable pub push_tags : List TagRow → TagMap → TagMap
unfolding push_tag
push_tags [] m = m
push_tags (r ∷ rs) m = push_tags rs (push_tag r m)

-- One statement for the tags of all rows, none for an empty page.
unfoldable pub tag_map : Runtime → List TagRow → List ℕ → TagMap
unfolding push_tags
tag_map rt tag_rows [] id = none
tag_map rt tag_rows (i ∷ ids) id =
    push_tags (sort (tag_before rt) (keep (is_one_of (i ∷ ids)) tag_rows)) (λ id. none) id

unfoldable pub items_by : Directory → TagMap → List Row → List ListItem
items_by names tags [] = []
items_by names tags (row ∷ rows) =
    record {
      summary = to_summary row;
      assignee_name = join_name names row.assignee_id;
      tags = or_nil (tags row.id);
    }
    ∷ items_by names tags rows

unfoldable pub items_batched : Runtime → Tables → List Row → List ListItem
unfolding items_by
items_batched rt t rows = items_by t.names (tag_map rt t.tag_rows (map (λ row. row.id) rows)) rows

pub data ListStrategy : Type 0 where
  naive batched : ListStrategy

unfoldable pub items_for : ListStrategy → Runtime → Tables → Tables → List Row → List ListItem
unfolding items_naive items_batched
items_for naive rt t later rows = items_naive rt later rows
items_for batched rt t later rows = items_batched rt (record later { names = t.names }) rows

unfoldable pub last_of {ℓ} : {A : Type ℓ} → List A → Option A
last_of [] = none
last_of (x ∷ xs) = let rest = last_of xs in elim xs [ [] ↦ some x | y ∷ ys ↦ rest ]

unfoldable pub next_cursor : Runtime → ListQuery → Bool → Option Row → Option Text
next_cursor rt query false last = none
next_cursor rt query true none = none
next_cursor rt query true (some row) = some (encode_cursor rt row query)

-- `toResult`
unfoldable pub to_result : Runtime → List ListItem → List Row → Bool → Option ℕ → ListQuery → Page
unfolding next_cursor
to_result rt items rows has_more none query =
    cursor_page items query.page_size (next_cursor rt query has_more (last_of rows)) has_more
to_result rt items rows has_more (some total) query =
    offset_page items query.page query.page_size total (ceil_div total query.page_size)

-- `listNaive` and `listBatched`. The transaction is READ COMMITTED, where each statement has
-- a snapshot of its own: `later` is what those after the first one see.
unfoldable pub list_page : ListStrategy → Runtime → Tables → Tables → ListQuery → Paging → Page
unfolding to_result
list_page strategy rt t later query p =
    let (rows, has_more) = slice query (select_rows query.sort p t.conversations) in
    to_result rt (items_for strategy rt t later rows) rows has_more
      (count_for p later.conversations) query

abbrev pub mixes_arms : ListQuery → Bool
mixes_arms query = elim query.paging [
  | keyset ↦ false
  | offset ↦ elim query.cursor [ none ↦ false | some cursor ↦ true ]
]

unfoldable pub list :
    ListStrategy → Bool → Runtime → Tables → Tables → ℕ → ListQuery → Result ListError Page
unfolding list_page
list strategy tiebreak rt t later org query =
    if mixes_arms query then err cursor_with_offset else elim (paging_for rt tiebreak org query) [
      | err e ↦ err e
      | ok p ↦ ok (list_page strategy rt t later query p)
    ]
