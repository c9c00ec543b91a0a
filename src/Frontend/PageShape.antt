-- ===== src/Frontend/PageShape.antt =====
-- The two shapes of a page, `ConversationPage`, `ConversationCursorPage` and `isCursorPage` of
-- apps/frontend/lib/api.ts, against the pages that the backend answers.
use drills.Prelude.{
  ℕ, ◌≡◌, refl, sym, ap, ◌∙◌, inl, inr, Bool, true, false, Option, none, some, List, if◌then◌else◌,
  Bool-cases, arith,
}
use drills.Prelude.Result.{Result, ok, err}
use drills.Prelude.Text.{Text}
use drills.Conversations.Table.{Row}
use drills.Conversations.Paging.Query.{
  ListQuery, ListError, Filters, Runtime, PagingMode, offset, keyset, filters_for,
}
use drills.Conversations.Paging.Listing.{
  ListItem, Page, offset_page, cursor_page, Paging, Position, Tables, ListStrategy, list, list_page,
  to_result, count_for, paging_for, with_filters, position_at, mixes_arms, cursor_of,
}

-- The body of an answer: the fields that are there.
pub record PageBody : Type 0 where
  pub items : List ListItem
  pub page_size : ℕ
  pub page : Option ℕ
  pub total : Option ℕ
  pub total_pages : Option ℕ
  pub next_cursor : Option (Option Text)
  pub has_more : Option Bool

-- The JSON of the backend's page.
unfoldable pub body_of : Page → PageBody
body_of (offset_page items page size total pages) = record {
  items = items;
  page_size = size;
  page = some page;
  total = some total;
  total_pages = some pages;
  next_cursor = none;
  has_more = none;
}
body_of (cursor_page items size next more) = record {
  items = items;
  page_size = size;
  page = none;
  total = none;
  total_pages = none;
  next_cursor = some next;
  has_more = some more;
}

-- `!('total' in page)`
unfoldable pub is_cursor_page : PageBody → Bool
is_cursor_page body = elim body.total [ none ↦ true | some total ↦ false ]

-- The body under the type that the test gives it; none where a field of that type is missing.
unfoldable pub read_cursor_page : PageBody → Option Page
read_cursor_page body = elim body.next_cursor [
  | none ↦ none
  | some next ↦ elim body.has_more [
    | none ↦ none
    | some more ↦ some (cursor_page body.items body.page_size next more)
  ]
]

unfoldable pub read_offset_page : PageBody → Option Page
read_offset_page body = elim body.page [
  | none ↦ none
  | some page ↦ elim body.total [
    | none ↦ none
    | some total ↦ elim body.total_pages [
      | none ↦ none
      | some pages ↦ some (offset_page body.items page body.page_size total pages)
    ]
  ]
]

unfoldable pub read_page : PageBody → Option Page
unfolding is_cursor_page read_cursor_page read_offset_page
read_page body = if is_cursor_page body then read_cursor_page body else read_offset_page body

abbrev pub is_keyset : PagingMode → Bool
is_keyset offset = false
is_keyset keyset = true

abbrev is_none : Option ℕ → Bool
is_none none = true
is_none (some n) = false

read_page-body_of : (p : Page) → read_page (body_of p) ≡ some p
unfolding read_page body_of
read_page-body_of (offset_page items page size total pages) = refl
read_page-body_of (cursor_page items size next more) = refl

to_result-shape :
    (rt : Runtime) (items : List ListItem) (rows : List Row) (more : Bool) (total : Option ℕ)
    (query : ListQuery)
    → is_cursor_page (body_of (to_result rt items rows more total query)) ≡ is_none total
unfolding to_result body_of is_cursor_page
to_result-shape rt items rows more none query = refl
to_result-shape rt items rows more (some total) query = refl

count_for-none : (p : Paging) (rows : List Row) → is_none (count_for p rows) ≡ is_none p.offset
unfolding count_for
count_for-none p rows = ground arith

with_filters-offset :
    (query : ListQuery) (position : Position) (filters : Result ListError Filters) (p : Paging)
    → with_filters query position filters ≡ ok p
    → is_none p.offset ≡ is_keyset query.paging
unfolding with_filters
with_filters-offset query position (err e) p h = cc
with_filters-offset query position (ok filters) p h = ground arith

positioned :
    (query : ListQuery) (position : Result ListError Position) (filters : Result ListError Filters)
    (p : Paging)
    → elim position as (λ r. Result ListError Paging) [
      | err e ↦ err e
      | ok q ↦ with_filters query q filters
    ]
      ≡ ok p
    → is_none p.offset ≡ is_keyset query.paging
positioned query (err e) filters p h = cc
positioned query (ok q) filters p h = with_filters-offset query q filters p h

paging_for-offset :
    (rt : Runtime) (tiebreak : Bool) (org : ℕ) (query : ListQuery) (p : Paging)
    → paging_for rt tiebreak org query ≡ ok p
    → is_none p.offset ≡ is_keyset query.paging
unfolding paging_for
paging_for-offset rt tiebreak org query p h =
    positioned query (position_at rt tiebreak query (cursor_of query)) (filters_for rt org query) p
      h

list_page-shape :
    (strategy : ListStrategy) (rt : Runtime) (t later : Tables) (query : ListQuery) (p : Paging)
    → is_cursor_page (body_of (list_page strategy rt t later query p)) ≡ is_none p.offset
unfolding list_page
list_page-shape strategy rt t later query p =
    to_result-shape rt _ _ _ (count_for p later.conversations) query
    ∙ count_for-none p later.conversations

listed :
    (strategy : ListStrategy) (rt : Runtime) (t later : Tables) (query : ListQuery)
    (paging : Result ListError Paging) (page : Page)
    → ((p : Paging) → paging ≡ ok p → is_none p.offset ≡ is_keyset query.paging)
    → elim paging as (λ r. Result ListError Page) [
      | err e ↦ err e
      | ok p ↦ ok (list_page strategy rt t later query p)
    ]
      ≡ ok page
    → is_cursor_page (body_of page) ≡ is_keyset query.paging
listed strategy rt t later query (err e) page known h = cc
listed strategy rt t later query (ok p) page known h =
    let same : list_page strategy rt t later query p ≡ page = cc in
    ap (λ q. is_cursor_page (body_of q)) (sym same)
    ∙ list_page-shape strategy rt t later query p
    ∙ known p refl

-- Every page that the backend answers has the shape under which the frontend reads it:
-- `isCursorPage` holds exactly on the keyset arm, and the fields of the type that it then
-- gives the body are there, with the values that the backend put there.
pub read_page-list :
    (strategy : ListStrategy) (tiebreak : Bool) (rt : Runtime) (t later : Tables) (org : ℕ)
    (query : ListQuery) (page : Page)
    → list strategy tiebreak rt t later org query ≡ ok page
    → (is_cursor_page (body_of page) ≡ is_keyset query.paging)
      × (read_page (body_of page) ≡ some page)
unfolding list
read_page-list strategy tiebreak rt t later org query page h =
    elim (Bool-cases (mixes_arms query)) [
      | inl mixed ↦ absurd (cc (rw mixed at h))
      | inr one ↦ (
        listed strategy rt t later query (paging_for rt tiebreak org query) page
            (paging_for-offset rt tiebreak org query) (rw one at h),
        read_page-body_of page,
      )
    ]
