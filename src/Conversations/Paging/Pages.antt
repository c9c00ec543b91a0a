-- ===== src/Conversations/Paging/Pages.antt =====
-- A client that asks for one page number after the other: what it has seen after the last page.
use drills.Prelude.{
  ℕ, zero, suc, ◌+◌, ◌-◌, ◌*◌, ◌≤◌, ◌≡◌, refl, sym, ap, ◌∙◌, Bool, false, none, some, List, [],
  ◌++◌, length, take, drop, take-add, take_all, fun_ext, arith,
}
use drills.Prelude.Division.{ceil_div, ceil_div-le_iff}
use drills.Prelude.Sorting.{keep, sort-length}
use drills.Prelude.Result.{Result, ok, err}
use drills.Conversations.Table.{Row}
use drills.Conversations.Paging.Query.{
  SortKey, offset, ListQuery, Runtime, ListError, Filters, matches, filters_for, before,
}
use drills.Conversations.Paging.Listing.{
  ListItem, Tables, Page, offset_page, cursor_page, start, Paging, slice, position_at, with_filters,
  paging_for, items_naive, count_for, list_page, list, naive, to_result, items_for, ListStrategy,
  mixes_arms, cursor_of,
}
use drills.Conversations.Paging.Arms.{IsCollation, list-naive}
use drills.Conversations.Paging.Order.{whole_list}
use drills.Conversations.Paging.Slices.{select_rows-whole_list, keep-start}
use drills.Conversations.Paging.Keyset.{items_naive-append}

abbrev pub at_page : ListQuery → ℕ → ListQuery
at_page query page = record query { page = page }

-- Pages 1 to n, one after the other.
unfoldable pub gather : ℕ → (ℕ → Result ListError Page) → Result ListError (List ListItem)
gather zero get = ok []
gather (suc n) get =
    let rest = gather n get in
    elim rest [
      | err e ↦ err e
      | ok items ↦ elim (get (suc n)) [
        | err e ↦ err e
        | ok (offset_page more page size total pages) ↦ ok (items ++ more)
        | ok (cursor_page more size next has_more) ↦ ok (items ++ more)
      ]
    ]

-- What stands on page `n + 1`.
numbered_page : Runtime → Tables → ListQuery → Filters → ℕ → Page
numbered_page rt t query f n =
    let whole = whole_list query.sort f t.conversations in
    offset_page (items_naive rt t (take query.page_size (drop (n * query.page_size) whole))) (suc n)
      query.page_size (length whole) (ceil_div (length whole) query.page_size)

offset_paging : ListQuery → Filters → Paging
offset_paging query f = record {
  filters = f;
  position = start;
  limit = query.page_size;
  offset = some ((query.page - 1) * query.page_size);
}

cursor_of-offset : (query : ListQuery) → query.paging ≡ offset → cursor_of query ≡ none
cursor_of-offset query mode = rw mode refl

mixes_arms-offset :
    (query : ListQuery) → query.paging ≡ offset → query.cursor ≡ none → mixes_arms query ≡ false
mixes_arms-offset query mode absent = rw (mode, absent) refl

with_filters-offset :
    (query : ListQuery) (f : Filters)
    → query.paging ≡ offset
    → with_filters query start (ok f) ≡ ok (offset_paging query f)
unfolding with_filters offset_paging
with_filters-offset query f mode = rw (with_filters, mode) refl

slice-offset :
    (query : ListQuery) (rows : List Row) → query.paging ≡ offset → slice query rows ≡ (rows, false)
unfolding slice
slice-offset query rows mode = rw (slice, mode) refl

paging_for-offset_paging :
    (rt : Runtime) (tiebreak : Bool) (org : ℕ) (query : ListQuery) (f : Filters)
    → query.paging ≡ offset
    → filters_for rt org query ≡ ok f
    → paging_for rt tiebreak org query ≡ ok (offset_paging query f)
unfolding position_at paging_for offset_paging
paging_for-offset_paging rt tiebreak org query f mode filters =
    rw (paging_for, cursor_of-offset query mode, filters) (with_filters-offset query f mode)

length-whole_list :
    (key : SortKey) (f : Filters) (table : List Row)
    → length (keep (matches f) table) ≡ length (whole_list key f table)
unfolding whole_list
length-whole_list key f table = sym (sort-length (before key) (keep (matches f) table))

suc_one : (n : ℕ) → suc n - 1 ≡ n
suc_one n = omega arith

built_page : Runtime → Tables → ListQuery → ℕ → List Row × Bool → Page
built_page rt t query total (rows, more) =
    offset_page (items_naive rt t rows) query.page query.page_size total
      (ceil_div total query.page_size)

list_page-numbered_page :
    (rt : Runtime) (t : Tables) (query : ListQuery) (f : Filters) (n : ℕ)
    → query.paging ≡ offset
    → list_page naive rt t t (at_page query (suc n)) (offset_paging (at_page query (suc n)) f)
      ≡ numbered_page rt t query f n
unfolding list_page built_page items_for count_for to_result offset_paging numbered_page
list_page-numbered_page rt t query f n mode =
    let q = at_page query (suc n) in
    let table = t.conversations in
    let total = length (keep (matches f) table) in
    let whole = whole_list query.sort f table in
    let rows = take query.page_size (drop (n * query.page_size) whole) in
    ap (λ rows. built_page rt t q total (slice q rows))
      (select_rows-whole_list query.sort (offset_paging q f) table
        ∙ ap (λ w. take query.page_size (drop ((suc n - 1) * query.page_size) w))
            (keep-start query.sort whole)
        ∙ ap (λ k. take query.page_size (drop (k * query.page_size) whole)) (suc_one n))
    ∙ ap (built_page rt t q total) (slice-offset q rows mode)
    ∙ ap (λ total. built_page rt t q total (rows, false)) (length-whole_list query.sort f table)

list-numbered_page :
    (rt : Runtime) (t : Tables) (tiebreak : Bool) (org : ℕ) (query : ListQuery) (f : Filters)
    (n : ℕ)
    → query.paging ≡ offset
    → query.cursor ≡ none
    → filters_for rt org query ≡ ok f
    → list naive tiebreak rt t t org (at_page query (suc n)) ≡ ok (numbered_page rt t query f n)
unfolding list filters_for
list-numbered_page rt t tiebreak org query f n mode absent filters =
    let q = at_page query (suc n) in
    rw
      (
        list,
        mixes_arms-offset q mode absent,
        paging_for-offset_paging rt tiebreak org q f mode filters,
      )
      (ap ok (list_page-numbered_page rt t query f n mode))

suc_times : (n size : ℕ) → n * size + size ≡ suc n * size
suc_times n size = omega arith

zero_times : (size : ℕ) → 0 * size ≡ 0
zero_times size = omega arith

gather-suc :
    (n : ℕ) (get : ℕ → Result ListError Page) (items more : List ListItem)
    (page size total pages : ℕ)
    → gather n get ≡ ok items
    → get (suc n) ≡ ok (offset_page more page size total pages)
    → gather (suc n) get ≡ ok (items ++ more)
unfolding gather
gather-suc n get items more page size total pages before here = rw (gather, before, here) refl

module _ (rt : Runtime) (t : Tables) (tiebreak : Bool) (org : ℕ) (query : ListQuery) (f : Filters)
    (mode : query.paging ≡ offset) (absent : query.cursor ≡ none)
    (filters : filters_for rt org query ≡ ok f) where
  gather-take :
      (n : ℕ)
      → gather n (λ page. list naive tiebreak rt t t org (at_page query page))
        ≡ ok (
            items_naive rt t (take (n * query.page_size) (whole_list query.sort f t.conversations)))
  unfolding gather numbered_page items_naive
  gather-take zero = rw (zero_times query.page_size) refl
  gather-take (suc n) =
      let size = query.page_size in
      let whole = whole_list query.sort f t.conversations in
      let first = take (n * size) whole in
      let next = take size (drop (n * size) whole) in
      gather-suc n _ (items_naive rt t first) (items_naive rt t next) (suc n) size (length whole)
        (ceil_div (length whole) size) (gather-take n)
        (list-numbered_page rt t tiebreak org query f n mode absent filters)
      ∙ ap ok (
          sym (items_naive-append rt t first next)
          ∙ ap (items_naive rt t)
              (sym (take-add (n * size) size whole) ∙ ap (λ k. take k whole) (suc_times n size)))

-- On tables that do not change, and with filters that parse, the pages from 1 to the reported
-- number of pages hold, one after the other, exactly the rows that the filters pass in the
-- order of the list, whatever the page size above zero and with either strategy; and each
-- page reports how many those rows are and into how many pages they go.
pub gather-whole_list :
    (strategy : ListStrategy) (rt : Runtime) (t : Tables) (tiebreak : Bool) (org : ℕ)
    (query : ListQuery) (f : Filters)
    → query.paging ≡ offset
    → query.cursor ≡ none
    → 1 ≤ query.page_size
    → filters_for rt org query ≡ ok f
    → IsCollation rt
    → (gather
          (ceil_div (length (whole_list query.sort f t.conversations)) query.page_size)
          (λ page. list strategy tiebreak rt t t org (at_page query page))
        ≡ ok (items_naive rt t (whole_list query.sort f t.conversations)))
      × ((n : ℕ)
          → (items : List ListItem) × (list strategy tiebreak rt t t org (at_page query (suc n))
              ≡ ok (
                  offset_page items
                    (suc n)
                    query.page_size
                    (length (whole_list query.sort f t.conversations))
                    (ceil_div (length (whole_list query.sort f t.conversations)) query.page_size))))
unfolding numbered_page
gather-whole_list strategy rt t tiebreak org query f mode absent positive filters law =
    let whole = whole_list query.sort f t.conversations in
    let pages = ceil_div (length whole) query.page_size in
    (
      ap (gather pages)
            (fun_ext (λ page. list-naive strategy rt t tiebreak org law (at_page query page)))
          ∙ gather-take rt t tiebreak org query f mode absent filters pages
          ∙ ap (λ rows. ok (items_naive rt t rows))
              (take_all (pages * query.page_size) whole
                ((ceil_div-le_iff (length whole) query.page_size pages positive).0 (omega arith))),
      λ n. (
        _,
        list-naive strategy rt t tiebreak org law (at_page query (suc n))
            ∙ list-numbered_page rt t tiebreak org query f n mode absent filters,
      ),
    )
