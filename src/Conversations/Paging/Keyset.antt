-- ===== src/Conversations/Paging/Keyset.antt =====
-- The pages of the keyset arm: what stands on one, and where its cursor leads.
use drills.Prelude.{
  ℕ, zero, suc, ◌+◌, ◌≤◌, ◌≡◌, refl, sym, ap, ◌∙◌, Bool, true, false, Option, none, some, List, [],
  ◌∷◌, ◌++◌, length, take, drop, take-drop, ltb, subst, arith,
}
use mathlib.Core.List.{append_assoc}
use drills.Prelude.Sorting.{keep}
use drills.Prelude.Strict.{IsStrict, IsDistinct, keep_after}
use drills.Prelude.Result.{ok}
use drills.Prelude.Text.{Text}
use drills.Conversations.Table.{Row}
use drills.Conversations.Paging.Query.{
  SortKey, keyset, ListQuery, Runtime, Filters, filters_for, sort_column, before,
}
use drills.Conversations.Paging.Cursor.{encode_cursor, payload_of, fingerprint}
use drills.Conversations.Paging.Listing.{
  Tables, Page, cursor_page, Position, row_below, Paging, in_position, slice, position_at,
  with_filters, paging_for, items_naive, last_of, next_cursor, count_for, list_page, list, naive,
  to_result, items_for, mixes_arms, cursor_of,
}
use drills.Conversations.Paging.RoundTrip.{Reads, IsPrinted, decode_cursor-encode_cursor}
use drills.Conversations.Paging.Order.{
  before-asymmetric, before-chain, same_id, whole_list, whole_list-IsStrict,
}
use drills.Conversations.Paging.Slices.{select_rows-whole_list, slice-take, last_of-snoc}

-- The query with the cursor that the client sends.
abbrev pub at_cursor : ListQuery → Option Text → ListQuery
at_cursor query cursor = record query { cursor = cursor }

keyset_paging : ListQuery → Filters → Position → Paging
keyset_paging query f position = record {
  filters = f;
  position = position;
  limit = query.page_size + 1;
  offset = none;
}

unfoldable pub cut_page : Runtime → Tables → ListQuery → List Row × Bool → Page
cut_page rt t query (rows, more) =
    cursor_page (items_naive rt t rows) query.page_size (next_cursor rt query more (last_of rows))
      more

-- The page at a position is the start of what the position leaves.
list_page-cut_page :
    (rt : Runtime) (t : Tables) (query : ListQuery) (f : Filters) (position : Position)
    (rest : List Row)
    → query.paging ≡ keyset
    → keep (in_position query.sort position) (whole_list query.sort f t.conversations) ≡ rest
    → list_page naive rt t t query (keyset_paging query f position)
      ≡ cut_page rt t query (take query.page_size rest, ltb query.page_size (length rest))
unfolding list_page cut_page items_for count_for to_result keyset_paging
list_page-cut_page rt t query f position rest mode left =
    ap (λ rows. cut_page rt t query (slice query rows))
      (select_rows-whole_list query.sort (keyset_paging query f position) t.conversations
        ∙ ap (take (query.page_size + 1)) left)
    ∙ ap (cut_page rt t query) (slice-take query rest mode)

cursor_of-keyset : (query : ListQuery) → query.paging ≡ keyset → cursor_of query ≡ query.cursor
cursor_of-keyset query mode = rw mode refl

mixes_arms-keyset : (query : ListQuery) → query.paging ≡ keyset → mixes_arms query ≡ false
mixes_arms-keyset query mode = rw mode refl

with_filters-keyset :
    (query : ListQuery) (f : Filters) (position : Position)
    → query.paging ≡ keyset
    → with_filters query position (ok f) ≡ ok (keyset_paging query f position)
unfolding with_filters keyset_paging
with_filters-keyset query f position mode = rw (with_filters, mode) refl

paging_for-keyset_paging :
    (rt : Runtime) (org : ℕ) (query : ListQuery) (f : Filters) (position : Position)
    → query.paging ≡ keyset
    → position_at rt true query query.cursor ≡ ok position
    → filters_for rt org query ≡ ok f
    → paging_for rt true org query ≡ ok (keyset_paging query f position)
unfolding paging_for keyset_paging with_filters
paging_for-keyset_paging rt org query f position mode there filters =
    rw (paging_for, cursor_of-keyset query mode, there, filters)
      (with_filters-keyset query f position mode)

pub list-cut_page :
    (rt : Runtime) (t : Tables) (org : ℕ) (query : ListQuery) (f : Filters) (position : Position)
    (rest : List Row)
    → query.paging ≡ keyset
    → position_at rt true query query.cursor ≡ ok position
    → filters_for rt org query ≡ ok f
    → keep (in_position query.sort position) (whole_list query.sort f t.conversations) ≡ rest
    → list naive true rt t t org query
      ≡ ok (cut_page rt t query (take query.page_size rest, ltb query.page_size (length rest)))
unfolding list
list-cut_page rt t org query f position rest mode there filters left =
    rw
      (
        list,
        mixes_arms-keyset query mode,
        paging_for-keyset_paging rt org query f position mode there filters,
      )
      (ap ok (list_page-cut_page rt t query f position rest mode left))

-- The cursor of a page leads to what comes after its last row.
position_at-encode_cursor :
    (rt : Runtime) (query : ListQuery) (row : Row)
    → Reads rt
    → IsPrinted rt query.sort row
    → position_at rt true query (some (encode_cursor rt row query))
      ≡ ok (row_below (sort_column query.sort row) row.id)
unfolding position_at
position_at-encode_cursor rt query row reads printed =
    let (decoded, cast, rest) = decode_cursor-encode_cursor rt row query reads printed in
    rw (position_at, decoded) cast

-- What a cursor points at does not depend on the cursor that its query had.
pub position_at-at_cursor :
    (rt : Runtime) (query : ListQuery) (c : Option Text) (row : Row)
    → Reads rt
    → IsPrinted rt query.sort row
    → position_at rt true (at_cursor query c) (some (encode_cursor rt row query))
      ≡ ok (row_below (sort_column query.sort row) row.id)
unfolding encode_cursor payload_of fingerprint
position_at-at_cursor rt query c row reads printed =
    position_at-encode_cursor rt (at_cursor query c) row reads printed

-- The rows below one of the whole list are those that follow it.
pub keep-row_below :
    (key : SortKey) (f : Filters) (table front after : List Row) (l : Row)
    → IsDistinct same_id table
    → whole_list key f table ≡ front ++ (l ∷ after)
    → keep (in_position key (row_below (sort_column key l) l.id)) (whole_list key f table) ≡ after
unfolding in_position before
keep-row_below key f table front after l distinct split =
    ap (keep (before key l)) split
    ∙ keep_after (before key) (before-chain key) (λ x y. before-asymmetric key y x) front after l
        (subst (IsStrict (before key)) split (whole_list-IsStrict key f table distinct))

pub items_naive-append :
    (rt : Runtime) (t : Tables) (xs ys : List Row)
    → items_naive rt t (xs ++ ys) ≡ items_naive rt t xs ++ items_naive rt t ys
unfolding items_naive
items_naive-append rt t [] ys = refl
items_naive-append rt t (x ∷ xs) ys = rw (items_naive-append rt t xs ys) refl

-- What is left after the last row of a page that another page follows.
pub split_page :
    (size : ℕ) (rest : List Row)
    → 1 ≤ size
    → ltb size (length rest) ≡ true
    → (front : List Row) × (l : Row) × (last_of (take size rest) ≡ some l)
      × (rest ≡ front ++ (l ∷ drop size rest))
split_page zero rest positive more = absurd (omega (arith, positive))
split_page (suc n) [] positive more = absurd (ground (arith, more))
split_page (suc n) (x ∷ xs) positive more =
    let (front, l, split, last) = last_of-snoc x (take n xs) in
    (
      front,
      l,
      last,
      sym (ap (λ r. x ∷ r) (take-drop n xs))
          ∙ ap (λ r. r ++ drop n xs) split
          ∙ append_assoc front (l ∷ []) (drop n xs),
    )

pub cut_page-more :
    (rt : Runtime) (t : Tables) (query : ListQuery) (c : Option Text) (rows : List Row)
    (more : Bool) (l : Row)
    → more ≡ true
    → last_of rows ≡ some l
    → cut_page rt t (at_cursor query c) (rows, more)
      ≡ cursor_page (items_naive rt t rows) query.page_size (some (encode_cursor rt l query)) true
unfolding cut_page next_cursor encode_cursor payload_of fingerprint
cut_page-more rt t query c rows more l follows last = rw (cut_page, follows, last) refl

pub cut_page-end :
    (rt : Runtime) (t : Tables) (query : ListQuery) (c : Option Text) (rows : List Row)
    (more : Bool)
    → more ≡ false
    → cut_page rt t (at_cursor query c) (rows, more)
      ≡ cursor_page (items_naive rt t rows) query.page_size none false
unfolding cut_page next_cursor
cut_page-end rt t query c rows more done = rw (cut_page, done) refl
