-- ===== src/Conversations/Paging/Walk.antt =====
-- A client that follows the cursors of the keyset arm: what it has seen when they end.
use drills.Prelude.{
  ℕ, zero, suc, ◌≤◌, ◌<◌, ◌≡◌, refl, sym, ap, ◌∙◌, inl, inr, Bool, true, false, Option, none, some,
  List, [], ◌∷◌, ◌++◌, length, take, drop, take_all, length-drop, take-drop, ltb, ltb→lt, subst,
  fun_ext, Bool-cases, All, arith,
}
use mathlib.Core.List.{append_assoc}
use drills.Prelude.Sorting.{length-keep, All-keep, All-sort, sort-length, keep}
use drills.Prelude.Strict.{IsStrict, IsDistinct, All-member}
use drills.Prelude.Result.{Result, ok, err}
use drills.Prelude.Text.{Text}
use drills.Conversations.Table.{Row}
use drills.Conversations.Paging.Query.{
  keyset, ListQuery, Runtime, ListError, Filters, matches, filters_for, sort_column, before,
}
use drills.Conversations.Paging.Cursor.{encode_cursor}
use drills.Conversations.Paging.Listing.{
  ListItem, Tables, Page, offset_page, cursor_page, Position, start, row_below, in_position,
  position_at, items_naive, list, naive, ListStrategy,
}
use drills.Conversations.Paging.RoundTrip.{Reads, IsPrinted}
use drills.Conversations.Paging.Order.{same_id, whole_list, whole_list-IsStrict}
use drills.Conversations.Paging.Slices.{keep-start}
use drills.Conversations.Paging.Arms.{IsCollation, list-naive}
use drills.Conversations.Paging.Keyset.{
  at_cursor, cut_page, list-cut_page, position_at-at_cursor, keep-row_below, items_naive-append,
  split_page, cut_page-more, cut_page-end,
}

-- A client that follows the cursors: `none` is out of fuel.
unfoldable pub walk :
    ℕ
    → (Option Text → Result ListError Page)
    → Option Text
    → Option (Result ListError (List ListItem))
walk zero fetch cursor = none
walk (suc n) fetch cursor = elim (fetch cursor) [
  | err e ↦ some (err e)
  | ok (offset_page items page size total pages) ↦ some (ok items)
  | ok (cursor_page items size none more) ↦ some (ok items)
  | ok (cursor_page items size (some next) more) ↦ elim (walk n fetch (some next)) [
    | none ↦ none
    | some (err e) ↦ some (err e)
    | some (ok rest) ↦ some (ok (items ++ rest))
  ]
]

walk-last :
    (n : ℕ) (fetch : Option Text → Result ListError Page) (cursor : Option Text)
    (items : List ListItem) (size : ℕ) (more : Bool)
    → fetch cursor ≡ ok (cursor_page items size none more)
    → walk (suc n) fetch cursor ≡ some (ok items)
unfolding walk
walk-last n fetch cursor items size more page = rw (walk, page) refl

walk-next :
    (n : ℕ) (fetch : Option Text → Result ListError Page) (cursor : Option Text)
    (items rest : List ListItem) (size : ℕ) (next : Text) (more : Bool)
    → fetch cursor ≡ ok (cursor_page items size (some next) more)
    → walk n fetch (some next) ≡ some (ok rest)
    → walk (suc n) fetch cursor ≡ some (ok (items ++ rest))
unfolding walk
walk-next n fetch cursor items rest size next more page after = rw (walk, page, after) refl

fetch_naive : Runtime → Tables → ℕ → ListQuery → Option Text → Result ListError Page
fetch_naive rt t org query cursor = list naive true rt t t org (at_cursor query cursor)

module _ (rt : Runtime) (t : Tables) (org : ℕ) (query : ListQuery) (f : Filters)
    (mode : query.paging ≡ keyset) (positive : 1 ≤ query.page_size)
    (filters : filters_for rt org query ≡ ok f) (reads : Reads rt)
    (printed : All (IsPrinted rt query.sort) (whole_list query.sort f t.conversations))
    (distinct : IsDistinct same_id t.conversations) where
  fetch-cut_page :
      (rest : List Row) (cursor : Option Text) (position : Position)
      → position_at rt true (at_cursor query cursor) cursor ≡ ok position
      → keep (in_position query.sort position) (whole_list query.sort f t.conversations) ≡ rest
      → fetch_naive rt t org query cursor
        ≡ ok (
            cut_page rt t
              (at_cursor query cursor)
              (take query.page_size rest, ltb query.page_size (length rest)))
  unfolding filters_for fetch_naive
  fetch-cut_page rest cursor position there left =
      list-cut_page rt t org (at_cursor query cursor) f position rest mode there filters left

  walk-rest :
      (n : ℕ) (xs rest : List Row) (cursor : Option Text) (position : Position)
      → position_at rt true (at_cursor query cursor) cursor ≡ ok position
      → keep (in_position query.sort position) (whole_list query.sort f t.conversations) ≡ rest
      → whole_list query.sort f t.conversations ≡ xs ++ rest
      → length rest < n
      → walk n (fetch_naive rt t org query) cursor ≡ some (ok (items_naive rt t rest))
  walk-rest zero xs rest cursor position there left whole fuel = absurd (omega (arith, fuel))
  walk-rest (suc n) xs rest cursor position there left whole fuel =
      elim (Bool-cases (ltb query.page_size (length rest))) [
        | inr done ↦
            walk-last n (fetch_naive rt t org query) cursor
              (items_naive rt t (take query.page_size rest)) query.page_size false
              (fetch-cut_page rest cursor position there left
                ∙ ap ok (
                    cut_page-end rt t query cursor (take query.page_size rest)
                      (ltb query.page_size (length rest)) done))
            ∙ ap (λ rows. some (ok (items_naive rt t rows)))
                (take_all query.page_size rest (ground (arith, done)))
        | inl more ↦
            let (front, l, last, split) = split_page query.page_size rest positive more in
            let after = drop query.page_size rest in
            let whole_split =
              whole ∙ ap (λ r. xs ++ r) split ∙ sym (append_assoc xs front (l ∷ after)) in
            walk-next n (fetch_naive rt t org query) cursor
              (items_naive rt t (take query.page_size rest)) (items_naive rt t after)
              query.page_size (encode_cursor rt l query) true
              (fetch-cut_page rest cursor position there left
                ∙ ap ok (
                    cut_page-more rt t query cursor (take query.page_size rest)
                      (ltb query.page_size (length rest)) l more last))
              (walk-rest n (xs ++ take query.page_size rest) after (some (encode_cursor rt l query))
                (row_below (sort_column query.sort l) l.id)
                (position_at-at_cursor rt query (some (encode_cursor rt l query)) l reads (
                  All-member (IsPrinted rt query.sort) (xs ++ front) after l
                    (subst (All (IsPrinted rt query.sort)) whole_split printed)))
                (keep-row_below query.sort f t.conversations (xs ++ front) after l distinct
                  whole_split)
                (whole
                  ∙ ap (λ r. xs ++ r) (sym (take-drop query.page_size rest))
                  ∙ sym (append_assoc xs (take query.page_size rest) after))
                (omega (
                  arith,
                  length-drop query.page_size rest,
                  fuel,
                  positive,
                  ltb→lt query.page_size (length rest) more,
                )))
            ∙ ap (λ items. some (ok items))
                (sym (items_naive-append rt t (take query.page_size rest) after)
                  ∙ ap (items_naive rt t) (take-drop query.page_size rest))
      ]

-- A page of either strategy.
unfoldable pub fetch :
    ListStrategy → Runtime → Tables → ℕ → ListQuery → Option Text → Result ListError Page
fetch strategy rt t org query cursor = list strategy true rt t t org (at_cursor query cursor)

fetch-fetch_naive :
    (strategy : ListStrategy) (rt : Runtime) (t : Tables) (org : ℕ) (query : ListQuery)
    → IsCollation rt
    → fetch strategy rt t org query ≡ fetch_naive rt t org query
unfolding fetch fetch_naive
fetch-fetch_naive strategy rt t org query law =
    fun_ext (λ cursor. list-naive strategy rt t true org law (at_cursor query cursor))

-- On tables that do not change, a client that starts without a cursor and follows each page's
-- cursor comes to an end within one request more than there are rows, and has then seen
-- exactly the rows that the filters pass, each once, in strict order, whatever the page size
-- above zero and with either strategy. It takes distinct ids, filters that parse, a collation
-- that is a strict weak order, a codec that reads what it wrote, and rows whose time and id
-- print as Postgres reads them.
pub walk-whole_list :
    (strategy : ListStrategy) (rt : Runtime) (t : Tables) (org : ℕ) (query : ListQuery)
    (f : Filters) (n : ℕ)
    → query.paging ≡ keyset
    → 1 ≤ query.page_size
    → filters_for rt org query ≡ ok f
    → Reads rt
    → IsCollation rt
    → All (IsPrinted rt query.sort) t.conversations
    → IsDistinct same_id t.conversations
    → length t.conversations < n
    → (walk n (fetch strategy rt t org query) none
        ≡ some (ok (items_naive rt t (whole_list query.sort f t.conversations))))
      × IsStrict (before query.sort) (whole_list query.sort f t.conversations)
unfolding whole_list position_at
walk-whole_list strategy rt t org query f n mode positive filters reads law printed distinct fuel =
    let passed = keep (matches f) t.conversations in
    (
      ap (λ get. walk n get none) (fetch-fetch_naive strategy rt t org query law)
          ∙ walk-rest rt t org query f mode positive filters reads
              (All-sort (IsPrinted rt query.sort) (before query.sort) passed
                (All-keep (IsPrinted rt query.sort) (matches f) t.conversations printed))
              distinct n [] (whole_list query.sort f t.conversations) none start refl
              (keep-start query.sort (whole_list query.sort f t.conversations)) refl
              (omega (
                arith,
                fuel,
                sort-length (before query.sort) passed,
                length-keep (matches f) t.conversations,
              )),
      whole_list-IsStrict query.sort f t.conversations distinct,
    )
