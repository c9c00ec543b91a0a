-- ===== src/Frontend/Tests.antt =====
-- Clicks on the list of conversations, one of whose requests fails.
use drills.Prelude.{◌≡◌, ◌≢◌, ◌⊎◌, refl, true, Option, none, some, List, [], ◌∷◌, ◌++◌, arith}
use drills.Prelude.Result.{ok}
use drills.Prelude.Text.{Text}
use drills.Conversations.Paging.Query.{by_updated_at, filters_for, matches, row_lt, before}
use drills.Conversations.Paging.Cursor.{encode_cursor}
use drills.Conversations.Paging.Listing.{
  ListItem, items_naive, naive, cursor_page, list, list_page, items_for, to_result, select_rows,
  in_position, count_for, slice, last_of, next_cursor, paging_for, position_at, with_filters,
}
use drills.Prelude.Sorting.{keep, sort, insert}
use drills.Conversations.Paging.Order.{whole_list}
use drills.Conversations.Paging.Walk.{fetch}
use drills.Conversations.Paging.Sample.{
  rt, tables, query, filters, row_at, rt-Reads, rt-IsCollation, rows-IsPrinted, rows-IsDistinct,
}
use drills.Frontend.ConversationList.{rows, Event, clicks, responds, breaks, run, first_state}
use drills.Frontend.Loaded.{run-rows}
use drills.Frontend.PageShape.{body_of, is_cursor_page, read_page, is_keyset, read_page-list}

abbrev first_items : List ListItem
first_items = items_naive rt tables (row_at 6 90 ∷ row_at 3 70 ∷ [])

abbrev first_cursor : Option Text
first_cursor = some (encode_cursor rt (row_at 3 70) query)

abbrev events : List Event
events = clicks ∷ clicks ∷ breaks ∷ clicks ∷ responds ∷ clicks ∷ responds ∷ []

first_page : fetch naive rt tables 7 query none ≡ ok (cursor_page first_items 2 first_cursor true)
unfolding fetch list list_page items_for to_result select_rows in_position count_for slice last_of
    next_cursor paging_for position_at with_filters filters_for matches row_lt before keep sort
    insert
first_page = refl

run-rows_example :
    let s = run (fetch naive rt tables 7 query) events (first_state first_items first_cursor) in
    let all = items_naive rt tables (whole_list by_updated_at filters tables.conversations) in
    ((rest : List ListItem) × (rows s ++ rest ≡ all)) × ((s.cursor ≢ none) ⊎ (rows s ≡ all))
unfolding filters_for
run-rows_example =
    run-rows naive rt tables 7 query filters first_items 2 first_cursor true events refl
      (omega arith) refl rt-Reads rt-IsCollation rows-IsPrinted rows-IsDistinct first_page

first_listed :
    list naive true rt tables tables 7 query ≡ ok (cursor_page first_items 2 first_cursor true)
unfolding fetch
first_listed = first_page

read_page-list_example :
    let page = cursor_page first_items 2 first_cursor true in
    (is_cursor_page (body_of page) ≡ is_keyset query.paging)
    × (read_page (body_of page) ≡ some page)
read_page-list_example =
    read_page-list naive true rt tables tables 7 query (cursor_page first_items 2 first_cursor true)
      first_listed
