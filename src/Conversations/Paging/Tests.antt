-- ===== src/Conversations/Paging/Tests.antt =====
-- A page size of two over five conversations, two of which changed at the same time.
use drills.Prelude.{
  ℕ, suc, ◌≡◌, ◌↔◌, refl, true, false, none, some, List, [], ◌∷◌, length, map, arith,
}
use drills.Prelude.Division.{ceil_div}
use drills.Prelude.Sorting.{keep, insert, sort}
use drills.Prelude.Strict.{IsStrict}
use drills.Prelude.Result.{ok}
use drills.Conversations.Table.{Row}
use drills.Conversations.Paging.Query.{by_updated_at, offset, before, matches, row_lt, filters_for}
use drills.Conversations.Paging.Cursor.{
  encode_cursor, decode_cursor, fingerprint, is_uuid, payload_of,
}
use drills.Conversations.Paging.Listing.{
  ListItem, Position, select_rows, in_position, offset_page, row_below, below, cast_position,
  items_naive, list, naive, batched,
}
use drills.Conversations.Paging.RoundTrip.{
  parsed_of, decode_cursor-encode_cursor, decode_cursor-ok_iff,
}
use drills.Conversations.Paging.Arms.{list-batched_naive}
use drills.Conversations.Paging.Order.{whole_list}
use drills.Conversations.Paging.Walk.{walk, fetch, walk-whole_list}
use drills.Conversations.Paging.Pages.{at_page, gather, gather-whole_list}
use drills.Conversations.Paging.Sample.{
  filters, query, row, row-IsPrinted, rows-IsDistinct, rows-IsPrinted, rt, rt-IsCollation, rt-Reads,
  tables,
}

ids : List Row → List ℕ
ids rows = map (λ row. row.id) rows

newest_first : ids (whole_list by_updated_at filters tables.conversations) ≡ 6 ∷ 3 ∷ 2 ∷ 4 ∷ 1 ∷ []
unfolding ids whole_list sort insert keep matches before row_lt
newest_first = refl

after_row : Position → List ℕ
after_row position = ids (
    select_rows by_updated_at
      (record { filters = filters; position = position; limit = 3; offset = none })
      tables.conversations)

after_row_three : after_row (row_below 70 3) ≡ 2 ∷ 4 ∷ 1 ∷ []
unfolding after_row ids select_rows in_position sort insert keep matches before row_lt
after_row_three = refl

-- Without the tiebreak a row that changed at the same time is passed over.
without_tiebreak : after_row (below 70) ≡ 4 ∷ 1 ∷ []
unfolding after_row ids select_rows in_position sort insert keep matches before row_lt
without_tiebreak = refl

decode_cursor-encode_cursor_example :
    (decode_cursor rt (encode_cursor rt row query) query ≡ ok (payload_of rt row query))
    × (cast_position rt true (payload_of rt row query) ≡ ok (row_below 70 3))
    × (cast_position rt false (payload_of rt row query) ≡ ok (below 70))
unfolding is_uuid
decode_cursor-encode_cursor_example =
    decode_cursor-encode_cursor rt row query rt-Reads (row-IsPrinted 3 70 refl refl)

decode_cursor-ok_iff_example :
    (decode_cursor rt (encode_cursor rt row query) query ≡ ok (payload_of rt row query)) ↔ (
      (rt.parse (encode_cursor rt row query) ≡ some (parsed_of (payload_of rt row query)))
      × ((payload_of rt row query).v ≡ 1)
      × (rt.is_date (payload_of rt row query).k ≡ true)
      × (is_uuid (payload_of rt row query).i ≡ true)
      × ((payload_of rt row query).f ≡ fingerprint query))
decode_cursor-ok_iff_example =
    decode_cursor-ok_iff rt (encode_cursor rt row query) query (payload_of rt row query)

list-batched_naive_example :
    list batched true rt tables tables 7 query ≡ list naive true rt tables tables 7 query
list-batched_naive_example = list-batched_naive rt tables true 7 query rt-IsCollation

walk-whole_list_example :
    (walk 7 (fetch batched rt tables 7 query) none
      ≡ some (ok (items_naive rt tables (whole_list by_updated_at filters tables.conversations))))
    × IsStrict (before by_updated_at) (whole_list by_updated_at filters tables.conversations)
unfolding is_uuid filters_for
walk-whole_list_example =
    walk-whole_list batched rt tables 7 query filters 7 refl (omega arith) refl rt-Reads
      rt-IsCollation rows-IsPrinted rows-IsDistinct (omega arith)

gather-whole_list_example :
    (gather (ceil_div (length (whole_list by_updated_at filters tables.conversations)) 2) (λ page.
        list batched true rt tables tables 7 (at_page (record query { paging = offset }) page))
      ≡ ok (items_naive rt tables (whole_list by_updated_at filters tables.conversations)))
    × ((n : ℕ)
        → (items : List ListItem) × (list batched true rt tables tables 7
              (at_page (record query { paging = offset }) (suc n))
            ≡ ok (
                offset_page items
                  (suc n)
                  2
                  (length (whole_list by_updated_at filters tables.conversations))
                  (ceil_div (length (whole_list by_updated_at filters tables.conversations)) 2))))
unfolding filters_for
gather-whole_list_example =
    gather-whole_list batched rt tables true 7 (record query { paging = offset }) filters refl refl
      (omega arith) refl rt-IsCollation
