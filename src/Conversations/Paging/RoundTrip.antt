-- ===== src/Conversations/Paging/RoundTrip.antt =====
-- A cursor that `encodeCursor` makes is read back by `decodeCursor` as the position of its row.
use drills.Prelude.{ℕ, ◌≡◌, ◌↔◌, refl, true, false, Option, none, some, arith}
use drills.Prelude.Result.{ok}
use drills.Prelude.Text.{Text, text_eq_refl, text_eq_iff}
use drills.Conversations.Table.{Row}
use drills.Conversations.Paging.Query.{SortKey, ListQuery, Payload, Parsed, Runtime, sort_column}
use drills.Conversations.Paging.Cursor.{
  fingerprint, is_uuid, payload_of, encode_cursor, decode_cursor, check_fingerprint, check_id,
  check_key, check_parsed, is_version,
}
use drills.Conversations.Paging.Listing.{below, row_below, cast_position}

-- JSON and base64url give back a payload, as Node documents.
abbrev pub parsed_of : Payload → Parsed
parsed_of p = record { v = some p.v; k = some p.k; i = some p.i; f = some p.f }

abbrev pub Reads : Runtime → Type 0
Reads rt = (p : Payload) → rt.parse (rt.stringify p) ≡ some (parsed_of p)

-- What Postgres prints of a row's sort key and id is a date and a uuid, and is cast back to them.
pub record IsPrinted (rt : Runtime) (key : SortKey) (row : Row) : Type 0 where
  pub date : rt.is_date (rt.to_char (sort_column key row)) ≡ true
  pub instant : rt.instant (rt.to_char (sort_column key row)) ≡ some (sort_column key row)
  pub uuid : is_uuid (rt.uuid_text row.id) ≡ true
  pub id : rt.uuid (rt.uuid_text row.id) ≡ some row.id

-- Where Node reads back what it wrote, and Postgres what it printed of the row, a cursor made
-- for a row decodes under its own query to the payload it was made of, which is cast to the
-- row's sort key and id, or to the sort key alone without the tiebreak.
pub decode_cursor-encode_cursor :
    (rt : Runtime) (row : Row) (query : ListQuery)
    → Reads rt
    → IsPrinted rt query.sort row
    → (decode_cursor rt (encode_cursor rt row query) query ≡ ok (payload_of rt row query))
      × (cast_position rt true (payload_of rt row query)
          ≡ ok (row_below (sort_column query.sort row) row.id))
      × (cast_position rt false (payload_of rt row query) ≡ ok (below (sort_column query.sort row)))
unfolding decode_cursor encode_cursor payload_of cast_position check_parsed check_key check_id
    check_fingerprint
decode_cursor-encode_cursor rt row query reads printed = (
  (rw
      (
        reads (payload_of rt row query),
        printed.date,
        printed.uuid,
        text_eq_refl (fingerprint query),
      )
      refl),
  rw (cast_position, payload_of, printed.instant, printed.id) refl,
  rw (cast_position, payload_of, printed.instant) refl,
)

check_fingerprint-ok :
    (query : ListQuery) (k i : Text) (f : Option Text) (p : Payload)
    → check_fingerprint query k i f ≡ ok p
    → (f ≡ some p.f) × (p.v ≡ 1) × (p.k ≡ k) × (p.i ≡ i) × (p.f ≡ fingerprint query)
unfolding check_fingerprint
check_fingerprint-ok query k i none p same = ground (arith, same)
check_fingerprint-ok query k i (some f) p same =
    ground (arith, same, text_eq_iff f (fingerprint query))

check_id-ok :
    (query : ListQuery) (k : Text) (i f : Option Text) (p : Payload)
    → check_id query k i f ≡ ok p
    → (i ≡ some p.i)
      × (is_uuid p.i ≡ true)
      × (f ≡ some p.f)
      × (p.v ≡ 1)
      × (p.k ≡ k)
      × (p.f ≡ fingerprint query)
unfolding check_id
check_id-ok query k none f p same = ground (arith, same)
check_id-ok query k (some i) f p same = ground (arith, same, check_fingerprint-ok query k i f p)

check_key-ok :
    (rt : Runtime) (query : ListQuery) (k i f : Option Text) (p : Payload)
    → check_key rt query k i f ≡ ok p
    → (k ≡ some p.k)
      × (rt.is_date p.k ≡ true)
      × (i ≡ some p.i)
      × (is_uuid p.i ≡ true)
      × (f ≡ some p.f)
      × (p.v ≡ 1)
      × (p.f ≡ fingerprint query)
unfolding check_key
check_key-ok rt query none i f p same = ground (arith, same)
check_key-ok rt query (some k) i f p same = ground (arith, same, check_id-ok query k i f p)

is_version-true : (v : Option ℕ) → is_version v ≡ true → v ≡ some 1
is_version-true none same = ground (arith, same)
is_version-true (some v) same = ground (arith, same)

check_parsed-ok :
    (rt : Runtime) (query : ListQuery) (parsed : Option Parsed) (p : Payload)
    → check_parsed rt query parsed ≡ ok p
    → (parsed ≡ some (parsed_of p))
      × (p.v ≡ 1)
      × (rt.is_date p.k ≡ true)
      × (is_uuid p.i ≡ true)
      × (p.f ≡ fingerprint query)
unfolding check_parsed
check_parsed-ok rt query none p same = ground (arith, same)
check_parsed-ok rt query (some q) p same =
    ground (arith, same, is_version-true q.v, check_key-ok rt query q.k q.i q.f p)

-- A cursor is accepted exactly if it decodes to version 1 with a date, a uuid and the
-- fingerprint of the query at hand, and then its key and id are passed on as they are.
pub decode_cursor-ok_iff :
    (rt : Runtime) (cursor : Text) (query : ListQuery) (p : Payload)
    → (decode_cursor rt cursor query ≡ ok p) ↔ (
        (rt.parse cursor ≡ some (parsed_of p))
        × (p.v ≡ 1)
        × (rt.is_date p.k ≡ true)
        × (is_uuid p.i ≡ true)
        × (p.f ≡ fingerprint query))
unfolding decode_cursor check_parsed check_key check_id check_fingerprint
decode_cursor-ok_iff rt cursor query p = (
  λ same. check_parsed-ok rt query (rt.parse cursor) p same,
  λ (parsed, version, date, uuid, print).
      rw (parsed, version, date, uuid, print, text_eq_refl (fingerprint query)) refl,
)
