-- ===== src/Conversations/Paging/Cursor.antt =====
-- Cursors: `fingerprint`, `encodeCursor`, `decodeCursor`.
use drills.Prelude.{
  ℕ, zero, suc, Bool, true, false, ◌&&◌, ◌||◌, Option, none, some, [], ◌∷◌, ◌++◌, leb, ◌==◌,
  if◌then◌else◌,
}
use drills.Prelude.Result.{Result, ok, err}
use drills.Prelude.Text.{Text, text_eq}
use drills.Conversations.Table.{Status, open_status, closed_status, Row}
use drills.Conversations.Paging.Query.{
  SortKey, by_updated_at, by_created_at, ListQuery, Payload, Parsed, Runtime, BadCursor,
  not_decodable, bad_version, bad_key, bad_id, other_query, sort_column,
}

abbrev pub cursor_version : ℕ
cursor_version = 1

abbrev at : Text
at = b'_' ∷ b'a' ∷ b't' ∷ []

abbrev pub sort_text : SortKey → Text
sort_text by_updated_at = b'u' ∷ b'p' ∷ b'd' ∷ b'a' ∷ b't' ∷ b'e' ∷ b'd' ∷ at
sort_text by_created_at = b'c' ∷ b'r' ∷ b'e' ∷ b'a' ∷ b't' ∷ b'e' ∷ b'd' ∷ at

abbrev pub status_text : Option Status → Text
status_text none = []
status_text (some open_status) = b'o' ∷ b'p' ∷ b'e' ∷ b'n' ∷ []
status_text (some closed_status) = b'c' ∷ b'l' ∷ b'o' ∷ b's' ∷ b'e' ∷ b'd' ∷ []

abbrev pub or_empty : Option Text → Text
or_empty none = []
or_empty (some t) = t

-- `[sort, status ?? '', updatedFrom ?? '', updatedTo ?? ''].join('|')`
unfoldable pub fingerprint : ListQuery → Text
fingerprint query =
    sort_text query.sort
    ++ (b'|' ∷ status_text query.status
        ++ (b'|' ∷ or_empty query.updated_from ++ (b'|' ∷ or_empty query.updated_to)))

-- [0-9a-f] with the flag `i`
unfoldable pub is_hex : ℕ → Bool
is_hex c = leb b'0' c && leb c b'9' || leb b'a' c && leb c b'f' || leb b'A' c && leb c b'F'

-- What follows `n` such digits.
unfoldable pub skip_hex : ℕ → Text → Option Text
unfolding is_hex
skip_hex zero text = some text
skip_hex (suc n) [] = none
skip_hex (suc n) (c ∷ text) = let rest = skip_hex n text in if is_hex c then rest else none

unfoldable pub skip_dash : Option Text → Option Text
skip_dash none = none
skip_dash (some []) = none
skip_dash (some (c ∷ text)) = if c == b'-' then some text else none

abbrev pub and_then : Option Text → (Text → Option Text) → Option Text
and_then none f = none
and_then (some t) f = f t

abbrev pub is_end : Option Text → Bool
is_end none = false
is_end (some []) = true
is_end (some (c ∷ text)) = false

-- UUID_PATTERN
unfoldable pub is_uuid : Text → Bool
unfolding skip_hex skip_dash
is_uuid text =
    let a = and_then (skip_dash (skip_hex 8 text)) (skip_hex 4) in
    let b = and_then (skip_dash a) (skip_hex 4) in
    let c = and_then (skip_dash b) (skip_hex 4) in is_end (and_then (skip_dash c) (skip_hex 12))

unfoldable pub payload_of : Runtime → Row → ListQuery → Payload
payload_of rt row query = record {
  v = cursor_version;
  k = rt.to_char (sort_column query.sort row);
  i = rt.uuid_text row.id;
  f = fingerprint query;
}

unfoldable pub encode_cursor : Runtime → Row → ListQuery → Text
unfolding payload_of
encode_cursor rt row query = rt.stringify (payload_of rt row query)

unfoldable pub check_fingerprint : ListQuery → Text → Text → Option Text → Result BadCursor Payload
check_fingerprint query k i none = err other_query
check_fingerprint query k i (some f) =
    if text_eq f (fingerprint query)
    then ok (record { v = cursor_version; k = k; i = i; f = f })
    else err other_query

unfoldable pub check_id : ListQuery → Text → Option Text → Option Text → Result BadCursor Payload
unfolding check_fingerprint
check_id query k none f = err bad_id
check_id query k (some i) f = if is_uuid i then check_fingerprint query k i f else err bad_id

unfoldable pub check_key :
    Runtime → ListQuery → Option Text → Option Text → Option Text → Result BadCursor Payload
unfolding check_id
check_key rt query none i f = err bad_key
check_key rt query (some k) i f = if rt.is_date k then check_id query k i f else err bad_key

abbrev pub is_version : Option ℕ → Bool
is_version none = false
is_version (some v) = v == cursor_version

unfoldable pub check_parsed : Runtime → ListQuery → Option Parsed → Result BadCursor Payload
unfolding check_key
check_parsed rt query none = err not_decodable
check_parsed rt query (some p) =
    if is_version p.v then check_key rt query p.k p.i p.f else err bad_version

unfoldable pub decode_cursor : Runtime → Text → ListQuery → Result BadCursor Payload
unfolding check_parsed
decode_cursor rt cursor query = check_parsed rt query (rt.parse cursor)
