-- ===== src/Conversations/Paging/Sample.antt =====
-- Five open conversations and a closed one, and a codec for their cursors.
use drills.Prelude.{
  All, ℕ, zero, suc, ◌+◌, ◌-◌, ◌≡◌, refl, Bool, true, false, Option, none, some, [], ◌∷◌, ◌++◌,
  length, take, drop, ltb, arith,
}
use drills.Prelude.Strict.{IsDistinct}
use drills.Prelude.Text.{Text}
use drills.Conversations.Table.{Row, open_status, closed_status}
use drills.Conversations.Paging.Query.{
  by_updated_at, keyset, ListQuery, Payload, Parsed, Runtime, Filters,
}
use drills.Conversations.Paging.Cursor.{is_uuid}
use drills.Conversations.Paging.Listing.{TagRow, Tables}
use drills.Conversations.Paging.RoundTrip.{Reads, IsPrinted}
use drills.Conversations.Paging.Arms.{IsCollation}
use drills.Conversations.Paging.Order.{same_id}

abbrev pub zeros : ℕ → Text → Text
zeros zero text = text
zeros (suc n) text = b'0' ∷ zeros n text

abbrev pub uuid_of : ℕ → Text
uuid_of id =
    zeros 8 (b'-' ∷ zeros 4 (b'-' ∷ zeros 4 (b'-' ∷ zeros 4 (b'-' ∷ zeros 11 ((b'0' + id) ∷ [])))))

abbrev pub uuid_value : Text → Option ℕ
uuid_value [] = none
uuid_value (c ∷ text) =
    let rest = uuid_value text in elim text [ [] ↦ some (c - b'0') | d ∷ more ↦ rest ]

abbrev pub written : Payload → Text
written p = p.v ∷ length p.k ∷ (p.k ++ (length p.i ∷ (p.i ++ p.f)))

abbrev pub read_rest : ℕ → Text → Text → Option Parsed
read_rest v k [] = none
read_rest v k (n ∷ text) =
    some (record { v = some v; k = some k; i = some (take n text); f = some (drop n text) })

abbrev pub read_back : Text → Option Parsed
read_back [] = none
read_back (v ∷ []) = none
read_back (v ∷ (n ∷ text)) = read_rest v (take n text) (drop n text)

abbrev pub time_of : Text → Option ℕ
time_of [] = none
time_of (n ∷ []) = some n
time_of (n ∷ (m ∷ text)) = none

abbrev pub is_some : Option ℕ → Bool
is_some none = false
is_some (some n) = true

abbrev pub rt : Runtime
rt = record {
  instant = time_of;
  to_char = λ n. n ∷ [];
  uuid = uuid_value;
  uuid_text = uuid_of;
  is_date = λ text. is_some (time_of text);
  stringify = written;
  parse = read_back;
  collates = λ a b. ltb (length a) (length b);
}

take-append : (xs ys : Text) → take (length xs) (xs ++ ys) ≡ xs
take-append [] ys = refl
take-append (x ∷ xs) ys = rw (take-append xs ys) refl

drop-append : (xs ys : Text) → drop (length xs) (xs ++ ys) ≡ ys
drop-append [] ys = refl
drop-append (x ∷ xs) ys = drop-append xs ys

pub rt-Reads : Reads rt
rt-Reads p =
    let rest = length p.i ∷ (p.i ++ p.f) in
    rw (take-append p.k rest, drop-append p.k rest, take-append p.i p.f, drop-append p.i p.f) refl

pub rt-IsCollation : IsCollation rt
rt-IsCollation = record {
  order = λ z y x below front. ground (arith, below, front);
  asymmetric = λ x y later. ground (arith, later);
}

abbrev pub row_at : ℕ → ℕ → Row
row_at id time = record {
  id = id;
  org_id = 7;
  status = open_status;
  assignee_id = none;
  version = 1;
  created_at = time;
  updated_at = time;
  last_message_at = time;
}

abbrev pub tag_on : ℕ → ℕ → Text → TagRow
tag_on conversation id name = record { conversation_id = conversation; id = id; name = name }

abbrev pub tables : Tables
tables = record {
  conversations =
      row_at 1 50
      ∷ row_at 2 70
      ∷ row_at 3 70
      ∷ row_at 4 60
      ∷ record (row_at 5 80) { status = closed_status }
      ∷ row_at 6 90
      ∷ [];
  tag_rows =
      tag_on 3 1 (b'v' ∷ b'i' ∷ b'p' ∷ []) ∷ tag_on 2 2 (b'n' ∷ []) ∷ tag_on 3 2 (b'n' ∷ []) ∷ [];
  names = λ m. none;
}

abbrev pub query : ListQuery
query = record {
  page = 1;
  page_size = 2;
  sort = by_updated_at;
  paging = keyset;
  cursor = none;
  status = some open_status;
  updated_from = none;
  updated_to = none;
}

abbrev pub filters : Filters
filters = record { org_id = 7; status = some open_status; updated_from = none; updated_to = none }

abbrev pub row : Row
row = row_at 3 70

pub row-IsPrinted :
    (id time : ℕ)
    → is_uuid (uuid_of id) ≡ true
    → uuid_value (uuid_of id) ≡ some id
    → IsPrinted rt by_updated_at (row_at id time)
row-IsPrinted id time uuid value = record { date = refl; instant = refl; uuid = uuid; id = value }

pub rows-IsPrinted : All (IsPrinted rt by_updated_at) tables.conversations
unfolding is_uuid
rows-IsPrinted = (
  row-IsPrinted 1 50 refl refl,
  (
    row-IsPrinted 2 70 refl refl,
    (
      row-IsPrinted 3 70 refl refl,
      (
        row-IsPrinted 4 60 refl refl,
        (
          record { date = refl; instant = refl; uuid = refl; id = refl },
          (row-IsPrinted 6 90 refl refl, tt),
        ),
      ),
    ),
  ),
)

pub rows-IsDistinct : IsDistinct same_id tables.conversations
rows-IsDistinct = (
  (refl, (refl, (refl, (refl, (refl, tt))))),
  (
    (refl, (refl, (refl, (refl, tt)))),
    ((refl, (refl, (refl, tt))), ((refl, (refl, tt)), ((refl, tt), (tt, tt)))),
  ),
)
