-- ===== src/Imports/Batch.antt =====
-- One batch: `insertConversations`, `insertMessages` and `writeBatch`.
use Prim.Native.String.{String}
use drills.Prelude.{
  leb, ◌*◌, ℕ, suc, ◌+◌, ◌-◌, Bool, true, false, ◌&&◌, ◌||◌, Option, none, some, List, [], ◌∷◌,
  ◌++◌, length, any, ◌==◌, if◌then◌else◌,
}
use drills.Prelude.Result.{Result, ok, err}
use drills.Prelude.Text.{Text, text_eq, trim}

-- `external_id` is undefined if the file has no such column.
pub record CsvRow : Type 0 where
  pub external_id : Option Text
  pub status : Text
  pub created_at : Text
  pub updated_at : Text
  pub message : Text

pub record Conversation : Type 0 where
  pub id : ℕ
  pub org_id : ℕ
  pub status : Text
  pub provider_event_id : Option Text
  pub created_at : Text
  pub updated_at : Text
  pub last_message_at : Text

pub record Message : Type 0 where
  pub conversation_id : ℕ
  pub org_id : ℕ
  pub message : Text

pub data ImportStatus : Type 0 where
  pending running succeeded failed : ImportStatus

-- An error is what is thrown: the program's own, a SQLSTATE, or the parser's.
pub data ImportError : Type 0 where
  empty_external_id interrupted csv_error not_found : ImportError
  database : String → ImportError

-- The columns of `import_jobs` that a run reads or writes. `error` holds the row number and the
-- error that the message is made of.
pub record Job : Type 0 where
  pub status : ImportStatus
  pub rows_read : ℕ
  pub rows_written : ℕ
  pub rows_skipped : ℕ
  pub resume_row : ℕ
  pub error : Option (ℕ × ImportError)

pub record Counters : Type 0 where
  pub read : ℕ
  pub written : ℕ
  pub skipped : ℕ
  pub committed : ℕ

-- Ids are given in order: a new row never gets an old one.
pub record Db : Type 0 where
  pub conversations : List Conversation
  pub messages : List Message
  pub next_id : ℕ
  pub job : Job

-- What Postgres makes of the values: a SQLSTATE for a row that the insert refuses (a status outside
-- the CHECK, a time that does not parse), and for a message that it refuses.
pub record Checks : Type 0 where
  pub row : CsvRow → Option String
  pub message : Text → Option String

-- What befalls one transaction from outside: the service is stopping when it begins, or BEGIN, the
-- progress update or COMMIT is answered by an error.
pub record Faults : Type 0 where
  pub stopping : Bool
  pub begin : Option String
  pub progress : Option String
  pub commit : Option String

abbrev pub or_empty : Option Text → Text
or_empty none = []
or_empty (some s) = s

-- 'import:'
abbrev pub key_prefix : Text
key_prefix = b'i' ∷ b'm' ∷ b'p' ∷ b'o' ∷ b'r' ∷ b't' ∷ b':' ∷ []

unfoldable pub key_of : CsvRow → Text
key_of row = key_prefix ++ trim (or_empty row.external_id)

abbrev pub is_empty : Text → Bool
is_empty [] = true
is_empty (c ∷ s) = false

abbrev pub key_is : Text → Option Text → Bool
key_is key none = false
key_is key (some k) = text_eq k key

-- Does the organisation have a conversation with this key?
unfoldable pub has : ℕ → Text → List Conversation → Bool
has org key [] = false
has org key (c ∷ cs) = c.org_id == org && key_is key c.provider_event_id || has org key cs

abbrev new_conversation : ℕ → ℕ → CsvRow → Conversation
new_conversation org id row = record {
  id = id;
  org_id = org;
  status = row.status;
  provider_event_id = some (key_of row);
  created_at = row.created_at;
  updated_at = row.updated_at;
  last_message_at = row.updated_at;
}

-- One row of INSERT … ON CONFLICT DO NOTHING RETURNING id, provider_event_id.
unfoldable pub insert_row : ℕ → CsvRow → Db → List (Text × ℕ) × Db
insert_row org row db = if has org (key_of row) db.conversations then ([], db) else (
  (key_of row, db.next_id) ∷ [],
  record db {
    conversations = new_conversation org db.next_id row ∷ db.conversations;
    next_id = suc db.next_id;
  },
)

unfoldable pub insert_rows : ℕ → List CsvRow → Db → List (Text × ℕ) × Db
insert_rows org [] db = ([], db)
insert_rows org (row ∷ rows) db =
    let (landed, db') = insert_row org row db in
    let (more, db'') = insert_rows org rows db' in (landed ++ more, db'')

-- The first error that a list meets.
unfoldable pub first_error {ℓ} : {A : Type ℓ} → (A → Option String) → List A → Option String
first_error check [] = none
first_error check (x ∷ xs) = elim (check x) [ some code ↦ some code | none ↦ first_error check xs ]

-- The rows that one INSERT can bind: four parameters for each and one for all, of 65535 at most.
-- The messages bind two for each.
abbrev pub fits_bind : List CsvRow → Bool
fits_bind rows = leb (length rows * 4 + 1) 65535

-- Past the ceiling Postgres answers a protocol violation.
unfoldable pub insert_conversations :
    Checks → ℕ → List CsvRow → Db → Result ImportError (List (Text × ℕ) × Db)
insert_conversations checks org rows db =
    if any (λ row. is_empty (trim (or_empty row.external_id))) rows
    then err empty_external_id
    else if fits_bind rows
    then (elim (first_error checks.row rows) [
      | some code ↦ err (database code)
      | none ↦ ok (insert_rows org rows db)
    ])
    else err (database "08P01")

-- `inserted.get(key)`
unfoldable pub get : Text → List (Text × ℕ) → Option ℕ
get key [] = none
get key ((k, id) ∷ m) = if text_eq k key then some id else get key m

abbrev message_of : ℕ → CsvRow → Option ℕ → List Message
message_of org row none = []
message_of org row (some id) =
    record { conversation_id = id; org_id = org; message = row.message } ∷ []

-- The values of the second insert: one for each row whose key is in the map.
unfoldable pub message_values : ℕ → List CsvRow → List (Text × ℕ) → List Message
message_values org [] inserted = []
message_values org (row ∷ rows) inserted =
    message_of org row (get (key_of row) inserted) ++ message_values org rows inserted

unfoldable pub insert_messages :
    Checks → ℕ → List CsvRow → List (Text × ℕ) → Db → Result ImportError Db
insert_messages checks org rows inserted db =
    let values = message_values org rows inserted in
    elim (first_error (λ (m : Message). checks.message m.message) values) [
      | some code ↦ err (database code)
      | none ↦ ok (record db { messages = values ++ db.messages })
    ]

-- The UPDATE that reports progress.
abbrev pub progress : Counters → Db → Db
progress c db = record db {
  job = record db.job {
    rows_read = c.read;
    rows_written = c.written;
    rows_skipped = c.skipped;
    resume_row = c.committed;
  };
}

abbrev pub count_batch : List CsvRow → List (Text × ℕ) → Counters → Counters
count_batch rows inserted c = record c {
  written = c.written + length inserted;
  skipped = c.skipped + (length rows - length inserted);
  committed = c.committed + length rows;
}

abbrev pub Outcome : Type 0
Outcome = Result ImportError (Unit {0}) × Counters × Db

-- COMMIT, or the rollback to `before` with the counters as they are.
unfoldable pub end_batch : Faults → Counters → Db → Db → Outcome
end_batch faults c before after = elim faults.progress [
  | some code ↦ (err (database code), c, before)
  | none ↦ elim faults.commit [
    | some code ↦ (err (database code), c, before)
    | none ↦ (ok tt, c, progress c after)
  ]
]

-- The transaction's body. The counters are the process's: a rollback does not restore them.
with_inserted :
    Faults
    → Checks
    → ℕ
    → List CsvRow
    → Counters
    → Db
    → Result ImportError (List (Text × ℕ) × Db)
    → Outcome
unfolding end_batch
with_inserted faults checks org rows c db (err e) = (err e, c, db)
with_inserted faults checks org rows c db (ok (inserted, db')) =
    elim (insert_messages checks org rows inserted db') [
      | err e ↦ (err e, count_batch rows inserted c, db)
      | ok db'' ↦ end_batch faults (count_batch rows inserted c) db db''
    ]

unfoldable pub write_batch : Faults → Checks → ℕ → List CsvRow → Counters → Db → Outcome
unfolding with_inserted
write_batch faults checks org rows c db =
    if faults.stopping then (err interrupted, c, db) else elim faults.begin [
      | some code ↦ (err (database code), c, db)
      | none ↦ with_inserted faults checks org rows c db (insert_conversations checks org rows db)
    ]
