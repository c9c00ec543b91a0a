-- ===== src/Ingest/Store.antt =====
-- The tables that a delivery touches, and the statements of `ingest.service.ts` on them.
use drills.Prelude.{
  ℕ, suc, Bool, false, ◌&&◌, Option, none, some, List, [], ◌∷◌, ◌==◌, if◌then◌else◌,
}
use drills.Prelude.Text.{Text, text_eq}
use drills.Tenancy.{TxError, database, other}

pub data Status : Type 0 where
  open_status closed_status : Status

-- `IngestEventDto`, as validated.
pub record Event : Type 0 where
  pub event_id : Text
  pub message : Text
  pub status : Status

pub record Conversation : Type 0 where
  pub id : ℕ
  pub org_id : ℕ
  pub status : Status
  pub provider_event_id : Option Text
  pub last_message_at : ℕ

pub record Message : Type 0 where
  pub conversation_id : ℕ
  pub org_id : ℕ
  pub message : Text

-- A row of the ledger and the counter of a period. The endpoint writes the metric 'events'
-- only, and these are its rows.
pub record UsageEvent : Type 0 where
  pub org_id : ℕ
  pub conversation_id : ℕ
  pub period : ℕ

pub record UsageCounter : Type 0 where
  pub org_id : ℕ
  pub period : ℕ
  pub used : ℕ

-- Ids are given in order: a new row never gets an old one.
pub record Db : Type 0 where
  pub conversations : List Conversation
  pub messages : List Message
  pub usage_events : List UsageEvent
  pub usage_counters : List UsageCounter
  pub next_id : ℕ

-- The one thing that is thrown besides database errors: a Redis command that fails.
pub data RedisError : Type 0 where
  redis_error : RedisError

abbrev pub IngestError : Type 0
IngestError = TxError RedisError

-- not_null_violation and unique_violation
abbrev pub null_value : IngestError
null_value = database (other "23502")

abbrev pub duplicate_key : IngestError
duplicate_key = database (other "23505")

abbrev pub key_is : Text → Option Text → Bool
key_is key none = false
key_is key (some k) = text_eq k key

abbrev pub is_event : ℕ → Text → Conversation → Bool
is_event org key c = c.org_id == org && key_is key c.provider_event_id

-- SELECT id FROM conversations WHERE org_id = $1 AND provider_event_id = $2
unfoldable pub lookup : ℕ → Text → List Conversation → Option ℕ
lookup org key [] = none
lookup org key (c ∷ cs) =
    let rest = lookup org key cs in if is_event org key c then some c.id else rest

-- Whether the ingest path fills `last_message_at`.
pub data LastMessageMode : Type 0 where
  write skip : LastMessageMode

unfoldable pub insert_conversation : ℕ → Event → ℕ → Db → Db
insert_conversation org event now db = record db {
  conversations =
      record {
        id = db.next_id;
        org_id = org;
        status = event.status;
        provider_event_id = some event.event_id;
        last_message_at = now;
      }
      ∷ db.conversations;
  next_id = suc db.next_id;
}

unfoldable pub insert_message : ℕ → ℕ → Text → Db → Db
insert_message id org message db = record db {
  messages = record { conversation_id = id; org_id = org; message = message } ∷ db.messages;
}

unfoldable pub insert_usage_event : ℕ → ℕ → ℕ → Db → Db
insert_usage_event org id period db = record db {
  usage_events = record { org_id = org; conversation_id = id; period = period } ∷ db.usage_events;
}

-- SELECT used FROM usage_counters WHERE org_id = $1 AND period = …
unfoldable pub find_used : ℕ → ℕ → List UsageCounter → Option ℕ
find_used org period [] = none
find_used org period (c ∷ cs) =
    let rest = find_used org period cs in
    if c.org_id == org && c.period == period then some c.used else rest

-- UPDATE usage_counters SET used = $3 WHERE org_id = $1 AND period = …
unfoldable pub set_used : ℕ → ℕ → ℕ → List UsageCounter → List UsageCounter
set_used org period used [] = []
set_used org period used (c ∷ cs) =
    let rest = set_used org period used cs in
    if c.org_id == org && c.period == period then record c { used = used } ∷ rest else c ∷ rest

-- INSERT INTO usage_counters … ON CONFLICT DO UPDATE SET used = … + 1, by the row
-- that the primary key finds.
unfoldable pub with_used : ℕ → ℕ → List UsageCounter → Option ℕ → ℕ × List UsageCounter
with_used org period cs none = (1, record { org_id = org; period = period; used = 1 } ∷ cs)
with_used org period cs (some used) = (suc used, set_used org period (suc used) cs)

unfoldable pub increment_atomic : ℕ → ℕ → Db → ℕ × Db
unfolding with_used
increment_atomic org period db =
    let (used, counters) =
      with_used org period db.usage_counters (find_used org period db.usage_counters) in
    (used, record db { usage_counters = counters })
