-- ===== src/Ingest/Write.antt =====
-- `write` and what it calls: the three ways to insert, and `bill` on its four arms.
use drills.Prelude.{
  ℕ, suc, ◌-◌, Bool, true, false, ◌&&◌, Option, none, some, leb, if◌then◌else◌, not_b,
}
use drills.Prelude.Result.{Result, ok, err}
use drills.Tenancy.{
  database, serialization_failure, Controls, serializable, ScopeOptions, default_scope, with_org,
}
use drills.Ingest.Store.{
  Event, Db, IngestError, null_value, duplicate_key, lookup, LastMessageMode, write, skip,
  insert_conversation, insert_message, insert_usage_event, find_used, set_used, increment_atomic,
}

pub data IdempotencyMode : Type 0 where
  unguarded constraint redis both : IdempotencyMode

pub data ConflictShape : Type 0 where
  update nothing : ConflictShape

pub data QuotaMode : Type 0 where
  rmw atomic locking serialized : QuotaMode

-- What the service reads from its environment.
pub record Config : Type 0 where
  pub idempotency : IdempotencyMode
  pub on_conflict : ConflictShape
  pub quota : QuotaMode
  pub last_message : LastMessageMode
  pub max_retries : ℕ

abbrev pub uses_redis : IdempotencyMode → Bool
uses_redis unguarded = false
uses_redis constraint = false
uses_redis redis = true
uses_redis both = true

abbrev pub uses_constraint : IdempotencyMode → Bool
uses_constraint unguarded = false
uses_constraint constraint = true
uses_constraint redis = false
uses_constraint both = true

pub record IngestRow : Type 0 where
  pub id : ℕ
  pub created : Bool

-- The rows of a transaction are those at its last statement. This is what its earlier reads missed:
-- whether another delivery of the event committed after the first statement read, and how many
-- deliveries others billed to the organisation's period after the counter was read.
pub record Stale : Type 0 where
  pub event : Bool
  pub bills : ℕ

abbrev pub Written {ℓ} : Type ℓ → Type ℓ
Written A = Result IngestError (A × Db)

-- The rows that a created conversation brings.
unfoldable pub insert_all : ℕ → Event → ℕ → ℕ → Db → Db
insert_all org event now period db =
    insert_usage_event org db.next_id period
      (insert_message db.next_id org event.message (insert_conversation org event now db))

abbrev is_serialized : QuotaMode → Bool
is_serialized rmw = false
is_serialized atomic = false
is_serialized locking = false
is_serialized serialized = true

-- The conflicting row: the statement that returns it, or none and the SELECT after it.
unfoldable pub conflicting : ConflictShape → ℕ → Event → ℕ → Db → Option IngestRow × Db
conflicting update org event id db = (some (record { id = id; created = false }), db)
conflicting nothing org event id db = elim (lookup org event.event_id db.conversations) [
  | none ↦ (none, db)
  | some found ↦ (some (record { id = found; created = false }), db)
]

-- On SERIALIZABLE a conflict with a row that the snapshot does not hold is a 40001.
unfoldable pub upsert : Config → ℕ → Event → ℕ → ℕ → Stale → Db → Written (Option IngestRow)
unfolding conflicting
upsert cfg org event now period stale db = elim cfg.last_message [
  | skip ↦ err null_value
  | write ↦ elim (lookup org event.event_id db.conversations) [
    | none ↦
        ok (some (record { id = db.next_id; created = true }), insert_all org event now period db)
    | some id ↦
        if is_serialized cfg.quota && stale.event
        then err (database serialization_failure)
        else ok (conflicting cfg.on_conflict org event id db)
  ]
]

unfoldable pub plain_insert : Config → ℕ → Event → ℕ → ℕ → Db → Written (Option IngestRow)
plain_insert cfg org event now period db = elim cfg.last_message [
  | skip ↦ err null_value
  | write ↦ elim (lookup org event.event_id db.conversations) [
    | none ↦
        ok (some (record { id = db.next_id; created = true }), insert_all org event now period db)
    | some id ↦ err duplicate_key
  ]
]

-- The SELECT saw the event unless it was committed since.
unfoldable pub check_then_insert :
    Config → ℕ → Event → ℕ → ℕ → Stale → Db → Written (Option IngestRow)
unfolding plain_insert
check_then_insert cfg org event now period stale db =
    elim (if stale.event then none else lookup org event.event_id db.conversations) [
      | some id ↦ ok (some (record { id = id; created = false }), db)
      | none ↦ plain_insert cfg org event now period db
    ]

-- The counter as it was before `n` more deliveries were billed.
unfoldable pub before : ℕ → Option ℕ → Option ℕ
before n none = none
before n (some used) = if leb used n then none else some (used - n)

-- What `bill` writes for the count that it read.
unfoldable pub bill_read : ℕ → ℕ → Db → Option ℕ → ℕ × Db
bill_read org period db none = increment_atomic org period db
bill_read org period db (some used) =
    (suc used, record db { usage_counters = set_used org period (suc used) db.usage_counters })

-- FOR UPDATE reads the row as committed. On SERIALIZABLE a counter that moved since is a 40001.
unfoldable pub bill : QuotaMode → ℕ → ℕ → Stale → Db → Written ℕ
unfolding bill_read
bill atomic org period stale db = ok (increment_atomic org period db)
bill rmw org period stale db =
    ok (bill_read org period db (before stale.bills (find_used org period db.usage_counters)))
bill locking org period stale db =
    ok (bill_read org period db (find_used org period db.usage_counters))
bill serialized org period stale db =
    if leb stale.bills 0
    then ok (bill_read org period db (find_used org period db.usage_counters))
    else err (database serialization_failure)

pub data DeliveryOutcome : Type 0 where
  created duplicate pending : DeliveryOutcome

pub record IngestResult : Type 0 where
  pub conversation_id : Option ℕ
  pub duplicate : Bool
  pub outcome : DeliveryOutcome
  pub mode : IdempotencyMode
  pub quota : QuotaMode
  pub quota_used : Option ℕ
  pub retries : ℕ

abbrev pub pending_result : Config → IngestResult
pending_result cfg = record {
  conversation_id = none;
  duplicate = true;
  outcome = pending;
  mode = cfg.idempotency;
  quota = cfg.quota;
  quota_used = none;
  retries = 0;
}

abbrev pub row_result : Config → ℕ → IngestRow → Option ℕ → IngestResult
row_result cfg retries row used = record {
  conversation_id = some row.id;
  duplicate = not_b row.created;
  outcome = if row.created then created else duplicate;
  mode = cfg.idempotency;
  quota = cfg.quota;
  quota_used = used;
  retries = retries;
}

unfoldable pub write_row : Config → ℕ → Event → ℕ → ℕ → Stale → Db → Written (Option IngestRow)
unfolding upsert plain_insert check_then_insert
write_row cfg org event now period stale db =
    if uses_constraint cfg.idempotency
    then upsert cfg org event now period stale db
    else if uses_redis cfg.idempotency
    then plain_insert cfg org event now period db
    else check_then_insert cfg org event now period stale db

-- The meter, if the row is new.
unfoldable pub bill_row : Config → ℕ → ℕ → Stale → ℕ → IngestRow → Db → Written IngestResult
unfolding bill
bill_row cfg org period stale retries row db =
    if row.created
    then (elim (bill cfg.quota org period stale db) [
      | err e ↦ err e
      | ok (used, db') ↦ ok (row_result cfg retries row (some used), db')
    ])
    else ok (row_result cfg retries row none, db)

-- What is left of the transaction after the first row came.
unfoldable pub after_row :
    Config → ℕ → ℕ → Stale → ℕ → Written (Option IngestRow) → Written IngestResult
unfolding bill_row
after_row cfg org period stale retries (err e) = err e
after_row cfg org period stale retries (ok (none, db)) = ok (pending_result cfg, db)
after_row cfg org period stale retries (ok (some row, db)) =
    bill_row cfg org period stale retries row db

-- The callback at attempt `retries`.
unfoldable pub write_once : Config → ℕ → Event → ℕ → ℕ → Stale → ℕ → Db → Written IngestResult
unfolding write_row after_row
write_once cfg org event now period stale retries db =
    after_row cfg org period stale retries (write_row cfg org event now period stale db)

abbrev pub scope : Config → ScopeOptions
scope cfg =
    if is_serialized cfg.quota
    then record { isolation = some serializable; retries = cfg.max_retries }
    else default_scope

abbrev pub on_rows {ℓ} : {A : Type ℓ} → Db → Written A → Result IngestError A × Db
on_rows db (err e) = (err e, db)
on_rows db (ok (a, db')) = (ok a, db')

-- One transaction: `now` and `period` are its start's, the same at every attempt here.
unfoldable pub write_event :
    Config
    → (ℕ → Controls)
    → (ℕ → Stale)
    → ℕ
    → Event
    → ℕ
    → ℕ
    → Db
    → Result IngestError IngestResult × Db
unfolding write_once with_org
write_event cfg controls stale org event now period db =
    let (result, db', retries) =
      with_org (scope cfg) controls
        (λ n rows. on_rows rows (write_once cfg org event now period (stale n) n rows)) db in
    (result, db')
