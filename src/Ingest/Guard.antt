-- ===== src/Ingest/Guard.antt =====
-- `ingest`, cut where another delivery can come in between: the SET NX, the GET, the
-- transaction, and what is written back to Redis; and any number of deliveries that take
-- these steps in any order.
use drills.Prelude.{
  ℕ, Bool, true, false, ◌&&◌, Option, none, some, List, [], ◌∷◌, ◌==◌, if◌then◌else◌,
}
use drills.Prelude.Result.{Result, ok, err}
use drills.Prelude.Text.{Text, text_eq}
use drills.Tenancy.{Controls, thrown}
use drills.Ingest.Store.{Event, Db, IngestError, redis_error}
use drills.Ingest.Write.{
  Config, uses_redis, uses_constraint, Stale, IngestResult, duplicate, pending_result, write_event,
}

-- What a guard holds: 'pending', or a conversation's id.
pub data Held : Type 0 where
  pending_id : Held
  held_id : ℕ → Held

-- The guards, by organisation and event id, the two parts of `guardKey`.
abbrev pub Guards : Type 0
Guards = ℕ → Text → Option Held

abbrev pub put : ℕ → Text → Option Held → Guards → Guards
put org key held guards org' key' =
    if org' == org && text_eq key' key then held else guards org' key'

-- A Redis command: answered, or failed with or without its effect.
pub data Command : Type 0 where
  answered : Command
  failed : Bool → Command

-- Where a delivery is: not begun, about to GET, about to write, about to write back, or done.
pub data Phase : Type 0 where
  idle reading : Phase
  writing : Bool → Phase
  settling : Bool → Result IngestError IngestResult → Phase
  done : Result IngestError IngestResult → Phase

abbrev pub duplicate_result : Config → ℕ → IngestResult
duplicate_result cfg id = record {
  conversation_id = some id;
  duplicate = true;
  outcome = duplicate;
  mode = cfg.idempotency;
  quota = cfg.quota;
  quota_used = none;
  retries = 0;
}

-- SET key pending NX
unfoldable pub set_guard : Command → ℕ → Text → Guards → Option Held → Phase × Guards
set_guard answered org key guards none = (writing true, put org key (some pending_id) guards)
set_guard answered org key guards (some held) = (reading, guards)
set_guard (failed true) org key guards none =
    (done (err (thrown redis_error)), put org key (some pending_id) guards)
set_guard (failed true) org key guards (some held) = (done (err (thrown redis_error)), guards)
set_guard (failed false) org key guards held = (done (err (thrown redis_error)), guards)

unfoldable pub start : Config → Command → ℕ → Text → Guards → Phase × Guards
unfolding set_guard
start cfg command org key guards =
    if uses_redis cfg.idempotency
    then set_guard command org key guards (guards org key)
    else (writing false, guards)

unfoldable pub unheld : Config → Phase
unheld cfg =
    if uses_constraint cfg.idempotency then writing false else done (ok (pending_result cfg))

unfoldable pub get_guard : Config → Command → Option Held → Phase
unfolding unheld
get_guard cfg (failed applied) held = done (err (thrown redis_error))
get_guard cfg answered none = unheld cfg
get_guard cfg answered (some pending_id) = unheld cfg
get_guard cfg answered (some (held_id id)) = done (ok (duplicate_result cfg id))

-- The GET of a delivery that does not own the guard.
unfoldable pub read : Config → Command → ℕ → Text → Guards → Phase
unfolding get_guard
read cfg command org key guards = get_guard cfg command (guards org key)

-- What the owner sets after a result: its id, if it has one; or no guard, after an error.
unfoldable pub written_back : ℕ → Text → Result IngestError IngestResult → Guards → Guards
written_back org key (err e) guards = put org key none guards
written_back org key (ok result) guards = elim result.conversation_id [
  | none ↦ guards
  | some id ↦ put org key (some (held_id id)) guards
]

-- The write-back or the release. Its failure is swallowed.
unfoldable pub settle :
    Command → Bool → ℕ → Text → Result IngestError IngestResult → Guards → Guards
unfolding written_back
settle command false org key result guards = guards
settle answered true org key result guards = written_back org key result guards
settle (failed true) true org key result guards = written_back org key result guards
settle (failed false) true org key result guards = guards

-- Delivery `n` takes its next step, or a guard expires. A process that dies takes no more steps.
pub data Move : Type 0 where
  starts reads settles : ℕ → Command → Move
  writes : ℕ → (ℕ → Controls) → (ℕ → Stale) → ℕ → ℕ → Move
  expires : ℕ → Text → Move

pub record Delivery : Type 0 where
  pub org_id : ℕ
  pub event : Event

pub record State : Type 0 where
  pub db : Db
  pub guards : Guards
  pub phases : ℕ → Phase

unfoldable pub enter : ℕ → Phase → (ℕ → Phase) → ℕ → Phase
enter n phase phases m = if m == n then phase else phases m

module _ (cfg : Config) (deliveries : ℕ → Delivery) where
  unfoldable pub starting : ℕ → Command → State → Phase → State
  starting n command s idle =
      let d = deliveries n in
      let (phase, guards) = start cfg command d.org_id d.event.event_id s.guards in
      record s { guards = guards; phases = enter n phase s.phases }
  starting n command s phase = s

  unfoldable pub getting : ℕ → Command → State → Phase → State
  getting n command s reading =
      let d = deliveries n in
      record s { phases = enter n (read cfg command d.org_id d.event.event_id s.guards) s.phases }
  getting n command s phase = s

  unfoldable pub committing : ℕ → (ℕ → Controls) → (ℕ → Stale) → ℕ → ℕ → State → Phase → State
  committing n controls stale now period s (writing owns) =
      let d = deliveries n in
      let (result, db) = write_event cfg controls stale d.org_id d.event now period s.db in
      record s { db = db; phases = enter n (settling owns result) s.phases }
  committing n controls stale now period s phase = s

  unfoldable pub ending : ℕ → Command → State → Phase → State
  ending n command s (settling owns result) =
      let d = deliveries n in
      record s {
        guards = settle command owns d.org_id d.event.event_id result s.guards;
        phases = enter n (done result) s.phases;
      }
  ending n command s phase = s

  unfoldable pub step : Move → State → State
  unfolding starting getting committing ending
  step (starts n command) s = starting n command s (s.phases n)
  step (reads n command) s = getting n command s (s.phases n)
  step (writes n controls stale now period) s =
      committing n controls stale now period s (s.phases n)
  step (settles n command) s = ending n command s (s.phases n)
  step (expires org key) s = record s { guards = put org key none s.guards }

  unfoldable pub steps : List Move → State → State
  unfolding step
  steps [] s = s
  steps (move ∷ moves) s = steps moves (step move s)
