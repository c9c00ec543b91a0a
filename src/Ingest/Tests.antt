-- ===== src/Ingest/Tests.antt =====
-- Two deliveries of one event, and one of another, in the mode that ships.
use drills.Prelude.{
  ℕ, ◌+◌, ◌≤◌, ◌≡◌, ◌≢◌, refl, false, none, some, List, [], ◌∷◌, arith, ◌==◌, if◌then◌else◌,
}
use drills.Prelude.Result.{ok}
use drills.Prelude.Text.{Text}
use drills.Tenancy.{Controls}
use drills.Ingest.Store.{
  Event, Db, open_status, write, lookup, find_used, set_used, increment_atomic, insert_usage_event,
  insert_message, insert_conversation,
}
use drills.Ingest.Write.{
  Config, both, update, atomic, rmw, Stale, write_event, insert_all, bill, before,
}
use drills.Ingest.Effect.{made}
use drills.Ingest.Guard.{
  answered, Move, starts, reads, settles, writes, Delivery, State, steps, enter, start, read,
  settle,
}
use drills.Ingest.Once.{count}
use drills.Ingest.Guarded.{named, maker}
use drills.Ingest.Race.{begin, named-lookup, created_once}
use drills.Ingest.Counters.{billed, used_of}
use drills.Ingest.Billing.{run-ledger}

abbrev shipped : Config
shipped = record {
  idempotency = both;
  on_conflict = update;
  quota = atomic;
  last_message = write;
  max_retries = 20;
}

abbrev event_of : ℕ → Event
event_of c = record { event_id = b'e' ∷ c ∷ []; message = b'h' ∷ []; status = open_status }

-- Delivery 2 is of another event; all others are of one.
abbrev deliveries : ℕ → Delivery
deliveries n = record { org_id = 7; event = event_of (if n == 2 then b'2' else b'1') }

abbrev empty : Db
empty = record {
  conversations = [];
  messages = [];
  usage_events = [];
  usage_counters = [];
  next_id = 40;
}

abbrev calm : ℕ → Controls
calm n = record { begin = none; set_config = none; commit = none }

abbrev fresh_reads : ℕ → Stale
fresh_reads n = record { event = false; bills = 0 }

abbrev writes_now : ℕ → Move
writes_now n = writes n calm fresh_reads 1000 9

-- Delivery 1 finds the guard of delivery 0, which then writes and settles.
abbrev storm : List Move
storm =
    starts 0 answered
    ∷ starts 1 answered
    ∷ writes_now 0
    ∷ settles 0 answered
    ∷ reads 1 answered
    ∷ []

after : State
after = steps shipped deliveries storm (begin empty)

none_twice : (org : ℕ) (key : Text) → count org key empty.conversations ≤ 1
unfolding count
none_twice org key = omega arith

guard_answers : named (after.phases 1) ≡ some 40
unfolding after steps begin enter start read settle lookup write_event
guard_answers = refl

named-lookup_example :
    (lookup 7 (b'e' ∷ b'1' ∷ []) after.db.conversations ≡ some 40)
    × (count 7 (b'e' ∷ b'1' ∷ []) after.db.conversations ≡ 1)
unfolding after
named-lookup_example = named-lookup shipped deliveries storm empty none_twice 1 40 guard_answers

first_creates : maker (after.phases 0) ≡ some 40
unfolding after steps begin enter start read settle lookup write_event made
first_creates = refl

second_creates_nothing : maker (after.phases 1) ≡ none
unfolding after steps begin enter start read settle lookup write_event made
second_creates_nothing = refl

created_once_example : ◌≡◌ {A = ℕ} 0 0
unfolding after
created_once_example =
    created_once shipped deliveries storm empty none_twice 0 0 40 40 first_creates first_creates
      refl refl

atomic_exact : atomic ≢ rmw
atomic_exact h = ground arith

run-ledger_example :
    used_of 7 9 after.db + billed 7 9 empty.usage_events
    ≡ used_of 7 9 empty + billed 7 9 after.db.usage_events
unfolding after begin
run-ledger_example = run-ledger shipped deliveries atomic_exact storm (begin empty) 7 9

one_billed : used_of 7 9 after.db ≡ 1
unfolding after steps begin enter start write_event lookup increment_atomic used_of find_used
    insert_all insert_usage_event insert_message insert_conversation
one_billed = refl

-- Three others billed after the read.
abbrev behind : Stale
behind = record { event = false; bills = 3 }

abbrev metered : Db
metered = record empty { usage_counters = record { org_id = 7; period = 9; used = 103 } ∷ [] }

abbrev overwritten : Db
overwritten = record empty { usage_counters = record { org_id = 7; period = 9; used = 101 } ∷ [] }

metered_used : find_used 7 9 metered.usage_counters ≡ some 103
unfolding find_used
metered_used = refl

overwrites : bill rmw 7 9 behind metered ≡ ok (101, overwritten)
unfolding bill before set_used find_used
overwrites = refl
