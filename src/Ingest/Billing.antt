-- ===== src/Ingest/Billing.antt =====
-- What runs of deliveries leave in the counters.
use drills.Prelude.{ℕ, suc, ◌+◌, ◌-◌, ◌<◌, ◌≡◌, ◌≢◌, refl, some, List, [], ◌∷◌, arith}
use drills.Prelude.Result.{ok}
use drills.Tenancy.{Controls}
use drills.Ingest.Store.{Db, find_used}
use drills.Ingest.Write.{Config, Stale, rmw, bill, bill_read, before}
use drills.Ingest.Ledger.{write_event-Balanced}
use drills.Ingest.Counters.{billed, or_zero, used_of, find_used-set_used}
use drills.Ingest.Guard.{
  Command, Phase, idle, reading, writing, settling, done, Move, starts, reads, settles, writes,
  expires, Delivery, State, starting, getting, committing, ending, step, steps,
}

-- Where the counter's row was there to be read, the read-modify-write arm sets it to one more
-- than it read, so that every delivery that others billed since then is lost from it.
bill-rmw-lost :
    (org period used : ℕ) (stale : Stale) (db : Db) (billing : ℕ × Db)
    → find_used org period db.usage_counters ≡ some used
    → stale.bills < used
    → bill rmw org period stale db ≡ ok billing
    → used_of org period billing.1 + stale.bills ≡ suc used
unfolding bill bill_read before used_of or_zero
bill-rmw-lost org period used stale db billing there below h =
    ground
      (arith, find_used-set_used org period (suc (used - stale.bills)) used db.usage_counters there)

module _ (cfg : Config) (deliveries : ℕ → Delivery) (exact : cfg.quota ≢ rmw) where
  Even : State → State → Type 0
  Even s s' =
      (o p : ℕ)
      → used_of o p s'.db + billed o p s.db.usage_events
        ≡ used_of o p s.db + billed o p s'.db.usage_events

  starting-db :
      (n : ℕ) (command : Command) (s : State) (phase : Phase)
      → (starting cfg deliveries n command s phase).db ≡ s.db
  unfolding starting
  starting-db n command s phase = ground arith

  getting-db :
      (n : ℕ) (command : Command) (s : State) (phase : Phase)
      → (getting cfg deliveries n command s phase).db ≡ s.db
  unfolding getting
  getting-db n command s phase = ground arith

  ending-db :
      (n : ℕ) (command : Command) (s : State) (phase : Phase)
      → (ending cfg deliveries n command s phase).db ≡ s.db
  unfolding ending
  ending-db n command s phase = ground arith

  Even-same : (s s' : State) → s'.db ≡ s.db → Even s s'
  unfolding Even
  Even-same s s' same o p = rw same refl

  committing-Even :
      (n : ℕ) (controls : ℕ → Controls) (stale : ℕ → Stale) (now period : ℕ) (s : State)
      (phase : Phase)
      → Even s (committing cfg deliveries n controls stale now period s phase)
  unfolding committing Even
  committing-Even n controls stale now period s idle o p = refl
  committing-Even n controls stale now period s reading o p = refl
  committing-Even n controls stale now period s (writing owns) o p =
      let d = deliveries n in
      write_event-Balanced cfg controls stale d.org_id d.event now period s.db exact o p
  committing-Even n controls stale now period s (settling owns result) o p = refl
  committing-Even n controls stale now period s (done result) o p = refl

  step-Even : (move : Move) (s : State) → Even s (step cfg deliveries move s)
  unfolding step
  step-Even (starts n command) s = Even-same s _ (starting-db n command s (s.phases n))
  step-Even (reads n command) s = Even-same s _ (getting-db n command s (s.phases n))
  step-Even (writes n controls stale now period) s =
      committing-Even n controls stale now period s (s.phases n)
  step-Even (settles n command) s = Even-same s _ (ending-db n command s (s.phases n))
  step-Even (expires org key) s = Even-same s _ refl

  -- On the arms `atomic`, `locking` and `serializable`, and for deliveries that take their
  -- steps and fail in any order, each organisation's counter of each period grows by the
  -- number of events that the ledger gains there.
  pub run-ledger :
      (moves : List Move) (s : State) (o p : ℕ)
      → let s' = steps cfg deliveries moves s in
        used_of o p s'.db + billed o p s.db.usage_events
        ≡ used_of o p s.db + billed o p s'.db.usage_events
  unfolding steps Even
  run-ledger [] s o p = refl
  run-ledger (move ∷ moves) s o p =
      omega (arith, step-Even move s o p, run-ledger moves (step cfg deliveries move s) o p)
