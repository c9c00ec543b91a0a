-- ===== src/Observability/Connections/Accounts.antt =====
-- What a request leaves in the pool and in the counters, whatever fails.
use drills.Prelude.{
  ℕ, ◌+◌, ◌≡◌, subst, Bool, true, false, Option, none, some, List, [], ◌∷◌, length, if◌then◌else◌,
  arith,
}
use drills.Prelude.Result.{Result, ok, err}
use drills.Prelude.Text.{Text}
use drills.Observability.Counters.{
  QueryCounterMode, counting, RequestContext, in_store, observe, Process, PoolError, timeout,
  connect, record_query, record_round_trip, record_retry, record_pool_wait, record_pool_hold,
  record_pool_error,
}
use drills.Observability.Connections.{
  counted, uncounted, control, Sent, Pg, reason_of, on_connect, Program, done, query_then,
  control_then, Lending, acquire, release, send, run_on, run_control, query_on, query, run_program,
  lend, with_client, Action, queries, transacts, restarts, act, act_all,
}

abbrev pub counted_in : List Sent → ℕ
counted_in [] = 0
counted_in (s ∷ sent) = elim s.kind [
  | counted ↦ counted_in sent + 1
  | uncounted ↦ counted_in sent
  | control ↦ counted_in sent
]

abbrev pub is_inside : Option RequestContext → Bool
is_inside none = false
is_inside (some c) = true

abbrev pub queries_of : Option RequestContext → ℕ
queries_of none = 0
queries_of (some c) = c.queries

abbrev pub round_trips_of : Option RequestContext → ℕ
round_trips_of none = 0
round_trips_of (some c) = c.round_trips

abbrev pub retries_of : Option RequestContext → ℕ
retries_of none = 0
retries_of (some c) = c.retries

abbrev lent_by : {E : Type 0} → Result E (Unit {0}) → ℕ
lent_by (ok _) = 1
lent_by (err e) = 0

abbrev pub restarts_in : {P E R : Type 0} → List (Action P E R) → ℕ
restarts_in [] = 0
restarts_in (queries lending counts text params ∷ actions) = restarts_in actions
restarts_in (transacts lending fn ∷ actions) = restarts_in actions
restarts_in (restarts ∷ actions) = restarts_in actions + 1

-- The books of a request with `lent` clients lent and `retries` restarts recorded: every acquire is
-- a lent client, a hold or an error, and the counters are those of what was sent.
pub record Books {Db : Type 0} (mode : QueryCounterMode) (lent retries : ℕ) (pg : Pg Db)
    : Type 0 where
  pub acquires :
      pg.process.wait.count
      ≡ pg.process.hold.count + pg.process.timeouts + pg.process.refusals + lent
  pub lent_is : pg.lent ≡ lent
  pub inside : is_inside pg.process.store ≡ true
  pub queries_are : queries_of pg.process.store ≡ (if counting mode then counted_in pg.sent else 0)
  pub round_trips_are :
      round_trips_of pg.process.store ≡ (if counting mode then length pg.sent else 0)
  pub restarts_are : retries_of pg.process.store ≡ retries

-- The process after a wait, or a hold, was recorded.
record Recorded (waits holds errors : ℕ) (p p' : Process) : Type 0 where
  wait_is : p'.wait.count ≡ p.wait.count + waits
  hold_is : p'.hold.count ≡ p.hold.count + holds
  errors_are : p'.timeouts + p'.refusals ≡ p.timeouts + p.refusals + errors
  inside_is : is_inside p'.store ≡ is_inside p.store
  queries_is : queries_of p'.store ≡ queries_of p.store
  round_trips_is : round_trips_of p'.store ≡ round_trips_of p.store
  retries_is : retries_of p'.store ≡ retries_of p.store

record_pool_wait-Recorded :
    (mode : QueryCounterMode) (t : ℕ) (p : Process) → Recorded 1 0 0 p (record_pool_wait mode t p)
unfolding record_pool_wait in_store observe
record_pool_wait-Recorded mode t p = ground arith

record_pool_hold-Recorded :
    (mode : QueryCounterMode) (t : ℕ) (p : Process) → Recorded 0 1 0 p (record_pool_hold mode t p)
unfolding record_pool_hold in_store observe
record_pool_hold-Recorded mode t p = ground arith

record_pool_error-Recorded :
    (reason : PoolError) (p : Process) → Recorded 0 0 1 p (record_pool_error reason p)
unfolding record_pool_error
record_pool_error-Recorded timeout p = ground arith
record_pool_error-Recorded connect p = ground arith

module _ {Db P E R : Type 0} (exec : Text → P → Db → Result E R × Db) (mode : QueryCounterMode)
    (tracing : Bool) where
  connected :
      (failure : Option (Text × E)) (lent retries t : ℕ) (pg : Pg Db)
      → Books mode lent retries pg
      → let waited = record pg { process = record_pool_wait mode t pg.process } in
        let (client, pg') = on_connect exec mode tracing failure waited in
        Books mode (lent + lent_by client) retries pg'
  unfolding on_connect
  connected none lent retries t pg b = ground (arith, record_pool_wait-Recorded mode t pg.process)
  connected (some (message, e)) lent retries t pg b =
      let p = record_pool_wait mode t pg.process in
      ground (
        arith,
        record_pool_wait-Recorded mode t pg.process,
        record_pool_error-Recorded (reason_of message) p,
      )

  acquire-Books :
      (lending : Lending E) (lent retries : ℕ) (pg : Pg Db)
      → Books mode lent retries pg
      → let (client, pg') = acquire exec mode tracing lending pg in
        Books mode (lent + lent_by client) retries pg'
  unfolding acquire
  acquire-Books lending lent retries pg b =
      connected lending.failure lent retries lending.waited pg b

  release-Books :
      (held errors lent retries : ℕ) (pg : Pg Db)
      → Books mode (lent + 1) retries pg
      → Books mode lent retries (release exec mode tracing held errors pg)
  unfolding release
  release-Books held errors lent retries pg b =
      ground (arith, record_pool_hold-Recorded mode held pg.process)

  run_on-Books :
      (counts : Bool) (text : Text) (params : P) (lent retries : ℕ) (pg : Pg Db)
      → Books mode lent retries pg
      → Books mode lent retries (run_on exec mode tracing counts text params pg).1
  unfolding run_on send record_query record_round_trip in_store
  run_on-Books true text params lent retries pg b = ground arith
  run_on-Books false text params lent retries pg b = ground arith

  run_control-Books :
      (text : Text) (params : P) (lent retries : ℕ) (pg : Pg Db)
      → Books mode lent retries pg
      → Books mode lent retries (run_control exec mode tracing text params pg).1
  unfolding run_control send record_round_trip in_store
  run_control-Books text params lent retries pg b = ground arith

  run_program-Books :
      {A : Type 0} (fn : Program P E R A) (lent retries : ℕ) (pg : Pg Db)
      → Books mode lent retries pg
      → Books mode lent retries (run_program exec mode tracing fn pg).1
  unfolding run_program
  run_program-Books (done result) lent retries pg b = b
  run_program-Books (query_then text params next) lent retries pg b =
      let (answer, pg') = run_on exec mode tracing true text params pg in
      run_program-Books (next answer) lent retries pg'
        (run_on-Books true text params lent retries pg b)
  run_program-Books (control_then text params next) lent retries pg b =
      let (answer, pg') = run_control exec mode tracing text params pg in
      run_program-Books (next answer) lent retries pg'
        (run_control-Books text params lent retries pg b)

  lend-Books :
      {A : Type 0} (client : Result E (Unit {0})) (held : ℕ) (fn : Program P E R A)
      (lent retries : ℕ) (pg : Pg Db)
      → Books mode (lent + lent_by client) retries pg
      → Books mode lent retries (lend exec mode tracing client held fn pg).1
  unfolding lend
  lend-Books (err e) held fn lent retries pg b = ground arith
  lend-Books (ok u) held fn lent retries pg b =
      release-Books held 0 lent retries _ (run_program-Books fn (lent + 1) retries pg b)

  query_on-Books :
      (client : Result E (Unit {0})) (held : ℕ) (counts : Bool) (text : Text) (params : P)
      (lent retries : ℕ) (pg : Pg Db)
      → Books mode (lent + lent_by client) retries pg
      → Books mode lent retries (query_on exec mode tracing client held counts text params pg).1
  unfolding query_on
  query_on-Books (err e) held counts text params lent retries pg b = ground arith
  query_on-Books (ok u) held counts text params lent retries pg b =
      release-Books held _ lent retries _ (run_on-Books counts text params (lent + 1) retries pg b)

  restart-Books :
      (lent retries : ℕ) (pg : Pg Db)
      → Books mode lent retries pg
      → Books mode lent (retries + 1) (record pg { process = record_retry pg.process })
  unfolding record_retry in_store
  restart-Books lent retries pg b = ground arith

  pub act_all-Books :
      (actions : List (Action P E R)) (lent retries : ℕ) (pg : Pg Db)
      → Books mode lent retries pg
      → Books mode lent (restarts_in actions + retries) (act_all exec mode tracing actions pg)
  unfolding act_all act query with_client
  act_all-Books [] lent retries pg b = ground arith
  act_all-Books (queries lending counts text params ∷ actions) lent retries pg b =
      act_all-Books actions lent retries _ (
        query_on-Books _ lending.held counts text params lent retries _
          (acquire-Books lending lent retries pg b))
  act_all-Books (transacts lending fn ∷ actions) lent retries pg b =
      act_all-Books actions lent retries _
        (lend-Books _ lending.held fn lent retries _ (acquire-Books lending lent retries pg b))
  act_all-Books (restarts ∷ actions) lent retries pg b =
      let pg' = record pg { process = record_retry pg.process } in
      let moved : restarts_in actions + (retries + 1) ≡ restarts_in actions + 1 + retries =
        omega arith in
      subst (λ (n : ℕ). Books mode lent n (act_all exec mode tracing actions pg')) moved
        (act_all-Books actions lent (retries + 1) pg' (restart-Books lent retries pg b))
