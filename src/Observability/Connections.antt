-- ===== src/Observability/Connections.antt =====
-- Connections of apps/backend/src/postgres/postgres.service.ts: `acquire`, `query`,
-- `withClient` and `runOn`, over a pool and a server whose answers come from outside.
pub mod Accounts
use Prim.Native.String.{String}
use drills.Prelude.{
  ℕ, ◌+◌, ◌-◌, Bool, true, false, ◌&&◌, Option, none, some, List, [], ◌∷◌, ◌==◌, if◌then◌else◌,
}
use drills.Prelude.Result.{Result, ok, err}
use drills.Prelude.Text.{Text}
use drills.Observability.RequestId.{sql_for}
use drills.Observability.Counters.{
  QueryCounterMode, RequestContext, Process, PoolError, timeout, connect, record_query,
  record_round_trip, record_retry, record_pool_wait, record_pool_hold, record_pool_error,
}

-- Whether a statement counts as a query of its route, as a round trip only, or is the plumbing of a
-- transaction.
pub data Kind : Type 0 where
  counted uncounted control : Kind

pub record Sent : Type 0 where
  pub kind : Kind
  pub sql : Text

-- `lent` are the clients that the pool has handed out and not got back; `sent` what went to
-- Postgres, the latest first.
pub record Pg (Db : Type 0) : Type 0 where
  pub process : Process
  pub lent : ℕ
  pub discarded : ℕ
  pub sent : List Sent
  pub db : Db

-- "timeout exceeded"
abbrev timeout_exceeded : Text
timeout_exceeded =
    b't' ∷ b'i' ∷ b'm' ∷ b'e' ∷ b'o' ∷ b'u' ∷ b't' ∷ b' ' ∷ b'e' ∷ b'x' ∷ b'c' ∷ b'e' ∷ b'e' ∷ b'd'
    ∷ b'e' ∷ b'd' ∷ []

abbrev starts_with : Text → Text → Bool
starts_with [] message = true
starts_with (c ∷ p) [] = false
starts_with (c ∷ p) (d ∷ message) = c == d && starts_with p message

unfoldable pub reason_of : Text → PoolError
reason_of message = if starts_with timeout_exceeded message then timeout else connect

-- What a transaction's callback does with the client that it is lent: it ends, or sends a statement
-- and goes on from the answer. An error that it does not catch ends it.
pub data Program (P E R A : Type 0) : Type 0 where
  done : Result E A → Program P E R A
  query_then : Text → P → (Result E R → Program P E R A) → Program P E R A
  control_then : Text → P → (Result E (Unit {0}) → Program P E R A) → Program P E R A

-- One use of the pool: what `pool.connect` answers - none is a client -, how long that took,
-- and how long the client was held.
pub record Lending (E : Type 0) : Type 0 where
  pub failure : Option (Text × E)
  pub waited : ℕ
  pub held : ℕ

pub data Action (P E R : Type 0) : Type 0 where
  queries : Lending E → Bool → Text → P → Action P E R
  transacts : Lending E → Program P E R R → Action P E R
  restarts : Action P E R

abbrev pub request_id_of : Option RequestContext → Option Text
request_id_of none = none
request_id_of (some c) = some c.request_id

abbrev to_void : {R E : Type 0} → Result E R → Result E (Unit {0})
to_void (ok r) = ok tt
to_void (err e) = err e

abbrev is_error : {R E : Type 0} → Result E R → ℕ
is_error (ok r) = 0
is_error (err e) = 1

module _ {Db P E R : Type 0} (exec : Text → P → Db → Result E R × Db) (mode : QueryCounterMode)
    (tracing : Bool) where
  -- What `pool.connect` answered, once the wait is recorded.
  unfoldable pub on_connect : Option (Text × E) → Pg Db → Result E (Unit {0}) × Pg Db
  unfolding reason_of
  on_connect none pg = (ok tt, record pg { lent = pg.lent + 1 })
  on_connect (some (message, e)) pg =
      (err e, record pg { process = record_pool_error (reason_of message) pg.process })

  unfoldable pub acquire : Lending E → Pg Db → Result E (Unit {0}) × Pg Db
  unfolding on_connect
  acquire lending pg =
      on_connect lending.failure
        (record pg { process = record_pool_wait mode lending.waited pg.process })

  -- With an error the connection is closed in place of going back to the pool.
  unfoldable pub release : ℕ → ℕ → Pg Db → Pg Db
  release held errors pg = record pg {
    process = record_pool_hold mode held pg.process;
    lent = pg.lent - 1;
    discarded = pg.discarded + errors;
  }

  -- `client.query`
  unfoldable pub send : Kind → Text → P → Pg Db → Result E R × Pg Db
  send kind sql params pg =
      let (result, db') = exec sql params pg.db in
      (result, record pg { sent = record { kind = kind; sql = sql } ∷ pg.sent; db = db' })

  unfoldable pub run_on : Bool → Text → P → Pg Db → Result E R × Pg Db
  unfolding send
  run_on true text params pg =
      send counted (sql_for tracing (request_id_of pg.process.store) text) params
        (record pg { process = record_query mode pg.process })
  run_on false text params pg =
      send uncounted (sql_for tracing (request_id_of pg.process.store) text) params
        (record pg { process = record_round_trip mode pg.process })

  -- `control` of the handle: no comment, no log.
  unfoldable pub run_control : Text → P → Pg Db → Result E (Unit {0}) × Pg Db
  unfolding send
  run_control text params pg =
      let (result, pg') =
        send control text params (record pg { process = record_round_trip mode pg.process }) in
      (to_void result, pg')

  -- The body of `query` on what `acquire` gave.
  unfoldable pub query_on : Result E (Unit {0}) → ℕ → Bool → Text → P → Pg Db → Result E R × Pg Db
  unfolding run_on release
  query_on (err e) held counts text params pg = (err e, pg)
  query_on (ok _) held counts text params pg =
      let (result, pg') = run_on counts text params pg in
      (result, release held (is_error result) pg')

  unfoldable pub query : Lending E → Bool → Text → P → Pg Db → Result E R × Pg Db
  unfolding acquire query_on
  query lending counts text params pg =
      let (client, pg') = acquire lending pg in query_on client lending.held counts text params pg'

  unfoldable pub run_program : {A : Type 0} → Program P E R A → Pg Db → Result E A × Pg Db
  unfolding run_on run_control
  run_program (done result) pg = (result, pg)
  run_program (query_then text params next) pg =
      let (answer, pg') = run_on true text params pg in run_program (next answer) pg'
  run_program (control_then text params next) pg =
      let (answer, pg') = run_control text params pg in run_program (next answer) pg'

  -- The body of `withClient` on what `acquire` gave.
  unfoldable pub lend :
      {A : Type 0} → Result E (Unit {0}) → ℕ → Program P E R A → Pg Db → Result E A × Pg Db
  unfolding run_program release
  lend (err e) held fn pg = (err e, pg)
  lend (ok _) held fn pg = let (result, pg') = run_program fn pg in (result, release held 0 pg')

  unfoldable pub with_client :
      {A : Type 0} → Lending E → Program P E R A → Pg Db → Result E A × Pg Db
  unfolding acquire lend
  with_client lending fn pg =
      let (client, pg') = acquire lending pg in lend client lending.held fn pg'

  -- What a handler does with the pool: single statements, transactions, and the restarts that
  -- `withOrg` records.
  unfoldable pub act : Action P E R → Pg Db → Pg Db
  unfolding query with_client record_retry
  act (queries lending counts text params) pg = (query lending counts text params pg).1
  act (transacts lending fn) pg = (with_client lending fn pg).1
  act restarts pg = record pg { process = record_retry pg.process }

  unfoldable pub act_all : List (Action P E R) → Pg Db → Pg Db
  unfolding act
  act_all [] pg = pg
  act_all (a ∷ actions) pg = act_all actions (act a pg)
