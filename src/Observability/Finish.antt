-- ===== src/Observability/Finish.antt =====
-- A request from `requestContextMiddleware` to the end of
-- apps/backend/src/observability/logging.interceptor.ts: the query budget and the response headers.
pub mod Reports
use drills.Prelude.{
  ℕ, Bool, true, false, ◌&&◌, ◌||◌, Option, none, some, List, [], ltb, not_b, if◌then◌else◌,
}
use drills.Prelude.Result.{Result}
use drills.Prelude.Text.{Text}
use drills.Observability.Counters.{
  QueryCounterMode, off, on, header, counting, RequestContext, new_context, Process,
}
use drills.Observability.Connections.{Pg, Action, act_all}

-- DEFAULT_QUERY_BUDGET
abbrev pub default_query_budget : ℕ
default_query_budget = 5

unfoldable pub budget_of : Option ℕ → ℕ
budget_of none = default_query_budget
budget_of (some declared) = declared

-- The log line `query_budget_exceeded`.
pub record Warning : Type 0 where
  pub queries : ℕ
  pub budget : ℕ
  pub retries : Option ℕ

-- The log line `handler`.
pub record HandlerLine : Type 0 where
  pub status : ℕ
  pub counts : Option (ℕ × ℕ)
  pub retries : Option ℕ

-- What `finish` logs, and the headers that it sets.
pub record Report : Type 0 where
  pub warned : Option Warning
  pub query_count : Option ℕ
  pub pool_wait : Option ℕ
  pub pool_hold : Option ℕ
  pub txn_retries : Option ℕ
  pub handler_line : Option HandlerLine

abbrev pub when {ℓ} : {A : Type ℓ} → Bool → A → Option A
when true a = some a
when false a = none

-- A number that is left out if it is 0.
abbrev pub or_omitted : ℕ → Option ℕ
or_omitted n = when (ltb 0 n) n

abbrev is_header : QueryCounterMode → Bool
is_header off = false
is_header on = false
is_header header = true

-- How the handler ends. What is thrown has a status, if it is an `HttpException`.
pub data Ending : Type 0 where
  returned : ℕ → Ending
  threw : Option ℕ → Ending

unfoldable pub status_of : Ending → ℕ
status_of (returned status) = status
status_of (threw (some status)) = status
status_of (threw none) = 500

abbrev pub or_zeros : Option RequestContext → RequestContext
or_zeros none = new_context []
or_zeros (some c) = c

unfoldable pub finish : QueryCounterMode → Bool → ℕ → ℕ → Option RequestContext → Report
unfolding counting new_context
finish mode debug budget status store =
    let c = or_zeros store in
    record {
      warned =
          when (counting mode && ltb budget c.queries)
            (record { queries = c.queries; budget = budget; retries = or_omitted c.retries });
      query_count = when (is_header mode) c.queries;
      pool_wait = when (is_header mode) c.pool_wait;
      pool_hold = when (is_header mode) c.pool_hold;
      txn_retries = or_omitted c.retries;
      handler_line = when debug (record {
        status = status;
        counts = when (counting mode) (c.queries, c.round_trips);
        retries = or_omitted c.retries;
      });
    }

abbrev pub silent : Report
silent = record {
  warned = none;
  query_count = none;
  pool_wait = none;
  pool_hold = none;
  txn_retries = none;
  handler_line = none;
}

-- `intercept`, on what the handler has left in the store.
unfoldable pub intercept :
    QueryCounterMode → Bool → Bool → Option ℕ → Ending → Option RequestContext → Report
unfolding finish budget_of status_of
intercept mode http debug declared ending store =
    if not_b http || (not_b debug && not_b (counting mode))
    then silent
    else finish mode debug (budget_of declared) (status_of ending) store

-- A request: the middleware's context, the handler, the interceptor.
unfoldable pub handle :
    {Db P E R : Type 0}
    → (Text → P → Db → Result E R × Db)
    → QueryCounterMode
    → Bool
    → Bool
    → Option ℕ
    → Text
    → List (Action P E R)
    → Ending
    → Pg Db
    → Report × Pg Db
unfolding act_all intercept new_context
handle exec mode tracing debug declared id actions ending pg =
    let process = record pg.process { store = some (new_context id) } in
    let pg' = act_all exec mode tracing actions (record pg { process = process }) in
    (intercept mode true debug declared ending pg'.process.store, pg')
