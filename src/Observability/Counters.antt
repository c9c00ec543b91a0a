-- ===== src/Observability/Counters.antt =====
-- The counters of apps/backend/src/observability/request-context.ts: those of a request, and the
-- histograms of the process. Durations are whole microseconds.
pub mod Observed
use drills.Prelude.{
  ℕ, ◌+◌, Bool, true, false, Option, none, some, List, [], ◌∷◌, ◌++◌, map, leb, if◌then◌else◌,
}
use drills.Prelude.Text.{Text}

-- QUERY_COUNTER
pub data QueryCounterMode : Type 0 where
  off on header : QueryCounterMode

-- COUNTING_ENABLED
unfoldable pub counting : QueryCounterMode → Bool
counting off = false
counting on = true
counting header = true

pub record RequestContext : Type 0 where
  pub request_id : Text
  pub queries : ℕ
  pub round_trips : ℕ
  pub retries : ℕ
  pub pool_wait : ℕ
  pub pool_hold : ℕ

-- What `requestContextMiddleware` starts a request with.
unfoldable pub new_context : Text → RequestContext
new_context id = record {
  request_id = id;
  queries = 0;
  round_trips = 0;
  retries = 0;
  pool_wait = 0;
  pool_hold = 0;
}

-- POOL_BUCKETS
abbrev pub pool_buckets : List ℕ
pool_buckets =
    500 ∷ 1000 ∷ 2500 ∷ 5000 ∷ 10000 ∷ 25000 ∷ 50000 ∷ 100000 ∷ 250000 ∷ 500000 ∷ 1000000 ∷ 2500000
    ∷ []

pub record Histogram : Type 0 where
  pub buckets : List ℕ
  pub sum : ℕ
  pub count : ℕ

unfoldable pub new_histogram : Histogram
new_histogram = record { buckets = map (λ _. 0) pool_buckets; sum = 0; count = 0 }

-- The loop of `observe`, over the bounds.
unfoldable pub fill : ℕ → List ℕ → List ℕ → List ℕ
fill t [] ns = []
fill t (le ∷ bounds) [] = []
fill t (le ∷ bounds) (n ∷ ns) = (if leb t le then n + 1 else n) ∷ fill t bounds ns

unfoldable pub observe : ℕ → Histogram → Histogram
unfolding fill
observe t h = record {
  buckets = fill t pool_buckets h.buckets;
  sum = h.sum + t;
  count = h.count + 1;
}

-- The process's metrics, and the request being served, if there is one.
pub record Process : Type 0 where
  pub store : Option RequestContext
  pub wait : Histogram
  pub hold : Histogram
  pub timeouts : ℕ
  pub refusals : ℕ

unfoldable pub in_store : (RequestContext → RequestContext) → Process → Process
in_store f p = elim p.store [ none ↦ p | some c ↦ record p { store = some (f c) } ]

unfoldable pub record_query : QueryCounterMode → Process → Process
unfolding in_store counting
record_query mode p =
    if counting mode
    then in_store (λ c. record c { queries = c.queries + 1; round_trips = c.round_trips + 1 }) p
    else p

unfoldable pub record_round_trip : QueryCounterMode → Process → Process
unfolding in_store counting
record_round_trip mode p =
    if counting mode then in_store (λ c. record c { round_trips = c.round_trips + 1 }) p else p

unfoldable pub record_retry : Process → Process
unfolding in_store
record_retry p = in_store (λ c. record c { retries = c.retries + 1 }) p

unfoldable pub record_pool_wait : QueryCounterMode → ℕ → Process → Process
unfolding in_store counting observe
record_pool_wait mode t p =
    let p' = record p { wait = observe t p.wait } in
    if counting mode then in_store (λ c. record c { pool_wait = c.pool_wait + t }) p' else p'

unfoldable pub record_pool_hold : QueryCounterMode → ℕ → Process → Process
unfolding in_store counting observe
record_pool_hold mode t p =
    let p' = record p { hold = observe t p.hold } in
    if counting mode then in_store (λ c. record c { pool_hold = c.pool_hold + t }) p' else p'

-- Why an acquire failed.
pub data PoolError : Type 0 where
  timeout connect : PoolError

unfoldable pub record_pool_error : PoolError → Process → Process
record_pool_error timeout p = record p { timeouts = p.timeouts + 1 }
record_pool_error connect p = record p { refusals = p.refusals + 1 }

-- A line of `renderHistogram` with its bound; none is +Inf.
pub record Sample : Type 0 where
  pub le : Option ℕ
  pub value : ℕ

unfoldable pub bucket_samples : List ℕ → List ℕ → List Sample
bucket_samples [] ns = []
bucket_samples (le ∷ bounds) [] = []
bucket_samples (le ∷ bounds) (n ∷ ns) =
    record { le = some le; value = n } ∷ bucket_samples bounds ns

unfoldable pub render_histogram : Histogram → List Sample × ℕ × ℕ
unfolding bucket_samples
render_histogram h = (
  bucket_samples pool_buckets h.buckets ++ (record { le = none; value = h.count } ∷ []),
  h.sum,
  h.count,
)
