-- ===== src/Health.antt =====
-- Readiness and the drain: apps/backend/src/health/health.service.ts.
use Prim.Native.String.{String}
use drills.Prelude.{
  ℕ, Bool, true, false, ◌&&◌, Option, none, some, List, [], ◌∷◌, ltb, ◌==◌, if◌then◌else◌,
}
mod Laws
mod Tests

pub data ShutdownMode : Type 0 where
  exit nest graceful : ShutdownMode

pub data ReadinessMode : Type 0 where
  local deps : ReadinessMode

pub data Phase : Type 0 where
  serving draining closing closed : Phase

pub data CheckResult : Type 0 where
  up : ℕ → CheckResult
  down : String → CheckResult

pub data ReportStatus : Type 0 where
  ok_status error_status draining_status : ReportStatus

pub record HealthReport : Type 0 where
  pub status : ReportStatus
  pub checks : Option (CheckResult × CheckResult)

-- What a probe does, and after how many milliseconds.
pub data Probe : Type 0 where
  resolves : ℕ → Probe
  rejects : ℕ → String → Probe
  hangs : Probe

abbrev pub probe_timeout_ms : ℕ
probe_timeout_ms = 2000

abbrev timed_out : CheckResult
timed_out = down "timed out after 2000ms"

unfoldable pub measure : Probe → CheckResult
measure (resolves ms) = if ltb ms probe_timeout_ms then up ms else timed_out
measure (rejects ms e) = if ltb ms probe_timeout_ms then down e else timed_out
measure hangs = timed_out

abbrev pub is_up : CheckResult → Bool
is_up (up ms) = true
is_up (down e) = false

-- `deps`: the probes of Postgres and Redis.
unfoldable pub deps_report : Probe → Probe → HealthReport
deps_report postgres redis =
    let (p, r) : CheckResult × CheckResult = (measure postgres, measure redis) in
    record { status = if is_up p && is_up r then ok_status else error_status; checks = some (p, r) }

unfoldable pub ready_serving : ReadinessMode → Probe → Probe → HealthReport
unfolding deps_report
ready_serving local postgres redis = record { status = ok_status; checks = none }
ready_serving deps postgres redis = deps_report postgres redis

abbrev pub is_serving : Phase → Bool
is_serving serving = true
is_serving draining = false
is_serving closing = false
is_serving closed = false

unfoldable pub ready : ReadinessMode → Probe → Probe → Phase → HealthReport
unfolding ready_serving
ready mode postgres redis phase =
    if is_serving phase
    then ready_serving mode postgres redis
    else record { status = draining_status; checks = none }

-- A response that is open. `ends_socket` is the header `connection: close`.
pub record Response : Type 0 where
  pub id : ℕ
  pub headers_sent : Bool
  pub ends_socket : Bool

pub record State : Type 0 where
  pub phase : Phase
  pub open_responses : List Response

-- A shutdown begins, the drain's delay is over, the server has closed; a request arrives, a
-- response sends its headers, a response closes.
pub data Event : Type 0 where
  shutdown : Bool → Event
  delay_over server_closed : Event
  request sends_headers closes : ℕ → Event

abbrev pub is_closing : Phase → Bool
is_closing serving = false
is_closing draining = false
is_closing closing = true
is_closing closed = false

unfoldable pub mark : List Response → List Response
mark [] = []
mark (r ∷ rs) =
    let rest = mark rs in
    if r.headers_sent then r ∷ rest else record r { ends_socket = true } ∷ rest

unfoldable pub send : ℕ → List Response → List Response
send id [] = []
send id (r ∷ rs) =
    let rest = send id rs in
    if r.id == id then record r { headers_sent = true } ∷ rest else r ∷ rest

unfoldable pub remove : ℕ → List Response → List Response
remove id [] = []
remove id (r ∷ rs) = let rest = remove id rs in if r.id == id then rest else r ∷ rest

-- The first statements of `beforeApplicationShutdown`, by whether there is a signal. The framework
-- calls the hook once, so a call in a later phase does nothing.
unfoldable pub begin_drain : ShutdownMode → Bool → Phase → Phase
begin_drain exit signal phase = phase
begin_drain nest signal phase = phase
begin_drain graceful false phase = phase
begin_drain graceful true phase = elim phase [
  | serving ↦ draining
  | draining ↦ draining
  | closing ↦ closing
  | closed ↦ closed
]

unfoldable pub close_server : State → State
unfolding mark
close_server s = elim s.phase [
  | draining ↦ record { phase = closing; open_responses = mark s.open_responses }
  | serving ↦ s
  | closing ↦ s
  | closed ↦ s
]

unfoldable pub finish_drain : State → State
finish_drain s = elim s.phase [
  | closing ↦ record s { phase = closed }
  | serving ↦ s
  | draining ↦ s
  | closed ↦ s
]

unfoldable pub step : ShutdownMode → Event → State → State
unfolding begin_drain close_server finish_drain send remove
step mode (shutdown signal) s = record s { phase = begin_drain mode signal s.phase }
step mode delay_over s = close_server s
step mode server_closed s = finish_drain s
step mode (request id) s = record s {
  open_responses =
      record { id = id; headers_sent = false; ends_socket = is_closing s.phase } ∷ s.open_responses;
}
step mode (sends_headers id) s = record s { open_responses = send id s.open_responses }
step mode (closes id) s = record s { open_responses = remove id s.open_responses }

unfoldable pub steps : ShutdownMode → List Event → State → State
unfolding step
steps mode [] s = s
steps mode (event ∷ events) s = steps mode events (step mode event s)
