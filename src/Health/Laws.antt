-- ===== src/Health/Laws.antt =====
-- What readiness answers, and what a drain does to phases and sockets.
use drills.Prelude.{
  ℕ, ◌≤◌, ◌≡◌, refl, ◌↔◌, Bool, true, false, ◌&&◌, ◌||◌, List, [], ◌∷◌, arith, not_b,
}
use drills.Health.{
  ShutdownMode, ReadinessMode, local, deps, Phase, serving, draining, closing, closed, is_up, Probe,
  measure, ok_status, deps_report, ready_serving, ready, is_serving, Response, State, Event,
  shutdown, delay_over, server_closed, request, sends_headers, closes, mark, send, remove,
  begin_drain, close_server, finish_drain, step, steps, is_closing,
}

abbrev pub counts_deps : ReadinessMode → Bool
counts_deps local = false
counts_deps deps = true

-- Readiness is ok exactly if no drain has begun and, on the mode that asks the dependencies, both
-- probes came up in time.
ready-ok_status_iff :
    (mode : ReadinessMode) (postgres redis : Probe) (phase : Phase)
    → ((ready mode postgres redis phase).status ≡ ok_status) ↔ (
        (is_serving phase
          && (not_b (counts_deps mode) || is_up (measure postgres) && is_up (measure redis)))
        ≡ true)
unfolding ready ready_serving deps_report
ready-ok_status_iff local postgres redis phase = ground arith
ready-ok_status_iff deps postgres redis phase = ground arith

unfoldable pub rank : Phase → ℕ
rank serving = 0
rank draining = 1
rank closing = 2
rank closed = 3

step-rank :
    (mode : ShutdownMode) (event : Event) (s : State)
    → rank s.phase ≤ rank (step mode event s).phase
unfolding step begin_drain close_server finish_drain rank
step-rank mode event s = ground arith

-- The phase never goes back, whatever happens in whatever order, so that readiness that began to
-- drain never turns ok again.
steps-rank :
    (mode : ShutdownMode) (events : List Event) (s : State)
    → rank s.phase ≤ rank (steps mode events s).phase
unfolding steps
steps-rank mode [] s = omega arith
steps-rank mode (event ∷ events) s =
    omega (arith, step-rank mode event s, steps-rank mode events (step mode event s))

-- Has every open response either sent its headers or the order to end its socket?
unfoldable pub all_marked : List Response → Bool
all_marked [] = true
all_marked (r ∷ rs) = (r.headers_sent || r.ends_socket) && all_marked rs

mark-all_marked : (rs : List Response) → all_marked (mark rs) ≡ true
unfolding mark all_marked
mark-all_marked [] = refl
mark-all_marked (r ∷ rs) = ground (arith, mark-all_marked rs)

send-all_marked :
    (id : ℕ) (rs : List Response) → all_marked rs ≡ true → all_marked (send id rs) ≡ true
unfolding send all_marked
send-all_marked id [] h = refl
send-all_marked id (r ∷ rs) h = ground (arith, send-all_marked id rs)

remove-all_marked :
    (id : ℕ) (rs : List Response) → all_marked rs ≡ true → all_marked (remove id rs) ≡ true
unfolding remove all_marked
remove-all_marked id [] h = refl
remove-all_marked id (r ∷ rs) h = ground (arith, remove-all_marked id rs)

-- While the server closes, sockets end with their responses.
abbrev pub ends_sockets : State → Bool
ends_sockets s = not_b (is_closing s.phase) || all_marked s.open_responses

step-ends_sockets :
    (mode : ShutdownMode) (event : Event) (s : State)
    → ends_sockets s ≡ true
    → ends_sockets (step mode event s) ≡ true
unfolding step begin_drain close_server finish_drain all_marked
step-ends_sockets mode (shutdown signal) s h = ground (arith, h)
step-ends_sockets mode delay_over s h = ground (arith, h, mark-all_marked s.open_responses)
step-ends_sockets mode server_closed s h = ground (arith, h)
step-ends_sockets mode (request id) s h = ground (arith, h)
step-ends_sockets mode (sends_headers id) s h =
    ground (arith, h, send-all_marked id s.open_responses)
step-ends_sockets mode (closes id) s h = ground (arith, h, remove-all_marked id s.open_responses)

-- From a state where it holds, such as any that is not closing, and whatever happens in whatever
-- order: while the server closes every
-- open response has sent its headers before or carries the header that ends its socket.
pub steps-ends_sockets :
    (mode : ShutdownMode) (events : List Event) (s : State)
    → ends_sockets s ≡ true
    → ends_sockets (steps mode events s) ≡ true
unfolding steps
steps-ends_sockets mode [] s h = h
steps-ends_sockets mode (event ∷ events) s h =
    steps-ends_sockets mode events (step mode event s) (step-ends_sockets mode event s h)
