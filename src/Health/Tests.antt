-- ===== src/Health/Tests.antt =====
-- A drain with one response open, and one that arrives on an open socket.
use drills.Prelude.{◌≡◌, refl, true, List, [], ◌∷◌}
use drills.Health.{
  graceful, serving, closing, State, Event, shutdown, delay_over, request, steps, step, begin_drain,
  close_server,
}
use drills.Health.Laws.{ends_sockets, all_marked, steps-ends_sockets}

abbrev drain : List Event
drain = request 1 ∷ shutdown true ∷ delay_over ∷ request 2 ∷ []

abbrev started : State
started = record { phase = serving; open_responses = [] }

reaches_closing : (steps graceful drain started).phase ≡ closing
unfolding steps step begin_drain close_server
reaches_closing = refl

started_ends : ends_sockets started ≡ true
unfolding all_marked
started_ends = refl

steps-ends_sockets_example : ends_sockets (steps graceful drain started) ≡ true
steps-ends_sockets_example = steps-ends_sockets graceful drain started started_ends
