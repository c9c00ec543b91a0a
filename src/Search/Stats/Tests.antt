-- ===== src/Search/Stats/Tests.antt =====
-- Two requests that find no value, in the mode `wait`.
use drills.Prelude.{◌-◌, ℕ, ◌≡◌, refl, false, none, some, List, [], ◌∷◌, All, arith}
use drills.Search.Messages.{MessageStats}
use drills.Search.Stats.{idle, Event, World, run}
use drills.Search.StatsCache.{naive, wait_mode, answered}
use drills.Search.Stats.Flight.{lease, IsTimed, single_flight}
use drills.Search.Stats.Spacing.{IsSpaced, stored-IsSpaced}
use drills.Search.Stats.Honest.{IsTrue, IsQuick, outcomes-IsTrue}

abbrev stats_at : ℕ → MessageStats
stats_at now = record {
  messages = now;
  negative = 0;
  positive = 0;
  recent = 0;
  avg_length = (0, 1);
  last_message_at = none;
}

abbrev event : ℕ → ℕ → Event
event p now = record {
  request = p;
  now = now;
  reply = answered;
  bypass = false;
  read_at = now - 50;
  fails = false;
  ttl_ms = 24000;
}

abbrev empty_world : World
empty_world = record {
  phases = λ p. idle;
  redis = record { entry = none; lock = none; stored = [] };
  outcomes = [];
}

-- Both read and claim; request 1 wins.
abbrev claims : List Event
claims = event 1 100 ∷ event 2 100 ∷ event 1 101 ∷ event 2 102 ∷ []

-- Request 1 reads again, computes, writes and lets go; request 2 finds its value.
abbrev answers : List Event
answers = event 1 103 ∷ event 1 900 ∷ event 1 901 ∷ event 2 902 ∷ event 1 903 ∷ []

abbrev both : List Event
both = event 1 100 ∷ event 2 100 ∷ event 1 101 ∷ event 2 102 ∷ answers

owner_one : lease ((run wait_mode stats_at claims empty_world).phases 1) ≡ some 101
unfolding run
owner_one = refl

waits_two : lease ((run wait_mode stats_at claims empty_world).phases 2) ≡ none
unfolding run
waits_two = refl

one_recompute :
    (run wait_mode stats_at both empty_world).redis.stored
    ≡ record { stats = stats_at 850; computed_at = 900; fresh_until = 24900 } ∷ []
unfolding run
one_recompute = refl

-- The stampede of the mode `naive`.
two_recomputes :
    (run naive stats_at
      (event 1 100 ∷ event 2 100 ∷ event 1 900 ∷ event 2 901 ∷ event 1 902 ∷ event 2 903 ∷ [])
      empty_world).redis.stored
    ≡ record { stats = stats_at 851; computed_at = 901; fresh_until = 24901 }
      ∷ record { stats = stats_at 850; computed_at = 900; fresh_until = 24900 }
      ∷ []
unfolding run
two_recomputes = refl

both-IsTimed : IsTimed 100 both
both-IsTimed = (
  omega arith,
  (
    omega arith,
    (
      omega arith,
      (omega arith, (omega arith, (omega arith, (omega arith, (omega arith, (omega arith, tt)))))),
    ),
  ),
)

single_flight_example : ◌≡◌ {A = ℕ} 1 1
unfolding run
single_flight_example =
    single_flight wait_mode stats_at claims 100 empty_world (λ p. refl)
      (omega arith, (omega arith, (omega arith, (omega arith, tt)))) 1 1 101 101 owner_one owner_one
      (omega arith) (omega arith)

stored-IsSpaced_example : IsSpaced (run wait_mode stats_at both empty_world).redis.stored
unfolding run
stored-IsSpaced_example =
    stored-IsSpaced wait_mode stats_at both 100 empty_world refl (λ p. refl) refl refl both-IsTimed
      (refl, (refl, (refl, (refl, (refl, (refl, (refl, (refl, (refl, tt)))))))))

both-IsQuick : All (IsQuick stats_at 30000 60) both
both-IsQuick = (
  (omega arith, omega arith),
  (
    (omega arith, omega arith),
    (
      (omega arith, omega arith),
      (
        (omega arith, omega arith),
        (
          (omega arith, omega arith),
          (
            (omega arith, omega arith),
            (
              (omega arith, omega arith),
              ((omega arith, omega arith), ((omega arith, omega arith), tt)),
            ),
          ),
        ),
      ),
    ),
  ),
)

outcomes-IsTrue_example :
    All (IsTrue stats_at 30000 60) (run wait_mode stats_at both empty_world).outcomes
outcomes-IsTrue_example =
    outcomes-IsTrue stats_at 30000 60 wait_mode both 100 empty_world (omega arith) (λ p. refl) refl
      refl both-IsTimed both-IsQuick
      (
        omega arith,
        (
          omega arith,
          (
            omega arith,
            (
              omega arith,
              (omega arith, (omega arith, (omega arith, (omega arith, (omega arith, tt))))),
            ),
          ),
        ),
      )
