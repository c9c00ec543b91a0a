-- ===== src/Jobs/Tests.antt =====
-- Slots of a minute with a grace of five seconds, and two processes.
use drills.Prelude.{false, ℕ, ◌≤◌, ◌≡◌, ◌≢◌, refl, none, some, List, [], ◌∷◌, arith}
use drills.Jobs.{
  Lease, acquire, answered, lead, JobRun, Tables, other_error, Clock, latest, lease, run_slot,
  commit_run, is_taken,
}
use drills.Jobs.Tick.{Process, tick, run_latest, run_as_leader, lead_and_run, run_leading}
use drills.Jobs.Once.{runs_of, Attempt, run_all, rolled_up_once, IsFenced, calm}
use drills.Jobs.Ticks.{Turn, run_ticks, run_ticks-once}
use drills.Jobs.Terms.{Move, leads, expires, steps, step, set_term, leaderless, terms_distinct}

abbrev minute : Clock
minute = record { slot_ms = 60000; grace_ms = 5000 }

abbrev noon : ℕ
noon = 43265000

newest : latest minute noon ≡ 43200000
unfolding latest
newest = refl

abbrev blank : Tables
blank = record { job_runs = []; rollups = [] }

blank-IsFenced : IsFenced blank
unfolding runs_of
blank-IsFenced slot = (refl, omega arith)

abbrev by : ℕ → ℕ → JobRun
by holder term = record { slot_start = 43200000; holder = holder; term = term }

-- A run that fails after its claim, one of an old leader, and one of the new leader.
abbrev contest : List Attempt
contest =
    record {
      faults = record {
        before_claim = none;
        rollback = none;
        after_claim = some other_error;
        commit_lost = false;
      };
      run = by 1 5;
    }
    ∷ record { faults = calm 43200000; run = by 1 5 }
    ∷ record { faults = calm 43200000; run = by 2 6 }
    ∷ []

rolled_up_once_example :
    (runs_of 43200000 (run_all contest blank).rollups
      ≡ runs_of 43200000 (run_all contest blank).job_runs)
    × (runs_of 43200000 (run_all contest blank).job_runs ≤ 1)
rolled_up_once_example = rolled_up_once contest blank blank-IsFenced 43200000

abbrev free : Lease
free = record { holder = none; terms = 5 }

-- The lease of process 1 expires and process 2 takes it; process 1 does not know.
abbrev handover : List Move
handover = leads 1 answered ∷ expires ∷ leads 2 answered ∷ []

first_leads : (steps handover (leaderless free)).terms 1 ≡ 6
unfolding steps step set_term leaderless lead acquire
first_leads = refl

second_leads : (steps handover (leaderless free)).terms 2 ≡ 7
unfolding steps step set_term leaderless lead acquire
second_leads = refl

first_holds : (steps handover (leaderless free)).terms 1 ≢ 0
unfolding steps step set_term leaderless lead acquire
first_holds h = omega (arith, h, first_leads)

terms_distinct_example : ◌≡◌ {A = ℕ} 1 1
terms_distinct_example = terms_distinct handover free 1 1 first_holds refl

abbrev newcomer : Process
newcomer = record { term = 0; last_slot = none }

abbrev turn_at : ℕ → ℕ → Turn
turn_at now term = record {
  now = now;
  reply = answered;
  faults = calm 43200000;
  lease = free;
  term = term;
}

abbrev turns : List Turn
turns = turn_at 43265000 0 ∷ turn_at 43270000 6 ∷ turn_at 43325000 6 ∷ []

two_slots :
    (run_ticks lease minute 1 turns newcomer blank).1.rollups
    ≡ record { slot_start = 43260000; holder = 1; term = 6 } ∷ by 1 6 ∷ []
unfolding run_ticks tick run_leading run_as_leader lead_and_run run_latest lead acquire run_slot
    commit_run is_taken latest
two_slots = refl

run_ticks-once_example :
    runs_of 43200000 (run_ticks lease minute 1 turns newcomer blank).1.rollups ≤ 1
run_ticks-once_example =
    run_ticks-once lease minute 1 43265000 turns newcomer blank refl (omega arith) refl refl
      (omega arith, (omega arith, (omega arith, tt))) (refl, (refl, (refl, tt))) 43200000
