-- ===== src/Jobs/Once.antt =====
-- The claim in `job_runs`: whoever runs a slot, and however many run it, it is rolled up once.
use drills.Prelude.{
  ℕ, zero, suc, ◌+◌, ◌-◌, ◌*◌, ◌%◌, ◌/◌, ◌<◌, ◌≤◌, ◌≡◌, refl, sym, ap, subst, ◌∙◌, true, false,
  none, List, [], ◌∷◌, ◌==◌, if◌then◌else◌, All, arith, Bool-cases, inl, inr,
}
use native.Mathlib.Nat.{div-add-mod, mod-lt, mul_comm}
use drills.Jobs.{
  fenced, JobRun, Tables, Faults, is_claimed, is_taken, commit_run, ended, run_slot, committed,
  Clock, latest, series, unclaimed, stops, run_due, due_and_run, catchup_slots,
}

-- How many of the runs are of a slot.
unfoldable pub runs_of : ℕ → List JobRun → ℕ
runs_of slot [] = 0
runs_of slot (r ∷ rs) =
    let rest = runs_of slot rs in if r.slot_start == slot then suc rest else rest

unclaimed-runs_of : (slot : ℕ) (rs : List JobRun) → is_claimed slot rs ≡ false → runs_of slot rs ≡ 0
unfolding runs_of
unclaimed-runs_of slot [] h = refl
unclaimed-runs_of slot (r ∷ rs) h = ground (arith, unclaimed-runs_of slot rs)

-- A run by any process, with the term that it had when it began.
pub record Attempt : Type 0 where
  pub faults : Faults
  pub run : JobRun

unfoldable pub run_all : List Attempt → Tables → Tables
run_all [] t = t
run_all (a ∷ attempts) t = run_all attempts (run_slot fenced a.faults a.run t).1

-- Rollups are claimed, and a slot has one claim.
abbrev pub IsFenced : Tables → Type 0
IsFenced t =
    (slot : ℕ) → (runs_of slot t.rollups ≡ runs_of slot t.job_runs) × (runs_of slot t.job_runs ≤ 1)

run_slot-IsFenced :
    (faults : Faults) (run : JobRun) (t : Tables)
    → IsFenced t
    → IsFenced (run_slot fenced faults run t).1
unfolding run_slot committed ended is_taken commit_run runs_of
run_slot-IsFenced faults run t h slot =
    ground (arith, h slot, unclaimed-runs_of run.slot_start t.job_runs)

run_all-IsFenced :
    (attempts : List Attempt) (t : Tables) → IsFenced t → IsFenced (run_all attempts t)
unfolding run_all
run_all-IsFenced [] t h = h
run_all-IsFenced (a ∷ attempts) t h =
    run_all-IsFenced attempts (run_slot fenced a.faults a.run t).1
      (run_slot-IsFenced a.faults a.run t h)

-- If each slot has as many rollups as claims, and one of them at most, then so it does after any
-- runs in `fenced` mode, by any processes with any terms, of any slots and with any failures, a
-- COMMIT whose answer is lost included.
pub rolled_up_once :
    (attempts : List Attempt) (t : Tables)
    → IsFenced t
    → (slot : ℕ)
    → (runs_of slot (run_all attempts t).rollups ≡ runs_of slot (run_all attempts t).job_runs)
      × (runs_of slot (run_all attempts t).job_runs ≤ 1)
rolled_up_once attempts t h slot = run_all-IsFenced attempts t h slot

-- No statement fails.
abbrev pub calm : ℕ → Faults
calm slot = record { before_claim = none; rollback = none; after_claim = none; commit_lost = false }

run_slot-keeps :
    (slot : ℕ) (run : JobRun) (t : Tables)
    → is_claimed slot t.job_runs ≡ true
    → is_claimed slot (run_slot fenced (calm run.slot_start) run t).1.job_runs ≡ true
unfolding run_slot committed ended is_taken commit_run
run_slot-keeps slot run t h = ground arith

run_slot-claims :
    (run : JobRun) (t : Tables)
    → (stops (run_slot fenced (calm run.slot_start) run t).0 ≡ false)
      × (is_claimed run.slot_start (run_slot fenced (calm run.slot_start) run t).1.job_runs ≡ true)
unfolding run_slot committed ended is_taken commit_run
run_slot-claims run t = ground arith

module _ (holder term : ℕ) where
  abbrev run_of : ℕ → JobRun
  run_of slot = record { slot_start = slot; holder = holder; term = term }

  -- Nothing stops the loop.
  run_due-calm :
      (slot : ℕ) (slots : List ℕ) (t : Tables)
      → (run_due calm holder term (slot ∷ slots) t).1
        ≡ (run_due calm holder term slots (run_slot fenced (calm slot) (run_of slot) t).1).1
  unfolding run_due
  run_due-calm slot slots t = rw (run_slot-claims (run_of slot) t).0 refl

  run_due-keeps :
      (slot : ℕ) (slots : List ℕ) (t : Tables)
      → is_claimed slot t.job_runs ≡ true
      → is_claimed slot (run_due calm holder term slots t).1.job_runs ≡ true
  unfolding run_due
  run_due-keeps slot [] t h = h
  run_due-keeps slot (s ∷ slots) t h = rw (run_due-calm s slots t) (
      run_due-keeps slot slots (run_slot fenced (calm s) (run_of s) t).1
        (run_slot-keeps slot (run_of s) t h))

  abbrev Claimed : List ℕ → Tables → Type 0
  Claimed slots t = All (λ s. is_claimed s t.job_runs ≡ true) slots

  unclaimed_there :
      (slot : ℕ) (slots : List ℕ) (rs : List JobRun)
      → is_claimed slot rs ≡ true
      → unclaimed (slot ∷ slots) rs ≡ unclaimed slots rs
  unfolding unclaimed
  unclaimed_there slot slots rs there = rw there refl

  unclaimed_missing :
      (slot : ℕ) (slots : List ℕ) (rs : List JobRun)
      → is_claimed slot rs ≡ false
      → unclaimed (slot ∷ slots) rs ≡ slot ∷ unclaimed slots rs
  unfolding unclaimed
  unclaimed_missing slot slots rs missing = rw missing refl

  run_due-claims :
      (slots : List ℕ) (rs : List JobRun) (t : Tables)
      → ((s : ℕ) → is_claimed s rs ≡ true → is_claimed s t.job_runs ≡ true)
      → Claimed slots (run_due calm holder term (unclaimed slots rs) t).1
  run_due-claims [] rs t h = tt
  run_due-claims (slot ∷ slots) rs t h = elim (Bool-cases (is_claimed slot rs)) [
    | inl there ↦
        subst (λ due. Claimed (slot ∷ slots) (run_due calm holder term due t).1)
          (sym (unclaimed_there slot slots rs there))
          (run_due-keeps slot (unclaimed slots rs) t (h slot there), run_due-claims slots rs t h)
    | inr missing ↦
        let t' = (run_slot fenced (calm slot) (run_of slot) t).1 in
        subst (Claimed (slot ∷ slots))
          (sym (run_due-calm slot (unclaimed slots rs) t)
            ∙ ap (λ due. (run_due calm holder term due t).1)
                (sym (unclaimed_missing slot slots rs missing)))
          (
            run_due-keeps slot (unclaimed slots rs) t' (run_slot-claims (run_of slot) t).1,
            run_due-claims slots rs t'
                (λ s claimed. run_slot-keeps s (run_of slot) t (h s claimed)),
          )
  ]

  -- A leader whose statements do not fail leaves each of the ten newest due slots claimed,
  -- those that were missed before included.
  due_and_run-claims :
      (c : Clock) (now : ℕ) (t : Tables)
      → All
          (λ s. is_claimed s (due_and_run c calm holder term now t).1.job_runs ≡ true)
          (series c.slot_ms catchup_slots (latest c now - (catchup_slots - 1) * c.slot_ms))
  unfolding due_and_run
  due_and_run-claims c now t =
      run_due-claims
        (series c.slot_ms catchup_slots (latest c now - (catchup_slots - 1) * c.slot_ms)) t.job_runs
        t (λ s claimed. claimed)

-- At a time past the first slot and the grace, `latest` is a slot that ended
-- at least the grace ago, and the slot after it did not.
latest-due :
    (c : Clock) (now : ℕ)
    → 1 ≤ c.slot_ms
    → c.slot_ms + c.grace_ms ≤ now
    → (latest c now + c.slot_ms + c.grace_ms ≤ now)
      × (now < latest c now + c.slot_ms + c.slot_ms + c.grace_ms)
unfolding latest
latest-due c now pos late =
    let n = now - c.grace_ms in
    due (n / c.slot_ms) (omega (arith, div-add-mod n c.slot_ms, mul_comm c.slot_ms (n / c.slot_ms)))
  where
    remainder : (now - c.grace_ms) % c.slot_ms < c.slot_ms
    remainder = mod-lt (now - c.grace_ms) pos

    due :
        (q : ℕ)
        → q * c.slot_ms + (now - c.grace_ms) % c.slot_ms ≡ now - c.grace_ms
        → (q * c.slot_ms - c.slot_ms + c.slot_ms + c.grace_ms ≤ now)
          × (now < q * c.slot_ms - c.slot_ms + c.slot_ms + c.slot_ms + c.grace_ms)
    due zero h = ground (arith, remainder)
    due (suc q) h = (omega (arith, h, remainder), omega (arith, h, remainder))
