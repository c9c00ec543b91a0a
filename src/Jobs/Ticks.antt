-- ===== src/Jobs/Ticks.antt =====
-- The modes without the fence: what one process remembers.
use native.Mathlib.Nat.{le-div_iff_mul-le, div-mul-le_self, mul-le-mul_right}
use drills.Prelude.{
  ℕ, zero, suc, ◌-◌, ◌/◌, ◌<◌, ◌≤◌, ◌≡◌, ◌⊎◌, refl, sym, subst, Bool, true, false, Option, none,
  some, List, [], ◌∷◌, arith, Bool-cases, Option-cases, inl, inr, All,
}
use drills.Jobs.{
  SchedulerMode, off, all, lease, fenced, JobRun, Tables, Faults, Reply, Lease, lead, is_taken,
  commit_run, ended, committed, run_slot, Clock, latest,
}
use drills.Jobs.Tick.{
  Process, is_last, after_run, run_latest, run_as_leader, lead_and_run, run_leading, tick,
}
use drills.Jobs.Once.{runs_of}

-- The first slot that the process may not have run.
abbrev high : Option ℕ → ℕ
high none = 0
high (some slot) = suc slot

latest-le_later :
    (c : Clock) (now later : ℕ) → 0 < c.slot_ms → now ≤ later → latest c now ≤ latest c later
unfolding latest
latest-le_later c now later pos past =
    let slots = (now - c.grace_ms) / c.slot_ms in
    let more =
      (le-div_iff_mul-le {k = c.slot_ms} {x = slots} {y = later - c.grace_ms} pos).1
        (omega (arith, div-mul-le_self (now - c.grace_ms) c.slot_ms, past)) in
    omega (arith, mul-le-mul_right c.slot_ms more)

-- What the process remembers covers what it ran.
record IsRemembered (slot : ℕ) (p : Process) (t : Tables) : Type 0 where
  pub once : (s : ℕ) → runs_of s t.rollups ≤ 1
  pub covered : (s : ℕ) → high p.last_slot ≤ s → runs_of s t.rollups ≡ 0
  pub past : high p.last_slot ≤ suc slot

abbrev pub is_unfenced : SchedulerMode → Bool
is_unfenced off = false
is_unfenced all = true
is_unfenced lease = true
is_unfenced fenced = false

-- The run is committed and remembered, or neither.
run_slot-rollups :
    (mode : SchedulerMode) (faults : Faults) (run : JobRun) (t : Tables) (slot : ℕ)
    (last : Option ℕ)
    → is_unfenced mode ≡ true
    → faults.commit_lost ≡ false
    → (((run_slot mode faults run t).1.rollups ≡ t.rollups)
        × (after_run (run_slot mode faults run t).0 slot last ≡ last))
      ⊎ (((run_slot mode faults run t).1.rollups ≡ run ∷ t.rollups)
          × (after_run (run_slot mode faults run t).0 slot last ≡ some slot))
unfolding run_slot committed ended is_taken commit_run
run_slot-rollups off faults run t slot last plain told = absurd (ground (arith, plain))
run_slot-rollups all faults run t slot last plain told = ground arith
run_slot-rollups lease faults run t slot last plain told = ground arith
run_slot-rollups fenced faults run t slot last plain told = absurd (ground (arith, plain))

module _ (slot : ℕ) (p : Process) (t : Tables) (h : IsRemembered slot p t) where
  -- The newest slot, if it is not the last one, was not run.
  not_run : is_last p.last_slot slot ≡ false → high p.last_slot ≤ slot
  not_run other = elim (Option-cases p.last_slot) [
    | inl none_yet ↦ ground (arith, none_yet)
    | inr (last, is) ↦ ground (arith, is, other, h.past)
  ]

  commit-IsRemembered :
      (run : JobRun) (term : ℕ) (t' : Tables)
      → run.slot_start ≡ slot
      → high p.last_slot ≤ slot
      → t'.rollups ≡ run ∷ t.rollups
      → IsRemembered slot (record { term = term; last_slot = some slot }) t'
  unfolding runs_of
  commit-IsRemembered run term t' at new rolled = record {
    once = λ s. rw rolled (ground (arith, h.once s, h.covered slot new, at));
    covered = λ s above. rw rolled (ground (arith, h.covered s, above, at, new));
    past = omega arith;
  }

  same-IsRemembered :
      (p' : Process) (t' : Tables)
      → p'.last_slot ≡ p.last_slot
      → t'.rollups ≡ t.rollups
      → IsRemembered slot p' t'
  same-IsRemembered p' t' last rolled = record {
    once = λ s. rw rolled (h.once s);
    covered = λ s above. rw rolled (h.covered s (rw⁻¹ last above));
    past = rw last h.past;
  }

run_latest-IsRemembered :
    (mode : SchedulerMode) (faults : Faults) (holder slot : ℕ) (p : Process) (l : Lease)
    (t : Tables)
    → is_unfenced mode ≡ true
    → faults.commit_lost ≡ false
    → IsRemembered slot p t
    → IsRemembered slot
        (run_latest mode faults holder slot p l t).process
        (run_latest mode faults holder slot p l t).tables
unfolding run_latest
run_latest-IsRemembered mode faults holder slot p l t plain told h =
    let run : JobRun = record { slot_start = slot; holder = holder; term = p.term } in
    elim (Bool-cases (is_last p.last_slot slot)) [
      | inl again ↦ rw again h
      | inr other ↦
          rw other (elim (run_slot-rollups mode faults run t slot p.last_slot plain told) [
            | inl (rolled, last) ↦ same-IsRemembered slot p t h _ _ last rolled
            | inr (rolled, last) ↦
                subst
                  (λ o.
                    IsRemembered slot (record p { last_slot = o }) (run_slot mode faults run t).1)
                  (sym last)
                  (commit-IsRemembered slot p t h run p.term (run_slot mode faults run t).1 refl
                    (not_run slot p t h other) rolled)
          ])
    ]

run_as_leader-IsRemembered :
    (mode : SchedulerMode) (c : Clock) (faults : Faults) (holder now : ℕ) (p : Process) (l : Lease)
    (t : Tables)
    → is_unfenced mode ≡ true
    → faults.commit_lost ≡ false
    → IsRemembered (latest c now) p t
    → IsRemembered
        (latest c now)
        (run_as_leader mode c faults holder now p l t).process
        (run_as_leader mode c faults holder now p l t).tables
unfolding run_as_leader
run_as_leader-IsRemembered off c faults holder now p l t plain told h =
    absurd (ground (arith, plain))
run_as_leader-IsRemembered all c faults holder now p l t plain told h =
    run_latest-IsRemembered all faults holder (latest c now) p l t plain told h
run_as_leader-IsRemembered lease c faults holder now p l t plain told h =
    run_latest-IsRemembered lease faults holder (latest c now) p l t plain told h
run_as_leader-IsRemembered fenced c faults holder now p l t plain told h =
    absurd (ground (arith, plain))

lead_and_run-IsRemembered :
    (c : Clock) (faults : Faults) (holder now : ℕ) (p : Process) (led : (Bool × ℕ) × Lease)
    (t : Tables)
    → faults.commit_lost ≡ false
    → IsRemembered (latest c now) p t
    → IsRemembered
        (latest c now)
        (lead_and_run lease c faults holder now p led t).process
        (lead_and_run lease c faults holder now p led t).tables
unfolding lead_and_run
lead_and_run-IsRemembered c faults holder now p ((true, term), l) t told h =
    run_as_leader-IsRemembered lease c faults holder now (record p { term = term }) l t refl told
      (same-IsRemembered (latest c now) p t h (record p { term = term }) t refl refl)
lead_and_run-IsRemembered c faults holder now p ((false, term), l) t told h =
    same-IsRemembered (latest c now) p t h (record p { term = term }) t refl refl

run_leading-IsRemembered :
    (c : Clock) (reply : Reply) (faults : Faults) (holder now term : ℕ) (p : Process) (l : Lease)
    (t : Tables)
    → faults.commit_lost ≡ false
    → IsRemembered (latest c now) p t
    → IsRemembered
        (latest c now)
        (run_leading lease c reply faults holder now term p l t).process
        (run_leading lease c reply faults holder now term p l t).tables
unfolding run_leading
run_leading-IsRemembered c reply faults holder now (suc term) p l t told h =
    run_as_leader-IsRemembered lease c faults holder now p l t refl told h
run_leading-IsRemembered c reply faults holder now zero p l t told h =
    lead_and_run-IsRemembered c faults holder now p (lead reply holder 0 l) t told h

tick-IsRemembered :
    (mode : SchedulerMode) (c : Clock) (reply : Reply) (faults : Faults) (holder now : ℕ)
    (p : Process) (l : Lease) (t : Tables)
    → is_unfenced mode ≡ true
    → faults.commit_lost ≡ false
    → IsRemembered (latest c now) p t
    → IsRemembered
        (latest c now)
        (tick mode c reply faults holder now p l t).process
        (tick mode c reply faults holder now p l t).tables
unfolding tick
tick-IsRemembered off c reply faults holder now p l t plain told h = h
tick-IsRemembered all c reply faults holder now p l t plain told h =
    run_as_leader-IsRemembered all c faults holder now p l t plain told h
tick-IsRemembered lease c reply faults holder now p l t plain told h =
    run_leading-IsRemembered c reply faults holder now p.term p l t told h
tick-IsRemembered fenced c reply faults holder now p l t plain told h =
    absurd (ground (arith, plain))

-- A tick: its time, the lease and the process's term as they are then, and what fails.
pub record Turn : Type 0 where
  pub now : ℕ
  pub reply : Reply
  pub faults : Faults
  pub lease : Lease
  pub term : ℕ

unfoldable pub run_ticks :
    SchedulerMode → Clock → ℕ → List Turn → Process → Tables → Process × Tables
run_ticks mode c holder [] p t = (p, t)
run_ticks mode c holder (e ∷ es) p t =
    let after = tick mode c e.reply e.faults holder e.now (record p { term = e.term }) e.lease t in
    run_ticks mode c holder es after.process after.tables

abbrev pub IsTimed : ℕ → List Turn → Type 0
IsTimed last [] = Unit
IsTimed last (e ∷ es) = (last ≤ e.now) × IsTimed e.now es

run_ticks-IsRemembered :
    (mode : SchedulerMode) (c : Clock) (holder now : ℕ) (es : List Turn) (p : Process) (t : Tables)
    → is_unfenced mode ≡ true
    → 0 < c.slot_ms
    → IsTimed now es
    → All (λ e. e.faults.commit_lost ≡ false) es
    → IsRemembered (latest c now) p t
    → (slot : ℕ) → runs_of slot (run_ticks mode c holder es p t).1.rollups ≤ 1
unfolding run_ticks
run_ticks-IsRemembered mode c holder now [] p t plain pos timed told h slot = h.once slot
run_ticks-IsRemembered mode c holder now (e ∷ es) p t plain pos (later, timed) (here, told) h slot =
    let after = tick mode c e.reply e.faults holder e.now (record p { term = e.term }) e.lease t in
    run_ticks-IsRemembered mode c holder e.now es after.process after.tables plain pos timed told
      (tick-IsRemembered mode c e.reply e.faults holder e.now (record p { term = e.term }) e.lease t
        plain here
        (record {
          once = h.once;
          covered = h.covered;
          past = omega (arith, h.past, latest-le_later c now e.now pos later);
        }))
      slot

-- In the modes `all` and `lease`, a process that has run nothing yet commits the rollup of
-- each slot at most once, over any number of ticks, as long as its clock does not go back:
-- whatever fails but the answer to a COMMIT that lands, and whatever becomes of the lease in
-- between. Other processes' runs are not counted.
pub run_ticks-once :
    (mode : SchedulerMode) (c : Clock) (holder now : ℕ) (es : List Turn) (p : Process) (t : Tables)
    → is_unfenced mode ≡ true
    → 0 < c.slot_ms
    → p.last_slot ≡ none
    → t.rollups ≡ []
    → IsTimed now es
    → All (λ e. e.faults.commit_lost ≡ false) es
    → (slot : ℕ) → runs_of slot (run_ticks mode c holder es p t).1.rollups ≤ 1
unfolding runs_of
run_ticks-once mode c holder now es p t plain pos fresh empty timed told =
    run_ticks-IsRemembered mode c holder now es p t plain pos timed told (record {
      once = λ s. rw empty (omega arith);
      covered = λ s above. rw empty refl;
      past = rw fresh (omega arith);
    })
