-- ===== src/Jobs.antt =====
-- The usage rollup of apps/backend/src/jobs/jobs.service.ts and its lease in
-- apps/backend/src/redis/redis.service.ts.
use drills.Prelude.{
  ℕ, zero, suc, ◌+◌, ◌-◌, ◌*◌, ◌/◌, Bool, true, false, ◌||◌, Option, none, some, List, [], ◌∷◌, any,
  ◌==◌, if◌then◌else◌,
}
mod Once
pub mod Tick
mod Ticks
mod Terms
mod Tests

pub data SchedulerMode : Type 0 where
  off all lease fenced : SchedulerMode

-- The lease's key, and the counter of its terms.
pub record Lease : Type 0 where
  pub holder : Option ℕ
  pub terms : ℕ

-- ACQUIRE_LEASE: the new term, or 0.
unfoldable pub acquire : ℕ → Lease → ℕ × Lease
acquire holder l = elim l.holder [
  | some other ↦ (0, l)
  | none ↦ (suc l.terms, record { holder = some holder; terms = suc l.terms })
]

abbrev pub holds : ℕ → Option ℕ → Bool
holds holder none = false
holds holder (some other) = other == holder

-- RENEW_LEASE: is the lease still this holder's?
abbrev pub renew : ℕ → Lease → Bool
renew holder l = holds holder l.holder

-- delIfEquals
unfoldable pub del_if_equals : ℕ → Lease → Lease
del_if_equals holder l = if holds holder l.holder then record l { holder = none } else l

-- A Redis command: answered, or failed with or without its effect.
pub data Reply : Type 0 where
  answered : Reply
  failed_reply : Bool → Reply

-- What `lead` makes of a term that was acquired: 0 is none.
taken : ℕ → Bool × ℕ
taken zero = (false, 0)
taken (suc term) = (true, suc term)

-- `lead`: whether the process leads, its term, and the lease. The term is 0 if it holds none.
unfoldable pub lead : Reply → ℕ → ℕ → Lease → (Bool × ℕ) × Lease
unfolding taken
lead answered holder zero l = let (term, l') = acquire holder l in (taken term, l')
lead (failed_reply true) holder zero l = let (term, l') = acquire holder l in ((false, 0), l')
lead (failed_reply false) holder zero l = ((false, 0), l)
lead answered holder (suc term) l = (if renew holder l then (true, suc term) else (false, 0), l)
lead (failed_reply applied) holder (suc term) l = ((false, 0), l)

-- `beforeApplicationShutdown`: the lease after a process hands it back.
unfoldable pub hand_back : Reply → ℕ → ℕ → Lease → Lease
hand_back reply holder zero l = l
hand_back answered holder (suc term) l = del_if_equals holder l
hand_back (failed_reply true) holder (suc term) l = del_if_equals holder l
hand_back (failed_reply false) holder (suc term) l = l

pub record JobRun : Type 0 where
  pub slot_start : ℕ
  pub holder : ℕ
  pub term : ℕ

-- `job_runs`, and the calls of `app_rollup_usage` that were committed.
pub record Tables : Type 0 where
  pub job_runs : List JobRun
  pub rollups : List JobRun

pub data SlotResult : Type 0 where
  ran skipped blocked failed : SlotResult

-- An error of a statement: 55P03, or another.
pub data Failure : Type 0 where
  lock_not_available other_error : Failure

-- The statements up to the claim, the ROLLBACK of a taken slot, and the statements after the claim.
pub record Faults : Type 0 where
  pub before_claim : Option Failure
  pub rollback : Option Failure
  pub after_claim : Option Failure
  -- The COMMIT lands and its answer does not come.
  pub commit_lost : Bool

abbrev result_of : Failure → SlotResult
result_of lock_not_available = blocked
result_of other_error = failed

abbrev pub is_claimed : ℕ → List JobRun → Bool
is_claimed slot runs = any (λ r. r.slot_start == slot) runs

-- Does the slot run under the mode's claim?
unfoldable pub is_taken : SchedulerMode → ℕ → Tables → Bool
is_taken off slot t = false
is_taken all slot t = false
is_taken lease slot t = false
is_taken fenced slot t = is_claimed slot t.job_runs

unfoldable pub commit_run : SchedulerMode → JobRun → Tables → Tables
commit_run fenced run t = record { job_runs = run ∷ t.job_runs; rollups = run ∷ t.rollups }
commit_run off run t = record t { rollups = run ∷ t.rollups }
commit_run all run t = record t { rollups = run ∷ t.rollups }
commit_run lease run t = record t { rollups = run ∷ t.rollups }

ended : Option Failure → SlotResult → Tables → Tables → SlotResult × Tables
ended none result before after = (result, after)
ended (some failure) result before after = (result_of failure, before)

-- The statements after the claim, and the COMMIT.
unfoldable pub committed : Faults → Tables → Tables → SlotResult × Tables
unfolding ended
committed faults before after =
    if faults.commit_lost
    then ended faults.after_claim failed before after
    else ended faults.after_claim ran before after

-- `runSlot`: one transaction.
unfoldable pub run_slot : SchedulerMode → Faults → JobRun → Tables → SlotResult × Tables
unfolding ended committed
run_slot mode faults run t = elim faults.before_claim [
  | some failure ↦ (result_of failure, t)
  | none ↦
      if is_taken mode run.slot_start t
      then ended faults.rollback skipped t t
      else committed faults t (commit_run mode run t)
]

-- JOB_SLOT_S and JOB_GRACE_S, in milliseconds.
pub record Clock : Type 0 where
  pub slot_ms : ℕ
  pub grace_ms : ℕ

abbrev pub catchup_slots : ℕ
catchup_slots = 10

-- The newest slot whose end plus the grace has passed, for a time that is later than both.
unfoldable pub latest : Clock → ℕ → ℕ
latest c now = (now - c.grace_ms) / c.slot_ms * c.slot_ms - c.slot_ms

-- generate_series
abbrev pub series : ℕ → ℕ → ℕ → List ℕ
series interval zero slot = []
series interval (suc n) slot = slot ∷ series interval n (slot + interval)

unfoldable pub unclaimed : List ℕ → List JobRun → List ℕ
unclaimed [] runs = []
unclaimed (slot ∷ slots) runs =
    let rest = unclaimed slots runs in if is_claimed slot runs then rest else slot ∷ rest

abbrev pub stops : SlotResult → Bool
stops ran = false
stops skipped = false
stops blocked = true
stops failed = true

-- The loop over the due slots.
unfoldable pub run_due : (ℕ → Faults) → ℕ → ℕ → List ℕ → Tables → List SlotResult × Tables
run_due faults holder term [] t = ([], t)
run_due faults holder term (slot ∷ slots) t =
    let (result, t') =
      run_slot fenced (faults slot) (record { slot_start = slot; holder = holder; term = term })
        t in
    let (results, t'') = run_due faults holder term slots t' in
    if stops result then (result ∷ [], t') else (result ∷ results, t'')

-- `dueAndRun` of a `fenced` process that leads.
unfoldable pub due_and_run : Clock → (ℕ → Faults) → ℕ → ℕ → ℕ → Tables → List SlotResult × Tables
unfolding run_due
due_and_run c faults holder term now t =
    run_due faults holder term
      (unclaimed (series c.slot_ms catchup_slots (latest c now - (catchup_slots - 1) * c.slot_ms))
        t.job_runs)
      t
