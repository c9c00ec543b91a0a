-- ===== src/Jobs/Tick.antt =====
-- `tick` and `dueAndRun` of apps/backend/src/jobs/jobs.service.ts in all modes.
use drills.Prelude.{
  ℕ, zero, suc, Bool, true, false, Option, none, some, List, [], ◌∷◌, ◌==◌, if◌then◌else◌,
}
use drills.Jobs.{
  SchedulerMode, off, all, lease, fenced, Lease, Reply, lead, Tables, SlotResult, ran, skipped,
  blocked, failed, Faults, run_slot, Clock, latest, due_and_run,
}

-- A process: its term, 0 if it has none, and the slot that it ran last.
pub record Process : Type 0 where
  pub term : ℕ
  pub last_slot : Option ℕ

pub record Ticked : Type 0 where
  pub results : List SlotResult
  pub process : Process
  pub lease : Lease
  pub tables : Tables

abbrev pub is_last : Option ℕ → ℕ → Bool
is_last none slot = false
is_last (some last) slot = last == slot

abbrev pub after_run : SlotResult → ℕ → Option ℕ → Option ℕ
after_run ran slot last = some slot
after_run skipped slot last = last
after_run blocked slot last = last
after_run failed slot last = last

-- `dueAndRun` without the fence: the newest slot, unless this process ran it.
unfoldable pub run_latest : SchedulerMode → Faults → ℕ → ℕ → Process → Lease → Tables → Ticked
run_latest mode faults holder slot p l t =
    let (result, t') =
      run_slot mode faults (record { slot_start = slot; holder = holder; term = p.term }) t in
    if is_last p.last_slot slot
    then record { results = []; process = p; lease = l; tables = t }
    else record {
      results = result ∷ [];
      process = record p { last_slot = after_run result slot p.last_slot };
      lease = l;
      tables = t';
    }

-- `dueAndRun` after the lead.
unfoldable pub run_as_leader :
    SchedulerMode → Clock → Faults → ℕ → ℕ → Process → Lease → Tables → Ticked
unfolding run_latest
run_as_leader off c faults holder now p l t = run_latest off faults holder (latest c now) p l t
run_as_leader all c faults holder now p l t = run_latest all faults holder (latest c now) p l t
run_as_leader lease c faults holder now p l t = run_latest lease faults holder (latest c now) p l t
run_as_leader fenced c faults holder now p l t =
    let (results, t') = due_and_run c (λ slot. faults) holder p.term now t in
    record { results = results; process = p; lease = l; tables = t' }

unfoldable pub lead_and_run :
    SchedulerMode → Clock → Faults → ℕ → ℕ → Process → (Bool × ℕ) × Lease → Tables → Ticked
unfolding run_as_leader
lead_and_run mode c faults holder now p ((true, term), l) t =
    run_as_leader mode c faults holder now (record p { term = term }) l t
lead_and_run mode c faults holder now p ((false, term), l) t = record {
  results = [];
  process = record p { term = term };
  lease = l;
  tables = t;
}

-- Without a term the process takes the lease first, or gives up.
unfoldable pub run_leading :
    SchedulerMode → Clock → Reply → Faults → ℕ → ℕ → ℕ → Process → Lease → Tables → Ticked
unfolding lead_and_run
run_leading mode c reply faults holder now (suc term) p l t =
    run_as_leader mode c faults holder now p l t
run_leading mode c reply faults holder now zero p l t =
    lead_and_run mode c faults holder now p (lead reply holder 0 l) t

-- `tick` of a process that is not busy: one that is does nothing.
unfoldable pub tick :
    SchedulerMode → Clock → Reply → Faults → ℕ → ℕ → Process → Lease → Tables → Ticked
unfolding run_leading
tick off c reply faults holder now p l t = record {
  results = [];
  process = p;
  lease = l;
  tables = t;
}
tick all c reply faults holder now p l t = run_as_leader all c faults holder now p l t
tick lease c reply faults holder now p l t =
    run_leading lease c reply faults holder now p.term p l t
tick fenced c reply faults holder now p l t =
    run_leading fenced c reply faults holder now p.term p l t
