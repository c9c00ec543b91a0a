-- ===== src/Ingest/Counters.antt =====
-- The counters of the periods, and what the write of a bill does to them.
use drills.Prelude.{
  ℕ, suc, ◌+◌, ◌≡◌, ◌≢◌, refl, Bool, true, false, ◌&&◌, Option, none, some, List, [], ◌∷◌, arith,
  ◌==◌, if◌then◌else◌, Option-cases, inl, inr,
}
use drills.Prelude.Result.{ok}
use drills.Ingest.Store.{
  UsageEvent, UsageCounter, Db, find_used, set_used, with_used, increment_atomic,
}
use drills.Ingest.Write.{Stale, QuotaMode, rmw, bill, bill_read}

-- How many billed events the ledger has.
unfoldable pub billed : ℕ → ℕ → List UsageEvent → ℕ
billed org period [] = 0
billed org period (e ∷ es) =
    let rest = billed org period es in
    if e.org_id == org && e.period == period then suc rest else rest

unfoldable pub or_zero : Option ℕ → ℕ
or_zero none = 0
or_zero (some used) = used

unfoldable pub used_of : ℕ → ℕ → Db → ℕ
unfolding or_zero
used_of org period db = or_zero (find_used org period db.usage_counters)

unfoldable pub one_if : Bool → ℕ
one_if true = 1
one_if false = 0

pub find_used-set_used :
    (org period n used : ℕ) (cs : List UsageCounter)
    → find_used org period cs ≡ some used
    → find_used org period (set_used org period n cs) ≡ some n
unfolding find_used set_used
find_used-set_used org period n used [] h = ground arith
find_used-set_used org period n used (c ∷ cs) h =
    ground (arith, find_used-set_used org period n used cs)

find_used-set_used_other :
    (org period n : ℕ) (cs : List UsageCounter) (o p : ℕ)
    → (o == org && p == period) ≡ false
    → find_used o p (set_used org period n cs) ≡ find_used o p cs
unfolding find_used set_used
find_used-set_used_other org period n [] o p h = ground arith
find_used-set_used_other org period n (c ∷ cs) o p h =
    ground (arith, find_used-set_used_other org period n cs o p h)

-- One more for a period, in a counter.
unfoldable pub Counted : ℕ → ℕ → List UsageCounter → List UsageCounter → Type 0
Counted org period cs cs' =
    (o p : ℕ)
    → or_zero (find_used o p cs') ≡ one_if (o == org && p == period) + or_zero (find_used o p cs)

set_used-Counted :
    (org period used : ℕ) (cs : List UsageCounter)
    → find_used org period cs ≡ some used
    → Counted org period cs (set_used org period (suc used) cs)
unfolding Counted or_zero one_if
set_used-Counted org period used cs h o p = ground (
  arith,
  find_used-set_used org period (suc used) used cs h,
  find_used-set_used_other org period (suc used) cs o p,
)

with_used-Counted :
    (org period : ℕ) (cs : List UsageCounter)
    → Counted org period cs (with_used org period cs (find_used org period cs)).1
unfolding Counted or_zero one_if with_used find_used
with_used-Counted org period cs = elim (Option-cases (find_used org period cs)) [
  | inl none_yet ↦ rw none_yet (λ o p. ground arith)
  | inr (used, there) ↦ rw there (set_used-Counted org period used cs there)
]

unfoldable pub BillLedger : ℕ → ℕ → Db → ℕ × Db → Type 0
BillLedger org period db (used, db') =
    Counted org period db.usage_counters db'.usage_counters
    × (db'.usage_events ≡ db.usage_events)
    × (used ≡ suc (used_of org period db))

with_used-fst :
    (org period : ℕ) (cs : List UsageCounter) (seen : Option ℕ)
    → (with_used org period cs seen).0 ≡ suc (or_zero seen)
unfolding with_used or_zero
with_used-fst org period cs none = refl
with_used-fst org period cs (some used) = refl

pub increment_atomic-BillLedger :
    (org period : ℕ) (db : Db) → BillLedger org period db (increment_atomic org period db)
unfolding BillLedger increment_atomic used_of
increment_atomic-BillLedger org period db = (
  with_used-Counted org period db.usage_counters,
  refl,
  with_used-fst org period db.usage_counters (find_used org period db.usage_counters),
)

-- A count that is up to date is written as `incrementAtomic` writes it.
bill_read_current :
    (org period : ℕ) (db : Db)
    → bill_read org period db (find_used org period db.usage_counters)
      ≡ increment_atomic org period db
unfolding bill_read increment_atomic with_used
bill_read_current org period db = elim (Option-cases (find_used org period db.usage_counters)) [
  | inl none_yet ↦ rw none_yet (rw none_yet refl)
  | inr (used, there) ↦ rw there refl
]

-- Off the read-modify-write arm, `bill` writes what the atomic arm writes, or throws on
-- SERIALIZABLE.
pub bill-current :
    (quota : QuotaMode) (org period : ℕ) (stale : Stale) (db : Db) (billing : ℕ × Db)
    → quota ≢ rmw
    → bill quota org period stale db ≡ ok billing
    → billing ≡ increment_atomic org period db
unfolding bill
bill-current quota org period stale db billing not_rmw h =
    ground (arith, bill_read_current org period db)
