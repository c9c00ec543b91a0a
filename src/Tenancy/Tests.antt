-- ===== src/Tenancy/Tests.antt =====
-- Runs of `withOrg` on a counter.
use drills.Prelude.{ℕ, suc, ◌≤◌, ◌≡◌, refl, true, some, none, if◌then◌else◌, ltb}
use drills.Prelude.Result.{Result, ok, err}
use drills.Tenancy.{
  TxError, Controls, serializable, ScopeOptions, serialization_failure, thrown, unavailable,
  attempt, with_org,
}
use drills.Tenancy.Laws.{retried, restarted_before, Settled, with_org-Settled}

abbrev calm : ℕ → Controls
calm n = record { begin = none; set_config = none; commit = none }

-- COMMIT is refused twice.
abbrev contended : ℕ → Controls
contended n = record {
  begin = none;
  set_config = none;
  commit = if ltb n 2 then some serialization_failure else none;
}

abbrev bump : ℕ → ℕ → Result (TxError ℕ) ℕ × ℕ
bump n used = (ok (suc used), suc used)

abbrev refuses : ℕ → ℕ → Result (TxError ℕ) ℕ × ℕ
refuses n used = (err (thrown 7), suc used)

abbrev scope : ℕ → ScopeOptions
scope retries = record { isolation = some serializable; retries = retries }

third_attempt : with_org (scope 20) contended bump 5 ≡ (ok 6, 6, 2)
unfolding with_org
third_attempt = refl

exhausted : with_org (scope 1) contended bump 5 ≡ (err unavailable, 5, 1)
unfolding with_org
exhausted = refl

with_org-Settled_example :
    let end = with_org (scope 20) contended bump 5 in
    (end.2 ≤ 20)
    × (restarted_before contended bump end.2 5 ≡ true)
    × Settled contended bump (scope 20) 5 end (retried (attempt (contended end.2) (bump end.2) 5).0)
with_org-Settled_example = with_org-Settled contended bump (scope 20) 5

refuses_err : (with_org (scope 3) calm refuses 5).0 ≡ err (thrown 7)
unfolding with_org
refuses_err = refl
