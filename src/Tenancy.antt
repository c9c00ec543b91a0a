-- ===== src/Tenancy.antt =====
-- Transactions with a tenant: `withOrg`, `attempt` and `isRetryable` of
-- apps/backend/src/tenancy/tenant-db.service.ts, over any database and any callback.
use Prim.Native.String.{String}
use drills.Prelude.{ℕ, zero, suc, ◌+◌, Bool, true, false, Option, none, some, if◌then◌else◌}
use drills.Prelude.Result.{Result, ok, err}
pub mod Laws
mod Tests

-- `code` of an error: '40001', '40P01', or another SQLSTATE.
pub data SqlState : Type 0 where
  serialization_failure deadlock_detected : SqlState
  other : String → SqlState

-- What is thrown: a database error, what the callback throws, or the 503.
pub data TxError {ℓ} (E : Type ℓ) : Type ℓ where
  database : SqlState → TxError E
  thrown : E → TxError E
  unavailable : TxError E

abbrev is_retryable_state : SqlState → Bool
is_retryable_state serialization_failure = true
is_retryable_state deadlock_detected = true
is_retryable_state (other code) = false

abbrev pub is_retryable {ℓ} : {E : Type ℓ} → TxError E → Bool
is_retryable (database code) = is_retryable_state code
is_retryable (thrown e) = false
is_retryable unavailable = false

-- What Postgres answers to the control statements of one attempt: none is success.
pub record Controls : Type 0 where
  pub begin : Option SqlState
  pub set_config : Option SqlState
  pub commit : Option SqlState

pub data Isolation : Type 0 where
  repeatable_read serializable : Isolation

-- No `isolation` is the server's default; `retries` is 0 by default.
pub record ScopeOptions : Type 0 where
  pub isolation : Option Isolation
  pub retries : ℕ

abbrev pub default_scope : ScopeOptions
default_scope = record { isolation = none; retries = 0 }

module _ {ℓ κ μ} {E : Type ℓ} {A : Type κ} {Db : Type μ} where
  -- The callback's end: COMMIT, or ROLLBACK to the rows before BEGIN and the error again.
  end_attempt : Controls → Db → Result (TxError E) A × Db → Result (TxError E) A × Db
  end_attempt controls before (err e, db) = (err e, before)
  end_attempt controls before (ok a, db) = elim controls.commit [
    | some code ↦ (err (database code), before)
    | none ↦ (ok a, db)
  ]

  unfoldable pub attempt :
      Controls → (Db → Result (TxError E) A × Db) → Db → Result (TxError E) A × Db
  unfolding end_attempt
  attempt controls fn db = elim controls.begin [
    | some code ↦ (err (database code), db)
    | none ↦ elim controls.set_config [
      | some code ↦ (err (database code), db)
      | none ↦ end_attempt controls db (fn db)
    ]
  ]

  -- The loop from attempt `n` on with `left` restarts left. The third component counts the restarts
  -- that `recordRetry` recorded. A callback may come out differently at each attempt.
  unfoldable pub attempts :
      (ℕ → Controls)
      → (ℕ → Db → Result (TxError E) A × Db)
      → ℕ
      → ℕ
      → Db
      → Result (TxError E) A × Db × ℕ
  unfolding attempt
  attempts controls fn zero n db =
      let (result, db') = attempt (controls n) (fn n) db in
      elim result [
        | ok a ↦ (ok a, db', n)
        | err e ↦ (err (if is_retryable e then unavailable else e), db', n)
      ]
  attempts controls fn (suc left) n db =
      let rest = attempts controls fn left (suc n) in
      let (result, db') = attempt (controls n) (fn n) db in
      elim result [
        | ok a ↦ (ok a, db', n)
        | err e ↦ if is_retryable e then rest db' else (err e, db', n)
      ]

  unfoldable pub with_org :
      ScopeOptions
      → (ℕ → Controls)
      → (ℕ → Db → Result (TxError E) A × Db)
      → Db
      → Result (TxError E) A × Db × ℕ
  unfolding attempts
  with_org scope controls fn db = attempts controls fn scope.retries 0 db
