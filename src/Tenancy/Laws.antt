-- ===== src/Tenancy/Laws.antt =====
-- What `withOrg` leaves: one attempt's work or nothing, within the bound on restarts.
use drills.Prelude.{
  ℕ, zero, suc, ◌+◌, ◌≤◌, ◌<◌, ◌≡◌, refl, Bool, true, false, inl, inr, arith, Bool-cases, ltb,
  ltb→lt, subst, ap, ◌&&◌, sym, ◌∙◌,
}
use drills.Prelude.Result.{Result, ok, err}
use drills.Tenancy.{
  TxError, Controls, ScopeOptions, is_retryable, unavailable, attempt, attempts, with_org,
  end_attempt,
}

-- Does a result ask for a restart?
unfoldable pub retried {ℓ κ} : {E : Type ℓ} {A : Type κ} → Result (TxError E) A → Bool
retried (ok a) = false
retried (err e) = is_retryable e

split_on {ℓ} : (b : Bool) (P : Bool → Type ℓ) → (b ≡ true → P true) → (b ≡ false → P false) → P b
split_on true P h k = h refl
split_on false P h k = k refl

module _ {ℓ κ μ} {E : Type ℓ} {A : Type κ} {Db : Type μ} where
  -- What an attempt that fails leaves is what it found.
  pub attempt-err :
      (controls : Controls) (fn : Db → Result (TxError E) A × Db) (db : Db) (e : TxError E)
      → (attempt controls fn db).0 ≡ err e
      → (attempt controls fn db).1 ≡ db
  unfolding attempt end_attempt
  attempt-err controls fn db e h = ground arith

  -- The loop from attempt `n` ends at an attempt `k` within its bound, and every one before was
  -- restarted.
  Ends :
      (ℕ → Controls)
      → (ℕ → Db → Result (TxError E) A × Db)
      → ℕ
      → ℕ
      → Db
      → Result (TxError E) A × Db × ℕ
      → Type (ℓ ⊔ κ ⊔ μ)
  Ends controls fn left n db (result, db', k) =
      (n ≤ k)
      × (k ≤ n + left)
      × ((m : ℕ) → n ≤ m → m < k → retried (attempt (controls m) (fn m) db).0 ≡ true)
      × (retried (attempt (controls k) (fn k) db).0 ≡ true
          → (k ≡ n + left) × (result ≡ err unavailable) × (db' ≡ db))
      × (retried (attempt (controls k) (fn k) db).0 ≡ false
          → attempt (controls k) (fn k) db ≡ (result, db'))

  module _ (controls : ℕ → Controls) (fn : ℕ → Db → Result (TxError E) A × Db) where
    attempts-stop :
        (left n : ℕ) (db : Db)
        → retried (attempt (controls n) (fn n) db).0 ≡ false
        → attempts controls fn left n db
          ≡ ((attempt (controls n) (fn n) db).0, (attempt (controls n) (fn n) db).1, n)
    unfolding attempts retried
    attempts-stop zero n db h = ground arith
    attempts-stop (suc left) n db h = ground arith

    attempts_again :
        (left n : ℕ) (db : Db)
        → retried (attempt (controls n) (fn n) db).0 ≡ true
        → attempts controls fn (suc left) n db ≡ attempts controls fn left (suc n) db
    unfolding attempts retried
    attempts_again left n db h = ground (arith, attempt-err (controls n) (fn n) db)

    attempts_exhausted :
        (n : ℕ) (db : Db)
        → retried (attempt (controls n) (fn n) db).0 ≡ true
        → attempts controls fn zero n db ≡ (err unavailable, db, n)
    unfolding attempts retried
    attempts_exhausted n db h = ground (arith, attempt-err (controls n) (fn n) db)

    Ends-now :
        (left n : ℕ) (db : Db)
        → (result : Result (TxError E) A) (db' : Db)
        → (retried (attempt (controls n) (fn n) db).0 ≡ true
            → (n ≡ n + left) × (result ≡ err unavailable) × (db' ≡ db))
        → (retried (attempt (controls n) (fn n) db).0 ≡ false
            → attempt (controls n) (fn n) db ≡ (result, db'))
        → Ends controls fn left n db (result, db', n)
    unfolding Ends
    Ends-now left n db result db' h k =
        (omega arith, omega arith, λ m from below. ground arith, h, k)

    Ends-later :
        (left n : ℕ) (db : Db)
        → retried (attempt (controls n) (fn n) db).0 ≡ true
        → (end : Result (TxError E) A × Db × ℕ) → Ends controls fn left (suc n) db end
        → Ends controls fn (suc left) n db end
    unfolding Ends
    Ends-later left n db again end (from, upto, before, last, done) = (
      omega (arith, from),
      omega (arith, upto),
      λ m low below. elim (Bool-cases (ltb n m)) [
        | inl after ↦ before m (ltb→lt n m after) below
        | inr same ↦
            subst (λ i. retried (attempt (controls i) (fn i) db).0 ≡ true) (ground arith) again
      ],
      λ h. (omega (arith, (last h).0), (last h).1, (last h).2),
      done,
    )

    attempts-Ends :
        (left n : ℕ) (db : Db) → Ends controls fn left n db (attempts controls fn left n db)
    attempts-Ends zero n db = elim (Bool-cases (retried (attempt (controls n) (fn n) db).0)) [
      | inl again ↦
          rw (attempts_exhausted n db again)
            (Ends-now zero n db _ _ (λ h. (omega arith, refl, refl)) (λ h. ground arith))
      | inr over ↦
          rw (attempts-stop zero n db over) (Ends-now zero n db _ _ (λ h. ground arith) (λ h. refl))
    ]
    attempts-Ends (suc left) n db = elim (Bool-cases (retried (attempt (controls n) (fn n) db).0)) [
      | inl again ↦
          rw (attempts_again left n db again)
            (Ends-later left n db again _ (attempts-Ends left (suc n) db))
      | inr over ↦
          rw (attempts-stop (suc left) n db over)
            (Ends-now (suc left) n db _ _ (λ h. ground arith) (λ h. refl))
    ]

    -- Was every attempt before `k` restarted?
    pub restarted_before : ℕ → Db → Bool
    restarted_before zero db = true
    restarted_before (suc k) db =
        retried (attempt (controls k) (fn k) db).0 && restarted_before k db

    restarted_before-all :
        (k : ℕ) (db : Db)
        → ((m : ℕ) → 0 ≤ m → m < k → retried (attempt (controls m) (fn m) db).0 ≡ true)
        → restarted_before k db ≡ true
    unfolding restarted_before
    restarted_before-all zero db h = refl
    restarted_before-all (suc k) db h =
        rw (h k (omega arith) (omega arith))
          (restarted_before-all k db (λ m low below. h m low (omega (arith, below))))

    -- What the last attempt leaves, if it asked for a restart and if not.
    pub Settled : ScopeOptions → Db → Result (TxError E) A × Db × ℕ → Bool → Type (ℓ ⊔ κ ⊔ μ)
    Settled scope db (result, db', k) true =
        (k ≡ scope.retries) × (result ≡ err unavailable) × (db' ≡ db)
    Settled scope db (result, db', k) false = attempt (controls k) (fn k) db ≡ (result, db')

    settled :
        (scope : ScopeOptions) (db : Db) (end : Result (TxError E) A × Db × ℕ)
        → Ends controls fn scope.retries 0 db end
        → Settled scope db end (retried (attempt (controls end.2) (fn end.2) db).0)
    unfolding Ends Settled
    settled scope db end (from, upto, before, last, done) =
        split_on (retried (attempt (controls end.2) (fn end.2) db).0) (Settled scope db end)
          (λ h. (omega (arith, (last h).0), (last h).1, (last h).2)) done

    -- `withOrg` stops at an attempt of at most `retries` restarts, and every attempt before
    -- failed with 40001 or 40P01. If the last attempt failed so too, no restart was left, the
    -- answer is the 503 and the rows are as they were; else the answer and the rows are those
    -- of that attempt alone.
    pub with_org-Settled :
        (scope : ScopeOptions) (db : Db)
        → let end = with_org scope controls fn db in
          (end.2 ≤ scope.retries)
          × (restarted_before end.2 db ≡ true)
          × Settled scope db end (retried (attempt (controls end.2) (fn end.2) db).0)
    unfolding with_org Ends
    with_org-Settled scope db =
        let ends = attempts-Ends scope.retries 0 db in
        (
          omega (arith, ends.1),
          restarted_before-all (attempts controls fn scope.retries 0 db).2 db ends.2,
          settled scope db (attempts controls fn scope.retries 0 db) ends,
        )

    -- A `withOrg` that throws, whatever the error, leaves the rows as they were.
    pub with_org-err :
        (scope : ScopeOptions) (db : Db) (e : TxError E)
        → (with_org scope controls fn db).0 ≡ err e
        → (with_org scope controls fn db).1 ≡ db
    unfolding with_org Ends
    with_org-err scope db e h =
        let (from, upto, before, last, done) = attempts-Ends scope.retries 0 db in
        let k = (attempts controls fn scope.retries 0 db).2 in
        elim (Bool-cases (retried (attempt (controls k) (fn k) db).0)) [
          | inl again ↦ (last again).2
          | inr over ↦
              sym (ap (λ p. p.1) (done over))
              ∙ attempt-err (controls k) (fn k) db e (ap (λ p. p.0) (done over) ∙ h)
        ]

    attempt-ok :
        (n : ℕ) (db : Db) (a : A)
        → (attempt (controls n) (fn n) db).0 ≡ ok a
        → fn n db ≡ (ok a, (attempt (controls n) (fn n) db).1)
    unfolding attempt end_attempt
    attempt-ok n db a h = ground arith

    -- A `withOrg` that returns gives what the callback gave at one of the attempts.
    pub with_org-ok :
        (scope : ScopeOptions) (db : Db) (a : A)
        → (with_org scope controls fn db).0 ≡ ok a
        → (n : ℕ) × (fn n db ≡ (ok a, (with_org scope controls fn db).1))
    unfolding with_org Ends
    with_org-ok scope db a h =
        let (from, upto, before, last, done) = attempts-Ends scope.retries 0 db in
        let k = (attempts controls fn scope.retries 0 db).2 in
        elim (Bool-cases (retried (attempt (controls k) (fn k) db).0)) [
          | inl again ↦ ground (arith, (last again).1)
          | inr over ↦ (
            k,
            attempt-ok k db a (ap (λ p. p.0) (done over) ∙ h) ∙ ap (λ p. (ok a, p.1)) (done over),
          )
        ]
