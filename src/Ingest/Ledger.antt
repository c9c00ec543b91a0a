-- ===== src/Ingest/Ledger.antt =====
-- The counter of a period and the ledger of billed events move together.
use drills.Prelude.{
  ℕ, ◌+◌, ◌≡◌, ◌≢◌, refl, sym, ap, true, ◌&&◌, Option, none, some, arith, ◌==◌, Bool-cases, subst,
  inl, inr,
}
use drills.Prelude.Result.{ok, err, Result-cases}
use drills.Tenancy.{Controls}
use drills.Tenancy.Laws.{with_org-ok}
use drills.Ingest.Effect.{write_event-err}
use drills.Ingest.Store.{
  Event, Db, find_used, insert_conversation, insert_message, insert_usage_event,
}
use drills.Ingest.Write.{
  Config, Stale, rmw, IngestRow, IngestResult, Written, on_rows, scope, insert_all, upsert,
  conflicting, plain_insert, check_then_insert, write_row, bill, bill_row, after_row, write_once,
  write_event,
}
use drills.Ingest.Counters.{
  billed, or_zero, used_of, one_if, Counted, BillLedger, increment_atomic-BillLedger, bill-current,
}

-- The ledger after the first row: one event more if the row is new.
RowLedger : ℕ → ℕ → Db → Written (Option IngestRow) → Type 0
RowLedger org period db (err e) = Unit
RowLedger org period db (ok (none, db')) =
    (db'.usage_counters ≡ db.usage_counters) × (db'.usage_events ≡ db.usage_events)
RowLedger org period db (ok (some row, db')) =
    (db'.usage_counters ≡ db.usage_counters)
    × ((o p : ℕ)
        → billed o p db'.usage_events
          ≡ one_if (row.created && (o == org && p == period)) + billed o p db.usage_events)

module _ (org : ℕ) (event : Event) (now period : ℕ) (db : Db) where
  insert_all-RowLedger :
      RowLedger org period db
        (ok (some (record { id = db.next_id; created = true }), insert_all org event now period db))
  unfolding RowLedger insert_all insert_conversation insert_message insert_usage_event billed one_if
  insert_all-RowLedger = (refl, λ o p. ground arith)

  plain_insert-RowLedger :
      (cfg : Config) → RowLedger org period db (plain_insert cfg org event now period db)
  unfolding plain_insert RowLedger
  plain_insert-RowLedger cfg = ground (arith, insert_all-RowLedger)

  upsert-RowLedger :
      (cfg : Config) (stale : Stale)
      → RowLedger org period db (upsert cfg org event now period stale db)
  unfolding upsert conflicting RowLedger one_if
  upsert-RowLedger cfg stale = ground (arith, insert_all-RowLedger)

  check_then_insert-RowLedger :
      (cfg : Config) (stale : Stale)
      → RowLedger org period db (check_then_insert cfg org event now period stale db)
  unfolding check_then_insert RowLedger one_if
  check_then_insert-RowLedger cfg stale = ground (arith, plain_insert-RowLedger cfg)

  write_row-RowLedger :
      (cfg : Config) (stale : Stale)
      → RowLedger org period db (write_row cfg org event now period stale db)
  unfolding write_row
  write_row-RowLedger cfg stale = ground (
    arith,
    plain_insert-RowLedger cfg,
    upsert-RowLedger cfg stale,
    check_then_insert-RowLedger cfg stale,
  )

-- Counter and ledger move by the same.
abbrev Balanced : Db → Db → Type 0
Balanced db db' =
    (o p : ℕ)
    → used_of o p db' + billed o p db.usage_events ≡ used_of o p db + billed o p db'.usage_events

abbrev Balances : Db → Written IngestResult → Type 0
Balances db (err e) = Unit
Balances db (ok (result, db')) = Balanced db db'

billed-Balanced :
    (org period used : ℕ) (start db db' : Db)
    → db.usage_counters ≡ start.usage_counters
    → ((o p : ℕ)
        → billed o p db.usage_events
          ≡ one_if (o == org && p == period) + billed o p start.usage_events)
    → BillLedger org period db (used, db')
    → Balanced start db'
unfolding BillLedger Counted used_of
billed-Balanced org period used start db db' same grown (counted, kept, moved) o p = omega (
  arith,
  counted o p,
  grown o p,
  ap (billed o p) kept,
  ap (λ cs. or_zero (find_used o p cs)) same,
)

bill_row-Balances :
    (cfg : Config) (org period : ℕ) (stale : Stale) (retries : ℕ) (start : Db) (row : IngestRow)
    (db : Db)
    → cfg.quota ≢ rmw
    → RowLedger org period start (ok (some row, db))
    → Balances start (bill_row cfg org period stale retries row db)
unfolding bill_row RowLedger used_of one_if
bill_row-Balances cfg org period stale retries start row db not_rmw (c, e) =
    elim (Bool-cases row.created) [
      | inr old ↦ rw old (λ o p. ground (arith, c, e o p, old))
      | inl new ↦ elim (Result-cases (bill cfg.quota org period stale db)) [
        | inl (code, threw) ↦ rw new (rw threw tt)
        | inr ((used, db'), came) ↦ rw new (
            rw came (
              billed-Balanced org period used start db db' c
                (λ o p.
                  subst
                    (λ b.
                      billed o p db.usage_events
                      ≡ one_if (b && (o == org && p == period)) + billed o p start.usage_events)
                    new (e o p))
                (subst (BillLedger org period db)
                  (sym (bill-current cfg.quota org period stale db (used, db') not_rmw came))
                  (increment_atomic-BillLedger org period db))))
      ]
    ]

after_row-Balances :
    (cfg : Config) (org period : ℕ) (stale : Stale) (retries : ℕ) (db : Db)
    (r : Written (Option IngestRow))
    → cfg.quota ≢ rmw
    → RowLedger org period db r
    → Balances db (after_row cfg org period stale retries r)
unfolding after_row RowLedger used_of
after_row-Balances cfg org period stale retries db (err e) not_rmw h = tt
after_row-Balances cfg org period stale retries db (ok (none, db')) not_rmw (c, e) =
    λ o p. rw (c, e) refl
after_row-Balances cfg org period stale retries db (ok (some row, db')) not_rmw h =
    bill_row-Balances cfg org period stale retries db row db' not_rmw h

write_once-Balanced :
    (cfg : Config) (org : ℕ) (event : Event) (now period : ℕ) (stale : Stale) (retries : ℕ)
    (db : Db)
    → (result : IngestResult) (db' : Db) → cfg.quota ≢ rmw
    → on_rows db (write_once cfg org event now period stale retries db) ≡ (ok result, db')
    → Balanced db db'
unfolding write_once
write_once-Balanced cfg org event now period stale retries db result db' not_rmw h =
    returned (after_row cfg org period stale retries (write_row cfg org event now period stale db))
      h
      (after_row-Balances cfg org period stale retries db
        (write_row cfg org event now period stale db) not_rmw
        (write_row-RowLedger org event now period db cfg stale))
  where
    returned :
        (r : Written IngestResult)
        → on_rows db r ≡ (ok result, db')
        → Balances db r
        → Balanced db db'
    returned (err e) came h = ground arith
    returned (ok (result', db'')) came h = subst (Balanced db) (ap (λ p. p.1) came) h

pub write_event-Balanced :
    (cfg : Config) (controls : ℕ → Controls) (stale : ℕ → Stale) (org : ℕ) (event : Event)
    (now period : ℕ) (db : Db)
    → cfg.quota ≢ rmw
    → (o p : ℕ)
    → let db' = (write_event cfg controls stale org event now period db).1 in
      used_of o p db' + billed o p db.usage_events ≡ used_of o p db + billed o p db'.usage_events
unfolding write_event
write_event-Balanced cfg controls stale org event now period db not_rmw =
    elim (Result-cases (write_event cfg controls stale org event now period db).0) [
      | inl (e, threw) ↦
          λ o p. rw (write_event-err cfg controls stale org event now period db e threw) refl
      | inr (result, came) ↦
          let (n, at) =
            with_org-ok controls
              (λ n rows. on_rows rows (write_once cfg org event now period (stale n) n rows))
              (scope cfg) db result came in
          write_once-Balanced cfg org event now period (stale n) n db result
            (write_event cfg controls stale org event now period db).1 not_rmw at
    ]
