-- ===== src/Ingest/Effect.antt =====
-- What one transaction of a delivery does to the conversations and what its result names.
use drills.Prelude.{
  ℕ, suc, ◌≡◌, refl, sym, ap, subst₂, ◌∙◌, true, false, Option, none, some, ◌∷◌, ◌⊎◌, inl, inr,
  arith, Option-cases,
}
use drills.Prelude.Result.{Result-cases, ok, err}
use drills.Prelude.Text.{Text}
use drills.Tenancy.{Controls}
use drills.Tenancy.Laws.{with_org-ok, with_org-err}
use drills.Ingest.Store.{
  Event, Conversation, Db, IngestError, lookup, insert_conversation, insert_message,
  insert_usage_event, increment_atomic, find_used,
}
use drills.Ingest.Write.{
  Config, Stale, IngestRow, IngestResult, created, duplicate, pending, insert_all, upsert,
  plain_insert, Written, conflicting, QuotaMode, atomic, rmw, locking, serialized, bill_read,
  before, check_then_insert, write_row, bill, bill_row, after_row, row_result, write_once,
  write_event, on_rows, scope,
}

-- The conversation that a result created.
unfoldable pub made : IngestResult → Option ℕ
made result = elim result.outcome [
  | created ↦ result.conversation_id
  | duplicate ↦ none
  | pending ↦ none
]

-- The conversations stay, and a result names the event's.
abbrev pub Kept : ℕ → Text → Db → IngestResult → Db → Type 0
Kept org key db result db' =
    (db'.conversations ≡ db.conversations)
    × (db'.next_id ≡ db.next_id)
    × (made result ≡ none)
    × ((result.conversation_id ≡ none) ⊎ (result.conversation_id ≡ lookup org key db.conversations))

-- One conversation more: the event's, under the next id.
abbrev pub Grown : ℕ → Text → Db → Db → Type 0
Grown org key db db' =
    (c : Conversation) × (db'.conversations ≡ c ∷ db.conversations)
    × (db'.next_id ≡ suc db.next_id)
    × (c.id ≡ db.next_id)
    × (c.org_id ≡ org)
    × (c.provider_event_id ≡ some key)

-- The event had no conversation, and the result names the one added.
abbrev pub Added : ℕ → Text → Db → IngestResult → Db → Type 0
Added org key db result db' =
    (lookup org key db.conversations ≡ none)
    × Grown org key db db'
    × (result.conversation_id ≡ some db.next_id)
    × (made result ≡ some db.next_id)

abbrev pub Effect : ℕ → Text → Db → IngestResult → Db → Type 0
Effect org key db result db' = Kept org key db result db' ⊎ Added org key db result db'

increment_atomic-keeps :
    (org period : ℕ) (db : Db)
    → ((increment_atomic org period db).1.conversations ≡ db.conversations)
      × ((increment_atomic org period db).1.next_id ≡ db.next_id)
unfolding increment_atomic
increment_atomic-keeps org period db = (refl, refl)

bill_read-keeps :
    (org period : ℕ) (db : Db) (seen : Option ℕ)
    → ((bill_read org period db seen).1.conversations ≡ db.conversations)
      × ((bill_read org period db seen).1.next_id ≡ db.next_id)
unfolding bill_read
bill_read-keeps org period db none = increment_atomic-keeps org period db
bill_read-keeps org period db (some used) = (refl, refl)

bill-keeps :
    (quota : QuotaMode) (org period : ℕ) (stale : Stale) (db : Db) (used : ℕ) (db' : Db)
    → bill quota org period stale db ≡ ok (used, db')
    → (db'.conversations ≡ db.conversations) × (db'.next_id ≡ db.next_id)
unfolding bill
bill-keeps atomic org period stale db used db' h =
    ground (arith, increment_atomic-keeps org period db)
bill-keeps rmw org period stale db used db' h = ground (
  arith,
  bill_read-keeps org period db (before stale.bills (find_used org period db.usage_counters)),
)
bill-keeps locking org period stale db used db' h =
    ground (arith, bill_read-keeps org period db (find_used org period db.usage_counters))
bill-keeps serialized org period stale db used db' h =
    ground (arith, bill_read-keeps org period db (find_used org period db.usage_counters))

-- A row that an insert or a SELECT gives, and the rows after it.
abbrev RowEffect : ℕ → Text → Db → Option IngestRow → Db → Type 0
RowEffect org key db none db' = (db'.conversations ≡ db.conversations) × (db'.next_id ≡ db.next_id)
RowEffect org key db (some row) db' =
    ((row.created ≡ false)
      × (db'.conversations ≡ db.conversations)
      × (db'.next_id ≡ db.next_id)
      × (lookup org key db.conversations ≡ some row.id))
    ⊎ ((row.created ≡ true)
        × (row.id ≡ db.next_id)
        × (lookup org key db.conversations ≡ none)
        × Grown org key db db')

abbrev RowResult : ℕ → Text → Db → Written (Option IngestRow) → Type 0
RowResult org key db (err e) = Unit
RowResult org key db (ok (row, db')) = RowEffect org key db row db'

insert_all-RowResult :
    (org : ℕ) (event : Event) (now period : ℕ) (db : Db)
    → lookup org event.event_id db.conversations ≡ none
    → RowEffect org event.event_id db
        (some (record { id = db.next_id; created = true }))
        (insert_all org event now period db)
unfolding insert_all insert_conversation insert_message insert_usage_event
insert_all-RowResult org event now period db fresh =
    inr (refl, refl, fresh, (_, refl, refl, refl, refl, refl))

module _ (org : ℕ) (event : Event) (now period : ℕ) (db : Db) where
  plain_insert-RowResult :
      (cfg : Config) → RowResult org event.event_id db (plain_insert cfg org event now period db)
  unfolding plain_insert
  plain_insert-RowResult cfg = elim (Option-cases (lookup org event.event_id db.conversations)) [
    | inl fresh ↦ ground (arith, insert_all-RowResult org event now period db fresh)
    | inr (id, there) ↦ ground arith
  ]

  upsert-RowResult :
      (cfg : Config) (stale : Stale)
      → RowResult org event.event_id db (upsert cfg org event now period stale db)
  unfolding upsert conflicting
  upsert-RowResult cfg stale = elim (Option-cases (lookup org event.event_id db.conversations)) [
    | inl fresh ↦ ground (arith, insert_all-RowResult org event now period db fresh)
    | inr (id, there) ↦ ground arith
  ]

  check_then_insert-RowResult :
      (cfg : Config) (stale : Stale)
      → RowResult org event.event_id db (check_then_insert cfg org event now period stale db)
  unfolding check_then_insert
  check_then_insert-RowResult cfg stale =
      elim (Option-cases (lookup org event.event_id db.conversations)) [
        | inl fresh ↦ ground (arith, plain_insert-RowResult cfg)
        | inr (id, there) ↦ ground (arith, plain_insert-RowResult cfg)
      ]

  write_row-RowResult :
      (cfg : Config) (stale : Stale)
      → RowResult org event.event_id db (write_row cfg org event now period stale db)
  unfolding write_row
  write_row-RowResult cfg stale = ground (
    arith,
    plain_insert-RowResult cfg,
    upsert-RowResult cfg stale,
    check_then_insert-RowResult cfg stale,
  )

-- What a transaction may answer.
abbrev ResultEffect : ℕ → Text → Db → Written IngestResult → Type 0
ResultEffect org key db (err e) = Unit
ResultEffect org key db (ok (result, db')) = Effect org key db result db'

made_new :
    (cfg : Config) (retries : ℕ) (row : IngestRow) (used : Option ℕ)
    → row.created ≡ true
    → made (row_result cfg retries row used) ≡ some row.id
unfolding made
made_new cfg retries row used new = ground arith

Grown-bill :
    (org : ℕ) (key : Text) (db db' db'' : Db)
    → Grown org key db db'
    → (db''.conversations ≡ db'.conversations) × (db''.next_id ≡ db'.next_id)
    → Grown org key db db''
Grown-bill org key db db' db'' (c, grown, next, id, org', key') (same, kept) =
    (c, same ∙ grown, kept ∙ next, id, org', key')

bill_row-ResultEffect :
    (cfg : Config) (org : ℕ) (key : Text) (period : ℕ) (stale : Stale) (retries : ℕ) (start : Db)
    (row : IngestRow) (db : Db)
    → RowEffect org key start (some row) db
    → ResultEffect org key start (bill_row cfg org period stale retries row db)
unfolding bill_row made
bill_row-ResultEffect cfg org key period stale retries start row db (inl (old, same, next, there)) =
    rw old (inl (same, next, refl, inr (sym there)))
bill_row-ResultEffect cfg org key period stale retries start row db (inr (new, id, fresh, grown)) =
    elim (Result-cases (bill cfg.quota org period stale db)) [
      | inl (e, failed) ↦ rw new (rw failed tt)
      | inr ((used, db'), billed) ↦ rw new (
          rw billed (
            inr (
              fresh,
              Grown-bill org key start db db' grown
                  (bill-keeps cfg.quota org period stale db used db' billed),
              ap some id,
              made_new cfg retries row (some used) new ∙ ap some id,
            )))
    ]

after_row-ResultEffect :
    (cfg : Config) (org : ℕ) (key : Text) (period : ℕ) (stale : Stale) (retries : ℕ) (db : Db)
    (r : Written (Option IngestRow))
    → RowResult org key db r
    → ResultEffect org key db (after_row cfg org period stale retries r)
unfolding after_row made
after_row-ResultEffect cfg org key period stale retries db (err e) h = tt
after_row-ResultEffect cfg org key period stale retries db (ok (none, db')) (same, next) =
    inl (same, next, refl, inl refl)
after_row-ResultEffect cfg org key period stale retries db (ok (some row, db')) h =
    bill_row-ResultEffect cfg org key period stale retries db row db' h

write_once-Effect :
    (cfg : Config) (org : ℕ) (event : Event) (now period : ℕ) (stale : Stale) (retries : ℕ)
    (db : Db)
    → (result : IngestResult) (db' : Db)
    → on_rows db (write_once cfg org event now period stale retries db) ≡ (ok result, db')
    → Effect org event.event_id db result db'
unfolding write_once
write_once-Effect cfg org event now period stale retries db result db' h =
    returned (after_row cfg org period stale retries (write_row cfg org event now period stale db))
      h
      (after_row-ResultEffect cfg org event.event_id period stale retries db _
        (write_row-RowResult org event now period db cfg stale))
  where
    returned :
        (r : Written IngestResult)
        → on_rows db r ≡ (ok result, db')
        → ResultEffect org event.event_id db r
        → Effect org event.event_id db result db'
    returned (err e) came h = ground arith
    returned (ok (result', db'')) came h =
        subst₂ (Effect org event.event_id db) (cc) (ap (λ p. p.1) came) h

-- A result that `write` returns is of a delivery that either left the conversations as they
-- were and names the event's, or found none and added it.
pub write_event-Effect :
    (cfg : Config) (controls : ℕ → Controls) (stale : ℕ → Stale) (org : ℕ) (event : Event)
    (now period : ℕ) (db : Db) (result : IngestResult)
    → (write_event cfg controls stale org event now period db).0 ≡ ok result
    → Effect org event.event_id db result (write_event cfg controls stale org event now period db).1
unfolding write_event
write_event-Effect cfg controls stale org event now period db result h =
    let (n, came) =
      with_org-ok controls
        (λ n rows. on_rows rows (write_once cfg org event now period (stale n) n rows)) (scope cfg)
        db result h in
    write_once-Effect cfg org event now period (stale n) n db result _ came

-- One that throws leaves the rows as they were.
pub write_event-err :
    (cfg : Config) (controls : ℕ → Controls) (stale : ℕ → Stale) (org : ℕ) (event : Event)
    (now period : ℕ) (db : Db) (e : IngestError)
    → (write_event cfg controls stale org event now period db).0 ≡ err e
    → (write_event cfg controls stale org event now period db).1 ≡ db
unfolding write_event
write_event-err cfg controls stale org event now period db e h =
    with_org-err controls
      (λ n rows. on_rows rows (write_once cfg org event now period (stale n) n rows)) (scope cfg) db
      e h
