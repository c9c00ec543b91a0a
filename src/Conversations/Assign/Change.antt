-- ===== src/Conversations/Assign/Change.antt =====
-- What the writes of the service may do to the table of conversations, and what that keeps.
use drills.Prelude.{
  ℕ, ◌≤◌, ◌≡◌, ◌≢◌, refl, sym, subst, Bool, false, ◌&&◌, inl, inr, Option, List, [], ◌∷◌, any, leb,
  if◌then◌else◌, All, arith, Bool-cases, Option-cases,
}
use drills.Prelude.Result.{Result, ok, err}
use drills.Conversations.Table.{Status, Row, Directory, targets, find, update, Refusal, at_int4_max}
use drills.Conversations.Assign.{
  AssignMode, AssignBody, claim, update_assignee, compare_and_set, bind_error, fits_bigint,
  first_or_refuse, summary_of_first, assign_locking, held_by_another, guard, set_status,
  first_or_not_found, update_status, delete, remove,
}
use drills.Conversations.Assign.Statements.{Distinct, test, absent_of_targets}

-- The row is gone, or past version `v`.
abbrev pub IsPast : ℕ → ℕ → ℕ → List Row → Type 0
IsPast org id v table = test (λ r. leb r.version v) (find org id table) ≡ false

abbrev pub Grows : (Row → Row) → Type 0
Grows f = (r : Row) → (f r).id ≡ r.id × (f r).org_id ≡ r.org_id × r.version ≤ (f r).version

-- What one call may do to the table.
pub data Change (table table' : List Row) : Type 0 where
  unchanged : table' ≡ table → Change table table'
  grown :
      (p : Row → Bool) (f : Row → Row) → Grows f → table' ≡ update p f table → Change table table'
  deleted : (org id : ℕ) → table' ≡ delete (targets org id) table → Change table table'

absent-update :
    (p : Row → Bool) (f : Row → Row) (k : ℕ) (table : List Row)
    → Grows f
    → All (λ r. r.id ≢ k) table
    → All (λ r. r.id ≢ k) (update p f table)
unfolding update
absent-update p f k [] g h = tt
absent-update p f k (r ∷ rows) g h = (ground (arith, g r, h.0), absent-update p f k rows g h.1)

id-update :
    (p : Row → Bool) (f : Row → Row) (r : Row) → Grows f → (if p r then f r else r).id ≡ r.id
id-update p f r g = ground (arith, g r)

Distinct-update :
    (p : Row → Bool) (f : Row → Row) (table : List Row)
    → Grows f
    → Distinct table
    → Distinct (update p f table)
unfolding update
Distinct-update p f [] g h = tt
Distinct-update p f (r ∷ rows) g h = (
  subst (λ k. All (λ x. x.id ≢ k) (update p f rows)) (sym (id-update p f r g))
      (absent-update p f r.id rows g h.0),
  Distinct-update p f rows g h.1,
)

absent-delete :
    (p : Row → Bool) (k : ℕ) (table : List Row)
    → All (λ r. r.id ≢ k) table
    → All (λ r. r.id ≢ k) (delete p table)
unfolding delete
absent-delete p k [] h = tt
absent-delete p k (r ∷ rows) h = ground (arith, absent-delete p k rows h.1)

Distinct-delete : (p : Row → Bool) (table : List Row) → Distinct table → Distinct (delete p table)
unfolding delete
Distinct-delete p [] h = tt
Distinct-delete p (r ∷ rows) h =
    ground (arith, Distinct-delete p rows h.1, absent-delete p r.id rows h.0)

IsPast-update :
    (org id v : ℕ) (p : Row → Bool) (f : Row → Row) (table : List Row)
    → Grows f
    → IsPast org id v table
    → IsPast org id v (update p f table)
unfolding find update
IsPast-update org id v p f [] g h = refl
IsPast-update org id v p f (r ∷ rows) g h = ground (arith, g r, IsPast-update org id v p f rows g)

IsPast-absent :
    (org id v : ℕ) (table : List Row) → All (λ r. r.id ≢ id) table → IsPast org id v table
unfolding find
IsPast-absent org id v [] h = refl
IsPast-absent org id v (r ∷ rows) h = ground (arith, IsPast-absent org id v rows h.1)

IsPast-delete :
    (org id v org' id' : ℕ) (table : List Row)
    → IsPast org id v table
    → Distinct table
    → IsPast org id v (delete (targets org' id') table)
unfolding find delete
IsPast-delete org id v org' id' [] h d = refl
IsPast-delete org id v org' id' (r ∷ rows) h d = elim (Bool-cases (targets org id r)) [
  | inl e ↦
      let rest = delete (targets org' id') rows in
      let absent =
        absent-delete (targets org' id') id rows (absent_of_targets org id r rows e d.0) in
      ground (arith, e, IsPast-absent org id v rest absent)
  | inr e ↦ ground (arith, e, IsPast-delete org id v org' id' rows)
]

pub Change-Distinct :
    {table table' : List Row} → Change table table' → Distinct table → Distinct table'
Change-Distinct (unchanged e) d = rw e d
Change-Distinct (grown p f g e) d = rw e (Distinct-update p f _ g d)
Change-Distinct (deleted org id e) d = rw e (Distinct-delete _ _ d)

pub Change-IsPast :
    {table table' : List Row} (org id v : ℕ)
    → Change table table'
    → Distinct table
    → IsPast org id v table
    → IsPast org id v table'
Change-IsPast org id v (unchanged e) d h = rw e h
Change-IsPast org id v (grown p f g e) d h = rw e (IsPast-update org id v p f _ g h)
Change-IsPast org id v (deleted org' id' e) d h = rw e (IsPast-delete org id v org' id' _ h d)

claim-Grows : (assignee : Option ℕ) (now : ℕ) → Grows (claim assignee now)
unfolding claim
claim-Grows assignee now r = ground arith

update_assignee-Change :
    (names : Directory) (p : Row → Bool) (assignee : Option ℕ) (now : ℕ) (table table' : List Row)
    (rows : List Row)
    → update_assignee names p assignee now table ≡ ok (rows, table')
    → Change table table'
unfolding update_assignee
update_assignee-Change names p assignee now table table' rows e = elim (Bool-cases (any p table)) [
  | inl some_row ↦
      grown p (claim assignee now) (claim-Grows assignee now) (ground (arith, some_row))
  | inr no_row ↦ unchanged (ground (arith, no_row))
]

pub compare_and_set-Change :
    (mode : AssignMode) (names : Directory) (org id : ℕ) (body : AssignBody) (now : ℕ)
    (table : List Row)
    → Change table (compare_and_set mode names org id body now (λ t. t) table).1
unfolding compare_and_set
compare_and_set-Change mode names org id body now table =
    elim (Option-cases (bind_error mode body)) [
      | inl fits ↦ rw (fits, compare_and_set) (go _ refl)
      | inr (code, out) ↦ rw (out, compare_and_set) (unchanged refl)
    ]
  where
    p : Row → Bool
    p = λ row. targets org id row && guard mode body.assignee_id body.version row

    go :
        (r : Result Refusal (List Row × List Row))
        → update_assignee names p body.assignee_id now table ≡ r
        → Change table (first_or_refuse names org id (λ t. t) r table).1
    go (err e) q = unchanged refl
    go (ok ([], table')) q = update_assignee-Change names p body.assignee_id now table table' [] q
    go (ok (row ∷ rows, table')) q =
        update_assignee-Change names p body.assignee_id now table table' (row ∷ rows) q

pub assign_locking-Change :
    (names : Directory) (org id : ℕ) (assignee : Option ℕ) (now : ℕ) (table : List Row)
    → Change table (assign_locking names org id assignee now table).1
unfolding assign_locking
assign_locking-Change names org id assignee now table = elim (Option-cases (find org id table)) [
  | inl e ↦ rw (e, assign_locking) (unchanged refl)
  | inr (row, e) ↦ elim (Bool-cases (held_by_another assignee row.assignee_id)) [
    | inl held ↦ rw (e, assign_locking, held) (unchanged refl)
    | inr free ↦ elim (Bool-cases (fits_bigint assignee)) [
      | inl fits ↦ rw (e, assign_locking, free, fits) (go _ refl)
      | inr out ↦ rw (e, assign_locking, free, out) (unchanged refl)
    ]
  ]
]
  where
    go :
        (r : Result Refusal (List Row × List Row))
        → update_assignee names (targets org id) assignee now table ≡ r
        → Change table (summary_of_first r table).1
    go (err e) q = unchanged refl
    go (ok ([], table')) q = unchanged refl
    go (ok (row ∷ rows, table')) q =
        update_assignee-Change names (targets org id) assignee now table table' (row ∷ rows) q

set_status-Grows : (s : Status) (now : ℕ) → Grows (set_status s now)
unfolding set_status
set_status-Grows s now r = ground arith

first_or_not_found-1 : (rows table : List Row) → (first_or_not_found rows table).1 ≡ table
unfolding first_or_not_found
first_or_not_found-1 [] table = refl
first_or_not_found-1 (r ∷ rows) table = refl

pub update_status-Change :
    (org id : ℕ) (s : Status) (now : ℕ) (table : List Row)
    → Change table (update_status org id s now table).1
unfolding update_status
update_status-Change org id s now table =
    elim (Bool-cases (any (at_int4_max (targets org id)) table)) [
      | inl full ↦ rw full (unchanged refl)
      | inr room ↦ rw room (
          grown (targets org id) (set_status s now) (set_status-Grows s now)
            (first_or_not_found-1 _ _))
    ]

pub remove-Change : (org id : ℕ) (table : List Row) → Change table (remove org id table).1
unfolding remove
remove-Change org id table = elim (Bool-cases (any (targets org id) table)) [
  | inl some_row ↦ rw some_row (deleted org id refl)
  | inr no_row ↦ rw no_row (unchanged refl)
]
