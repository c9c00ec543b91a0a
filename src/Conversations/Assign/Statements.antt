-- ===== src/Conversations/Assign/Statements.antt =====
-- One statement under the tenant policy, over a table in which an id names one row: its effect is
-- that of a test on the row that `find` gives.
use drills.Prelude.{
  ℕ, ◌≡◌, ◌≢◌, refl, ◌∙◌, ap, subst, fun_ext, Bool, true, false, ◌&&◌, inl, inr, Option, none, some,
  List, [], ◌∷◌, any, ◌==◌, if◌then◌else◌, All, arith, Bool-cases, Option-cases,
}
use drills.Prelude.Result.{Result, ok, err}
use drills.Conversations.Table.{
  Row, Refusal, database, Directory, targets, find, update, returning, at_int4_max, int4_max,
}
use drills.Conversations.Assign.{is_member, claim, update_assignee}

-- The primary key of `conversations`.
abbrev pub Distinct : List Row → Type 0
Distinct [] = Unit
Distinct (row ∷ rows) = All (λ r. r.id ≢ row.id) rows × Distinct rows

pub any_absent :
    (org id : ℕ) (g : Row → Bool) (rows : List Row)
    → All (λ r. r.id ≢ id) rows
    → any (λ r. targets org id r && g r) rows ≡ false
any_absent org id g [] h = refl
any_absent org id g (r ∷ rows) h = ground (arith, any_absent org id g rows h.1)

pub returning_absent :
    (org id : ℕ) (g : Row → Bool) (f : Row → Row) (rows : List Row)
    → All (λ r. r.id ≢ id) rows
    → returning (λ r. targets org id r && g r) f rows ≡ []
unfolding returning
returning_absent org id g f [] h = refl
returning_absent org id g f (r ∷ rows) h = ground (arith, returning_absent org id g f rows h.1)

abbrev pub find_if : (Row → Bool) → Option Row → Option Row
find_if g none = none
find_if g (some row) = if g row then some row else none

abbrev pub test : (Row → Bool) → Option Row → Bool
test g none = false
test g (some row) = g row

abbrev pub rows_of : (Row → Row) → Option Row → List Row
rows_of f none = []
rows_of f (some row) = f row ∷ []

pub absent_of_targets :
    (org id : ℕ) (r : Row) (rows : List Row)
    → targets org id r ≡ true
    → All (λ x. x.id ≢ r.id) rows
    → All (λ x. x.id ≢ id) rows
absent_of_targets org id r rows e h =
    let same_id : r.id ≡ id = ground arith in subst (λ k. All (λ x. x.id ≢ k) rows) same_id h

-- With one row for an id, a statement's predicate is a test of the row that `find` gives.
pub any-find :
    (org id : ℕ) (g : Row → Bool) (table : List Row)
    → Distinct table
    → any (λ r. targets org id r && g r) table ≡ test g (find org id table)
unfolding find
any-find org id g [] h = refl
any-find org id g (r ∷ rows) h = elim (Bool-cases (targets org id r)) [
  | inl e ↦
      let absent = any_absent org id g rows (absent_of_targets org id r rows e h.0) in
      rw (e, absent) (ground arith)
  | inr e ↦ rw e (any-find org id g rows h.1)
]

pub returning-find :
    (org id : ℕ) (g : Row → Bool) (f : Row → Row) (table : List Row)
    → Distinct table
    → returning (λ r. targets org id r && g r) f table ≡ rows_of f (find_if g (find org id table))
unfolding find returning
returning-find org id g f [] h = refl
returning-find org id g f (r ∷ rows) h = elim (Bool-cases (targets org id r)) [
  | inl e ↦
      let absent = returning_absent org id g f rows (absent_of_targets org id r rows e h.0) in
      rw (e, absent) (ground arith)
  | inr e ↦ rw e (returning-find org id g f rows h.1)
]

update_absent :
    (org id : ℕ) (g g' : Row → Bool) (f : Row → Row) (rows : List Row)
    → All (λ r. r.id ≢ id) rows
    → update (λ r. targets org id r && g r) f rows ≡ update (λ r. targets org id r && g' r) f rows
unfolding update
update_absent org id g g' f [] h = refl
update_absent org id g g' f (r ∷ rows) h = ground (arith, update_absent org id g g' f rows h.1)

-- Two tests that agree on the row of the id write the same table.
pub update-find :
    (org id : ℕ) (g g' : Row → Bool) (f : Row → Row) (table : List Row)
    → Distinct table
    → test g (find org id table) ≡ test g' (find org id table)
    → update (λ r. targets org id r && g r) f table ≡ update (λ r. targets org id r && g' r) f table
unfolding find update
update-find org id g g' f [] h k = refl
update-find org id g g' f (r ∷ rows) h k = elim (Bool-cases (targets org id r)) [
  | inl e ↦
      let absent = update_absent org id g g' f rows (absent_of_targets org id r rows e h.0) in
      let agree : g r ≡ g' r = rw (e, find) at k in rw (e, agree, absent)
  | inr e ↦ let ih = update-find org id g g' f rows h.1 (rw (e, find) at k) in rw (e, ih)
]

pub targets_all : (org id : ℕ) → (λ r. targets org id r && true) ≡ targets org id
targets_all org id =
    fun_ext λ r. elim (Bool-cases (targets org id r)) [ inl e ↦ rw e | inr e ↦ rw e ]

at_int4_max-targets :
    (org id : ℕ) (g : Row → Bool)
    → at_int4_max (λ r. targets org id r && g r)
      ≡ (λ r. targets org id r && (g r && r.version == int4_max))
at_int4_max-targets org id g =
    fun_ext λ r. elim (Bool-cases (targets org id r)) [ inl e ↦ rw e | inr e ↦ rw e ]

-- What one UPDATE of the claim answers, from the one row that its id names.
abbrev pub statement_answer :
    Directory → ℕ → ℕ → Option ℕ → ℕ → List Row → Option Row → Result Refusal (List Row × List Row)
statement_answer names org id assignee now table none = ok ([], table)
statement_answer names org id assignee now table (some row) =
    if row.version == int4_max
    then err (database "22003")
    else if is_member names assignee
    then ok (claim assignee now row ∷ [], update (targets org id) (claim assignee now) table)
    else err (database "23503")

pub update_assignee-find :
    (names : Directory) (org id : ℕ) (g : Row → Bool) (assignee : Option ℕ) (now : ℕ)
    (table : List Row)
    → Distinct table
    → update_assignee names (λ r. targets org id r && g r) assignee now table
      ≡ statement_answer names org id assignee now table (find_if g (find org id table))
unfolding update_assignee
update_assignee-find names org id g assignee now table h = elim (Option-cases (find org id table)) [
  | inl e ↦ rw (max, some_row, e)
  | inr (row, e) ↦ elim (Bool-cases (g row)) [
    | inl may ↦
        let agree : test g (find org id table) ≡ test (λ _. true) (find org id table) =
          rw (e, may) in
        let written =
          update-find org id g (λ _. true) (claim assignee now) table h agree
          ∙ ap (λ p. update p (claim assignee now) table) (targets_all org id) in
        rw (max, some_row, changed, written, e, may)
    | inr not_may ↦ rw (max, some_row, e, not_may)
  ]
]
  where
    max :
        any (at_int4_max (λ r. targets org id r && g r)) table
        ≡ test (λ r. g r && r.version == int4_max) (find org id table)
    max =
        rw (at_int4_max-targets org id g)
          (any-find org id (λ r. g r && r.version == int4_max) table h)

    some_row : any (λ r. targets org id r && g r) table ≡ test g (find org id table)
    some_row = any-find org id g table h

    changed :
        returning (λ r. targets org id r && g r) (claim assignee now) table
        ≡ rows_of (claim assignee now) (find_if g (find org id table))
    changed = returning-find org id g (claim assignee now) table h
