-- ===== src/Conversations/Assign/Laws.antt =====
-- What the claim answers and writes on every branch, over a table in which an id names one row.
use drills.Prelude.{
  ℕ, ◌≡◌, ◌≢◌, subst, ◌↔◌, true, ◌⊎◌, inl, inr, Option, none, some, List, arith, not_b, Bool-cases,
  Option-cases,
}
use drills.Prelude.Result.{ok, err, is_ok}
use drills.Conversations.Table.{
  Row, to_summary, database, Directory, targets, find, update, int4_max,
}
use drills.Conversations.Assign.{
  optimistic, pessimistic, AssignBody, same, is_member, claim, update_assignee, guard, refusal,
  first_or_refuse, compare_and_set, bind_error, fits_bigint, held_by_another, assign_locking,
  assign,
}
use drills.Conversations.Assign.Statements.{
  Distinct, find_if, targets_all, statement_answer, update_assignee-find,
}

-- The rule that both arms enforce, on one row and the version that the caller read.
abbrev pub MayClaim : AssignBody → Row → Type 0
MayClaim body row =
    (body.version ≡ some row.version)
    × ((body.assignee_id ≡ none) ⊎ (row.assignee_id ≡ none) ⊎ (row.assignee_id ≡ body.assignee_id))

pub same_iff : (a b : Option ℕ) → (same a b ≡ true) ↔ ((a ≡ b) × (a ≢ none))
same_iff none b = ground arith
same_iff (some a) none = ground arith
same_iff (some a) (some b) = ground arith

guard_iff :
    (body : AssignBody) (row : Row)
    → (guard optimistic body.assignee_id body.version row ≡ true) ↔ MayClaim body row
unfolding guard
guard_iff body row =
    ground
      (arith, same_iff body.version (some row.version), same_iff row.assignee_id body.assignee_id)

module _ (names : Directory) (org id : ℕ) (body : AssignBody) (now : ℕ)
    (between : List Row → List Row) (table : List Row) (h : Distinct table) where
  compare_and_set-find :
      bind_error optimistic body ≡ none
      → compare_and_set optimistic names org id body now between table
        ≡ first_or_refuse names org id between
            (statement_answer names org id body.assignee_id now table
              (find_if (guard optimistic body.assignee_id body.version) (find org id table)))
            table
  unfolding compare_and_set
  compare_and_set-find fits = rw (
    compare_and_set,
    fits,
    update_assignee-find names org id (guard optimistic body.assignee_id body.version)
        body.assignee_id now table h,
  )

  -- On `optimistic`, over a table with distinct ids: a request with a version is granted exactly
  -- when the organisation has the row, the version is the row's, the request releases the row or
  -- the row is free or already the claimant's, the version can still grow, the claimant is a
  -- member, and the numbers sent are in the range of their types.
  pub assign-ok_iff : (is_ok (assign optimistic names org id body now between table).0 ≡ true) ↔ (
      (row : Row) × (find org id table ≡ some row)
      × MayClaim body row
      × (row.version ≢ int4_max)
      × (is_member names body.assignee_id ≡ true)
      × (bind_error optimistic body ≡ none))
  unfolding assign first_or_refuse
  assign-ok_iff = (to, from)
    where
      to :
          is_ok (assign optimistic names org id body now between table).0 ≡ true
          → (row : Row) × (find org id table ≡ some row)
            × MayClaim body row
            × (row.version ≢ int4_max)
            × (is_member names body.assignee_id ≡ true)
            × (bind_error optimistic body ≡ none)
      to e = elim (Option-cases (bind_error optimistic body)) [
        | inr (code, f) ↦ absurd (ground (arith, f))
        | inl fits ↦ elim (Option-cases (find org id table)) [
          | inl f ↦ absurd (ground (arith, compare_and_set-find fits, f))
          | inr (row, f) ↦ elim (Bool-cases (guard optimistic body.assignee_id body.version row)) [
            | inl may ↦ (
              row,
              f,
              (guard_iff body row).0 may,
              ground (arith, compare_and_set-find fits, f, may),
              ground (arith, compare_and_set-find fits, f, may),
              fits,
            )
            | inr no_claim ↦ absurd (ground (arith, compare_and_set-find fits, f, no_claim))
          ]
        ]
      ]

      from :
          (row : Row) × (find org id table ≡ some row)
            × MayClaim body row
            × (row.version ≢ int4_max)
            × (is_member names body.assignee_id ≡ true)
            × (bind_error optimistic body ≡ none)
          → is_ok (assign optimistic names org id body now between table).0 ≡ true
      from (row, found, may, room, member, fits) =
          ground (arith, compare_and_set-find fits, found, (guard_iff body row).1 may)

  -- A granted claim writes its own row only: the assignee, the next version and the time.
  pub assign-granted :
      (row : Row)
      → find org id table ≡ some row
      → MayClaim body row
      → row.version ≢ int4_max
      → is_member names body.assignee_id ≡ true
      → bind_error optimistic body ≡ none
      → assign optimistic names org id body now between table ≡ (
        ok (to_summary (claim body.assignee_id now row)),
        update (targets org id) (claim body.assignee_id now) table,
      )
  unfolding assign first_or_refuse
  assign-granted row found may room member fits =
      rw (compare_and_set-find fits, found, (guard_iff body row).1 may) (ground arith)

  -- A request with a version that may not claim writes nothing. A number out of the range of its
  -- type is answered by the error of Postgres. Any other request is answered from the table as it
  -- stands when the refusal is written: 404 where the row is gone, and 409 with the row's
  -- current owner and version where it is there.
  pub assign-refused :
      body.version ≢ none
      → ((row : Row) → find org id table ≡ some row → ¬ MayClaim body row)
      → assign optimistic names org id body now between table ≡ elim (bind_error optimistic body) [
        | some code ↦ (err (database code), table)
        | none ↦ (err (refusal names org id (between table)), between table)
      ]
  unfolding assign first_or_refuse
  assign-refused versioned not_may = elim (Option-cases (bind_error optimistic body)) [
    | inr (code, f) ↦ rw (f, compare_and_set) (ground arith)
    | inl fits ↦ elim (Option-cases (find org id table)) [
      | inl e ↦ rw (fits, compare_and_set-find fits, e) (ground arith)
      | inr (row, e) ↦ elim (Bool-cases (guard optimistic body.assignee_id body.version row)) [
        | inl may ↦ absurd (not_may row e ((guard_iff body row).0 may))
        | inr no_claim ↦ rw (fits, compare_and_set-find fits, e, no_claim) (ground arith)
      ]
    ]
  ]

guard-held :
    (assignee : Option ℕ) (row : Row)
    → guard optimistic assignee (some row.version) row
      ≡ not_b (held_by_another assignee row.assignee_id)
unfolding guard
guard-held none row = ground arith
guard-held (some a) row = ground arith

bind_error-fits :
    (assignee : Option ℕ) (v : ℕ)
    → bind_error optimistic (record { assignee_id = assignee; version = some v }) ≡ none
    → fits_bigint assignee ≡ true
unfolding bind_error
bind_error-fits assignee v h = elim (Bool-cases (fits_bigint assignee)) [
  | inl e ↦ e
  | inr e ↦ absurd (cc (rw e at h))
]

-- The two arms enforce one rule: where the membership's id is in the range of a bigint and the
-- row's version in that of an integer, `pessimistic` answers and writes what `optimistic` does for
-- a client that read the version under the lock.
pub assign_pessimistic-optimistic :
    (names : Directory) (org id : ℕ) (body : AssignBody) (now : ℕ) (between : List Row → List Row)
    (table : List Row) (row : Row)
    → Distinct table
    → find org id table ≡ some row
    → bind_error optimistic (record body { version = some row.version }) ≡ none
    → assign pessimistic names org id body now between table
      ≡ assign optimistic names org id
          (record body { version = some row.version })
          now
          (λ t. t)
          table
unfolding assign assign_locking first_or_refuse refusal
assign_pessimistic-optimistic names org id body now between table row h found fits =
    let all = λ (r : Row). true in
    let locked : update_assignee names (targets org id) body.assignee_id now table
        ≡ statement_answer names org id body.assignee_id now table (some row) =
      subst
        (λ p.
          update_assignee names p body.assignee_id now table
          ≡ statement_answer names org id body.assignee_id now table (some row))
        (targets_all org id)
        (rw found at (update_assignee-find names org id all body.assignee_id now table h)) in
    let versioned : AssignBody = record body { version = some row.version } in
    let in_range : fits_bigint body.assignee_id ≡ true =
      bind_error-fits body.assignee_id row.version fits in
    let optimistic_claim = compare_and_set-find names org id versioned now (λ t. t) table h fits in
    ground (arith, found, locked, optimistic_claim, in_range, guard-held body.assignee_id row)
