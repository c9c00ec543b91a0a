-- ===== src/Conversations/Assign/Race.antt =====
-- Any number of clients, each write one statement on the row: the calls in the order in which
-- Postgres lets them at the row. A refusal's re-read changes nothing, so `between` is the identity.
use drills.Prelude.{
  ℕ, suc, ◌≤◌, ◌≡◌, refl, sym, subst₂, Bool, true, false, ◌&&◌, inl, inr, Option, none, some, List,
  [], ◌∷◌, ◌==◌, leb, if◌then◌else◌, arith, Bool-cases,
}
use drills.Prelude.Result.{is_ok}
use drills.Conversations.Table.{Status, Row, Directory, targets, find, update}
use drills.Conversations.Assign.{
  AssignMode, lww, optimistic, pessimistic, AssignBody, claim, assign, same, is_none, update_status,
  remove,
}
use drills.Conversations.Assign.Laws.{assign-ok_iff, assign-granted, same_iff}
use drills.Conversations.Assign.Statements.{Distinct, test}
use drills.Conversations.Assign.Change.{
  IsPast, Change, unchanged, Change-Distinct, Change-IsPast, compare_and_set-Change,
  assign_locking-Change, update_status-Change, remove-Change,
}

pub data Call : Type 0 where
  assigns : ℕ → ℕ → AssignBody → ℕ → Call
  sets_status : ℕ → ℕ → Status → ℕ → Call
  removes : ℕ → ℕ → Call

-- One request: whether it was answered with success, and the table after it.
unfoldable pub perform : AssignMode → Directory → Call → List Row → Bool × List Row
perform mode names (assigns org id body now) table =
    let (answer, table') = assign mode names org id body now (λ t. t) table in
    (is_ok answer, table')
perform mode names (sets_status org id s now) table =
    let (answer, table') = update_status org id s now table in (is_ok answer, table')
perform mode names (removes org id) table =
    let (answer, table') = remove org id table in (is_ok answer, table')

-- Is this a claim of conversation `id` by a client that read version `v` of it?
abbrev pub claims : ℕ → ℕ → ℕ → Call → Bool
claims org id v (assigns org' id' body now) =
    org' == org && (id' == id && same body.version (some v))
claims org id v _ = false

-- How many clients that read version `v` were told that they have the conversation.
unfoldable pub winners : AssignMode → Directory → ℕ → ℕ → ℕ → List Call → List Row → ℕ
winners mode names org id v [] table = 0
winners mode names org id v (c ∷ cs) table =
    let later = winners mode names org id v cs (perform mode names c table).1 in
    if claims org id v c && (perform mode names c table).0 then suc later else later

perform-Change :
    (mode : AssignMode) (names : Directory) (c : Call) (table : List Row)
    → Change table (perform mode names c table).1
unfolding perform assign
perform-Change lww names (assigns org id body now) table =
    compare_and_set-Change lww names org id body now table
perform-Change pessimistic names (assigns org id body now) table =
    assign_locking-Change names org id body.assignee_id now table
perform-Change optimistic names (assigns org id body now) table =
    elim (Bool-cases (is_none body.version)) [
      | inl e ↦ rw e (unchanged refl)
      | inr e ↦ rw e (compare_and_set-Change optimistic names org id body now table)
    ]
perform-Change mode names (sets_status org id s now) table = update_status-Change org id s now table
perform-Change mode names (removes org id) table = remove-Change org id table

IsPast-claim :
    (org id v : ℕ) (assignee : Option ℕ) (now : ℕ) (table : List Row)
    → test (λ r. r.version == v) (find org id table) ≡ true
    → IsPast org id v (update (targets org id) (claim assignee now) table)
unfolding find update claim
IsPast-claim org id v assignee now [] h = cc
IsPast-claim org id v assignee now (r ∷ rows) h =
    ground (arith, IsPast-claim org id v assignee now rows)

claims_parts :
    (org id v org' id' : ℕ) (body : AssignBody) (now : ℕ) (granted : Bool)
    → claims org id v (assigns org' id' body now) && granted ≡ true
    → (org' ≡ org) × (id' ≡ id) × (same body.version (some v) ≡ true) × (granted ≡ true)
claims_parts org id v org' id' body now granted h = ground arith

not_past_read :
    (v : ℕ) (found : Option Row)
    → test (λ r. r.version == v) found ≡ true
    → test (λ r. leb r.version v) found ≡ false
    → ⊥
not_past_read v none h k = cc
not_past_read v (some row) h k = ground arith

module _ (names : Directory) (org id v : ℕ) where
  -- A claim that reads version `v` and is granted finds it in the row and moves past it.
  module _ (body : AssignBody) (now : ℕ) (table : List Row) (d : Distinct table)
      (read : same body.version (some v) ≡ true)
      (won : is_ok (assign optimistic names org id body now (λ t. t) table).0 ≡ true) where
    granted-find : test (λ r. r.version == v) (find org id table) ≡ true
    granted-find =
        let (row, found, may, room, member, fits) =
          (assign-ok_iff names org id body now (λ t. t) table d).0 won in
        ground (arith, found, may, read, same_iff body.version (some v))

    granted-IsPast : IsPast org id v (assign optimistic names org id body now (λ t. t) table).1
    granted-IsPast =
        let (row, found, may, room, member, fits) =
          (assign-ok_iff names org id body now (λ t. t) table d).0 won in
        rw (assign-granted names org id body now (λ t. t) table d row found may room member fits)
          (IsPast-claim org id v body.assignee_id now table granted-find)

  abbrev Granted : AssignBody → ℕ → List Row → ℕ → ℕ → Type 0
  Granted body now table o i = is_ok (assign optimistic names o i body now (λ t. t) table).0 ≡ true

  past-not_granted :
      (c : Call) (table : List Row)
      → Distinct table
      → IsPast org id v table
      → claims org id v c && (perform optimistic names c table).0 ≡ false
  unfolding perform
  past-not_granted (assigns org' id' body now) table d h =
      elim (Bool-cases (
        claims org id v (assigns org' id' body now)
        && is_ok (assign optimistic names org' id' body now (λ t. t) table).0)) [
          | inl e ↦
              let (same_org, same_id, read, won) = claims_parts org id v org' id' body now _ e in
              let here = subst₂ (Granted body now table) same_org same_id won in
              absurd (not_past_read v _ (granted-find body now table d read here) h)
          | inr e ↦ e
        ]
  past-not_granted (sets_status org' id' s now) table d h = refl
  past-not_granted (removes org' id') table d h = refl

  winners_past :
      (cs : List Call) (table : List Row)
      → Distinct table
      → IsPast org id v table
      → winners optimistic names org id v cs table ≡ 0
  unfolding winners
  winners_past [] table d h = refl
  winners_past (c ∷ cs) table d h =
      let change = perform-Change optimistic names c table in
      rw (past-not_granted c table d h) (
        winners_past cs (perform optimistic names c table).1 (Change-Distinct change d)
          (Change-IsPast org id v change d h))

  granted-IsPast' :
      (c : Call) (table : List Row)
      → Distinct table
      → claims org id v c && (perform optimistic names c table).0 ≡ true
      → IsPast org id v (perform optimistic names c table).1
  unfolding perform
  granted-IsPast' (assigns org' id' body now) table d h =
      let (same_org, same_id, read, won) = claims_parts org id v org' id' body now _ h in
      let here = subst₂ (Granted body now table) same_org same_id won in
      subst₂ (λ o i. IsPast org id v (assign optimistic names o i body now (λ t. t) table).1)
        (sym same_org) (sym same_id) (granted-IsPast body now table d read here)
  granted-IsPast' (sets_status org' id' s now) table d h = cc
  granted-IsPast' (removes org' id') table d h = cc

  -- However many clients claim a conversation at the version that they all read, and whatever
  -- claims, status changes and deletions run between them, at most one is told that it has it.
  pub winners-le-one :
      (cs : List Call) (table : List Row)
      → Distinct table
      → winners optimistic names org id v cs table ≤ 1
  unfolding winners
  winners-le-one [] table d = omega arith
  winners-le-one (c ∷ cs) table d =
      let change = perform-Change optimistic names c table in
      let table' = (perform optimistic names c table).1 in
      elim (Bool-cases (claims org id v c && (perform optimistic names c table).0)) [
        | inl won ↦
            rw
              (
                won,
                winners_past cs table' (Change-Distinct change d) (granted-IsPast' c table d won),
              )
              (omega arith)
        | inr lost ↦ rw lost (winners-le-one cs table' (Change-Distinct change d))
      ]
