-- ===== src/Conversations/Assign.antt =====
-- `assign` and the writes beside it, one statement at a time. `between` is what other transactions
-- commit between a statement that changed nothing and the re-read that explains it.
pub mod Statements
pub mod Laws
pub mod Change
pub mod Race
use Prim.Native.String.{String}
use drills.Prelude.{
  ℕ, ◌+◌, Bool, true, false, ◌&&◌, ◌||◌, Option, none, some, List, [], ◌∷◌, any, ◌==◌, leb,
  if◌then◌else◌,
}
use drills.Prelude.Result.{Result, ok, err}
use drills.Conversations.Table.{
  Status, Row, Summary, to_summary, Refusal, bad_request, not_found, type_error, database,
  Directory, conflict_body, targets, find, update, returning, at_int4_max, int4_max, int8_max,
}

pub data AssignMode : Type 0 where
  lww optimistic pessimistic : AssignMode

pub record AssignBody : Type 0 where
  pub assignee_id : Option ℕ
  pub version : Option ℕ

abbrev pub is_none {ℓ} : {A : Type ℓ} → Option A → Bool
is_none none = true
is_none (some _) = false

abbrev pub same : Option ℕ → Option ℕ → Bool
same none _ = false
same (some a) none = false
same (some a) (some b) = a == b

-- `assignee_id` references `memberships`: 23503 for any other id.
abbrev pub is_member : Directory → Option ℕ → Bool
is_member names none = true
is_member names (some m) = elim (names m) [ none ↦ false | some _ ↦ true ]

unfoldable pub claim : Option ℕ → ℕ → Row → Row
claim assignee now row = record row {
  assignee_id = assignee;
  version = row.version + 1;
  updated_at = now;
}

-- `$2::bigint` and the `integer` of `version = $3` at Bind: 22003 out of range, and 22P02 for a
-- version that JavaScript prints with an exponent. `version` is sent where the guard is.
abbrev version_error : Option ℕ → Option String
version_error none = none
version_error (some v) =
    if leb v int4_max
    then none
    else if leb 1000000000000000000000 v
    then some "22P02"
    else some "22003"

abbrev pub fits_bigint : Option ℕ → Bool
fits_bigint none = true
fits_bigint (some a) = leb a int8_max

unfoldable pub bind_error : AssignMode → AssignBody → Option String
bind_error lww body = if fits_bigint body.assignee_id then none else some "22003"
bind_error _ body =
    if fits_bigint body.assignee_id then version_error body.version else some "22003"

-- UPDATE conversations SET assignee_id = $2, version = version + 1, … WHERE p RETURNING …
unfoldable pub update_assignee :
    Directory → (Row → Bool) → Option ℕ → ℕ → List Row → Result Refusal (List Row × List Row)
update_assignee names p assignee now table =
    if any (at_int4_max p) table
    then err (database "22003")
    else if any p table
    then (if is_member names assignee
        then ok (returning p (claim assignee now) table, update p (claim assignee now) table)
        else err (database "23503"))
    else ok ([], table)

-- The text that `assignCompareAndSet` appends to its WHERE: empty on `lww`.
unfoldable pub guard : AssignMode → Option ℕ → Option ℕ → Row → Bool
guard lww assignee version row = true
guard _ assignee version row =
    same version (some row.version)
    && (is_none assignee || (is_none row.assignee_id || same row.assignee_id assignee))

unfoldable pub refusal : Directory → ℕ → ℕ → List Row → Refusal
refusal names org id table = elim (find org id table) [
  | none ↦ not_found
  | some row ↦ conflict_body names row
]

first_or_refuse :
    Directory
    → ℕ
    → ℕ
    → (List Row → List Row)
    → Result Refusal (List Row × List Row)
    → List Row
    → Result Refusal Summary × List Row
first_or_refuse names org id between (err e) table = (err e, table)
first_or_refuse names org id between (ok ([], table')) table =
    (err (refusal names org id (between table')), between table')
first_or_refuse names org id between (ok (row ∷ rows, table')) table = (ok (to_summary row), table')

unfoldable pub compare_and_set :
    AssignMode
    → Directory
    → ℕ
    → ℕ
    → AssignBody
    → ℕ
    → (List Row → List Row)
    → List Row
    → Result Refusal Summary × List Row
unfolding first_or_refuse
compare_and_set mode names org id body now between table = elim (bind_error mode body) [
  | some code ↦ (err (database code), table)
  | none ↦
      first_or_refuse names org id between
        (update_assignee names
          (λ row. targets org id row && guard mode body.assignee_id body.version row)
          body.assignee_id now table)
        table
]

-- `assigneeId !== null && row.assignee_id !== null && row.assignee_id !== assigneeId`
abbrev pub held_by_another : Option ℕ → Option ℕ → Bool
held_by_another (some a) (some b) = if a == b then false else true
held_by_another _ _ = false

-- `toSummary(updated.rows[0])` throws a TypeError if there is no such row.
summary_of_first :
    Result Refusal (List Row × List Row) → List Row → Result Refusal Summary × List Row
summary_of_first (err e) table = (err e, table)
summary_of_first (ok ([], table')) table = (err type_error, table)
summary_of_first (ok (row ∷ rows, table')) table = (ok (to_summary row), table')

-- The row is read FOR UPDATE, so nothing commits to it before the UPDATE.
unfoldable pub assign_locking :
    Directory → ℕ → ℕ → Option ℕ → ℕ → List Row → Result Refusal Summary × List Row
unfolding summary_of_first
assign_locking names org id assignee now table = elim (find org id table) [
  | none ↦ (err not_found, table)
  | some row ↦
      if held_by_another assignee row.assignee_id
      then (err (conflict_body names row), table)
      else if fits_bigint assignee
      then summary_of_first (update_assignee names (targets org id) assignee now table) table
      else (err (database "22003"), table)
]

unfoldable pub assign :
    AssignMode
    → Directory
    → ℕ
    → ℕ
    → AssignBody
    → ℕ
    → (List Row → List Row)
    → List Row
    → Result Refusal Summary × List Row
unfolding compare_and_set assign_locking
assign pessimistic names org id body now between table =
    assign_locking names org id body.assignee_id now table
assign optimistic names org id body now between table =
    if is_none body.version
    then (err bad_request, table)
    else compare_and_set optimistic names org id body now between table
assign lww names org id body now between table =
    compare_and_set lww names org id body now between table

set_status : Status → ℕ → Row → Row
set_status s now row = record row { status = s; version = row.version + 1; updated_at = now }

first_or_not_found : List Row → List Row → Result Refusal Summary × List Row
first_or_not_found [] table = (err not_found, table)
first_or_not_found (row ∷ rows) table = (ok (to_summary row), table)

unfoldable pub update_status : ℕ → ℕ → Status → ℕ → List Row → Result Refusal Summary × List Row
unfolding set_status first_or_not_found
update_status org id s now table =
    if any (at_int4_max (targets org id)) table
    then (err (database "22003"), table)
    else first_or_not_found (returning (targets org id) (set_status s now) table)
        (update (targets org id) (set_status s now) table)

unfoldable pub delete : (Row → Bool) → List Row → List Row
delete p [] = []
delete p (row ∷ rows) = let rest = delete p rows in if p row then rest else row ∷ rest

unfoldable pub remove : ℕ → ℕ → List Row → Result Refusal (Unit {0}) × List Row
unfolding delete
remove org id table =
    if any (targets org id) table
    then (ok tt, delete (targets org id) table)
    else (err not_found, table)

unfoldable pub get : ℕ → ℕ → List Row → Result Refusal Summary
get org id table = elim (find org id table) [
  | none ↦ err not_found
  | some row ↦ ok (to_summary row)
]
