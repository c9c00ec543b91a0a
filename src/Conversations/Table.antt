-- ===== src/Conversations/Table.antt =====
-- The `conversations` table as the service's statements see it, and the shapes that it
-- returns. Ids enter through equality and order only, so uuids and bigints are numbers. A
-- `timestamptz` is a count of microseconds, and a `Date` (so `toISOString`) keeps its
-- milliseconds.
use Prim.Native.String.{String}
use drills.Prelude.{ℕ, ◌/◌, Bool, ◌&&◌, Option, none, some, List, [], ◌∷◌, ◌==◌, if◌then◌else◌}

pub data Status : Type 0 where
  open_status closed_status : Status

pub record Row : Type 0 where
  pub id : ℕ
  pub org_id : ℕ
  pub status : Status
  pub assignee_id : Option ℕ
  pub version : ℕ
  pub created_at : ℕ
  pub updated_at : ℕ
  pub last_message_at : ℕ

pub record Summary : Type 0 where
  pub id : ℕ
  pub status : Status
  pub assignee_id : Option ℕ
  pub version : ℕ
  pub created_at : ℕ
  pub updated_at : ℕ
  pub last_message_at : ℕ

abbrev pub to_iso : ℕ → ℕ
to_iso micros = micros / 1000

unfoldable pub to_summary : Row → Summary
to_summary row = record {
  id = row.id;
  status = row.status;
  assignee_id = row.assignee_id;
  version = row.version;
  created_at = to_iso row.created_at;
  updated_at = to_iso row.updated_at;
  last_message_at = to_iso row.last_message_at;
}

pub record ConflictState : Type 0 where
  pub assignee_id : Option ℕ
  pub assignee_name : Option String
  pub version : ℕ
  pub updated_at : ℕ

pub data ConflictMessage : Type 0 where
  assigned_to_name : String → ConflictMessage
  assigned_to_membership : ℕ → ConflictMessage
  changed_since_loaded : ConflictMessage

pub data Refusal : Type 0 where
  bad_request not_found type_error : Refusal
  conflict : ConflictMessage → ConflictState → Refusal
  database : String → Refusal

-- `memberships` with the user's name: `none` for an id that is no membership.
abbrev pub Directory : Type 0
Directory = ℕ → Option String

abbrev pub join_name : Directory → Option ℕ → Option String
join_name names none = none
join_name names (some m) = names m

conflict_message : Directory → Option ℕ → ConflictMessage
conflict_message names none = changed_since_loaded
conflict_message names (some m) = elim (names m) [
  | none ↦ assigned_to_membership m
  | some name ↦ assigned_to_name name
]

unfoldable pub conflict_body : Directory → Row → Refusal
unfolding conflict_message
conflict_body names row = conflict (conflict_message names row.assignee_id) (record {
  assignee_id = row.assignee_id;
  assignee_name = join_name names row.assignee_id;
  version = row.version;
  updated_at = to_iso row.updated_at;
})

-- `WHERE id = $1` under the tenant policy: rows of other organisations do not exist.
abbrev pub targets : ℕ → ℕ → Row → Bool
targets org id row = row.org_id == org && row.id == id

unfoldable pub find : ℕ → ℕ → List Row → Option Row
find org id [] = none
find org id (row ∷ rows) = if targets org id row then some row else find org id rows

-- UPDATE … SET f WHERE p: the table that it leaves.
unfoldable pub update : (Row → Bool) → (Row → Row) → List Row → List Row
update p f [] = []
update p f (row ∷ rows) = (if p row then f row else row) ∷ update p f rows

-- … RETURNING: the rows that it changed.
unfoldable pub returning : (Row → Bool) → (Row → Row) → List Row → List Row
returning p f [] = []
returning p f (row ∷ rows) = let rest = returning p f rows in if p row then f row ∷ rest else rest

-- `version` is an `integer`: adding 1 to the largest one raises 22003.
abbrev pub int4_max : ℕ
int4_max = 2147483647

-- The largest id: `memberships.id` is a `bigint`.
abbrev pub int8_max : ℕ
int8_max = 9223372036854775807

abbrev pub at_int4_max : (Row → Bool) → Row → Bool
at_int4_max p row = p row && row.version == int4_max
