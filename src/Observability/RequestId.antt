-- ===== src/Observability/RequestId.antt =====
-- Request ids: `deriveRequestId` and `requestIdFor` of
-- apps/backend/src/observability/request-context.ts, and the SQL comment of `runOn` of
-- apps/backend/src/postgres/postgres.service.ts, into which an id is written.
pub mod Comment
use drills.Prelude.{
  ℕ, Bool, true, false, ◌&&◌, ◌||◌, Option, none, some, [], ◌∷◌, ◌++◌, length, ◌==◌, leb,
  if◌then◌else◌, not_b,
}
use drills.Prelude.Text.{Text}

-- [A-Za-z0-9_-]
unfoldable pub is_safe_char : ℕ → Bool
is_safe_char c =
    leb b'A' c && leb c b'Z'
    || leb b'a' c && leb c b'z'
    || leb b'0' c && leb c b'9'
    || c == b'_'
    || c == b'-'

unfoldable pub all_safe : Text → Bool
all_safe [] = true
all_safe (c ∷ id) = is_safe_char c && all_safe id

-- SAFE_REQUEST_ID
unfoldable pub is_safe_id : Text → Bool
is_safe_id id = leb 8 (length id) && leb (length id) 64 && all_safe id

-- `currentTraceId() ?? randomUUID()`
abbrev pub or_else : Option Text → Text → Text
or_else none uuid = uuid
or_else (some id) uuid = id

-- No `raw` is a header that is missing, or not a single text.
unfoldable pub derive_request_id : Option Text → Option Text → Text → Text
derive_request_id none trace uuid = or_else trace uuid
derive_request_id (some raw) trace uuid = if is_safe_id raw then raw else or_else trace uuid

-- A request: its header, and the id once it is derived.
pub record Carrier : Type 0 where
  pub header : Option Text
  pub request_id : Option Text

unfoldable pub request_id_for : Option Text → Text → Carrier → Text × Carrier
request_id_for trace uuid carrier = elim carrier.request_id [
  | some id ↦ (id, carrier)
  | none ↦
      let id = derive_request_id carrier.header trace uuid in
      (id, record carrier { request_id = some id })
]

-- " /* rid=" and " */"
abbrev pub opening : Text
opening = b' ' ∷ b'/' ∷ b'*' ∷ b' ' ∷ b'r' ∷ b'i' ∷ b'd' ∷ b'=' ∷ []

abbrev pub closing : Text
closing = b' ' ∷ b'*' ∷ b'/' ∷ []

-- The text that `runOn` sends. An id that is missing or empty is no id.
unfoldable pub sql_for : Bool → Option Text → Text → Text
sql_for tracing none text = text
sql_for tracing (some []) text = text
sql_for tracing (some (c ∷ id)) text =
    if not_b tracing then text ++ (opening ++ ((c ∷ id) ++ closing)) else text
