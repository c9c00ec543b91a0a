-- ===== src/Entitlements/ApiKey.antt =====
-- Who a request speaks for: `ApiKeyGuard` of apps/backend/src/ingest/api-key.guard.ts, the
-- header of apps/backend/src/tenancy/org-id.decorator.ts, and both in
-- apps/backend/src/entitlements/entitlements.interceptor.ts.
pub mod Bearer
use drills.Prelude.{
  ℕ, ◌+◌, ◌≡◌, refl, ◌∙◌, Bool, true, false, ◌&&◌, ◌||◌, Option, none, some, [], ◌∷◌, ◌++◌, ◌==◌,
  leb, not_b, if◌then◌else◌, Bool-cases, inl, inr, arith,
}
use drills.Prelude.Result.{Result, ok, err}
use drills.Prelude.Text.{Text, is_space, trim}

-- A letter of a pattern with the flag `i`, given in lower case.
unfoldable pub same_letter : ℕ → ℕ → Bool
same_letter lower c = c == lower || c + 32 == lower

-- What follows "Bearer" in any case.
unfoldable pub skip_letters : Text → Text → Option Text
unfolding same_letter
skip_letters [] text = some text
skip_letters (l ∷ letters) [] = none
skip_letters (l ∷ letters) (c ∷ text) =
    let rest = skip_letters letters text in if same_letter l c then rest else none

abbrev pub bearer : Text
bearer = b'b' ∷ b'e' ∷ b'a' ∷ b'r' ∷ b'e' ∷ b'r' ∷ []

unfoldable pub skip_spaces : Text → Text
skip_spaces [] = []
skip_spaces (c ∷ text) = let rest = skip_spaces text in if is_space c then rest else c ∷ text

unfoldable pub no_spaces : Text → Bool
no_spaces [] = true
no_spaces (c ∷ text) = not_b (is_space c) && no_spaces text

-- (\S+)$
unfoldable pub whole_word : Text → Option Text
unfolding no_spaces
whole_word [] = none
whole_word (c ∷ text) = if no_spaces (c ∷ text) then some (c ∷ text) else none

-- \s+(\S+)$
unfoldable pub spaced_word : Option Text → Option Text
unfolding skip_spaces whole_word
spaced_word none = none
spaced_word (some []) = none
spaced_word (some (c ∷ text)) = if is_space c then whole_word (skip_spaces text) else none

-- /^Bearer\s+(\S+)$/i
unfoldable pub bearer_key : Text → Option Text
unfolding skip_letters spaced_word
bearer_key text = spaced_word (skip_letters bearer text)

pub data Unauthorized : Type 0 where
  bearer_required invalid_key : Unauthorized

abbrev or_empty : Option Text → Text
or_empty none = []
or_empty (some text) = text

-- `!orgId`: none, or empty.
unfoldable pub org_found : Option Text → Result Unauthorized Text
org_found none = err invalid_key
org_found (some []) = err invalid_key
org_found (some (c ∷ org)) = ok (c ∷ org)

-- The guard over `app_org_for_api_key` on the digest of a key.
unfoldable pub can_activate :
    (Text → Text) → (Text → Option Text) → Option Text → Result Unauthorized Text
unfolding bearer_key org_found
can_activate hash org_for authorization = elim (bearer_key (trim (or_empty authorization))) [
  | none ↦ err bearer_required
  | some key ↦ org_found (org_for (hash key))
]

-- [0-9]
abbrev is_digit : ℕ → Bool
is_digit c = leb b'0' c && leb c b'9'

unfoldable pub all_digits : Text → Bool
all_digits [] = true
all_digits (c ∷ text) = is_digit c && all_digits text

-- ORG_ID_PATTERN
unfoldable pub is_org_id : Text → Bool
unfolding all_digits
is_org_id [] = false
is_org_id (c ∷ text) = leb b'1' c && leb c b'9' && all_digits text

pub data BadOrgId : Type 0 where
  required not_positive : BadOrgId

-- `OrgId`, on the trimmed header.
unfoldable pub checked_org_id : Text → Result BadOrgId Text
unfolding is_org_id
checked_org_id [] = err required
checked_org_id (c ∷ text) = if is_org_id (c ∷ text) then ok (c ∷ text) else err not_positive

unfoldable pub org_id : Option Text → Result BadOrgId Text
unfolding checked_org_id
org_id none = err required
org_id (some raw) = checked_org_id (trim raw)

-- `header && ORG_ID_PATTERN.test(header) ? header : undefined`
unfoldable pub header_org : Option Text → Option Text
unfolding is_org_id
header_org none = none
header_org (some raw) = let text = trim raw in if is_org_id text then some text else none

-- `keyOrg ?? …`
unfoldable pub request_org : Option Text → Option Text → Option Text
unfolding header_org
request_org (some org) header = some org
request_org none header = header_org header
