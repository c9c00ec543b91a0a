-- ===== src/Entitlements/Interceptor/Tests.antt =====
-- Two organisations that send requests in turn, over a limiter that only counts, and a header
-- with a key.
use drills.Prelude.{ℕ, ◌+◌, ◌-◌, ◌≡◌, ◌↔◌, true, Option, none, some, List, [], ◌∷◌, ltb}
use drills.Prelude.Text.{Text}
use drills.Prelude.Sorting.{keep}
use drills.RateLimit.Arms.{Decision}
use drills.Entitlements.{invalidate, Plan, free, basic, answered}
use drills.Entitlements.ApiKey.{bearer_key}
use drills.Entitlements.ApiKey.Bearer.{IsBearer, bearer_key_iff}
use drills.Entitlements.Interceptor.{Request, Event, asks, sets, Shared, view}
use drills.Entitlements.Interceptor.Isolation.{is_of, answers_of, serve_all, answers_of-serve_all}

abbrev one : Text
one = b'1' ∷ []

abbrev two : Text
two = b'2' ∷ []

abbrev limits : Plan → Option ℕ
limits plan = some 1

abbrev decide : ℕ → ℕ → ℕ → Option Decision × ℕ
decide limit now used = (
  some (record {
    limit = limit;
    allowed = ltb used limit;
    remaining = limit - used;
    reset_s = 60;
    retry_after_s = 60;
  }),
  used + 1,
)

abbrev with_key : Text → ℕ → Request
with_key org now = record {
  http = true;
  key_org = some org;
  header = none;
  now = now;
  get_reply = answered;
  set_reply = answered;
}

abbrev with_header : Text → ℕ → Request
with_header org now = record (with_key org now) { key_org = none; header = some org }

abbrev events : List Event
events =
    asks (with_key one 10)
    ∷ asks (with_key two 11)
    ∷ sets two basic 12 answered
    ∷ asks (with_header one 13)
    ∷ sets one basic 14 answered
    ∷ asks (with_key two 15)
    ∷ asks (with_key one 16)
    ∷ []

abbrev fixed : Text
fixed = b'f' ∷ b'i' ∷ b'x' ∷ b'e' ∷ b'd' ∷ []

abbrev shared : Shared ℕ
shared = record { plans = λ org_id. some free; entries = λ key. none; buckets = λ key. 0 }

answers_of-serve_all_example :
    answers_of invalidate fixed limits 30000 decide one events shared
    ≡ serve_all invalidate fixed limits 30000 decide
        (keep (is_of one) events)
        (view fixed one shared)
answers_of-serve_all_example =
    answers_of-serve_all invalidate fixed limits 30000 decide one events shared

-- "BEARER  dk"
abbrev authorization : Text
authorization = b'B' ∷ b'E' ∷ b'A' ∷ b'R' ∷ b'E' ∷ b'R' ∷ b' ' ∷ b' ' ∷ b'd' ∷ b'k' ∷ []

abbrev dk : Text
dk = b'd' ∷ b'k' ∷ []

bearer_key_iff_example : (bearer_key authorization ≡ some dk) ↔ IsBearer authorization dk
bearer_key_iff_example = bearer_key_iff authorization dk
