-- ===== src/RateLimit.antt =====
-- The ingest rate limiter: the TAKE_TOKEN script of apps/backend/src/redis/redis.service.ts
-- and the bucket arms of apps/backend/src/entitlements/entitlements.service.ts. Tokens are
-- counted in 1/60000 of a token. A bucket of `limit` refills `limit` per 60 seconds, so it
-- gains exactly `limit` such units in a millisecond, and every quotient of the script is one
-- of whole numbers; the rounding of its doubles is not modelled. A time is in milliseconds.
pub mod Expiry
pub mod Bounds
pub mod Arms
pub mod Fixed
mod Tests
use drills.Prelude.{
  ℕ, suc, ◌+◌, ◌-◌, ◌*◌, ◌/◌, ◌≤◌, ◌≡◌, min, Bool, true, false, Option, none, some, leb, ltb,
  if◌then◌else◌,
}
use drills.Prelude.Division.{ceil_div}

-- One Redis key whose value is written with a time to live. What `read` gives is gone once that
-- time is over; the server's own state is not fixed.
pub record Key (V : Type 0) : Type 1 where
  pub State : Type 0
  pub read : ℕ → State → Option V
  pub write : ℕ → V → ℕ → State → State
  pub read-write :
      (now later : ℕ) (v : V) (ttl : ℕ) (s : State)
      → now ≤ later
      → read later (write now v ttl s) ≡ (if ltb later (now + ttl) then some v else none)

pub record Bucket : Type 0 where
  pub tokens : ℕ
  pub ts : ℕ

abbrev pub unit : ℕ
unit = 60000

abbrev pub capacity : ℕ → ℕ
capacity limit = limit * unit

abbrev pub max : ℕ → ℕ → ℕ
max a b = if leb a b then b else a

-- The tokens at `now`; a clock that went back adds none.
unfoldable pub refill : ℕ → ℕ → Bucket → ℕ
refill limit now b = min (capacity limit) (b.tokens + (now - b.ts) * limit)

-- `tonumber(state[1]) or capacity`, `tonumber(state[2]) or now`
abbrev pub or_full : ℕ → ℕ → Option Bucket → Bucket
or_full limit now none = record { tokens = capacity limit; ts = now }
or_full limit now (some b) = b

pub record Reply : Type 0 where
  pub allowed : Bool
  pub tokens : ℕ
  pub full_ms : ℕ
  pub retry_ms : ℕ

-- What is left after the request: one token less if there is one.
unfoldable pub after_take : ℕ → ℕ
after_take tokens = if leb unit tokens then tokens - unit else tokens

unfoldable pub full_ms : ℕ → ℕ → ℕ
full_ms limit left = ceil_div (capacity limit - left) limit

unfoldable pub reply : ℕ → ℕ → Reply
unfolding after_take full_ms
reply limit tokens = record {
  allowed = leb unit tokens;
  tokens = after_take tokens / unit;
  full_ms = full_ms limit (after_take tokens);
  retry_ms = if leb unit tokens then 0 else ceil_div (unit - tokens) limit;
}

-- The script, atomic on its key: read, refill, take, write back with the time to live.
unfoldable pub take_token : (k : Key Bucket) → ℕ → ℕ → k.State → Reply × k.State
unfolding refill reply
take_token k limit now s =
    let tokens = refill limit now (or_full limit now (k.read now s)) in
    let left = after_take tokens in
    (
      reply limit tokens,
      k.write now (record { tokens = left; ts = now }) (max (full_ms limit left) 1) s,
    )
