-- ===== src/RateLimit/Fixed.antt =====
-- The `fixed` arm of `decide` over `incrWindow` of apps/backend/src/redis/redis.service.ts.
pub mod Burst
use drills.Prelude.{
  ℕ, ◌+◌, ◌-◌, Bool, true, false, Option, none, some, List, [], ◌∷◌, leb, ltb, if◌then◌else◌,
}
use drills.RateLimit.{max}
use drills.RateLimit.Arms.{Decision, seconds, window_ms}

-- The key's counter, until it expires.
pub record Counter : Type 0 where
  pub count : ℕ
  pub expires_at : ℕ

pub record Hit : Type 0 where
  pub count : ℕ
  pub pttl_ms : ℕ

-- INCR and EXPIRE NX: a counter that lives counts on, a new one starts at 1.
unfoldable pub incr : ℕ → ℕ → Option Counter → Counter
incr ttl now none = record { count = 1; expires_at = now + ttl }
incr ttl now (some c) =
    if ltb now c.expires_at
    then record c { count = c.count + 1 }
    else record { count = 1; expires_at = now + ttl }

-- `incrWindow`
unfoldable pub incr_window : ℕ → ℕ → Option Counter → Hit × Option Counter
unfolding incr
incr_window ttl now state =
    let c = incr ttl now state in (record { count = c.count; pttl_ms = c.expires_at - now }, some c)

unfoldable pub decide_fixed : ℕ → ℕ → Option Counter → Decision × Option Counter
unfolding incr_window
decide_fixed limit now state =
    let (hit, state') = incr_window window_ms now state in
    let allowed = leb hit.count limit in
    (
      record {
        limit = limit;
        allowed = allowed;
        remaining = limit - hit.count;
        reset_s = seconds hit.pttl_ms;
        retry_after_s = if allowed then 0 else seconds hit.pttl_ms;
      },
      state',
    )
