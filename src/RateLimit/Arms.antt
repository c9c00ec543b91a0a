-- ===== src/RateLimit/Arms.antt =====
-- `decide` of apps/backend/src/entitlements/entitlements.service.ts: the arms that keep their state
-- in one value, each as one undisturbed read, step and write.
pub mod Laws
use drills.Prelude.{
  ℕ, ◌+◌, ◌-◌, ◌*◌, ◌/◌, Bool, true, false, Option, none, some, leb, ltb, if◌then◌else◌,
}
use drills.Prelude.Division.{ceil_div}
use drills.RateLimit.{
  Key, Bucket, unit, capacity, max, refill, or_full, Reply, after_take, full_ms, take_token,
}

pub record Decision : Type 0 where
  pub limit : ℕ
  pub allowed : Bool
  pub remaining : ℕ
  pub reset_s : ℕ
  pub retry_after_s : ℕ

-- Math.ceil (ms / 1000)
abbrev pub seconds : ℕ → ℕ
seconds ms = ceil_div ms 1000

abbrev pub of_reply : ℕ → Reply → Decision
of_reply limit r = record {
  limit = limit;
  allowed = r.allowed;
  remaining = r.tokens;
  reset_s = seconds r.full_ms;
  retry_after_s = seconds r.retry_ms;
}

-- The `bucket` arm: the script decides.
unfoldable pub decide_script : (k : Key Bucket) → ℕ → ℕ → k.State → Decision × k.State
decide_script k limit now s = let (r, s') = take_token k limit now s in (of_reply limit r, s')

-- The `bucket-rmw` and `memory` arms: the same bucket computed in the process.
-- `seconds((1 - tokens) / perMs)` is one ceiling of a quotient by 1000 * limit.
unfoldable pub decide_bucket : ℕ → ℕ → Bucket → Decision × Bucket
decide_bucket limit now b =
    let tokens = refill limit now b in
    let allowed = leb unit tokens in
    let left = after_take tokens in
    (
      record {
        limit = limit;
        allowed = allowed;
        remaining = left / unit;
        reset_s = seconds (full_ms limit left);
        retry_after_s = if allowed then 0 else ceil_div (unit - tokens) (limit * 1000);
      },
      record { tokens = left; ts = now },
    )

unfoldable pub decide_node : (k : Key Bucket) → ℕ → ℕ → k.State → Decision × k.State
unfolding decide_bucket
decide_node k limit now s =
    let (d, b) = decide_bucket limit now (or_full limit now (k.read now s)) in
    (d, k.write now b (max (full_ms limit b.tokens) 1) s)

pub record Window : Type 0 where
  pub count : ℕ
  pub reset_at : ℕ

abbrev pub window_ms : ℕ
window_ms = 60000

abbrev pub or_new : ℕ → Option Window → Window
or_new now none = record { count = 0; reset_at = now + window_ms }
or_new now (some w) = w

-- The `fixed-rmw` arm: a window that starts at its first request.
unfoldable pub decide_window : (k : Key Window) → ℕ → ℕ → k.State → Decision × k.State
decide_window k limit now s =
    let w = or_new now (k.read now s) in
    let reset_ms = max 1 (w.reset_at - now) in
    let allowed = ltb w.count limit in
    let count = if allowed then w.count + 1 else w.count in
    (
      record {
        limit = limit;
        allowed = allowed;
        remaining = limit - count;
        reset_s = seconds reset_ms;
        retry_after_s = if allowed then 0 else seconds reset_ms;
      },
      if allowed
          then k.write now (record { count = count; reset_at = w.reset_at }) reset_ms s
          else s,
    )
