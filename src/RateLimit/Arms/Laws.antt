-- ===== src/RateLimit/Arms/Laws.antt =====
-- The arms of the limiter against one another, and what a fixed window lets through.
use drills.Prelude.{
  ℕ, ◌-◌, ◌*◌, ◌≤◌, ◌<◌, ◌≡◌, ap, sym, inl, inr, ◌/◌, leb, if◌then◌else◌, arith, Bool-cases,
}
use drills.RateLimit.{Key, Bucket, unit, max, refill, or_full, after_take, full_ms, take_token}
use drills.Prelude.Division.{ceil_div, ceil_div-le_iff}
use drills.RateLimit.Arms.{Decision, seconds, decide_script, decide_node}

-- Rounding up to milliseconds and then to seconds rounds up once.
ceil_div-ceil_div : (a b : ℕ) → 0 < b → ceil_div (ceil_div a b) 1000 ≡ ceil_div a (b * 1000)
ceil_div-ceil_div a b h =
    let ms = ceil_div a b in
    let twice = ceil_div ms 1000 in
    let once = ceil_div a (b * 1000) in
    let inner = ceil_div-le_iff a b in
    let outer = λ (k : ℕ). ceil_div-le_iff ms 1000 k (omega arith) in
    let whole = λ (k : ℕ). ceil_div-le_iff a (b * 1000) k (omega arith) in
    let below : twice ≤ once =
      (outer once).1 ((inner (once * 1000) h).1 (omega (arith, (whole once).0 (omega arith)))) in
    let above : once ≤ twice =
      (whole twice).1 (omega (arith, (inner (twice * 1000) h).0 ((outer twice).0 (omega arith)))) in
    omega (arith, below, above)

retry_rounding :
    (limit tokens : ℕ)
    → 0 < limit
    → (if leb unit tokens then 0 else ceil_div (unit - tokens) (limit * 1000))
      ≡ seconds (if leb unit tokens then 0 else ceil_div (unit - tokens) limit)
retry_rounding limit tokens h = elim (Bool-cases (leb unit tokens)) [
  | inl some_token ↦ rw some_token
  | inr no_token ↦ rw no_token (sym (ceil_div-ceil_div (unit - tokens) limit h))
]

-- The bucket computed in the process decides and writes what the script does, on every key state.
decide_node-decide_script :
    (k : Key Bucket) (limit now : ℕ) (s : k.State)
    → 0 < limit
    → decide_node k limit now s ≡ decide_script k limit now s
unfolding decide_node decide_script take_token
decide_node-decide_script k limit now s h =
    let tokens = refill limit now (or_full limit now (k.read now s)) in
    let left = after_take tokens in
    let s' = k.write now (record { tokens = left; ts = now }) (max (full_ms limit left) 1) s in
    ap (answer tokens left s') (retry_rounding limit tokens h)
  where
    answer : ℕ → ℕ → k.State → ℕ → Decision × k.State
    answer tokens left s' retry = (
      record {
        limit = limit;
        allowed = leb unit tokens;
        remaining = left / unit;
        reset_s = seconds (full_ms limit left);
        retry_after_s = retry;
      },
      s',
    )
