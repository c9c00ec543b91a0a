-- ===== src/RateLimit/Tests.antt =====
-- Runs of the limiter on a key held in memory, and the theorems at them.
use drills.Prelude.{
  ℕ, ◌+◌, ◌*◌, ◌≤◌, ◌≡◌, refl, Option, none, some, [], ◌∷◌, ltb, if◌then◌else◌, arith,
}
use drills.RateLimit.{Key, Bucket, unit, refill, reply, take_token}
use drills.RateLimit.Bounds.{answers, admitted, admitted_bound}
use drills.RateLimit.Arms.{Window, decide_window}
use drills.RateLimit.Fixed.{Counter, incr, incr_window, decide_fixed}
use drills.RateLimit.Fixed.Burst.{admitted_fixed, left_of, admitted_fixed-le}

abbrev read_slot : {V : Type 0} → ℕ → Option (V × ℕ) → Option V
read_slot now none = none
read_slot now (some (v, end)) = if ltb now end then some v else none

-- One slot: a value and the time at which it ends.
abbrev slot : (V : Type 0) → Key V
slot V = record {
  State = Option (V × ℕ);
  read = read_slot;
  write = λ now v ttl s. some (v, now + ttl);
  read-write = λ now later v ttl s h. refl;
}

-- A limit of 2 per minute: two requests pass, a third waits half a minute for a token.
limiter_test :
    (admitted (answers (slot Bucket) 2 (1000 ∷ 1000 ∷ 1000 ∷ []) none) ≡ 2)
    × ((take_token (slot Bucket) 2 1000 (some (record { tokens = 0; ts = 1000 }, 61000))).0.retry_ms
        ≡ 30000)
    × ((decide_window (slot Window) 1 1000 none).0.reset_s ≡ 60)
unfolding answers admitted take_token decide_window refill reply
limiter_test = (refl, refl, refl)

admitted_bound_example :
    unit * admitted (answers (slot Bucket) 2 (1000 ∷ 1000 ∷ 61000 ∷ []) none) ≤ 2 * (unit + 60000)
admitted_bound_example =
    admitted_bound (slot Bucket) 2 (omega arith) 1000 60000 (1000 ∷ 1000 ∷ 61000 ∷ []) none
      (omega arith)

abbrev empty_slot : Option (Bucket × ℕ)
empty_slot = some (record { tokens = 0; ts = 1000 }, 61000)

-- One request passed in the window that is about to end: three more pass within a millisecond.
abbrev running : Option Counter
running = some (record { count = 1; expires_at = 61000 })

boundary_burst : admitted_fixed 2 (60999 ∷ 60999 ∷ 61000 ∷ 61000 ∷ 61000 ∷ []) running ≡ 3
unfolding admitted_fixed decide_fixed incr_window incr
boundary_burst = refl

admitted_fixed-le_example :
    admitted_fixed 2 (60999 ∷ 61000 ∷ 61000 ∷ []) running ≤ left_of 2 running + 2
admitted_fixed-le_example =
    admitted_fixed-le 2 60999 (60999 ∷ 61000 ∷ 61000 ∷ []) running
      (omega arith, (omega arith, (omega arith, tt)))
      (omega arith, (omega arith, (omega arith, tt)))
