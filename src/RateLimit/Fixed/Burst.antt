-- ===== src/RateLimit/Fixed/Burst.antt =====
-- What fixed windows let through: a window its limit, a stretch as long as a window twice that.
use drills.Prelude.{
  ℕ, suc, ◌+◌, ◌-◌, ◌≤◌, ◌<◌, ◌≡◌, refl, inl, inr, Bool, true, false, Option, none, some, List, [],
  ◌∷◌, ltb, Bool-cases, All, arith,
}
use drills.RateLimit.Arms.{window_ms}
use drills.RateLimit.Fixed.{Counter, incr, incr_window, decide_fixed}

abbrev passed : Bool → ℕ → ℕ
passed true n = suc n
passed false n = n

-- How many requests pass, at these times.
unfoldable pub admitted_fixed : ℕ → List ℕ → Option Counter → ℕ
admitted_fixed limit [] state = 0
admitted_fixed limit (t ∷ ts) state =
    let (d, state') = decide_fixed limit t state in
    passed d.allowed (admitted_fixed limit ts state')

-- What the counter leaves of its window's limit.
abbrev pub left_of : ℕ → Option Counter → ℕ
left_of limit none = limit
left_of limit (some c) = limit - c.count

-- In one window.
admitted_window :
    (limit : ℕ) (ts : List ℕ) (c : Counter)
    → All (λ t. t < c.expires_at) ts
    → admitted_fixed limit ts (some c) ≤ limit - c.count
unfolding admitted_fixed decide_fixed incr_window incr
admitted_window limit [] c inside = omega arith
admitted_window limit (t ∷ ts) c (here, inside) =
    let next : Counter = record { count = c.count + 1; expires_at = c.expires_at } in
    ground (arith, here, admitted_window limit ts next inside)

-- A first request opens a window that outlives the stretch.
admitted_fresh :
    (limit t : ℕ) (ts : List ℕ) (state : Option Counter)
    → incr window_ms t state ≡ record { count = 1; expires_at = t + window_ms }
    → All (λ u. u < t + window_ms) ts
    → admitted_fixed limit (t ∷ ts) state ≤ limit
unfolding admitted_fixed decide_fixed incr_window
admitted_fresh limit t ts state opens inside =
    let next : Counter = record { count = 1; expires_at = t + window_ms } in
    rw opens (ground (arith, admitted_window limit ts next inside))

All-le : (a b : ℕ) (ts : List ℕ) → a ≤ b → All (λ t. t < a) ts → All (λ t. t < b) ts
All-le a b [] le h = tt
All-le a b (t ∷ ts) le (here, h) = (omega (arith, here, le), All-le a b ts le h)

live_step :
    (limit t : ℕ) (ts : List ℕ) (c : Counter)
    → ltb t c.expires_at ≡ true
    → admitted_fixed limit ts (some (record { count = c.count + 1; expires_at = c.expires_at }))
      ≤ (limit - (c.count + 1)) + limit
    → admitted_fixed limit (t ∷ ts) (some c) ≤ (limit - c.count) + limit
unfolding admitted_fixed decide_fixed incr_window incr
live_step limit t ts c live rest = rw live (ground (arith, rest))

-- On the arm `fixed`, whatever the key holds, the requests that come within less than one window of
-- each other pass at most what is left of the window that runs, and one limit more.
pub admitted_fixed-le :
    (limit start : ℕ) (ts : List ℕ) (state : Option Counter)
    → All (λ t. start ≤ t) ts
    → All (λ t. t < start + window_ms) ts
    → admitted_fixed limit ts state ≤ left_of limit state + limit
unfolding admitted_fixed incr
admitted_fixed-le limit start [] state later inside = omega arith
admitted_fixed-le limit start (t ∷ ts) none (after, later) (here, inside) = omega (
  arith,
  admitted_fresh limit t ts none refl
      (All-le (start + window_ms) (t + window_ms) ts (omega (arith, after)) inside),
)
admitted_fixed-le limit start (t ∷ ts) (some c) (after, later) (here, inside) =
    elim (Bool-cases (ltb t c.expires_at)) [
      | inl live ↦
          let next : Counter = record { count = c.count + 1; expires_at = c.expires_at } in
          live_step limit t ts c live (admitted_fixed-le limit start ts (some next) later inside)
      | inr over ↦ omega (
        arith,
        admitted_fresh limit t ts (some c) (rw over refl)
            (All-le (start + window_ms) (t + window_ms) ts (omega (arith, after)) inside),
      )
    ]
