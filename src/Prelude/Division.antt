-- ===== src/Prelude/Division.antt =====
-- Math.ceil (a / b) on natural numbers.
use native.Mathlib.Nat.{div-lt_iff_lt-mul}
use Prim.Native.Nat.{ℕ, ◌+◌, ◌-◌, ◌*◌, ◌/◌, ◌≤◌, ◌<◌}
use mathlib.Core.Logic.{◌↔◌}
use native.Mathlib.Omega.{arith}

abbrev pub ceil_div : ℕ → ℕ → ℕ
ceil_div a b = (a + (b - 1)) / b

pub ceil_div-le_iff : (a b k : ℕ) → 0 < b → (ceil_div a b ≤ k) ↔ (a ≤ k * b)
ceil_div-le_iff a b k h =
    let lt = div-lt_iff_lt-mul {k = b} {x = a + (b - 1)} {y = k + 1} h in
    (λ e. omega (arith, lt.0 (omega arith)), λ e. omega (arith, lt.1 (omega arith)))
