-- ===== src/Base/Modular.antt =====
-- Places on a circle of `len`.
use Prim.Native.Nat.{ℕ, ◌+◌, ◌/◌, ◌%◌, ◌<◌, ◌≤◌}
use mathlib.Core.Logic.{◌≢◌}
use native.Mathlib.Nat.{div-add-mod, mul-le-mul_left}
use native.Mathlib.Decide.{dec_lt}
use native.Mathlib.Omega.{arith}

-- Indices less than a round apart are different places.
pub mod_ne : (len i d : ℕ) → 0 < d → d < len → i % len ≢ (i + d) % len
mod_ne len i d p q e =
    let q₁ : ℕ = i / len in
    let q₂ : ℕ = (i + d) / len in
    let at_i = div-add-mod i len in
    let at_d = div-add-mod (i + d) len in
    elim (dec_lt q₁ q₂) [
      | yes h ↦ omega (arith, mul-le-mul_left len h)
      | no h ↦ let le : q₂ ≤ q₁ = omega arith in omega (arith, mul-le-mul_left len le)
    ]
