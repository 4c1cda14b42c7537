-- ===== src/Base/Bits.antt =====
-- Masks of low bits: `a & (2^k - 1)` is `a % 2^k`, at every width.
use Prim.Native.Nat.{
  ℕ, zero, suc, ◌+◌, ◌-◌, ◌*◌, ◌/◌, ◌%◌, ◌^◌, ◌≤◌, ◌<◌, min, bit_and, digits, bit_and-bitwise,
}
use mathlib.Core.Path.{◌≡◌, refl, ap, ◌∙◌}
use native.Mathlib.Omega.{arith}
use native.Mathlib.Nat.{
  pow-succ', one-le-pow, div-add-mod, mod-lt, mod-eq_of_lt, add-mul-mod_self_left,
}

-- The recursion that the native operation stands for, on `n` rounds.
abbrev and_rounds : ℕ → ℕ → ℕ → ℕ
and_rounds n a b = digits (λ b. zero) min n a b

-- More rounds than the number is large change nothing.
and_rounds_enough : (n m a b : ℕ) → a ≤ n → a ≤ m → and_rounds n a b ≡ and_rounds m a b
and_rounds_enough zero zero a b p q = refl
and_rounds_enough zero (suc m) zero b p q = refl
and_rounds_enough zero (suc m) (suc a) b p q = absurd (omega arith)
and_rounds_enough (suc n) zero zero b p q = refl
and_rounds_enough (suc n) zero (suc a) b p q = absurd (omega arith)
and_rounds_enough (suc n) (suc m) zero b p q = refl
and_rounds_enough (suc n) (suc m) (suc a) b p q =
    let half = and_rounds_enough n m (suc a / 2) (b / 2) (omega arith) (omega arith) in
    omega (arith, half)

zero-bit_and : (b : ℕ) → bit_and 0 b ≡ 0
zero-bit_and b = bit_and-bitwise 0 b

-- The lowest bit, and the rest.
pub bit_and-halves : (a b : ℕ) → bit_and a b ≡ min (a % 2) (b % 2) + 2 * bit_and (a / 2) (b / 2)
bit_and-halves zero b = omega (arith, zero-bit_and b, zero-bit_and (b / 2))
bit_and-halves (suc a) b =
    let rest = and_rounds_enough a (suc a / 2) (suc a / 2) (b / 2) (omega arith) (omega arith) in
    omega (arith, bit_and-bitwise (suc a) b, bit_and-bitwise (suc a / 2) (b / 2), rest)

bit_and-zero_below : (n a : ℕ) → a ≤ n → bit_and a 0 ≡ 0
bit_and-zero_below n zero h = zero-bit_and 0
bit_and-zero_below zero (suc a) h = absurd (omega arith)
bit_and-zero_below (suc n) (suc a) h =
    omega (arith, bit_and-halves (suc a) 0, bit_and-zero_below n (suc a / 2) (omega arith))

mod-mul_two : (a m : ℕ) → 0 < m → a % (2 * m) ≡ a % 2 + 2 * ((a / 2) % m)
mod-mul_two a m h =
    let q = a / 2 / m in
    let v = a % 2 + 2 * ((a / 2) % m) in
    let split : a ≡ v + 2 * m * q = omega (arith, div-add-mod (a / 2) m) in
    let small : v < 2 * m = omega (arith, mod-lt (a / 2) h) in
    ap (λ n. n % (2 * m)) split ∙ add-mul-mod_self_left v (2 * m) q ∙ mod-eq_of_lt small

-- `a & (2^k - 1)` keeps the low `k` bits.
pub bit_and-mask : (k a : ℕ) → bit_and a (2 ^ k - 1) ≡ a % 2 ^ k
bit_and-mask zero a = omega (arith, bit_and-zero_below a a (omega arith))
bit_and-mask (suc k) a =
    let pos : 1 ≤ 2 ^ k = one-le-pow k 2 (omega arith) in
    let twice : 2 ^ suc k ≡ 2 * 2 ^ k = pow-succ' 2 k in
    let mask : (2 ^ suc k - 1) / 2 ≡ 2 ^ k - 1 = omega arith in
    let low : (2 ^ suc k - 1) % 2 ≡ 1 = omega arith in
    let rest : bit_and (a / 2) ((2 ^ suc k - 1) / 2) ≡ (a / 2) % 2 ^ k =
      rw mask (bit_and-mask k (a / 2)) in
    let wide : a % 2 ^ suc k ≡ a % (2 * 2 ^ k) = ap (λ n. a % n) twice in
    omega (arith, bit_and-halves a (2 ^ suc k - 1), mod-mul_two a (2 ^ k) pos)
