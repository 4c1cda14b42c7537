-- ===== src/Text/Endian.antt =====
-- The byte order conversions of src/lib/common.c reverse the bytes, and undo themselves.
use homemade_os.Base.{ℕ, ◌+◌, ◌*◌, ◌/◌, ◌%◌, ◌^◌, ◌<◌, ◌≡◌, ap, ap₂, ◌∙◌, arith}
use homemade_os.Text.{change_endian16, change_endian32, change_endian64}

change_endian16-change_endian16 : (v : ℕ) → v < 2 ^ 16 → change_endian16 (change_endian16 v) ≡ v
unfolding change_endian16
change_endian16-change_endian16 v h = omega arith

change_endian16-lt : (v : ℕ) → change_endian16 v < 2 ^ 16
unfolding change_endian16
change_endian16-lt v = omega arith

-- Two halves swapped and converted, twice.
change_endian32-change_endian32 : (v : ℕ) → v < 2 ^ 32 → change_endian32 (change_endian32 v) ≡ v
unfolding change_endian32
change_endian32-change_endian32 v h =
    let low : ℕ = change_endian16 (v % 2 ^ 16) in
    let high : ℕ = change_endian16 (v / 2 ^ 16) in
    let l = change_endian16-lt (v % 2 ^ 16) in
    let m = change_endian16-lt (v / 2 ^ 16) in
    let a : (low * 2 ^ 16 + high % 2 ^ 16) % 2 ^ 16 ≡ high = omega (arith, l, m) in
    let b : (low * 2 ^ 16 + high % 2 ^ 16) / 2 ^ 16 ≡ low = omega (arith, l, m) in
    let twice_high =
      ap change_endian16 a ∙ change_endian16-change_endian16 (v / 2 ^ 16) (omega arith) in
    let twice_low =
      ap change_endian16 b ∙ change_endian16-change_endian16 (v % 2 ^ 16) (omega arith) in
    ap₂ (λ p q. p * 2 ^ 16 + q % 2 ^ 16) twice_high twice_low ∙ omega arith

change_endian32-lt : (v : ℕ) → change_endian32 v < 2 ^ 32
unfolding change_endian32
change_endian32-lt v = omega (arith, change_endian16-lt (v % 2 ^ 16))

-- Converting the byte order of a number of 64 bits twice gives the number.
pub change_endian64-change_endian64 : (v : ℕ) → v < 2 ^ 64 → change_endian64 (change_endian64 v) ≡ v
unfolding change_endian64
change_endian64-change_endian64 v h =
    let low : ℕ = change_endian32 (v % 2 ^ 32) in
    let high : ℕ = change_endian32 (v / 2 ^ 32) in
    let l = change_endian32-lt (v % 2 ^ 32) in
    let m = change_endian32-lt (v / 2 ^ 32) in
    let a : (low * 2 ^ 32 + high % 2 ^ 32) % 2 ^ 32 ≡ high = omega (arith, l, m) in
    let b : (low * 2 ^ 32 + high % 2 ^ 32) / 2 ^ 32 ≡ low = omega (arith, l, m) in
    let twice_high =
      ap change_endian32 a ∙ change_endian32-change_endian32 (v / 2 ^ 32) (omega arith) in
    let twice_low =
      ap change_endian32 b ∙ change_endian32-change_endian32 (v % 2 ^ 32) (omega arith) in
    ap₂ (λ p q. p * 2 ^ 32 + q % 2 ^ 32) twice_high twice_low ∙ omega arith

-- The four bytes of a number of 32 bits, most significant last, come out in the opposite order.
pub change_endian32-bytes :
    (a b c d : ℕ)
    → a < 2 ^ 8
    → b < 2 ^ 8
    → c < 2 ^ 8
    → d < 2 ^ 8
    → change_endian32 (a + b * 2 ^ 8 + c * 2 ^ 16 + d * 2 ^ 24)
      ≡ d + c * 2 ^ 8 + b * 2 ^ 16 + a * 2 ^ 24
unfolding change_endian32 change_endian16
change_endian32-bytes a b c d ha hb hc hd = omega arith
