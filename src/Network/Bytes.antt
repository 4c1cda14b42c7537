-- ===== src/Network/Bytes.antt =====
-- Memory from a pointer on, as a function of the offset, with the little-endian loads and stores of the
-- processor.
use homemade_os.Base.{
  ℕ, ◌+◌, ◌*◌, ◌/◌, ◌%◌, ◌^◌, ◌<◌, ◌≡◌, ◌≢◌, fun_ext, arith, ◌==◌, if◌then◌else◌,
}

abbrev pub Bytes : Type 0
Bytes = ℕ → ℕ

abbrev pub put : Bytes → (i v : ℕ) → Bytes
put m i v = λ j. if j == i then v % 2 ^ 8 else m j

abbrev pub load8 : Bytes → ℕ → ℕ
load8 m i = m i % 2 ^ 8

unfoldable pub load16 : Bytes → ℕ → ℕ
load16 m i = load8 m i + load8 m (i + 1) * 2 ^ 8

unfoldable pub load32 : Bytes → ℕ → ℕ
unfolding load16
load32 m i = load16 m i + load16 m (i + 2) * 2 ^ 16

unfoldable pub store16 : Bytes → (i v : ℕ) → Bytes
store16 m i v = put (put m i v) (i + 1) (v / 2 ^ 8)

unfoldable pub store32 : Bytes → (i v : ℕ) → Bytes
unfolding store16
store32 m i v = store16 (store16 m i v) (i + 2) (v / 2 ^ 16)

-- A bit-field of `width` bits from bit `low` on of a byte.
unfoldable pub load_bits : Bytes → (i low width : ℕ) → ℕ
load_bits m i low width = load8 m i / 2 ^ low % 2 ^ width

unfoldable pub store_bits : Bytes → (i low width v : ℕ) → Bytes
store_bits m i low width v = put m i (
    load8 m i % 2 ^ low
    + v % 2 ^ width * 2 ^ low
    + load8 m i / 2 ^ (low + width) * 2 ^ (low + width))

-- The memory from `k` bytes behind the pointer on.
abbrev pub behind : ℕ → Bytes → Bytes
behind k m = λ i. m (k + i)

pub load16-lt : (m : Bytes) (i : ℕ) → load16 m i < 2 ^ 16
unfolding load16
load16-lt m i = omega arith

pub load16-store16 : (m : Bytes) (i v : ℕ) → v < 2 ^ 16 → load16 (store16 m i v) i ≡ v
unfolding load16 store16
load16-store16 m i v h = ground arith

pub store16-other : (m : Bytes) (i j v : ℕ) → j ≢ i → j ≢ i + 1 → store16 m i v j ≡ m j
unfolding store16
store16-other m i j v p q = ground arith

pub behind-store16 :
    (m : Bytes) (k i v : ℕ) → behind k (store16 m (k + i) v) ≡ store16 (behind k m) i v
unfolding store16
behind-store16 m k i v = fun_ext (λ j. ground arith)
