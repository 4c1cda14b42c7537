-- ===== src/Tcp/Sequence.antt =====
-- `addTCPSequence` and `diffTCPSequence` of src/kernel/io/network/tcp.c.
use homemade_os.Base.{ℕ, ◌+◌, ◌-◌, ◌%◌, ◌^◌, ◌<◌, ◌≡◌, arith}

-- `(a + b) & 0xffffffff`
abbrev pub add_sequence : ℕ → ℕ → ℕ
add_sequence a b = (a + b) % 2 ^ 32

-- `(a - b) & 0xffffffff`, with `b` below `2 ^ 32`
abbrev pub diff_sequence : ℕ → ℕ → ℕ
diff_sequence a b = (a + 2 ^ 32 - b) % 2 ^ 32

-- Going `n` bytes on and measuring the distance gives `n`, across the wrap too.
pub diff-add : (a n : ℕ) → a < 2 ^ 32 → n < 2 ^ 32 → diff_sequence (add_sequence a n) a ≡ n
diff-add a n h k = omega arith

pub add-diff : (a b : ℕ) → a < 2 ^ 32 → b < 2 ^ 32 → add_sequence a (diff_sequence b a) ≡ b
add-diff a b h k = omega arith
