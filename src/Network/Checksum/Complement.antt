-- ===== src/Network/Checksum/Complement.antt =====
-- A packet with its checksum in place has the checksum zero.
use homemade_os.Base.{
  ℕ, zero, suc, ◌+◌, ◌-◌, ◌*◌, ◌%◌, ◌^◌, ◌≤◌, ◌<◌, ◌≡◌, ◌≢◌, refl, ap, subst, ◌∙◌, inl, inr, arith,
  ◌==◌, Bool-cases,
}
use homemade_os.Text.{change_endian16}
use homemade_os.Network.Bytes.{Bytes, load16, store16, load16-store16, store16-other}
use homemade_os.Network.Checksum.{add_words, fold_carries, complement}

pub change_endian16-lt : (v : ℕ) → change_endian16 v < 2 ^ 16
unfolding change_endian16
change_endian16-lt v = omega arith

pub change_endian16-change_endian16 : (v : ℕ) → v < 2 ^ 16 → change_endian16 (change_endian16 v) ≡ v
unfolding change_endian16
change_endian16-change_endian16 v h = omega arith

-- Two rounds of the loop are enough for every number of 32 bits.
pub fold_carries-le : (cs : ℕ) → cs < 2 ^ 32 → fold_carries 2 cs ≤ 65535
unfolding fold_carries
fold_carries-le cs h = ground arith

-- A sum and the complement of what it folds to fold to all ones.
pub fold_carries-complement :
    (cs : ℕ) → cs + 65535 < 2 ^ 32 → fold_carries 2 (cs + (65535 - fold_carries 2 cs)) ≡ 65535
unfolding fold_carries
fold_carries-complement cs h = ground arith

pub fold_carries-ones :
    (cs : ℕ) → cs + 65535 < 2 ^ 32 → fold_carries 2 cs ≡ 65535 → fold_carries 2 (cs + 65535) ≡ 65535
unfolding fold_carries
fold_carries-ones cs h e = ground arith

-- Adding a sum's own checksum makes the checksum zero.
pub complement_again :
    (cs : ℕ) → cs + 65535 < 2 ^ 32 → complement (cs + change_endian16 (complement cs)) ≡ 0
unfolding change_endian16
complement_again cs h =
    let settled : 65535 - fold_carries 2 cs < 2 ^ 16 = omega arith in
    ap (λ n. complement (cs + n))
      (change_endian16-change_endian16 (65535 - fold_carries 2 cs) settled)
    ∙ ap (λ n. change_endian16 (65535 - n)) (fold_carries-complement cs h)

pub complement_zero : (cs : ℕ) → cs + 65535 < 2 ^ 32 → complement cs ≡ 0 → fold_carries 2 cs ≡ 65535
unfolding change_endian16
complement_zero cs h e = omega (arith, fold_carries-le cs (omega arith))

-- The sum of the words, without the wrap.
pub words : (rounds i : ℕ) → Bytes → ℕ
words zero i m = 0
words (suc n) i m = change_endian16 (load16 m (i * 2)) + words n (i + 1) m

pub words-le : (n i : ℕ) (m : Bytes) → words n i m ≤ n * 65535
unfolding words
words-le zero i m = omega arith
words-le (suc n) i m = omega (arith, words-le n (i + 1) m, change_endian16-lt (load16 m (i * 2)))

pub add_words-words :
    (n i : ℕ) (m : Bytes) (cs : ℕ) → cs + n * 65535 < 2 ^ 32 → add_words n i m cs ≡ cs + words n i m
unfolding add_words words
add_words-words zero i m cs h = omega arith
add_words-words (suc n) i m cs h =
    let w : ℕ = change_endian16 (load16 m (i * 2)) in
    let small = change_endian16-lt (load16 m (i * 2)) in
    let no_wrap : (cs + w) % 2 ^ 32 ≡ cs + w = omega arith in
    let rest = add_words-words n (i + 1) m (cs + w) (omega arith) in
    ap (add_words n (i + 1) m) no_wrap ∙ (omega (arith, rest))

-- Words in front of the one that is stored, and behind it.
load16-other :
    (m : Bytes) (k i v : ℕ) → i ≢ k → load16 (store16 m (k * 2) v) (i * 2) ≡ load16 m (i * 2)
unfolding load16
load16-other m k i v ne =
    let low : i * 2 ≢ k * 2 = ground arith in
    let odd : i * 2 ≢ k * 2 + 1 = ground arith in
    let odd' : i * 2 + 1 ≢ k * 2 = ground arith in
    let high : i * 2 + 1 ≢ k * 2 + 1 = ground arith in
    omega (
      arith,
      ap (λ b. b % 2 ^ 8) (store16-other m (k * 2) (i * 2) v low odd),
      ap (λ b. b % 2 ^ 8) (store16-other m (k * 2) (i * 2 + 1) v odd' high),
    )

words-before : (n i k v : ℕ) (m : Bytes) → k < i → words n i (store16 m (k * 2) v) ≡ words n i m
unfolding words
words-before zero i k v m h = refl
words-before (suc n) i k v m h = omega (
  arith,
  ap change_endian16 (load16-other m k i v (ground arith)),
  words-before n (i + 1) k v m (omega arith),
)

-- Storing a word adds it to the sum in place of the old one.
pub words-store16 :
    (n i k v : ℕ) (m : Bytes)
    → i ≤ k
    → k < i + n
    → v < 2 ^ 16
    → words n i (store16 m (k * 2) v) + change_endian16 (load16 m (k * 2))
      ≡ words n i m + change_endian16 v
unfolding words
words-store16 zero i k v m h l b = absurd (omega arith)
words-store16 (suc n) i k v m h l b = elim (Bool-cases (i == k)) [
  | inl e ↦
      let same : k ≡ i = ground arith in
      let here = ap change_endian16 (load16-store16 m (k * 2) v b) in
      let rest = words-before n (i + 1) k v m (omega arith) in
      subst
        (λ j.
          change_endian16 (load16 (store16 m (k * 2) v) (j * 2))
            + words n (i + 1) (store16 m (k * 2) v)
            + change_endian16 (load16 m (k * 2))
          ≡ change_endian16 (load16 m (j * 2)) + words n (i + 1) m + change_endian16 v)
        same (omega (arith, here, rest))
  | inr e ↦
      let later : i < k = ground arith in
      let other = ap change_endian16 (load16-other m k i v (ground arith)) in
      let rest = words-store16 n (i + 1) k v m (omega arith) (omega arith) b in
      omega (arith, other, rest)
]
