-- ===== src/Buddy/Account.antt =====
-- The sum of the sizes of the free blocks, and what releasing a block does to it.
use homemade_os.Base.{
  ℕ, zero, suc, ◌+◌, ◌-◌, ◌*◌, ◌^◌, ◌≤◌, ◌<◌, ◌≡◌, ◌⊎◌, refl, ap, subst, ◌∙◌, inl, inr, ◌≢◌,
  bit_xor, arith, true, false, List, [], ◌∷◌, ◌==◌, Bool-cases, both_absurd,
}
use native.Mathlib.Nat.{pow-succ'}
use homemade_os.Buddy.{MemoryBlockManager, member, remove, put_at, get_buddy, add_block, merges}

-- The bytes of the blocks in a list of the order `o`.
abbrev pub weight : List ℕ → (o : ℕ) → ℕ
weight [] o = 0
weight (x ∷ xs) o = 2 ^ o + weight xs o

pub weight-remove :
    (b o : ℕ) (xs : List ℕ) → member b xs ≡ true → weight xs o ≡ 2 ^ o + weight (remove b xs) o
weight-remove b o [] h = both_absurd h refl
weight-remove b o (x ∷ xs) h = elim (Bool-cases (b == x)) [
  | inl e ↦ rw e refl
  | inr e ↦
      let later : member b xs ≡ true = ground (arith, e) in
      rw e (omega (arith, weight-remove b o xs later))
]

-- The bytes of the lists from the order `o` on.
unfoldable pub weigh : (rounds o : ℕ) → (ℕ → List ℕ) → ℕ
weigh zero o f = 0
weigh (suc n) o f = weight (f o) o + weigh n (o + 1) f

unfoldable pub free_total : MemoryBlockManager → ℕ
free_total m = weigh 19 12 m.free_block

weigh-before :
    (n o i : ℕ) (f : ℕ → List ℕ) (xs : List ℕ) → i < o → weigh n o (put_at f i xs) ≡ weigh n o f
unfolding weigh
weigh-before zero o i f xs h = refl
weigh-before (suc n) o i f xs h =
    let other : (o == i) ≡ false = ground arith in
    rw other (ap (λ w. weight (f o) o + w) (weigh-before n (o + 1) i f xs (omega arith)))

pub weigh-put_at :
    (n o i : ℕ) (f : ℕ → List ℕ) (xs : List ℕ)
    → o ≤ i
    → i < o + n
    → weigh n o (put_at f i xs) + weight (f i) i ≡ weigh n o f + weight xs i
unfolding weigh
weigh-put_at zero o i f xs h l = absurd (omega arith)
weigh-put_at (suc n) o i f xs h l = elim (Bool-cases (o == i)) [
  | inl e ↦
      let same : o ≡ i = ground arith in
      let rest = weigh-before n (o + 1) i f xs (omega arith) in
      rw e (
        subst
          (λ j.
            weight xs o + weigh n (o + 1) (put_at f i xs) + weight (f j) j
            ≡ weight (f o) o + weigh n (o + 1) f + weight xs j)
          same (omega (arith, rest)))
  | inr e ↦
      let rest = weigh-put_at n (o + 1) i f xs (ground arith) (omega arith) in
      rw e (omega (arith, rest))
]

pub twice_pow : (o : ℕ) → 2 ^ (o + 1) ≡ 2 * 2 ^ o
twice_pow o = let next : o + 1 ≡ suc o = omega arith in ap (λ n. 2 ^ n) next ∙ pow-succ' 2 o

-- What the loop ends with: a block of the largest order, or one that merges with no buddy.
abbrev pub IsSettled : MemoryBlockManager → ℕ → Type 0
IsSettled m b = (m.size_order b ≡ 30) ⊎ (merges m b (get_buddy m b) ≡ false)

pub add_block-account :
    (m : MemoryBlockManager) (b : ℕ)
    → 12 ≤ m.size_order b
    → m.size_order b ≤ 30
    → free_total (add_block m b) ≡ free_total m + 2 ^ m.size_order b
unfolding free_total
add_block-account m b low high =
    let o : ℕ = m.size_order b in
    omega (arith, weigh-put_at 19 12 o m.free_block (b ∷ m.free_block o) low (omega arith))

-- The block ends the merging: it has the largest order, or the block beside it with which it would be one of
-- twice the size, whose index differs in one bit, is behind the last, or is not free, or has another order.
abbrev pub IsMerged : MemoryBlockManager → ℕ → Type 0
IsMerged m b =
    let buddy = bit_xor b (2 ^ (m.size_order b - 12)) in
    (m.size_order b ≡ 30)
    ⊎ (m.block_count ≤ buddy)
    ⊎ (member buddy (m.free_block (m.size_order buddy)) ≡ false)
    ⊎ (m.size_order buddy ≢ m.size_order b)
