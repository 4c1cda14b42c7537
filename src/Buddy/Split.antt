-- ===== src/Buddy/Split.antt =====
-- Taking blocks from their lists and splitting them: the sum of the sizes of the free blocks.
use homemade_os.Base.{
  ℕ, zero, suc, ◌+◌, ◌-◌, ◌*◌, ◌^◌, ◌≤◌, ◌≡◌, refl, sym, ap, subst, ◌∙◌, inl, inr, arith, true, not,
  ◌||◌, Option, none, some, List, ltb, ◌==◌, Bool-cases, Option-cases,
}
use native.Mathlib.Nat.{mul-suc}
use homemade_os.Buddy.{
  MemoryBlockManager, remove, get_buddy, is_free, remove_block, add_block, set_order, is_half,
  split_block, take_block, take_blocks,
}
use homemade_os.Buddy.Account.{
  free_total, weigh-put_at, weight-remove, twice_pow, add_block-account,
}

-- Every order is one that the allocator has.
abbrev pub IsBounded : MemoryBlockManager → Type 0
IsBounded m = (i : ℕ) → m.size_order i ≤ 30

-- Where no assertion fails, the free blocks have `c` bytes less than `sum`.
abbrev pub Kept : (sum size c : ℕ) → Option MemoryBlockManager → Type 0
Kept sum size c none = Unit
Kept sum size c (some m) = (free_total m + c ≡ sum) × (m.free_size ≡ size) × IsBounded m

halve-IsBounded :
    (m : MemoryBlockManager) (b : ℕ) → IsBounded m → IsBounded (set_order m b (m.size_order b - 1))
halve-IsBounded m b bounded i = elim (Bool-cases (i == b)) [
  | inl e ↦ let old = bounded b in rw e (omega arith)
  | inr e ↦ rw e (bounded i)
]

free_total-set_order :
    (m : MemoryBlockManager) (b o : ℕ) → free_total (set_order m b o) ≡ free_total m
unfolding free_total
free_total-set_order m b o = refl

half_order :
    (m : MemoryBlockManager) (b b2 : ℕ) → is_half m b b2 ≡ true → m.size_order b2 ≡ m.size_order b
half_order m b b2 h = ground (arith, h)

split_block-account :
    (n so sum : ℕ) (m : MemoryBlockManager) (b : ℕ)
    → 12 ≤ so
    → m.size_order b ≡ so + n
    → free_total m + 2 ^ (so + n) ≡ sum
    → IsBounded m
    → Kept sum m.free_size (2 ^ so) (split_block n m b)
unfolding split_block
split_block-account zero so sum m b low order all bounded =
    let none_left : so + 0 ≡ so = omega arith in
    (subst (λ k. free_total m + 2 ^ k ≡ sum) none_left all, refl, bounded)
split_block-account (suc n) so sum m b low order all bounded =
    let m' : MemoryBlockManager = set_order m b (m.size_order b - 1) in
    elim (Option-cases (get_buddy m' b)) [
      | inl e ↦ rw (e, split_block) tt
      | inr (b2, e) ↦ elim (Bool-cases (is_half m' b b2)) [
        | inr not_half ↦ rw (e, not_half, split_block) tt
        | inl half ↦
            let this : (b == b) ≡ true = ground arith in
            let bounded' = halve-IsBounded m b bounded in
            let whole = bounded b in
            let order' : m'.size_order b ≡ so + n = rw this (omega arith) in
            let buddy : m'.size_order b2 ≡ m'.size_order b = half_order m' b b2 half in
            let added = add_block-account m' b2 (omega arith) (omega arith) in
            let power : 2 ^ m'.size_order b2 ≡ 2 ^ (so + n) = ap (λ k. 2 ^ k) (buddy ∙ order') in
            let twice : 2 ^ (so + suc n) ≡ 2 * 2 ^ (so + n) =
              let next : so + suc n ≡ so + n + 1 = omega arith in
              ap (λ k. 2 ^ k) next ∙ twice_pow (so + n) in
            let same : free_total m' ≡ free_total m =
              free_total-set_order m b (m.size_order b - 1) in
            rw (e, half, split_block)
              (split_block-account n so sum (add_block m' b2) b low order'
                (omega (arith, all, added, power, twice, same)) bounded')
      ]
    ]

take_block-account :
    (so : ℕ) (m : MemoryBlockManager) (b : ℕ)
    → 12 ≤ so
    → IsBounded m
    → Kept (free_total m) m.free_size (2 ^ so) (take_block m b so)
unfolding take_block free_total
take_block-account so m b low bounded =
    elim (Bool-cases (not (is_free m b) || ltb (m.size_order b) so)) [
      | inl fails ↦ rw fails tt
      | inr holds ↦
          let o : ℕ = m.size_order b in
          let xs : List ℕ = m.free_block o in
          let whole = bounded b in
          let large : so ≤ o = ground (arith, holds) in
          let total = weigh-put_at 19 12 o m.free_block (remove b xs) (omega arith) (omega arith) in
          let removed = weight-remove b o xs (ground (arith, holds)) in
          let rounds : o ≡ so + (o - so) = omega arith in
          let power : 2 ^ (so + (o - so)) ≡ 2 ^ o = ap (λ k. 2 ^ k) (sym rounds) in
          rw holds (
            split_block-account (o - so) so (free_total m) (remove_block m b) b low rounds
              (omega (arith, total, removed, power)) bounded)
    ]

-- A block that is taken, and those behind it.
further :
    (o : Option MemoryBlockManager) (sum size c n sum' size' : ℕ)
    → sum' + c ≡ sum
    → size' ≡ size
    → Kept sum' size' (c * n) o
    → Kept sum size (c * suc n) o
further none sum size c n sum' size' s z k = tt
further (some m) sum size c n sum' size' s z (total, same, bounded) =
    (omega (arith, total, s, mul-suc c n), same ∙ z, bounded)

pub take_blocks-account :
    (n so step : ℕ) (m : MemoryBlockManager) (b : ℕ)
    → 12 ≤ so
    → IsBounded m
    → Kept (free_total m) m.free_size (2 ^ so * n) (take_blocks n m b step so)
unfolding take_blocks
take_blocks-account zero so step m b low bounded = (omega arith, refl, bounded)
take_blocks-account (suc n) so step m b low bounded = elim (Option-cases (take_block m b so)) [
  | inl e ↦ rw (e, take_blocks) tt
  | inr (m', e) ↦
      let (total, size, bounded') =
        subst (Kept (free_total m) m.free_size (2 ^ so)) e
          (take_block-account so m b low bounded) in
      rw (e, take_blocks)
        (further (take_blocks n m' (b + step) step so) (free_total m) m.free_size (2 ^ so) n
          (free_total m') m'.free_size total size
          (take_blocks-account n so step m' (b + step) low bounded'))
]
