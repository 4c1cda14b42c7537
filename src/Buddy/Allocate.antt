-- ===== src/Buddy/Allocate.antt =====
-- What allocating blocks does to the sum of the sizes of the free blocks, and when there is none.
use homemade_os.Base.{
  ℕ, zero, suc, ◌+◌, ◌-◌, ◌*◌, ◌/◌, ◌^◌, ◌≤◌, ◌<◌, ◌≡◌, ◌⊎◌, refl, sym, ◌∙◌, inl, inr, arith, true,
  false, Option, none, some, leb, ltb, ◌==◌, Bool-cases, Option-cases, List-cases,
}
use native.Mathlib.Nat.{mul_comm, div-add-mod, mod-lt, one-le-pow}
use homemade_os.Buddy.{
  MemoryBlockManager, find_from, find_free_block, ceil_order_from, ceil_allocate_order, take_blocks,
  Allocation, fault, unavailable, allocated, allocated_from, allocate_at, allocate_block,
}
use homemade_os.Buddy.Account.{free_total, weigh}
use homemade_os.Buddy.Split.{IsBounded, Kept, take_blocks-account}

ceil_order_from-bounds : (n i s : ℕ) → (i ≤ ceil_order_from n i s) × (ceil_order_from n i s ≤ i + n)
unfolding ceil_order_from
ceil_order_from-bounds zero i s = (omega arith, omega arith)
ceil_order_from-bounds (suc n) i s =
    let (low, high) = ceil_order_from-bounds n (i + 1) s in
    elim (Bool-cases (ltb (2 ^ i) s)) [
      | inl e ↦ rw e (omega arith, omega arith)
      | inr e ↦ rw e (omega arith, omega arith)
    ]

-- The order is 31 for a size above the largest, and one that the allocator has for every other.
ceil_allocate_order-cases :
    (s : ℕ)
    → ((2 ^ 30 < s) × (ceil_allocate_order s ≡ 31))
      ⊎ ((12 ≤ ceil_allocate_order s) × (ceil_allocate_order s ≤ 30))
unfolding ceil_allocate_order
ceil_allocate_order-cases s =
    let (low, high) = ceil_order_from-bounds 18 12 s in
    elim (Bool-cases (ltb (2 ^ 30) s)) [
      | inl e ↦ rw e (inl (ground arith, refl))
      | inr e ↦ rw e (inr (low, high))
    ]

-- No block is found where the lists from the order on have none.
find_from-none :
    (n o : ℕ) (m : MemoryBlockManager) → find_from n o m ≡ none → weigh n o m.free_block ≡ 0
unfolding find_from weigh
find_from-none zero o m e = refl
find_from-none (suc n) o m e = elim (List-cases (m.free_block o)) [
  | inl empty ↦
      let rest : find_from n (o + 1) m ≡ none = sym (rw (empty, find_from) refl) ∙ e in
      rw empty (omega (arith, find_from-none n (o + 1) m rest))
  | inr (x, xs, found) ↦
      let some_found : find_from (suc n) o m ≡ some x = rw (found, find_from) refl in
      absurd (let no : some x ≡ none = sym some_found ∙ e in ground arith)
]

find_free_block-none :
    (m : MemoryBlockManager) (o : ℕ)
    → find_free_block m o ≡ none
    → weigh (31 - o) o m.free_block ≡ 0
unfolding find_free_block
find_free_block-none m o e = find_from-none (31 - o) o m e

ceil_allocate_order-low : (s : ℕ) → 12 ≤ ceil_allocate_order s
ceil_allocate_order-low s = elim (ceil_allocate_order-cases s) [
  | inl (large, e) ↦ omega (arith, e)
  | inr (low, high) ↦ low
]

-- What an allocation of `size` bytes makes of the free blocks of `m`.
abbrev pub IsAllocation : MemoryBlockManager → (size : ℕ) → Allocation → Type 0
IsAllocation m size fault = Unit
IsAllocation m size unavailable =
    (2 ^ 30 < size)
    ⊎ (weigh (31 - ceil_allocate_order size) (ceil_allocate_order size) m.free_block ≡ 0)
IsAllocation m size (allocated b m') =
    (c : ℕ) × (size ≤ c)
    × (free_total m' + c ≡ free_total m)
    × (m'.free_size ≡ free_total m')
    × IsBounded m'

div_ceil-le : (size x : ℕ) → 0 < x → size ≤ x * ((size + x - 1) / x)
div_ceil-le size x p = omega (arith, div-add-mod (size + x - 1) x, mod-lt (size + x - 1) p)

-- The sum of the free blocks, and the free size, where the blocks are taken.
allocated_from-IsAllocation :
    (m : MemoryBlockManager) (b0 size count so : ℕ) (o : Option MemoryBlockManager)
    → size ≤ 2 ^ so * count
    → m.free_size ≡ free_total m
    → free_total m < 2 ^ 32
    → Kept (free_total m) m.free_size (2 ^ so * count) o
    → IsAllocation m size (allocated_from b0 count so o)
unfolding free_total
allocated_from-IsAllocation m b0 size count so none fits account small kept = tt
allocated_from-IsAllocation m b0 size count so (some m') fits account small (total, same, bounded) =
    (
      2 ^ so * count,
      fits,
      total,
      omega (arith, total, same, account, small, mul_comm (2 ^ so) count),
      bounded,
    )

allocate_at-IsAllocation :
    (m : MemoryBlockManager) (b0 size so : ℕ)
    → 12 ≤ so
    → IsBounded m
    → m.free_size ≡ free_total m
    → free_total m < 2 ^ 32
    → IsAllocation m size (allocate_at m b0 size so)
allocate_at-IsAllocation m b0 size so low bounded account small =
    let x : ℕ = 2 ^ so in
    let count : ℕ = (size + x - 1) / x in
    let step : ℕ = x / 2 ^ 12 in
    allocated_from-IsAllocation m b0 size count so (take_blocks count m b0 step so)
      (div_ceil-le size x (one-le-pow so 2 (omega arith))) account small
      (take_blocks-account count so step m b0 low bounded)

-- Where the free size is the sum of the free blocks, below 2 ^ 32, and every order is one that the allocator has:
-- an allocation that finds no block was of more than 2 ^ 30 bytes, or no free block is large enough;
-- an allocation that gives a block, with no assertion failing, takes at least the size asked for from
-- the free blocks, and the free size is again their sum.
pub allocate_block_lem :
    (m : MemoryBlockManager) (size split_size : ℕ)
    → IsBounded m
    → m.free_size ≡ free_total m
    → free_total m < 2 ^ 32
    → IsAllocation m size (allocate_block m size split_size)
unfolding allocate_block
allocate_block_lem m size split_size bounded account small = elim (ceil_allocate_order-cases size) [
  | inl (large, ao) ↦
      let beyond : ltb 30 (ceil_allocate_order size) ≡ true = ground (arith, ao) in
      rw beyond (inl large)
  | inr (low, high) ↦
      let within : ltb 30 (ceil_allocate_order size) ≡ false = ground arith in
      rw within (elim (Option-cases (find_free_block m (ceil_allocate_order size))) [
        | inl e ↦ rw e (inr (find_free_block-none m (ceil_allocate_order size) e))
        | inr (b0, e) ↦ rw e (elim (Bool-cases (leb size split_size)) [
          | inl whole ↦ rw whole (
              allocate_at-IsAllocation m b0 size (ceil_allocate_order size) low bounded account
                small)
          | inr pieces ↦
              rw pieces (elim (Bool-cases (2 ^ ceil_allocate_order split_size == split_size)) [
                | inr odd ↦ rw odd tt
                | inl power ↦ rw power (
                    allocate_at-IsAllocation m b0 size (ceil_allocate_order split_size)
                      (ceil_allocate_order-low split_size) bounded account small)
              ])
        ])
      ])
]
