-- ===== src/Buddy.antt =====
-- src/kernel/memory/buddy.c: the blocks of memory, each at its index in `blockArray`. The element of a
-- block and the block itself are that index, and `isAcquirable` and the lock are left out.
pub mod Account
pub mod Split
pub mod Allocate
mod Tests
use homemade_os.Base.{
  ℕ, zero, suc, ◌+◌, ◌-◌, ◌*◌, ◌/◌, ◌%◌, ◌^◌, min, bit_xor, Bool, true, false, not, ◌&&◌, ◌||◌,
  Option, none, some, List, [], ◌∷◌, leb, ltb, ◌==◌, if◌then◌else◌,
}

abbrev pub min_block_order : ℕ
min_block_order = 12

abbrev pub max_block_order : ℕ
max_block_order = 30

-- `sizeOrder` of each block, and the list at each order, which is `freeBlock[order - MIN_BLOCK_ORDER]`. A
-- block in a list is in that of its order.
pub record MemoryBlockManager : Type 0 where
  pub begin_address : ℕ
  pub block_count : ℕ
  pub free_size : ℕ
  pub size_order : ℕ → ℕ
  pub free_block : ℕ → List ℕ

abbrev pub member : ℕ → List ℕ → Bool
member b [] = false
member b (x ∷ xs) = (b == x) || member b xs

abbrev pub remove : ℕ → List ℕ → List ℕ
remove b [] = []
remove b (x ∷ xs) = if b == x then xs else x ∷ remove b xs

abbrev pub put_at {ℓ} : {A : Type ℓ} → (ℕ → A) → ℕ → A → ℕ → A
put_at f i v = λ j. if j == i then v else f j

unfoldable pub address_to_index : MemoryBlockManager → (address : ℕ) → ℕ
address_to_index m address = (address - m.begin_address) / 2 ^ min_block_order

unfoldable pub index_to_address : MemoryBlockManager → (index : ℕ) → ℕ
index_to_address m index = (m.begin_address + index * 2 ^ min_block_order) % 2 ^ 32

unfoldable pub is_address_in_range : MemoryBlockManager → (address : ℕ) → Bool
is_address_in_range m address =
    if not (address % 2 ^ min_block_order == 0)
    then false
    else if ltb address m.begin_address
    then false
    else if leb m.block_count ((address - m.begin_address) / 2 ^ min_block_order)
    then false
    else true

-- `NULL` where the block is the last of the array.
unfoldable pub get_buddy : MemoryBlockManager → (b : ℕ) → Option ℕ
get_buddy m b =
    let buddy = bit_xor b (2 ^ (m.size_order b - min_block_order)) in
    if leb m.block_count buddy then none else some buddy

-- The loop of `ceilAllocateOrder` at `i`; 18 rounds reach the largest order.
unfoldable pub ceil_order_from : (rounds i s : ℕ) → ℕ
ceil_order_from zero i s = i
ceil_order_from (suc n) i s =
    let rest = ceil_order_from n (i + 1) s in if ltb (2 ^ i) s then rest else i

unfoldable pub ceil_allocate_order : (s : ℕ) → ℕ
unfolding ceil_order_from
ceil_allocate_order s =
    if ltb (2 ^ max_block_order) s
    then max_block_order + 1
    else ceil_order_from 18 min_block_order s

-- `IS_IN_DQUEUE`
abbrev pub is_free : MemoryBlockManager → (b : ℕ) → Bool
is_free m b = member b (m.free_block (m.size_order b))

-- `REMOVE_FROM_DQUEUE` and `ADD_TO_DQUEUE` at the order of the block.
abbrev pub remove_block : MemoryBlockManager → (b : ℕ) → MemoryBlockManager
remove_block m b =
    let o = m.size_order b in
    record m { free_block = put_at m.free_block o (remove b (m.free_block o)) }

abbrev pub add_block : MemoryBlockManager → (b : ℕ) → MemoryBlockManager
add_block m b =
    let o = m.size_order b in record m { free_block = put_at m.free_block o (b ∷ m.free_block o) }

abbrev pub set_order : MemoryBlockManager → (b order : ℕ) → MemoryBlockManager
set_order m b order = record m { size_order = put_at m.size_order b order }

-- Whether the loop of `releaseBlock_noLock` merges a block with its buddy.
abbrev pub merges : MemoryBlockManager → (b : ℕ) → Option ℕ → Bool
merges m b none = false
merges m b (some buddy) = is_free m buddy && (m.size_order buddy == m.size_order b)

-- The merged block is the one with the lower address.
abbrev pub merge_once : MemoryBlockManager → (b : ℕ) → Option ℕ → MemoryBlockManager × ℕ
merge_once m b none = (m, b)
merge_once m b (some buddy) =
    let m' = remove_block m buddy in
    let b' = min b buddy in (set_order m' b' (m'.size_order b' + 1), b')

-- The loop; each round raises the order, which ends at the largest.
unfoldable pub merge : (rounds : ℕ) → MemoryBlockManager → (b : ℕ) → MemoryBlockManager × ℕ
unfolding get_buddy
merge zero m b = (m, b)
merge (suc n) m b =
    let (m', b') = merge_once m b (get_buddy m b) in
    let rest = merge n m' b' in if merges m b (get_buddy m b) then rest else (m, b)

-- Whether the assertion of the loop holds in every round: no buddy that is met is of a larger order.
abbrev pub no_larger : MemoryBlockManager → (b : ℕ) → Option ℕ → Bool
no_larger m b none = true
no_larger m b (some buddy) = leb (m.size_order buddy) (m.size_order b)

unfoldable pub merge_asserts : (rounds : ℕ) → MemoryBlockManager → (b : ℕ) → Bool
unfolding get_buddy
merge_asserts zero m b = true
merge_asserts (suc n) m b =
    let (m', b') = merge_once m b (get_buddy m b) in
    let rest = merge_asserts n m' b' in
    no_larger m b (get_buddy m b) && (if merges m b (get_buddy m b) then rest else true)

-- `none`: an assertion fails, which are that the block is not free and the one of the loop. That of the
-- addresses of a block and its buddy, which only a debug build has, is not executed.
unfoldable pub release_block : MemoryBlockManager → (b : ℕ) → Option MemoryBlockManager
unfolding merge merge_asserts
release_block m b =
    let m' = record m { free_size = (m.free_size + 2 ^ m.size_order b) % 2 ^ 32 } in
    let rounds = max_block_order - m.size_order b in
    let (m'', b') = merge rounds m' b in
    if is_free m b || not (merge_asserts rounds m' b) then none else some (add_block m'' b')

-- The loop of `findFreeBlock` at the order `o`, with `rounds` orders left.
unfoldable pub find_from : (rounds o : ℕ) → MemoryBlockManager → Option ℕ
find_from zero o m = none
find_from (suc n) o m =
    let rest = find_from n (o + 1) m in elim (m.free_block o) [ [] ↦ rest | x ∷ xs ↦ some x ]

unfoldable pub find_free_block : MemoryBlockManager → (min_order : ℕ) → Option ℕ
unfolding find_from
find_free_block m min_order = find_from (max_block_order + 1 - min_order) min_order m

-- Whether the assertions about the buddy of a half hold.
abbrev pub is_half : MemoryBlockManager → (b b2 : ℕ) → Bool
is_half m b b2 = ltb b b2 && not (is_free m b2) && (m.size_order b2 == m.size_order b)

-- The loop that splits a block. `none`, here and below: an assertion fails.
unfoldable pub split_block : (rounds : ℕ) → MemoryBlockManager → (b : ℕ) → Option MemoryBlockManager
unfolding get_buddy
split_block zero m b = some m
split_block (suc n) m b =
    let m' = set_order m b (m.size_order b - 1) in
    elim (get_buddy m' b) [
      | none ↦ none
      | some b2 ↦
          let rest = split_block n (add_block m' b2) b in if is_half m' b b2 then rest else none
    ]

-- One round of the loop of `allocateBlock_noLock`: the block is taken from its list and split to the
-- order `so`, which it must not be below.
unfoldable pub take_block : MemoryBlockManager → (b so : ℕ) → Option MemoryBlockManager
unfolding split_block
take_block m b so =
    if not (is_free m b) || ltb (m.size_order b) so
    then none
    else split_block (m.size_order b - so) (remove_block m b) b

-- The loop, with `count` blocks left, each `step` indices behind the one before it.
unfoldable pub take_blocks :
    (count : ℕ) → MemoryBlockManager → (b step so : ℕ) → Option MemoryBlockManager
unfolding take_block
take_blocks zero m b step so = some m
take_blocks (suc n) m b step so = elim (take_block m b so) [
  | none ↦ none
  | some m' ↦ take_blocks n m' (b + step) step so
]

-- What `allocateBlock_noLock` gives: `NULL`, or the first block; or an assertion fails.
pub data Allocation : Type 0 where
  fault unavailable : Allocation
  allocated : (b : ℕ) → MemoryBlockManager → Allocation

-- The last lines: `splitBlockCount` is `DIV_CEIL(size, splitSize)`, with `splitSize` `2 ^ so`.
abbrev pub allocated_from : (b0 count so : ℕ) → Option MemoryBlockManager → Allocation
allocated_from b0 count so none = fault
allocated_from b0 count so (some m) =
    allocated b0 (record m { free_size = (m.free_size + 2 ^ 32 - count * 2 ^ so) % 2 ^ 32 })

abbrev pub allocate_at : MemoryBlockManager → (b0 size so : ℕ) → Allocation
allocate_at m b0 size so =
    let count = (size + 2 ^ so - 1) / 2 ^ so in
    allocated_from b0 count so (take_blocks count m b0 (2 ^ so / 2 ^ min_block_order) so)

unfoldable pub allocate_block : MemoryBlockManager → (size split_size : ℕ) → Allocation
unfolding ceil_allocate_order find_free_block take_blocks
allocate_block m size split_size =
    let ao = ceil_allocate_order size in
    let so = ceil_allocate_order split_size in
    if ltb max_block_order ao then unavailable else elim (find_free_block m ao) [
      | none ↦ unavailable
      | some b0 ↦
          if leb size split_size
          then allocate_at m b0 size ao
          else if 2 ^ so == split_size
          then allocate_at m b0 size so
          else fault
    ]

-- `resetBlockArray`, which `initMemoryBlockManager` calls with the number of blocks between its
-- addresses; the function that initialises a block sets the smallest order, as `initMemoryBlock` does.
unfoldable pub evaluate_block_count : (begin_addr end_addr : ℕ) → ℕ
evaluate_block_count begin_addr end_addr = (end_addr - begin_addr) / 2 ^ min_block_order

unfoldable pub reset_block_array :
    MemoryBlockManager → (initial_block_count : ℕ) → MemoryBlockManager
reset_block_array m initial_block_count = record {
  begin_address = m.begin_address;
  block_count = initial_block_count;
  free_size = 0;
  size_order = λ b. if ltb b initial_block_count then min_block_order else m.size_order b;
  free_block = λ o. [];
}

unfoldable pub init_memory_block_manager :
    MemoryBlockManager → (begin_addr end_addr : ℕ) → MemoryBlockManager
unfolding evaluate_block_count reset_block_array
init_memory_block_manager m begin_addr end_addr =
    reset_block_array (record m { begin_address = begin_addr })
      (evaluate_block_count begin_addr end_addr)
