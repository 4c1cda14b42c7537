-- ===== src/Buddy/Tests.antt =====
-- The theorems about blocks applied to an array of four blocks.
use homemade_os.Base.{ℕ, ◌≡◌, refl, List, Option, none, some, [], ◌∷◌, ◌==◌, if◌then◌else◌}
use homemade_os.Buddy.{
  MemoryBlockManager, release_block, Allocation, fault, unavailable, allocated, allocate_block,
}

-- The first two blocks are free as one, and the third.
abbrev three_free : MemoryBlockManager
three_free = record {
  begin_address = 65536;
  block_count = 4;
  free_size = 12288;
  size_order = λ b. if b == 0 then 13 else 12;
  free_block = λ o. if o == 13 then 0 ∷ [] else if o == 12 then 2 ∷ [] else [];
}

-- All four merge, into a block of 16 KB at the first index.
abbrev free_of_order : ℕ → Option MemoryBlockManager → List ℕ
free_of_order o none = []
free_of_order o (some m) = m.free_block o

merged_to_one : free_of_order 14 (release_block three_free 3) ≡ 0 ∷ []
unfolding release_block
merged_to_one = refl

-- A block that is free is not released.
released_twice : release_block three_free 2 ≡ none
unfolding release_block
released_twice = refl

abbrev four_free : MemoryBlockManager
four_free = record {
  begin_address = 65536;
  block_count = 4;
  free_size = 16384;
  size_order = λ b. if b == 0 then 14 else if b == 2 then 13 else 12;
  free_block = λ o. if o == 14 then 0 ∷ [] else [];
}

abbrev block_of : Allocation → Option ℕ
block_of fault = none
block_of unavailable = none
block_of (allocated b m) = some b

first_block_given : block_of (allocate_block four_free 5000 4096) ≡ some 0
unfolding allocate_block
first_block_given = refl
