-- ===== src/Slab/Tests.antt =====
-- The theorems about slabs applied to a slab of units of 1008 bytes.
use homemade_os.Base.{[], ◌∷◌}
use homemade_os.Slab.{Slab}

abbrev fresh : Slab
fresh = record { address = 8192; used_count = 0; free_list = 11232 ∷ 10224 ∷ 9216 ∷ 8208 ∷ [] }

abbrev one_out : Slab
one_out = record { address = 8192; used_count = 1; free_list = 10224 ∷ 9216 ∷ 8208 ∷ [] }

abbrev two_out : Slab
two_out = record { address = 8192; used_count = 2; free_list = 9216 ∷ 8208 ∷ [] }

-- Two units are handed out, and the first of them is given back.
abbrev one_back : Slab
one_back = record { address = 8192; used_count = 1; free_list = 11232 ∷ 9216 ∷ 8208 ∷ [] }

abbrev full : Slab
full = record { address = 8192; used_count = 4; free_list = [] }
