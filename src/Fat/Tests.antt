-- ===== src/Fat/Tests.antt =====
-- The theorems at a partition of two clusters for each file, and tests.
use homemade_os.Base.{
  ℕ, zero, suc, ◌+◌, ◌^◌, ◌<◌, ◌≤◌, ◌≡◌, inl, refl, ap, arith, true, Option, none, some, List, [],
  ◌∷◌, ◌++◌, ◌==◌, if◌then◌else◌, take, drop, length, replicate,
}
use homemade_os.Fat.{Partition, is_valid_cluster, get_cluster_size, cluster_to_lba}
use homemade_os.Fat.Chain.{IsChain, follow}
use homemade_os.Fat.Read.{Disk, read_cluster, read_file}
use homemade_os.Fat.Read.Content.{IsContent}
use homemade_os.Fat.Read.File.{read_file-within, read_file-behind}
use homemade_os.Fat.Directory.{
  Entry, open_walk, init_root_dir_entry, get_begin_cluster, get_file_name,
}
use homemade_os.Fat.Directory.Names.{field}
use homemade_os.Fat.Directory.Walk.{render, resolve, open_walk-render}
use homemade_os.Fat.Shared.{FatFile}
use homemade_os.Text.{toupper}

-- Clusters of 2 bytes; cluster 2 leads to 4, which is the last, and 3 leads to itself.
abbrev table : ℕ → ℕ
table c = if c == 2 then 4 else if c == 3 then 3 else 0x0fffffff

abbrev small : Partition
small = record {
  first_data_lba = 10;
  sector_size = 2;
  sectors_per_cluster = 1;
  bytes_per_sector = 64;
  sectors_per_fat32 = 1;
  root_cluster = 2;
  fat = table;
}

abbrev chain : List ℕ
chain = 2 ∷ 4 ∷ []

-- The bytes 20, 21 and so on.
abbrev disk : Disk
disk offset size = some (take size (offset ∷ (offset + 1) ∷ []))

abbrev content : List ℕ
content = 20 ∷ 21 ∷ 24 ∷ 25 ∷ []

chain-IsChain : IsChain small 2 chain
chain-IsChain = (
  refl,
  (omega arith, omega arith, omega arith),
  (refl, (omega arith, omega arith, omega arith), inl (omega arith)),
)

content-IsContent : IsContent disk small chain content
unfolding read_cluster get_cluster_size cluster_to_lba
content-IsContent =
    (20 ∷ 21 ∷ [], 24 ∷ 25 ∷ [], refl, refl, refl, (24 ∷ 25 ∷ [], [], refl, refl, refl, refl))

size-pos : 0 < get_cluster_size small
unfolding get_cluster_size
size-pos = omega arith

fits : (n : ℕ) → n < 1000 → n + get_cluster_size small < 2 ^ 32
unfolding get_cluster_size
fits n h = omega arith

valid_loop : (i : ℕ) → i ≤ 0 → is_valid_cluster (follow i 3 small) small ≡ true
unfolding is_valid_cluster
valid_loop zero h = refl
valid_loop (suc i) h = absurd (omega arith)

read_file-within_example : read_file 3 disk small 2 3 1 5 ≡ some (take 5 (drop 1 (take 3 content)))
read_file-within_example =
    read_file-within 3 2 disk small chain content size-pos chain-IsChain content-IsContent
      (omega arith) 3 1 5 (omega arith) (fits 3 (omega arith))

read_file-behind_example : read_file 3 disk small 2 1 2 2 ≡ some (take 2 (drop 2 content))
read_file-behind_example =
    read_file-behind 3 2 disk small chain content size-pos chain-IsChain content-IsContent
      (omega arith) 1 2 2 (omega arith) (fits 4 (omega arith))

-- The path //a/b/, where each name leads to a directory that has the name's first character in its cluster.
abbrev named_level : Entry → List ℕ → Option Entry
named_level d [] = none
named_level d (c ∷ n) = some (c ∷ replicate 10 32 ++ 16 ∷ [])

abbrev root : Entry
root = 0 ∷ replicate 10 32 ++ 16 ∷ []

abbrev path : List (ℕ × List ℕ)
path = (1, 97 ∷ []) ∷ (0, 98 ∷ 99 ∷ []) ∷ []

abbrev path_name : List ℕ
path_name = 67 ∷ render path 1

open_walk-render_example :
    open_walk 3 named_level path_name (length path_name) 1 root
    ≡ some (resolve named_level path root)
open_walk-render_example =
    open_walk-render 3 named_level (67 ∷ []) path 1 root
      (
        (λ e. absurd (omega (arith, ap length e)), omega arith),
        ((λ e. absurd (omega (arith, ap length e)), omega arith), tt),
      )
      (omega arith)

-- readme.md
abbrev readme : List ℕ
readme = 114 ∷ 101 ∷ 97 ∷ 100 ∷ 109 ∷ 101 ∷ []

abbrev markdown : List ℕ
markdown = 109 ∷ 100 ∷ []

readme_formatted :
    field 8 readme ++ field 3 markdown ≡ 82 ∷ 69 ∷ 65 ∷ 68 ∷ 77 ∷ 69 ∷ 32 ∷ 32 ∷ 77 ∷ 68 ∷ 32 ∷ []
unfolding toupper
readme_formatted = refl

abbrev readme_entry : Entry
readme_entry = (field 8 readme ++ field 3 markdown) ++ 32 ∷ replicate 20 0

readme_named :
    (get_file_name readme_entry (replicate 12 0))
    ≡ (82 ∷ 69 ∷ 65 ∷ 68 ∷ 77 ∷ 69 ∷ 46 ∷ 77 ∷ 68 ∷ 0 ∷ 0 ∷ 0 ∷ [], 9)
unfolding get_file_name toupper
readme_named = refl

root_cluster_kept : get_begin_cluster (init_root_dir_entry 0x12345678) ≡ 0x12345678
unfolding get_begin_cluster init_root_dir_entry
root_cluster_kept = refl

abbrev two_files : List FatFile
two_files =
    record { begin_cluster = 5; disk_partition = 1; rw_lock = 8; reference_count = 1 }
    ∷ record { begin_cluster = 7; disk_partition = 1; rw_lock = 9; reference_count = 2 }
    ∷ []
