-- ===== src/Fat/Read.antt =====
-- `readByFAT` and the reading part of `rwFATTask`. `disk` is what `syncSeekReadFile` gives for an offset
-- and a size: the bytes, or `none` where it fails or reads less. Memory for the cluster is there.
pub mod Content
pub mod File
use homemade_os.Base.{
  ℕ, zero, suc, ◌+◌, ◌-◌, ◌*◌, ◌%◌, ◌^◌, min, max, Bool, true, false, ◌&&◌, not, Option, none, some,
  List, [], ◌∷◌, ◌++◌, ltb, if◌then◌else◌, take, drop, length,
}
use homemade_os.Fat.{
  Partition, get_cluster_size, cluster_to_lba, next_cluster_by_fat, is_valid_cluster,
}

abbrev pub Disk : Type 0
Disk = (offset size : ℕ) → Option (List ℕ)

unfoldable pub read_cluster : Disk → Partition → (cluster : ℕ) → Option (List ℕ)
read_cluster disk dp cluster =
    disk (dp.sector_size * cluster_to_lba dp cluster % 2 ^ 64) (get_cluster_size dp)

-- The bytes that a round copies out of the cluster; the end of the cluster is of 32 bits. Where the end of the
-- copy is before its begin, no bytes stand for the `memcpy` of a negative length.
abbrev pub copied : (file_index cluster_size read_offset read_end : ℕ) → List ℕ → List ℕ
copied file_index cluster_size read_offset read_end cluster_buffer =
    let copy_begin = max file_index read_offset in
    let copy_end = min ((file_index + cluster_size) % 2 ^ 32) read_end in
    take (copy_end - copy_begin) (drop (copy_begin % cluster_size) cluster_buffer)

-- What a round gives: the end of the loop, or the bytes that it adds.
unfoldable pub read_round :
    Disk → Partition → (read_offset read_end file_index cluster : ℕ) → Option (List ℕ)
read_round disk dp read_offset read_end file_index cluster =
    if not (ltb file_index read_end && is_valid_cluster cluster dp)
    then none
    else if not (ltb read_offset ((file_index + get_cluster_size dp) % 2 ^ 32))
    then some []
    else elim (read_cluster disk dp cluster) [
      | none ↦ none
      | some buffer ↦ some (copied file_index (get_cluster_size dp) read_offset read_end buffer)
    ]

-- The loop; `out` is what `buffer` holds, and outer `none`: out of fuel.
unfoldable pub read_loop :
    (fuel : ℕ)
    → Disk
    → Partition
    → (read_offset read_end file_index cluster : ℕ) → (out : List ℕ) → Option (List ℕ)
read_loop zero disk dp read_offset read_end file_index cluster out = none
read_loop (suc fuel) disk dp read_offset read_end file_index cluster out =
    elim (read_round disk dp read_offset read_end file_index cluster) [
      | none ↦ some out
      | some bytes ↦
          read_loop fuel disk dp read_offset read_end ((file_index + get_cluster_size dp) % 2 ^ 32)
            (next_cluster_by_fat cluster dp) (out ++ bytes)
    ]

unfoldable pub read_by_fat :
    (fuel : ℕ) → Disk → Partition → (begin_cluster read_offset read_size : ℕ) → Option (List ℕ)
unfolding read_loop read_round read_cluster
read_by_fat fuel disk dp begin_cluster read_offset read_size =
    read_loop fuel disk dp read_offset ((read_offset + read_size) % 2 ^ 32) 0 begin_cluster []

-- The size that `rwFATTask` reads of a file; the difference is of 32 bits.
unfoldable pub read_file_size : (input_size file_size input_offset : ℕ) → ℕ
read_file_size input_size file_size input_offset =
    min input_size ((file_size + 2 ^ 32 - input_offset) % 2 ^ 32)

unfoldable pub read_file :
    (fuel : ℕ)
    → Disk
    → Partition
    → (begin_cluster file_size input_offset input_size : ℕ) → Option (List ℕ)
unfolding read_by_fat read_file_size
read_file fuel disk dp begin_cluster file_size input_offset input_size =
    read_by_fat fuel disk dp begin_cluster input_offset
      (read_file_size input_size file_size input_offset)
