-- ===== src/Fat.antt =====
-- src/kernel/file/fat.c: the clusters of a FAT32 partition, directories, the files that are open, and
-- reading. A `uint32_t` or `uintptr_t` is a number below 2 ^ 32.
pub mod Chain
pub mod Read
pub mod Directory
pub mod Shared
mod Tests
use homemade_os.Base.{
  ℕ, zero, suc, ◌+◌, ◌-◌, ◌*◌, ◌/◌, ◌%◌, ◌^◌, Bool, true, false, Option, none, some, List, [], ◌∷◌,
  leb, ◌==◌, if◌then◌else◌,
}

-- What is used of the boot record and of `FAT32DiskPartition`; the table has an entry for each cluster.
pub record Partition : Type 0 where
  pub first_data_lba : ℕ
  pub sector_size : ℕ
  pub sectors_per_cluster : ℕ
  pub bytes_per_sector : ℕ
  pub sectors_per_fat32 : ℕ
  pub root_cluster : ℕ
  pub fat : ℕ → ℕ

unfoldable pub get_cluster_size : Partition → ℕ
get_cluster_size dp = dp.sectors_per_cluster * dp.sector_size % 2 ^ 32

-- Of 64 bits; the difference is of 32.
unfoldable pub cluster_to_lba : Partition → (cluster : ℕ) → ℕ
cluster_to_lba dp cluster =
    (dp.first_data_lba + (cluster + 2 ^ 32 - 2) % 2 ^ 32 * dp.sectors_per_cluster) % 2 ^ 64

abbrev pub next_cluster_by_fat : (cluster : ℕ) → Partition → ℕ
next_cluster_by_fat cluster dp = dp.fat cluster

unfoldable pub clusters_per_fat : Partition → ℕ
clusters_per_fat dp = dp.sectors_per_fat32 * dp.bytes_per_sector % 2 ^ 32 / 4

-- `END_OF_CLUSTER` is 0x0ffffff8 and `BAD_CLUSTER` 0x0ffffff7.
unfoldable pub is_valid_cluster : (cluster : ℕ) → Partition → Bool
unfolding clusters_per_fat
is_valid_cluster cluster dp =
    if leb 268435448 cluster
    then false
    else if leb (clusters_per_fat dp) cluster
    then false
    else if dp.fat cluster == 268435447
    then false
    else true

-- The loop of `countClusterByFAT`. `none`: out of fuel.
unfoldable pub count_from : (fuel cluster cluster_count : ℕ) → Partition → Option ℕ
unfolding is_valid_cluster
count_from zero cluster cluster_count dp = none
count_from (suc fuel) cluster cluster_count dp =
    let rest = count_from fuel (next_cluster_by_fat cluster dp) ((cluster_count + 1) % 2 ^ 32) dp in
    if is_valid_cluster cluster dp then rest else some cluster_count

unfoldable pub count_cluster_by_fat : (fuel cluster : ℕ) → Partition → Option ℕ
unfolding count_from
count_cluster_by_fat fuel cluster dp = count_from fuel cluster 0 dp
