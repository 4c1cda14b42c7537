-- ===== src/Fat/Shared.antt =====
-- `searchCreateFATFile` and `addFATFileReference` of src/kernel/file/fat.c: the list of the files that are
-- open, which share a reader-writer lock. Each runs under the lock of the list. A partition is the number
-- of its address; the lock is in the record by the number of its address. A count is an `int`; it stays below 2 ^ 31 here.
pub mod Count
use homemade_os.Base.{
  ℕ, ◌+◌, ◌-◌, ◌^◌, ◌%◌, Bool, true, false, ◌&&◌, Option, none, some, List, [], ◌∷◌, ◌==◌,
  if◌then◌else◌,
}

pub record FatFile : Type 0 where
  pub begin_cluster : ℕ
  pub disk_partition : ℕ
  pub rw_lock : ℕ
  pub reference_count : ℕ

abbrev pub is_file : (dp cluster : ℕ) → FatFile → Bool
is_file dp cluster ff = (ff.begin_cluster == cluster) && (ff.disk_partition == dp)

-- The search and the change of the count of the first file that is found; `none`: not found.
unfoldable pub add_to_found : (dp cluster : ℕ) → List FatFile → Option (List FatFile)
add_to_found dp cluster [] = none
add_to_found dp cluster (ff ∷ files) =
    let rest : Option (List FatFile) = elim (add_to_found dp cluster files) [
      | none ↦ none
      | some files' ↦ some (ff ∷ files')
    ] in
    if is_file dp cluster ff
    then some (record ff { reference_count = ff.reference_count + 1 } ∷ files)
    else rest

-- `searchCreateFATFile` with a `refCnt` of 1. `new_lock`: the lock that `createReaderWriterLock` gives, or
-- `none` where it or the memory for the file fails. The result is `none` for `NULL`.
unfoldable pub search_create_fat_file :
    (new_lock : Option ℕ) → (dp cluster : ℕ) → List FatFile → Option (List FatFile)
search_create_fat_file new_lock dp cluster files = elim (add_to_found dp cluster files) [
  | some files' ↦ some files'
  | none ↦ elim new_lock [
    | none ↦ none
    | some l ↦ some (
        record { begin_cluster = cluster; disk_partition = dp; rw_lock = l; reference_count = 1 }
        ∷ files)
  ]
]

-- `addFATFileReference` with -1, on the file of the partition and the cluster: the last reference takes
-- the file out of the list.
unfoldable pub release_fat_file : (dp cluster : ℕ) → List FatFile → List FatFile
release_fat_file dp cluster [] = []
release_fat_file dp cluster (ff ∷ files) =
    let rest = ff ∷ release_fat_file dp cluster files in
    if is_file dp cluster ff
    then (if ff.reference_count - 1 == 0
        then files
        else record ff { reference_count = ff.reference_count - 1 } ∷ files)
    else rest
