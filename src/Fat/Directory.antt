-- ===== src/Fat/Directory.antt =====
-- src/kernel/file/fat.c: names, the entries of a directory, and the search for a path (`initRootDirEntry`
-- to `getFileName`, `toFATFileName`, `searchDirectory`, the loop of `openFATTask`). An entry is the list of
-- its 32 bytes. A character of a name behind its list reads as 0.
pub mod Names
pub mod Search
pub mod Walk
use homemade_os.Base.{
  ℕ, zero, suc, ◌+◌, ◌-◌, ◌*◌, ◌/◌, ◌%◌, ◌^◌, Bool, true, false, ◌&&◌, ◌||◌, not, Option, none,
  some, List, [], ◌∷◌, ◌++◌, ltb, leb, ◌==◌, if◌then◌else◌, get_or, set, replicate, take, drop,
  bit_and,
}
use homemade_os.Text.{
  Comparison, equal, less, greater, strncpy, strncmp, toupper, index_of, index_of_not,
}

abbrev pub Entry : Type 0
Entry = List ℕ

abbrev pub attribute : Entry → ℕ
attribute d = get_or d 11 0

abbrev pub load16 : Entry → ℕ → ℕ
load16 d i = get_or d i 0 + get_or d (i + 1) 0 * 2 ^ 8

-- `FAT_DIRECTORY` is 0x10.
unfoldable pub init_root_dir_entry : (root_cluster : ℕ) → Entry
init_root_dir_entry root_cluster =
    let low =
      set (set (replicate 32 0) 26 (root_cluster % 2 ^ 8)) 27 (root_cluster / 2 ^ 8 % 2 ^ 8) in
    let high =
      set (set low 20 (root_cluster / 2 ^ 16 % 2 ^ 8)) 21 (root_cluster / 2 ^ 24 % 2 ^ 8) in
    set high 11 16

unfoldable pub get_begin_cluster : Entry → ℕ
get_begin_cluster d = (load16 d 26 + load16 d 20 * 2 ^ 16) % 2 ^ 32

unfoldable pub is_end_of_dir_entry : Entry → Bool
is_end_of_dir_entry d = get_or d 0 0 == 0

unfoldable pub is_empty_dir_entry : Entry → Bool
is_empty_dir_entry d = get_or d 0 0 == 0xe5

-- The two loops of `getFileName` over the spaces at the end.
unfoldable pub trimmed : (end : ℕ) → List ℕ → ℕ
trimmed zero name = 0
trimmed (suc n) name = if get_or name n 0 == 32 then trimmed n name else suc n

-- The buffer `name` with what is written, and the length.
unfoldable pub get_file_name : Entry → (name : List ℕ) → List ℕ × ℕ
unfolding trimmed strncpy
get_file_name d name =
    let main_end = trimmed 8 d in
    let ext_end = trimmed 3 (drop 8 d) in
    let named = strncpy name d main_end in
    let dotted = set named main_end 46 in
    if ext_end == 0 then (named, main_end) else (
      take (main_end + 1) dotted ++ strncpy (drop (main_end + 1) dotted) (drop 8 d) ext_end,
      main_end + 1 + ext_end,
    )

-- The loop to the last dot, downward from `i`.
unfoldable pub last_dot : (i : ℕ) → (name : List ℕ) → ℕ
last_dot zero name = 0
last_dot (suc i) name = if not (get_or name (suc i) 0 == 46) then last_dot i name else suc i

-- A loop `new_name[at + i] = toupper(name[from + i])`, with `rounds` left.
unfoldable pub upper_into : (rounds i at from : ℕ) → (new_name name : List ℕ) → List ℕ
upper_into zero i at from new_name name = new_name
upper_into (suc n) i at from new_name name =
    upper_into n (i + 1) at from (set new_name (at + i) (toupper (get_or name (from + i) 0))) name

-- With `mainLen` and `ext` known.
unfoldable pub format_parts : (name : List ℕ) → (length main_len ext : ℕ) → Option (List ℕ)
format_parts name length main_len ext =
    if ltb 8 main_len || ltb 3 (length - ext)
    then none
    else some
        (upper_into (length - ext) 0 8 ext (upper_into main_len 0 0 0 (replicate 11 32) name) name)

-- `none`: the result is 0, and the new name is not written.
unfoldable pub to_fat_file_name : (name : List ℕ) → (length : ℕ) → Option (List ℕ)
to_fat_file_name name length =
    let i = last_dot ((length + 2 ^ 32 - 1) % 2 ^ 32) name in
    if get_or name i 0 == 46
    then format_parts name length i (i + 1)
    else format_parts name length length length

abbrev pub is_named : Entry → (formatted_name : List ℕ) → Bool
is_named d formatted_name = elim (strncmp d formatted_name 11) [
  | equal ↦ true
  | less ↦ false
  | greater ↦ false
]

-- The loop of `searchDirectory` over what is left of the directory; `found` is `e`.
unfoldable pub search_entries :
    List Entry → (formatted_name : List ℕ) → (found : Option Entry) → Option Entry
search_entries [] formatted_name found = found
search_entries (d ∷ dir) formatted_name found =
    let next =
      if is_empty_dir_entry d then found else if is_named d formatted_name then some d else found in
    let rest = search_entries dir formatted_name next in
    if is_end_of_dir_entry d then found else rest

-- `unset` is what stands in the new name before.
unfoldable pub search_directory :
    (unset : List ℕ) → List Entry → (name : List ℕ) → (length : ℕ) → Option Entry
search_directory unset dir name length =
    search_entries dir (elim (to_fat_file_name name length) [ none ↦ unset | some n ↦ n ]) none

-- How the loop of `openFATTask` goes on: `break` with `ok`, or the next level's name from where to where.
pub data Turn : Type 0 where
  stop : (ok : Bool) → Turn
  level : (from to : ℕ) → Turn

unfoldable pub turn : (file_name : List ℕ) → (name_length name_index : ℕ) → Entry → Turn
turn file_name name_length name_index d =
    let i = index_of_not file_name name_index name_length 47 in
    let j = index_of file_name i name_length 47 in
    if i == j
    then stop ((bit_and (attribute d) 8 == 0) && not (attribute d == 15))
    else if not (attribute d == 16)
    then stop false
    else level i j

-- The loop: the entry that the path leads to, `some none` where `ok` ends as 0, and `none` out of fuel.
-- `next_level` is `nextLevelDirectory`: the entry of a name in a directory, if there is one; the name is
-- the list of the characters that the length counts.
unfoldable pub open_walk :
    (fuel : ℕ)
    → (next_level : Entry → (name : List ℕ) → Option Entry) → (file_name : List ℕ)
    → (name_length name_index : ℕ) → Entry
    → Option (Option Entry)
open_walk zero next_level file_name name_length name_index d = none
open_walk (suc fuel) next_level file_name name_length name_index d =
    elim (turn file_name name_length name_index d) [
      | stop ok ↦ some (if ok then some d else none)
      | level from to ↦ elim (next_level d (take (to - from) (drop from file_name))) [
        | none ↦ some none
        | some d' ↦ open_walk fuel next_level file_name name_length to d'
      ]
    ]
