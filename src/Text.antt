-- ===== src/Text.antt =====
-- Strings, memory and byte order of src/lib/common.c. A string is the list of its characters from the
-- pointer on; behind the list stands the terminator, 0. Characters are below 128, where signed and
-- unsigned comparisons agree.
pub mod Endian
pub mod Equal
pub mod Index
pub mod Wildcard
mod Tests
use homemade_os.Base.{
  ℕ, zero, suc, ◌+◌, ◌-◌, ◌*◌, ◌/◌, ◌%◌, ◌^◌, Bool, true, false, not, ◌&&◌, ◌||◌, Option, none,
  some, List, [], ◌∷◌, ltb, leb, ◌==◌, if◌then◌else◌, get_or, set, drop,
}

-- `memset` and `memcpy`, from index `i` with `rounds` bytes left.
unfoldable pub memset_from : (rounds i value : ℕ) → List ℕ → List ℕ
memset_from zero i value dst = dst
memset_from (suc n) i value dst = memset_from n (i + 1) value (set dst i value)

unfoldable pub memset : List ℕ → (value size : ℕ) → List ℕ
unfolding memset_from
memset dst value size = memset_from size 0 value dst

unfoldable pub memcpy_from : (rounds i : ℕ) → (dst src : List ℕ) → List ℕ
memcpy_from zero i dst src = dst
memcpy_from (suc n) i dst src = memcpy_from n (i + 1) (set dst i (get_or src i 0)) src

unfoldable pub memcpy : (dst src : List ℕ) → (size : ℕ) → List ℕ
unfolding memcpy_from
memcpy dst src size = memcpy_from size 0 dst src

unfoldable pub strlen : List ℕ → ℕ
strlen [] = 0
strlen (c ∷ s) = if c == 0 then 0 else suc (strlen s)

pub data Comparison : Type 0 where
  less equal greater : Comparison

-- The two characters differ: 1 or -1.
abbrev pub compare_chars : ℕ → ℕ → Comparison
compare_chars a b = if ltb b a then greater else less

abbrev pub behind : List ℕ → List ℕ
behind [] = []
behind (c ∷ s) = s

-- `strcmp2`; the characters left to compare, `none` for `ncmp == 0`.
unfoldable pub strcmp2 : Option ℕ → (s1 s2 : List ℕ) → Comparison
strcmp2 (some zero) s1 s2 = equal
strcmp2 (some (suc n)) [] s2 =
    if not (0 == get_or s2 0 0) then compare_chars 0 (get_or s2 0 0) else equal
strcmp2 (some (suc n)) (c ∷ s1) s2 =
    let rest = strcmp2 (some n) s1 (behind s2) in
    if not (c == get_or s2 0 0)
    then compare_chars c (get_or s2 0 0)
    else if c == 0
    then equal
    else rest
strcmp2 none [] s2 = if not (0 == get_or s2 0 0) then compare_chars 0 (get_or s2 0 0) else equal
strcmp2 none (c ∷ s1) s2 =
    let rest = strcmp2 none s1 (behind s2) in
    if not (c == get_or s2 0 0)
    then compare_chars c (get_or s2 0 0)
    else if c == 0
    then equal
    else rest

unfoldable pub strncmp : (s1 s2 : List ℕ) → ℕ → Comparison
strncmp s1 s2 n = strcmp2 (some n) s1 s2

unfoldable pub strcmp : (s1 s2 : List ℕ) → Comparison
strcmp s1 s2 = strcmp2 none s1 s2

-- `strncpy`, from index `a` with `rounds` characters left.
unfoldable pub strncpy_from : (rounds a : ℕ) → (dst src : List ℕ) → List ℕ
strncpy_from zero a dst src = dst
strncpy_from (suc n) a dst src =
    let rest = strncpy_from n (a + 1) (set dst a (get_or src a 0)) src in
    if get_or src a 0 == 0 then set dst a 0 else rest

unfoldable pub strncpy : (dst src : List ℕ) → ℕ → List ℕ
unfolding strncpy_from
strncpy dst src n = strncpy_from n 0 dst src

unfoldable pub tolower : ℕ → ℕ
tolower c = if leb 65 c && leb c 90 then c - 65 + 97 else c

unfoldable pub toupper : ℕ → ℕ
toupper c = if leb 97 c && leb c 122 then c - 97 + 65 else c

unfoldable pub isspace : ℕ → Bool
isspace c = (c == 32) || (c == 9) || (c == 10) || (c == 11) || (c == 12) || (c == 13)

-- `CHANGE_ENDIAN`, the masks and shifts written out
unfoldable pub change_endian16 : ℕ → ℕ
change_endian16 v = v % 2 ^ 8 * 2 ^ 8 + v / 2 ^ 8 % 2 ^ 8

unfoldable pub change_endian32 : ℕ → ℕ
unfolding change_endian16
change_endian32 v = change_endian16 (v % 2 ^ 16) * 2 ^ 16 + change_endian16 (v / 2 ^ 16) % 2 ^ 16

unfoldable pub change_endian64 : ℕ → ℕ
unfolding change_endian32
change_endian64 v = change_endian32 (v % 2 ^ 32) * 2 ^ 32 + change_endian32 (v / 2 ^ 32) % 2 ^ 32

unfoldable pub is_string_equal : (s1 : List ℕ) (len1 : ℕ) (s2 : List ℕ) (len2 : ℕ) → Bool
is_string_equal s1 len1 s2 len2 =
    if not (len1 == len2) then false else elim (strncmp s1 s2 len1) [ equal ↦ true | _ ↦ false ]

-- `indexOf` and `indexOfNot`, with `rounds` characters left.
unfoldable pub index_of_from : (rounds : ℕ) → List ℕ → (i c : ℕ) → ℕ
index_of_from zero s i c = i
index_of_from (suc n) s i c =
    let rest = index_of_from n s (i + 1) c in if not (get_or s i 0 == c) then rest else i

unfoldable pub index_of : List ℕ → (i len c : ℕ) → ℕ
unfolding index_of_from
index_of s i len c = index_of_from (len - i) s i c

unfoldable pub index_of_not_from : (rounds : ℕ) → List ℕ → (i c : ℕ) → ℕ
index_of_not_from zero s i c = i
index_of_not_from (suc n) s i c =
    let rest = index_of_not_from n s (i + 1) c in if get_or s i 0 == c then rest else i

unfoldable pub index_of_not : List ℕ → (i len c : ℕ) → ℕ
unfolding index_of_not_from
index_of_not s i len c = index_of_not_from (len - i) s i c
