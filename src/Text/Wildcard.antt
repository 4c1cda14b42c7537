-- ===== src/Text/Wildcard.antt =====
-- `matchWildcardString` of src/lib/common.c. `none`: out of fuel.
use homemade_os.Base.{
  ℕ, zero, suc, ◌+◌, ◌-◌, Bool, true, false, not, Option, none, some, List, ltb, ◌==◌,
  if◌then◌else◌, get_or, drop,
}
use homemade_os.Text.{is_string_equal, index_of, index_of_not}

abbrev pub wildcard : ℕ
wildcard = 42

-- The first loop, from the ends of both: the lengths that are left, or `none` for the result 0.
unfoldable pub match_tail : (str : List ℕ) (s_len : ℕ) (pat : List ℕ) (p_len : ℕ) → Option (ℕ × ℕ)
match_tail str zero pat p_len = some (0, p_len)
match_tail str (suc s) pat zero = some (suc s, 0)
match_tail str (suc s) pat (suc p) =
    let rest = match_tail str s pat p in
    if get_or pat p 0 == wildcard
    then some (suc s, suc p)
    else if not (get_or pat p 0 == get_or str s 0)
    then none
    else rest

-- `while(1)`: the place behind the first match of `n` characters from `s0` on, `some none` for the
-- result 0.
unfoldable pub find_part :
    (fuel : ℕ) (str : List ℕ) (s_len s0 : ℕ) (part : List ℕ) (n : ℕ) → Option (Option ℕ)
find_part zero str s_len s0 part n = none
find_part (suc fuel) str s_len s0 part n =
    let rest = find_part fuel str s_len (s0 + 1) part n in
    if ltb s_len (s0 + n)
    then some none
    else if is_string_equal (drop s0 str) n part n
    then some (some (s0 + n))
    else rest

-- The second loop, over the parts of the pattern between the wildcards.
unfoldable pub match_parts :
    (fuel : ℕ) (str : List ℕ) (s_len : ℕ) (pat : List ℕ) (p_len s0 p0 : ℕ) → Option Bool
unfolding find_part
match_parts zero str s_len pat p_len s0 p0 = none
match_parts (suc fuel) str s_len pat p_len s0 p0 =
    let p1 = index_of pat p0 p_len wildcard in
    let found = find_part (suc s_len) str s_len s0 (drop p0 pat) (p1 - p0) in
    if ltb p0 p_len
    then elim found [
      | none ↦ none
      | some none ↦ some false
      | some (some s1) ↦
          match_parts fuel str s_len pat p_len s1 (index_of_not pat p1 p_len wildcard)
    ]
    else some true

unfoldable pub match_wildcard_string :
    (fuel : ℕ) (str : List ℕ) (s_len : ℕ) (pat : List ℕ) (p_len : ℕ) → Option Bool
unfolding match_tail match_parts
match_wildcard_string fuel str s_len pat p_len = elim (match_tail str s_len pat p_len) [
  | none ↦ some false
  | some (s, p) ↦ if p == 0 then some (s == 0) else match_parts fuel str s pat p 0 0
]
