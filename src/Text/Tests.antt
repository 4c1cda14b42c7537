-- ===== src/Text/Tests.antt =====
-- The theorems on src/lib/common.c at concrete strings and numbers.
use homemade_os.Base.{ℕ, some, ◌≡◌, true, List, [], ◌∷◌, refl}
use homemade_os.Text.{is_string_equal, index_of, index_of_not, strncpy, strncmp, strcmp2}
use homemade_os.Text.Wildcard.{match_wildcard_string}

abbrev tcp : List ℕ
tcp = 116 ∷ 99 ∷ 112 ∷ []

abbrev udp : List ℕ
udp = 117 ∷ 100 ∷ 112 ∷ []

-- a copy stops behind the terminator
strncpy-short : strncpy (9 ∷ 9 ∷ 9 ∷ 9 ∷ 9 ∷ []) tcp 5 ≡ 116 ∷ 99 ∷ 112 ∷ 0 ∷ 9 ∷ []
unfolding strncpy
strncpy-short = refl

-- "ba" matches "a*"
unanchored : match_wildcard_string 3 (98 ∷ 97 ∷ []) 2 (97 ∷ 42 ∷ []) 2 ≡ some true
unfolding match_wildcard_string is_string_equal strncmp strcmp2 index_of index_of_not
unanchored = refl
