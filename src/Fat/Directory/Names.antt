-- ===== src/Fat/Directory/Names.antt =====
-- The form that `toFATFileName` gives a name: two fields of 8 and 3 characters, in upper case, with
-- spaces behind.
use homemade_os.Base.{
  ℕ, zero, suc, ◌+◌, ◌-◌, ◌%◌, ◌^◌, ◌≤◌, ◌<◌, ◌≡◌, ◌≢◌, ◌⊎◌, inl, inr, refl, sym, ap, ap₂, ◌∙◌,
  arith, false, none, some, List, [], ◌∷◌, ◌++◌, map, append_assoc, append-nil, ltb, ◌==◌, get_or,
  set, replicate, length, length-append, length-replicate, get_or-append, All, Bool-cases, lt→ltb,
  ge→ltb,
}
use homemade_os.Text.{toupper}
use homemade_os.Fat.Directory.{last_dot, upper_into, format_parts, to_fat_file_name}

set-append : (p r : List ℕ) (x v : ℕ) → set (p ++ x ∷ r) (length p) v ≡ p ++ v ∷ r
set-append [] r x v = refl
set-append (y ∷ p) r x v = ap (λ l. y ∷ l) (set-append p r x v)

behind_dot :
    (main ext : List ℕ) (m : ℕ) → get_or (main ++ 46 ∷ ext) (length main + suc m) 0 ≡ get_or ext m 0
behind_dot [] ext m = let e : 0 + suc m ≡ suc m = omega arith in ap (λ i. get_or (46 ∷ ext) i 0) e
behind_dot (c ∷ main) ext m =
    let e : suc (length main) + suc m ≡ suc (length main + suc m) = omega arith in
    ap (λ i. get_or (c ∷ (main ++ 46 ∷ ext)) i 0) e ∙ behind_dot main ext m

-- A loop over the characters `s` puts them, in upper case, into the place of `q`.
upper_into-slices :
    (s q p r a b : List ℕ) (i at from : ℕ)
    → length q ≡ length s
    → at + i ≡ length p
    → from + i ≡ length a
    → upper_into (length s) i at from (p ++ (q ++ r)) (a ++ (s ++ b)) ≡ p ++ (map toupper s ++ r)
unfolding upper_into
upper_into-slices [] [] p r a b i at from same there here = refl
upper_into-slices [] (x ∷ q) p r a b i at from same there here = absurd (omega arith)
upper_into-slices (c ∷ s) [] p r a b i at from same there here = absurd (omega arith)
upper_into-slices (c ∷ s) (x ∷ q) p r a b i at from same there here =
    let written : set (p ++ x ∷ (q ++ r)) (at + i)
          (toupper (get_or (a ++ c ∷ (s ++ b)) (from + i) 0))
        ≡ (p ++ toupper c ∷ []) ++ (q ++ r) =
      ap₂ (λ j k. set (p ++ x ∷ (q ++ r)) j (toupper (get_or (a ++ c ∷ (s ++ b)) k 0))) there here
      ∙ ap (λ v. set (p ++ x ∷ (q ++ r)) (length p) (toupper v)) (get_or-append a c 0 (s ++ b))
      ∙ set-append p (q ++ r) x (toupper c)
      ∙ sym (append_assoc p (toupper c ∷ []) (q ++ r)) in
    ap₂ (λ l m. upper_into (length s) (i + 1) at from l m) written
      (sym (append_assoc a (c ∷ []) (s ++ b)))
    ∙ upper_into-slices s q (p ++ toupper c ∷ []) r (a ++ c ∷ []) b (i + 1) at from (omega arith)
        (omega (arith, length-append p (toupper c ∷ []))) (omega (arith, length-append a (c ∷ [])))
    ∙ append_assoc p (toupper c ∷ []) (map toupper s ++ r)

last_dot-main :
    (main ext : List ℕ) (m : ℕ)
    → ((j : ℕ) → j < m → get_or ext j 0 ≢ 46)
    → last_dot (length main + m) (main ++ 46 ∷ ext) ≡ length main
unfolding last_dot
last_dot-main [] ext zero other = refl
last_dot-main (c ∷ main) ext zero other =
    let e : suc (length main) + 0 ≡ suc (length main) = omega arith in
    ap (λ i. last_dot i (c ∷ (main ++ 46 ∷ ext))) e ∙ rw (get_or-append main 46 0 ext) refl
last_dot-main main ext (suc m) other =
    let e : length main + suc m ≡ suc (length main + m) = omega arith in
    let char : get_or (main ++ 46 ∷ ext) (suc (length main + m)) 0 ≡ get_or ext m 0 =
      ap (λ i. get_or (main ++ 46 ∷ ext) i 0) (sym e) ∙ behind_dot main ext m in
    let not_dot : (get_or ext m 0 == 46) ≡ false =
      let far = other m (omega arith) in ground arith in
    ap (λ i. last_dot i (main ++ 46 ∷ ext)) e
    ∙ rw (char, not_dot) (last_dot-main main ext m (λ j h. other j (omega arith)))

last_dot-none :
    (name : List ℕ) (m : ℕ) → ((j : ℕ) → j ≤ m → get_or name j 0 ≢ 46) → last_dot m name ≡ 0
unfolding last_dot
last_dot-none name zero other = refl
last_dot-none name (suc m) other =
    let not_dot : (get_or name (suc m) 0 == 46) ≡ false =
      let far = other (suc m) (omega arith) in ground arith in
    rw not_dot (last_dot-none name m (λ j h. other j (omega arith)))

All-get_or : (s : List ℕ) (j : ℕ) → All (λ c. c ≢ 46) s → get_or s j 0 ≢ 46
All-get_or [] j h = λ e. absurd (omega arith)
All-get_or (c ∷ s) zero h = h.0
All-get_or (c ∷ s) (suc j) h = All-get_or s j h.1

-- A field of `n` characters.
abbrev pub field : (n : ℕ) → List ℕ → List ℕ
field n s = map toupper s ++ replicate (n - length s) 32

abbrev spaces : ℕ → List ℕ
spaces n = replicate n 32

replicate-split : (n k : ℕ) → k ≤ n → spaces n ≡ spaces k ++ spaces (n - k)
replicate-split n zero h = let all : n ≡ n - 0 = omega arith in ap spaces all
replicate-split zero (suc k) h = absurd (omega arith)
replicate-split (suc n) (suc k) h =
    let same : n - k ≡ suc n - suc k = omega arith in
    ap (λ l. 32 ∷ l) (replicate-split n k (omega arith) ∙ ap (λ m. spaces k ++ spaces m) same)

length-map-toupper : (s : List ℕ) → length (map toupper s) ≡ length s
length-map-toupper [] = refl
length-map-toupper (c ∷ s) = ap suc (length-map-toupper s)

length-field : (n : ℕ) (s : List ℕ) → length s ≤ n → length (field n s) ≡ n
length-field n s h = omega (
  arith,
  length-append (map toupper s) (replicate (n - length s) 32),
  length-map-toupper s,
  length-replicate {A = ℕ} (n - length s) 32,
)

filled :
    (n : ℕ) (p s r name a b : List ℕ) (at from : ℕ)
    → length s ≤ n
    → at ≡ length p
    → from ≡ length a
    → name ≡ a ++ (s ++ b)
    → upper_into (length s) 0 at from (p ++ (replicate n 32 ++ r)) name ≡ p ++ (field n s ++ r)
filled n p s r name a b at from le there here whole =
    let q : List ℕ = replicate (length s) 32 in
    let rest : List ℕ = replicate (n - length s) 32 in
    let split : replicate n 32 ≡ q ++ rest = replicate-split n (length s) le in
    ap (λ l. upper_into (length s) 0 at from l name)
      (ap (λ l. p ++ (l ++ r)) split ∙ ap (λ l. p ++ l) (append_assoc q rest r))
    ∙ ap (upper_into (length s) 0 at from (p ++ (q ++ (rest ++ r)))) whole
    ∙ upper_into-slices s q p (rest ++ r) a b 0 at from (length-replicate (length s) 32)
        (omega arith) (omega arith)
    ∙ ap (λ l. p ++ l) (sym (append_assoc (map toupper s) rest r))

-- A name with a main part of at most 8 characters, a dot, and at most 3 further characters without a dot
-- is formatted: the fields of the two parts.
pub to_fat_file_name-dot :
    (main ext : List ℕ)
    → length main ≤ 8
    → length ext ≤ 3
    → All (λ c. c ≢ 46) ext
    → to_fat_file_name (main ++ 46 ∷ ext) (length main + suc (length ext))
      ≡ some (field 8 main ++ field 3 ext)
unfolding to_fat_file_name format_parts
to_fat_file_name-dot main ext h k plain =
    let name : List ℕ = main ++ 46 ∷ ext in
    let last : (length main + suc (length ext) + 2 ^ 32 - 1) % 2 ^ 32 ≡ length main + length ext =
      omega arith in
    let place : last_dot ((length main + suc (length ext) + 2 ^ 32 - 1) % 2 ^ 32) name
        ≡ length main =
      ap (λ i. last_dot i name) last
      ∙ last_dot-main main ext (length ext) (λ j _. All-get_or ext j plain) in
    let left : length main + suc (length ext) - (length main + 1) ≡ length ext = omega arith in
    let first = filled 8 [] main (replicate 3 32) name [] (46 ∷ ext) 0 0 h refl refl refl in
    let second : upper_into (length ext) 0 8 (length main + 1) (field 8 main ++ replicate 3 32) name
        ≡ field 8 main ++ field 3 ext =
      filled 3 (field 8 main) ext [] name (main ++ 46 ∷ []) [] 8 (length main + 1) k
        (sym (length-field 8 main h)) (sym (length-append main (46 ∷ [])))
        (ap (λ l. main ++ 46 ∷ l) (sym (append-nil ext))
          ∙ sym (append_assoc main (46 ∷ []) (ext ++ [])))
      ∙ ap (λ l. field 8 main ++ l) (append-nil (field 3 ext)) in
    rw (place, get_or-append main 46 0 ext, ge→ltb 8 (length main) h, left, ge→ltb 3 (length ext) k)
      (ap (λ l. some (upper_into (length ext) 0 8 (length main + 1) l name)) first ∙ ap some second)

-- A name without a dot, of 1 to 8 characters, is formatted with an empty second field.
pub to_fat_file_name-plain :
    (name : List ℕ)
    → name ≢ []
    → length name ≤ 8
    → All (λ c. c ≢ 46) name
    → to_fat_file_name name (length name) ≡ some (field 8 name ++ field 3 [])
unfolding to_fat_file_name format_parts upper_into
to_fat_file_name-plain [] nonempty h plain = absurd (nonempty refl)
to_fat_file_name-plain (c ∷ s) nonempty h plain =
    let name : List ℕ = c ∷ s in
    let last : (suc (length s) + 2 ^ 32 - 1) % 2 ^ 32 ≡ length s = omega arith in
    let place : last_dot ((suc (length s) + 2 ^ 32 - 1) % 2 ^ 32) name ≡ 0 =
      ap (λ i. last_dot i name) last
      ∙ last_dot-none name (length s) (λ j _. All-get_or name j plain) in
    let no_dot : (c == 46) ≡ false = let far = plain.0 in ground arith in
    let left : suc (length s) - suc (length s) ≡ 0 = omega arith in
    let first =
      filled 8 [] name (replicate 3 32) name [] [] 0 0 h refl refl (sym (append-nil name)) in
    rw (place, no_dot, ge→ltb 8 (suc (length s)) h, left) (ap some first)

-- A longer main part, or a longer part behind the last dot, is refused.
pub to_fat_file_name-long :
    (main ext : List ℕ)
    → length main + suc (length ext) < 2 ^ 32
    → All (λ c. c ≢ 46) ext
    → (8 < length main) ⊎ (3 < length ext)
    → to_fat_file_name (main ++ 46 ∷ ext) (length main + suc (length ext)) ≡ none
unfolding to_fat_file_name format_parts
to_fat_file_name-long main ext small plain long =
    let name : List ℕ = main ++ 46 ∷ ext in
    let last : (length main + suc (length ext) + 2 ^ 32 - 1) % 2 ^ 32 ≡ length main + length ext =
      omega arith in
    let place : last_dot ((length main + suc (length ext) + 2 ^ 32 - 1) % 2 ^ 32) name
        ≡ length main =
      ap (λ i. last_dot i name) last
      ∙ last_dot-main main ext (length ext) (λ j _. All-get_or ext j plain) in
    let left : length main + suc (length ext) - (length main + 1) ≡ length ext = omega arith in
    rw (place, get_or-append main 46 0 ext, left)
      (elim long [
        | inl far ↦ rw (lt→ltb 8 (length main) far) refl
        | inr far ↦ elim (Bool-cases (ltb 8 (length main))) [
          | inl e ↦ rw e refl
          | inr e ↦ rw (e, lt→ltb 3 (length ext) far) refl
        ]
      ])
