-- ===== src/Fat/Directory/Walk.antt =====
-- The loop of `openFATTask` goes through the names of a path, with any number of slashes before each.
use homemade_os.Base.{
  inl, inr, ℕ, zero, suc, ◌+◌, ◌-◌, ◌<◌, ◌≡◌, ◌≢◌, refl, sym, ap, ap₂, ◌∙◌, arith, Bool, false, not,
  ◌&&◌, Option, none, some, List, [], ◌∷◌, ◌++◌, append_assoc, append-nil, ◌==◌, ==_iff,
  if◌then◌else◌, replicate, take, drop, length, length-append, length-replicate, get_or-append, All,
  Bool-cases, Option-cases, drop-append, take-append, bit_and,
}
use homemade_os.Text.{index_of_from, index_of_not_from, index_of, index_of_not}
use homemade_os.Fat.Directory.{Entry, attribute, stop, level, turn, open_walk}

-- How many slashes, or other characters, stand in front.
abbrev slashes : List ℕ → ℕ
slashes [] = 0
slashes (c ∷ s) = if c == 47 then suc (slashes s) else 0

abbrev others : List ℕ → ℕ
others [] = 0
others (c ∷ s) = if c == 47 then 0 else suc (others s)

further : (pre s : List ℕ) (c : ℕ) → (pre ++ c ∷ []) ++ s ≡ pre ++ c ∷ s
further pre s c = append_assoc pre (c ∷ []) s

longer : (pre : List ℕ) (c : ℕ) → length (pre ++ c ∷ []) ≡ length pre + 1
longer pre c = length-append pre (c ∷ [])

index_of_not_from-append :
    (pre s : List ℕ)
    → index_of_not_from (length s) (pre ++ s) (length pre) 47 ≡ length pre + slashes s
unfolding index_of_not_from
index_of_not_from-append pre [] = omega arith
index_of_not_from-append pre (c ∷ s) =
    let rest = index_of_not_from-append (pre ++ c ∷ []) s in
    let again : index_of_not_from (length s) (pre ++ c ∷ s) (length pre + 1) 47
        ≡ length pre + 1 + slashes s =
      ap₂ (λ l n. index_of_not_from (length s) l n 47) (sym (further pre s c)) (sym (longer pre c))
      ∙ rest
      ∙ ap (λ n. n + slashes s) (longer pre c) in
    rw (get_or-append pre c 0 s) (ground arith)

index_of_from-append :
    (pre s : List ℕ) → index_of_from (length s) (pre ++ s) (length pre) 47 ≡ length pre + others s
unfolding index_of_from
index_of_from-append pre [] = omega arith
index_of_from-append pre (c ∷ s) =
    let rest = index_of_from-append (pre ++ c ∷ []) s in
    let again : index_of_from (length s) (pre ++ c ∷ s) (length pre + 1) 47
        ≡ length pre + 1 + others s =
      ap₂ (λ l n. index_of_from (length s) l n 47) (sym (further pre s c)) (sym (longer pre c))
      ∙ rest
      ∙ ap (λ n. n + others s) (longer pre c) in
    rw (get_or-append pre c 0 s) (ground arith)

-- A name has characters, and no slash.
abbrev pub IsName : List ℕ → Type 0
IsName n = (n ≢ []) × All (λ c. c ≢ 47) n

-- A path: each name with the number of slashes before it that are more than one; and slashes at the end.
abbrev pub render : List (ℕ × List ℕ) → (at_end : ℕ) → List ℕ
render [] at_end = replicate at_end 47
render ((k, n) ∷ path) at_end = replicate (suc k) 47 ++ (n ++ render path at_end)

slashes-replicate : (k : ℕ) (s : List ℕ) → slashes (replicate k 47 ++ s) ≡ k + slashes s
slashes-replicate zero s = omega arith
slashes-replicate (suc k) s = omega (arith, slashes-replicate k s)

slashes-name : (n s : List ℕ) → IsName n → slashes (n ++ s) ≡ 0
slashes-name [] s name = absurd (name.0 refl)
slashes-name (c ∷ n) s name =
    let c_other = name.1.0 in let e : (c == 47) ≡ false = ground arith in rw e refl

others-name : (n s : List ℕ) → All (λ c. c ≢ 47) n → others (n ++ s) ≡ length n + others s
others-name [] s h = omega arith
others-name (c ∷ n) s (c_other, h) =
    let e : (c == 47) ≡ false = ground arith in rw e (omega (arith, others-name n s h))

others-render : (path : List (ℕ × List ℕ)) (at_end : ℕ) → others (render path at_end) ≡ 0
others-render [] zero = refl
others-render [] (suc k) = refl
others-render ((k, n) ∷ path) at_end = refl

index_of_not-append :
    (pre s : List ℕ)
    → index_of_not (pre ++ s) (length pre) (length (pre ++ s)) 47 ≡ length pre + slashes s
unfolding index_of_not
index_of_not-append pre s =
    let left : length (pre ++ s) - length pre ≡ length s = omega (arith, length-append pre s) in
    ap (λ n. index_of_not_from n (pre ++ s) (length pre) 47) left ∙ index_of_not_from-append pre s

index_of-append :
    (pre s : List ℕ)
    → index_of (pre ++ s) (length pre) (length (pre ++ s)) 47 ≡ length pre + others s
unfolding index_of
index_of-append pre s =
    let left : length (pre ++ s) - length pre ≡ length s = omega (arith, length-append pre s) in
    ap (λ n. index_of_from n (pre ++ s) (length pre) 47) left ∙ index_of_from-append pre s

index_of_end : (s : List ℕ) (n : ℕ) → index_of s n n 47 ≡ n
unfolding index_of index_of_from
index_of_end s n =
    let none_left : n - n ≡ 0 = omega arith in ap (λ k. index_of_from k s n 47) none_left

IsName-pos : (n : List ℕ) → IsName n → 0 < length n
IsName-pos [] name = absurd (name.0 refl)
IsName-pos (c ∷ n) name = omega arith

-- May the entry be opened: neither a volume's name nor a part of a long name.
abbrev pub is_openable : Entry → Bool
is_openable d = (bit_and (attribute d) 8 == 0) && not (attribute d == 15)

turn-last :
    (pre : List ℕ) (at_end : ℕ) (d : Entry)
    → turn (pre ++ render [] at_end) (length (pre ++ render [] at_end)) (length pre) d
      ≡ stop (is_openable d)
unfolding turn
turn-last pre at_end d =
    let s : List ℕ = replicate at_end 47 in
    let i = index_of_not-append pre s in
    let all : length pre + slashes s ≡ length (pre ++ s) = omega (
      arith,
      length-append pre s,
      length-replicate {A = ℕ} at_end 47,
      slashes-replicate at_end [],
      ap slashes (append-nil s),
    ) in
    let j : index_of (pre ++ s) (length (pre ++ s)) (length (pre ++ s)) 47 ≡ length (pre ++ s) =
      index_of_end (pre ++ s) (length (pre ++ s)) in
    rw (i, all, j, (==_iff (length (pre ++ s)) (length (pre ++ s))).1 refl) refl

turn-next :
    (pre : List ℕ) (k : ℕ) (n r : List ℕ) (d : Entry)
    → IsName n
    → others r ≡ 0
    → let s = replicate (suc k) 47 ++ (n ++ r) in
      turn (pre ++ s) (length (pre ++ s)) (length pre) d ≡ (
        if not (attribute d == 16)
        then stop false
        else level (length pre + suc k) (length pre + suc k + length n))
unfolding turn
turn-next pre k n r d name other =
    let sep : List ℕ = replicate (suc k) 47 in
    let s : List ℕ = sep ++ (n ++ r) in
    let i : index_of_not (pre ++ s) (length pre) (length (pre ++ s)) 47 ≡ length pre + suc k =
      index_of_not-append pre s
      ∙ omega (arith, slashes-replicate (suc k) (n ++ r), slashes-name n r name) in
    let width : length (pre ++ sep) ≡ length pre + suc k =
      omega (arith, length-append pre sep, length-replicate {A = ℕ} (suc k) 47) in
    let j : index_of (pre ++ s) (length pre + suc k) (length (pre ++ s)) 47
        ≡ length pre + suc k + length n =
      ap₂ (λ l m. index_of l m (length l) 47) (sym (append_assoc pre sep (n ++ r))) (sym width)
      ∙ index_of-append (pre ++ sep) (n ++ r)
      ∙ omega (arith, width, others-name n r name.1, other) in
    let e : (length pre + suc k == length pre + suc k + length n) ≡ false =
      let pos = IsName-pos n name in ground arith in
    rw (i, j, e) refl

-- What a path of names leads to from an entry.
abbrev pub resolve :
    (next_level : Entry → List ℕ → Option Entry) → List (ℕ × List ℕ) → Entry → Option Entry
resolve next_level [] d = if is_openable d then some d else none
resolve next_level ((k, n) ∷ path) d =
    let found : Option Entry = elim (next_level d n) [
      | none ↦ none
      | some d' ↦ resolve next_level path d'
    ] in
    if not (attribute d == 16) then none else found

abbrev pub AreNames : List (ℕ × List ℕ) → Type 0
AreNames [] = Unit {0}
AreNames ((k, n) ∷ path) = IsName n × AreNames path

slice :
    (a n r : List ℕ) (i : ℕ) → i ≡ length a → take (i + length n - i) (drop i (a ++ (n ++ r))) ≡ n
slice a n r i e =
    let size : i + length n - i ≡ length n = omega arith in
    ap₂ (λ m j. take m (drop j (a ++ (n ++ r)))) size e
    ∙ ap (take (length n)) (drop-append a (n ++ r))
    ∙ take-append n r

-- From behind what stands before a path, on more rounds than the path has names, the loop of `openFATTask`
-- resolves the names one by one, however many slashes stand before each and at the end: a name is looked
-- up if the entry's attribute is that of a directory, and the last entry has to be one that can be opened.
pub open_walk-render :
    (fuel : ℕ) (next_level : Entry → List ℕ → Option Entry) (pre : List ℕ)
    (path : List (ℕ × List ℕ)) (at_end : ℕ) (d : Entry)
    → AreNames path
    → length path < fuel
    → let file_name = pre ++ render path at_end in
      open_walk fuel next_level file_name (length file_name) (length pre) d
      ≡ some (resolve next_level path d)
unfolding open_walk
open_walk-render zero next_level pre path at_end d names h = absurd (omega arith)
open_walk-render (suc fuel) next_level pre [] at_end d names h =
    rw (turn-last pre at_end d, open_walk) refl
open_walk-render (suc fuel) next_level pre ((k, n) ∷ path) at_end d names h =
    let sep : List ℕ = replicate (suc k) 47 in
    let r : List ℕ = render path at_end in
    let file_name : List ℕ = pre ++ (sep ++ (n ++ r)) in
    let to : ℕ = length pre + suc k + length n in
    let turned = turn-next pre k n r d names.0 (others-render path at_end) in
    let grouped : ((pre ++ sep) ++ n) ++ r ≡ file_name =
      append_assoc (pre ++ sep) n r ∙ append_assoc pre sep (n ++ r) in
    let from : length pre + suc k ≡ length (pre ++ sep) =
      omega (arith, length-append pre sep, length-replicate {A = ℕ} (suc k) 47) in
    let place : length ((pre ++ sep) ++ n) ≡ to =
      omega (arith, length-append (pre ++ sep) n, from) in
    let part : take (to - (length pre + suc k)) (drop (length pre + suc k) file_name) ≡ n =
      ap (λ l. take (to - (length pre + suc k)) (drop (length pre + suc k) l))
        (sym (append_assoc pre sep (n ++ r)))
      ∙ slice (pre ++ sep) n r (length pre + suc k) from in
    elim (Bool-cases (attribute d == 16)) [
      | inr other ↦ rw (turned, other, open_walk) refl
      | inl dir ↦ elim (Option-cases (next_level d n)) [
        | inl missing ↦ rw (turned, dir, part, missing, open_walk) refl
        | inr (d', found) ↦
            rw (turned, dir, part, found, open_walk)
              (ap₂ (λ l i. open_walk fuel next_level l (length l) i d') (sym grouped) (sym place)
                ∙ open_walk-render fuel next_level ((pre ++ sep) ++ n) path at_end d' names.1
                    (omega arith))
      ]
    ]
