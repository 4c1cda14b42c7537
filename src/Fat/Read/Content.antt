-- ===== src/Fat/Read/Content.antt =====
-- Reading a file is reading the bytes of its clusters, one behind the other.
use homemade_os.Base.{
  ℕ, zero, suc, ◌+◌, ◌-◌, ◌*◌, ◌%◌, ◌^◌, ◌≤◌, ◌<◌, ◌≡◌, refl, sym, ap, ap₂, ◌∙◌, inl, inr, arith,
  min, max, true, false, none, some, List, [], ◌∷◌, ◌++◌, append-nil, append_assoc, ltb, take, drop,
  length, length-drop, drop-ge, take-of_append, drop-of_append, take-min, take_nil, drop_nil,
  Bool-cases, lt→ltb, ge→ltb,
}
use native.Mathlib.Decide.{dec_lt}
use native.Mathlib.Nat.{mul-suc, add-mul-mod_self_left, mod-eq_of_lt}
use homemade_os.Fat.{Partition, get_cluster_size, next_cluster_by_fat, is_valid_cluster}
use homemade_os.Fat.Chain.{IsChain, IsUsable-valid, IsEnd-invalid}
use homemade_os.Fat.Read.{Disk, read_cluster, copied, read_round, read_loop}

-- The clusters of a chain are read in order, each whole.
abbrev pub IsContent : Disk → Partition → List ℕ → List ℕ → Type 0
IsContent disk dp [] content = content ≡ []
IsContent disk dp (x ∷ xs) content =
    (buffer : List ℕ) × (rest : List ℕ) × (read_cluster disk dp x ≡ some buffer)
    × (length buffer ≡ get_cluster_size dp)
    × (content ≡ buffer ++ rest)
    × IsContent disk dp xs rest

-- What is left to read at `fi` of the bytes from there on.
abbrev pub left_to_read : (read_offset read_end fi : ℕ) → List ℕ → List ℕ
left_to_read read_offset read_end fi content =
    take (read_end - max fi read_offset) (drop (read_offset - fi) content)

-- A cluster that is read gives its part of what is left.
copied-left :
    (cs k ro re : ℕ) (buffer rest : List ℕ)
    → 0 < cs
    → length buffer ≡ cs
    → ro ≤ re
    → cs * k < re
    → ro < cs * k + cs
    → re + cs < 2 ^ 32
    → copied (cs * k) cs ro re buffer ++ left_to_read ro re (cs * k + cs) rest
      ≡ left_to_read ro re (cs * k) (buffer ++ rest)
copied-left cs k ro re buffer rest pos size le inside here small =
    let fi : ℕ = cs * k in
    let d : ℕ = ro - fi in
    let n : ℕ = re - max fi ro in
    let start : max fi ro % cs ≡ d =
      let split : max fi ro ≡ d + cs * k = omega arith in
      ap (λ m. m % cs) split ∙ add-mul-mod_self_left d cs k ∙ mod-eq_of_lt (omega arith) in
    let whole = length-drop d buffer in
    let first : take (min ((fi + cs) % 2 ^ 32) re - max fi ro) (drop d buffer)
        ≡ take n (drop d buffer) =
      take-min (min ((fi + cs) % 2 ^ 32) re - max fi ro) n (drop d buffer)
        (omega (arith, whole, size)) in
    let none_dropped : d - length buffer ≡ 0 = omega (arith, size) in
    let beyond : re - max (fi + cs) ro ≡ n - length (drop d buffer) = omega (arith, whole, size) in
    let undropped : ro - (fi + cs) ≡ 0 = omega arith in
    let parts : take n (drop d (buffer ++ rest))
        ≡ take n (drop d buffer) ++ take (n - length (drop d buffer)) rest =
      ap (take n)
        (drop-of_append d buffer rest ∙ ap (λ j. drop d buffer ++ drop j rest) none_dropped)
      ∙ take-of_append n (drop d buffer) rest in
    ap₂ (λ a b. a ++ b)
      (ap (λ j. take (min ((fi + cs) % 2 ^ 32) re - max fi ro) (drop j buffer)) start ∙ first)
      (ap₂ (λ a b. take a (drop b rest)) beyond undropped)
    ∙ sym parts

-- A cluster in front of the place leaves what is left.
skipped-left :
    (cs fi ro re : ℕ) (buffer rest : List ℕ)
    → length buffer ≡ cs
    → fi + cs ≤ ro
    → left_to_read ro re (fi + cs) rest ≡ left_to_read ro re fi (buffer ++ rest)
skipped-left cs fi ro re buffer rest size le =
    let same : re - max (fi + cs) ro ≡ re - max fi ro = omega arith in
    let further : ro - (fi + cs) ≡ ro - fi - length buffer = omega (arith, size) in
    let front : drop (ro - fi) buffer ≡ [] = drop-ge buffer (ro - fi) (omega (arith, size)) in
    ap₂ (λ a b. take a (drop b rest)) same further
    ∙ ap (take (re - max fi ro)) (
        ap (λ l. l ++ drop (ro - fi - length buffer) rest) (sym front)
        ∙ sym (drop-of_append (ro - fi) buffer rest))

left_to_read-nil : (ro re fi : ℕ) → left_to_read ro re fi [] ≡ []
left_to_read-nil ro re fi =
    ap (take (re - max fi ro)) (drop_nil (ro - fi)) ∙ take_nil (re - max fi ro)

read_round-ge :
    (disk : Disk) (dp : Partition) (ro re fi c : ℕ) → re ≤ fi → read_round disk dp ro re fi c ≡ none
unfolding read_round
read_round-ge disk dp ro re fi c h = rw (ge→ltb fi re h) refl

read_round-end :
    (disk : Disk) (dp : Partition) (ro re fi c : ℕ)
    → is_valid_cluster c dp ≡ false
    → read_round disk dp ro re fi c ≡ none
unfolding read_round
read_round-end disk dp ro re fi c h = elim (Bool-cases (ltb fi re)) [
  | inl e ↦ rw (e, h) refl
  | inr e ↦ rw e refl
]

module _ (disk : Disk) (dp : Partition) (cs ro re fi c : ℕ) (size : get_cluster_size dp ≡ cs)
    (valid : is_valid_cluster c dp ≡ true) (before : fi < re) (small : re + cs < 2 ^ 32) where
  read_round-skip : fi + cs ≤ ro → read_round disk dp ro re fi c ≡ some []
  unfolding read_round
  read_round-skip h =
      let next : (fi + cs) % 2 ^ 32 ≤ ro = omega arith in
      rw (lt→ltb fi re before, valid, size, ge→ltb ro ((fi + cs) % 2 ^ 32) next) refl

  read_round-copy :
      (buffer : List ℕ)
      → ro < fi + cs
      → read_cluster disk dp c ≡ some buffer
      → read_round disk dp ro re fi c ≡ some (copied fi (get_cluster_size dp) ro re buffer)
  unfolding read_round
  read_round-copy buffer h got =
      let next : ro < (fi + cs) % 2 ^ 32 = omega arith in
      rw
        (
          lt→ltb fi re before,
          valid,
          ap (λ n. ltb ro ((fi + n) % 2 ^ 32)) size ∙ lt→ltb ro ((fi + cs) % 2 ^ 32) next,
          got,
        )
        refl

-- On more rounds than the chain has clusters, the loop gives what is left of its bytes.
pub read_loop-content :
    (fuel cs k ro re c : ℕ) (disk : Disk) (dp : Partition) (xs content out : List ℕ)
    → get_cluster_size dp ≡ cs
    → 0 < cs
    → IsChain dp c xs
    → IsContent disk dp xs content
    → length xs < fuel
    → ro ≤ re
    → re + cs < 2 ^ 32
    → read_loop fuel disk dp ro re (cs * k) c out
      ≡ some (out ++ left_to_read ro re (cs * k) content)
unfolding read_loop
read_loop-content zero cs k ro re c disk dp xs content out size pos chain held h le small =
    absurd (omega arith)
read_loop-content (suc fuel) cs k ro re c disk dp [] content out size pos chain held h le small =
    rw (read_round-end disk dp ro re (cs * k) c (IsEnd-invalid dp c chain), read_loop)
      (ap some (
        sym (
          ap (λ l. out ++ left_to_read ro re (cs * k) l) held
          ∙ ap (λ l. out ++ l) (left_to_read-nil ro re (cs * k))
          ∙ append-nil out)))
read_loop-content (suc fuel) cs k ro re c disk dp (x ∷ xs) content out size pos
      (here, usable, chain) (buffer, rest, got, whole, parts, held) h le small =
    elim (dec_lt (cs * k) re) [
      | no past ↦
          let none_left : re - max (cs * k) ro ≡ 0 = omega arith in
          rw (read_round-ge disk dp ro re (cs * k) c (omega arith), read_loop)
            (ap some (
              sym (append-nil out)
              ∙ ap (λ n. out ++ take n (drop (ro - cs * k) content)) (sym none_left)))
      | yes before ↦
          let valid = IsUsable-valid dp c usable in
          let wide : cs * suc k ≡ cs * k + cs = mul-suc cs k in
          let next : (cs * k + get_cluster_size dp) % 2 ^ 32 ≡ cs * suc k = omega arith in
          let again : (bytes : List ℕ)
              → read_loop fuel disk dp ro re ((cs * k + get_cluster_size dp) % 2 ^ 32)
                  (next_cluster_by_fat c dp) (out ++ bytes)
                ≡ some (out ++ (bytes ++ left_to_read ro re (cs * k + cs) rest)) =
            λ bytes.
              ap (λ n. read_loop fuel disk dp ro re n (next_cluster_by_fat c dp) (out ++ bytes))
                next
              ∙ read_loop-content fuel cs (suc k) ro re (next_cluster_by_fat c dp) disk dp xs rest
                  (out ++ bytes) size pos chain held (omega arith) le small
              ∙ ap (λ n. some ((out ++ bytes) ++ left_to_read ro re n rest)) wide
              ∙ ap some (append_assoc out bytes (left_to_read ro re (cs * k + cs) rest)) in
          let long : length buffer ≡ cs = whole ∙ size in
          elim (dec_lt ro (cs * k + cs)) [
            | no skip ↦
                rw
                  (
                    read_round-skip disk dp cs ro re (cs * k) c size valid before small
                        (omega arith),
                    read_loop,
                  )
                  (again []
                    ∙ ap (λ l. some (out ++ l))
                        (skipped-left cs (cs * k) ro re buffer rest long (omega arith)
                          ∙ ap (left_to_read ro re (cs * k)) (sym parts)))
            | yes inside ↦
                rw
                  (
                    read_round-copy disk dp cs ro re (cs * k) c size valid before small buffer
                        inside (ap (read_cluster disk dp) here ∙ got),
                    size,
                    read_loop,
                  )
                  (ap
                      (λ n.
                        read_loop fuel disk dp ro re ((cs * k + n) % 2 ^ 32)
                          (next_cluster_by_fat c dp) (out ++ copied (cs * k) cs ro re buffer))
                      (sym size)
                    ∙ again (copied (cs * k) cs ro re buffer)
                    ∙ ap (λ l. some (out ++ l))
                        (copied-left cs k ro re buffer rest pos long le before inside small
                          ∙ ap (left_to_read ro re (cs * k)) (sym parts)))
          ]
    ]
