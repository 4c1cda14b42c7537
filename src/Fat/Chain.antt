-- ===== src/Fat/Chain.antt =====
-- The chain of a file, and the count of its clusters.
use homemade_os.Base.{
  ℕ, zero, suc, ◌+◌, ◌-◌, ◌%◌, ◌*◌, ◌/◌, ◌⊎◌, ◌≢◌, inl, inr, ◌^◌, ◌≤◌, ◌<◌, ◌≡◌, refl, ap, ◌∙◌,
  arith, true, false, none, some, List, [], ◌∷◌, length,
}
use native.Mathlib.Decide.{dec_lt}
use homemade_os.Fat.{
  Partition, next_cluster_by_fat, is_valid_cluster, clusters_per_fat, count_from,
  count_cluster_by_fat,
}

-- A cluster is one of the table, no mark of the end, and not marked as bad.
abbrev pub IsUsable : Partition → (c : ℕ) → Type 0
IsUsable dp c =
    (c < 0x0ffffff8)
    × (c < dp.sectors_per_fat32 * dp.bytes_per_sector % 2 ^ 32 / 4)
    × (dp.fat c ≢ 0x0ffffff7)

abbrev pub IsEnd : Partition → (c : ℕ) → Type 0
IsEnd dp c =
    (0x0ffffff8 ≤ c)
    ⊎ (dp.sectors_per_fat32 * dp.bytes_per_sector % 2 ^ 32 / 4 ≤ c)
    ⊎ (dp.fat c ≡ 0x0ffffff7)

pub IsUsable-valid : (dp : Partition) (c : ℕ) → IsUsable dp c → is_valid_cluster c dp ≡ true
unfolding is_valid_cluster clusters_per_fat
IsUsable-valid dp c (number, inside, good) = ground arith

pub IsEnd-invalid : (dp : Partition) (c : ℕ) → IsEnd dp c → is_valid_cluster c dp ≡ false
unfolding is_valid_cluster clusters_per_fat
IsEnd-invalid dp c (inl number) = ground arith
IsEnd-invalid dp c (inr (inl outside)) = ground arith
IsEnd-invalid dp c (inr (inr bad)) = ground arith

-- From `c` on, the table leads through the clusters of the list, and ends behind them.
abbrev pub IsChain : Partition → (c : ℕ) → List ℕ → Type 0
IsChain dp c [] = IsEnd dp c
IsChain dp c (x ∷ xs) = (c ≡ x) × IsUsable dp c × IsChain dp (next_cluster_by_fat c dp) xs

count_from-IsChain :
    (fuel c n : ℕ) (dp : Partition) (xs : List ℕ)
    → IsChain dp c xs
    → length xs < fuel
    → n < 2 ^ 32
    → count_from fuel c n dp ≡ some ((n + length xs) % 2 ^ 32)
unfolding count_from
count_from-IsChain zero c n dp xs chain h small = absurd (omega arith)
count_from-IsChain (suc fuel) c n dp [] chain h small =
    let all : n ≡ (n + 0) % 2 ^ 32 = omega arith in rw (IsEnd-invalid dp c chain) (ap some all)
count_from-IsChain (suc fuel) c n dp (x ∷ xs) chain h small =
    let rest =
      count_from-IsChain fuel (next_cluster_by_fat c dp) ((n + 1) % 2 ^ 32) dp xs chain.2
        (omega arith) (omega arith) in
    let all : ((n + 1) % 2 ^ 32 + length xs) % 2 ^ 32 ≡ (n + suc (length xs)) % 2 ^ 32 =
      omega arith in
    rw (IsUsable-valid dp c chain.1) (rest ∙ ap some all)

-- `steps` entries of the table further on.
abbrev pub follow : (steps c : ℕ) → Partition → ℕ
follow zero c dp = c
follow (suc n) c dp = follow n (next_cluster_by_fat c dp) dp

-- Where every cluster that is reached is valid, the loop uses up all of its rounds.
count_from-endless :
    (fuel c n : ℕ) (dp : Partition)
    → ((steps : ℕ) → is_valid_cluster (follow steps c dp) dp ≡ true)
    → count_from fuel c n dp ≡ none
unfolding count_from
count_from-endless zero c n dp valid = refl
count_from-endless (suc fuel) c n dp valid = rw (valid 0) (
    count_from-endless fuel (next_cluster_by_fat c dp) ((n + 1) % 2 ^ 32) dp
      (λ steps. valid (suc steps)))

follow-add : (i j c : ℕ) (dp : Partition) → follow (i + j) c dp ≡ follow j (follow i c dp) dp
follow-add zero j c dp = let all : 0 + j ≡ j = omega arith in ap (λ n. follow n c dp) all
follow-add (suc i) j c dp =
    let next : suc i + j ≡ suc (i + j) = omega arith in
    ap (λ n. follow n c dp) next ∙ follow-add i j (next_cluster_by_fat c dp) dp

cycle_valid :
    (bound steps n c : ℕ) (dp : Partition)
    → steps < bound
    → follow (suc n) c dp ≡ c
    → ((i : ℕ) → i ≤ n → is_valid_cluster (follow i c dp) dp ≡ true)
    → is_valid_cluster (follow steps c dp) dp ≡ true
cycle_valid zero steps n c dp h back valid = absurd (omega arith)
cycle_valid (suc bound) steps n c dp h back valid = elim (dec_lt n steps) [
  | no inside ↦ valid steps (omega arith)
  | yes beyond ↦
      let split : steps ≡ suc n + (steps - suc n) = omega arith in
      let again : follow steps c dp ≡ follow (steps - suc n) c dp =
        ap (λ k. follow k c dp) split
        ∙ follow-add (suc n) (steps - suc n) c dp
        ∙ ap (λ d. follow (steps - suc n) d dp) back in
      ap (λ d. is_valid_cluster d dp) again
      ∙ cycle_valid bound (steps - suc n) n c dp (omega arith) back valid
]

-- The clusters of a chain are counted, modulo 2 ^ 32, on more rounds than it has clusters.
pub count_cluster_by_fat-IsChain :
    (fuel c : ℕ) (dp : Partition) (xs : List ℕ)
    → IsChain dp c xs
    → length xs < fuel
    → count_cluster_by_fat fuel c dp ≡ some (length xs % 2 ^ 32)
unfolding count_cluster_by_fat
count_cluster_by_fat-IsChain fuel c dp xs chain h =
    count_from-IsChain fuel c 0 dp xs chain h (omega arith)
    ∙ ap (λ n. some (n % 2 ^ 32)) (omega arith)

-- From a cluster that the table leads back to over valid clusters only, the loop does not end on any
-- number of rounds.
pub count_cluster_by_fat-cycle :
    (n c : ℕ) (dp : Partition)
    → follow (suc n) c dp ≡ c
    → ((i : ℕ) → i ≤ n → is_valid_cluster (follow i c dp) dp ≡ true)
    → (fuel : ℕ) → count_cluster_by_fat fuel c dp ≡ none
unfolding count_cluster_by_fat
count_cluster_by_fat-cycle n c dp back valid fuel =
    count_from-endless fuel c 0 dp
      (λ steps. cycle_valid (suc steps) steps n c dp (omega arith) back valid)
