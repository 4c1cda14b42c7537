-- ===== src/Io/Separate.antt =====
-- A request is in one list of its task at most, and each operation moves the request that it is about.
use homemade_os.Base.{
  ℕ, ◌+◌, ◌-◌, ◌≤◌, ◌<◌, ◌≡◌, refl, sym, ap, subst, ◌∙◌, arith, inl, inr, true, false, Option, some,
  List, [], ◌∷◌, ◌==◌, ==_iff, if◌then◌else◌, Bool-cases, Option-cases,
}
use homemade_os.Io.{
  IoTask, search_io_list, remove, is_in_dqueue, unlink, pend_io, complete_io, is_expected,
  find_expected, take_completed,
}

abbrev pub occurrences : (ior : ℕ) → List ℕ → ℕ
occurrences ior [] = 0
occurrences ior (i ∷ rest) = (if i == ior then 1 else 0) + occurrences ior rest

abbrev pub IsSeparate : IoTask → Type 0
IsSeparate t = (ior : ℕ) → occurrences ior t.pending + occurrences ior t.completed ≤ 1

occurrences-remove :
    (ior i : ℕ) (xs : List ℕ)
    → occurrences i (remove ior xs) ≡ (if ior == i then occurrences i xs - 1 else occurrences i xs)
occurrences-remove ior i [] = ground arith
occurrences-remove ior i (x ∷ xs) = ground (arith, occurrences-remove ior i xs)

search_io_list-occurrences :
    (ior : ℕ) (xs : List ℕ) → search_io_list xs ior ≡ true → 0 < occurrences ior xs
search_io_list-occurrences ior [] h = cc
search_io_list-occurrences ior (x ∷ xs) h = ground (arith, search_io_list-occurrences ior xs)

search_io_list-absent :
    (ior : ℕ) (xs : List ℕ) → search_io_list xs ior ≡ false → occurrences ior xs ≡ 0
search_io_list-absent ior [] h = refl
search_io_list-absent ior (x ∷ xs) h = ground (arith, search_io_list-absent ior xs)

find_expected-occurrences :
    (expected : Option ℕ) (xs : List ℕ) (ior : ℕ)
    → find_expected expected xs ≡ some ior
    → (is_expected expected ior ≡ true) × (0 < occurrences ior xs)
find_expected-occurrences expected [] ior h = cc
find_expected-occurrences expected (x ∷ xs) ior h = elim (Bool-cases (is_expected expected x)) [
  | inl e ↦
      let same : x ≡ ior = ground arith in
      subst (λ y. (is_expected expected y ≡ true) × (0 < occurrences y (x ∷ xs))) same
        (e, rw ((==_iff x x).1 refl) (omega arith))
  | inr e ↦
      let rest : find_expected expected xs ≡ some ior = ground arith in
      let there = find_expected-occurrences expected xs ior rest in
      (there.0, omega (arith, there.1))
]

both_absent :
    (ior i : ℕ) (t : IoTask)
    → is_in_dqueue t ior ≡ false
    → (ior == i) ≡ true
    → (occurrences i t.pending ≡ 0) × (occurrences i t.completed ≡ 0)
both_absent ior i t h e =
    let same = (==_iff ior i).0 e in
    let first : search_io_list t.pending ior ≡ false = ground arith in
    let second : search_io_list t.completed ior ≡ false = ground arith in
    (
      ap (λ j. occurrences j t.pending) (sym same) ∙ search_io_list-absent ior t.pending first,
      ap (λ j. occurrences j t.completed) (sym same) ∙ search_io_list-absent ior t.completed second,
    )

one_present :
    (ior : ℕ) (t : IoTask)
    → is_in_dqueue t ior ≡ true
    → 0 < occurrences ior t.pending + occurrences ior t.completed
one_present ior t h = elim (Bool-cases (search_io_list t.pending ior)) [
  | inl e ↦ omega (arith, search_io_list-occurrences ior t.pending e)
  | inr e ↦
      let second : search_io_list t.completed ior ≡ true = ground arith in
      omega (arith, search_io_list-occurrences ior t.completed second)
]

unlink_lem :
    (ior i : ℕ) (t : IoTask)
    → IsSeparate t
    → (occurrences i (unlink ior t).pending ≡ (if ior == i then 0 else occurrences i t.pending))
      × (occurrences i (unlink ior t).completed
          ≡ (if ior == i then 0 else occurrences i t.completed))
unlink_lem ior i t s =
    let at_most = s i in
    ground (arith, occurrences-remove ior i t.pending, occurrences-remove ior i t.completed)

-- A request that is made pending was in no list.
pub pend_io_lem :
    (ior i : ℕ) (t t' : IoTask)
    → pend_io ior t ≡ some t'
    → (occurrences i t'.pending ≡ (if ior == i then 1 else occurrences i t.pending))
      × (occurrences i t'.completed ≡ (if ior == i then 0 else occurrences i t.completed))
unfolding pend_io
pend_io_lem ior i t t' h = elim (Bool-cases (is_in_dqueue t ior)) [
  | inl e ↦ ground arith
  | inr e ↦ elim (Bool-cases (ior == i)) [
    | inl same ↦ let gone = both_absent ior i t e same in ground arith
    | inr other ↦ ground arith
  ]
]

-- A request that is completed was in one of the lists.
pub complete_io_lem :
    (ior i : ℕ) (t t' : IoTask)
    → IsSeparate t
    → complete_io ior t ≡ some t'
    → (occurrences i t'.pending ≡ (if ior == i then 0 else occurrences i t.pending))
      × (occurrences i t'.completed ≡ (if ior == i then 1 else occurrences i t.completed))
unfolding complete_io
complete_io_lem ior i t t' s h = elim (Bool-cases (is_in_dqueue t ior)) [
  | inr e ↦ ground arith
  | inl e ↦ elim (Bool-cases (ior == i)) [
    | inl same ↦
        let here = one_present ior t e in
        let at_most = s i in
        let there : 0 < occurrences i t.pending + occurrences i t.completed =
          subst (λ j. 0 < occurrences j t.pending + occurrences j t.completed)
            ((==_iff ior i).0 same) here in
        ground (arith, occurrences-remove ior i t.pending, occurrences-remove ior i t.completed)
    | inr other ↦
        ground (arith, occurrences-remove ior i t.pending, occurrences-remove ior i t.completed)
  ]
]

-- The request that a round of `_waitIO` takes is one that is expected; it was completed, and is in no list
-- then.
pub take_completed_lem :
    (expected : Option ℕ) (ior i : ℕ) (t t' : IoTask)
    → IsSeparate t
    → take_completed expected t ≡ some (ior, t')
    → (is_expected expected ior ≡ true)
      × (occurrences ior t.completed ≡ 1)
      × (occurrences i t'.pending ≡ (if ior == i then 0 else occurrences i t.pending))
      × (occurrences i t'.completed ≡ (if ior == i then 0 else occurrences i t.completed))
unfolding take_completed
take_completed_lem expected ior i t t' s h =
    elim (Option-cases (find_expected expected t.completed)) [
      | inl e ↦ ground arith
      | inr (j, e) ↦
          let found : find_expected expected t.completed ≡ some ior = ground arith in
          let left : unlink ior t ≡ t' = ground arith in
          let there = find_expected-occurrences expected t.completed ior found in
          let one : occurrences ior t.completed ≡ 1 =
            let at_most = s ior in omega (arith, there.1) in
          let moved : (occurrences i (unlink ior t).pending
                ≡ (if ior == i then 0 else occurrences i t.pending))
              × (occurrences i (unlink ior t).completed
                  ≡ (if ior == i then 0 else occurrences i t.completed)) =
            unlink_lem ior i t s in
          subst
            (λ (u : IoTask).
              (is_expected expected ior ≡ true)
              × (occurrences ior t.completed ≡ 1)
              × (occurrences i u.pending ≡ (if ior == i then 0 else occurrences i t.pending))
              × (occurrences i u.completed ≡ (if ior == i then 0 else occurrences i t.completed)))
            left (there.0, one, moved.0, moved.1)
    ]

pub pend_io-IsSeparate :
    (ior : ℕ) (t t' : IoTask) → IsSeparate t → pend_io ior t ≡ some t' → IsSeparate t'
pend_io-IsSeparate ior t t' s h i =
    let moved = pend_io_lem ior i t t' h in let before = s i in ground arith

pub complete_io-IsSeparate :
    (ior : ℕ) (t t' : IoTask) → IsSeparate t → complete_io ior t ≡ some t' → IsSeparate t'
complete_io-IsSeparate ior t t' s h i =
    let moved = complete_io_lem ior i t t' s h in let before = s i in ground arith

pub unlink-IsSeparate : (ior : ℕ) (t : IoTask) → IsSeparate t → IsSeparate (unlink ior t)
unlink-IsSeparate ior t s i = let moved = unlink_lem ior i t s in let before = s i in ground arith
