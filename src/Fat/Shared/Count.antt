-- ===== src/Fat/Shared/Count.antt =====
-- The list of the open files counts the references to each file.
use homemade_os.Base.{
  ℕ, ◌+◌, ◌-◌, ◌<◌, ◌≡◌, refl, sym, ap₂, subst, ◌∙◌, arith, inl, inr, true, false, ◌&&◌, Option,
  none, some, List, [], ◌∷◌, ◌==◌, ==_iff, if◌then◌else◌, Bool-cases, Option-cases,
}
use homemade_os.Fat.Shared.{
  FatFile, is_file, add_to_found, search_create_fat_file, release_fat_file,
}

abbrev pub references : (dp cluster : ℕ) → List FatFile → ℕ
references dp cluster [] = 0
references dp cluster (ff ∷ files) =
    if is_file dp cluster ff then ff.reference_count else references dp cluster files

-- Each file is in the list once, and has a reference.
abbrev pub IsCounted : List FatFile → Type 0
IsCounted [] = Unit {0}
IsCounted (ff ∷ files) =
    (0 < ff.reference_count)
    × (references ff.disk_partition ff.begin_cluster files ≡ 0)
    × IsCounted files

add_to_found-references :
    (dp c dp' c' : ℕ) (files files' : List FatFile)
    → add_to_found dp c files ≡ some files'
    → references dp' c' files'
      ≡ (if (c == c') && (dp == dp') then references dp' c' files + 1 else references dp' c' files)
unfolding add_to_found
add_to_found-references dp c dp' c' [] files' h = ground arith
add_to_found-references dp c dp' c' (ff ∷ files) files' h =
    elim (Option-cases (add_to_found dp c files)) [
      | inl e ↦ ground arith
      | inr (fs, e) ↦ ground (arith, add_to_found-references dp c dp' c' files fs e)
    ]

add_to_found-none :
    (dp c : ℕ) (files : List FatFile) → add_to_found dp c files ≡ none → references dp c files ≡ 0
unfolding add_to_found
add_to_found-none dp c [] h = refl
add_to_found-none dp c (ff ∷ files) h = ground (arith, add_to_found-none dp c files)

-- A file that is opened has one reference more, and the others have as many as before.
pub search_create_fat_file-references :
    (new_lock : Option ℕ) (dp c dp' c' : ℕ) (files files' : List FatFile)
    → search_create_fat_file new_lock dp c files ≡ some files'
    → references dp' c' files'
      ≡ (if (c == c') && (dp == dp') then references dp' c' files + 1 else references dp' c' files)
unfolding search_create_fat_file
search_create_fat_file-references new_lock dp c dp' c' files files' h =
    elim (Option-cases (add_to_found dp c files)) [
      | inl e ↦ ground (arith, add_to_found-none dp c files)
      | inr (fs, e) ↦ ground (arith, add_to_found-references dp c dp' c' files fs e)
    ]

is_file-same :
    (dp c dp' c' : ℕ) (ff : FatFile)
    → is_file dp c ff ≡ true
    → is_file dp' c' ff ≡ ((c == c') && (dp == dp'))
is_file-same dp c dp' c' ff h = ground arith

is_file-other :
    (dp c dp' c' : ℕ) (ff : FatFile)
    → is_file dp c ff ≡ false
    → is_file dp' c' ff ≡ true
    → ((c == c') && (dp == dp')) ≡ false
is_file-other dp c dp' c' ff h k = ground arith

is_file-references :
    (dp c : ℕ) (ff : FatFile) (files : List FatFile)
    → is_file dp c ff ≡ true
    → references ff.disk_partition ff.begin_cluster files ≡ references dp c files
is_file-references dp c ff files h =
    let cluster : ff.begin_cluster ≡ c = ground arith in
    let partition : ff.disk_partition ≡ dp = ground arith in
    ap₂ (λ a b. references a b files) partition cluster

-- The first file is the one that is closed.
release_first :
    (dp c dp' c' : ℕ) (ff : FatFile) (files : List FatFile)
    → IsCounted (ff ∷ files)
    → is_file dp c ff ≡ true
    → references dp' c' (release_fat_file dp c (ff ∷ files)) ≡ (
        if (c == c') && (dp == dp')
        then references dp' c' (ff ∷ files) - 1
        else references dp' c' (ff ∷ files))
unfolding release_fat_file
release_first dp c dp' c' ff files counted e =
    let at = is_file-same dp c dp' c' ff e in
    elim (Bool-cases (ff.reference_count - 1 == 0)) [
      | inl last ↦ elim (Bool-cases ((c == c') && (dp == dp'))) [
        | inl same ↦
            let none_left : references dp' c' files ≡ ff.reference_count - 1 =
              sym (is_file-references dp' c' ff files (at ∙ same))
              ∙ counted.1
              ∙ sym ((==_iff _ 0).0 last) in
            rw (e, last, at, same) none_left
        | inr other ↦ rw (e, last, at, other) refl
      ]
      | inr left ↦ elim (Bool-cases ((c == c') && (dp == dp'))) [
        | inl same ↦ rw (e, left, at, same) refl
        | inr other ↦ rw (e, left, at, other) refl
      ]
    ]

-- A file that is closed has one reference less, and the others have as many as before; one without
-- references is not in the list.
pub release_fat_file-references :
    (dp c dp' c' : ℕ) (files : List FatFile)
    → IsCounted files
    → references dp' c' (release_fat_file dp c files)
      ≡ (if (c == c') && (dp == dp') then references dp' c' files - 1 else references dp' c' files)
unfolding release_fat_file
release_fat_file-references dp c dp' c' [] h = elim (Bool-cases ((c == c') && (dp == dp'))) [
  | inl e ↦ rw e (omega arith)
  | inr e ↦ rw e refl
]
release_fat_file-references dp c dp' c' (ff ∷ files) h = elim (Bool-cases (is_file dp c ff)) [
  | inl e ↦ release_first dp c dp' c' ff files h e
  | inr e ↦ elim (Bool-cases (is_file dp' c' ff)) [
    | inl here ↦ rw (e, here, is_file-other dp c dp' c' ff e here) refl
    | inr there ↦ rw (e, there) (release_fat_file-references dp c dp' c' files h.2)
  ]
]

IsCounted-add :
    (dp c : ℕ) (files files' : List FatFile)
    → IsCounted files
    → add_to_found dp c files ≡ some files'
    → IsCounted files'
unfolding add_to_found
IsCounted-add dp c [] files' h k = ground arith
IsCounted-add dp c (ff ∷ files) files' h k = elim (Bool-cases (is_file dp c ff)) [
  | inl e ↦
      let found : record ff { reference_count = ff.reference_count + 1 } ∷ files ≡ files' =
        ground arith in
      subst IsCounted found (omega arith, h.1, h.2)
  | inr e ↦ elim (Option-cases (add_to_found dp c files)) [
    | inl missing ↦ ground arith
    | inr (fs, found) ↦
        let other : ((c == ff.begin_cluster) && (dp == ff.disk_partition)) ≡ false = ground arith in
        let none_there : references ff.disk_partition ff.begin_cluster fs ≡ 0 =
          add_to_found-references dp c ff.disk_partition ff.begin_cluster files fs found
          ∙ rw other h.1 in
        let whole : ff ∷ fs ≡ files' = ground arith in
        subst IsCounted whole (h.0, none_there, IsCounted-add dp c files fs h.2 found)
  ]
]

opened :
    (dp c l : ℕ) (files : List FatFile)
    → IsCounted files
    → references dp c files ≡ 0
    → IsCounted (
        record { begin_cluster = c; disk_partition = dp; rw_lock = l; reference_count = 1 } ∷ files)
opened dp c l files h none_yet = (omega arith, none_yet, h)

-- Opening and closing keep the list counted.
pub search_create_fat_file-IsCounted :
    (new_lock : Option ℕ) (dp c : ℕ) (files files' : List FatFile)
    → IsCounted files
    → search_create_fat_file new_lock dp c files ≡ some files'
    → IsCounted files'
unfolding search_create_fat_file
search_create_fat_file-IsCounted new_lock dp c files files' h k =
    elim (Option-cases (add_to_found dp c files)) [
      | inl e ↦ elim (Option-cases new_lock) [
        | inl failed ↦ ground arith
        | inr (l, made) ↦
            let fresh : record {
              begin_cluster = c;
              disk_partition = dp;
              rw_lock = l;
              reference_count = 1;
            }
                  ∷ files
                ≡ files' =
              ground arith in
            subst IsCounted fresh (opened dp c l files h (add_to_found-none dp c files e))
      ]
      | inr (fs, e) ↦
          let same : fs ≡ files' = ground arith in
          subst IsCounted same (IsCounted-add dp c files fs h e)
    ]

pub release_fat_file-IsCounted :
    (dp c : ℕ) (files : List FatFile) → IsCounted files → IsCounted (release_fat_file dp c files)
unfolding release_fat_file
release_fat_file-IsCounted dp c [] h = tt
release_fat_file-IsCounted dp c (ff ∷ files) h = elim (Bool-cases (is_file dp c ff)) [
  | inl e ↦ elim (Bool-cases (ff.reference_count - 1 == 0)) [
    | inl last ↦ rw (e, last) h.2
    | inr left ↦
        let more : 0 < ff.reference_count - 1 = let some_left = left in ground arith in
        rw (e, left) (more, h.1, h.2)
  ]
  | inr e ↦
      let none_there : references ff.disk_partition ff.begin_cluster (release_fat_file dp c files)
          ≡ 0 =
        release_fat_file-references dp c ff.disk_partition ff.begin_cluster files h.2
        ∙ elim (Bool-cases ((c == ff.begin_cluster) && (dp == ff.disk_partition))) [
          | inl same ↦ rw same (omega (arith, h.1))
          | inr other ↦ rw other h.1
        ] in
      rw e (h.0, none_there, release_fat_file-IsCounted dp c files h.2)
]
