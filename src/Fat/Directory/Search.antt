-- ===== src/Fat/Directory/Search.antt =====
-- `searchDirectory` against its meaning: of the entries before the end of the directory, the last one
-- that is in use and has the name.
use homemade_os.Base.{
  ℕ, ◌≡◌, ◌∙◌, ap, refl, Bool, not, ◌&&◌, Option, none, some, List, [], ◌∷◌, if◌then◌else◌,
  Bool-cases, inl, inr,
}
use homemade_os.Fat.Directory.{
  Entry, is_end_of_dir_entry, is_empty_dir_entry, is_named, search_entries, search_directory,
  to_fat_file_name,
}

abbrev pub before_end : List Entry → List Entry
before_end [] = []
before_end (d ∷ dir) = if is_end_of_dir_entry d then [] else d ∷ before_end dir

abbrev pub last_such : (p : Entry → Bool) → (found : Option Entry) → List Entry → Option Entry
last_such p found [] = found
last_such p found (d ∷ dir) = last_such p (if p d then some d else found) dir

search_entries-last :
    (dir : List Entry) (formatted_name : List ℕ) (found : Option Entry)
    → search_entries dir formatted_name found
      ≡ last_such
          (λ d. not (is_empty_dir_entry d) && is_named d formatted_name)
          found
          (before_end dir)
unfolding search_entries
search_entries-last [] name found = refl
search_entries-last (d ∷ dir) name found =
    let next : (if is_empty_dir_entry d then found else if is_named d name then some d else found)
        ≡ (if not (is_empty_dir_entry d) && is_named d name then some d else found) =
      elim (Bool-cases (is_empty_dir_entry d)) [ inl e ↦ rw e refl | inr e ↦ rw e refl ] in
    let rest =
      search_entries-last dir name
        (if is_empty_dir_entry d then found else if is_named d name then some d else found) in
    elim (Bool-cases (is_end_of_dir_entry d)) [
      | inl e ↦ rw e refl
      | inr e ↦ rw e (
          rest
          ∙ ap
              (λ f.
                last_such (λ d'. not (is_empty_dir_entry d') && is_named d' name) f
                  (before_end dir))
              next)
    ]

-- For a name that `toFATFileName` takes, `searchDirectory` gives the last entry before the end of the
-- directory that is in use and has the formatted name, and none where there is no such entry.
pub search_directory-last :
    (unset : List ℕ) (dir : List Entry) (name formatted_name : List ℕ) (length : ℕ)
    → to_fat_file_name name length ≡ some formatted_name
    → search_directory unset dir name length
      ≡ last_such
          (λ d. not (is_empty_dir_entry d) && is_named d formatted_name)
          none
          (before_end dir)
unfolding search_directory
search_directory-last unset dir name formatted_name length h =
    rw h (search_entries-last dir formatted_name none)

-- For a name that `toFATFileName` refuses, the search goes by what stood in the array of the formatted
-- name before.
pub search_directory-unset :
    (unset : List ℕ) (dir : List Entry) (name : List ℕ) (length : ℕ)
    → to_fat_file_name name length ≡ none
    → search_directory unset dir name length
      ≡ last_such (λ d. not (is_empty_dir_entry d) && is_named d unset) none (before_end dir)
unfolding search_directory
search_directory-unset unset dir name length h = rw h (search_entries-last dir unset none)
