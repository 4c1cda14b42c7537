-- ===== src/Text/Equal.antt =====
-- `isStringEqual` of src/lib/common.c decides equality.
use homemade_os.Base.{
  ℕ, ◌<◌, ◌≡◌, ◌↔◌, refl, sym, ap, ◌∙◌, inl, inr, Bool, true, false, some, List, [], ◌∷◌, arith,
  length, ◌==◌, ==_iff, if◌then◌else◌, Bool-cases, both_absurd, subst, All,
}
use homemade_os.Text.{Comparison, equal, strcmp2, strncmp, is_string_equal}

abbrev is_equal : Comparison → Bool
is_equal equal = true
is_equal _ = false

strcmp2-same : (s : List ℕ) → is_equal (strcmp2 (some (length s)) s s) ≡ true
unfolding strcmp2
strcmp2-same [] = refl
strcmp2-same (c ∷ s) = ground (arith, strcmp2-same s)

strcmp2-differ :
    (s t : List ℕ)
    → All (λ c. 0 < c) s
    → length s ≡ length t
    → is_equal (strcmp2 (some (length s)) s t) ≡ true
    → s ≡ t
unfolding strcmp2
strcmp2-differ [] [] a l e = refl
strcmp2-differ [] (d ∷ t) a l e = absurd (omega arith)
strcmp2-differ (c ∷ s) [] a l e = absurd (omega arith)
strcmp2-differ (c ∷ s) (d ∷ t) a l e = ground (arith, strcmp2-differ s t a.1 (omega arith))

on_lengths :
    (s t : List ℕ)
    → is_string_equal s (length s) t (length t)
      ≡ (if length s == length t then is_equal (strcmp2 (some (length s)) s t) else false)
unfolding is_string_equal strncmp
on_lengths s t = elim (Bool-cases (length s == length t)) [
  | inl e ↦ rw (e, is_string_equal) refl
  | inr e ↦ rw (e, is_string_equal) refl
]

-- On two strings without a terminator inside, with their lengths, `isStringEqual` answers whether
-- they are the same.
pub is_string_equal_iff :
    (s t : List ℕ)
    → All (λ c. 0 < c) s
    → (is_string_equal s (length s) t (length t) ≡ true) ↔ (s ≡ t)
is_string_equal_iff s t a = (
  λ h.
      let h' = sym (on_lengths s t) ∙ h in
      elim (Bool-cases (length s == length t)) [
        | inl e ↦ strcmp2-differ s t a ((==_iff (length s) (length t)).0 e) (
            sym (ap (λ (b : Bool). if b then is_equal (strcmp2 (some (length s)) s t) else false) e)
            ∙ h')
        | inr e ↦
            both_absurd h'
              (ap (λ (b : Bool). if b then is_equal (strcmp2 (some (length s)) s t) else false) e)
      ],
  λ p.
      subst (λ u. is_string_equal s (length s) u (length u) ≡ true) p
        (on_lengths s s
          ∙ ap (λ (b : Bool). if b then is_equal (strcmp2 (some (length s)) s s) else false)
              ((==_iff (length s) (length s)).1 refl)
          ∙ strcmp2-same s),
)
