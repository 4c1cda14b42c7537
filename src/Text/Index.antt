-- ===== src/Text/Index.antt =====
-- `indexOf` and `indexOfNot` of src/lib/common.c find the first place.
use homemade_os.Base.{
  ℕ, zero, suc, ◌+◌, ◌-◌, ◌≤◌, ◌<◌, ◌≡◌, ◌≢◌, ◌⊎◌, ◌∙◌, inl, inr, false, List, arith, get_or, ◌==◌,
  ==_iff,
}
use native.Mathlib.Decide.{ℕ_discrete}
use homemade_os.Text.{index_of_from, index_of}

record IsFirst (s : List ℕ) (i len c r : ℕ) : Type 0 where
  from : i ≤ r
  to : r ≤ len
  before : (j : ℕ) → i ≤ j → j < r → get_or s j 0 ≢ c
  found : (r ≡ len) ⊎ (get_or s r 0 ≡ c)

index_of_from-IsFirst :
    (n : ℕ) (s : List ℕ) (i c : ℕ) → IsFirst s i (i + n) c (index_of_from n s i c)
unfolding index_of_from
index_of_from-IsFirst zero s i c = record {
  from = omega arith;
  to = omega arith;
  before = λ j p q. absurd (omega arith);
  found = inl (omega arith);
}
index_of_from-IsFirst (suc n) s i c =
    let r = index_of_from-IsFirst n s (i + 1) c in
    elim (ℕ_discrete (get_or s i 0) c) [
      | yes here ↦
          let e = (==_iff (get_or s i 0) c).1 here in
          rw (e, index_of_from)
            (record {
              from = omega arith;
              to = omega arith;
              before = λ j p q. absurd (omega arith);
              found = inr here;
            })
      | no not_here ↦
          let e : (get_or s i 0 == c) ≡ false = ground arith in
          rw (e, index_of_from)
            (record {
              from = omega (arith, r.from);
              to = omega (arith, r.to);
              before = λ j p q. elim (ℕ_discrete j i) [
                | yes same ↦ rw same not_here
                | no other ↦ r.before j (omega arith) q
              ];
              found = elim r.found [ inl end ↦ inl (omega (arith, end)) | inr at ↦ inr at ];
            })
    ]

-- `indexOf` from `i` up to `len`: the result lies between them, no earlier place from `i` on holds
-- the character, and the result does unless it is `len`.
pub index_of_lem :
    (s : List ℕ) (i len c : ℕ)
    → i ≤ len
    → let r = index_of s i len c in
      (i ≤ r)
      × (r ≤ len)
      × ((j : ℕ) → i ≤ j → j < r → get_or s j 0 ≢ c)
      × ((r ≡ len) ⊎ (get_or s r 0 ≡ c))
unfolding index_of
index_of_lem s i len c h =
    let f = index_of_from-IsFirst (len - i) s i c in
    let end : i + (len - i) ≡ len = omega arith in
    (f.from, omega (arith, f.to), f.before, elim f.found [ inl e ↦ inl (e ∙ end) | inr e ↦ inr e ])
