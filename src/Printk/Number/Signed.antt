-- ===== src/Printk/Number/Signed.antt =====
-- A signed number is read back from its text.
use homemade_os.Base.{
  ℕ, zero, suc, ◌+◌, ◌-◌, ◌%◌, ◌^◌, ◌≤◌, ◌<◌, ◌≡◌, refl, ap, ◌∙◌, inl, inr, true, false, some, List,
  [], ◌∷◌, ◌++◌, arith, ◌==◌, length, Bool-cases, both_absurd,
}
use native.Mathlib.Nat.{one-le-pow, mod-eq_of_lt, mod-lt, mod_self}
use homemade_os.Printk.Number.{
  is_negative, negate, signed_to_string, string_to_unsigned, string_to_signed, read, with_sign,
}
use homemade_os.Printk.Number.Unsigned.{
  IsEnd, unsigned_to_string-string_to_unsigned, starts_unsigned,
}

pub negate-lt : (w n : ℕ) → negate w n < 2 ^ w
negate-lt w n = mod-lt (2 ^ w - n) (one-le-pow w 2 (omega arith))

-- Negating twice gives the number, the smallest of the type included.
negate-negate : (w n : ℕ) → n < 2 ^ w → negate w (negate w n) ≡ n
negate-negate w zero h =
    let none_left : negate w 0 ≡ 0 =
      let all : 2 ^ w - 0 ≡ 2 ^ w = omega arith in ap (λ m. m % 2 ^ w) all ∙ mod_self (2 ^ w) in
    ap (negate w) none_left ∙ none_left
negate-negate w (suc n) h =
    let once : negate w (suc n) ≡ 2 ^ w - suc n = mod-eq_of_lt (omega arith) in
    let back : 2 ^ w - (2 ^ w - suc n) ≡ suc n = omega arith in
    ap (negate w) once ∙ ap (λ m. m % 2 ^ w) back ∙ mod-eq_of_lt h

read_unsigned :
    (w base n : ℕ) (s rest : List ℕ)
    → starts_unsigned s ≡ true
    → string_to_unsigned w base (s ++ rest) ≡ (some (length s), n)
    → string_to_signed w base (s ++ rest) ≡ read (length s) n
unfolding string_to_signed
read_unsigned w base n [] rest d e = both_absurd d refl
read_unsigned w base n (c ∷ s) rest d e =
    let plus : (c == 43) ≡ false = ground arith in
    let minus : (c == 45) ≡ false = ground arith in
    let all : 0 + length (c ∷ s) ≡ length (c ∷ s) = omega arith in
    rw (plus, minus, e, string_to_signed) (ap (λ k. read k n) all)

read_negative :
    (w base u n : ℕ) (s : List ℕ)
    → string_to_unsigned w base s ≡ (some n, u)
    → string_to_signed w base (45 ∷ s) ≡ read (suc n) (negate w u)
unfolding string_to_signed
read_negative w base u n s e =
    let one : 1 + n ≡ suc n = omega arith in
    ap (with_sign w 1 true) e ∙ ap (λ k. read k (negate w u)) one

-- A number of `w` bits in two's complement is printed in every base from 2 to 36, and reading the
-- text, with anything behind it that is no digit, gives its length and the number.
pub signed_to_string-string_to_signed :
    (w base n : ℕ) (rest : List ℕ)
    → 2 ≤ base
    → base ≤ 36
    → 0 < w
    → n < 2 ^ w
    → IsEnd base rest
    → (text : List ℕ) × (signed_to_string w base n ≡ some text)
      × (string_to_signed w base (text ++ rest) ≡ read (length text) n)
unfolding signed_to_string
signed_to_string-string_to_signed w base n rest b k p h e = elim (Bool-cases (is_negative w n)) [
  | inl minus ↦
      let m : ℕ = negate w n in
      let (digits, printed, scanned, unsigned) =
        unsigned_to_string-string_to_unsigned w base m rest b k p (negate-lt w n) e in
      (
        45 ∷ digits,
        rw (minus, printed, signed_to_string) refl,
        read_negative w base m (length digits) (digits ++ rest) scanned
            ∙ ap (read (suc (length digits))) (negate-negate w n h),
      )
  | inr plus ↦
      let (text, printed, scanned, unsigned) =
        unsigned_to_string-string_to_unsigned w base n rest b k p h e in
      (
        text,
        rw (plus, printed, signed_to_string) refl,
        read_unsigned w base n text rest unsigned scanned,
      )
]
