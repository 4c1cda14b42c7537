-- ===== src/Printk/Number/Short.antt =====
-- The number of digits that a number needs.
use homemade_os.Base.{
  ℕ, zero, suc, ◌*◌, ◌/◌, ◌^◌, ◌≤◌, ◌<◌, ◌≡◌, refl, sym, ap, ◌∙◌, inl, inr, true, none, some, List,
  [], ◌∷◌, arith, ◌==◌, length, Bool-cases, Option-cases,
}
use native.Mathlib.Nat.{pow-succ', pow-zero, mul_comm, div-lt_iff_lt-mul}
use homemade_os.Printk.Number.{
  count_digits, write_digits, unsigned_to_string, signed_to_string, is_negative, negate,
}
use homemade_os.Printk.Number.Unsigned.{count_digits-total, length-write_digits}
use homemade_os.Printk.Number.Signed.{negate-lt}

count_digits-le_fuel : (fuel base n len : ℕ) → count_digits fuel base n ≡ some len → len ≤ fuel
unfolding count_digits
count_digits-le_fuel zero base n len e = ground arith
count_digits-le_fuel (suc fuel) base n len e = elim (Bool-cases (n / base == 0)) [
  | inl last ↦
      let got : count_digits (suc fuel) base n ≡ some 1 = rw last refl in
      let e' : some 1 ≡ some len = sym got ∙ e in ground arith
  | inr more ↦ elim (Option-cases (count_digits fuel base (n / base))) [
    | inl out ↦
        let got : count_digits (suc fuel) base n ≡ none = rw (more, out) refl in
        let e' : none ≡ some len = sym got ∙ e in ground arith
    | inr (i, counted) ↦
        let got : count_digits (suc fuel) base n ≡ some (suc i) = rw (more, counted) refl in
        let e' : some (suc i) ≡ some len = sym got ∙ e in
        let low = count_digits-le_fuel fuel base (n / base) i counted in ground arith
  ]
]

-- A number below `base ^ suc k` has at most `suc k` digits.
count_digits-le :
    (fuel k base n len : ℕ)
    → 2 ≤ base
    → n < base ^ suc k
    → count_digits fuel base n ≡ some len
    → len ≤ suc k
unfolding count_digits
count_digits-le zero k base n len b h e = ground arith
count_digits-le (suc fuel) zero base n len b h e =
    let first : base ^ 1 ≡ base =
      pow-succ' base 0 ∙ ap (λ m. base * m) (pow-zero base) ∙ omega arith in
    let small : n < 1 * base = omega (arith, h, first) in
    let last : n / base < 1 = (div-lt_iff_lt-mul (omega arith)).1 small in
    let stop : (n / base == 0) ≡ true = ground arith in
    let got : count_digits (suc fuel) base n ≡ some 1 = rw stop refl in
    let e' : some 1 ≡ some len = sym got ∙ e in ground arith
count_digits-le (suc fuel) (suc k) base n len b h e = elim (Bool-cases (n / base == 0)) [
  | inl last ↦
      let got : count_digits (suc fuel) base n ≡ some 1 = rw last refl in
      let e' : some 1 ≡ some len = sym got ∙ e in ground arith
  | inr more ↦ elim (Option-cases (count_digits fuel base (n / base))) [
    | inl out ↦
        let got : count_digits (suc fuel) base n ≡ none = rw (more, out) refl in
        let e' : none ≡ some len = sym got ∙ e in ground arith
    | inr (i, counted) ↦
        let got : count_digits (suc fuel) base n ≡ some (suc i) = rw (more, counted) refl in
        let e' : some (suc i) ≡ some len = sym got ∙ e in
        let wide : n < base ^ suc k * base =
          omega (arith, h, pow-succ' base (suc k), mul_comm base (base ^ suc k)) in
        let less : n / base < base ^ suc k = (div-lt_iff_lt-mul (omega arith)).1 wide in
        let low = count_digits-le fuel k base (n / base) i b less counted in ground arith
  ]
]

-- A number of `w` bits has a text of at most `w` digits.
pub unsigned_to_string-short :
    (w base n : ℕ)
    → 2 ≤ base
    → 0 < w
    → n < 2 ^ w
    → (s : List ℕ) × (unsigned_to_string w base n ≡ some s) × (length s ≤ w)
unfolding unsigned_to_string
unsigned_to_string-short w base n b p h =
    let (len, counted, fits) = count_digits-total w base n b p h in
    let fuelled = count_digits-le_fuel w base n (suc len) counted in
    let measured = length-write_digits (suc len) base n [] in
    (
      write_digits (suc len) base n [],
      rw (counted, unsigned_to_string) refl,
      omega (arith, measured, fuelled),
    )

pub signed_to_string-short :
    (w base n : ℕ)
    → 2 ≤ base
    → 0 < w
    → n < 2 ^ w
    → (s : List ℕ) × (signed_to_string w base n ≡ some s) × (length s ≤ suc w)
unfolding signed_to_string
signed_to_string-short w base n b p h = elim (Bool-cases (is_negative w n)) [
  | inl minus ↦
      let (s, e, fits) = unsigned_to_string-short w base (negate w n) b p (negate-lt w n) in
      (45 ∷ s, rw (minus, e, signed_to_string) refl, omega (arith, fits))
  | inr plus ↦
      let (s, e, fits) = unsigned_to_string-short w base n b p h in
      (s, rw (plus, e, signed_to_string) refl, omega (arith, fits))
]

-- A byte has at most three decimal digits.
pub byte_short :
    (n : ℕ) → n < 2 ^ 8 → (s : List ℕ) × (unsigned_to_string 32 10 n ≡ some s) × (length s ≤ 3)
unfolding unsigned_to_string
byte_short n h =
    let (len, counted, fits) =
      count_digits-total 32 10 n (omega arith) (omega arith) (omega arith) in
    let low = count_digits-le 32 2 10 n (suc len) (omega arith) (omega arith) counted in
    let measured = length-write_digits (suc len) 10 n [] in
    (
      write_digits (suc len) 10 n [],
      rw (counted, unsigned_to_string) refl,
      omega (arith, measured, low),
    )
