-- ===== src/Printk/Number/Unsigned.antt =====
-- An unsigned number is read back from its digits.
use homemade_os.Base.{
  ℕ, zero, suc, ◌+◌, ◌*◌, ◌/◌, ◌%◌, ◌^◌, ◌≤◌, ◌<◌, ◌≡◌, ◌≢◌, refl, sym, ap, ◌∙◌, inl, inr, Bool,
  true, false, not, ◌&&◌, none, some, List, [], ◌∷◌, ◌++◌, arith, leb, ◌==◌, if◌then◌else◌, length,
  Bool-cases, ==_iff,
}
use native.Mathlib.Nat.{
  div-add-mod, mod-lt, mod-eq_of_lt, mul_comm, div-le_self, div-lt_iff_lt-mul, mul-le-mul_left,
  pow-succ',
}
use homemade_os.Printk.Number.{
  count_digits, digit_char, write_digits, unsigned_to_string, digit_of, scan_digits,
  string_to_unsigned,
}

-- `len` digits are enough for `n`.
abbrev Fits : (base len n : ℕ) → Type 0
Fits base zero n = n ≡ 0
Fits base (suc len) n = Fits base len (n / base)

-- What behind a number ends it: the end of the buffer, or no digit.
abbrev pub IsEnd : (base : ℕ) → List ℕ → Type 0
IsEnd base [] = Unit
IsEnd base (c ∷ s) = base ≤ digit_of base c

one_more : (w n : ℕ) → n < 2 ^ w → n ≢ 0 → 0 < w
one_more zero n h k = absurd (k (omega arith))
one_more (suc w) n h k = omega arith

write_digits-append :
    (len base n : ℕ) (out rest : List ℕ)
    → write_digits len base n out ++ rest ≡ write_digits len base n (out ++ rest)
unfolding write_digits
write_digits-append zero base n out rest = refl
write_digits-append (suc len) base n out rest =
    write_digits-append len base (n / base) (digit_char (n % base) ∷ out) rest

pub length-write_digits :
    (len base n : ℕ) (out : List ℕ) → length (write_digits len base n out) ≡ len + length out
unfolding write_digits
length-write_digits zero base n out = omega arith
length-write_digits (suc len) base n out =
    omega (arith, length-write_digits len base (n / base) (digit_char (n % base) ∷ out))

scan_digits-end :
    (w base i u : ℕ) (rest : List ℕ) → IsEnd base rest → scan_digits w base rest i u ≡ (i, u)
unfolding scan_digits
scan_digits-end w base i u [] e = refl
scan_digits-end w base i u (c ∷ s) e =
    let stop : leb base (digit_of base c) ≡ true = ground arith in rw stop refl

pub count_digits-total :
    (w base n : ℕ)
    → 2 ≤ base
    → 0 < w
    → n < 2 ^ w
    → (len : ℕ) × (count_digits w base n ≡ some (suc len)) × Fits base (suc len) n
unfolding count_digits
count_digits-total zero base n b p h = absurd (omega arith)
count_digits-total (suc w) base n b p h = elim (Bool-cases (n / base == 0)) [
  | inl last ↦ (0, rw last refl, (==_iff (n / base) 0).0 last)
  | inr more ↦
      let wide : n < 2 ^ w * base = omega (arith, pow-succ' 2 w, mul-le-mul_left (2 ^ w) b) in
      let less : n / base < 2 ^ w = (div-lt_iff_lt-mul (omega arith)).1 wide in
      let positive : 0 < w = one_more w (n / base) less (ground arith) in
      let (len, counted, fits) = count_digits-total w base (n / base) b positive less in
      (suc len, rw (more, counted) refl, fits)
]

digit_of-digit_char : (base c : ℕ) → c < base → base ≤ 36 → digit_of base (digit_char c) ≡ c
digit_of-digit_char base c h k = ground arith

scan_digits-write_digits :
    (w base len n : ℕ) (out : List ℕ)
    → 2 ≤ base
    → base ≤ 36
    → n < 2 ^ w
    → Fits base len n
    → scan_digits w base (write_digits len base n out) 0 0 ≡ scan_digits w base out len n
unfolding write_digits scan_digits
scan_digits-write_digits w base zero n out b k h f = ap (scan_digits w base out 0) (sym f)
scan_digits-write_digits w base (suc len) n out b k h f =
    let c : ℕ = n % base in
    let small : c < base = mod-lt n (omega arith) in
    let whole : n / base * base + c ≡ n =
      omega (arith, div-add-mod n base, mul_comm base (n / base)) in
    let less : n / base ≤ n = div-le_self n base in
    let digit = digit_of-digit_char base c small k in
    let step : scan_digits w base (digit_char c ∷ out) len (n / base)
        ≡ scan_digits w base out (len + 1) n =
      let go : leb base (digit_of base (digit_char c)) ≡ false = ground (arith, digit) in
      let sum : (n / base * base + digit_of base (digit_char c)) % 2 ^ w ≡ n =
        ap (λ d. (n / base * base + d) % 2 ^ w) digit
        ∙ ap (λ m. m % 2 ^ w) whole
        ∙ mod-eq_of_lt h in
      rw go (ap (scan_digits w base out (len + 1)) sum) in
    scan_digits-write_digits w base len (n / base) (digit_char c ∷ out) b k (omega arith) f
    ∙ step
    ∙ (let e : len + 1 ≡ suc len = omega arith in ap (λ i. scan_digits w base out i n) e)

-- The text starts with neither sign.
abbrev pub starts_unsigned : List ℕ → Bool
starts_unsigned [] = false
starts_unsigned (c ∷ s) = not (c == 43) && not (c == 45)

digit_char-unsigned : (c : ℕ) → (not (digit_char c == 43) && not (digit_char c == 45)) ≡ true
digit_char-unsigned c = ground arith

write_digits-unsigned :
    (len base n : ℕ) (out : List ℕ)
    → starts_unsigned out ≡ true
    → starts_unsigned (write_digits len base n out) ≡ true
unfolding write_digits
write_digits-unsigned zero base n out h = h
write_digits-unsigned (suc len) base n out h =
    write_digits-unsigned len base (n / base) (digit_char (n % base) ∷ out)
      (digit_char-unsigned (n % base))

-- A number of `w` bits is printed in every base from 2 to 36, and reading the text, with anything
-- behind it that is no digit, gives its length and the number. The text starts with no sign.
pub unsigned_to_string-string_to_unsigned :
    (w base n : ℕ) (rest : List ℕ)
    → 2 ≤ base
    → base ≤ 36
    → 0 < w
    → n < 2 ^ w
    → IsEnd base rest
    → (text : List ℕ) × (unsigned_to_string w base n ≡ some text)
      × (string_to_unsigned w base (text ++ rest) ≡ (some (length text), n))
      × (starts_unsigned text ≡ true)
unfolding unsigned_to_string string_to_unsigned
unsigned_to_string-string_to_unsigned w base n rest b k p h e =
    let (len, counted, fits) = count_digits-total w base n b p h in
    let text : List ℕ = write_digits (suc len) base n [] in
    let joined = write_digits-append (suc len) base n [] rest in
    let measured = length-write_digits (suc len) base n [] in
    let scanned =
      ap (λ s. scan_digits w base s 0 0) joined
      ∙ scan_digits-write_digits w base (suc len) n rest b k h fits
      ∙ scan_digits-end w base (suc len) n rest e in
    (
      text,
      rw (counted, unsigned_to_string) refl,
      ap (λ r. ((if r.0 == 0 then none else some r.0), r.1)) scanned
          ∙ (let nonzero : (suc len == 0) ≡ false = ground arith in
              let counted' : suc len ≡ length text = omega (arith, measured) in
              rw nonzero (ap (λ m. (some m, n)) counted')),
      write_digits-unsigned len base (n / base) (digit_char (n % base) ∷ [])
          (digit_char-unsigned (n % base)),
    )
