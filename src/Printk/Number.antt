-- ===== src/Printk/Number.antt =====
-- The conversions between numbers and digits. The macros are one definition each, over the width `w`
-- of the type: 32 for `int` and 64 for `long long`. A signed number is its two's complement.
pub mod Unsigned
pub mod Signed
pub mod Short
use homemade_os.Base.{
  ℕ, zero, suc, ◌+◌, ◌-◌, ◌*◌, ◌/◌, ◌%◌, ◌^◌, Bool, true, false, ◌&&◌, Option, none, some, List, [],
  ◌∷◌, ◌++◌, ltb, leb, ◌==◌, if◌then◌else◌, length, ◌>>=◌,
}

-- `do{ n2 = n2 / base; i++; }while(n2 != 0);` `none`: out of fuel.
unfoldable pub count_digits : (fuel base n : ℕ) → Option ℕ
count_digits zero base n = none
count_digits (suc fuel) base n =
    let rest = count_digits fuel base (n / base) in
    if n / base == 0 then some 1 else elim rest [ none ↦ none | some i ↦ some (suc i) ]

abbrev pub digit_char : ℕ → ℕ
digit_char c = if ltb c 10 then c + 48 else c - 10 + 97

-- The second loop, with `rounds` places left, in front of the places that are written.
unfoldable pub write_digits : (rounds base n : ℕ) → List ℕ → List ℕ
write_digits zero base n out = out
write_digits (suc i) base n out = write_digits i base (n / base) (digit_char (n % base) ∷ out)

-- `uintToString` and `ullToString`; a number of `w` bits has at most `w` digits.
unfoldable pub unsigned_to_string : (w base n : ℕ) → Option (List ℕ)
unfolding count_digits write_digits
unsigned_to_string w base n = do len ← count_digits w base n; some (write_digits len base n [])

abbrev pub is_negative : (w n : ℕ) → Bool
is_negative w n = leb (2 ^ (w - 1)) n

-- Of the smallest number too, whose negation C leaves undefined.
abbrev pub negate : (w n : ℕ) → ℕ
negate w n = (2 ^ w - n) % 2 ^ w

-- `intToString` and `llToString`
unfoldable pub signed_to_string : (w base n : ℕ) → Option (List ℕ)
unfolding unsigned_to_string
signed_to_string w base n = do
  digits ← unsigned_to_string w base (if is_negative w n then negate w n else n)
  some (if is_negative w n then 45 ∷ digits else digits)

-- The value of a character, `base` or more if it is no digit.
abbrev pub digit_of : (base b : ℕ) → ℕ
digit_of base b =
    let d = if leb 65 b && leb b 90 then b - 65 + 10 else base in
    if leb 97 b && leb b 122 then b - 97 + 10 else if leb 48 b && leb b 57 then b - 48 else d

-- The loop of `stringToUINT` and `stringToULL` at index `i`: the index where it stops, and `*u`.
unfoldable pub scan_digits : (w base : ℕ) → List ℕ → (i u : ℕ) → ℕ × ℕ
scan_digits w base [] i u = (i, u)
scan_digits w base (b ∷ bs) i u =
    let rest = scan_digits w base bs (i + 1) ((u * base + digit_of base b) % 2 ^ w) in
    if leb base (digit_of base b) then (i, u) else rest

-- The number of characters read, `none` for -1, and `*u`.
unfoldable pub string_to_unsigned : (w base : ℕ) → List ℕ → Option ℕ × ℕ
unfolding scan_digits
string_to_unsigned w base buffer =
    let (i, u) = scan_digits w base buffer 0 0 in (if i == 0 then none else some i, u)

-- A signed conversion: the result -1, or the number of characters read, with what is stored. An
-- empty buffer gives 0 characters, and nothing is stored.
pub data Scanned : Type 0 where
  failed : Scanned
  nothing : Scanned
  read : (count value : ℕ) → Scanned

abbrev pub sign_length : List ℕ → ℕ
sign_length [] = 0
sign_length (c ∷ s) = if c == 43 then 1 else if c == 45 then 1 else 0

abbrev pub behind_sign : List ℕ → List ℕ
behind_sign [] = []
behind_sign (c ∷ s) = if c == 43 then s else if c == 45 then s else c ∷ s

abbrev pub has_minus : List ℕ → Bool
has_minus [] = false
has_minus (c ∷ s) = c == 45

-- What `stringToINT` and `stringToLL` make of the digits.
abbrev pub with_sign : (w sign_length : ℕ) → (minus : Bool) → Option ℕ × ℕ → Scanned
with_sign w i1 minus (none, u) = failed
with_sign w i1 minus (some i2, u) = read (i1 + i2) (if minus then negate w u else u)

unfoldable pub string_to_signed : (w base : ℕ) → List ℕ → Scanned
string_to_signed w base [] = nothing
string_to_signed w base (c ∷ s) =
    with_sign w (sign_length (c ∷ s)) (has_minus (c ∷ s))
      (string_to_unsigned w base (behind_sign (c ∷ s)))
