-- ===== src/Printk/Print/Bounds.antt =====
-- The room that output takes: the fixed buffer of a piece, and the buffer of the caller.
use homemade_os.Base.{
  ℕ, zero, suc, ◌+◌, ◌*◌, ◌/◌, ◌%◌, ◌^◌, ◌≤◌, ◌<◌, ◌≡◌, ◌≢◌, refl, inl, inr, Bool, true, false, not,
  Option, some, List, [], ◌∷◌, ◌++◌, arith, leb, ◌==◌, if◌then◌else◌, length, length-append,
  Bool-cases, both_absurd, All,
}
use native.Mathlib.Nat.{mod-lt}
use homemade_os.Printk.Number.Short.{unsigned_to_string-short, signed_to_string-short, byte_short}
use homemade_os.Printk.Format.{
  PrintfArg, Handler, percent, binary, octal, signed, unsigned, hexadecimal, counter, string,
  character, address, type_width,
}
use homemade_os.Printk.Print.{
  Argument, int, long_long, text, pointer, Piece, printed, take_number, printf_unsigned,
  printf_signed, print_address, print_handler,
}

-- The arguments are numbers of their types.
abbrev pub IsArgument : Argument → Type 0
IsArgument (int v) = v < 2 ^ 32
IsArgument (long_long v) = v < 2 ^ 64
IsArgument _ = Unit

-- Whether the first argument is of the type that the specifier asks for.
abbrev pub has_number : (l_count : ℕ) → List Argument → Bool
has_number l_count (int v ∷ args) = not (leb 2 l_count)
has_number l_count (long_long v ∷ args) = leb 2 l_count
has_number l_count _ = false

abbrev pub has_argument : Handler → PrintfArg → List Argument → Bool
has_argument percent pa args = true
has_argument counter pa (pointer ∷ args) = true
has_argument string pa (text s ∷ args) = true
has_argument character pa (int v ∷ args) = true
has_argument address pa (int v ∷ args) = true
has_argument counter pa _ = false
has_argument string pa _ = false
has_argument character pa _ = false
has_argument address pa _ = false
has_argument _ pa args = has_number pa.l_count args

take_number-total :
    (pa : PrintfArg) (args : List Argument)
    → has_number pa.l_count args ≡ true
    → All IsArgument args
    → (v : ℕ) × (rest : List Argument) × (take_number pa args ≡ some (v, rest))
      × (v < 2 ^ type_width pa)
take_number-total pa (int v ∷ args) h a = elim (Bool-cases (leb 2 pa.l_count)) [
  | inl e ↦ absurd (ground arith)
  | inr e ↦ (v, args, rw e refl, rw e a.0)
]
take_number-total pa (long_long v ∷ args) h a = elim (Bool-cases (leb 2 pa.l_count)) [
  | inl e ↦ (v, args, rw e refl, rw e a.0)
  | inr e ↦ absurd (ground arith)
]
take_number-total pa (text s ∷ args) h a = both_absurd h refl
take_number-total pa (pointer ∷ args) h a = both_absurd h refl
take_number-total pa [] h a = both_absurd h refl

type_width-cases : (pa : PrintfArg) → (0 < type_width pa) × (type_width pa ≤ 64)
type_width-cases pa = ground arith

-- A binary number needs no more places than the width, so a number in a larger base does not.
abbrev Short : Option Piece → Type 0
Short o = (p : Piece) × (o ≡ some p) × (length p.chars ≤ 65)

printf_unsigned-Short :
    (base : ℕ) (pa : PrintfArg) (args : List Argument)
    → 2 ≤ base
    → has_number pa.l_count args ≡ true
    → All IsArgument args
    → Short (printf_unsigned base pa args)
unfolding printf_unsigned
printf_unsigned-Short base pa args b h a =
    let (v, rest, taken, small) = take_number-total pa args h a in
    let (positive, wide) = type_width-cases pa in
    let (s, e, fits) = unsigned_to_string-short (type_width pa) base v b positive small in
    (printed s rest, rw (taken, e, printf_unsigned) refl, omega (arith, fits, wide))

printf_signed-Short :
    (base : ℕ) (pa : PrintfArg) (args : List Argument)
    → 2 ≤ base
    → has_number pa.l_count args ≡ true
    → All IsArgument args
    → Short (printf_signed base pa args)
unfolding printf_signed
printf_signed-Short base pa args b h a =
    let (v, rest, taken, small) = take_number-total pa args h a in
    let (positive, wide) = type_width-cases pa in
    let (s, e, fits) = signed_to_string-short (type_width pa) base v b positive small in
    (printed s rest, rw (taken, e, printf_signed) refl, omega (arith, fits, wide))

-- A byte of an address needs three places, and a dot before it.
print_address-short :
    (rounds i v : ℕ) → (s : List ℕ) × (print_address rounds i v ≡ some s) × (length s ≤ 4 * rounds)
unfolding print_address
print_address-short zero i v = ([], refl, omega arith)
print_address-short (suc n) i v =
    let (byte, e, fits) = byte_short (v / 2 ^ i % 2 ^ 8) (mod-lt (v / 2 ^ i) (omega arith)) in
    let (rest, e', fits') = print_address-short n (i + 8) v in
    let joined = length-append byte rest in
    (
      (if i == 0 then byte else 46 ∷ byte) ++ rest,
      rw (e, e') refl,
      elim (Bool-cases (i == 0)) [
        | inl first ↦ rw first (omega (arith, joined, fits, fits'))
        | inr later ↦ rw later (omega (arith, joined, fits, fits'))
      ],
    )

-- Given an argument of the type that the specifier asks for, every specifier but `%s`, whose text is
-- not copied there, gives a piece, of at most 65 characters: it fits the buffer of a piece, of 68.
pub print_handler-short :
    (h : Handler) (pa : PrintfArg) (args : List Argument)
    → h ≢ string
    → has_argument h pa args ≡ true
    → All IsArgument args
    → (p : Piece) × (print_handler h pa args ≡ some p) × (length p.chars ≤ 65)
unfolding print_handler
print_handler-short percent pa args n h a = (printed (37 ∷ []) args, refl, omega arith)
print_handler-short binary pa args n h a = printf_unsigned-Short 2 pa args (omega arith) h a
print_handler-short octal pa args n h a = printf_unsigned-Short 8 pa args (omega arith) h a
print_handler-short signed pa args n h a = printf_signed-Short 10 pa args (omega arith) h a
print_handler-short unsigned pa args n h a = printf_unsigned-Short 10 pa args (omega arith) h a
print_handler-short hexadecimal pa args n h a = printf_unsigned-Short 16 pa args (omega arith) h a
print_handler-short counter pa (pointer ∷ args) n h a =
    (record { chars = []; stored = some pa.print_count; rest = args }, refl, omega arith)
print_handler-short string pa args n h a = absurd (n refl)
print_handler-short character pa (int v ∷ args) n h a =
    (printed (v % 2 ^ 8 ∷ []) args, refl, omega arith)
print_handler-short address pa (int v ∷ args) n h a =
    let (s, e, fits) = print_address-short 4 0 v in
    (printed s args, rw (e, print_handler) refl, omega (arith, fits))
print_handler-short counter pa [] n h a = both_absurd h refl
print_handler-short counter pa (int v ∷ args) n h a = both_absurd h refl
print_handler-short counter pa (long_long v ∷ args) n h a = both_absurd h refl
print_handler-short counter pa (text s ∷ args) n h a = both_absurd h refl
print_handler-short character pa [] n h a = both_absurd h refl
print_handler-short character pa (long_long v ∷ args) n h a = both_absurd h refl
print_handler-short character pa (text s ∷ args) n h a = both_absurd h refl
print_handler-short character pa (pointer ∷ args) n h a = both_absurd h refl
print_handler-short address pa [] n h a = both_absurd h refl
print_handler-short address pa (long_long v ∷ args) n h a = both_absurd h refl
print_handler-short address pa (text s ∷ args) n h a = both_absurd h refl
print_handler-short address pa (pointer ∷ args) n h a = both_absurd h refl
