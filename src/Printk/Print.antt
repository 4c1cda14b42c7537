-- ===== src/Printk/Print.antt =====
-- Formatted output. `none` of a handler: the arguments are not of the types that the format asks for,
-- which C leaves undefined.
pub mod Bounds
pub mod Loop
use homemade_os.Base.{
  ℕ, zero, suc, ◌+◌, ◌-◌, ◌*◌, ◌/◌, ◌%◌, ◌^◌, Bool, true, false, not, ◌&&◌, Option, none, some,
  List, [], ◌∷◌, ◌++◌, ltb, leb, ◌==◌, if◌then◌else◌, length, take, drop, ◌>>=◌,
}
use homemade_os.Printk.Number.{unsigned_to_string, signed_to_string}
use homemade_os.Printk.Format.{
  PrintfArg, parse_printf_arg, Handler, percent, binary, octal, signed, unsigned, hexadecimal,
  counter, string, character, address, find_handler, type_width,
}

-- A variable argument: an `int` or `unsigned`, a `long long`, a string, or a pointer for `%n`.
pub data Argument : Type 0 where
  int : ℕ → Argument
  long_long : ℕ → Argument
  text : List ℕ → Argument
  pointer : Argument

-- What a handler gives: the characters, the number stored through a pointer, and the arguments left.
pub record Piece : Type 0 where
  pub chars : List ℕ
  pub stored : Option ℕ
  pub rest : List Argument

abbrev pub take_number : PrintfArg → List Argument → Option (ℕ × List Argument)
take_number pa (int v ∷ args) = if leb 2 pa.l_count then none else some (v, args)
take_number pa (long_long v ∷ args) = if leb 2 pa.l_count then some (v, args) else none
take_number pa _ = none

abbrev pub printed : List ℕ → List Argument → Piece
printed chars rest = record { chars = chars; stored = none; rest = rest }

-- `printf_unsigned` and `printf_signed`
unfoldable pub printf_unsigned : (base : ℕ) → PrintfArg → List Argument → Option Piece
printf_unsigned base pa args = do
  (v, rest) ← take_number pa args
  chars ← unsigned_to_string (type_width pa) base v
  some (printed chars rest)

unfoldable pub printf_signed : (base : ℕ) → PrintfArg → List Argument → Option Piece
printf_signed base pa args = do
  (v, rest) ← take_number pa args
  chars ← signed_to_string (type_width pa) base v
  some (printed chars rest)

-- The loop of `printf_I` from byte `i` on, with `rounds` bytes left.
unfoldable pub print_address : (rounds i v : ℕ) → Option (List ℕ)
print_address zero i v = some []
print_address (suc n) i v = do
  byte ← unsigned_to_string 32 10 (v / 2 ^ i % 2 ^ 8)
  rest ← print_address n (i + 8) v
  some ((if i == 0 then byte else 46 ∷ byte) ++ rest)

unfoldable pub print_handler : Handler → PrintfArg → List Argument → Option Piece
unfolding printf_unsigned printf_signed print_address
print_handler percent pa args = some (printed (37 ∷ []) args)
print_handler binary pa args = printf_unsigned 2 pa args
print_handler octal pa args = printf_unsigned 8 pa args
print_handler signed pa args = printf_signed 10 pa args
print_handler unsigned pa args = printf_unsigned 10 pa args
print_handler hexadecimal pa args = printf_unsigned 16 pa args
print_handler counter pa (pointer ∷ args) =
    some record { chars = []; stored = some pa.print_count; rest = args }
print_handler string pa (text s ∷ args) = some (printed s args)
print_handler character pa (int v ∷ args) = some (printed (v % 2 ^ 8 ∷ []) args)
print_handler address pa (int v ∷ args) = do chars ← print_address 4 0 v; some (printed chars args)
print_handler _ pa _ = none

-- `vsnprintf_single` on the format `c ∷ f`: the format behind it, and the piece, `none` for -1.
unfoldable pub vsnprintf_single :
    (c : ℕ) (f : List ℕ) → (print_count : ℕ) → List Argument → Option (List ℕ × Option Piece)
vsnprintf_single c f print_count args =
    let (pa, f') = parse_printf_arg f print_count in
    if not (c == 37) then some (f, some (printed (c ∷ []) args)) else elim (find_handler f') [
      | none ↦ some (f', none)
      | some h ↦ elim (print_handler h pa args) [ none ↦ none | some p ↦ some (drop 1 f', some p) ]
    ]

-- What `vsnprintf` has written to `str`, and through the pointers of `%n`; `failed` stands for a
-- count of -1.
pub record Output : Type 0 where
  pub failed : Bool
  pub chars : List ℕ
  pub stored : List ℕ

abbrev pub store : Option ℕ → List ℕ → List ℕ
store none xs = xs
store (some n) xs = xs ++ (n ∷ [])

-- What a loop gives; `undefined`: the arguments are not of the types that the format asks for.
pub data Outcome : Type 0 where
  out_of_fuel undefined : Outcome
  done : Output → Outcome

-- `memcpy` of a piece to the end of the output, cut to the room that is left.
abbrev pub append_piece : (len : ℕ) → Output → Piece → Output
append_piece len out p = record {
  failed = false;
  chars = out.chars ++ take (len - length out.chars) p.chars;
  stored = store p.stored out.stored;
}

-- The loop of `vsnprintf`; the count is the length of what is written.
unfoldable pub print_loop : (fuel len : ℕ) → (format : List ℕ) → List Argument → Output → Outcome
unfolding vsnprintf_single
print_loop zero len format args out = out_of_fuel
print_loop (suc fuel) len [] args out = done out
print_loop (suc fuel) len (c ∷ f) args out =
    if not (ltb (length out.chars) len)
    then done out
    else elim (vsnprintf_single c f (length out.chars) args) [
      | none ↦ undefined
      | some (f', none) ↦ done (record out { failed = true })
      | some (f', some p) ↦ print_loop fuel len f' p.rest (append_piece len out p)
    ]

-- The end of `vsnprintf`: the terminator, if there is room for it.
abbrev pub terminate : (len : ℕ) → Outcome → Outcome
terminate len (done out) = done (
    if not out.failed && ltb (length out.chars) len
    then record out { chars = out.chars ++ (0 ∷ []) }
    else out)
terminate len r = r

-- `int slen = len`: a length of 2 ^ 31 and more is negative, and leaves no room.
abbrev pub signed_length : (len : ℕ) → ℕ
signed_length len = if ltb (len % 2 ^ 32) (2 ^ 31) then len % 2 ^ 32 else 0

unfoldable pub snprintf : (fuel len : ℕ) → (format : List ℕ) → List Argument → Outcome
unfolding print_loop
snprintf fuel len format args = terminate (signed_length len) (
    print_loop fuel (signed_length len) format args
      (record { failed = false; chars = []; stored = [] }))

-- `printk`: the characters go to `printkString`, without a limit.
unfoldable pub printk : (fuel : ℕ) → (format : List ℕ) → List Argument → Output → Outcome
unfolding vsnprintf_single
printk zero format args out = out_of_fuel
printk (suc fuel) [] args out = done out
printk (suc fuel) (c ∷ f) args out = elim (vsnprintf_single c f (length out.chars) args) [
  | none ↦ undefined
  | some (f', none) ↦ done (record out { failed = true })
  | some (f', some p) ↦
      printk fuel f' p.rest
        record { failed = false; chars = out.chars ++ p.chars; stored = store p.stored out.stored }
]
