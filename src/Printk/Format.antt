-- ===== src/Printk/Format.antt =====
-- The specifiers that output and input share.
pub mod Length
use homemade_os.Base.{
  ℕ, zero, suc, ◌+◌, ◌-◌, ◌*◌, ◌%◌, ◌^◌, Bool, true, false, ◌&&◌, Option, none, some, List, [], ◌∷◌,
  ltb, leb, ◌==◌, if◌then◌else◌,
}

pub record PrintfArg : Type 0 where
  pub print_count : ℕ
  pub width : ℕ
  pub pad0 : Bool
  pub l_count : ℕ
  pub base : ℕ

-- `while(*format == '0')`
abbrev pub skip_zeros : Bool → List ℕ → Bool × List ℕ
skip_zeros pad0 [] = (pad0, [])
skip_zeros pad0 (c ∷ f) = if c == 48 then skip_zeros true f else (pad0, c ∷ f)

-- `while(*format >= '0' && *format <= '9')`
abbrev pub read_width : ℕ → List ℕ → ℕ × List ℕ
read_width width [] = (width, [])
read_width width (c ∷ f) =
    if leb 48 c && leb c 57 then read_width ((width * 10 + (c - 48)) % 2 ^ 32) f else (width, c ∷ f)

-- `while(*format == 'l')`
abbrev pub count_l : ℕ → List ℕ → ℕ × List ℕ
count_l n [] = (n, [])
count_l n (c ∷ f) = if c == 108 then count_l (n + 1) f else (n, c ∷ f)

unfoldable pub parse_printf_arg : List ℕ → (print_count : ℕ) → PrintfArg × List ℕ
parse_printf_arg format print_count =
    let (pad0, f) = skip_zeros false format in
    let (width, f') = read_width 0 f in
    let (l_count, f'') = count_l 0 f' in
    (
      record { print_count = print_count; width = width; pad0 = pad0; l_count = l_count; base = 0 },
      f'',
    )

-- The entries of `printfHandler` and of `scanfHandler`, by their functions.
pub data Handler : Type 0 where
  percent binary octal signed unsigned hexadecimal counter string character address : Handler

-- The search of the tables: the specifiers are single characters, so `strncmp` compares the first.
abbrev pub find_handler : List ℕ → Option Handler
find_handler [] = none
find_handler (c ∷ f) =
    if c == 37
    then some percent
    else if c == 98
    then some binary
    else if c == 111
    then some octal
    else if c == 100
    then some signed
    else if c == 117
    then some unsigned
    else if c == 120
    then some hexadecimal
    else if c == 110
    then some counter
    else if c == 115
    then some string
    else if c == 99
    then some character
    else if c == 73
    then some address
    else none

-- The width of the type that `%d` and the like stand for.
abbrev pub type_width : PrintfArg → ℕ
type_width pa = if leb 2 pa.l_count then 64 else 32
