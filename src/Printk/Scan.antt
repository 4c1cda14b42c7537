-- ===== src/Printk/Scan.antt =====
-- Formatted input. What is stored through the pointers is a list, in order; a buffer is read past its
-- end only where the code does, and the terminator stands there.
pub mod Loop
use homemade_os.Base.{
  ℕ, zero, suc, ◌+◌, ◌-◌, ◌*◌, ◌/◌, ◌%◌, ◌^◌, Bool, true, false, not, ◌&&◌, ◌||◌, Option, none,
  some, List, [], ◌∷◌, ◌++◌, ltb, leb, ◌==◌, if◌then◌else◌, length, take, drop, get_or,
}
use homemade_os.Text.{isspace}
use homemade_os.Printk.Number.{string_to_unsigned, string_to_signed, Scanned, failed, nothing, read}
use homemade_os.Printk.Format.{
  PrintfArg, parse_printf_arg, Handler, percent, binary, octal, signed, unsigned, hexadecimal,
  counter, string, character, address, find_handler, type_width,
}

pub data Stored : Type 0 where
  number : ℕ → Stored
  text : List ℕ → Stored

-- What a handler gives: the number of characters read, `none` for -1, and what it stored.
pub record Result : Type 0 where
  pub count : Option ℕ
  pub stored : List Stored

abbrev pub number_result : Scanned → Result
number_result failed = record { count = none; stored = [] }
number_result nothing = record { count = some 0; stored = [] }
number_result (read n v) = record { count = some n; stored = number v ∷ [] }

-- `scanf_signed`
abbrev pub scanf_signed : (base : ℕ) → List ℕ → PrintfArg → Result
scanf_signed base buffer pa = number_result (string_to_signed (type_width pa) base buffer)

-- The loop of `scanf_s`.
abbrev pub word_of : List ℕ → List ℕ
word_of [] = []
word_of (c ∷ s) = if isspace c then [] else c ∷ word_of s

-- A byte of an address that is read, or the failure, with what `*p` holds so far.
abbrev pub read_byte : (p : ℕ) → (next : ℕ → ℕ → Result) → Option ℕ × ℕ → Result
read_byte p next (none, u) = record { count = none; stored = number p ∷ [] }
read_byte p next (some len, u) =
    if ltb 255 u then record { count = none; stored = number p ∷ [] } else next len u

-- The loop of `scanf_I` at byte `i`, index `bi` and `*p`, with `rounds` bytes left. The bits of
-- `u << i` are clear in `*p`, so the `|=` is a sum.
unfoldable pub scan_address : (rounds i : ℕ) → List ℕ → (bi p : ℕ) → Result
scan_address zero i buffer bi p = record { count = some bi; stored = number p ∷ [] }
scan_address (suc n) i buffer bi p =
    let start = if i == 0 then bi else bi + 1 in
    if not (i == 0) && not (get_or buffer bi 0 == 46)
    then record { count = none; stored = number p ∷ [] }
    else read_byte p (λ len u. scan_address n (i + 8) buffer (start + len) (p + u * 2 ^ i))
        (string_to_unsigned 32 10 (drop start buffer))

unfoldable pub scan_handler : Handler → PrintfArg → List ℕ → Result
unfolding scan_address
scan_handler percent pa [] = record { count = none; stored = [] }
scan_handler percent pa (c ∷ s) =
    if not (c == 37)
    then record { count = none; stored = [] }
    else record { count = some 1; stored = [] }
scan_handler binary pa buffer = scanf_signed 2 buffer pa
scan_handler octal pa buffer = scanf_signed 8 buffer pa
scan_handler signed pa buffer = scanf_signed 10 buffer pa
scan_handler unsigned pa buffer = scanf_signed 10 buffer pa
scan_handler hexadecimal pa buffer = scanf_signed 16 buffer pa
scan_handler counter pa buffer = record { count = some 0; stored = number pa.print_count ∷ [] }
scan_handler string pa buffer =
    let a = word_of buffer in
    record { count = if ltb 0 (length a) then some (length a) else none; stored = text a ∷ [] }
scan_handler character pa [] = record { count = none; stored = [] }
scan_handler character pa (c ∷ s) = record { count = some 1; stored = text (c ∷ []) ∷ [] }
scan_handler address pa buffer = scan_address 4 0 buffer 0 0

-- `addScanCount` and `skipSpace` of the table.
abbrev pub add_scan_count : Handler → ℕ
add_scan_count percent = 0
add_scan_count counter = 0
add_scan_count _ = 1

abbrev pub skips_space : Handler → Bool
skips_space percent = false
skips_space counter = false
skips_space character = false
skips_space _ = true

unfoldable pub skip_space : List ℕ → ℕ
skip_space [] = 0
skip_space (c ∷ s) = if isspace c then suc (skip_space s) else 0

-- What is left of the format, the index, and what is stored; `added` is the result, `none` for -1.
pub record Single : Type 0 where
  pub added : Option ℕ
  pub format : List ℕ
  pub index : ℕ
  pub stored : List Stored

-- What follows the call of a handler.
abbrev pub behind_handler : Handler → List ℕ → (start : ℕ) → Option ℕ → List Stored → Single
behind_handler h f start none stored = record {
  added = none;
  format = f;
  index = start;
  stored = stored;
}
behind_handler h f start (some n) stored = record {
  added = some (add_scan_count h);
  format = drop 1 f;
  index = start + n;
  stored = stored;
}

-- `vsnscanf_single` on the format `c ∷ f`.
unfoldable pub vsnscanf_single : List ℕ → (index : ℕ) → (c : ℕ) (f : List ℕ) → Single
unfolding scan_handler skip_space
vsnscanf_single buffer bi c f =
    let (pa, f') = parse_printf_arg f bi in
    if c == 32
    then record {
      added = some 0;
      format = f;
      index = bi + skip_space (drop bi buffer);
      stored = [];
    }
    else if not (c == 37)
    then (if not (get_or buffer bi 0 == c)
        then record { added = none; format = c ∷ f; index = bi; stored = [] }
        else record { added = some 0; format = f; index = bi + 1; stored = [] })
    else elim (find_handler f') [
      | none ↦ record { added = none; format = f'; index = bi; stored = [] }
      | some h ↦
          let start = if skips_space h then bi + skip_space (drop bi buffer) else bi in
          let r = scan_handler h pa (drop start buffer) in
          behind_handler h f' start r.count r.stored
    ]

-- The loop of `vsnscanf`: the count and what is stored. `none`: out of fuel.
unfoldable pub scan_loop :
    (fuel : ℕ)
    → List ℕ
    → (index : ℕ) → (format : List ℕ) → (count : ℕ) → List Stored
    → Option (ℕ × List Stored)
unfolding vsnscanf_single
scan_loop zero buffer bi format count stored = none
scan_loop (suc fuel) buffer bi [] count stored = some (count, stored)
scan_loop (suc fuel) buffer bi (c ∷ f) count stored =
    let s = vsnscanf_single buffer bi c f in
    elim s.added [
      | none ↦ some (count, stored ++ s.stored)
      | some n ↦ scan_loop fuel buffer s.index s.format (count + n) (stored ++ s.stored)
    ]

-- `sscanf`
unfoldable pub sscanf : (fuel : ℕ) → (str format : List ℕ) → Option (ℕ × List Stored)
unfolding scan_loop
sscanf fuel str format = scan_loop fuel str 0 format 0 []
