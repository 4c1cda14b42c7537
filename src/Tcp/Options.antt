-- ===== src/Tcp/Options.antt =====
-- The options of the TCP header, `parseTCPOptions` of src/kernel/io/network/tcp.c. A `uintptr_t` is 32
-- bits wide.
pub mod Inside
pub mod Behind
use homemade_os.Base.{
  ℕ, zero, suc, ◌+◌, ◌-◌, ◌*◌, ◌%◌, ◌^◌, Bool, true, false, not, ◌||◌, Option, none, some, ltb, leb,
  ◌==◌, if◌then◌else◌,
}
use homemade_os.Text.{change_endian16}
use homemade_os.Network.Bytes.{Bytes, load8, load16, behind}
use homemade_os.Tcp.Header.{get_tcp_header_size}

-- What the pointers of the callers lead to.
pub record Options : Type 0 where
  pub max_segment_size : ℕ
  pub window_scale : ℕ
  pub sack_permitted : ℕ

abbrev pub parse_option_end : Bytes → Bool
parse_option_end p = if not (load8 p 0 == 0) then false else true

abbrev pub parse_option_nop : Bytes → Bool
parse_option_nop p = if not (load8 p 0 == 1) then false else true

-- The results of these three are not used.
abbrev pub parse_max_segment_size : Bytes → Options → Options
parse_max_segment_size p o =
    if not (load8 p 0 == 2)
    then o
    else if not (load8 p 1 == 4)
    then o
    else if ltb (change_endian16 (load16 p 2)) 576
    then o
    else record o { max_segment_size = change_endian16 (load16 p 2) }

abbrev pub parse_window_scale : Bytes → Options → Options
parse_window_scale p o =
    if not (load8 p 0 == 3)
    then o
    else if not (load8 p 1 == 3)
    then o
    else if ltb 14 (load8 p 2)
    then o
    else record o { window_scale = load8 p 2 }

abbrev pub parse_sack_permitted : Bytes → Options → Options
parse_sack_permitted p o =
    if not (load8 p 0 == 4)
    then o
    else if not (load8 p 1 == 2)
    then o
    else record o { sack_permitted = 1 }

-- A round of the loop ends the function with a result, or goes on at an offset.
pub data Round : Type 0 where
  stop : (ok : Bool) → Options → Round
  next : (offset : ℕ) → Options → Round

unfoldable pub option_round : (header_size offset : ℕ) → Bytes → Options → Round
option_round header_size offset h o =
    let p = behind offset h in
    let option_size = load8 h (offset + 1) in
    if offset == header_size
    then stop true o
    else if parse_option_end p
    then stop true o
    else if parse_option_nop p
    then next ((offset + 1) % 2 ^ 32) o
    else if leb header_size (offset + 1)
    then stop false o
    else if ltb option_size 2 || ltb header_size (offset + option_size)
    then stop false o
    else next (offset + option_size)
        (parse_sack_permitted p (parse_window_scale p (parse_max_segment_size p o)))

-- The loop. `none`: out of fuel.
unfoldable pub parse_loop :
    (fuel header_size offset : ℕ) → Bytes → Options → Option (Bool × Options)
unfolding option_round
parse_loop zero header_size offset h o = none
parse_loop (suc fuel) header_size offset h o = elim (option_round header_size offset h o) [
  | stop ok o' ↦ some (ok, o')
  | next offset' o' ↦ parse_loop fuel header_size offset' h o'
]

-- A header has at most 60 bytes.
unfoldable pub parse_tcp_options : Bytes → Options → Option (Bool × Options)
unfolding parse_loop
parse_tcp_options h o = parse_loop 61 (get_tcp_header_size h) 20 h o
