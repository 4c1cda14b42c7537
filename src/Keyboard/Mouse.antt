-- ===== src/Keyboard/Mouse.antt =====
-- `mouseInput` of src/kernel/io/keyboard.c. The movements are `signed short`s, as numbers of 16 bits in two's
-- complement.
pub mod Packets
use homemade_os.Base.{
  ℕ, zero, suc, ◌+◌, ◌-◌, ◌*◌, ◌/◌, ◌%◌, ◌^◌, Bool, true, false, not, ◌&&◌, Option, none, some,
  List, [], ◌∷◌, ◌==◌, ltb, if◌then◌else◌, bit_and, bit_xor,
}

pub record MouseEvent : Type 0 where
  pub move_x : ℕ
  pub move_y : ℕ
  pub press_left : ℕ
  pub press_right : ℕ
  pub press_middle : ℕ
  pub release_left : ℕ
  pub release_right : ℕ
  pub release_middle : ℕ

-- The static variables; `data[2]` is used in the call that writes it only.
pub record MouseState : Type 0 where
  pub state : ℕ
  pub prev0 : ℕ
  pub data0 : ℕ
  pub data1 : ℕ

-- `(char)d`, extended to 16 bits.
unfoldable pub sign_extend : ℕ → ℕ
sign_extend d = if ltb d 128 then d else d + 2 ^ 16 - 2 ^ 8

-- A movement, with the bits of `data[0]` for overflow and sign; 65408 is -128.
unfoldable pub movement : (data0 overflow sign d : ℕ) → ℕ
unfolding sign_extend
movement data0 overflow sign d =
    if not (bit_and data0 overflow == 0)
    then (if not (bit_and data0 sign == 0) then 65408 else 128)
    else sign_extend d

-- The fields for the buttons have one bit each.
unfoldable pub mouse_event : (prev0 data0 data1 data2 : ℕ) → MouseEvent
unfolding movement
mouse_event prev0 data0 data1 data2 =
    let changed = bit_xor data0 prev0 in
    let pressed = bit_and data0 changed in
    let released = bit_and prev0 changed in
    record {
      move_x = movement data0 64 16 data1;
      move_y = movement data0 128 32 data2;
      press_left = bit_and pressed 1 % 2;
      press_right = bit_and pressed 2 % 2;
      press_middle = bit_and pressed 4 % 2;
      release_left = bit_and released 1 % 2;
      release_right = bit_and released 2 % 2;
      release_middle = bit_and released 4 % 2;
    }

-- The state, and the event that is written to the FIFO if there is one.
unfoldable pub mouse_input : (new_data : ℕ) → MouseState → MouseState × Option MouseEvent
unfolding mouse_event
mouse_input new_data s =
    if (s.state == 0) && (bit_and new_data 8 == 0)
    then (s, none)
    else if s.state == 0
    then (record s { state = 1; data0 = new_data }, none)
    else if s.state == 1
    then (record s { state = 2; data1 = new_data }, none)
    else (
      record s { state = 0; prev0 = s.data0 },
      some (mouse_event s.prev0 s.data0 s.data1 new_data),
    )

abbrev pub add_event : Option MouseEvent → List MouseEvent → List MouseEvent
add_event none events = events
add_event (some e) events = e ∷ events

unfoldable pub mouse_inputs : List ℕ → MouseState → List MouseEvent × MouseState
mouse_inputs [] s = ([], s)
mouse_inputs (d ∷ bytes) s =
    let (s', event) = mouse_input d s in
    let (events, s'') = mouse_inputs bytes s' in (add_event event events, s'')
