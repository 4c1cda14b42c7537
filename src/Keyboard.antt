-- ===== src/Keyboard.antt =====
-- src/kernel/io/keyboard.c: from scan codes to keys (`initKeyboard`, `scanCodeToKey`) and from the bytes of
-- the mouse to its events (`mouseInput`). The static variables are the state.
pub mod Keys
pub mod Decode
pub mod Mouse
mod Tests
use homemade_os.Base.{
  ℕ, zero, suc, ◌+◌, ◌-◌, ◌*◌, ◌/◌, ◌%◌, ◌^◌, Bool, true, false, not, ◌&&◌, Option, none, some,
  List, [], ◌∷◌, ◌==◌, ltb, if◌then◌else◌, get_or, bit_and, bit_xor,
}
use homemade_os.Keyboard.Keys.{scan1, scan_e0, no_key, print_screen, pause}

abbrev pub write : (ℕ → ℕ) → (i v : ℕ) → ℕ → ℕ
write f i v = λ j. if j == i then v else f j

-- A loop of `initKeyboard` over a table.
unfoldable pub fill : List (ℕ × ℕ) → (to_key : ℕ → ℕ) → ℕ → ℕ
fill [] to_key = to_key
fill ((key, code) ∷ table) to_key = fill table (write to_key code key)

unfoldable pub scan1_to_key : ℕ → ℕ
unfolding fill
scan1_to_key = fill scan1 (λ _. no_key)

unfoldable pub scan_e0_to_key : ℕ → ℕ
unfolding fill
scan_e0_to_key = fill scan_e0 (λ _. no_key)

pub record SpecialScan : Type 0 where
  pub key : ℕ
  pub released : ℕ
  pub length : ℕ
  pub scan_code : List ℕ

abbrev pub print_screen_pressed : SpecialScan
print_screen_pressed = record {
  key = print_screen;
  released = 0;
  length = 4;
  scan_code = 0xe0 ∷ 0x2a ∷ 0xe0 ∷ 0x37 ∷ 0 ∷ 0 ∷ [];
}

abbrev pub print_screen_released : SpecialScan
print_screen_released = record {
  key = print_screen;
  released = 1;
  length = 4;
  scan_code = 0xe0 ∷ 0xb7 ∷ 0xe0 ∷ 0xaa ∷ 0 ∷ 0 ∷ [];
}

abbrev pub pause_pressed : SpecialScan
pause_pressed = record {
  key = pause;
  released = 0;
  length = 6;
  scan_code = 0xe1 ∷ 0x1d ∷ 0x45 ∷ 0xe1 ∷ 0x9d ∷ 0xc5 ∷ [];
}

-- `e0Flag` and `sp`.
pub record ScanState : Type 0 where
  pub e0_flag : Bool
  pub sp0 : ℕ
  pub sp1 : ℕ
  pub sp2 : ℕ

abbrev pub initial : ScanState
initial = record { e0_flag = false; sp0 = 0; sp1 = 0; sp2 = 0 }

pub record KeyboardEvent : Type 0 where
  pub key : ℕ
  pub is_release : ℕ

-- How far the code leads in a special sequence, and what is found at its end.
unfoldable pub advance : SpecialScan → (sp scan_code : ℕ) → ℕ
advance s sp scan_code = if not (get_or s.scan_code sp 0 == scan_code) then 0 else sp + 1

unfoldable pub found_at_end : SpecialScan → (sp : ℕ) → KeyboardEvent → KeyboardEvent
found_at_end s sp found =
    if sp == s.length then record { key = s.key; is_release = s.released } else found

-- The key and the flag by the tables.
unfoldable pub by_table : (e0_flag : Bool) → (scan_code : ℕ) → KeyboardEvent
unfolding scan1_to_key scan_e0_to_key
by_table e0_flag scan_code = record {
  key = if e0_flag then scan_e0_to_key (scan_code % 2 ^ 7) else scan1_to_key (scan_code % 2 ^ 7);
  is_release = scan_code / 2 ^ 7 % 2;
}

-- The state, and the event if there is one.
unfoldable pub scan_code_to_key : ScanState → (scan_code : ℕ) → ScanState × Option KeyboardEvent
unfolding advance found_at_end by_table
scan_code_to_key s scan_code =
    let sp0 = advance print_screen_pressed s.sp0 scan_code in
    let sp1 = advance print_screen_released s.sp1 scan_code in
    let sp2 = advance pause_pressed s.sp2 scan_code in
    let nothing : KeyboardEvent = record { key = no_key; is_release = 0 } in
    let special =
      found_at_end pause_pressed sp2
        (found_at_end print_screen_released sp1 (found_at_end print_screen_pressed sp0 nothing)) in
    let found = if special.key == no_key then by_table s.e0_flag scan_code else special in
    let e0 = scan_code == 0xe0 in
    if found.key == no_key
    then (record { e0_flag = e0; sp0 = sp0; sp1 = sp1; sp2 = sp2 }, none)
    else (record { e0_flag = e0; sp0 = 0; sp1 = 0; sp2 = 0 }, some found)

-- `keyboardInput` on every code that comes: the events that are written to the FIFO, in order.
abbrev pub add_event : Option KeyboardEvent → List KeyboardEvent → List KeyboardEvent
add_event none events = events
add_event (some e) events = e ∷ events

unfoldable pub keyboard_input : List ℕ → ScanState → List KeyboardEvent × ScanState
keyboard_input [] s = ([], s)
keyboard_input (code ∷ codes) s =
    let (s', event) = scan_code_to_key s code in
    let (events, s'') = keyboard_input codes s' in (add_event event events, s'')
