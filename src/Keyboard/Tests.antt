-- ===== src/Keyboard/Tests.antt =====
-- The theorems at a few keys and packets, and tests.
use homemade_os.Base.{◌≡◌, ◌≢◌, refl, arith, true, false, List, [], ◌∷◌, bit_and}
use homemade_os.Keyboard.Keys.{caps_lock, up}
use homemade_os.Keyboard.{initial, scan1_to_key, scan_e0_to_key, keyboard_input}
use homemade_os.Keyboard.Decode.{
  Stroke, plain, extended, print, all_codes, all_events, keyboard_input-strokes,
}
use homemade_os.Keyboard.Mouse.{mouse_event, movement}
use homemade_os.Keyboard.Mouse.Packets.{Packet, mouse_event-buttons}

keys_of_codes :
    (scan1_to_key 0x10 ≡ b'q') × (scan1_to_key 0x3a ≡ caps_lock) × (scan_e0_to_key 0x48 ≡ up)
unfolding scan1_to_key scan_e0_to_key
keys_of_codes = (refl, refl, refl)

-- q, the cursor key upward and Print Screen.
abbrev strokes : List Stroke
strokes =
    plain b'q' 0x10 false
    ∷ extended up 0x48 false
    ∷ plain b'q' 0x10 true
    ∷ print false
    ∷ extended up 0x48 true
    ∷ print true
    ∷ []

keyboard_input-strokes_example :
    keyboard_input (all_codes strokes) initial ≡ (all_events strokes, initial)
keyboard_input-strokes_example =
    keyboard_input-strokes strokes (refl, (refl, (refl, (tt, (refl, (tt, tt))))))

-- A press of the left button, with a movement of (5, -3) and a byte before that is out of step.
abbrev packet : Packet
packet = record { noise = 3 ∷ []; byte0 = 41; byte1 = 5; byte2 = 253 }

packet_bit : bit_and packet.byte0 8 ≢ 0
packet_bit h = absurd (omega (arith, h))

mouse_event-buttons_example :
    let e = mouse_event 8 14 0 0 in
    (e.press_right ≡ 0) × (e.press_middle ≡ 0) × (e.release_right ≡ 0) × (e.release_middle ≡ 0)
mouse_event-buttons_example = mouse_event-buttons 8 14 0 0

packet_event :
    let e = mouse_event 8 41 5 253 in (e.press_left ≡ 1) × (e.move_x ≡ 5) × (e.move_y ≡ 65533)
unfolding mouse_event movement
packet_event = (refl, refl, refl)
