-- ===== src/Keyboard/Mouse/Packets.antt =====
-- The events that the bytes of the mouse make, and the buttons in them.
use homemade_os.Base.{
  ℕ, ◌%◌, ◌≡◌, ◌≢◌, refl, ap, ◌∙◌, arith, true, false, none, List, [], ◌∷◌, ◌++◌, ◌==◌, All,
  bit_and, bit_xor, bit_and-halves,
}
use homemade_os.Keyboard.Mouse.{MouseEvent, MouseState, mouse_event, mouse_input, mouse_inputs}

-- A packet of three bytes, and bytes in front of it that do not begin one.
pub record Packet : Type 0 where
  pub noise : List ℕ
  pub byte0 : ℕ
  pub byte1 : ℕ
  pub byte2 : ℕ

abbrev pub IsPacket : Packet → Type 0
IsPacket p = All (λ d. bit_and d 8 ≡ 0) p.noise × (bit_and p.byte0 8 ≢ 0)

abbrev pub bytes_of : List Packet → List ℕ
bytes_of [] = []
bytes_of (p ∷ packets) = p.noise ++ (p.byte0 ∷ p.byte1 ∷ p.byte2 ∷ bytes_of packets)

-- Each event is of a packet, and of the first byte of the packet before it.
abbrev pub events_of : (prev0 : ℕ) → List Packet → List MouseEvent
events_of prev0 [] = []
events_of prev0 (p ∷ packets) =
    mouse_event prev0 p.byte0 p.byte1 p.byte2 ∷ events_of p.byte0 packets

mouse_input-skip :
    (d : ℕ) (s : MouseState) → s.state ≡ 0 → bit_and d 8 ≡ 0 → mouse_input d s ≡ (s, none)
unfolding mouse_input
mouse_input-skip d s at no_bit =
    let e : (s.state == 0) ≡ true = ground arith in
    let f : (bit_and d 8 == 0) ≡ true = ground arith in rw (e, f) refl

mouse_inputs-noise :
    (noise bytes : List ℕ) (s : MouseState)
    → s.state ≡ 0
    → All (λ d. bit_and d 8 ≡ 0) noise
    → mouse_inputs (noise ++ bytes) s ≡ mouse_inputs bytes s
unfolding mouse_inputs
mouse_inputs-noise [] bytes s at h = refl
mouse_inputs-noise (d ∷ noise) bytes s at h =
    rw (mouse_input-skip d s at h.0, mouse_inputs) (mouse_inputs-noise noise bytes s at h.1)

abbrev first : MouseEvent → List MouseEvent × MouseState → List MouseEvent × MouseState
first e (events, s) = (e ∷ events, s)

mouse_inputs-packet :
    (prev0 old0 old1 b0 b1 b2 : ℕ) (bytes : List ℕ)
    → bit_and b0 8 ≢ 0
    → mouse_inputs
        (b0 ∷ b1 ∷ b2 ∷ bytes)
        (record { state = 0; prev0 = prev0; data0 = old0; data1 = old1 })
      ≡ first
          (mouse_event prev0 b0 b1 b2)
          (mouse_inputs bytes (record { state = 0; prev0 = b0; data0 = b0; data1 = b1 }))
unfolding mouse_inputs mouse_input
mouse_inputs-packet prev0 old0 old1 b0 b1 b2 bytes bit =
    let e : (bit_and b0 8 == 0) ≡ false = ground arith in rw (e, mouse_inputs) refl

-- Between packets, bytes that cannot begin a packet are passed over, however many: each packet makes one
-- event, in order, of its bytes and the buttons of the packet before it.
pub mouse_inputs-packets :
    (packets : List Packet) (prev0 old0 old1 : ℕ)
    → All IsPacket packets
    → (mouse_inputs
        (bytes_of packets)
        (record { state = 0; prev0 = prev0; data0 = old0; data1 = old1 })).0
      ≡ events_of prev0 packets
unfolding mouse_inputs
mouse_inputs-packets [] prev0 old0 old1 h = refl
mouse_inputs-packets (p ∷ packets) prev0 old0 old1 ((quiet, bit), h) =
    ap (λ r. r.0)
      (mouse_inputs-noise p.noise (p.byte0 ∷ p.byte1 ∷ p.byte2 ∷ bytes_of packets)
          (record { state = 0; prev0 = prev0; data0 = old0; data1 = old1 }) refl quiet
        ∙ mouse_inputs-packet prev0 old0 old1 p.byte0 p.byte1 p.byte2 (bytes_of packets) bit)
    ∙ ap (λ l. mouse_event prev0 p.byte0 p.byte1 p.byte2 ∷ l)
        (mouse_inputs-packets packets p.byte0 p.byte0 p.byte1 h)

lost_two : (x : ℕ) → bit_and x 2 % 2 ≡ 0
lost_two x = omega (arith, bit_and-halves x 2)

lost_four : (x : ℕ) → bit_and x 4 % 2 ≡ 0
lost_four x = omega (arith, bit_and-halves x 4)

-- Whatever the packets, no event tells of the right or the middle button: the bits 2 and 4 do not fit the
-- fields.
pub mouse_event-buttons :
    (prev0 data0 data1 data2 : ℕ)
    → let e = mouse_event prev0 data0 data1 data2 in
      (e.press_right ≡ 0) × (e.press_middle ≡ 0) × (e.release_right ≡ 0) × (e.release_middle ≡ 0)
unfolding mouse_event
mouse_event-buttons prev0 data0 data1 data2 =
    let changed = bit_xor data0 prev0 in
    (
      lost_two (bit_and data0 changed),
      lost_four (bit_and data0 changed),
      lost_two (bit_and prev0 changed),
      lost_four (bit_and prev0 changed),
    )
