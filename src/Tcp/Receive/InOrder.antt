-- ===== src/Tcp/Receive/InOrder.antt =====
-- A stream that arrives in order reaches the reader byte for byte.
use homemade_os.Base.{
  ℕ, suc, ◌+◌, ◌-◌, ◌≤◌, ◌<◌, ◌≡◌, refl, sym, ap, ap₂, ◌∙◌, subst, inl, inr, false, List, [], ◌∷◌,
  ◌++◌, arith, length, get_or, both_absurd,
}
use native.Mathlib.Decide.{dec_lt}
use homemade_os.Tcp.Sequence.{add_sequence}
use homemade_os.Tcp.Receive.{ReceiveWindow, sequence_limit}
use homemade_os.Tcp.Receive.Store.{IsWindow, slot_at, index_in, full_slot, stored_at}
use homemade_os.Tcp.Receive.Copy.{IsFilled, Copied}
use homemade_os.Tcp.Receive.Deliver.{bytes_from, readable, bytes_from-append, bytes_from-shift}

-- Nothing is held beyond the readable bytes.
abbrev pub IsTight : ReceiveWindow → Type 0
IsTight v =
    (off : ℕ) → v.sequence_length ≤ off → off < v.window_size → (slot_at v off).has_data ≡ false

abbrev pub next_sequence : ReceiveWindow → ℕ
next_sequence v = add_sequence v.sequence_begin v.sequence_length

bytes_from-get_or :
    (u : ReceiveWindow) (off : ℕ) (bytes : List ℕ)
    → ((i : ℕ) → i < length bytes → (slot_at u (off + i)).byte ≡ get_or bytes i 0)
    → bytes_from u off (length bytes) ≡ bytes
bytes_from-get_or u off [] h = refl
bytes_from-get_or u off (b ∷ bs) h =
    let start : off ≡ off + 0 = omega arith in
    ap₂ ◌∷◌ (ap (λ k. (slot_at u k).byte) start ∙ h 0 (omega arith)) (
      bytes_from-get_or u (off + 1) bs λ i p.
        let e : off + 1 + i ≡ off + suc i = omega arith in
        ap (λ k. (slot_at u k).byte) e ∙ h (suc i) (omega arith))

module _ (v : ReceiveWindow) (bytes : List ℕ) (w : IsWindow v) (f : IsFilled v) (tight : IsTight v)
    (fits : v.sequence_length + length bytes ≤ sequence_limit v) where
  index_before :
      (off : ℕ) → off < v.sequence_length → length bytes ≤ index_in v (next_sequence v) off
  index_before off h = omega (arith, w.begin_in, w.bounded, f.limit_in, f.length_in)

  index_after :
      (off : ℕ)
      → v.sequence_length ≤ off
      → off < v.window_size
      → index_in v (next_sequence v) off ≡ off - v.sequence_length
  index_after off h k = omega (arith, w.begin_in, w.bounded, f.limit_in, f.length_in)

  in_range : (off : ℕ) → off < v.sequence_length + length bytes → off < v.window_size
  in_range off h = omega (arith, f.limit_in)

  module _ (n : ℕ) (u : ReceiveWindow) (c : Copied v (next_sequence v) bytes n u) where
    slot_before : (off : ℕ) → off < v.sequence_length → slot_at u off ≡ slot_at v off
    slot_before off h =
        c.slots off (omega (arith, f.length_in, f.limit_in))
        ∙ (let far = index_before off h in ground arith)

    slot_new :
        (i : ℕ)
        → i < length bytes
        → slot_at u (v.sequence_length + i) ≡ full_slot (get_or bytes i 0)
    slot_new i h =
        let at : index_in v (next_sequence v) (v.sequence_length + i) ≡ i = omega (
          arith,
          index_after (v.sequence_length + i) (omega arith)
              (in_range (v.sequence_length + i) (omega arith)),
        ) in
        c.slots (v.sequence_length + i) (in_range (v.sequence_length + i) (omega arith))
        ∙ ap (λ k. stored_at bytes k (slot_at v (v.sequence_length + i))) at
        ∙ ground arith

    slot_past :
        v.sequence_length + length bytes < v.window_size
        → (slot_at u (v.sequence_length + length bytes)).has_data ≡ false
    slot_past h =
        let off : ℕ = v.sequence_length + length bytes in
        let at : index_in v (next_sequence v) off ≡ length bytes =
          omega (arith, index_after off (omega arith) h) in
        ap (λ s. s.has_data) (c.slots off h ∙ ap (λ k. stored_at bytes k (slot_at v off)) at)
        ∙ (let old = tight off (omega arith) h in ground arith)

    all_new : n ≡ length bytes
    all_new = elim (dec_lt n (length bytes)) [
      | yes few ↦ elim c.stops [
        | inl done ↦ absurd (omega (arith, done, c.count, fits))
        | inr gap ↦
            both_absurd (ap (λ s. s.has_data) (slot_new n few))
              (ap (λ k. (slot_at u k).has_data) (sym c.count) ∙ gap)
      ]
      | no enough ↦ elim (dec_lt (length bytes) n) [
        | yes many ↦
            let off : ℕ = v.sequence_length + length bytes in
            let size : u.window_size ≡ v.window_size = c.shape.size in
            let inside : off < v.window_size =
              omega (arith, c.count, c.filled.length_in, c.filled.limit_in, size) in
            both_absurd (c.filled.full off (omega (arith, c.count))) (slot_past inside)
        | no few_or_equal ↦ omega arith
      ]
    ]

    new_bytes : bytes_from u v.sequence_length (length bytes) ≡ bytes
    new_bytes = bytes_from-get_or u v.sequence_length bytes (λ i h. ap (λ s. s.byte) (slot_new i h))

    old_bytes : bytes_from u 0 v.sequence_length ≡ readable v
    old_bytes = bytes_from-shift u v 0 0 v.sequence_length (λ i h.
        let e : i ≡ 0 + i = omega arith in
        subst (λ k. slot_at u k ≡ slot_at v k) e (slot_before i h))

    all_bytes : readable u ≡ readable v ++ bytes
    all_bytes =
        let len : u.sequence_length ≡ v.sequence_length + length bytes =
          omega (arith, c.count, all_new) in
        let start : 0 + v.sequence_length ≡ v.sequence_length = omega arith in
        ap (bytes_from u 0) len
        ∙ sym (bytes_from-append u 0 v.sequence_length (length bytes))
        ∙ ap₂ ◌++◌ old_bytes (ap (λ k. bytes_from u k (length bytes)) start ∙ new_bytes)
