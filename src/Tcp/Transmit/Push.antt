-- ===== src/Tcp/Transmit/Push.antt =====
-- `pushTCPTransmitBuffer`: the bytes of a write request follow those that the window holds.
use homemade_os.Base.{
  ℕ, zero, suc, ◌+◌, ◌^◌, ◌≤◌, ◌<◌, ◌≡◌, refl, sym, ap, ap₂, ◌∙◌, subst, Bool, List, [], ◌∷◌, ◌++◌,
  append-nil, append_assoc, arith, length, drop, length-append,
}
use homemade_os.Tcp.Sequence.{add_sequence, diff_sequence}
use homemade_os.Tcp.Transmit.{TransmitBuffer, TransmitWindow, sequence_at, push_transmit_buffer}
use homemade_os.Tcp.Transmit.Stream.{
  all_bytes, IsChain, head_offset, head_size, unacknowledged, IsSending,
}

abbrev last_buffer : (t : ℕ) → List ℕ → Bool → TransmitBuffer
last_buffer t bytes fin = record {
  sequence_begin = t;
  size = length bytes;
  is_fin = fin;
  buffer = bytes;
}

all_bytes-append :
    (bs cs : List TransmitBuffer) → all_bytes (bs ++ cs) ≡ all_bytes bs ++ all_bytes cs
unfolding all_bytes
all_bytes-append [] cs = refl
all_bytes-append (b ∷ bs) cs =
    ap (λ r. b.buffer ++ r) (all_bytes-append bs cs)
    ∙ sym (append_assoc b.buffer (all_bytes bs) (all_bytes cs))

IsChain-append :
    (s t : ℕ) (bs : List TransmitBuffer) (bytes : List ℕ) (fin : Bool)
    → IsChain s t bs
    → IsChain s (add_sequence t (length bytes)) (bs ++ (last_buffer t bytes fin ∷ []))
IsChain-append s t [] bytes fin c = (sym c, refl, ap (λ k. add_sequence k (length bytes)) c)
IsChain-append s t (b ∷ bs) bytes fin (e, l, c) =
    (e, l, IsChain-append (add_sequence s b.size) t bs bytes fin c)

first-append :
    (t t' : ℕ) (bs : List TransmitBuffer) (bytes : List ℕ) (fin : Bool)
    → sequence_at t' (bs ++ (last_buffer t bytes fin ∷ [])) 0 ≡ sequence_at t bs 0
unfolding sequence_at
first-append t t' [] bytes fin = refl
first-append t t' (b ∷ bs) bytes fin = refl

head_size-append :
    (bs cs : List TransmitBuffer) (off : ℕ) → off ≤ head_size bs → off ≤ head_size (bs ++ cs)
unfolding head_size
head_size-append [] cs off h = omega arith
head_size-append (b ∷ bs) cs off h = h

head_size-le :
    (s t : ℕ) (bs : List TransmitBuffer) → IsChain s t bs → head_size bs ≤ length (all_bytes bs)
unfolding head_size all_bytes
head_size-le s t [] c = omega arith
head_size-le s t (b ∷ bs) (e, l, c) = omega (arith, l, length-append b.buffer (all_bytes bs))

drop-append_short : (n : ℕ) (xs ys : List ℕ) → n ≤ length xs → drop n (xs ++ ys) ≡ drop n xs ++ ys
drop-append_short zero xs ys h = refl
drop-append_short (suc n) [] ys h = absurd (omega arith)
drop-append_short (suc n) (x ∷ xs) ys h = drop-append_short n xs ys (omega arith)

only_bytes :
    (t : ℕ) (bytes : List ℕ) (fin : Bool) → all_bytes (last_buffer t bytes fin ∷ []) ≡ bytes
unfolding all_bytes
only_bytes t bytes fin = append-nil bytes

-- A push to a valid window, when it holds less than 2 ^ 32 bytes with the new ones: what it holds is
-- what it held, and then the new bytes, and it stays valid; the place and number to send next stay.
pub push_transmit_buffer_lem :
    (w : TransmitWindow) (bytes : List ℕ) (fin : Bool)
    → IsSending w
    → length (all_bytes w.buffers) + length bytes < 2 ^ 32
    → let u = push_transmit_buffer w bytes fin in
      (unacknowledged u ≡ unacknowledged w ++ bytes)
      × IsSending u
      × (u.current ≡ w.current)
      × (u.current_sequence ≡ w.current_sequence)
unfolding push_transmit_buffer
push_transmit_buffer_lem w bytes fin s h =
    let t' : ℕ = add_sequence w.tail_sequence (length bytes) in
    let u : TransmitWindow = push_transmit_buffer w bytes fin in
    let new : List TransmitBuffer = last_buffer w.tail_sequence bytes fin ∷ [] in
    let first : sequence_at u.tail_sequence u.buffers 0 ≡ sequence_at w.tail_sequence w.buffers 0 =
      first-append w.tail_sequence t' w.buffers bytes fin in
    let offset : head_offset u ≡ head_offset w = ap (diff_sequence w.sequence_begin) first in
    let joined : all_bytes u.buffers ≡ all_bytes w.buffers ++ bytes =
      all_bytes-append w.buffers new
      ∙ ap (λ r. all_bytes w.buffers ++ r) (only_bytes w.tail_sequence bytes fin) in
    (
      ap₂ drop offset joined
          ∙ drop-append_short (head_offset w) (all_bytes w.buffers) bytes
              (omega (arith, s.offset_in, head_size-le _ w.tail_sequence w.buffers s.chain)),
      record {
        begin_in = s.begin_in;
        first_in = omega (arith, first, s.first_in);
        chain =
            subst (λ f. IsChain f t' u.buffers) (sym first)
              (IsChain-append _ w.tail_sequence w.buffers bytes fin s.chain);
        offset_in =
            omega (arith, offset, head_size-append w.buffers new (head_offset w) s.offset_in);
        total = omega (arith, h, ap length joined, length-append (all_bytes w.buffers) bytes);
      },
      refl,
      refl,
    )
