-- ===== src/Tcp/Transmit/Remain.antt =====
-- What `getTCPTransmitRemainSize` leaves of the bytes to send.
use homemade_os.Base.{
  ℕ, ◌+◌, ◌-◌, ◌%◌, ◌^◌, ◌≤◌, ◌<◌, ◌≡◌, inl, inr, min, List, [], ◌∷◌, arith, length, take, drop,
  length-drop, length-append, take-min, leb, Bool-cases,
}
use homemade_os.Tcp.Sequence.{add_sequence, diff_sequence}
use homemade_os.Tcp.Transmit.{TransmitBuffer, TransmitWindow, get_transmit_remain_size}
use homemade_os.Tcp.Transmit.Stream.{all_bytes, IsChain, head_size}
use homemade_os.Tcp.Transmit.Placed.{IsPlaced, unsent_from}

IsChain-last :
    (s t : ℕ) (bs : List TransmitBuffer)
    → s < 2 ^ 32
    → IsChain s t bs
    → t ≡ add_sequence s (length (all_bytes bs))
unfolding all_bytes
IsChain-last s t [] h c = omega (arith, c)
IsChain-last s t (b ∷ bs) h (e, l, c) =
    let joined = length-append b.buffer (all_bytes bs) in
    omega (arith, IsChain-last (add_sequence s b.size) t bs (omega arith) c, l, joined)

head_size-le :
    (s t : ℕ) (bs : List TransmitBuffer) → IsChain s t bs → head_size bs ≤ length (all_bytes bs)
unfolding head_size all_bytes
head_size-le s t [] c = omega arith
head_size-le s t (b ∷ bs) (e, l, c) = omega (arith, l, length-append b.buffer (all_bytes bs))

left_sequence :
    (w : TransmitWindow) (off s : ℕ) (rest : List TransmitBuffer)
    → IsPlaced w off rest s
    → diff_sequence w.tail_sequence w.current_sequence ≡ length (all_bytes rest) - off
left_sequence w off s rest p =
    let last = IsChain-last s w.tail_sequence rest p.first_in p.chain in
    let inside : off ≤ length (all_bytes rest) =
      omega (arith, p.offset_in, head_size-le s w.tail_sequence rest p.chain) in
    omega (arith, last, p.number, inside, p.total, p.first_in)

pub remain-le :
    (w : TransmitWindow) (off s : ℕ) (rest : List TransmitBuffer)
    → IsPlaced w off rest s
    → get_transmit_remain_size w ≤ length (all_bytes rest) - off
unfolding get_transmit_remain_size
remain-le w off s rest p = ground (arith, left_sequence w off s rest p)

length-unsent_from :
    (off s t : ℕ) (bs : List TransmitBuffer)
    → IsChain s t bs
    → off ≤ head_size bs
    → length (unsent_from off bs) ≤ length (all_bytes bs) - off
unfolding unsent_from all_bytes head_size
length-unsent_from off s t [] c h = omega arith
length-unsent_from off s t (b ∷ bs) (e, l, c) h = elim (Bool-cases b.is_fin) [
  | inl fin ↦ rw fin (omega arith)
  | inr not_fin ↦
      let rest = length-unsent_from 0 (add_sequence s b.size) t bs c (omega arith) in
      let parts = length-append (drop off b.buffer) (unsent_from 0 bs) in
      let all = length-append b.buffer (all_bytes bs) in
      rw not_fin (omega (arith, rest, parts, all, length-drop off b.buffer, l, h))
]

-- Where the bytes that are left limit how many are taken, there are no more.
remain-cases :
    (w : TransmitWindow) (left n k size : ℕ)
    → diff_sequence w.tail_sequence w.current_sequence ≡ left
    → n ≤ left
    → min (min (min (get_transmit_remain_size w) size) k) n
      ≡ min
          (min
            (min (w.scaled_window_size - diff_sequence w.current_sequence w.sequence_begin) size)
            k)
          n
unfolding get_transmit_remain_size
remain-cases w left n k size e h =
    elim (Bool-cases
      (leb w.scaled_window_size (diff_sequence w.current_sequence w.sequence_begin))) [
        | inl full ↦ rw full (ground (arith, e, h))
        | inr room ↦ rw room (ground (arith, e, h))
      ]

-- The bytes that are left do not limit how many are taken.
pub take-remain :
    (w : TransmitWindow) (off s : ℕ) (rest : List TransmitBuffer) (buffer_size : ℕ)
    → IsPlaced w off rest s
    → take
        (min (min (get_transmit_remain_size w) buffer_size) w.max_segment_size)
        (unsent_from off rest)
      ≡ take
          (min
            (min
              (w.scaled_window_size - (w.current_sequence + 2 ^ 32 - w.sequence_begin) % 2 ^ 32)
              buffer_size)
            w.max_segment_size)
          (unsent_from off rest)
take-remain w off s rest buffer_size p =
    take-min (min (min (get_transmit_remain_size w) buffer_size) w.max_segment_size) _
      (unsent_from off rest)
      (remain-cases w (length (all_bytes rest) - off) (length (unsent_from off rest))
        w.max_segment_size buffer_size (left_sequence w off s rest p)
        (length-unsent_from off s w.tail_sequence rest p.chain p.offset_in))
