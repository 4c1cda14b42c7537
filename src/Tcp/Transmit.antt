-- ===== src/Tcp/Transmit.antt =====
-- The transmit window of src/kernel/io/network/tcp.c. The buffers in front of the sentinel `tail` are
-- a list; `current` is a place in it, the length of the list for `tail`, whose sequence number is
-- `tail_sequence`. An assertion is not executed.
pub mod Stream
pub mod Ack
pub mod Push
pub mod Placed
pub mod Remain
pub mod Send
pub mod Stall
mod Tests
use homemade_os.Base.{
  ℕ, zero, suc, ◌+◌, ◌-◌, ◌^◌, min, Bool, true, false, not, ◌&&◌, Option, none, some, List, [], ◌∷◌,
  ◌++◌, ltb, leb, ◌==◌, if◌then◌else◌, length, take, drop,
}
use homemade_os.Tcp.Sequence.{add_sequence, diff_sequence}

pub record TransmitBuffer : Type 0 where
  pub sequence_begin : ℕ
  pub size : ℕ
  pub is_fin : Bool
  pub buffer : List ℕ

pub record TransmitWindow : Type 0 where
  pub sequence_begin : ℕ
  pub scaled_window_size : ℕ
  pub window_scale : ℕ
  pub max_segment_size : ℕ
  pub buffers : List TransmitBuffer
  pub tail_sequence : ℕ
  pub current : ℕ
  pub current_sequence : ℕ

unfoldable pub init_transmit_window : ℕ → TransmitWindow
init_transmit_window seq = record {
  sequence_begin = seq;
  scaled_window_size = 2;
  window_scale = 0;
  max_segment_size = 576;
  buffers = [];
  tail_sequence = seq;
  current = 0;
  current_sequence = seq;
}

-- `sequenceBegin` of the buffer at a place, or of `tail`.
unfoldable pub sequence_at : (tail_sequence : ℕ) → List TransmitBuffer → ℕ → ℕ
sequence_at t [] i = t
sequence_at t (b ∷ bs) zero = b.sequence_begin
sequence_at t (b ∷ bs) (suc i) = sequence_at t bs i

-- `pushTCPTransmitBuffer` with the buffer allocated. A new buffer takes the place of `tail` in the
-- list, so `current` names it when it named `tail`.
unfoldable pub push_transmit_buffer :
    TransmitWindow → (buffer : List ℕ) → (fin : Bool) → TransmitWindow
push_transmit_buffer w buffer fin = record w {
  buffers =
      w.buffers
      ++ (record {
        sequence_begin = w.tail_sequence;
        size = length buffer;
        is_fin = fin;
        buffer = buffer;
      }
          ∷ []);
  tail_sequence = add_sequence w.tail_sequence (length buffer);
}

-- `popTCPTransmitBuffer`, of a head `b` in front of `bs`. `current` goes on with the next buffer if
-- it is the head.
unfoldable pub pop_transmit_buffer : TransmitWindow → List TransmitBuffer → TransmitWindow
unfolding sequence_at
pop_transmit_buffer w bs = record w {
  buffers = bs;
  current = w.current - 1;
  current_sequence =
      if w.current == 0 then sequence_at w.tail_sequence bs 0 else w.current_sequence;
}

unfoldable pub get_transmit_remain_size : TransmitWindow → ℕ
get_transmit_remain_size w =
    let curr_diff = diff_sequence w.current_sequence w.sequence_begin in
    if leb w.scaled_window_size curr_diff
    then 0
    else min (w.scaled_window_size - curr_diff) (diff_sequence w.tail_sequence w.current_sequence)

unfoldable pub rollback_transmit_sequence : TransmitWindow → TransmitWindow
rollback_transmit_sequence w = record w { current = 0; current_sequence = w.sequence_begin }

-- The body of the loop of `ackTransmitWindow` on the head `b` in front of `bs`: what is left of
-- `ackDiff`, and the window.
unfoldable pub ack_head :
    (ack_diff : ℕ) → TransmitWindow → TransmitBuffer → List TransmitBuffer → ℕ × TransmitWindow
unfolding pop_transmit_buffer
ack_head ack_diff w b bs =
    let head_offset = diff_sequence w.sequence_begin b.sequence_begin in
    let ack_size = min (b.size - head_offset) ack_diff in
    let w' = record w { sequence_begin = add_sequence w.sequence_begin ack_size } in
    (
      ack_diff - ack_size,
      (if b.size == diff_sequence w'.sequence_begin b.sequence_begin
          then pop_transmit_buffer w' bs
          else w'),
    )

-- The loop of `ackTransmitWindow`. `none`: out of fuel.
unfoldable pub ack_buffers : (fuel ack_diff : ℕ) → TransmitWindow → Option (ℕ × TransmitWindow)
ack_buffers zero ack_diff w = none
ack_buffers (suc n) ack_diff w = elim w.buffers [
  | [] ↦ some (ack_diff, w)
  | b ∷ bs ↦
      let (left, w') = ack_head ack_diff w b bs in
      if ack_diff == 0 then some (ack_diff, w) else ack_buffers n left w'
]

-- The end of `ackTransmitWindow`: an acknowledgement past the last buffer moves the empty window.
unfoldable pub ack_rest : (ack : ℕ) → ℕ × TransmitWindow → TransmitWindow
ack_rest ack (left, w) =
    if left == 0
    then w
    else record w { sequence_begin = ack; tail_sequence = ack; current_sequence = ack }

-- The result, which is 0 for a duplicated acknowledgement, and the window.
unfoldable pub ack_transmit_window : (fuel ack : ℕ) → TransmitWindow → Option (ℕ × TransmitWindow)
unfolding ack_buffers ack_rest
ack_transmit_window fuel ack w =
    let total = diff_sequence ack w.sequence_begin in
    if ltb 65535 total
    then some (0, w)
    else elim (ack_buffers fuel total w) [ none ↦ none | some r ↦ some (total, ack_rest ack r) ]

-- The buffer at a place; `none` is `tail`.
unfoldable pub buffer_at : List TransmitBuffer → ℕ → Option TransmitBuffer
buffer_at [] i = none
buffer_at (b ∷ bs) zero = some b
buffer_at (b ∷ bs) (suc i) = buffer_at bs i

-- `addTCPTransmitSequence`, with the buffer `c` that `current` names.
unfoldable pub add_transmit_sequence :
    TransmitWindow → TransmitBuffer → (add_seq : ℕ) → TransmitWindow
add_transmit_sequence w c add_seq =
    let seq = add_sequence w.current_sequence add_seq in
    record w {
      current_sequence = seq;
      current = if c.size == diff_sequence seq c.sequence_begin then w.current + 1 else w.current;
    }

-- The loop of `copyTCPTransmitBuffer`, with `offset` bytes copied: the bytes that it copies from then
-- on. `none`: out of fuel, or the loop goes on at `tail`, which has no flag to read.
unfoldable pub copy_bytes :
    (fuel max_copy_size offset : ℕ) → TransmitWindow → Option (List ℕ × TransmitWindow)
unfolding buffer_at add_transmit_sequence
copy_bytes zero max_copy_size offset w = none
copy_bytes (suc n) max_copy_size offset w = elim (buffer_at w.buffers w.current) [
  | none ↦ if ltb offset max_copy_size then none else some ([], w)
  | some c ↦
      let current_offset = diff_sequence w.current_sequence c.sequence_begin in
      let copy_size = min (max_copy_size - offset) (c.size - current_offset) in
      let rest =
        copy_bytes n max_copy_size (offset + copy_size) (add_transmit_sequence w c copy_size) in
      if ltb offset max_copy_size && not c.is_fin
      then elim rest [
        | none ↦ none
        | some (bytes, w') ↦ some (take copy_size (drop current_offset c.buffer) ++ bytes, w')
      ]
      else some ([], w)
]

-- The bytes copied, whose number is the result, and the window.
unfoldable pub copy_transmit_buffer :
    (fuel : ℕ) → TransmitWindow → (buffer_size : ℕ) → Option (List ℕ × TransmitWindow)
unfolding copy_bytes get_transmit_remain_size
copy_transmit_buffer fuel w buffer_size =
    copy_bytes fuel (min (min (get_transmit_remain_size w) buffer_size) w.max_segment_size) 0 w
