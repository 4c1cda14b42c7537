-- ===== src/Tcp/Transmit/Tests.antt =====
-- A transmit window of src/kernel/io/network/tcp.c across the wrap of the sequence numbers, and the
-- theorems applied there.
use homemade_os.Base.{◌≡◌, refl, false, some, List, ℕ, [], ◌∷◌, ◌++◌, arith, drop, length}
use homemade_os.Tcp.Transmit.{
  TransmitWindow, sequence_at, push_transmit_buffer, ack_transmit_window, copy_transmit_buffer,
  get_transmit_remain_size,
}
use homemade_os.Tcp.Transmit.Stream.{all_bytes, head_size, unacknowledged, IsSending}
use homemade_os.Tcp.Transmit.Ack.{ack_transmit_window_lem}
use homemade_os.Tcp.Transmit.Placed.{IsPlaced, unsent_from}
use homemade_os.Tcp.Transmit.Send.{copy_transmit_buffer_lem}
use homemade_os.Tcp.Sequence.{add_sequence}
use homemade_os.Tcp.Transmit.Push.{push_transmit_buffer_lem}

-- the first of the bytes 1 2 3 is acknowledged, the byte after them has the sequence number 1
abbrev wrapping : TransmitWindow
wrapping = record {
  sequence_begin = 4294967295;
  scaled_window_size = 100;
  window_scale = 0;
  max_segment_size = 576;
  buffers =
      record { sequence_begin = 4294967294; size = 3; is_fin = false; buffer = 1 ∷ 2 ∷ 3 ∷ [] }
      ∷ record { sequence_begin = 1; size = 2; is_fin = false; buffer = 4 ∷ 5 ∷ [] }
      ∷ [];
  tail_sequence = 3;
  current = 1;
  current_sequence = 1;
}

wrapping-IsSending : IsSending wrapping
unfolding sequence_at head_size all_bytes
wrapping-IsSending = record {
  begin_in = omega arith;
  first_in = omega arith;
  chain = (refl, refl, (refl, refl, refl));
  offset_in = omega arith;
  total = omega arith;
}

ack_example :
    (u : TransmitWindow) × (ack_transmit_window 3 2 wrapping ≡ some (3, u))
    × IsSending u
    × (unacknowledged u ≡ drop 3 (unacknowledged wrapping))
    × (u.sequence_begin ≡ 2)
unfolding all_bytes sequence_at
ack_example =
    ack_transmit_window_lem 3 2 wrapping wrapping-IsSending (omega arith) (omega arith)
      (omega arith) (omega arith)

push_example :
    let u = push_transmit_buffer wrapping (6 ∷ 7 ∷ []) false in
    (unacknowledged u ≡ unacknowledged wrapping ++ (6 ∷ 7 ∷ []))
    × IsSending u
    × (u.current ≡ 1)
    × (u.current_sequence ≡ 1)
unfolding all_bytes
push_example = push_transmit_buffer_lem wrapping (6 ∷ 7 ∷ []) false wrapping-IsSending (omega arith)

-- the byte 4 is sent, the byte 5 is the next
abbrev sending : TransmitWindow
sending = record wrapping { current_sequence = 2 }

sending-IsPlaced :
    IsPlaced sending 1
      (record { sequence_begin = 1; size = 2; is_fin = false; buffer = 4 ∷ 5 ∷ [] } ∷ [])
      1
unfolding head_size all_bytes
sending-IsPlaced = record {
  place = refl;
  first_in = omega arith;
  chain = (refl, refl, refl);
  number = refl;
  offset_in = omega arith;
  total = omega arith;
}

send_example :
    (bytes : List ℕ) × (u : TransmitWindow) × (copy_transmit_buffer 2 sending 1500
      ≡ some (bytes, u))
    × (bytes ≡ 5 ∷ [])
    × (u.current_sequence ≡ add_sequence 2 (length bytes))
    × (u.buffers ≡ sending.buffers)
    × (u.sequence_begin ≡ 4294967295)
unfolding unsent_from get_transmit_remain_size
send_example =
    copy_transmit_buffer_lem 2 1500 1 1 sending
      (record { sequence_begin = 1; size = 2; is_fin = false; buffer = 4 ∷ 5 ∷ [] } ∷ [])
      sending-IsPlaced (omega arith)
