-- ===== src/Tcp/Receive/Tests.antt =====
-- Runs of the receive window of src/kernel/io/network/tcp.c at four bytes, across the wrap of the
-- sequence numbers, and the theorems applied there.
use homemade_os.Base.{◌≡◌, refl, true, false, [], ◌∷◌}
use homemade_os.Tcp.Receive.{no_slot, ReceiveWindow, has_receive_data, copy_receive_window}
use homemade_os.Tcp.Receive.Deliver.{readable}

-- the byte 7 at 2 ^ 32 - 1 is readable, the next three places are free
abbrev wrapping : ReceiveWindow
wrapping = record {
  sequence_begin = 4294967295;
  sequence_length = 1;
  window_size = 4;
  reach_finish = false;
  sequence_finish = 0;
  buffer = no_slot ∷ no_slot ∷ no_slot ∷ record { has_data = true; byte = 7 } ∷ [];
  requests = record { rwfr = 1; buffer_size = 2 } ∷ record { rwfr = 2; buffer_size = 5 } ∷ [];
}

-- a segment that arrives behind a gap is kept, and is readable once the gap is closed
out_of_order :
    let u = (copy_receive_window wrapping 1 (9 ∷ [])).1 in
    (readable u ≡ 7 ∷ []) × (readable (copy_receive_window u 0 (8 ∷ [])).1 ≡ 7 ∷ 8 ∷ 9 ∷ [])
unfolding copy_receive_window has_receive_data
out_of_order = (refl, refl)
