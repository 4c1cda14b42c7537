-- ===== src/Tcp/Handshake/Syn.antt =====
-- What the packet of the handshake says, and what is read from it.
use homemade_os.Base.{
  ℕ, suc, ◌-◌, ◌^◌, ◌≤◌, ◌<◌, ◌≡◌, refl, ap, ◌∙◌, arith, Bool, true, false, some, ltb, ge→ltb,
  if◌then◌else◌,
}
use homemade_os.Text.{change_endian16, change_endian32}
use homemade_os.Network.Bytes.{
  Bytes, load16, load32, store16, store32, load_bits, store_bits, behind,
}
use homemade_os.Network.Checksum.{calculate_ip_data_checksum2}
use homemade_os.Network.Checksum.Data.{checksum2-store16}
use homemade_os.Tcp.Receive.{ReceiveWindow, get_receive_ack}
use homemade_os.Tcp.Transmit.{TransmitWindow}
use homemade_os.Tcp.Options.{Options, stop, next, option_round, parse_loop, parse_tcp_options}
use homemade_os.Tcp.Header.{
  get_tcp_header_size, is_syn, is_ack, get_acknowledge_number, get_sequence_number, get_window_size,
  init_tcp_packet, init_tcp_data, finish_init_tcp_packet, append_tcp_max_segment_size,
  append_tcp_window_scale, append_tcp_option_end,
}
use homemade_os.Tcp.Handshake.{Endpoints, fill_tcp_syn_packet, make_tcp_syn_packet, receive_tcp_syn}

parse_loop-round :
    (fuel header_size offset offset' : ℕ) (h : Bytes) (o o' : Options)
    → option_round header_size offset h o ≡ next offset' o'
    → parse_loop (suc fuel) header_size offset h o ≡ parse_loop fuel header_size offset' h o'
unfolding parse_loop
parse_loop-round fuel header_size offset offset' h o o' e = rw (e, parse_loop) refl

parse_loop-stop :
    (fuel header_size offset : ℕ) (h : Bytes) (o : Options)
    → option_round header_size offset h o ≡ stop true o
    → parse_loop (suc fuel) header_size offset h o ≡ some (true, o)
unfolding parse_loop
parse_loop-stop fuel header_size offset h o e = rw (e, parse_loop) refl

module _ (buffer : Bytes) (ack : Bool) (e : Endpoints) (tw : TransmitWindow)
    (rv : ReceiveWindow) where
  made : Bytes
  made = (make_tcp_syn_packet buffer ack e tw rv).0

  made-size : (make_tcp_syn_packet buffer ack e tw rv).1 ≡ 32
  unfolding make_tcp_syn_packet fill_tcp_syn_packet init_tcp_packet append_tcp_window_scale
      append_tcp_max_segment_size append_tcp_option_end init_tcp_data finish_init_tcp_packet
  made-size = refl

  made-header_size : get_tcp_header_size made ≡ 32
  unfolding made make_tcp_syn_packet fill_tcp_syn_packet init_tcp_packet append_tcp_window_scale
      append_tcp_max_segment_size append_tcp_option_end init_tcp_data finish_init_tcp_packet
      get_tcp_header_size load_bits store_bits store16 store32
  made-header_size = omega arith

  made-flags : (is_syn made ≡ 1) × (is_ack made ≡ (if ack then 1 else 0))
  unfolding made make_tcp_syn_packet fill_tcp_syn_packet init_tcp_packet append_tcp_window_scale
      append_tcp_max_segment_size append_tcp_option_end init_tcp_data finish_init_tcp_packet
      load_bits store_bits store16 store32
  made-flags = (ground arith, ground arith)

  made-numbers :
      tw.current_sequence < 2 ^ 32
      → (get_receive_ack rv).ack_number < 2 ^ 32
      → (get_receive_ack rv).window_remain_size < 2 ^ 16
      → (get_sequence_number made ≡ tw.current_sequence)
        × (get_acknowledge_number made ≡ (get_receive_ack rv).ack_number)
        × (get_window_size made ≡ (get_receive_ack rv).window_remain_size)
  unfolding made make_tcp_syn_packet fill_tcp_syn_packet init_tcp_packet append_tcp_window_scale
      append_tcp_max_segment_size append_tcp_option_end init_tcp_data finish_init_tcp_packet
      get_sequence_number get_acknowledge_number get_window_size load16 load32 store_bits store16
      store32 change_endian16 change_endian32
  made-numbers s a w = (omega arith, omega arith, omega arith)

  made-checksum : calculate_ip_data_checksum2 made 32 e.local_address e.remote_address 6 ≡ 0
  unfolding made make_tcp_syn_packet finish_init_tcp_packet fill_tcp_syn_packet init_tcp_packet
      append_tcp_window_scale append_tcp_max_segment_size append_tcp_option_end init_tcp_data load16
      store16
  made-checksum =
      checksum2-store16 (store16 (fill_tcp_syn_packet buffer ack e tw rv).0 16 0) 32 e.local_address
        e.remote_address 6 8 (omega arith) (omega arith) (omega arith) refl

  segment_size : ℕ
  segment_size = change_endian16 (load16 (behind 24 made) 2)

  made-segment_size :
      596 ≤ e.raw_buffer_size → e.raw_buffer_size < 2 ^ 16 → segment_size ≡ e.raw_buffer_size - 20
  unfolding segment_size made make_tcp_syn_packet finish_init_tcp_packet fill_tcp_syn_packet
      init_tcp_packet append_tcp_window_scale append_tcp_max_segment_size append_tcp_option_end
      init_tcp_data load16 store_bits store16 store32 change_endian16
  made-segment_size low high = omega arith

  -- The rounds of the loop: the window scale, the NOP behind it, the segment size, and the end.
  round_scale : (o : Options) → option_round 32 20 made o ≡ next 23 (record o { window_scale = 0 })
  unfolding made make_tcp_syn_packet finish_init_tcp_packet fill_tcp_syn_packet init_tcp_packet
      append_tcp_window_scale append_tcp_max_segment_size append_tcp_option_end init_tcp_data
      store_bits store16 store32 option_round
  round_scale o = refl

  round_nop : (o : Options) → option_round 32 23 made o ≡ next 24 o
  unfolding made make_tcp_syn_packet finish_init_tcp_packet fill_tcp_syn_packet init_tcp_packet
      append_tcp_window_scale append_tcp_max_segment_size append_tcp_option_end init_tcp_data
      store_bits store16 store32 option_round
  round_nop o = refl

  round_segment :
      (o : Options)
      → ltb segment_size 576 ≡ false
      → option_round 32 24 made o ≡ next 28 (record o { max_segment_size = segment_size })
  unfolding segment_size made make_tcp_syn_packet finish_init_tcp_packet fill_tcp_syn_packet
      init_tcp_packet append_tcp_window_scale append_tcp_max_segment_size append_tcp_option_end
      init_tcp_data store_bits store16 store32 option_round load16
  round_segment o large = rw large refl

  round_end : (o : Options) → option_round 32 28 made o ≡ stop true o
  unfolding made make_tcp_syn_packet finish_init_tcp_packet fill_tcp_syn_packet init_tcp_packet
      append_tcp_window_scale append_tcp_max_segment_size append_tcp_option_end init_tcp_data
      store_bits store16 store32 option_round
  round_end o = refl

  made-options :
      (o : Options)
      → 596 ≤ e.raw_buffer_size
      → e.raw_buffer_size < 2 ^ 16
      → parse_tcp_options made o
        ≡ some (true, record o { window_scale = 0; max_segment_size = e.raw_buffer_size - 20 })
  unfolding parse_tcp_options
  made-options o low high =
      let size = made-segment_size low high in
      let large : ltb segment_size 576 ≡ false = ge→ltb segment_size 576 (omega (arith, size)) in
      let o1 : Options = record o { window_scale = 0 } in
      let o2 : Options = record o1 { max_segment_size = segment_size } in
      rw made-header_size (
        parse_loop-round 60 32 20 23 made o o1 (round_scale o)
        ∙ parse_loop-round 59 32 23 24 made o1 o1 (round_nop o1)
        ∙ parse_loop-round 58 32 24 28 made o1 o2 (round_segment o1 large)
        ∙ parse_loop-stop 57 32 28 made o2 (round_end o2)
        ∙ ap (λ n. some (true, record o1 { max_segment_size = n })) size)

  made-receive :
      (w : TransmitWindow)
      → 596 ≤ e.raw_buffer_size
      → e.raw_buffer_size < 2 ^ 16
      → receive_tcp_syn made w
        ≡ some (true, record w { window_scale = 0; max_segment_size = e.raw_buffer_size - 20 })
  unfolding receive_tcp_syn
  made-receive w low high =
      let options =
        made-options (record { max_segment_size = 0; window_scale = 0; sack_permitted = 0 }) low
          high in
      rw (made-flags.0, options) refl

  -- The packet of the handshake, in any buffer whose size leaves room for a segment of 576 to 65515
  -- bytes, has 32 bytes, all of them the header, SYN, ACK where that is asked for, the numbers of the two
  -- windows, which fit their fields, and the checksum zero; from it the receiver takes a window scale of 0 and that segment
  -- size.
  pub make_tcp_syn_packet_lem :
      (w : TransmitWindow)
      → 596 ≤ e.raw_buffer_size
      → e.raw_buffer_size < 2 ^ 16
      → tw.current_sequence < 2 ^ 32
      → (get_receive_ack rv).ack_number < 2 ^ 32
      → (get_receive_ack rv).window_remain_size < 2 ^ 16
      → let (packet, size) = make_tcp_syn_packet buffer ack e tw rv in
        (size ≡ 32)
        × (get_tcp_header_size packet ≡ 32)
        × (is_syn packet ≡ 1)
        × (is_ack packet ≡ (if ack then 1 else 0))
        × (get_sequence_number packet ≡ tw.current_sequence)
        × (get_acknowledge_number packet ≡ (get_receive_ack rv).ack_number)
        × (get_window_size packet ≡ (get_receive_ack rv).window_remain_size)
        × (calculate_ip_data_checksum2 packet 32 e.local_address e.remote_address 6 ≡ 0)
        × (receive_tcp_syn packet w
            ≡ some (true, record w { window_scale = 0; max_segment_size = e.raw_buffer_size - 20 }))
  unfolding made
  make_tcp_syn_packet_lem w low high s a v =
      let (syn, acks) = made-flags in
      let (seq, ackn, window) = made-numbers s a v in
      (
        made-size,
        made-header_size,
        syn,
        acks,
        seq,
        ackn,
        window,
        made-checksum,
        made-receive w low high,
      )
