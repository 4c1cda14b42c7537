-- ===== src/Tcp/Handshake/Tests.antt =====
-- The theorems about the options and the handshake applied to concrete packets.
use homemade_os.Base.{ℕ, ◌+◌, ◌<◌, ◌≡◌, arith, Bool, true, false, some, [], if◌then◌else◌, ◌==◌}
use homemade_os.Network.Bytes.{Bytes, load8, load_bits}
use homemade_os.Network.Checksum.{calculate_ip_data_checksum2}
use homemade_os.Tcp.Receive.{ReceiveWindow, get_receive_ack}
use homemade_os.Tcp.Transmit.{init_transmit_window}
use homemade_os.Tcp.Options.{Options, parse_loop, parse_tcp_options}
use homemade_os.Tcp.Options.Inside.{Agree, parse_tcp_options-Agree}
use homemade_os.Tcp.Options.Behind.{parse_loop-runs}
use homemade_os.Tcp.Header.{
  get_tcp_header_size, is_syn, is_ack, get_acknowledge_number, get_sequence_number, get_window_size,
}
use homemade_os.Tcp.Handshake.{Endpoints, make_tcp_syn_packet, receive_tcp_syn}
use homemade_os.Tcp.Handshake.Syn.{make_tcp_syn_packet_lem}

abbrev no_options : Options
no_options = record { max_segment_size = 0; window_scale = 0; sack_permitted = 0 }

-- A header of 24 bytes with NOP options only.
abbrev nops : Bytes
nops = λ i. if i == 12 then 96 else 1

-- The same header, in front of other memory.
abbrev nops_in_front : Bytes
nops_in_front = λ i. if i == 12 then 96 else if i == 24 then 2 else 1

same_header : Agree 24 nops nops_in_front
same_header i h = ground arith

parse_tcp_options-Agree_example :
    (r : Bool × Options) × (parse_tcp_options nops no_options ≡ some r)
    × (parse_tcp_options nops_in_front no_options ≡ some r)
unfolding get_tcp_header_size load_bits
parse_tcp_options-Agree_example =
    parse_tcp_options-Agree nops nops_in_front no_options (omega arith) same_header

-- The data offset 0, and the end of the options 1000 bytes behind.
abbrev no_header : Bytes
no_header = λ i. if i == 1020 then 0 else 1

only_nops : (i : ℕ) → i < 1000 → load8 no_header (20 + i) ≡ 1
only_nops i h = ground arith

parse_loop-runs_example : parse_loop 1001 0 20 no_header no_options ≡ some (true, no_options)
parse_loop-runs_example =
    parse_loop-runs 1000 0 no_header no_options (omega arith) (omega arith) only_nops (omega arith)

abbrev endpoints : Endpoints
endpoints = record {
  local_address = 16777343;
  remote_address = 33554559;
  local_port = 4000;
  remote_port = 80;
  raw_buffer_size = 1480;
}

abbrev receive_window : ReceiveWindow
receive_window = record {
  sequence_begin = 4294967290;
  sequence_length = 0;
  window_size = 65535;
  reach_finish = false;
  sequence_finish = 0;
  buffer = [];
  requests = [];
}

make_tcp_syn_packet_lem_example :
    let (packet, size) =
      make_tcp_syn_packet nops true endpoints (init_transmit_window 7) receive_window in
    (size ≡ 32)
    × (get_tcp_header_size packet ≡ 32)
    × (is_syn packet ≡ 1)
    × (is_ack packet ≡ 1)
    × (get_sequence_number packet ≡ 7)
    × (get_acknowledge_number packet ≡ 4294967290)
    × (get_window_size packet ≡ 65535)
    × (calculate_ip_data_checksum2 packet 32 16777343 33554559 6 ≡ 0)
    × (receive_tcp_syn packet (init_transmit_window 9)
        ≡ some
            (true, record (init_transmit_window 9) { window_scale = 0; max_segment_size = 1460 }))
unfolding init_transmit_window get_receive_ack
make_tcp_syn_packet_lem_example =
    make_tcp_syn_packet_lem nops true endpoints (init_transmit_window 7) receive_window
      (init_transmit_window 9) (omega arith) (omega arith) (omega arith) (omega arith) (omega arith)
