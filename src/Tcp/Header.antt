-- ===== src/Tcp/Header.antt =====
-- The TCP header of src/kernel/io/network/tcp.c: its fields, and what fills it in. A header is the
-- memory from its pointer on; `flags` is the value of the 16 bits at offset 12.
use homemade_os.Base.{ℕ, ◌+◌, ◌*◌, ◌/◌}
use homemade_os.Text.{change_endian16, change_endian32}
use homemade_os.Network.Bytes.{Bytes, put, load16, load32, store16, store32, load_bits, store_bits}
use homemade_os.Network.Checksum.{calculate_ip_data_checksum2}

unfoldable pub get_tcp_header_size : Bytes → ℕ
unfolding load_bits
get_tcp_header_size h = 4 * load_bits h 12 4 4

abbrev pub is_fin : Bytes → ℕ
is_fin h = load_bits h 13 0 1

abbrev pub is_syn : Bytes → ℕ
is_syn h = load_bits h 13 1 1

abbrev pub is_rst : Bytes → ℕ
is_rst h = load_bits h 13 2 1

abbrev pub is_ack : Bytes → ℕ
is_ack h = load_bits h 13 4 1

unfoldable pub get_acknowledge_number : Bytes → ℕ
get_acknowledge_number h = change_endian32 (load32 h 8)

unfoldable pub get_sequence_number : Bytes → ℕ
get_sequence_number h = change_endian32 (load32 h 4)

unfoldable pub get_window_size : Bytes → ℕ
get_window_size h = change_endian16 (load16 h 14)

-- The header, and the offset behind it.
unfoldable pub init_tcp_packet :
    Bytes → (seq_number ack_number window_size flags local_port remote_port : ℕ) → Bytes × ℕ
init_tcp_packet h0 seq_number ack_number window_size flags local_port remote_port =
    let h1 = store16 h0 0 (change_endian16 local_port) in
    let h2 = store16 h1 2 (change_endian16 remote_port) in
    let h3 = store32 h2 4 (change_endian32 seq_number) in
    let h4 = store32 h3 8 (change_endian32 ack_number) in
    let h5 = store16 h4 12 flags in
    let h6 = store_bits h5 12 1 3 0 in
    let h7 = store16 h6 14 (change_endian16 window_size) in
    let h8 = store16 h7 16 0 in let h9 = store16 h8 18 0 in (h9, 20)

unfoldable pub init_tcp_data : Bytes × ℕ → Bytes × ℕ
init_tcp_data (h, offset) = (store_bits h 12 4 4 (offset / 4), offset)

unfoldable pub finish_init_tcp_packet : (local_addr remote_addr : ℕ) → Bytes × ℕ → Bytes × ℕ
finish_init_tcp_packet local_addr remote_addr (h, offset) =
    let h' = store16 h 16 0 in
    (store16 h' 16 (calculate_ip_data_checksum2 h' offset local_addr remote_addr 6), offset)

unfoldable pub append_tcp_max_segment_size : (ssize : ℕ) → Bytes × ℕ → Bytes × ℕ
append_tcp_max_segment_size ssize (h, offset) =
    (store16 (put (put h offset 2) (offset + 1) 4) (offset + 2) (change_endian16 ssize), offset + 4)

unfoldable pub append_tcp_window_scale : (scale : ℕ) → Bytes × ℕ → Bytes × ℕ
append_tcp_window_scale scale (h, offset) =
    (put (put (put (put h offset 3) (offset + 1) 3) (offset + 2) scale) (offset + 3) 1, offset + 4)

unfoldable pub append_tcp_option_end : Bytes × ℕ → Bytes × ℕ
append_tcp_option_end (h, offset) =
    (put (put (put (put h offset 0) (offset + 1) 0) (offset + 2) 0) (offset + 3) 0, offset + 4)
