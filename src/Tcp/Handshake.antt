-- ===== src/Tcp/Handshake.antt =====
-- The packets of the handshake in src/kernel/io/network/tcp.c, made and read, and the filters of the
-- sockets in front of them.
pub mod Syn
mod Tests
use homemade_os.Base.{
  ℕ, ◌+◌, ◌-◌, ◌*◌, ◌%◌, ◌^◌, Bool, true, false, not, ◌&&◌, ◌||◌, Option, none, some, ltb, ◌==◌,
  if◌then◌else◌, ◌>>=◌,
}
use homemade_os.Text.{change_endian16}
use homemade_os.Network.Bytes.{Bytes, load16}
use homemade_os.Network.Checksum.{get_ip_header_size}
use homemade_os.Network.Ip.{get_ip_data, protocol, source, destination, calculate_ip_data_checksum}
use homemade_os.Tcp.Receive.{ReceiveWindow, get_receive_ack}
use homemade_os.Tcp.Transmit.{TransmitWindow, ack_transmit_window}
use homemade_os.Tcp.Options.{Options, parse_tcp_options}
use homemade_os.Tcp.Header.{
  get_tcp_header_size, is_fin, is_syn, is_rst, is_ack, get_acknowledge_number, get_window_size,
  init_tcp_packet, init_tcp_data, finish_init_tcp_packet, append_tcp_max_segment_size,
  append_tcp_window_scale, append_tcp_option_end,
}

-- The parts of a socket that go into its packets.
pub record Endpoints : Type 0 where
  pub local_address : ℕ
  pub remote_address : ℕ
  pub local_port : ℕ
  pub remote_port : ℕ
  pub raw_buffer_size : ℕ

-- `TCPFlags` has `syn` at bit 9 and `ack` at bit 12.
abbrev pub syn_flags : (ack : Bool) → ℕ
syn_flags ack = 2 ^ 9 + (if ack then 2 ^ 12 else 0)

-- The packet of `transmitTCPSYNPacket` before `finishInitTCPPacket`. The segment size is cut to
-- `uint16_t`.
unfoldable pub fill_tcp_syn_packet :
    Bytes → (ack : Bool) → Endpoints → TransmitWindow → ReceiveWindow → Bytes × ℕ
unfolding init_tcp_packet init_tcp_data append_tcp_max_segment_size append_tcp_window_scale
    append_tcp_option_end
fill_tcp_syn_packet buffer ack e tw rv =
    let rwa = get_receive_ack rv in
    let p1 =
      init_tcp_packet buffer tw.current_sequence rwa.ack_number rwa.window_remain_size
        (syn_flags ack) e.local_port e.remote_port in
    let p2 = append_tcp_window_scale 0 p1 in
    let p3 = append_tcp_max_segment_size ((e.raw_buffer_size + 2 ^ 32 - 20) % 2 ^ 16) p2 in
    let p4 = append_tcp_option_end p3 in init_tcp_data p4

-- The packet, and its size.
unfoldable pub make_tcp_syn_packet :
    Bytes → (ack : Bool) → Endpoints → TransmitWindow → ReceiveWindow → Bytes × ℕ
unfolding fill_tcp_syn_packet finish_init_tcp_packet
make_tcp_syn_packet buffer ack e tw rv =
    finish_init_tcp_packet e.local_address e.remote_address (fill_tcp_syn_packet buffer ack e tw rv)

abbrev pub syn_result : TransmitWindow → Bool × Options → Bool × TransmitWindow
syn_result tw (ok, o) =
    if not ok
    then (false, tw)
    else (true, record tw { window_scale = o.window_scale; max_segment_size = o.max_segment_size })

-- `none`: the loop over the options is out of fuel.
unfoldable pub receive_tcp_syn : Bytes → TransmitWindow → Option (Bool × TransmitWindow)
unfolding parse_tcp_options
receive_tcp_syn h tw = if is_syn h == 0 then some (false, tw) else do
  r ← parse_tcp_options h (record { max_segment_size = 0; window_scale = 0; sack_permitted = 0 })
  some (syn_result tw r)

-- `none`: the loop of `ackTransmitWindow` is out of fuel.
unfoldable pub receive_tcp_ack : (fuel : ℕ) → Bytes → TransmitWindow → Option (ℕ × TransmitWindow)
unfolding ack_transmit_window
receive_tcp_ack fuel h tw = if is_ack h == 0 then some (0, tw) else do
  (ack_size, tw') ← ack_transmit_window fuel (get_acknowledge_number h) tw
  some (
    ack_size,
    record tw' { scaled_window_size = get_window_size h * 2 ^ tw'.window_scale % 2 ^ 32 },
  )

-- Whether the header, `getIPData(packet)`, is valid.
unfoldable pub validate_tcp_packet : (packet : Bytes) → (packet_size : ℕ) → Bool
validate_tcp_packet packet packet_size =
    let h = get_ip_data packet in
    if not (protocol packet == 6)
    then false
    else if ltb packet_size (get_ip_header_size packet + 20)
    then false
    else if ltb packet_size (get_ip_header_size packet + get_tcp_header_size h)
    then false
    else if not (calculate_ip_data_checksum packet == 0)
    then false
    else true

-- The arguments of a socket; the port and the address 0 are any.
pub record IpSocketArguments : Type 0 where
  pub local_address : ℕ
  pub local_port : ℕ
  pub remote_address : ℕ
  pub remote_port : ℕ

abbrev pub syn_ports_match : IpSocketArguments → Bytes → Bool
syn_ports_match a h = not (
    (not (a.remote_port == 0) && not (a.remote_port == change_endian16 (load16 h 0)))
    || (not (a.local_port == 0) && not (a.local_port == change_endian16 (load16 h 2))))

unfoldable pub filter_tcp_syn_packet :
    IpSocketArguments → (packet : Bytes) → (packet_size : ℕ) → Option Bool
unfolding validate_tcp_packet parse_tcp_options
filter_tcp_syn_packet a packet packet_size =
    let h = get_ip_data packet in
    if not (validate_tcp_packet packet packet_size)
    then some false
    else if (is_syn h == 0) || (is_ack h == 1) || (is_rst h == 1) || (is_fin h == 1)
    then some false
    else do
      (ok, o) ←
          parse_tcp_options h
            (record { max_segment_size = 0; window_scale = 0; sack_permitted = 0 })
      some (if not ok then false else if not (syn_ports_match a h) then false else true)

unfoldable pub filter_tcp_packet : IpSocketArguments → (packet : Bytes) → (packet_size : ℕ) → Bool
unfolding validate_tcp_packet
filter_tcp_packet a packet packet_size =
    let h = get_ip_data packet in
    if not (validate_tcp_packet packet packet_size)
    then false
    else if not (a.remote_port == change_endian16 (load16 h 0))
        || not (a.local_port == change_endian16 (load16 h 2))
        || not (a.remote_address == source packet)
        || (not (a.local_address == 0) && not (a.local_address == destination packet))
    then false
    else true
