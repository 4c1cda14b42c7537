-- ===== src/Network/Udp.antt =====
-- src/kernel/io/network/udp.c: packets made and accepted. A UDP header is the memory from its pointer
-- on; in `UDPIPHeader` it stands 20 bytes behind the IP header, and the payload 28 bytes.
pub mod Accepted
use homemade_os.Base.{
  ℕ, ◌+◌, ◌-◌, ◌*◌, ◌%◌, ◌^◌, min, Bool, true, false, not, ◌&&◌, ◌||◌, Option, none, some, ltb, leb,
  ◌==◌, if◌then◌else◌,
}
use homemade_os.Text.{change_endian16}
use homemade_os.Network.Bytes.{Bytes, load8, load16, store16, behind}
use homemade_os.Network.Ip.{
  max_ip_packet_size, get_ip_data, protocol, calculate_ip_data_checksum, init_ipv4_header,
}
use homemade_os.Network.Checksum.{get_ip_header_size}

abbrev pub max_udp_payload_size : ℕ
max_udp_payload_size = max_ip_packet_size - 8 - 20

unfoldable pub get_udp_packet_size : Bytes → ℕ
get_udp_packet_size h = change_endian16 (load16 h 4)

-- The difference of `uintptr_t`, 32 bits wide.
unfoldable pub get_udp_data_size : Bytes → ℕ
unfolding get_udp_packet_size
get_udp_data_size h = (get_udp_packet_size h + 2 ^ 32 - 8) % 2 ^ 32

-- `memcpy` of `n` bytes to `i` bytes behind the pointer.
abbrev pub copy : Bytes → (i n : ℕ) → Bytes → Bytes
copy m i n payload = λ j. if leb i j && ltb j (i + n) then payload (j - i) else m j

-- `initUDPIPPacket` up to the copy of the data.
unfoldable pub init_udp_fields :
    Bytes
    → (payload : Bytes) → (data_size local_addr local_port remote_addr remote_port : ℕ) → Bytes
init_udp_fields h0 payload data_size local_addr local_port remote_addr remote_port =
    let h1 = init_ipv4_header h0 ((data_size + 8) % 2 ^ 16) local_addr remote_addr 17 in
    let h2 = store16 h1 20 (change_endian16 local_port) in
    let h3 = store16 h2 22 (change_endian16 remote_port) in
    let h4 = store16 h3 24 (change_endian16 ((data_size + 8) % 2 ^ 16)) in
    let h5 = store16 h4 26 0 in copy h5 28 data_size payload

unfoldable pub init_udp_ip_packet :
    Bytes
    → (payload : Bytes) → (data_size local_addr local_port remote_addr remote_port : ℕ) → Bytes
unfolding init_udp_fields
init_udp_ip_packet h payload data_size local_addr local_port remote_addr remote_port =
    let h' = init_udp_fields h payload data_size local_addr local_port remote_addr remote_port in
    let c = calculate_ip_data_checksum h' in store16 h' 26 (if c == 0 then 65535 else c)

-- `memory` is what `allocateKernelMemory` gives.
abbrev pub create_udp_ip_packet :
    (memory : Option Bytes)
    → (payload : Bytes) → (data_size local_addr local_port remote_addr remote_port : ℕ)
    → Option Bytes
create_udp_ip_packet memory payload data_size local_addr local_port remote_addr remote_port =
    if ltb max_udp_payload_size data_size then none else elim memory [
      | none ↦ none
      | some h ↦
          some
            (init_udp_ip_packet h payload data_size local_addr local_port remote_addr remote_port)
    ]

-- Whether the header, `getIPData(packet)`, is valid. The difference of `uintptr_t` cannot wrap behind
-- the test before it.
unfoldable pub validate_udp_header : (packet : Bytes) → (packet_size : ℕ) → Bool
validate_udp_header packet packet_size =
    let h = get_ip_data packet in
    if not (protocol packet == 17)
    then false
    else if ltb packet_size (get_ip_header_size packet + 8)
    then false
    else if not (get_udp_packet_size h == packet_size - get_ip_header_size packet)
    then false
    else if not (load16 h 6 == 0) && not (calculate_ip_data_checksum packet == 0)
    then false
    else true

-- `local_port` and `remote_port` are the socket's arguments; the port 0 is any.
unfoldable pub filter_udp_packet :
    (local_port remote_port : ℕ) → (packet : Bytes) → (packet_size : ℕ) → Bool
unfolding validate_udp_header
filter_udp_packet local_port remote_port packet packet_size =
    let h = get_ip_data packet in
    if not (validate_udp_header packet packet_size)
    then false
    else if not (local_port == change_endian16 (load16 h 2))
        || (not (remote_port == 0) && not (remote_port == change_endian16 (load16 h 0)))
    then false
    else true

-- The size that is returned, and the buffer.
unfoldable pub copy_udp_packet_data :
    (buffer : Bytes) → (buffer_size : ℕ) → (packet : Bytes) → ℕ × Bytes
copy_udp_packet_data buffer buffer_size packet =
    let h = get_ip_data packet in
    let return_size = min (get_udp_data_size h) buffer_size in
    (return_size, copy buffer 0 return_size (behind 8 h))
