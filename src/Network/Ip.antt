-- ===== src/Network/Ip.antt =====
-- The IP header of src/kernel/io/network/internet.c and network.h. A header is the memory from its
-- pointer on; an address is its `value`.
pub mod Valid
use homemade_os.Base.{
  ℕ, ◌+◌, ◌-◌, ◌*◌, ◌%◌, ◌^◌, Bool, true, false, not, ◌&&◌, ◌||◌, Option, none, some, ltb, ◌==◌,
  if◌then◌else◌, bit_and,
}
use homemade_os.Text.{change_endian16}
use homemade_os.Network.Bytes.{
  Bytes, put, load8, load16, load32, store16, store32, load_bits, store_bits, behind,
}
use homemade_os.Network.Checksum.{
  get_ip_header_size, calculate_ip_header_checksum, calculate_ip_data_checksum2,
}

abbrev pub max_ip_packet_size : ℕ
max_ip_packet_size = 65535

-- The fields.
abbrev pub version : Bytes → ℕ
version h = load_bits h 0 4 4

abbrev pub protocol : Bytes → ℕ
protocol h = load8 h 9

abbrev pub source : Bytes → ℕ
source h = load32 h 12

abbrev pub destination : Bytes → ℕ
destination h = load32 h 16

unfoldable pub get_ip_packet_size : Bytes → ℕ
get_ip_packet_size h = change_endian16 (load16 h 2)

-- The difference of `uintptr_t`, 32 bits wide.
unfoldable pub get_ip_data_size : Bytes → ℕ
unfolding get_ip_packet_size
get_ip_data_size h = (get_ip_packet_size h + 2 ^ 32 - get_ip_header_size h) % 2 ^ 32

abbrev pub get_ip_data : Bytes → Bytes
get_ip_data h = behind (get_ip_header_size h) h

unfoldable pub calculate_ip_data_checksum : Bytes → ℕ
calculate_ip_data_checksum h =
    calculate_ip_data_checksum2 (get_ip_data h) (get_ip_data_size h) (source h) (destination h)
      (protocol h)

-- `initIPV4Header` up to its last assignment.
unfoldable pub init_ip_fields : Bytes → (data_size local_addr remote_addr data_protocol : ℕ) → Bytes
init_ip_fields h0 data_size local_addr remote_addr data_protocol =
    let h1 = store_bits h0 0 4 4 4 in
    let h2 = store_bits h1 0 0 4 5 in
    let h3 = store_bits h2 1 2 6 0 in
    let h4 = store_bits h3 1 0 2 0 in
    let h5 = store16 h4 2 (change_endian16 ((20 + data_size) % 2 ^ 16)) in
    let h6 = store16 h5 4 (change_endian16 0) in
    let h7 = store_bits h6 6 0 5 0 in
    let h8 = store_bits h7 6 5 3 2 in
    let h9 = put h8 7 0 in
    let h10 = put h9 8 32 in
    let h11 = put h10 9 data_protocol in
    let h12 = store16 h11 10 0 in let h13 = store32 h12 12 local_addr in store32 h13 16 remote_addr

unfoldable pub init_ipv4_header :
    Bytes → (data_size local_addr remote_addr data_protocol : ℕ) → Bytes
unfolding init_ip_fields
init_ipv4_header h data_size local_addr remote_addr data_protocol =
    let h' = init_ip_fields h data_size local_addr remote_addr data_protocol in
    store16 h' 10 (calculate_ip_header_checksum h')

-- `memory` is what `allocateKernelMemory` gives.
abbrev pub create_ipv4_header :
    (memory : Option Bytes) (data_size local_addr remote_addr data_protocol : ℕ) → Option Bytes
create_ipv4_header memory data_size local_addr remote_addr data_protocol =
    if ltb (max_ip_packet_size - 20) data_size then none else elim memory [
      | none ↦ none
      | some h ↦ some (init_ipv4_header h data_size local_addr remote_addr data_protocol)
    ]

unfoldable pub validate_ipv4_packet : Bytes → (read_size : ℕ) → Bool
validate_ipv4_packet h read_size =
    if not (version h == 4) || ltb read_size 20
    then false
    else if ltb read_size (get_ip_packet_size h)
    then false
    else if ltb (get_ip_header_size h) 20 || ltb read_size (get_ip_header_size h)
    then false
    else if not (calculate_ip_header_checksum h == 0)
    then false
    else true
