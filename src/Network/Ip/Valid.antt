-- ===== src/Network/Ip/Valid.antt =====
-- A header that is made here is one that is accepted here.
use homemade_os.Base.{
  ℕ, ◌+◌, ◌-◌, ◌/◌, ◌^◌, ◌≤◌, ◌<◌, ◌≡◌, refl, ap, ◌∙◌, arith, true, false, ltb, ◌==◌, ge→ltb,
}
use homemade_os.Text.{change_endian16}
use homemade_os.Network.Bytes.{Bytes, load16, load32, store16, store32, load_bits, store_bits}
use homemade_os.Network.Checksum.{
  add_words, fold_carries, complement, get_ip_header_size, calculate_ip_header_checksum,
}
use homemade_os.Network.Checksum.Complement.{
  change_endian16-lt, complement_again, words, words-le, add_words-words, words-store16,
}
use homemade_os.Network.Ip.{
  version, protocol, source, destination, get_ip_packet_size, get_ip_data_size, init_ip_fields,
  init_ipv4_header, validate_ipv4_packet,
}

-- What the checksum does not touch.
get_ip_header_size-store16 :
    (h : Bytes) (c : ℕ) → get_ip_header_size (store16 h 10 c) ≡ get_ip_header_size h
unfolding get_ip_header_size load_bits store16
get_ip_header_size-store16 h c = refl

-- Storing the checksum of a header of 20 bytes makes it zero.
header_checksum-store16 :
    (h : Bytes)
    → get_ip_header_size h ≡ 20
    → load16 h 10 ≡ 0
    → calculate_ip_header_checksum (store16 h 10 (calculate_ip_header_checksum h)) ≡ 0
unfolding calculate_ip_header_checksum change_endian16
header_checksum-store16 h size z =
    let c : ℕ = calculate_ip_header_checksum h in
    let cs : ℕ = words 10 0 h in
    let few = words-le 10 0 h in
    let ten : get_ip_header_size h / 2 ≡ 10 = omega (arith, size) in
    let plain : 0 + cs ≡ cs = omega arith in
    let c_is : c ≡ complement cs =
      ap complement
        (ap (λ n. add_words n 0 h 0) ten ∙ add_words-words 10 0 h 0 (omega arith) ∙ plain) in
    let small : c < 2 ^ 16 = omega (arith, c_is, change_endian16-lt (65535 - fold_carries 2 cs)) in
    let h' : Bytes = store16 h 10 c in
    let many = words-le 10 0 h' in
    let ten' : get_ip_header_size h' / 2 ≡ 10 =
      omega (arith, size, get_ip_header_size-store16 h c) in
    let stored = words-store16 10 0 5 c h (omega arith) (omega arith) small in
    let all : 0 + words 10 0 h' ≡ cs + change_endian16 c = omega (arith, stored, z) in
    ap complement (
      ap (λ n. add_words n 0 h' 0) ten'
      ∙ add_words-words 10 0 h' 0 (omega arith)
      ∙ all
      ∙ ap (λ n. cs + change_endian16 n) c_is)
    ∙ complement_again cs (omega arith)

init_fields-header_size :
    (h : Bytes) (n local remote p : ℕ) → get_ip_header_size (init_ip_fields h n local remote p) ≡ 20
unfolding get_ip_header_size load_bits store_bits init_ip_fields store16 store32
init_fields-header_size h n local remote p = omega arith

init_fields-checksum :
    (h : Bytes) (n local remote p : ℕ) → load16 (init_ip_fields h n local remote p) 10 ≡ 0
unfolding init_ip_fields load16 store16 store32
init_fields-checksum h n local remote p = refl

-- What a header says.
pub record IsHeader (h : Bytes) (n local remote p : ℕ) : Type 0 where
  pub is_version : version h ≡ 4
  pub header_size : get_ip_header_size h ≡ 20
  pub packet_size : get_ip_packet_size h ≡ 20 + n
  pub data_size : get_ip_data_size h ≡ n
  pub is_protocol : protocol h ≡ p
  pub is_source : source h ≡ local
  pub is_destination : destination h ≡ remote
  pub checksum : calculate_ip_header_checksum h ≡ 0

module _ (h : Bytes) (n local remote p : ℕ) (size : 20 + n < 2 ^ 16) (l : local < 2 ^ 32)
    (r : remote < 2 ^ 32) (q : p < 2 ^ 8) where
  made : Bytes
  made = init_ipv4_header h n local remote p

  made-version : version made ≡ 4
  unfolding made init_ipv4_header init_ip_fields load_bits store_bits store16 store32
  made-version = omega arith

  made-header_size : get_ip_header_size made ≡ 20
  unfolding made init_ipv4_header
  made-header_size =
      let fields = init_ip_fields h n local remote p in
      get_ip_header_size-store16 fields (calculate_ip_header_checksum fields)
      ∙ init_fields-header_size h n local remote p

  made-packet_size : get_ip_packet_size made ≡ 20 + n
  unfolding made init_ipv4_header init_ip_fields load16 store_bits store16 store32
      get_ip_packet_size change_endian16
  made-packet_size = omega arith

  made-data_size : get_ip_data_size made ≡ n
  unfolding get_ip_data_size
  made-data_size = omega (arith, made-header_size, made-packet_size)

  made-source : source made ≡ local
  unfolding made init_ipv4_header init_ip_fields load32 store_bits store16 store32
  made-source = omega arith

  made-destination : destination made ≡ remote
  unfolding made init_ipv4_header init_ip_fields load32 store_bits store16 store32
  made-destination = omega arith

  made-protocol : protocol made ≡ p
  unfolding made init_ipv4_header init_ip_fields store_bits store16 store32
  made-protocol = omega arith

  made-checksum : calculate_ip_header_checksum made ≡ 0
  unfolding made init_ipv4_header
  made-checksum =
      header_checksum-store16 (init_ip_fields h n local remote p)
        (init_fields-header_size h n local remote p) (init_fields-checksum h n local remote p)

  init_ipv4_header-IsHeader : IsHeader (init_ipv4_header h n local remote p) n local remote p
  unfolding made
  init_ipv4_header-IsHeader = record {
    is_version = made-version;
    header_size = made-header_size;
    packet_size = made-packet_size;
    data_size = made-data_size;
    is_protocol = made-protocol;
    is_source = made-source;
    is_destination = made-destination;
    checksum = made-checksum;
  }

  -- A header that `initIPV4Header` makes, whatever the memory held, has the version, the sizes, the
  -- protocol and the addresses it is made for, and the checksum zero; `validateIPV4Packet` accepts it
  -- with every read that has all of the packet.
  pub validate-init_ipv4_header :
      (read_size : ℕ)
      → 20 + n ≤ read_size
      → IsHeader (init_ipv4_header h n local remote p) n local remote p
        × (validate_ipv4_packet (init_ipv4_header h n local remote p) read_size ≡ true)
  unfolding validate_ipv4_packet
  validate-init_ipv4_header read_size whole =
      let is = init_ipv4_header-IsHeader in
      let v : (version (init_ipv4_header h n local remote p) == 4) ≡ true =
        ground (arith, is.is_version) in
      let short : ltb read_size 20 ≡ false = ge→ltb read_size 20 (omega arith) in
      let fits : ltb read_size (get_ip_packet_size (init_ipv4_header h n local remote p)) ≡ false =
        ge→ltb read_size (get_ip_packet_size (init_ipv4_header h n local remote p))
          (omega (arith, is.packet_size)) in
      let large : ltb (get_ip_header_size (init_ipv4_header h n local remote p)) 20 ≡ false =
        ge→ltb (get_ip_header_size (init_ipv4_header h n local remote p)) 20
          (omega (arith, is.header_size)) in
      let inside : ltb read_size (get_ip_header_size (init_ipv4_header h n local remote p))
          ≡ false =
        ge→ltb read_size (get_ip_header_size (init_ipv4_header h n local remote p))
          (omega (arith, is.header_size)) in
      let sum : (calculate_ip_header_checksum (init_ipv4_header h n local remote p) == 0) ≡ true =
        ground (arith, is.checksum) in
      (is, rw (v, short, fits, large, inside, sum) refl)
