-- ===== src/Network/Udp/Accepted.antt =====
-- A UDP packet that is made here is one that is accepted here, with its data.
use homemade_os.Base.{
  ℕ, ◌+◌, ◌-◌, ◌/◌, ◌%◌, ◌^◌, ◌≤◌, ◌<◌, ◌≡◌, ◌⊎◌, refl, sym, ap, ◌∙◌, inl, inr, arith, true, false,
  not, ◌&&◌, ltb, leb, ◌==◌, ge→ltb, if◌then◌else◌, Bool-cases, min,
}
use homemade_os.Text.{change_endian16}
use homemade_os.Network.Bytes.{Bytes, load16, load32, store16, load_bits, behind, behind-store16}
use homemade_os.Network.Checksum.{
  add_words, complement, get_ip_header_size, calculate_ip_header_checksum,
  calculate_ip_data_checksum2,
}
use homemade_os.Network.Checksum.Data.{checksum2-store16, checksum2-ones}
use homemade_os.Network.Ip.{
  protocol, source, destination, get_ip_packet_size, get_ip_data_size, calculate_ip_data_checksum,
  version, init_ipv4_header, validate_ipv4_packet,
}
use homemade_os.Network.Ip.Valid.{IsHeader, validate-init_ipv4_header}
use homemade_os.Network.Udp.{
  get_udp_packet_size, get_udp_data_size, init_udp_fields, init_udp_ip_packet, validate_udp_header,
  filter_udp_packet, copy_udp_packet_data,
}

-- The headers agree in what the checksum of the data reads.
record Agrees (m : Bytes) (size local remote : ℕ) : Type 0 where
  pub header_size : get_ip_header_size m ≡ 20
  pub data_size : get_ip_data_size m ≡ size
  pub is_protocol : protocol m ≡ 17
  pub is_source : source m ≡ local
  pub is_destination : destination m ≡ remote

data_checksum-Agrees :
    (m : Bytes) (size local remote : ℕ)
    → Agrees m size local remote
    → calculate_ip_data_checksum m ≡ calculate_ip_data_checksum2 (behind 20 m) size local remote 17
unfolding calculate_ip_data_checksum
data_checksum-Agrees m size local remote a =
    rw (a.header_size, a.data_size, a.is_protocol, a.is_source, a.is_destination) refl

module _ (h payload : Bytes) (n local local_port remote remote_port : ℕ) (size : n ≤ 65507)
    (l : local < 2 ^ 32) (r : remote < 2 ^ 32) (lp : local_port < 2 ^ 16)
    (rp : remote_port < 2 ^ 16) where
  ip : Bytes
  ip = init_ipv4_header h ((n + 8) % 2 ^ 16) local remote 17

  ip-IsHeader : IsHeader ip (n + 8) local remote 17
  unfolding ip
  ip-IsHeader =
      let fits : (n + 8) % 2 ^ 16 ≡ n + 8 = omega arith in
      rw fits
        (validate-init_ipv4_header h (n + 8) local remote 17 (omega arith) l r (omega arith)
          (28 + n) (omega arith)).0

  fields : Bytes
  fields = init_udp_fields h payload n local local_port remote remote_port

  fields-Agrees : Agrees fields (n + 8) local remote
  unfolding fields init_udp_fields store16 get_ip_header_size load_bits get_ip_data_size
      get_ip_packet_size load16 load32 ip
  fields-Agrees =
      let is = ip-IsHeader in
      record {
        header_size = is.header_size;
        data_size = is.data_size;
        is_protocol = is.is_protocol;
        is_source = is.is_source;
        is_destination = is.is_destination;
      }

  stored : ℕ → Bytes
  stored v = store16 fields 26 v

  stored-Agrees : (v : ℕ) → Agrees (stored v) (n + 8) local remote
  unfolding stored store16 get_ip_header_size load_bits get_ip_data_size get_ip_packet_size load16
      load32
  stored-Agrees v =
      let is = fields-Agrees in
      record {
        header_size = is.header_size;
        data_size = is.data_size;
        is_protocol = is.is_protocol;
        is_source = is.is_source;
        is_destination = is.is_destination;
      }

  -- The data of the packet, with the checksum `v`.
  behind_stored :
      (v : ℕ)
      → calculate_ip_data_checksum (stored v)
        ≡ calculate_ip_data_checksum2 (store16 (behind 20 fields) 6 v) (n + 8) local remote 17
  unfolding stored
  behind_stored v =
      data_checksum-Agrees (stored v) (n + 8) local remote (stored-Agrees v)
      ∙ ap (λ m. calculate_ip_data_checksum2 m (n + 8) local remote 17)
          (behind-store16 fields 20 6 v)

  fields_zero : load16 (behind 20 fields) 6 ≡ 0
  unfolding fields init_udp_fields store16 load16
  fields_zero = refl

  made : Bytes
  made = init_udp_ip_packet h payload n local local_port remote remote_port

  made-checksum : calculate_ip_data_checksum made ≡ 0
  unfolding made init_udp_ip_packet fields stored
  made-checksum =
      let c_is = data_checksum-Agrees fields (n + 8) local remote fields-Agrees in
      let c : ℕ = calculate_ip_data_checksum fields in
      let data_sum : ℕ = calculate_ip_data_checksum2 (behind 20 fields) (n + 8) local remote 17 in
      let again =
        checksum2-store16 (behind 20 fields) (n + 8) local remote 17 3 (omega arith) (omega arith)
          (omega arith) fields_zero in
      elim (Bool-cases (c == 0)) [
        | inl e ↦
            let none_left : data_sum ≡ 0 = ground (arith, c_is) in
            rw e (
              behind_stored 65535
              ∙ checksum2-ones (behind 20 fields) (n + 8) local remote 17 3 (omega arith)
                  (omega arith) (omega arith) fields_zero none_left)
        | inr e ↦ rw e (
            behind_stored c
            ∙ ap
                (λ v.
                  calculate_ip_data_checksum2 (store16 (behind 20 fields) 6 v) (n + 8) local remote
                    17)
                c_is
            ∙ again)
      ]

  made-Agrees : Agrees made (n + 8) local remote
  unfolding made init_udp_ip_packet fields stored
  made-Agrees =
      let c : ℕ = calculate_ip_data_checksum fields in stored-Agrees (if c == 0 then 65535 else c)

  made-udp_size : get_udp_packet_size (behind 20 made) ≡ n + 8
  unfolding made init_udp_ip_packet init_udp_fields get_udp_packet_size store16 load16
      change_endian16
  made-udp_size = omega arith

  made-ports :
      (change_endian16 (load16 (behind 20 made) 2) ≡ remote_port)
      × (change_endian16 (load16 (behind 20 made) 0) ≡ local_port)
  unfolding made init_udp_ip_packet init_udp_fields store16 load16 change_endian16
  made-ports = (omega arith, omega arith)

  made-payload : (j : ℕ) → j < n → made (28 + j) ≡ payload j
  unfolding made init_udp_ip_packet init_udp_fields store16
  made-payload j k =
      let first : leb 28 (28 + j) ≡ true = ground arith in
      let last : ltb (28 + j) (28 + n) ≡ true = ground arith in
      let here : 28 + j - 28 ≡ j = omega arith in
      let not_low : (28 + j == 26) ≡ false = ground arith in
      let not_high : (28 + j == 27) ≡ false = ground arith in
      rw (not_low, not_high, first, last, here) refl

  made-validate : validate_udp_header made (28 + n) ≡ true
  unfolding validate_udp_header
  made-validate =
      let a = made-Agrees in
      let size : (n + 8 == 28 + n - 20) ≡ true = ground arith in
      let fits : ltb (28 + n) (20 + 8) ≡ false = ground arith in
      rw (a.is_protocol, a.header_size, fits, made-udp_size, size, made-checksum)
        (elim (Bool-cases (load16 (behind 20 made) 6 == 0)) [
          | inl e ↦ rw e refl
          | inr e ↦ rw e refl
        ])

  made-version : version made ≡ version ip
  unfolding made init_udp_ip_packet init_udp_fields ip load_bits store16
  made-version = refl

  made-packet_size : get_ip_packet_size made ≡ get_ip_packet_size ip
  unfolding made init_udp_ip_packet init_udp_fields ip get_ip_packet_size load16 store16
  made-packet_size = refl

  same_words : complement (add_words 10 0 made 0) ≡ complement (add_words 10 0 ip 0)
  unfolding made init_udp_ip_packet init_udp_fields ip add_words load16 store16
  same_words = refl

  made-ip_checksum : calculate_ip_header_checksum made ≡ 0
  unfolding calculate_ip_header_checksum
  made-ip_checksum =
      let a = made-Agrees in
      let is = ip-IsHeader in
      ap (λ s. complement (add_words (s / 2) 0 made 0)) a.header_size
      ∙ same_words
      ∙ ap (λ s. complement (add_words (s / 2) 0 ip 0)) (sym is.header_size)
      ∙ is.checksum

  made-validate_ip :
      (read_size : ℕ) → 28 + n ≤ read_size → validate_ipv4_packet made read_size ≡ true
  unfolding validate_ipv4_packet
  made-validate_ip read_size whole =
      let a = made-Agrees in
      let is = ip-IsHeader in
      let v : (version made == 4) ≡ true = ground (arith, made-version, is.is_version) in
      let short : ltb read_size 20 ≡ false = ge→ltb read_size 20 (omega arith) in
      let fits : ltb read_size (get_ip_packet_size made) ≡ false =
        ge→ltb read_size (get_ip_packet_size made)
          (omega (arith, made-packet_size, is.packet_size)) in
      rw (v, short, fits, a.header_size, short, made-ip_checksum) refl

  made-filter :
      (remote' : ℕ)
      → (remote' ≡ 0) ⊎ (remote' ≡ local_port)
      → filter_udp_packet remote_port remote' made (28 + n) ≡ true
  unfolding filter_udp_packet
  made-filter remote' any =
      let a = made-Agrees in
      let (to, from) = made-ports in
      let this : (remote_port == remote_port) ≡ true = ground arith in
      let accepted : (not (remote' == 0) && not (remote' == local_port)) ≡ false = ground arith in
      rw (made-validate, a.header_size, to, from, this, accepted) refl

  made-copy :
      (buffer : Bytes) (buffer_size j : ℕ)
      → let (size, copied) = copy_udp_packet_data buffer buffer_size made in
        (size ≡ min n buffer_size)
        × (copied j ≡ (if ltb j (min n buffer_size) then payload j else buffer j))
  unfolding copy_udp_packet_data get_udp_data_size
  made-copy buffer buffer_size j =
      let a = made-Agrees in
      let size : (n + 8 + 2 ^ 32 - 8) % 2 ^ 32 ≡ n = omega arith in
      let here : 20 + (8 + (j - 0)) ≡ 28 + j = omega arith in
      let low : leb 0 j ≡ true = ground arith in
      let whole : 0 + min n buffer_size ≡ min n buffer_size = omega arith in
      elim (Bool-cases (ltb j (min n buffer_size))) [
        | inl inside ↦
            rw (a.header_size, made-udp_size, size, whole, low, inside, here)
              (refl, made-payload j (ground (arith, inside)))
        | inr outside ↦ rw (a.header_size, made-udp_size, size, whole, low, outside) (refl, refl)
      ]

  -- A packet of at most 65507 bytes of data, or of none, that is made from any memory, for addresses of 32
  -- bits and ports of 16, is accepted by `validateIPV4Packet` from every read that has all of it, and by the
  -- filter of a socket on its destination port, open to every remote port or to the port it is sent from; the
  -- data that is copied out are its own, cut to the size of the buffer, and every other byte of the buffer stays.
  pub init_udp_ip_packet_lem :
      (read_size remote' : ℕ) (buffer : Bytes) (buffer_size j : ℕ)
      → 28 + n ≤ read_size
      → (remote' ≡ 0) ⊎ (remote' ≡ local_port)
      → let packet = init_udp_ip_packet h payload n local local_port remote remote_port in
        (validate_ipv4_packet packet read_size ≡ true)
        × (filter_udp_packet remote_port remote' packet (get_ip_packet_size packet) ≡ true)
        × ((copy_udp_packet_data buffer buffer_size packet).0 ≡ min n buffer_size)
        × ((copy_udp_packet_data buffer buffer_size packet).1 j
            ≡ (if ltb j (min n buffer_size) then payload j else buffer j))
  unfolding made
  init_udp_ip_packet_lem read_size remote' buffer buffer_size j whole any =
      let size : get_ip_packet_size made ≡ 28 + n =
        omega (arith, made-packet_size, ip-IsHeader.packet_size) in
      let (copied, same) = made-copy buffer buffer_size j in
      (
        made-validate_ip read_size whole,
        ap (filter_udp_packet remote_port remote' made) size ∙ made-filter remote' any,
        copied,
        same,
      )
