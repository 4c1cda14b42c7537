-- ===== src/Network/Tests.antt =====
-- The theorems about packets applied to concrete headers and data.
use homemade_os.Base.{◌+◌, ◌*◌, ◌≡◌, refl, arith, inl, true, min}
use homemade_os.Network.Bytes.{Bytes, store16}
use homemade_os.Network.Ip.{validate_ipv4_packet, get_ip_packet_size}
use homemade_os.Network.Udp.{init_udp_ip_packet, filter_udp_packet, copy_udp_packet_data}
use homemade_os.Network.Udp.Accepted.{init_udp_ip_packet_lem}

-- Memory that is not clear, but for a word at offset 6.
abbrev memory : Bytes
memory = store16 (λ i. i + 1) 6 0

-- The data `0, 7, 14, ...`.
abbrev sevens : Bytes
sevens = λ i. i * 7

init_udp_ip_packet_lem_example :
    let packet = init_udp_ip_packet memory sevens 5 16777343 4000 33554559 53 in
    (validate_ipv4_packet packet 60 ≡ true)
    × (filter_udp_packet 53 0 packet (get_ip_packet_size packet) ≡ true)
    × ((copy_udp_packet_data memory 4 packet).0 ≡ min 5 4)
    × ((copy_udp_packet_data memory 4 packet).1 3 ≡ sevens 3)
init_udp_ip_packet_lem_example =
    init_udp_ip_packet_lem memory sevens 5 16777343 4000 33554559 53 (omega arith) (omega arith)
      (omega arith) (omega arith) (omega arith) 60 0 memory 4 3 (omega arith) (inl refl)
