-- ===== src/Net/Packet/Tests.antt =====
-- A packet of shared/net/udp.c with a payload of three bytes.
use ionutnechita_redacted_os.Base.{ℕ, ◌≡◌, refl, some, List, [], ◌∷◌, arith, drop, replicate}
use ionutnechita_redacted_os.Net.Packet.{
  create_eth_packet, create_udp_packet, udp_parse_packet, udp_parse_packet_payload,
  eth_parse_packet_type, ipv4_get_protocol, ipv4_get_source, ipv4_header, le16,
}
use ionutnechita_redacted_os.Net.Packet.Parse.{udp_parse_packet_payload-create_udp_packet}

udp_parse_packet_payload-create_udp_packet_example :
    (packet : List ℕ) × (create_udp_packet
        (0 ∷ 0 ∷ [])
        (0 ∷ 0 ∷ [])
        (record { port = 68; ip = 0x0a000001; mac = 1 ∷ 2 ∷ 3 ∷ 4 ∷ 5 ∷ 6 ∷ [] })
        (record { port = 1067; ip = 0x0a000002; mac = 7 ∷ 8 ∷ 9 ∷ 10 ∷ 11 ∷ 12 ∷ [] })
        (0xaa ∷ 0xbb ∷ 0xcc ∷ [])
      ≡ some packet)
    × (udp_parse_packet_payload packet ≡ some (42, 3))
    × (drop 42 packet ≡ 0xaa ∷ 0xbb ∷ 0xcc ∷ [])
    × (udp_parse_packet (drop 34 packet) ≡ some 1067)
udp_parse_packet_payload-create_udp_packet_example =
    udp_parse_packet_payload-create_udp_packet (0 ∷ 0 ∷ []) (0 ∷ 0 ∷ []) (0xaa ∷ 0xbb ∷ 0xcc ∷ [])
      68 0x0a000001 1 2 3 4 5 6 1067 0x0a000002 7 8 9 10 11 12 (omega arith) (omega arith)

abbrev header : List ℕ
header = ipv4_header 11 0x11 0x0a000001 0x0a000002 (le16 0)

headers_test :
    (ipv4_get_protocol header ≡ some 0x11)
    × (ipv4_get_source header ≡ some 0x0a000001)
    × (eth_parse_packet_type (create_eth_packet (replicate 6 1) (replicate 6 2) 0x806) ≡ some 0x806)
unfolding ipv4_get_protocol ipv4_get_source eth_parse_packet_type create_eth_packet
headers_test = (refl, refl, refl)
