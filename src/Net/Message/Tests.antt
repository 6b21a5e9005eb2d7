-- ===== src/Net/Message/Tests.antt =====
-- Packets of shared/net/arp.c, icmp.c and dhcp.c between two peers.
use ionutnechita_redacted_os.Base.{
  ℕ, ◌≡◌, refl, true, false, some, List, [], ◌∷◌, arith, length, get_elem?, take, drop, replicate,
  ◌++◌,
}
use ionutnechita_redacted_os.Net.Checksum.{checksum16}
use ionutnechita_redacted_os.Net.Packet.{words, le16}
use ionutnechita_redacted_os.Net.Message.{
  create_arp_packet, arp_populate_response, arp_should_handle, create_icmp_packet,
  icmp_get_sequence, icmp_get_id, icmp_copy_payload, DhcpRequest, dhcp_options, dhcp_packet,
  option_loop, dhcp_parse_option, icmp_packet,
}
use ionutnechita_redacted_os.Net.Message.Answer.{
  arp_should_handle-create_arp_packet, icmp_get_sequence-create_icmp_packet,
}

abbrev ours : List ℕ
ours = 1 ∷ 2 ∷ 3 ∷ 4 ∷ 5 ∷ 6 ∷ []

abbrev theirs : List ℕ
theirs = 7 ∷ 8 ∷ 9 ∷ 10 ∷ 11 ∷ 12 ∷ []

arp_should_handle-create_arp_packet_example :
    (arp_should_handle (drop 14 (create_arp_packet ours 0x0a000001 theirs 0x0a000002 true)) 7
      ≡ some false)
    × (arp_populate_response (drop 14 (create_arp_packet ours 0x0a000001 theirs 0x0a000002 true))
        ≡ some (ours, 0x0100000a))
    × (arp_should_handle
          (drop 14 (create_arp_packet theirs 0x0a000002 ours 0x0100000a false))
          0x0a000001
        ≡ some false)
arp_should_handle-create_arp_packet_example =
    arp_should_handle-create_arp_packet 1 2 3 4 5 6 0x0a000001 7 8 9 10 11 12 0x0a000002 7 true
      (omega arith) (omega arith)

icmp_get_sequence-create_icmp_packet_example :
    (packet : List ℕ) × (create_icmp_packet
        (0 ∷ 0 ∷ [])
        9
        (0 ∷ 0 ∷ [])
        (replicate 64 1)
        (record { port = 0; ip = 0x0a000001; mac = ours })
        (record { port = 0; ip = 0x0a000002; mac = theirs })
        (record { response = false; seq = 3; id = 258; payload = replicate 56 0xaa })
      ≡ some packet)
    × (icmp_get_sequence (drop 34 packet) ≡ some 3)
    × (icmp_get_id (drop 34 packet) ≡ some 258)
    × (icmp_copy_payload (drop 34 packet) ≡ replicate 56 0xaa)
    × (get_elem? packet 34 ≡ some 0)
    × (c : ℕ) × (checksum16 (
          words (
            icmp_packet 9
              (0 ∷ 0 ∷ [])
              (record { response = false; seq = 3; id = 258; payload = replicate 56 0xaa })
            ++ take 64 (replicate 64 1)))
        ≡ some c)
    × (take 2 (drop 36 packet) ≡ le16 c)
icmp_get_sequence-create_icmp_packet_example =
    icmp_get_sequence-create_icmp_packet (0 ∷ 0 ∷ []) (0 ∷ 0 ∷ []) (replicate 64 1)
      (replicate 56 0xaa) 9 3 258 0 0x0a000001 1 2 3 4 5 6 0 0x0a000002 7 8 9 10 11 12 false
      (omega arith) (omega arith) refl

-- A request for an address with a byte 54, which is taken for the option 54.
abbrev request : DhcpRequest
request = record { mac = ours; server_ip = 0x01020304; offered_ip = 0x0a360102 }

options_test :
    (dhcp_parse_option (dhcp_options request) 53 ≡ some 4)
    × (dhcp_parse_option (dhcp_options request) 50 ≡ some 7)
    × (dhcp_parse_option (dhcp_options request) 54 ≡ some 11)
    × (length (dhcp_packet 5 request) ≡ 548)
unfolding dhcp_options dhcp_parse_option option_loop dhcp_packet
options_test = (refl, refl, refl, refl)
