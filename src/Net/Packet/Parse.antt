-- ===== src/Net/Packet/Parse.antt =====
-- Reading the packets of shared/net/udp.c back.
use ionutnechita_redacted_os.Base.{
  ℕ, ◌+◌, ◌^◌, ◌<◌, ◌≡◌, refl, some, List, [], ◌∷◌, ◌++◌, arith, length, bswap16, u16, drop,
}
use ionutnechita_redacted_os.Net.Checksum.Verify.{checksum16-total, checksum16_pipv4-total}
use ionutnechita_redacted_os.Net.Packet.{
  create_udp_packet, udp_parse_packet, udp_parse_packet_payload, words, ipv4_header, udp_datagram,
  le16,
}

-- The packet with its two checksums.
abbrev packet_of :
    (c₁ c₂ : ℕ) (payload : List ℕ) (port ip a b c d e f port' ip' a' b' c' d' e' f' : ℕ) → List ℕ
packet_of c₁ c₂ payload port ip a b c d e f port' ip' a' b' c' d' e' f' =
    (a' ∷ b' ∷ c' ∷ d' ∷ e' ∷ f' ∷ a ∷ b ∷ c ∷ d ∷ e ∷ f ∷ le16 (bswap16 (u16 0x800)))
    ++ (ipv4_header (8 + length payload) 0x11 ip ip' (le16 c₁)
        ++ udp_datagram port port' payload (le16 (bswap16 c₂)))

-- Between two peers with MAC addresses of six bytes `create_udp_packet` makes a packet, at any
-- former contents of the checksum fields, from which `udp_parse_packet_payload` finds where the
-- payload lies and how long it is, and `udp_parse_packet` the destination's port.
pub udp_parse_packet_payload-create_udp_packet :
    (stale_ip stale_udp payload : List ℕ) (port ip a b c d e f port' ip' a' b' c' d' e' f' : ℕ)
    → length payload + 8 < 2 ^ 16
    → port' < 2 ^ 16
    → (packet : List ℕ) × (create_udp_packet stale_ip stale_udp
          (record { port = port; ip = ip; mac = a ∷ b ∷ c ∷ d ∷ e ∷ f ∷ [] })
          (record { port = port'; ip = ip'; mac = a' ∷ b' ∷ c' ∷ d' ∷ e' ∷ f' ∷ [] })
          payload
        ≡ some packet)
      × (udp_parse_packet_payload packet ≡ some (42, length payload))
      × (drop 42 packet ≡ payload)
      × (udp_parse_packet (drop 34 packet) ≡ some port')
unfolding create_udp_packet udp_parse_packet udp_parse_packet_payload
udp_parse_packet_payload-create_udp_packet stale_ip stale_udp payload port ip a b c d e f port' ip'
      a' b' c' d' e' f' small port_small =
    let (c₁, e₁) =
      checksum16-total (words (ipv4_header (8 + length payload) 0x11 ip ip' stale_ip)) in
    let (c₂, e₂) = checksum16_pipv4-total ip ip' 0x11 (udp_datagram port port' payload stale_udp) in
    (
      packet_of c₁ c₂ payload port ip a b c d e f port' ip' a' b' c' d' e' f',
      rw (e₁, e₂) refl,
      ground arith,
      refl,
      ground arith,
    )
