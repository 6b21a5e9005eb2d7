-- ===== src/Net/Packet.antt =====
-- shared/net/eth.c, ipv4.c and udp.c. A packet is the list of its bytes, on a little-endian
-- machine, and a created header is the bytes that are written at the pointer, of which the returned
-- pointer is the end. A checksum field holds `stale` when its checksum is computed: two bytes of
-- what lay in memory. A UDP payload is shorter than 2 ^ 16 - 8 bytes. The outcome `none` is a read behind the end of the packet.
pub mod Parse
mod Tests
use ionutnechita_redacted_os.Base.{
  ℕ, zero, suc, ◌+◌, ◌-◌, ◌*◌, ◌/◌, ◌%◌, ◌^◌, ◌≤◌, ◌<◌, ◌≡◌, ◌≢◌, ◌↔◌, refl, ap, Bool, true, false,
  Option, none, some, List, [], ◌∷◌, ◌++◌, arith, length, length-set, get_or, set,
  get_elem?-eq-get_or, ◌⊎◌, inl, inr, ◌==◌, ltb, leb, if◌then◌else◌, u64, u32, sub64, sub32,
  bswap16, bswap32, u8, u16, Bool-cases, store?, store?-eq-set, get_elem?, ◌>>=◌, ◌∙◌, sym, ap₂,
  min, max, ◌&&◌, ◌||◌, not, take, drop, replicate, length-append, length-replicate, append-nil,
  append_assoc, ◌>>>◌, bit_or, bit_and, bit_xor, ltb→lt, lt→ltb, le→ltb_false,
}
use ionutnechita_redacted_os.Net.Checksum.{checksum16, checksum16_pipv4}

-- `network_connection_ctx`; a MAC address has six bytes.
pub record NetworkConnectionCtx : Type 0 where
  pub port : ℕ
  pub ip : ℕ
  pub mac : List ℕ

abbrev pub le16 : ℕ → List ℕ
le16 n = u8 n ∷ u8 (n >>> 8) ∷ []

abbrev pub le32 : ℕ → List ℕ
le32 n = u8 n ∷ u8 (n >>> 8) ∷ u8 (n >>> 16) ∷ u8 (n >>> 24) ∷ []

-- The field of 16 bits at the offset.
abbrev pub field16 : List ℕ → ℕ → Option ℕ
field16 packet at =
    get_elem? packet at >>= λ a. get_elem? packet (at + 1) >>= λ b. some (a + b * 2 ^ 8)

abbrev pub field32 : List ℕ → ℕ → Option ℕ
field32 packet at =
    field16 packet at >>= λ a. field16 packet (at + 2) >>= λ b. some (a + b * 2 ^ 16)

-- The 16-bit words of a header.
abbrev pub words : List ℕ → List ℕ
words [] = []
words (a ∷ []) = a ∷ []
words (a ∷ b ∷ rest) = (a + b * 2 ^ 8) ∷ words rest

unfoldable pub create_eth_packet : List ℕ → List ℕ → ℕ → List ℕ
create_eth_packet src_mac dst_mac type =
    take 6 dst_mac ++ take 6 src_mac ++ le16 (bswap16 (u16 type))

unfoldable pub eth_parse_packet_type : List ℕ → Option ℕ
eth_parse_packet_type packet = field16 packet 12 >>= λ t. some (bswap16 t)

-- The header with the given bytes of its checksum field.
abbrev pub ipv4_header : ℕ → ℕ → ℕ → ℕ → List ℕ → List ℕ
ipv4_header payload_len protocol source_ip destination_ip checksum =
    0x45 ∷ 0 ∷ le16 (bswap16 (u16 (20 + payload_len)))
    ++ (le16 0
        ++ le16 (bswap16 0x4000)
        ++ (64 ∷ protocol ∷ checksum
            ++ (le32 (bswap32 source_ip) ++ le32 (bswap32 destination_ip))))

unfoldable pub create_ipv4_packet : List ℕ → ℕ → ℕ → ℕ → ℕ → Option (List ℕ)
create_ipv4_packet stale payload_len protocol source_ip destination_ip =
    checksum16 (words (ipv4_header payload_len protocol source_ip destination_ip stale)) >>= λ c.
    some (ipv4_header payload_len protocol source_ip destination_ip (le16 c))

unfoldable pub ipv4_get_protocol : List ℕ → Option ℕ
ipv4_get_protocol header = get_elem? header 9

unfoldable pub ipv4_get_source : List ℕ → Option ℕ
ipv4_get_source header = field32 header 12 >>= λ ip. some (bswap32 ip)

abbrev pub udp_datagram : ℕ → ℕ → List ℕ → List ℕ → List ℕ
udp_datagram src_port dst_port payload checksum =
    le16 (bswap16 src_port)
    ++ (le16 (bswap16 dst_port)
        ++ (le16 (bswap16 (u16 (8 + length payload))) ++ (checksum ++ payload)))

pub create_udp_packet :
    List ℕ → List ℕ → NetworkConnectionCtx → NetworkConnectionCtx → List ℕ → Option (List ℕ)
unfolding create_eth_packet create_ipv4_packet
create_udp_packet stale_ip stale_udp source destination payload =
    create_ipv4_packet stale_ip (8 + length payload) 0x11 source.ip destination.ip >>= λ ip.
    checksum16_pipv4 source.ip destination.ip 0x11
      (udp_datagram source.port destination.port payload stale_udp)
    >>= λ c. some (
        create_eth_packet source.mac destination.mac 0x800
        ++ (ip ++ udp_datagram source.port destination.port payload (le16 (bswap16 c))))

-- From the datagram on.
unfoldable pub udp_parse_packet : List ℕ → Option ℕ
udp_parse_packet datagram = field16 datagram 2 >>= λ p. some (bswap16 p)

-- The offset of the payload and its length; (0, 0) is the answer for other packets.
pub udp_parse_packet_payload : List ℕ → Option (ℕ × ℕ)
unfolding eth_parse_packet_type
udp_parse_packet_payload packet = eth_parse_packet_type packet >>= λ type.
    if type == 0x800
    then (get_elem? packet 23 >>= λ protocol.
        if protocol == 0x11
        then (field16 packet 38 >>= λ len. some (42, (bswap16 len + 2 ^ 16 - 8) % 2 ^ 16))
        else some (0, 0))
    else some (0, 0)
