-- ===== src/Net/Message.antt =====
-- shared/net/arp.c, icmp.c and dhcp.c, over the headers of Packet. An ARP header, an ICMP packet and
-- the options of a DHCP packet are lists of bytes from their start on. `code` and `stale` are what
-- lay in memory at the code and the checksum of an ICMP packet; `xid` is what the random number
-- generator gives.
pub mod Answer
mod Tests
use ionutnechita_redacted_os.Base.{
  ℕ, zero, suc, ◌+◌, ◌-◌, ◌*◌, ◌/◌, ◌%◌, ◌^◌, ◌≤◌, ◌<◌, ◌≡◌, ◌≢◌, ◌↔◌, refl, ap, Bool, true, false,
  Option, none, some, List, [], ◌∷◌, ◌++◌, arith, length, length-set, get_or, set,
  get_elem?-eq-get_or, ◌⊎◌, inl, inr, ◌==◌, ltb, leb, if◌then◌else◌, u64, u32, sub64, sub32,
  bswap16, bswap32, u8, u16, Bool-cases, store?, store?-eq-set, get_elem?, ◌>>=◌, ◌∙◌, sym, ap₂,
  min, max, ◌&&◌, ◌||◌, not, take, drop, replicate, length-append, length-replicate, append-nil,
  append_assoc, ◌>>>◌, bit_or, bit_and, bit_xor, ltb→lt, lt→ltb, le→ltb_false,
}
use ionutnechita_redacted_os.Net.Checksum.{checksum16}
use ionutnechita_redacted_os.Net.Packet.{
  NetworkConnectionCtx, le16, le32, field16, field32, words, create_eth_packet, create_ipv4_packet,
  create_udp_packet, udp_parse_packet_payload,
}

abbrev pub arp_header : List ℕ → ℕ → List ℕ → ℕ → Bool → List ℕ
arp_header src_mac src_ip dst_mac dst_ip is_request =
    le16 (bswap16 1)
    ++ (le16 (bswap16 0x0800)
        ++ (6 ∷ 4 ∷ le16 (bswap16 (if is_request then 1 else 2))
            ++ (take 6 src_mac
                ++ (le32 (bswap32 src_ip) ++ (take 6 dst_mac ++ le32 (bswap32 dst_ip))))))

pub create_arp_packet : List ℕ → ℕ → List ℕ → ℕ → Bool → List ℕ
create_arp_packet src_mac src_ip dst_mac dst_ip is_request =
    create_eth_packet src_mac (if is_request then replicate 6 0xFF else dst_mac) 0x806
    ++ arp_header src_mac src_ip dst_mac dst_ip is_request

-- The MAC address and the IP address that are written to the context.
unfoldable pub arp_populate_response : List ℕ → Option (List ℕ × ℕ)
arp_populate_response arp = field32 arp 14 >>= λ ip. some (take 6 (drop 8 arp), ip)

unfoldable pub arp_should_handle : List ℕ → ℕ → Option Bool
arp_should_handle arp ip = field32 arp 24 >>= λ target. some (bswap32 target == ip)

pub record IcmpData : Type 0 where
  pub response : Bool
  pub seq : ℕ
  pub id : ℕ
  pub payload : List ℕ

-- The type is a byte.
abbrev pub icmp_packet : ℕ → List ℕ → IcmpData → List ℕ
icmp_packet code checksum echo =
    u8 (bswap16 (if echo.response then 0 else 8)) ∷ code ∷ checksum
    ++ (le16 (bswap16 echo.id) ++ (le16 (bswap16 echo.seq) ++ take 56 echo.payload))

-- The packet has 64 bytes, but the checksum is taken over 64 words: `behind` are the 64 bytes that
-- lie behind the packet.
pub create_icmp_packet :
    List ℕ
    → ℕ
    → List ℕ
    → List ℕ
    → NetworkConnectionCtx
    → NetworkConnectionCtx
    → IcmpData
    → Option (List ℕ)
create_icmp_packet stale_ip code stale behind source destination echo =
    create_ipv4_packet stale_ip 64 0x01 source.ip destination.ip >>= λ ip.
    checksum16 (words (icmp_packet code stale echo ++ take 64 behind)) >>= λ c.
    some
      (create_eth_packet source.mac destination.mac 0x800 ++ (ip ++ icmp_packet code (le16 c) echo))

pub icmp_get_sequence : List ℕ → Option ℕ
icmp_get_sequence packet = field16 packet 6 >>= λ n. some (bswap16 n)

pub icmp_get_id : List ℕ → Option ℕ
icmp_get_id packet = field16 packet 4 >>= λ n. some (bswap16 n)

pub icmp_copy_payload : List ℕ → List ℕ
icmp_copy_payload packet = take 56 (drop 8 packet)

pub record DhcpRequest : Type 0 where
  pub mac : List ℕ
  pub server_ip : ℕ
  pub offered_ip : ℕ

-- The options that are written; zeros follow.
pub dhcp_options : DhcpRequest → List ℕ
dhcp_options r =
    0x63
    ∷ 0x82
    ∷ 0x53
    ∷ 0x63
    ∷ 53
    ∷ 1
    ∷ (if not (r.server_ip == 0) && not (r.offered_ip == 0)
        then 3 ∷ 50 ∷ 4 ∷ le32 r.offered_ip ++ (54 ∷ 4 ∷ le32 r.server_ip ++ (255 ∷ []))
        else 1 ∷ 255 ∷ [])

pub dhcp_packet : ℕ → DhcpRequest → List ℕ
dhcp_packet xid r =
    let options = dhcp_options r in
    1 ∷ 1 ∷ 6 ∷ 0 ∷ le32 xid
    ++ (le16 0
        ++ (le16 (bswap16 0x8000)
            ++ (replicate 16 0
                ++ (take 6 r.mac
                    ++ (replicate 202 0 ++ (options ++ replicate (312 - length options) 0))))))

pub create_dhcp_packet : List ℕ → List ℕ → ℕ → DhcpRequest → Option (List ℕ)
create_dhcp_packet stale_ip stale_udp xid r =
    create_udp_packet stale_ip stale_udp (record { port = 68; ip = 0; mac = r.mac })
      (record { port = 67; ip = 0xFFFFFFFF; mac = replicate 6 0xFF }) (dhcp_packet xid r)

-- The offset of the DHCP packet.
pub dhcp_parse_packet_payload : List ℕ → Option ℕ
dhcp_parse_packet_payload packet = udp_parse_packet_payload packet >>= λ (at, len). some at

-- The first of the `left` bytes from `i` on that equals `option`, or 0.
pub option_loop : ℕ → ℕ → List ℕ → ℕ → Option ℕ
option_loop zero i options option = some 0
option_loop (suc left) i [] option = none
option_loop (suc left) i (o ∷ options) option =
    if o == option then some i else option_loop left (i + 1) options option

pub dhcp_parse_option : List ℕ → ℕ → Option ℕ
dhcp_parse_option options option = option_loop 312 0 options option
