-- ===== src/Net/Message/Answer.antt =====
-- Answers to the packets of shared/net/arp.c and icmp.c.
use ionutnechita_redacted_os.Base.{
  ℕ, ◌+◌, ◌*◌, ◌^◌, ◌<◌, ◌≡◌, refl, ap, Bool, true, false, some, List, [], ◌∷◌, ◌++◌, arith, length,
  ◌==◌, if◌then◌else◌, bswap16, bswap32, u8, u16, get_elem?, ◌∙◌, sym, take, drop, ◌>>>◌,
}
use ionutnechita_redacted_os.Base.{take_all}
use ionutnechita_redacted_os.Net.Checksum.{checksum16}
use ionutnechita_redacted_os.Net.Checksum.Verify.{checksum16-total}
use ionutnechita_redacted_os.Net.Packet.{
  create_eth_packet, create_ipv4_packet, ipv4_header, words, le16,
}
use ionutnechita_redacted_os.Net.Message.{
  create_arp_packet, arp_populate_response, arp_should_handle, IcmpData, icmp_packet,
  create_icmp_packet, icmp_get_sequence, icmp_get_id, icmp_copy_payload,
}

read_back :
    (x : ℕ)
    → x < 2 ^ 32
    → u8 x + u8 (x >>> 8) * 2 ^ 8 + (u8 (x >>> 16) + u8 (x >>> 24) * 2 ^ 8) * 2 ^ 16 ≡ x
read_back x h = omega arith

read_back16 : (x : ℕ) → x < 2 ^ 16 → bswap16 (u8 (bswap16 x) + u8 (bswap16 x >>> 8) * 2 ^ 8) ≡ x
read_back16 x h = omega arith

own_target :
    (x own : ℕ)
    → x < 2 ^ 32
    → some (
        bswap32 (
          u8 (bswap32 x)
          + u8 (bswap32 x >>> 8) * 2 ^ 8
          + (u8 (bswap32 x >>> 16) + u8 (bswap32 x >>> 24) * 2 ^ 8) * 2 ^ 16)
        == own)
      ≡ some (x == own)
own_target x own h =
    ap (λ (y : ℕ). some (y == own)) (ap bswap32 (read_back (bswap32 x) (omega arith)) ∙ omega arith)

-- The target of an ARP packet takes it for its own, at its own address only; but the address of the
-- sender is read in network order: an answer that is made for it is not taken by the sender, unless
-- its address reads the same in both orders.
pub arp_should_handle-create_arp_packet :
    (a b c d e f ip a' b' c' d' e' f' ip' own : ℕ) (is_request : Bool)
    → ip < 2 ^ 32
    → ip' < 2 ^ 32
    → let request =
        create_arp_packet
          (a ∷ b ∷ c ∷ d ∷ e ∷ f ∷ [])
          ip
          (a' ∷ b' ∷ c' ∷ d' ∷ e' ∷ f' ∷ [])
          ip'
          is_request in
      (arp_should_handle (drop 14 request) own ≡ some (ip' == own))
      × (arp_populate_response (drop 14 request) ≡ some (a ∷ b ∷ c ∷ d ∷ e ∷ f ∷ [], bswap32 ip))
      × (arp_should_handle
            (drop 14 (
              create_arp_packet
                (a' ∷ b' ∷ c' ∷ d' ∷ e' ∷ f' ∷ [])
                ip'
                (a ∷ b ∷ c ∷ d ∷ e ∷ f ∷ [])
                (bswap32 ip)
                false))
            ip
          ≡ some (bswap32 ip == ip))
unfolding create_arp_packet create_eth_packet arp_should_handle arp_populate_response
arp_should_handle-create_arp_packet a b c d e f ip a' b' c' d' e' f' ip' own true h h' = (
  own_target ip' own h',
  ap (λ (x : ℕ). some (a ∷ b ∷ c ∷ d ∷ e ∷ f ∷ [], x)) (read_back (bswap32 ip) (omega arith)),
  own_target (bswap32 ip) ip (omega arith),
)
arp_should_handle-create_arp_packet a b c d e f ip a' b' c' d' e' f' ip' own false h h' = (
  own_target ip' own h',
  ap (λ (x : ℕ). some (a ∷ b ∷ c ∷ d ∷ e ∷ f ∷ [], x)) (read_back (bswap32 ip) (omega arith)),
  own_target (bswap32 ip) ip (omega arith),
)

all_of : (xs : List ℕ) → length xs ≡ 56 → take 56 xs ≡ xs
all_of xs full = ap (λ (n : ℕ). take n xs) (sym full) ∙ take_all xs

type_byte : (response : Bool) → some (u8 (bswap16 (if response then 0 else 8))) ≡ some 0
type_byte true = refl
type_byte false = refl

-- What `create_icmp_packet` writes, at any former contents of the fields that it does not set and
-- with any bytes behind the packet, is read back: the sequence number, the identifier and the payload
-- of 56 bytes. But the type byte is 0, that of an answer, for a question too; and the checksum that
-- is written is that of the packet and of the 64 bytes that lie behind it.
pub icmp_get_sequence-create_icmp_packet :
    (stale_ip stale behind payload : List ℕ)
    (code seq id port ip a b c d e f port' ip' a' b' c' d' e' f' : ℕ) (response : Bool)
    → seq < 2 ^ 16
    → id < 2 ^ 16
    → length payload ≡ 56
    → (packet : List ℕ) × (create_icmp_packet stale_ip code stale behind
          (record { port = port; ip = ip; mac = a ∷ b ∷ c ∷ d ∷ e ∷ f ∷ [] })
          (record { port = port'; ip = ip'; mac = a' ∷ b' ∷ c' ∷ d' ∷ e' ∷ f' ∷ [] })
          (record { response = response; seq = seq; id = id; payload = payload })
        ≡ some packet)
      × (icmp_get_sequence (drop 34 packet) ≡ some seq)
      × (icmp_get_id (drop 34 packet) ≡ some id)
      × (icmp_copy_payload (drop 34 packet) ≡ payload)
      × (get_elem? packet 34 ≡ some 0)
      × (c : ℕ) × (checksum16 (
            words (
              icmp_packet code stale
                (record { response = response; seq = seq; id = id; payload = payload })
              ++ take 64 behind))
          ≡ some c)
      × (take 2 (drop 36 packet) ≡ le16 c)
unfolding create_icmp_packet create_eth_packet create_ipv4_packet icmp_get_sequence icmp_get_id
    icmp_copy_payload
icmp_get_sequence-create_icmp_packet stale_ip stale behind payload code seq id port ip a b c d e f
      port' ip' a' b' c' d' e' f' response h h' full =
    let echo : IcmpData = (record { response = response; seq = seq; id = id; payload = payload }) in
    let (c₁, e₁) = checksum16-total (words (ipv4_header 64 0x01 ip ip' stale_ip)) in
    let (c₂, e₂) = checksum16-total (words (icmp_packet code stale echo ++ take 64 behind)) in
    (
      (a' ∷ b' ∷ c' ∷ d' ∷ e' ∷ f' ∷ a ∷ b ∷ c ∷ d ∷ e ∷ f ∷ le16 (bswap16 (u16 0x800)))
          ++ (ipv4_header 64 0x01 ip ip' (le16 c₁) ++ icmp_packet code (le16 c₂) echo),
      rw (e₁, e₂) refl,
      ap some (read_back16 seq h),
      ap some (read_back16 id h'),
      ap (take 56) (all_of payload full) ∙ all_of payload full,
      type_byte response,
      c₂,
      e₂,
      refl,
    )
