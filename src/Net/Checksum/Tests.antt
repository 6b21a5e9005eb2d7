-- ===== src/Net/Checksum/Tests.antt =====
-- The checksums of shared/net/checksums.c of concrete packets.
use ionutnechita_redacted_os.Base.{ℕ, ◌+◌, ◌%◌, ◌^◌, ◌<◌, ◌≡◌, some, List, [], ◌∷◌, arith}
use ionutnechita_redacted_os.Net.Checksum.{checksum16, checksum16_pipv4}
use ionutnechita_redacted_os.Net.Checksum.Verify.{
  total, Words, Bytes, be_words, checksum16-verifies, checksum16_pipv4-checksum16,
}

abbrev packet : List ℕ
packet = 0xffff ∷ 0xfffe ∷ 0x0045 ∷ []

packet-Words : Words packet
packet-Words = ground arith

checksum16-verifies_example :
    (c : ℕ) × (checksum16 packet ≡ some c) × (c < 2 ^ 16) × ((total packet + c) % 65535 ≡ 0)
checksum16-verifies_example = checksum16-verifies packet packet-Words (omega arith)

abbrev payload : List ℕ
payload = 0x12 ∷ 0x34 ∷ 0x56 ∷ []

payload-Bytes : Bytes payload
payload-Bytes = ground arith

checksum16_pipv4-checksum16_test :
    checksum16_pipv4 0x0a000001 0x0a000002 17 payload
    ≡ checksum16 (0x0a00 ∷ 1 ∷ 0x0a00 ∷ 2 ∷ 17 ∷ 3 ∷ be_words payload)
checksum16_pipv4-checksum16_test =
    checksum16_pipv4-checksum16 0x0a000001 0x0a000002 17 payload (omega arith) (omega arith)
      (omega arith) (omega arith) payload-Bytes
