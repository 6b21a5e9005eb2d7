-- ===== src/Net/Tcp/Tests.antt =====
-- Runs of shared/net/tcp.c against a silent peer and one that answers.
use ionutnechita_redacted_os.Base.{
  ℕ, zero, suc, ◌+◌, ◌^◌, ◌<◌, ◌≡◌, ◌↔◌, refl, true, false, [], ◌∷◌, arith, bit_or,
}
use ionutnechita_redacted_os.Net.Tcp.{
  Tcp, Segment, Received, no_packet, not_tcp, segment, tcp_send, tcp_reset, tcp_handskake,
  tcp_close, syn, fin, ack_flag, rst, tcp_expect_response, expect_loop, expect_round,
  tcp_check_response, check_received, check_segment, handshake_loop, handshake_checked,
  next_sequence, close_first, close_second,
}
use ionutnechita_redacted_os.Net.Tcp.Sequence.{tcp_send-expected_ack}
use ionutnechita_redacted_os.Net.Tcp.Silence.{flags_of, tcp_handskake-silent, tcp_close-silent}

abbrev client : ℕ → ℕ → Tcp
client sequence payload_size = record {
  tcp_data = record {
    sequence = sequence;
    ack = 0;
    flags = 24;
    payload_size = payload_size;
    expected_ack = 0;
  };
  reads = 0;
  sent = [];
  slept = 0;
}

-- 300 in network order, and 250 bytes: no carry from 44, but 250 more make 294.
tcp_send-expected_ack_example :
    ((tcp_send (client 0x2c010000 250)).tcp_data.expected_ack ≡ 256 + 38)
    × (((tcp_send (client 0x2c010000 250)).tcp_data.expected_ack ≡ 550) ↔ (44 + 250 < 2 ^ 8))
tcp_send-expected_ack_example =
    tcp_send-expected_ack (client 0x2c010000 250) 300 (omega arith) refl (omega arith) (omega arith)

silence : ℕ → Received
silence k = no_packet

silent : (k : ℕ) → silence k ≡ no_packet
unfolding silence
silent k = refl

tcp_handskake-silent_example :
    ((tcp_handskake silence 0 (client 0 0)).0 ≡ false)
    × (flags_of ((tcp_handskake silence 0 (client 0 0)).1).sent ≡ syn ∷ syn ∷ syn ∷ syn ∷ syn ∷ [])
    × (((tcp_handskake silence 0 (client 0 0)).1).reads ≡ 55)
    × (((tcp_handskake silence 0 (client 0 0)).1).slept ≡ 60000)
tcp_handskake-silent_example = tcp_handskake-silent silence (client 0 0) silent

tcp_close-silent_example :
    ((tcp_close silence 0 7 8 (client 0 0)).0 ≡ false)
    × (flags_of ((tcp_close silence 0 7 8 (client 0 0)).1).sent
        ≡ syn ∷ syn ∷ syn ∷ syn ∷ bit_or fin ack_flag ∷ [])
    × (((tcp_close silence 0 7 8 (client 0 0)).1).reads ≡ 55)
    × (((tcp_close silence 0 7 8 (client 0 0)).1).slept ≡ 60000)
tcp_close-silent_example = tcp_close-silent silence 7 8 (client 0 0) silent

abbrev answer : Segment
answer = record {
  sequence = 0x64000000;
  ack = 0x01000000;
  data_offset_reserved = 0x50;
  flags = 18;
  size = 20;
}

-- The third call gives the answer.
server : ℕ → Received
server (suc (suc zero)) = segment answer
server _ = no_packet

-- Both answers of a peer that closes too: to the FIN, and its own FIN.
closing : ℕ → Received
closing zero = segment (record answer { ack = 0x02000000; flags = 16 })
closing (suc zero) = segment (record answer { ack = 0x02000000; flags = 17 })
closing _ = not_tcp

close_test :
    ((tcp_close closing 0 0x01000000 0 (client 0 0)).0 ≡ true)
    × (flags_of ((tcp_close closing 0 0x01000000 0 (client 0 0)).1).sent ≡ 16 ∷ 17 ∷ [])
unfolding tcp_close closing close_first close_second tcp_send next_sequence tcp_check_response
    tcp_expect_response expect_loop expect_round check_received check_segment
close_test = (refl, refl)

-- A wrong acknowledgement resets.
reset_test :
    flags_of ((tcp_handskake closing 0 (client 0 0)).1).sent ≡ bit_or rst ack_flag ∷ syn ∷ []
unfolding tcp_handskake handshake_loop handshake_checked closing tcp_reset tcp_send next_sequence
    tcp_check_response tcp_expect_response expect_loop expect_round check_received check_segment
reset_test = refl
