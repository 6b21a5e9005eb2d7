-- ===== src/Net/Tcp/Handshake.antt =====
-- A peer of shared/net/tcp.c that answers a SYN.
use ionutnechita_redacted_os.Base.{ℕ, ◌+◌, ◌*◌, u32, sub64, bswap32, ◌>>>◌}
use ionutnechita_redacted_os.Net.Tcp.{
  Tcp, Segment, at_least_one, tcp_send, start_handshake, ack_flag, with_flags,
}

after : ℕ → Tcp → Tcp
after k t = record t { reads = t.reads + k + 1; slept = t.slept + 1000 * k }

payload_of : Segment → ℕ
payload_of r = sub64 r.size ((r.data_offset_reserved >>> 4) * 4)

acknowledging : Segment → Tcp → Tcp
unfolding payload_of
acknowledging r t = record t {
  tcp_data = record t.tcp_data {
    ack = bswap32 (u32 (bswap32 r.sequence + at_least_one (payload_of r)));
  };
}

last : ℕ → Tcp → Segment → Tcp
last k t r =
    tcp_send (with_flags ack_flag (acknowledging r (after k (tcp_send (start_handshake t)))))
