-- ===== src/Net/Tcp.antt =====
-- shared/net/tcp.c. What `read_packet` gives at its k-th call is a parameter, `net k`. The fields
-- of `tcp_data` that nothing changes, and the bytes of the payload, are left out; fields in network
-- order are kept in it. What is sent, and the time slept, are recorded.
pub mod Sequence
pub mod Silence
pub mod Handshake
mod Tests
use ionutnechita_redacted_os.Base.{
  ℕ, zero, suc, ◌+◌, ◌-◌, ◌*◌, ◌/◌, ◌%◌, ◌^◌, ◌≤◌, ◌<◌, ◌≡◌, ◌≢◌, ◌↔◌, refl, ap, Bool, true, false,
  Option, none, some, List, [], ◌∷◌, ◌++◌, arith, length, length-set, get_or, set,
  get_elem?-eq-get_or, ◌⊎◌, inl, inr, ◌==◌, ltb, leb, if◌then◌else◌, u64, u32, sub64, sub32,
  bswap16, bswap32, u8, u16, Bool-cases, store?, store?-eq-set, get_elem?, ◌>>=◌, ◌∙◌, sym, ap₂,
  min, max, ◌&&◌, ◌||◌, not, take, drop, replicate, length-append, length-replicate, append-nil,
  append_assoc, ◌>>>◌, bit_or, bit_and, bit_xor, ltb→lt, lt→ltb, le→ltb_false,
}

-- `sequence` and `ack` are in network order, `expected_ack` is not.
pub record TcpData : Type 0 where
  pub sequence : ℕ
  pub ack : ℕ
  pub flags : ℕ
  pub payload_size : ℕ
  pub expected_ack : ℕ

-- `tcp_hdr_t` as it arrives, and `size`, that of the header and the payload.
pub record Segment : Type 0 where
  pub sequence : ℕ
  pub ack : ℕ
  pub data_offset_reserved : ℕ
  pub flags : ℕ
  pub size : ℕ

-- What `read_packet` gives: `false`, `true` with NULL, a packet in which
-- `tcp_parse_packet_payload` finds no segment, or one with a segment.
pub data Received : Type 0 where
  no_packet : Received
  null_packet : Received
  not_tcp : Received
  segment : Segment → Received

pub record Tcp : Type 0 where
  pub tcp_data : TcpData
  pub reads : ℕ
  pub sent : List TcpData
  pub slept : ℕ

abbrev pub fin : ℕ
fin = 1

abbrev pub syn : ℕ
syn = 2

abbrev pub rst : ℕ
rst = 4

abbrev pub ack_flag : ℕ
ack_flag = 16

-- `max(1, size)`, of two `int`s.
abbrev pub at_least_one : ℕ → ℕ
at_least_one n = if ltb 1 (u32 n) && ltb (u32 n) (2 ^ 31) then u32 n else 1

-- The sequence number after a segment has been sent.
pub next_sequence : TcpData → ℕ
next_sequence d =
    if not (bit_and d.flags 0xef == 0) || ltb 0 d.payload_size
    then u32 (d.sequence + bswap32 (at_least_one d.payload_size))
    else d.sequence

pub tcp_send : Tcp → Tcp
tcp_send t =
    let s = next_sequence t.tcp_data in
    record t {
      tcp_data = record t.tcp_data { sequence = s; expected_ack = bswap32 s };
      sent = t.tcp_data ∷ t.sent;
    }

abbrev pub with_flags : ℕ → Tcp → Tcp
with_flags f t = record t { tcp_data = record t.tcp_data { flags = f } }

pub tcp_reset : Tcp → Tcp
tcp_reset t = tcp_send (with_flags (bit_or rst ack_flag) t)

abbrev pub sleep : ℕ → Tcp → Tcp
sleep ms t = record t { slept = t.slept + ms }

abbrev pub read : Tcp → Tcp
read t = record t { reads = t.reads + 1 }

-- A round: what has been read, or, without it, what the rest of the loop does.
pub expect_round : Received → Tcp → Received × Tcp → Received × Tcp
expect_round no_packet t later = later
expect_round null_packet t later = (null_packet, read t)
expect_round not_tcp t later = (not_tcp, read t)
expect_round (segment s) t later = (segment s, read t)

-- The loop, with `timeout` rounds left. The answer `no_packet` is `false`.
pub expect_loop : (ℕ → Received) → ℕ → Tcp → Received × Tcp
unfolding expect_round
expect_loop net zero t = expect_round (net t.reads) t (no_packet, sleep 1000 (read t))
expect_loop net (suc timeout) t =
    expect_round (net t.reads) t (expect_loop net timeout (sleep 1000 (read t)))

pub tcp_expect_response : (ℕ → Received) → Tcp → Received × Tcp
tcp_expect_response net t = expect_loop net 10 t

-- `TCP_OK` with the size of the payload, `TCP_RETRY` and `TCP_RESET`.
pub data Checked : Type 0 where
  tcp_ok : ℕ → Checked
  tcp_retry : Checked
  tcp_reset_needed : Checked

pub check_segment : Segment → Tcp → Checked × Tcp
check_segment r t =
    let hdr_size = (r.data_offset_reserved >>> 4) * 4 in
    let payload_size = sub64 r.size hdr_size in
    let t' = record t {
      tcp_data = record t.tcp_data {
        ack = bswap32 (u32 (bswap32 r.sequence + at_least_one payload_size));
      };
    } in
    if not (bswap32 r.ack == t'.tcp_data.expected_ack)
    then (tcp_reset_needed, t')
    else if not (r.flags == bit_or t'.tcp_data.flags ack_flag)
    then (tcp_reset_needed, t')
    else (tcp_ok payload_size, t')

pub check_received : Received → Tcp → Checked × Tcp
check_received no_packet t = (tcp_retry, t)
check_received null_packet t = (tcp_retry, t)
check_received not_tcp t = (tcp_retry, t)
check_received (segment r) t = check_segment r t

pub tcp_check_response : (ℕ → Received) → Tcp → Checked × Tcp
tcp_check_response net t = let r = tcp_expect_response net t in check_received r.0 r.1

-- What follows the check in `tcp_handskake`; `later` is the call with the next `retry`.
pub handshake_checked : Checked × Tcp → Bool × Tcp → Bool × Tcp
handshake_checked (tcp_retry, t) later = later
handshake_checked (tcp_reset_needed, t) later = (false, tcp_reset t)
handshake_checked (tcp_ok size, t) later = (true, tcp_send (with_flags ack_flag t))

abbrev pub start_handshake : Tcp → Tcp
start_handshake t = record t { tcp_data = record t.tcp_data { sequence = 0; ack = 0; flags = syn } }

-- `tcp_handskake` with `left` retries before the fifth.
pub handshake_loop : (ℕ → Received) → ℕ → Tcp → Bool × Tcp
unfolding handshake_checked
handshake_loop net zero t = (false, t)
handshake_loop net (suc left) t =
    let checked = tcp_check_response net (tcp_send (start_handshake t)) in
    handshake_checked checked (handshake_loop net left (sleep 1000 checked.1))

-- The calls before `retry`, a `uint8_t`, is 5.
abbrev pub retries_left : ℕ → ℕ
retries_left retry = if leb retry 5 then 5 - retry else 261 - retry

pub tcp_handskake : (ℕ → Received) → ℕ → Tcp → Bool × Tcp
tcp_handskake net retry t = handshake_loop net (retries_left retry) t

-- What follows the second check in `tcp_close`.
pub close_second : (ℕ → Received) → ℕ → Checked × Tcp → Bool × Tcp
close_second net retry (tcp_retry, t) = tcp_handskake net (u8 (retry + 1)) (sleep 1000 t)
close_second net retry (tcp_reset_needed, t) = (true, tcp_reset t)
close_second net retry (tcp_ok size, t) = (true, tcp_send (with_flags ack_flag t))

-- What follows the first.
pub close_first : (ℕ → Received) → ℕ → Checked × Tcp → Bool × Tcp
close_first net retry (tcp_retry, t) = tcp_handskake net (u8 (retry + 1)) (sleep 1000 t)
close_first net retry (tcp_reset_needed, t) = (false, tcp_reset t)
close_first net retry (tcp_ok size, t) =
    close_second net retry (tcp_check_response net (with_flags fin t))

abbrev pub start_close : ℕ → ℕ → Tcp → Tcp
start_close orig_seq orig_ack t = record t {
  tcp_data = record t.tcp_data { sequence = orig_seq; ack = orig_ack; flags = bit_or fin ack_flag };
}

pub tcp_close : (ℕ → Received) → ℕ → ℕ → ℕ → Tcp → Bool × Tcp
tcp_close net retry orig_seq orig_ack t =
    if retry == 5
    then (false, t)
    else close_first net retry
        (tcp_check_response net (with_flags ack_flag (tcp_send (start_close orig_seq orig_ack t))))
