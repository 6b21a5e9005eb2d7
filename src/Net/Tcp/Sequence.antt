-- ===== src/Net/Tcp/Sequence.antt =====
-- The sequence numbers of shared/net/tcp.c.
use ionutnechita_redacted_os.Base.{
  ℕ, ◌+◌, ◌*◌, ◌/◌, ◌%◌, ◌^◌, ◌<◌, ◌≡◌, ◌↔◌, refl, ap, Bool, true, false, arith, ◌==◌, ltb,
  if◌then◌else◌, u32, bswap32, ◌∙◌, sym, ◌||◌, not, bit_and,
}
use ionutnechita_redacted_os.Net.Tcp.{TcpData, Tcp, at_least_one, next_sequence, tcp_send}

sum_lem :
    (x n : ℕ)
    → x < 2 ^ 32
    → 0 < n
    → n < 2 ^ 8
    → bswap32 (u32 (bswap32 x + bswap32 n)) ≡ x / 2 ^ 8 * 2 ^ 8 + (x + n) % 2 ^ 8
sum_lem x n hx h0 hn = omega arith

sent_size : (n : ℕ) → 0 < n → n < 2 ^ 8 → at_least_one n ≡ n
sent_size n h0 hn = ground arith

or_true : (b : Bool) → (b || true) ≡ true
or_true true = refl
or_true false = refl

with_payload :
    (d : TcpData)
    → 0 < d.payload_size
    → d.payload_size < 2 ^ 8
    → next_sequence d ≡ u32 (d.sequence + bswap32 d.payload_size)
unfolding next_sequence
with_payload d h0 hn =
    let some_payload : ltb 0 d.payload_size ≡ true = (ground arith) in
    let either : (not (bit_and d.flags 0xef == 0) || ltb 0 d.payload_size) ≡ true =
      (ap (λ (b : Bool). not (bit_and d.flags 0xef == 0) || b) some_payload ∙ or_true _) in
    ap
      (λ (b : Bool).
        if b then u32 (d.sequence + bswap32 (at_least_one d.payload_size)) else d.sequence)
      either
    ∙ ap (λ (n : ℕ). u32 (d.sequence + bswap32 n)) (sent_size d.payload_size h0 hn)

low_byte :
    (x n : ℕ)
    → x < 2 ^ 32
    → 0 < n
    → n < 2 ^ 8
    → (x / 2 ^ 8 * 2 ^ 8 + (x + n) % 2 ^ 8 ≡ u32 (x + n)) ↔ (x % 2 ^ 8 + n < 2 ^ 8)
low_byte x n hx h0 hn = (λ e. omega (arith, e), λ h. omega arith)

-- After a payload of less than 256 bytes, `tcp_send` expects an acknowledgement in which only the
-- low byte of the sequence number `x` has grown, since the sum is taken in network order: it is the
-- number that the peer acknowledges exactly when there is no carry out of that byte.
pub tcp_send-expected_ack :
    (t : Tcp) (x : ℕ)
    → x < 2 ^ 32
    → t.tcp_data.sequence ≡ bswap32 x
    → 0 < t.tcp_data.payload_size
    → t.tcp_data.payload_size < 2 ^ 8
    → let n = t.tcp_data.payload_size in
      let expected = (tcp_send t).tcp_data.expected_ack in
      (expected ≡ x / 2 ^ 8 * 2 ^ 8 + (x + n) % 2 ^ 8)
      × ((expected ≡ u32 (x + n)) ↔ (x % 2 ^ 8 + n < 2 ^ 8))
unfolding tcp_send
tcp_send-expected_ack t x hx e h0 hn =
    let n = t.tcp_data.payload_size in
    let sum =
      ap bswap32 (with_payload t.tcp_data h0 hn)
      ∙ ap (λ (s : ℕ). bswap32 (u32 (s + bswap32 n))) e
      ∙ sum_lem x n hx h0 hn in
    let (only_if, if_no_carry) = low_byte x n hx h0 hn in
    (sum, (λ same. only_if (sym sum ∙ same), λ h. sum ∙ if_no_carry h))
