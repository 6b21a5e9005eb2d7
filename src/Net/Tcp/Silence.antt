-- ===== src/Net/Tcp/Silence.antt =====
-- A peer of shared/net/tcp.c that does not answer.
use ionutnechita_redacted_os.Base.{
  ℕ, zero, suc, ◌+◌, ◌*◌, ◌≡◌, refl, ap, Bool, false, List, [], ◌∷◌, ◌++◌, arith, ◌∙◌, sym, ap₂,
  replicate, bit_or,
}
use mathlib.Core.Path.{subst}
use ionutnechita_redacted_os.Net.Tcp.{
  TcpData, Tcp, Received, no_packet, expect_loop, tcp_expect_response, tcp_check_response, Checked,
  tcp_retry, check_received, tcp_send, handshake_loop, tcp_handskake, tcp_close, syn, fin, ack_flag,
  sleep, with_flags, expect_round, read, handshake_checked, start_handshake, start_close,
  close_first,
}

-- The flags of what has been sent, the last first.
abbrev pub flags_of : List TcpData → List ℕ
flags_of [] = []
flags_of (d ∷ ds) = d.flags ∷ flags_of ds

abbrev waited : ℕ → Tcp → Tcp
waited n t = record t { reads = t.reads + n; slept = t.slept + 1000 * n }

replicate_end : (n x : ℕ) (xs : List ℕ) → replicate n x ++ x ∷ xs ≡ replicate (suc n) x ++ xs
replicate_end zero x xs = refl
replicate_end (suc n) x xs = ap (λ ys. x ∷ ys) (replicate_end n x xs)

module _ (net : ℕ → Received) (silent : (k : ℕ) → net k ≡ no_packet) where
  expect_silent : (n : ℕ) (t : Tcp) → expect_loop net n t ≡ (no_packet, waited (n + 1) t)
  unfolding expect_loop
  expect_silent zero t =
      ap (λ r. expect_round r t (no_packet, sleep 1000 (read t))) (silent t.reads)
  expect_silent (suc n) t =
      ap (λ r. expect_round r t (expect_loop net n (sleep 1000 (read t)))) (silent t.reads)
      ∙ expect_silent n (sleep 1000 (read t))
      ∙ ap₂ (λ (r s : ℕ). (no_packet, record t { reads = r; slept = s })) (omega arith)
          (omega arith)

  check_silent : (t : Tcp) → tcp_check_response net t ≡ (tcp_retry, waited 11 t)
  unfolding tcp_check_response tcp_expect_response check_received
  check_silent t = ap (λ (r : Received × Tcp). check_received r.0 r.1) (expect_silent 10 t)

  abbrev GivesUp : ℕ → Tcp → Bool × Tcp → Type 0
  GivesUp n t (answer, t') =
      (answer ≡ false)
      × (flags_of t'.sent ≡ replicate n syn ++ flags_of t.sent)
      × (t'.reads ≡ t.reads + 11 * n)
      × (t'.slept ≡ t.slept + 12000 * n)

  retried :
      (left : ℕ) (t : Tcp)
      → handshake_loop net (suc left) t
        ≡ handshake_loop net left (sleep 1000 (waited 11 (tcp_send (start_handshake t))))
  unfolding handshake_loop
  retried left t =
      ap (λ (c : Checked × Tcp). handshake_checked c (handshake_loop net left (sleep 1000 c.1)))
        (check_silent (tcp_send (start_handshake t)))

  handshake_silent : (left : ℕ) (t : Tcp) → GivesUp left t (handshake_loop net left t)
  unfolding handshake_loop tcp_send
  handshake_silent zero t = (refl, refl, omega arith, omega arith)
  handshake_silent (suc left) t =
      let t₁ = sleep 1000 (waited 11 (tcp_send (start_handshake t))) in
      let (no_answer, flags, reads, slept) = handshake_silent left t₁ in
      subst (GivesUp (suc left) t) (sym (retried left t)) (
        no_answer,
        flags ∙ replicate_end left syn (flags_of t.sent),
        omega (arith, reads),
        omega (arith, slept),
      )

  closed :
      (orig_seq orig_ack : ℕ) (t : Tcp)
      → tcp_close net 0 orig_seq orig_ack t
        ≡ handshake_loop net 4 (
            sleep 1000
              (waited 11 (with_flags ack_flag (tcp_send (start_close orig_seq orig_ack t)))))
  unfolding tcp_close close_first tcp_handskake
  closed orig_seq orig_ack t =
      ap (close_first net 0)
        (check_silent (with_flags ack_flag (tcp_send (start_close orig_seq orig_ack t))))

-- A peer that never answers: `tcp_handskake` ends, after five attempts, each of which sends a SYN,
-- looks eleven times for a packet and sleeps for twelve seconds.
pub tcp_handskake-silent :
    (net : ℕ → Received) (t : Tcp)
    → ((k : ℕ) → net k ≡ no_packet)
    → let r = tcp_handskake net 0 t in
      (r.0 ≡ false)
      × (flags_of (r.1).sent ≡ syn ∷ syn ∷ syn ∷ syn ∷ syn ∷ flags_of t.sent)
      × ((r.1).reads ≡ t.reads + 55)
      × ((r.1).slept ≡ t.slept + 60000)
unfolding tcp_handskake
tcp_handskake-silent net t silent =
    let (no_answer, flags, reads, slept) = handshake_silent net silent 5 t in
    (no_answer, flags, omega (arith, reads), omega (arith, slept))

-- A peer that never answers a FIN: `tcp_close` goes on with the attempts of `tcp_handskake`, so that
-- it opens the connection again up to four times with a SYN, and never repeats the FIN.
pub tcp_close-silent :
    (net : ℕ → Received) (orig_seq orig_ack : ℕ) (t : Tcp)
    → ((k : ℕ) → net k ≡ no_packet)
    → let r = tcp_close net 0 orig_seq orig_ack t in
      (r.0 ≡ false)
      × (flags_of (r.1).sent ≡ syn ∷ syn ∷ syn ∷ syn ∷ bit_or fin ack_flag ∷ flags_of t.sent)
      × ((r.1).reads ≡ t.reads + 55)
      × ((r.1).slept ≡ t.slept + 60000)
unfolding tcp_close tcp_handskake tcp_send
tcp_close-silent net orig_seq orig_ack t silent =
    let t₀ = with_flags ack_flag (tcp_send (start_close orig_seq orig_ack t)) in
    let (no_answer, flags, reads, slept) =
      handshake_silent net silent 4 (sleep 1000 (waited 11 t₀)) in
    let e = closed net silent orig_seq orig_ack t in
    (
      ap (λ (r : Bool × Tcp). r.0) e ∙ no_answer,
      ap (λ (r : Bool × Tcp). flags_of (r.1).sent) e ∙ flags,
      ap (λ (r : Bool × Tcp). (r.1).reads) e ∙ omega (arith, reads),
      ap (λ (r : Bool × Tcp). (r.1).slept) e ∙ omega (arith, slept),
    )
