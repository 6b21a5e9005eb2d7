-- ===== src/Net/Dispatch/Ports.antt =====
-- The ports of kernel/networking/network_dispatch.cpp.
use ionutnechita_redacted_os.Base.{
  ℕ, ◌<◌, ◌≡◌, ◌≢◌, refl, ap, Bool, true, false, Option, none, some, arith, inl, inr, ◌==◌, ltb,
  if◌then◌else◌, Bool-cases, ◌>>=◌, ◌∙◌, sym, not,
}
use ionutnechita_redacted_os.Net.Dispatch.{Dispatch, write_port, bind_port, unbind_port}

bind_step :
    (port process owner : ℕ) (d : Dispatch)
    → port < 0xFFFF
    → d.ports port ≡ owner
    → bind_port port process d
      ≡ (if not (owner == 0xFFFF) then some (false, d) else some (true, write_port port process d))
unfolding bind_port
bind_step port process owner d h e =
    let below : ltb port 0xFFFF ≡ true = (ground arith) in
    ap (λ (b : Bool). (if b then some (d.ports port) else none) >>= look) below ∙ ap look e
  where
    look : ℕ → Option (Bool × Dispatch)
    look o = if not (o == 0xFFFF) then some (false, d) else some (true, write_port port process d)

unbind_step :
    (port process owner : ℕ) (d : Dispatch)
    → port < 0xFFFF
    → d.ports port ≡ owner
    → unbind_port port process d
      ≡ (if not (owner == process) then some (false, d) else some (true, write_port port 0xFFFF d))
unfolding unbind_port
unbind_step port process owner d h e =
    let below : ltb port 0xFFFF ≡ true = (ground arith) in
    ap (λ (b : Bool). (if b then some (d.ports port) else none) >>= look) below ∙ ap look e
  where
    look : ℕ → Option (Bool × Dispatch)
    look o = if not (o == process) then some (false, d) else some (true, write_port port 0xFFFF d)

same_lem : (a : ℕ) → (a == a) ≡ true
same_lem a = ground arith

differ_lem : (a b : ℕ) → a ≢ b → (a == b) ≡ false
differ_lem a b h = ground arith

-- A port below 65535 without an owner is bound to a process once: another one is refused, only the
-- owner can unbind it, and then every port has the owner that it had.
pub unbind_port-bind_port :
    (port process other : ℕ) (d : Dispatch)
    → port < 0xFFFF
    → d.ports port ≡ 0xFFFF
    → process < 0xFFFF
    → other ≢ process
    → (d' d'' : Dispatch) × (bind_port port process d ≡ some (true, d'))
      × (bind_port port other d' ≡ some (false, d'))
      × (unbind_port port other d' ≡ some (false, d'))
      × (unbind_port port process d' ≡ some (true, d''))
      × ((q : ℕ) → d''.ports q ≡ d.ports q)
unbind_port-bind_port port process other d h free owned ne =
    let d' = write_port port process d in
    let d'' = write_port port 0xFFFF d' in
    let bound : d'.ports port ≡ process = (rw (same_lem port) refl) in
    (
      d',
      d'',
      bind_step port process 0xFFFF d h free,
      bind_step port other process d' h bound ∙ rw (differ_lem process 0xFFFF (omega arith)) refl,
      unbind_step port other process d' h bound
          ∙ rw (differ_lem process other (λ e. ne (sym e))) refl,
      unbind_step port process process d' h bound ∙ rw (same_lem process) refl,
      λ q. elim (Bool-cases (q == port)) [
        | inl here ↦ let at : port ≡ q = (ground arith) in rw here (sym free ∙ ap d.ports at)
        | inr elsewhere ↦ rw elsewhere refl
      ],
    )
