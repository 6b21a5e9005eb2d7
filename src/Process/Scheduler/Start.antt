-- ===== src/Process/Scheduler/Start.antt =====
-- The slots that `init_process` of kernel/process/scheduler.c hands out.
use mathlib.Core.Option.{some-injective}
use ionutnechita_redacted_os.Base.{
  ℕ, zero, suc, ◌+◌, ◌≡◌, refl, ap, Bool, true, false, Option, some, List, [], ◌∷◌, ◌++◌, set, inl,
  inr, leb, Bool-cases, get_elem?, append_assoc, ◌∙◌, replicate, u16, sub64, if◌then◌else◌, ◌==◌,
}
use ionutnechita_redacted_os.Process.Scheduler.{
  ready, Process, Sched, started, start_in, init_process, find_stopped, reset_process, max_procs,
  as_started, Event, freed_page, freed_block, interrupts_disabled, interrupts_enabled, focus_unset,
  timer_reset, virtual_timer, freed_packets,
}

-- Whether the last event that says so masks the interrupts.
abbrev pub interrupts_masked : List Event → Bool
interrupts_masked [] = false
interrupts_masked (interrupts_disabled ∷ es) = true
interrupts_masked (interrupts_enabled ∷ es) = false
interrupts_masked (freed_page a n ∷ es) = interrupts_masked es
interrupts_masked (freed_block a n ∷ es) = interrupts_masked es
interrupts_masked (focus_unset ∷ es) = interrupts_masked es
interrupts_masked (timer_reset ∷ es) = interrupts_masked es
interrupts_masked (virtual_timer t ∷ es) = interrupts_masked es

-- The slot that a new process is to have.
abbrev pub slot_of : Sched → Option ℕ
slot_of s =
    if leb max_procs s.next_proc_index then find_stopped s.processes 0 else some s.next_proc_index

pub get_elem?-set :
    {A : Type 0} (xs : List A) (i : ℕ) (x y : A)
    → get_elem? xs i ≡ some x
    → get_elem? (set xs i y) i ≡ some y
get_elem?-set [] i x y e = absurd (cc e)
get_elem?-set (z ∷ xs) zero x y e = refl
get_elem?-set (z ∷ xs) (suc i) x y e = get_elem?-set xs i x y e

pub set-set : {A : Type 0} (xs : List A) (i : ℕ) (x y : A) → set (set xs i x) i y ≡ set xs i y
set-set [] i x y = refl
set-set (z ∷ xs) zero x y = refl
set-set (z ∷ xs) (suc i) x y = ap (λ (ys : List _). z ∷ ys) (set-set xs i x y)

-- What `init_process` makes of the slot `i`.
pub record StartedIn (s : Sched) (i : ℕ) (s₁ : Sched) (p : Process) : Type 0 where
  pub result : init_process s ≡ started i s₁
  pub processes : s₁.processes ≡ set s.processes i p
  pub state : p.state ≡ ready
  pub pc : p.pc ≡ 0
  pub id : p.id ≡ s.next_proc_index
  pub name : p.name ≡ replicate 256 0
  pub proc_count : s₁.proc_count ≡ u16 (s.proc_count + 1)
  pub next_proc_index : s₁.next_proc_index ≡ u16 (s.next_proc_index + 1)
  pub masked : interrupts_masked s₁.events ≡ interrupts_masked s.events

freed_packets-masked :
    (packets : List (ℕ × ℕ)) (es : List Event)
    → interrupts_masked (freed_packets packets ++ es) ≡ interrupts_masked es
unfolding freed_packets
freed_packets-masked [] es = refl
freed_packets-masked ((ptr, size) ∷ packets) es = elim (Bool-cases (ptr == 0)) [
  | inl null ↦ rw null (freed_packets-masked packets es)
  | inr there ↦ rw there (freed_packets-masked packets es)
]

reset_process-masked :
    (p : Process) (es : List Event)
    → interrupts_masked ((reset_process p).1 ++ es) ≡ interrupts_masked es
unfolding reset_process
reset_process-masked p es =
    let page = freed_page (sub64 p.stack p.stack_size) p.stack_size in
    ap interrupts_masked (append_assoc (freed_packets p.packet_entries) (page ∷ []) es)
    ∙ freed_packets-masked p.packet_entries (page ∷ es)

-- The slot `i` with the process in it reset.
abbrev pub started_process : Sched → Process → Process
started_process s p = record (reset_process p).0 { id = s.next_proc_index; state = ready }

abbrev pub started_state : ℕ → Sched → Process → Sched
started_state i s p = record s {
  processes = set s.processes i (started_process s p);
  next_proc_index = u16 (s.next_proc_index + 1);
  proc_count = u16 (s.proc_count + 1);
  events = (reset_process p).1 ++ s.events;
}

start_in_lem :
    (i : ℕ) (s : Sched) (p : Process)
    → get_elem? s.processes i ≡ some p
    → start_in i s ≡ some (i, started_state i s p)
unfolding start_in
start_in_lem i s p there = rw there refl

chosen : (s : Sched) (i : ℕ) → slot_of s ≡ some i → init_process s ≡ as_started (start_in i s)
unfolding init_process
chosen s i slot = elim (Bool-cases (leb max_procs s.next_proc_index)) [
  | inl late ↦
      let found : find_stopped s.processes 0 ≡ some i = rw late at slot in rw (late, found) refl
  | inr early ↦
      let next : some s.next_proc_index ≡ some i = rw early at slot in
      rw early (ap (λ (j : ℕ). as_started (start_in j s)) (some-injective _ _ next))
]

pub init_process-StartedIn :
    (s : Sched) (i : ℕ) (p : Process)
    → slot_of s ≡ some i
    → get_elem? s.processes i ≡ some p
    → StartedIn s i (started_state i s p) (started_process s p)
unfolding reset_process
init_process-StartedIn s i p slot there = record {
  result = chosen s i slot ∙ ap as_started (start_in_lem i s p there);
  processes = refl;
  state = refl;
  pc = refl;
  id = refl;
  name = refl;
  proc_count = refl;
  next_proc_index = refl;
  masked = reset_process-masked p s.events;
}
