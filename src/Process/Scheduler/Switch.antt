-- ===== src/Process/Scheduler/Switch.antt =====
-- What `switch_proc` of kernel/process/scheduler.c chooses.
use ionutnechita_redacted_os.Base.{
  ℕ, zero, suc, ◌+◌, ◌%◌, ◌<◌, ◌≡◌, ◌≢◌, refl, ap, Bool, true, false, none, some, List, [], ◌∷◌,
  arith, length, ◌==◌, if◌then◌else◌, get_elem?, ◌∙◌,
}
use ionutnechita_redacted_os.Process.Scheduler.{
  Process, Sched, max_procs, emit, is_ready, timer_reset, switched, no_processes, spinning,
  find_ready, switch_proc,
}

-- Whether the process at index `i` is ready.
abbrev pub ready_at : List Process → ℕ → Bool
ready_at procs i = elim (get_elem? procs i) [ none ↦ false | some p ↦ is_ready p.state ]

find_ready_here :
    (fuel : ℕ) (procs : List Process) (next : ℕ)
    → ready_at procs next ≡ true
    → find_ready (suc fuel) procs next ≡ some next
unfolding find_ready
find_ready_here fuel procs next h = ground arith

find_ready_next :
    (fuel : ℕ) (procs : List Process) (next : ℕ) (p : Process)
    → get_elem? procs next ≡ some p
    → ready_at procs next ≡ false
    → find_ready (suc fuel) procs next ≡ find_ready fuel procs ((next + 1) % max_procs)
unfolding find_ready
find_ready_next fuel procs next p e h = ground arith

get_elem?_of_lt :
    {A : Type 0} → (xs : List A) (i : ℕ) → i < length xs → (x : A) × (get_elem? xs i ≡ some x)
get_elem?_of_lt [] i h = absurd (omega arith)
get_elem?_of_lt (x ∷ xs) zero h = (x, refl)
get_elem?_of_lt (x ∷ xs) (suc i) h = get_elem?_of_lt xs i (omega arith)

at_zero : (next : ℕ) → next < 16 → next ≡ (next + 0) % 16
at_zero next h = omega arith

from_next : (a k : ℕ) → (a % 16 + k) % 16 ≡ (a + k) % 16
from_next a k = omega arith

find_ready_at :
    (k fuel : ℕ) (procs : List Process) (next : ℕ)
    → k < fuel
    → length procs ≡ 16
    → next < 16
    → ready_at procs ((next + k) % 16) ≡ true
    → ((j : ℕ) → j < k → ready_at procs ((next + j) % 16) ≡ false)
    → find_ready fuel procs next ≡ some ((next + k) % 16)
find_ready_at k zero procs next lt len inb h before = absurd (omega arith)
find_ready_at zero (suc fuel) procs next lt len inb h before =
    find_ready_here fuel procs next (ap (ready_at procs) (at_zero next inb) ∙ h)
    ∙ ap some (omega arith)
find_ready_at (suc k) (suc fuel) procs next lt len inb h before =
    let (p, e) = get_elem?_of_lt procs next (omega arith) in
    find_ready_next fuel procs next p e
      (ap (ready_at procs) (at_zero next inb) ∙ before 0 (omega arith))
    ∙ find_ready_at k fuel procs ((next + 1) % 16) (omega arith) len (omega arith)
        (ap (ready_at procs) (omega arith) ∙ h)
        (λ j jk. ap (ready_at procs) (omega arith) ∙ before (suc j) (omega arith))
    ∙ ap some (omega arith)

-- In a table of 16 processes, with `proc_count` above 0, `switch_proc` goes to the first ready
-- process in the cyclic order that starts behind the current one.
pub switch_proc-first :
    (s : Sched) (k : ℕ)
    → length s.processes ≡ 16
    → s.proc_count ≢ 0
    → k < 16
    → ready_at s.processes ((s.current_proc + 1 + k) % 16) ≡ true
    → ((j : ℕ) → j < k → ready_at s.processes ((s.current_proc + 1 + j) % 16) ≡ false)
    → switch_proc s
      ≡ switched (emit timer_reset (record s { current_proc = (s.current_proc + 1 + k) % 16 }))
unfolding switch_proc
switch_proc-first s k len count lt h before = ground (
  arith,
  find_ready_at k 17 s.processes ((s.current_proc + 1) % 16) (omega arith) len (omega arith)
      (ap (ready_at s.processes) (omega arith) ∙ h)
      (λ j jk. ap (ready_at s.processes) (omega arith) ∙ before j jk),
  from_next (s.current_proc + 1) k,
)

find_ready_never :
    (fuel : ℕ) (procs : List Process) (next : ℕ)
    → length procs ≡ 16
    → next < 16
    → ((j : ℕ) → j < 16 → ready_at procs j ≡ false)
    → find_ready fuel procs next ≡ none
unfolding find_ready
find_ready_never zero procs next len inb h = refl
find_ready_never (suc fuel) procs next len inb h =
    let (p, e) = get_elem?_of_lt procs next (omega arith) in
    find_ready_next fuel procs next p e (h next inb)
    ∙ find_ready_never fuel procs ((next + 1) % 16) len (omega arith) h

-- With no ready process among the 16 the loop of `switch_proc` does not end, however long it
-- runs, and `switch_proc` itself spins unless `proc_count` is 0, where it panics.
pub switch_proc-spinning :
    (s : Sched)
    → length s.processes ≡ 16
    → ((j : ℕ) → j < 16 → ready_at s.processes j ≡ false)
    → ((fuel : ℕ) → find_ready fuel s.processes ((s.current_proc + 1) % 16) ≡ none)
      × (switch_proc s ≡ (if s.proc_count == 0 then no_processes else spinning))
unfolding switch_proc
switch_proc-spinning s len h = (
  (λ fuel. find_ready_never fuel s.processes ((s.current_proc + 1) % 16) len (omega arith) h),
  ground (arith, find_ready_never 17 s.processes ((s.current_proc + 1) % 16) len (omega arith) h),
)
