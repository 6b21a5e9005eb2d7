-- ===== src/Process/Scheduler.antt =====
-- kernel/process/scheduler.c. The table is a list of 16 processes, a `process_t*` is an index of
-- it, and the outcome `none` is an access through NULL or outside an array. Saving and restoring
-- registers is assembly code, and is left out. What the page allocator answers is a parameter;
-- what is given back to it, and the settings of the timer, are events.
pub mod Switch
pub mod Sleep
pub mod Start
pub mod Buffer
mod Tests
use ionutnechita_redacted_os.Base.{
  ℕ, zero, suc, ◌+◌, ◌-◌, ◌*◌, ◌/◌, ◌%◌, ◌^◌, ◌≤◌, ◌<◌, ◌≡◌, ◌≢◌, ◌↔◌, refl, ap, Bool, true, false,
  Option, none, some, List, [], ◌∷◌, ◌++◌, arith, length, length-set, get_or, set,
  get_elem?-eq-get_or, ◌⊎◌, inl, inr, ◌==◌, ltb, leb, if◌then◌else◌, u64, u32, sub64, sub32,
  bswap16, bswap32, u8, u16, Bool-cases, store?, store?-eq-set, get_elem?, ◌>>=◌, ◌∙◌, sym, ap₂,
  min, max, ◌&&◌, ◌||◌, not, take, drop, replicate, length-append, length-replicate, append-nil,
  append_assoc, ◌>>>◌, bit_or, bit_and, bit_xor, ltb→lt, lt→ltb, le→ltb_false,
}

pub data ProcState : Type 0 where
  stopped ready running blocked : ProcState

pub record KeyPress : Type 0 where
  pub modifier : ℕ
  pub rsvd : ℕ
  pub keys : List ℕ

abbrev pub no_keypress : KeyPress
no_keypress = record { modifier = 0; rsvd = 0; keys = replicate 6 0 }

pub record Process : Type 0 where
  pub regs : List ℕ
  pub sp : ℕ
  pub pc : ℕ
  pub spsr : ℕ
  pub id : ℕ
  pub stack : ℕ
  pub stack_size : ℕ
  pub heap : ℕ
  pub focused : Bool
  pub state : ProcState
  pub input_read_index : ℕ
  pub input_write_index : ℕ
  pub input_entries : List KeyPress
  pub packet_read_index : ℕ
  pub packet_write_index : ℕ
  pub packet_entries : List (ℕ × ℕ)
  pub name : List ℕ

pub record SleepTracker : Type 0 where
  pub pid : ℕ
  pub timestamp : ℕ
  pub sleep_time : ℕ
  pub valid : Bool

pub data Event : Type 0 where
  freed_page : ℕ → ℕ → Event
  freed_block : ℕ → ℕ → Event
  interrupts_disabled : Event
  interrupts_enabled : Event
  focus_unset : Event
  timer_reset : Event
  virtual_timer : ℕ → Event

pub record Sched : Type 0 where
  pub processes : List Process
  pub current_proc : ℕ
  pub proc_count : ℕ
  pub next_proc_index : ℕ
  pub sleeping : List SleepTracker
  pub sleep_count : ℕ
  pub ksp : ℕ
  pub events : List Event

abbrev pub max_procs : ℕ
max_procs = 16

abbrev pub emit : Event → Sched → Sched
emit e s = record s { events = e ∷ s.events }

abbrev pub is_ready : ProcState → Bool
is_ready ready = true
is_ready _ = false

abbrev pub is_stopped : ProcState → Bool
is_stopped stopped = true
is_stopped _ = false

-- How `switch_proc` ends: with a process to restore, in a panic, in a fault, or, without one that
-- is ready, not at all.
pub data Switched : Type 0 where
  switched : Sched → Switched
  no_processes : Switched
  faulted : Switched
  spinning : Switched

-- `while (processes[next_proc].state != READY)` on fuel.
pub find_ready : ℕ → List Process → ℕ → Option ℕ
find_ready zero procs next = none
find_ready (suc fuel) procs next = get_elem? procs next >>= λ p. elim (is_ready p.state) [
  | true ↦ some next
  | false ↦ find_ready fuel procs ((next + 1) % max_procs)
]

-- The rounds given suffice whenever any process is ready.
pub switch_proc : Sched → Switched
switch_proc s =
    if s.proc_count == 0
    then no_processes
    else (elim (find_ready 17 s.processes ((s.current_proc + 1) % max_procs)) [
      | none ↦ spinning
      | some next ↦ switched (emit timer_reset (record s { current_proc = next }))
    ])

pub start_scheduler : Sched → Switched
unfolding switch_proc
start_scheduler s = switch_proc (emit interrupts_disabled s)

pub save_syscall_return : ℕ → Sched → Option Sched
save_syscall_return value s = do
  p ← get_elem? s.processes s.current_proc
  regs ← store? p.regs 14 value
  some (record s { processes = set s.processes s.current_proc (record p { regs = regs }) })

unfoldable pub get_current_heap : Sched → Option ℕ
get_current_heap s = do p ← get_elem? s.processes s.current_proc; some p.heap

unfoldable pub get_current_privilege : Sched → Option Bool
get_current_privilege s = do
  p ← get_elem? s.processes s.current_proc
  some (not (bit_and p.spsr 0xf == 0))

unfoldable pub get_current_proc_pid : Sched → Option ℕ
get_current_proc_pid s = do p ← get_elem? s.processes s.current_proc; some p.id

-- The first process with the id, from index `i` on; `none` is NULL.
pub find_pid : List Process → ℕ → ℕ → Option ℕ
find_pid [] pid i = none
find_pid (p ∷ ps) pid i = if p.id == pid then some i else find_pid ps pid (i + 1)

unfoldable pub get_proc_by_pid : ℕ → Sched → Option ℕ
unfolding find_pid
get_proc_by_pid pid s = find_pid s.processes pid 0

-- The packets that `reset_process` gives back.
pub freed_packets : List (ℕ × ℕ) → List Event
freed_packets [] = []
freed_packets ((ptr, size) ∷ es) =
    if ptr == 0 then freed_packets es else freed_block ptr size ∷ freed_packets es

pub reset_process : Process → Process × List Event
unfolding freed_packets
reset_process p = (
  record p {
    sp = 0;
    pc = 0;
    spsr = 0;
    regs = replicate 31 0;
    name = replicate 256 0;
    input_read_index = 0;
    input_write_index = 0;
    input_entries = replicate 64 no_keypress;
    packet_read_index = 0;
    packet_write_index = 0;
    packet_entries = replicate 128 (0, 0);
  },
  freed_packets p.packet_entries ++ freed_page (sub64 p.stack p.stack_size) p.stack_size ∷ [],
)

-- The first `MAX_PROC_NAME_LENGTH` bytes of the name, up to its NUL, over the bytes of `name`.
unfoldable pub copy_name : ℕ → List ℕ → List ℕ → Option (List ℕ)
copy_name zero src dst = some dst
copy_name (suc n) [] dst = none
copy_name (suc n) (c ∷ src) [] = none
copy_name (suc n) (c ∷ src) (d ∷ dst) =
    if c == 0 then some (d ∷ dst) else (copy_name n src dst >>= λ dst'. some (c ∷ dst'))

unfoldable pub name_process : List ℕ → Process → Option Process
unfolding copy_name
name_process name p = do n ← copy_name 256 name p.name; some (record p { name = n })

abbrev kernel_name : List ℕ
kernel_name = b'k' ∷ b'e' ∷ b'r' ∷ b'n' ∷ b'e' ∷ b'l' ∷ 0 ∷ []

-- `heap` and `stack` are the answers of the two calls of `palloc`.
pub init_main_process : ℕ → ℕ → Sched → Option Sched
unfolding reset_process name_process
init_main_process heap stack s = do
  p ← get_elem? s.processes 0
  let (q, freed) = reset_process p
  named ← name_process kernel_name (record q {
    id = s.next_proc_index;
    state = blocked;
    heap = heap;
    stack_size = 0x1000;
    stack = stack;
    sp = u64 (stack + 0x1000);
  })
  some (record s {
    processes = set s.processes 0 named;
    next_proc_index = u16 (s.next_proc_index + 1);
    proc_count = u16 (s.proc_count + 1);
    ksp = u64 (stack + 0x1000);
    events = freed ++ s.events;
  })

-- The first stopped process, from index `i` on.
pub find_stopped : List Process → ℕ → Option ℕ
find_stopped [] i = none
find_stopped (p ∷ ps) i = if is_stopped p.state then some i else find_stopped ps (i + 1)

-- What both branches of `init_process` do with the slot they have chosen.
pub start_in : ℕ → Sched → Option (ℕ × Sched)
unfolding reset_process
start_in i s = do
  p ← get_elem? s.processes i
  let (q, freed) = reset_process p
  some (
    i,
    record s {
      processes = set s.processes i (record q { id = s.next_proc_index; state = ready });
      next_proc_index = u16 (s.next_proc_index + 1);
      proc_count = u16 (s.proc_count + 1);
      events = freed ++ s.events;
    },
  )

pub data Started : Type 0 where
  started : ℕ → Sched → Started
  out_of_process_memory : Started
  start_faulted : Started

abbrev pub as_started : Option (ℕ × Sched) → Started
as_started none = start_faulted
as_started (some (i, s)) = started i s

unfoldable pub init_process : Sched → Started
unfolding start_in
init_process s =
    if leb max_procs s.next_proc_index
    then (elim (find_stopped s.processes 0) [
      | none ↦ out_of_process_memory
      | some i ↦ as_started (start_in i s)
    ])
    else as_started (start_in s.next_proc_index s)

-- A process that is not ready is left alone, with the interrupts disabled: `returned_early`.
pub data Stopped : Type 0 where
  returned_early : Sched → Stopped
  went_on : Switched → Stopped
  stop_faulted : Stopped

pub stop_process : ℕ → Sched → Stopped
unfolding get_proc_by_pid switch_proc
stop_process pid s =
    let s = emit interrupts_disabled s in
    elim (get_proc_by_pid pid s) [
      | none ↦ stop_faulted
      | some i ↦ elim (get_elem? s.processes i) [
        | none ↦ stop_faulted
        | some p ↦
            if not (is_ready p.state)
            then returned_early s
            else (let s' = record s {
              processes = set s.processes i (record p { state = stopped });
              proc_count = (s.proc_count + 2 ^ 16 - 1) % 2 ^ 16;
            } in
                went_on (switch_proc (if p.focused then emit focus_unset s' else s')))
      ]
    ]

pub stop_current_process : Sched → Stopped
unfolding stop_process
stop_current_process s = elim (get_elem? s.processes s.current_proc) [
  | none ↦ stop_faulted
  | some p ↦ stop_process p.id (emit interrupts_disabled s)
]

-- `now` is `timer_now_msec()`, and `remaining` is `virtual_timer_remaining_msec()`.
pub sleep_process : ℕ → ℕ → ℕ → Sched → Switched
unfolding switch_proc
sleep_process now remaining msec s = elim (get_elem? s.processes s.current_proc) [
  | none ↦ faulted
  | some p ↦
      let s₁ =
        (if ltb s.sleep_count max_procs
          then record s {
            processes = set s.processes s.current_proc (record p { state = blocked });
            sleeping =
                set s.sleeping s.sleep_count
                  (record { pid = p.id; timestamp = now; sleep_time = msec; valid = true });
            sleep_count = u16 (s.sleep_count + 1);
          }
          else s) in
      let s₂ =
        (if ltb msec remaining || remaining == 0 then emit (virtual_timer msec) s₁ else s₁) in
      switch_proc s₂
]

-- The loop of `wake_processes` over the trackers from `i` on, `left` before `sleep_count`. The
-- state, then `removed` and `new_wake_time`. `now` is the same at every call of the timer.
pub wake_loop : ℕ → ℕ → ℕ → ℕ → ℕ → Sched → Option (Sched × ℕ × ℕ)
unfolding get_proc_by_pid
wake_loop now zero i removed new_wake s = some (s, removed, new_wake)
wake_loop now (suc left) i removed new_wake s = get_elem? s.sleeping i >>= λ t.
    let wake_time = u64 (t.timestamp + t.sleep_time) in
    elim (leb wake_time now) [
      | true ↦ get_proc_by_pid t.pid s >>= λ k. get_elem? s.processes k >>= λ p.
          wake_loop now left (i + 1) (removed + 1) new_wake (record s {
            processes = set s.processes k (record p { state = ready });
            sleeping = set s.sleeping i (record t { valid = false });
          })
      | false ↦
          wake_loop now left (i + 1) removed
            (if new_wake == 0 || ltb wake_time new_wake then wake_time else new_wake) s
    ]

pub wake_processes : ℕ → Sched → Option Sched
unfolding wake_loop
wake_processes now s = wake_loop now s.sleep_count 0 0 0 s >>= λ (s', removed, new_wake). some (
    emit (virtual_timer (sub64 now new_wake))
      (record s' { sleep_count = (s'.sleep_count + 2 ^ 16 - removed) % 2 ^ 16 }))
