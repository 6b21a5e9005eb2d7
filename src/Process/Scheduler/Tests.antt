-- ===== src/Process/Scheduler/Tests.antt =====
-- The scheduler of kernel/process/scheduler.c on concrete tables.
use ionutnechita_redacted_os.Base.{
  ℕ, ◌+◌, ◌-◌, ◌%◌, ◌^◌, ◌<◌, ◌≡◌, refl, true, false, Option, none, some, [], ◌∷◌, arith, set,
  replicate,
}
use ionutnechita_redacted_os.Process.Scheduler.{
  ProcState, stopped, ready, blocked, Process, SleepTracker, Sched, emit, timer_reset,
  virtual_timer, Switched, switched, spinning, find_ready, switch_proc, start_scheduler,
  save_syscall_return, get_current_heap, get_current_privilege, get_current_proc_pid,
  get_proc_by_pid, init_main_process, Started, init_process, stop_process, stop_current_process,
  Stopped, sleep_process, wake_processes,
}
use ionutnechita_redacted_os.Process.Scheduler.Switch.{
  ready_at, switch_proc-first, switch_proc-spinning,
}
use ionutnechita_redacted_os.Process.Scheduler.Sleep.{wake_processes-overlooks}

abbrev process : ℕ → ProcState → Process
process id state = record {
  regs = replicate 31 0;
  sp = 0;
  pc = 0;
  spsr = 0;
  id = id;
  stack = 0x2000;
  stack_size = 0x1000;
  heap = 0x3000;
  focused = false;
  state = state;
  input_read_index = 0;
  input_write_index = 0;
  input_entries = [];
  packet_read_index = 0;
  packet_write_index = 0;
  packet_entries = [];
  name = replicate 256 0;
}

abbrev tracker : ℕ → ℕ → SleepTracker
tracker pid sleep_time = record {
  pid = pid;
  timestamp = 1000;
  sleep_time = sleep_time;
  valid = true;
}

-- Three processes, of which the last two are asleep, in a table of 16.
abbrev sched : ProcState → Sched
sched first = record {
  processes =
      process 1 first ∷ process 2 blocked ∷ process 3 blocked ∷ replicate 13 (process 0 stopped);
  current_proc = 1;
  proc_count = 3;
  next_proc_index = 4;
  sleeping = tracker 2 50 ∷ tracker 3 500 ∷ replicate 14 (tracker 0 0);
  sleep_count = 2;
  ksp = 0;
  events = [];
}

none_before : (j : ℕ) → j < 14 → ready_at (sched ready).processes ((1 + 1 + j) % 16) ≡ false
none_before j h = ground arith

switch_proc-first_example :
    switch_proc (sched ready)
    ≡ switched (emit timer_reset (record (sched ready) { current_proc = 0 }))
switch_proc-first_example =
    switch_proc-first (sched ready) 14 refl (λ e. absurd (omega arith)) (omega arith) refl
      none_before

none_ready : (j : ℕ) → j < 16 → ready_at (sched blocked).processes j ≡ false
none_ready j h = ground arith

switch_proc-spinning_test :
    ((fuel : ℕ) → find_ready fuel (sched blocked).processes 2 ≡ none)
    × (switch_proc (sched blocked) ≡ spinning)
switch_proc-spinning_test = switch_proc-spinning (sched blocked) refl none_ready

found : get_proc_by_pid 2 (sched ready) ≡ some 1
unfolding get_proc_by_pid
found = refl

wake_processes-overlooks_example :
    wake_processes 1100 (sched ready)
    ≡ some (
        emit (virtual_timer (2 ^ 64 - 400)) (record (sched ready) {
          processes = set (sched ready).processes 1 (process 2 ready);
          sleeping =
              record (tracker 2 50) { valid = false } ∷ tracker 3 500 ∷ replicate 14 (tracker 0 0);
          sleep_count = 1;
        }))
wake_processes-overlooks_example =
    wake_processes-overlooks (sched ready) 1100 1 (tracker 2 50) (tracker 3 500)
      (replicate 14 (tracker 0 0)) (process 2 blocked) refl refl (omega arith) (omega arith) found
      refl

abbrev count_of : Started → ℕ
count_of (Started.started i s) = s.proc_count
count_of _ = 0

abbrev main_count : Option Sched → ℕ
main_count none = 0
main_count (some s) = s.proc_count

abbrev count_after : Stopped → ℕ
count_after (Stopped.went_on (switched s)) = s.proc_count
count_after _ = 0

operations_test :
    (count_of (init_process (sched ready)) ≡ 4)
    × (main_count (init_main_process 0x8000 0x9000 (sched ready)) ≡ 4)
    × (count_after (stop_process 1 (sched ready)) ≡ 0)
    × (count_after (stop_current_process (sched ready)) ≡ 0)
    × (get_current_heap (sched ready) ≡ some 0x3000)
    × (get_current_privilege (sched ready) ≡ some false)
    × (get_current_proc_pid (sched ready) ≡ some 2)
unfolding init_process init_main_process stop_process stop_current_process get_current_heap
    get_current_privilege get_current_proc_pid find_ready
operations_test = (refl, refl, refl, refl, refl, refl, refl)

abbrev where_to : Switched → ℕ
where_to (switched s) = s.current_proc
where_to _ = 99

switches_test :
    (where_to (start_scheduler (sched ready)) ≡ 0)
    × (where_to (sleep_process 1000 0 20 (sched ready)) ≡ 0)
    × (main_count (save_syscall_return 7 (sched ready)) ≡ 3)
unfolding start_scheduler sleep_process save_syscall_return find_ready
switches_test = (refl, refl, refl)
