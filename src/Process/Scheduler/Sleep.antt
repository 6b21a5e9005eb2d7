-- ===== src/Process/Scheduler/Sleep.antt =====
-- What `wake_processes` of kernel/process/scheduler.c does to the table of sleepers.
use ionutnechita_redacted_os.Base.{
  ℕ, ◌+◌, ◌≤◌, ◌<◌, ◌≡◌, false, some, List, ◌∷◌, arith, set, u64, sub64, get_elem?,
}
use ionutnechita_redacted_os.Process.Scheduler.{
  ready, Process, SleepTracker, Sched, emit, virtual_timer, get_proc_by_pid, wake_loop,
  wake_processes,
}

-- The process of the first of two sleepers is due, and the second's is not. `wake_processes` makes the first
-- process ready and invalidates its tracker, but takes the last place out of the count, so that
-- the second sleeper is behind the trackers that later calls read. The timer is set to what `now`
-- is ahead of the second's wake time, modulo 2 ^ 64.
pub wake_processes-overlooks :
    (s : Sched) (now k : ℕ) (t₁ t₂ : SleepTracker) (rest : List SleepTracker) (p : Process)
    → s.sleeping ≡ t₁ ∷ t₂ ∷ rest
    → s.sleep_count ≡ 2
    → u64 (t₁.timestamp + t₁.sleep_time) ≤ now
    → now < u64 (t₂.timestamp + t₂.sleep_time)
    → get_proc_by_pid t₁.pid s ≡ some k
    → get_elem? s.processes k ≡ some p
    → wake_processes now s
      ≡ some (
          emit (virtual_timer (sub64 now (u64 (t₂.timestamp + t₂.sleep_time)))) (record s {
            processes = set s.processes k (record p { state = ready });
            sleeping = record t₁ { valid = false } ∷ t₂ ∷ rest;
            sleep_count = 1;
          }))
unfolding wake_processes wake_loop
wake_processes-overlooks s now k t₁ t₂ rest p sl c due later who which = ground arith
