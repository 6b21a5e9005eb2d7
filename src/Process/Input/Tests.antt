-- ===== src/Process/Input/Tests.antt =====
-- Runs of kernel/input/input_dispatch.cpp on two processes and two shortcuts.
use ionutnechita_redacted_os.Base.{
  ℕ, zero, suc, ◌+◌, ◌<◌, ◌≡◌, ◌≢◌, refl, Bool, true, false, Option, none, some, List, [], ◌∷◌,
  ◌++◌, arith, inr, get_elem?, ◌>>=◌, replicate,
}
use ionutnechita_redacted_os.Process.Scheduler.{
  ready, KeyPress, no_keypress, Process, get_proc_by_pid, get_current_proc_pid,
}
use ionutnechita_redacted_os.Process.Scheduler.Buffer.{wrap}
use ionutnechita_redacted_os.Process.Input.{
  Input, triggers, is_new_keypress, find_shortcut, register_keypress, after_shortcuts, read_key,
  key_taken, sys_read_input, sys_read_input_current, answered, sys_shortcut_triggered,
  sys_shortcut_triggered_current, sys_subscribe_shortcut_current, sys_focus_current, sys_set_focus,
  sys_unset_focus, sys_set_secure,
}
use ionutnechita_redacted_os.Process.Input.Keys.{
  Waiting, register_keypress-Waiting, sys_read_input-Waiting,
}
use ionutnechita_redacted_os.Process.Input.Shortcuts.{
  Passes, register_keypress-sys_shortcut_triggered,
}

abbrev key : ℕ → KeyPress
key k = record { modifier = 0; rsvd = 0; keys = k ∷ replicate 5 0 }

abbrev process : ℕ → ℕ → ℕ → List KeyPress → Process
process id r w es = record {
  regs = [];
  sp = 0;
  pc = 0;
  spsr = 0;
  id = id;
  stack = 0;
  stack_size = 0;
  heap = 0;
  focused = false;
  state = ready;
  input_read_index = r;
  input_write_index = w;
  input_entries = es;
  packet_read_index = 0;
  packet_write_index = 0;
  packet_entries = [];
  name = [];
}

-- One key waits, at the end of the array.
abbrev first : Process
first = process 7 63 0 (replicate 63 no_keypress ++ key 4 ∷ [])

abbrev input : Input
input = record {
  sched = record {
    processes = first ∷ process 8 0 0 (replicate 64 no_keypress) ∷ [];
    current_proc = 0;
    proc_count = 2;
    next_proc_index = 2;
    sleeping = [];
    sleep_count = 0;
    ksp = 0;
    events = [];
  };
  focused_proc = some 0;
  shortcuts =
      record { kp = key 9; pid = 8; triggered = false }
      ∷ record { kp = key 5; pid = 7; triggered = false }
      ∷ [];
  shortcut_count = 2;
  secure_mode = false;
}

waiting :
    (k : ℕ) → k < 1 → get_elem? (key 4 ∷ []) k ≡ get_elem? first.input_entries (wrap 64 (63 + k))
waiting zero h = refl
waiting (suc k) h = absurd (omega arith)

first-Waiting : Waiting first (key 4 ∷ [])
first-Waiting = record {
  read_below = omega arith;
  write_below = omega arith;
  entries_length = refl;
  held_length = inr refl;
  held_below = omega arith;
  held = λ k h. waiting k h;
}

unheard_test : find_shortcut 2 0 input.shortcuts (key 6) ≡ some none
unfolding find_shortcut is_new_keypress
unheard_test = refl

register_keypress-Waiting_example :
    (s' : Input) × (p' : Process) × (register_keypress (key 6) input ≡ some s')
    × (get_elem? s'.sched.processes 0 ≡ some p')
    × Waiting p' (key 4 ∷ key 6 ∷ [])
    × ((j : ℕ) → j ≢ 0 → get_elem? s'.sched.processes j ≡ get_elem? input.sched.processes j)
register_keypress-Waiting_example =
    register_keypress-Waiting (key 6) input 0 first (key 4 ∷ []) (inr unheard_test) refl refl
      first-Waiting

found_test : get_proc_by_pid 7 input.sched ≡ some 0
unfolding get_proc_by_pid
found_test = refl

sys_read_input-Waiting_example :
    (key 4 ∷ [] ≡ [] → sys_read_input 7 input ≡ some (none, input))
    × ((kp : KeyPress) (rest : List KeyPress)
        → key 4 ∷ [] ≡ kp ∷ rest
        → (s' : Input) × (p' : Process) × (sys_read_input 7 input ≡ some (some kp, s'))
          × (get_elem? s'.sched.processes 0 ≡ some p')
          × Waiting p' rest)
sys_read_input-Waiting_example =
    sys_read_input-Waiting 7 0 input first (key 4 ∷ []) found_test refl first-Waiting

hit_test : triggers (record { kp = key 5; pid = 7; triggered = false }) (key 5) ≡ true
unfolding is_new_keypress
hit_test = refl

miss_test : triggers (record { kp = key 9; pid = 8; triggered = false }) (key 5) ≡ false
unfolding is_new_keypress
miss_test = refl

miss_before : (j : ℕ) → j < 1 → Passes input.shortcuts (key 5) j
miss_before zero h = (record { kp = key 9; pid = 8; triggered = false }, refl, miss_test)
miss_before (suc j) h = absurd (omega arith)

register_keypress-sys_shortcut_triggered_example :
    (s' s'' : Input) × (register_keypress (key 5) input ≡ some s')
    × (s'.sched ≡ input.sched)
    × (sys_shortcut_triggered 7 1 s' ≡ some (true, s''))
    × (sys_shortcut_triggered 7 1 s'' ≡ some (false, s''))
    × ((pid : ℕ) → 7 ≢ pid → sys_shortcut_triggered pid 1 s' ≡ some (false, s'))
register_keypress-sys_shortcut_triggered_example =
    register_keypress-sys_shortcut_triggered (key 5) input 1
      (record { kp = key 5; pid = 7; triggered = false }) refl (omega arith) refl hit_test
      miss_before

abbrev flags : List Process → List Bool
flags [] = []
flags (p ∷ ps) = p.focused ∷ flags ps

abbrev focused_flags : Option Input → List Bool
focused_flags none = []
focused_flags (some s) = flags s.sched.processes

-- The process that loses the focus to another keeps its flag.
focus_test : focused_flags (sys_focus_current input >>= λ s. sys_set_focus 8 s) ≡ true ∷ true ∷ []
unfolding sys_focus_current
focus_test = refl

count_of : Option (ℕ × Input) → List ℕ
count_of none = []
count_of (some (sid, s)) = sid ∷ s.shortcut_count ∷ []

-- A third shortcut, in an array of two.
subscribe_test : count_of (sys_subscribe_shortcut_current (key 1) input) ≡ []
unfolding sys_subscribe_shortcut_current count_of get_current_proc_pid
subscribe_test = refl

read_test : (sys_read_input_current input >>= λ (kp, s). kp) ≡ some (key 4)
unfolding sys_read_input_current read_key key_taken get_proc_by_pid
read_test = refl

triggered_test :
    (register_keypress (key 5) input >>= λ s.
    sys_shortcut_triggered_current 1 s >>= λ (b, t). some b)
    ≡ some true
unfolding register_keypress after_shortcuts find_shortcut is_new_keypress
    sys_shortcut_triggered_current answered
triggered_test = refl

unset_test : focused_flags (sys_unset_focus (sys_set_secure true input)) ≡ false ∷ false ∷ []
unfolding sys_unset_focus sys_set_secure
unset_test = refl
