-- ===== src/Process/Input.antt =====
-- kernel/input/input_dispatch.cpp: shortcuts, the focus, and the keys of a process. The processes
-- are those of Process/Scheduler.antt, and a `process_t*` is an index of their table. The outcome
-- `none` is an access through NULL or outside an array. An `int` is a 32-bit word. The drivers, and
-- `input_init`, which starts one, are left out.
pub mod Keys
pub mod Shortcuts
mod Tests
use ionutnechita_redacted_os.Base.{
  ℕ, zero, suc, ◌+◌, ◌-◌, ◌*◌, ◌/◌, ◌%◌, ◌^◌, ◌≤◌, ◌<◌, ◌≡◌, ◌≢◌, ◌↔◌, refl, ap, Bool, true, false,
  Option, none, some, List, [], ◌∷◌, ◌++◌, arith, length, length-set, get_or, set,
  get_elem?-eq-get_or, ◌⊎◌, inl, inr, ◌==◌, ltb, leb, if◌then◌else◌, u64, u32, sub64, sub32,
  bswap16, bswap32, u8, u16, Bool-cases, store?, store?-eq-set, get_elem?, ◌>>=◌, ◌∙◌, sym, ap₂,
  min, max, ◌&&◌, ◌||◌, not, take, drop, replicate, length-append, length-replicate, append-nil,
  append_assoc, ◌>>>◌, bit_or, bit_and, bit_xor, ltb→lt, lt→ltb, le→ltb_false,
}
use ionutnechita_redacted_os.Process.Scheduler.{
  KeyPress, Process, Sched, get_proc_by_pid, get_current_proc_pid,
}

pub record Shortcut : Type 0 where
  pub kp : KeyPress
  pub pid : ℕ
  pub triggered : Bool

pub record Input : Type 0 where
  pub sched : Sched
  pub focused_proc : Option ℕ
  pub shortcuts : List Shortcut
  pub shortcut_count : ℕ
  pub secure_mode : Bool

-- Whether one of the first `n` keys differs.
keys_differ : ℕ → List ℕ → List ℕ → Bool
keys_differ (suc n) (k ∷ ks) (l ∷ ls) = if not (k == l) then true else keys_differ n ks ls
keys_differ _ _ _ = false

pub is_new_keypress : KeyPress → KeyPress → Bool
unfolding keys_differ
is_new_keypress current previous =
    if not (current.modifier == previous.modifier)
    then true
    else keys_differ 6 current.keys previous.keys

-- Whether the key triggers the shortcut. `-1` is no process.
abbrev pub triggers : Shortcut → KeyPress → Bool
triggers c kp = not (c.pid == 2 ^ 32 - 1) && not (is_new_keypress c.kp kp)

-- The first of the shortcuts from `i` on, `left` before `shortcut_count`, that the key triggers.
pub find_shortcut : ℕ → ℕ → List Shortcut → KeyPress → Option (Option ℕ)
find_shortcut zero i cuts kp = some none
find_shortcut (suc left) i cuts kp = get_elem? cuts i >>= λ c. elim (triggers c kp) [
  | true ↦ some (some i)
  | false ↦ find_shortcut left (i + 1) cuts kp
]

-- The key at the end of the ring of a process.
abbrev pub key_written : KeyPress → Process → Process
key_written kp p =
    let next_index = (p.input_write_index + 1) % 64 in
    record p {
      input_entries = set p.input_entries p.input_write_index kp;
      input_write_index = next_index;
      input_read_index =
          if next_index == p.input_read_index
          then (p.input_read_index + 1) % 64
          else p.input_read_index;
    }

-- The key for the process that has the focus.
pub buffer_keypress : KeyPress → Input → Option Input
buffer_keypress kp s = elim s.focused_proc [
  | none ↦ some s
  | some i ↦ get_elem? s.sched.processes i >>= λ p. some (record s {
    sched = record s.sched { processes = set s.sched.processes i (key_written kp p) };
  })
]

abbrev pub set_triggered : ℕ → Bool → Input → Option Input
set_triggered i b s = get_elem? s.shortcuts i >>= λ c.
    some (record s { shortcuts = set s.shortcuts i (record c { triggered = b }) })

-- What follows the loop over the shortcuts.
pub after_shortcuts : KeyPress → Input → Option (Option ℕ) → Option Input
after_shortcuts kp s none = none
after_shortcuts kp s (some none) = buffer_keypress kp s
after_shortcuts kp s (some (some i)) = set_triggered i true s

pub register_keypress : KeyPress → Input → Option Input
register_keypress kp s =
    if not s.secure_mode
    then after_shortcuts kp s (find_shortcut s.shortcut_count 0 s.shortcuts kp)
    else buffer_keypress kp s

pub sys_subscribe_shortcut : ℕ → KeyPress → Input → Option (ℕ × Input)
sys_subscribe_shortcut pid kp s = do
  cuts ← store? s.shortcuts s.shortcut_count (record { kp = kp; pid = pid; triggered = false })
  some
      (s.shortcut_count, record s { shortcuts = cuts; shortcut_count = u16 (s.shortcut_count + 1) })

pub sys_subscribe_shortcut_current : KeyPress → Input → Option (ℕ × Input)
unfolding sys_subscribe_shortcut
sys_subscribe_shortcut_current kp s = do
  pid ← get_current_proc_pid s.sched
  sys_subscribe_shortcut pid kp s

abbrev set_focused : ℕ → Bool → Sched → Option Sched
set_focused i b s = get_elem? s.processes i >>= λ p.
    some (record s { processes = set s.processes i (record p { focused = b }) })

pub sys_set_focus : ℕ → Input → Option Input
unfolding get_proc_by_pid
sys_set_focus pid s = do
  i ← get_proc_by_pid pid s.sched
  sched ← set_focused i true s.sched
  some (record s { sched = sched; focused_proc = some i })

pub sys_focus_current : Input → Option Input
unfolding sys_set_focus get_current_proc_pid
sys_focus_current s = do pid ← get_current_proc_pid s.sched; sys_set_focus pid s

pub sys_unset_focus : Input → Option Input
sys_unset_focus s = do
  i ← s.focused_proc
  sched ← set_focused i false s.sched
  some (record s { sched = sched; focused_proc = none })

pub sys_set_secure : Bool → Input → Input
sys_set_secure secure s = record s { secure_mode = secure }

-- The oldest key of a process, if it has one.
pub read_key : Process → Option (Option (KeyPress × Process))
read_key p =
    if p.input_read_index == p.input_write_index
    then some none
    else (get_elem? p.input_entries p.input_read_index >>= λ kp.
        some (some (kp, record p { input_read_index = (p.input_read_index + 1) % 64 })))

-- The key stands for what is written to `out`, and its absence for the answer `false`.
pub key_taken : ℕ → Input → Option (Option (KeyPress × Process)) → Option (Option KeyPress × Input)
key_taken i s none = none
key_taken i s (some none) = some (none, s)
key_taken i s (some (some (kp, p))) =
    some (some kp, record s { sched = record s.sched { processes = set s.sched.processes i p } })

pub sys_read_input : ℕ → Input → Option (Option KeyPress × Input)
sys_read_input pid s = do
  i ← get_proc_by_pid pid s.sched
  p ← get_elem? s.sched.processes i
  key_taken i s (read_key p)

pub sys_read_input_current : Input → Option (Option KeyPress × Input)
unfolding sys_read_input get_current_proc_pid
sys_read_input_current s = do pid ← get_current_proc_pid s.sched; sys_read_input pid s

-- The two answers of `sys_shortcut_triggered`.
pub answered : ℕ → Input → Bool → Option (Bool × Input)
answered sid s true = set_triggered sid false s >>= λ s'. some (true, s')
answered sid s false = some (false, s)

pub sys_shortcut_triggered : ℕ → ℕ → Input → Option (Bool × Input)
sys_shortcut_triggered pid sid s = do
  c ← get_elem? s.shortcuts sid
  answered sid s (c.pid == pid && c.triggered)

pub sys_shortcut_triggered_current : ℕ → Input → Option (Bool × Input)
unfolding sys_shortcut_triggered get_current_proc_pid
sys_shortcut_triggered_current sid s = do
  pid ← get_current_proc_pid s.sched
  sys_shortcut_triggered pid sid s
