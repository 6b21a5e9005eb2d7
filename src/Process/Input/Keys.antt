-- ===== src/Process/Input/Keys.antt =====
-- The keys of a process in kernel/input/input_dispatch.cpp.
use ionutnechita_redacted_os.Base.{
  ℕ, ◌+◌, ◌%◌, ◌<◌, ◌≡◌, ◌≢◌, refl, ap, Bool, true, none, some, List, [], ◌∷◌, arith, set, ◌⊎◌, inl,
  inr, if◌then◌else◌, Bool-cases, get_elem?, ◌∙◌, sym, not,
}
use mathlib.Core.Path.{subst}
use ionutnechita_redacted_os.Process.Scheduler.{KeyPress, Process, get_proc_by_pid}
use ionutnechita_redacted_os.Process.Scheduler.Start.{get_elem?-set}
use ionutnechita_redacted_os.Process.Scheduler.Buffer.{
  Buffered, wrap, push_overwriting, Buffered-push_overwriting, Buffered-pop, Buffered-empty,
  Buffered-oldest, get_elem?-set_ne,
}
use ionutnechita_redacted_os.Process.Input.{
  Input, find_shortcut, buffer_keypress, register_keypress, key_written, read_key, key_taken,
  after_shortcuts, sys_read_input,
}

-- The keys that wait in the ring of a process, the oldest first.
abbrev pub Waiting : Process → List KeyPress → Type 0
Waiting p q = Buffered 64 p.input_entries p.input_read_index p.input_write_index q

next_lem : (i : ℕ) → i < 64 → (i + 1) % 64 ≡ wrap 64 (i + 1)
next_lem i h = ground arith

key_written-Waiting :
    (kp : KeyPress) (p : Process) (q : List KeyPress)
    → Waiting p q
    → Waiting (key_written kp p) (push_overwriting 64 kp q)
key_written-Waiting kp p q b =
    let r = p.input_read_index in
    let w = p.input_write_index in
    rw (next_lem r b.read_below, next_lem w b.write_below)
      (Buffered-push_overwriting 64 p.input_entries r w q kp (omega arith) b)

unheard :
    (kp : KeyPress) (s : Input)
    → (s.secure_mode ≡ true) ⊎ (find_shortcut s.shortcut_count 0 s.shortcuts kp ≡ some none)
    → register_keypress kp s ≡ buffer_keypress kp s
unfolding register_keypress after_shortcuts
unheard kp s (inl secure) = rw secure refl
unheard kp s (inr no_hit) = elim (Bool-cases s.secure_mode) [
  | inl secure ↦ rw secure refl
  | inr heard ↦
      ap
        (λ (b : Bool).
          if not b
          then after_shortcuts kp s (find_shortcut s.shortcut_count 0 s.shortcuts kp)
          else buffer_keypress kp s)
        heard
      ∙ ap (after_shortcuts kp s) no_hit
]

buffered :
    (kp : KeyPress) (s : Input) (i : ℕ) (p : Process)
    → s.focused_proc ≡ some i
    → get_elem? s.sched.processes i ≡ some p
    → buffer_keypress kp s
      ≡ some (record s {
        sched = record s.sched { processes = set s.sched.processes i (key_written kp p) };
      })
unfolding buffer_keypress
buffered kp s i p focus there = rw (focus, there) refl

-- A key that triggers no shortcut, or comes in secure mode, is put behind those that wait in the
-- ring of the process with the focus; of 63 that wait, the oldest is lost.
pub register_keypress-Waiting :
    (kp : KeyPress) (s : Input) (i : ℕ) (p : Process) (q : List KeyPress)
    → (s.secure_mode ≡ true) ⊎ (find_shortcut s.shortcut_count 0 s.shortcuts kp ≡ some none)
    → s.focused_proc ≡ some i
    → get_elem? s.sched.processes i ≡ some p
    → Waiting p q
    → (s' : Input) × (p' : Process) × (register_keypress kp s ≡ some s')
      × (get_elem? s'.sched.processes i ≡ some p')
      × Waiting p' (push_overwriting 64 kp q)
      × ((j : ℕ) → j ≢ i → get_elem? s'.sched.processes j ≡ get_elem? s.sched.processes j)
register_keypress-Waiting kp s i p q unheard_key focus there b =
    let s' = record s {
      sched = record s.sched { processes = set s.sched.processes i (key_written kp p) };
    } in
    (
      s',
      key_written kp p,
      unheard kp s unheard_key ∙ buffered kp s i p focus there,
      get_elem?-set s.sched.processes i p (key_written kp p) there,
      key_written-Waiting kp p q b,
      λ j other. get_elem?-set_ne s.sched.processes i j (key_written kp p) (λ e. other (sym e)),
    )

none_waits : (p : Process) → Waiting p [] → read_key p ≡ some none
unfolding read_key
none_waits p b =
    rw (Buffered-empty 64 p.input_entries p.input_read_index p.input_write_index b) refl

one_waits :
    (p : Process) (kp : KeyPress) (rest : List KeyPress)
    → Waiting p (kp ∷ rest)
    → read_key p ≡ some (some (kp, record p { input_read_index = (p.input_read_index + 1) % 64 }))
unfolding read_key
one_waits p kp rest b =
    let (differ, oldest) =
      Buffered-oldest 64 p.input_entries p.input_read_index p.input_write_index kp rest b in
    rw (differ, oldest) refl

read :
    (pid i : ℕ) (s : Input) (p : Process)
    → get_proc_by_pid pid s.sched ≡ some i
    → get_elem? s.sched.processes i ≡ some p
    → sys_read_input pid s ≡ key_taken i s (read_key p)
unfolding sys_read_input
read pid i s p found there = rw (found, there) refl

taken :
    (i : ℕ) (s : Input) (p : Process) (kp : KeyPress)
    → key_taken i s (some (some (kp, p)))
      ≡ some
          (some kp, record s { sched = record s.sched { processes = set s.sched.processes i p } })
unfolding key_taken
taken i s p kp = refl

not_taken : (i : ℕ) (s : Input) → key_taken i s (some none) ≡ some (none, s)
unfolding key_taken
not_taken i s = refl

-- A process reads the oldest key that waits, and when none waits it is told so.
pub sys_read_input-Waiting :
    (pid i : ℕ) (s : Input) (p : Process) (q : List KeyPress)
    → get_proc_by_pid pid s.sched ≡ some i
    → get_elem? s.sched.processes i ≡ some p
    → Waiting p q
    → (q ≡ [] → sys_read_input pid s ≡ some (none, s))
      × ((kp : KeyPress) (rest : List KeyPress)
          → q ≡ kp ∷ rest
          → (s' : Input) × (p' : Process) × (sys_read_input pid s ≡ some (some kp, s'))
            × (get_elem? s'.sched.processes i ≡ some p')
            × Waiting p' rest)
sys_read_input-Waiting pid i s p q found there b =
    let answer = read pid i s p found there in
    (
      (λ e. answer ∙ ap (key_taken i s) (none_waits p (subst (Waiting p) e b)) ∙ not_taken i s),
      λ kp rest e.
          let p' = record p { input_read_index = (p.input_read_index + 1) % 64 } in
          let waits = subst (Waiting p) e b in
          (
            record s { sched = record s.sched { processes = set s.sched.processes i p' } },
            p',
            answer ∙ ap (key_taken i s) (one_waits p kp rest waits) ∙ taken i s p' kp,
            get_elem?-set s.sched.processes i p p' there,
            rw (next_lem p.input_read_index b.read_below) (
                Buffered-pop 64 p.input_entries p.input_read_index p.input_write_index kp rest
                  waits),
          ),
    )
