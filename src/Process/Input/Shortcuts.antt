-- ===== src/Process/Input/Shortcuts.antt =====
-- The shortcuts of kernel/input/input_dispatch.cpp.
use ionutnechita_redacted_os.Base.{
  ℕ, zero, suc, ◌+◌, ◌<◌, ◌≡◌, ◌≢◌, refl, ap, Bool, true, false, Option, some, List, arith, set,
  ◌==◌, if◌then◌else◌, get_elem?, ◌>>=◌, ◌∙◌, sym, ◌&&◌, not,
}
use ionutnechita_redacted_os.Process.Scheduler.{KeyPress}
use ionutnechita_redacted_os.Process.Scheduler.Start.{get_elem?-set}
use ionutnechita_redacted_os.Process.Input.{
  Shortcut, Input, triggers, find_shortcut, register_keypress, after_shortcuts, buffer_keypress,
  sys_shortcut_triggered, answered,
}

-- The shortcut `i` is there, and the key does not trigger it.
abbrev pub Passes : List Shortcut → KeyPress → ℕ → Type 0
Passes cuts kp i = (c : Shortcut) × (get_elem? cuts i ≡ some c) × (triggers c kp ≡ false)

-- What the loop does with a shortcut.
look : ℕ → ℕ → List Shortcut → KeyPress → Shortcut → Option (Option ℕ)
look left i cuts kp c = elim (triggers c kp) [
  | true ↦ some (some i)
  | false ↦ find_shortcut left (i + 1) cuts kp
]

found_here :
    (left i : ℕ) (cuts : List Shortcut) (kp : KeyPress) (c : Shortcut)
    → get_elem? cuts i ≡ some c
    → triggers c kp ≡ true
    → find_shortcut (suc left) i cuts kp ≡ some (some i)
unfolding find_shortcut look
found_here left i cuts kp c there hit =
    ap (λ (o : Option Shortcut). o >>= look left i cuts kp) there
    ∙ ap
        (λ (b : Bool). elim b as (λ x. Option (Option ℕ)) [
          | true ↦ some (some i)
          | false ↦ find_shortcut left (i + 1) cuts kp
        ])
        hit

passed :
    (left i : ℕ) (cuts : List Shortcut) (kp : KeyPress) (c : Shortcut)
    → get_elem? cuts i ≡ some c
    → triggers c kp ≡ false
    → find_shortcut (suc left) i cuts kp ≡ find_shortcut left (i + 1) cuts kp
unfolding find_shortcut look
passed left i cuts kp c there miss =
    ap (λ (o : Option Shortcut). o >>= look left i cuts kp) there
    ∙ ap
        (λ (b : Bool). elim b as (λ x. Option (Option ℕ)) [
          | true ↦ some (some i)
          | false ↦ find_shortcut left (i + 1) cuts kp
        ])
        miss

from_zero : (n : ℕ) → 0 + n ≡ n
from_zero n = omega arith

find_from :
    (n left i : ℕ) (cuts : List Shortcut) (kp : KeyPress) (c : Shortcut)
    → n < left
    → get_elem? cuts (i + n) ≡ some c
    → triggers c kp ≡ true
    → ((j : ℕ) → j < n → Passes cuts kp (i + j))
    → find_shortcut left i cuts kp ≡ some (some (i + n))
find_from n zero i cuts kp c h there hit before = absurd (omega arith)
find_from zero (suc left) i cuts kp c h there hit before =
    let same : i + 0 ≡ i = omega arith in
    found_here left i cuts kp c (ap (get_elem? cuts) (sym same) ∙ there) hit
    ∙ ap (λ (k : ℕ). some (some k)) (sym same)
find_from (suc n) (suc left) i cuts kp c h there hit before =
    let (d, at, miss) = before 0 (omega arith) in
    let same : i + 0 ≡ i = omega arith in
    let next : i + 1 + n ≡ i + suc n = omega arith in
    passed left i cuts kp d (ap (get_elem? cuts) (sym same) ∙ at) miss
    ∙ find_from n left (i + 1) cuts kp c (omega arith) (ap (get_elem? cuts) next ∙ there) hit
        (λ j lt.
          let (e, there', miss') = before (suc j) (omega arith) in
          (e, ap (get_elem? cuts) (omega arith) ∙ there', miss'))
    ∙ ap (λ (k : ℕ). some (some k)) next

first_found :
    (n left : ℕ) (cuts : List Shortcut) (kp : KeyPress) (c : Shortcut)
    → n < left
    → get_elem? cuts n ≡ some c
    → triggers c kp ≡ true
    → ((j : ℕ) → j < n → Passes cuts kp j)
    → find_shortcut left 0 cuts kp ≡ some (some n)
first_found n left cuts kp c h there hit before =
    find_from n left 0 cuts kp c h (ap (get_elem? cuts) (from_zero n) ∙ there) hit
      (λ j lt. let (d, at, miss) = before j lt in (d, ap (get_elem? cuts) (from_zero j) ∙ at, miss))
    ∙ ap (λ (k : ℕ). some (some k)) (from_zero n)

triggered :
    (kp : KeyPress) (s : Input) (i : ℕ) (c : Shortcut)
    → s.secure_mode ≡ false
    → find_shortcut s.shortcut_count 0 s.shortcuts kp ≡ some (some i)
    → get_elem? s.shortcuts i ≡ some c
    → register_keypress kp s
      ≡ some (record s { shortcuts = set s.shortcuts i (record c { triggered = true }) })
unfolding register_keypress after_shortcuts
triggered kp s i c insecure found there =
    ap
      (λ (b : Bool).
        if not b
        then after_shortcuts kp s (find_shortcut s.shortcut_count 0 s.shortcuts kp)
        else buffer_keypress kp s)
      insecure
    ∙ ap (after_shortcuts kp s) found
    ∙ rw there refl

differs : (a b : ℕ) → a ≢ b → (a == b && true) ≡ false
differs a b h = ground arith

neither : (a : ℕ) → (a == a && false) ≡ false
neither a = ground arith

asked_true :
    (pid i : ℕ) (s : Input) (c : Shortcut)
    → get_elem? s.shortcuts i ≡ some c
    → c.pid ≡ pid
    → c.triggered ≡ true
    → sys_shortcut_triggered pid i s
      ≡ some (true, record s { shortcuts = set s.shortcuts i (record c { triggered = false }) })
unfolding sys_shortcut_triggered answered
asked_true pid i s c there mine set_before =
    let both : (c.pid == pid && c.triggered) ≡ true = (rw (set_before, mine) (ground arith)) in
    ap (λ (o : Option Shortcut). o >>= λ d. answered i s (d.pid == pid && d.triggered)) there
    ∙ ap (answered i s) both
    ∙ rw there refl

asked_false :
    (pid i : ℕ) (s : Input) (c : Shortcut)
    → get_elem? s.shortcuts i ≡ some c
    → (c.pid == pid && c.triggered) ≡ false
    → sys_shortcut_triggered pid i s ≡ some (false, s)
unfolding sys_shortcut_triggered answered
asked_false pid i s c there not_both =
    ap (λ (o : Option Shortcut). o >>= λ d. answered i s (d.pid == pid && d.triggered)) there
    ∙ ap (answered i s) not_both

-- Outside of secure mode, the first shortcut that a key triggers takes it: no process gets it, the
-- owner of the shortcut is told so when it asks the first time and not the second time, and another
-- process is not told.
pub register_keypress-sys_shortcut_triggered :
    (kp : KeyPress) (s : Input) (i : ℕ) (c : Shortcut)
    → s.secure_mode ≡ false
    → i < s.shortcut_count
    → get_elem? s.shortcuts i ≡ some c
    → triggers c kp ≡ true
    → ((j : ℕ) → j < i → Passes s.shortcuts kp j)
    → (s' s'' : Input) × (register_keypress kp s ≡ some s')
      × (s'.sched ≡ s.sched)
      × (sys_shortcut_triggered c.pid i s' ≡ some (true, s''))
      × (sys_shortcut_triggered c.pid i s'' ≡ some (false, s''))
      × ((pid : ℕ) → c.pid ≢ pid → sys_shortcut_triggered pid i s' ≡ some (false, s'))
register_keypress-sys_shortcut_triggered kp s i c insecure below there hit before =
    let c₁ = record c { triggered = true } in
    let c₂ = record c { triggered = false } in
    let s₁ = record s { shortcuts = set s.shortcuts i c₁ } in
    let s₂ = record s₁ { shortcuts = set s₁.shortcuts i c₂ } in
    let at₁ : get_elem? s₁.shortcuts i ≡ some c₁ = (get_elem?-set s.shortcuts i c c₁ there) in
    let at₂ : get_elem? s₂.shortcuts i ≡ some c₂ = (get_elem?-set s₁.shortcuts i c₁ c₂ at₁) in
    (
      s₁,
      s₂,
      triggered kp s i c insecure
          (first_found i s.shortcut_count s.shortcuts kp c below there hit before) there,
      refl,
      asked_true c.pid i s₁ c₁ at₁ refl refl,
      asked_false c.pid i s₂ c₂ at₂ (neither c.pid),
      λ pid other. asked_false pid i s₁ c₁ at₁ (differs c.pid pid other),
    )
