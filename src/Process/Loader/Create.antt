-- ===== src/Process/Loader/Create.antt =====
-- What `create_process` of kernel/process/loading/process_loader.c leaves without memory.
use ionutnechita_redacted_os.Base.{
  ℕ, ◌+◌, ◌≡◌, refl, ap, true, Option, some, List, set, ◌==◌, if◌then◌else◌, get_elem?, ◌>>=◌, ◌∙◌,
  ◌||◌, u16, replicate,
}
use ionutnechita_redacted_os.Process.Scheduler.{
  ready, Process, Sched, emit, interrupts_disabled, started, init_process, name_process, copy_name,
}
use ionutnechita_redacted_os.Process.Scheduler.Start.{
  get_elem?-set, set-set, slot_of, interrupts_masked, started_state, started_process,
  init_process-StartedIn,
}
use ionutnechita_redacted_os.Process.Loader.{
  create_process, set_up_slot, set_up_process, no_memory, copied,
}

named :
    (name : List ℕ) (p : Process) (n : List ℕ)
    → p.name ≡ replicate 256 0
    → copy_name 256 name (replicate 256 0) ≡ some n
    → name_process name p ≡ some (record p { name = n })
unfolding name_process
named name p n blank copies =
    ap (λ (o : Option (List ℕ)). o >>= λ n'. some (record p { name = n' }))
      (ap (copy_name 256 name) blank ∙ copies)

opened :
    (dest stack heap : ℕ) (name content : List ℕ) (entry : ℕ) (mem : ℕ → ℕ) (s : Sched)
    → create_process dest stack heap name content entry mem s
      ≡ set_up_process dest stack heap name content entry mem
          (init_process (emit interrupts_disabled s))
unfolding create_process
opened dest stack heap name content entry mem s = refl

bound :
    (name : List ℕ) (p q : Process) (o : Option Process)
    → o ≡ some p
    → name_process name p ≡ some q
    → o >>= name_process name ≡ some q
bound name p q o there names = ap (λ (r : Option Process). r >>= name_process name) there ∙ names

abandoned :
    (dest stack heap : ℕ) (name content : List ℕ) (entry : ℕ) (mem : ℕ → ℕ) (s₁ : Sched) (i : ℕ)
    (p q : Process)
    → get_elem? s₁.processes i ≡ some p
    → name_process name p ≡ some q
    → (dest == 0 || stack == 0 || heap == 0) ≡ true
    → set_up_process dest stack heap name content entry mem (started i s₁)
      ≡ no_memory
          (record s₁ { processes = set s₁.processes i q })
          (if dest == 0 then mem else copied dest content mem)
unfolding set_up_process
abandoned dest stack heap name content entry mem s₁ i p q there names answer =
    ap (set_up_slot dest stack heap content entry mem i s₁)
      (bound name p q (get_elem? s₁.processes i) there names)
    ∙ rw answer refl

-- Where there is a slot, the name can be read, and there is no page for the code, the stack or the
-- heap, `create_process` answers NULL, and the slot that it has taken keeps the new id and name and is left ready to run from address 0. All other
-- slots are as before, the process is counted, and the interrupts, which it has masked, stay masked.
pub create_process_leaves_slot :
    (dest stack heap : ℕ) (name content : List ℕ) (entry : ℕ) (mem : ℕ → ℕ) (s : Sched) (i : ℕ)
    (p : Process) (n : List ℕ)
    → slot_of s ≡ some i
    → get_elem? s.processes i ≡ some p
    → copy_name 256 name (replicate 256 0) ≡ some n
    → (dest == 0 || stack == 0 || heap == 0) ≡ true
    → (left : Sched) × (q : Process) × (create_process dest stack heap name content entry mem s
        ≡ no_memory left (if dest == 0 then mem else copied dest content mem))
      × (left.processes ≡ set s.processes i q)
      × (get_elem? left.processes i ≡ some q)
      × (q.state ≡ ready)
      × (q.pc ≡ 0)
      × (q.id ≡ s.next_proc_index)
      × (q.name ≡ n)
      × (left.proc_count ≡ u16 (s.proc_count + 1))
      × (left.next_proc_index ≡ u16 (s.next_proc_index + 1))
      × (interrupts_masked left.events ≡ true)
create_process_leaves_slot dest stack heap name content entry mem s i p n slot there copies answer =
    let s₀ = emit interrupts_disabled s in
    let s₁ = started_state i s₀ p in
    let p₁ = started_process s₀ p in
    let q : Process = record p₁ { name = n } in
    let st = init_process-StartedIn s₀ i p slot there in
    let there₁ = get_elem?-set s.processes i p p₁ there in
    (
      record s₁ { processes = set s₁.processes i q },
      q,
      opened dest stack heap name content entry mem s
          ∙ ap (set_up_process dest stack heap name content entry mem) st.result
          ∙ abandoned dest stack heap name content entry mem s₁ i p₁ q there₁
              (named name p₁ n st.name copies) answer,
      set-set s.processes i p₁ q,
      get_elem?-set s₁.processes i p₁ q there₁,
      st.state,
      st.pc,
      st.id,
      refl,
      st.proc_count,
      st.next_proc_index,
      st.masked,
    )
