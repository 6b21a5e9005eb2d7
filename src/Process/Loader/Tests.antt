-- ===== src/Process/Loader/Tests.antt =====
-- Runs of kernel/process/loading/process_loader.c on concrete words and tables.
use ionutnechita_redacted_os.Base.{
  ℕ, ◌+◌, ◌*◌, ◌/◌, ◌%◌, ◌^◌, ◌≤◌, ◌<◌, ◌≡◌, refl, true, false, some, get_elem?, List, [], ◌∷◌,
  arith, ◌⊎◌, sub64, replicate,
}
use ionutnechita_redacted_os.Process.Scheduler.{
  ProcState, stopped, ready, Process, Sched, Event, no_keypress, copy_name,
}
use ionutnechita_redacted_os.Process.Scheduler.Start.{slot_of, interrupts_masked}
use ionutnechita_redacted_os.Process.Loader.{
  ProcessLayout, relocate_code, print_branch, print_cond_branch, print_adrp, branch_target,
  cond_target, adrp_target, in_code, in_data, create_process, no_memory, copied,
}
use ionutnechita_redacted_os.Process.Loader.Branch.{
  print_branch-target, print_cond_branch_loses_condition, moved,
}
use ionutnechita_redacted_os.Process.Loader.Adrp.{
  page_field, formed_page, print_adrp-target, moved_data,
}
use ionutnechita_redacted_os.Process.Loader.Create.{create_process_leaves_slot}

abbrev layout : ℕ → ℕ → ProcessLayout
layout code at = record {
  code_base_start = code;
  code_size = 0x100;
  data_start = at;
  data_size = 0x3000;
}

abbrev old : ProcessLayout
old = layout 0x10000 0x20000

abbrev new : ProcessLayout
new = layout 0x40000 0x50000

-- `b` by 0x1000 from 0x10010, out of the code.
target_test :
    (in_code old (branch_target 0x14000400 0x10010) ≡ false)
    × (branch_target 0x14000400 0x10010 ≡ 0x11010)
unfolding branch_target
target_test = (refl, refl)

print_branch-target_example :
    (in_code old (branch_target 0x14000400 0x10010) ≡ true
      → print_branch 0x14000400 0x10010 true old new ≡ 0x14000400)
    × (in_code old (branch_target 0x14000400 0x10010) ≡ false
        → (sub64 (branch_target 0x14000400 0x10010) (moved 0x10010 old new) < 2 ^ 27)
          ⊎ (2 ^ 64 ≤ sub64 (branch_target 0x14000400 0x10010) (moved 0x10010 old new) + 2 ^ 27)
        → (branch_target (print_branch 0x14000400 0x10010 true old new) (moved 0x10010 old new)
            ≡ branch_target 0x14000400 0x10010)
          × (print_branch 0x14000400 0x10010 true old new / 2 ^ 26 ≡ 0x14000400 / 2 ^ 26))
print_branch-target_example = print_branch-target 0x14000400 0x10010 old new (omega arith) refl refl

cond_target_test : in_code old (cond_target 0x54008000 0x10010) ≡ false
unfolding cond_target
cond_target_test = refl

-- `b.eq` and `b.ne` by 0x1000.
print_cond_branch_loses_condition_example :
    print_cond_branch 0x54008000 0x10010 true old new
    ≡ print_cond_branch 0x54008001 0x10010 true old new
print_cond_branch_loses_condition_example =
    print_cond_branch_loses_condition 0x54008000 0x54008001 0x10010 old new (omega arith)
      (omega arith) refl cond_target_test

adrp_target_test : in_data old (adrp_target 0xb0000081 0x10010) ≡ true
unfolding adrp_target
adrp_target_test = refl

-- `adrp x1` of the second page of the data.
print_adrp-target_example :
    ((page_field 0xb0000081 < 2 ^ 19) ⊎ (3 * 2 ^ 19 ≤ page_field 0xb0000081)
      → adrp_target 0xb0000081 0x10010 ≡ formed_page 0xb0000081 0x10010)
    × (in_data old (adrp_target 0xb0000081 0x10010) ≡ false
        → print_adrp 0xb0000081 0x10010 true old new ≡ 0xb0000081)
    × (in_data old (adrp_target 0xb0000081 0x10010) ≡ true
        → moved_data (adrp_target 0xb0000081 0x10010) old new % 2 ^ 12 ≡ 0
        → (sub64 (moved_data (adrp_target 0xb0000081 0x10010) old new) 0x40000 < 2 ^ 32)
          ⊎ (2 ^ 64 ≤ sub64 (moved_data (adrp_target 0xb0000081 0x10010) old new) 0x40000 + 2 ^ 32)
        → (formed_page (print_adrp 0xb0000081 0x10010 true old new) 0x40010
            ≡ moved_data (adrp_target 0xb0000081 0x10010) old new)
          × ((sub64 (moved_data (adrp_target 0xb0000081 0x10010) old new) 0x40000 < 2 ^ 31)
                ⊎ (2 ^ 64
                    ≤ sub64 (moved_data (adrp_target 0xb0000081 0x10010) old new) 0x40000 + 2 ^ 31)
              → adrp_target (print_adrp 0xb0000081 0x10010 true old new) 0x40010
                ≡ moved_data (adrp_target 0xb0000081 0x10010) old new)
          × (print_adrp 0xb0000081 0x10010 true old new % 2 ^ 5 ≡ 0xb0000081 % 2 ^ 5)
          × (print_adrp 0xb0000081 0x10010 true old new / 2 ^ 24 % 2 ^ 5
              ≡ 0xb0000081 / 2 ^ 24 % 2 ^ 5)
          × (print_adrp 0xb0000081 0x10010 true old new / 2 ^ 31 ≡ 0xb0000081 / 2 ^ 31))
print_adrp-target_example = print_adrp-target 0xb0000081 0x10010 old new (omega arith) (omega arith)

-- The distance of 2 GiB ahead is taken for 2 GiB back.
lost_bit_test :
    (adrp_target 0x90400001 0x100000000 ≡ 0x80000000)
    × (formed_page 0x90400001 0x100000000 ≡ 0x180000000)
unfolding adrp_target
lost_bit_test = (refl, refl)

-- The branch out, the `adrp` and a word that is not in the table.
relocate_code_test :
    relocate_code 0x40000 0x10000
      (0x14000400 ∷ 0xb0000081 ∷ 0xd65f03c0 ∷ [])
      0x100
      0x20000
      0x50000
      0x3000
    ≡ 0x17ff4400 ∷ 0xb0000081 ∷ 0xd65f03c0 ∷ []
unfolding relocate_code
relocate_code_test = refl

abbrev process : ℕ → ProcState → List ℕ → Process
process stack state name = record {
  regs = replicate 31 0;
  sp = 0;
  pc = 0;
  spsr = 0;
  id = 0;
  stack = stack;
  stack_size = 0;
  heap = 0;
  focused = false;
  state = state;
  input_read_index = 0;
  input_write_index = 0;
  input_entries = replicate 64 no_keypress;
  packet_read_index = 0;
  packet_write_index = 0;
  packet_entries = replicate 128 (0, 0);
  name = name;
}

abbrev sched : ℕ → ℕ → List Event → Process → Sched
sched count next events p = record {
  processes = p ∷ [];
  current_proc = 0;
  proc_count = count;
  next_proc_index = next;
  sleeping = [];
  sleep_count = 0;
  ksp = 0;
  events = events;
}

abbrev fresh : Sched
fresh = sched 0 0 [] (process 0 stopped (replicate 256 0))

name_test : copy_name 256 (b'a' ∷ 0 ∷ []) (replicate 256 0) ≡ some (b'a' ∷ replicate 255 0)
unfolding copy_name
name_test = refl

slot_test : slot_of fresh ≡ some 0
slot_test = refl

-- There is a page for the code, and none for the stack.
create_process_leaves_slot_example :
    (left : Sched) × (q : Process) × (create_process 0x9000 0 0
        (b'a' ∷ 0 ∷ [])
        (1 ∷ 2 ∷ [])
        0
        (λ a. 0)
        fresh
      ≡ no_memory left (copied 0x9000 (1 ∷ 2 ∷ []) (λ a. 0)))
    × (left.processes ≡ q ∷ [])
    × (get_elem? left.processes 0 ≡ some q)
    × (q.state ≡ ready)
    × (q.pc ≡ 0)
    × (q.id ≡ 0)
    × (q.name ≡ b'a' ∷ replicate 255 0)
    × (left.proc_count ≡ 1)
    × (left.next_proc_index ≡ 1)
    × (interrupts_masked left.events ≡ true)
create_process_leaves_slot_example =
    create_process_leaves_slot 0x9000 0 0 (b'a' ∷ 0 ∷ []) (1 ∷ 2 ∷ []) 0 (λ a. 0) fresh 0
      (process 0 stopped (replicate 256 0)) (b'a' ∷ replicate 255 0) slot_test refl name_test refl
