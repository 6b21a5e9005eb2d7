-- ===== src/Process/Loader.antt =====
-- kernel/process/loading/process_loader.c. An instruction is a 32-bit word. The
-- printing of an instruction is left out; a `print_` function is what it returns. What the page
-- allocator answers is a parameter. `create_process` copies the content to `dest` in memory, a
-- function from an address to its byte.
pub mod Branch
pub mod Adrp
pub mod Create
mod Tests
use ionutnechita_redacted_os.Base.{
  ℕ, zero, suc, ◌+◌, ◌-◌, ◌*◌, ◌/◌, ◌%◌, ◌^◌, ◌≤◌, ◌<◌, ◌≡◌, ◌≢◌, ◌↔◌, refl, ap, Bool, true, false,
  Option, none, some, List, [], ◌∷◌, ◌++◌, arith, length, length-set, get_or, set,
  get_elem?-eq-get_or, ◌⊎◌, inl, inr, ◌==◌, ltb, leb, if◌then◌else◌, u64, u32, sub64, sub32,
  bswap16, bswap32, u8, u16, Bool-cases, store?, store?-eq-set, get_elem?, ◌>>=◌, ◌∙◌, sym, ap₂,
  min, max, ◌&&◌, ◌||◌, not, take, drop, replicate, length-append, length-replicate, append-nil,
  append_assoc, ◌>>>◌, bit_or, bit_and, bit_xor, ltb→lt, lt→ltb, le→ltb_false,
}
use ionutnechita_redacted_os.Process.Scheduler.{
  ProcState, ready, Process, Sched, Event, interrupts_disabled, interrupts_enabled, Started,
  started, out_of_process_memory, start_faulted, init_process, name_process, emit,
}

pub record ProcessLayout : Type 0 where
  pub code_base_start : ℕ
  pub code_size : ℕ
  pub data_start : ℕ
  pub data_size : ℕ

-- A number of `width` bits as an `int64_t`.
abbrev pub sign_extend : ℕ → ℕ → ℕ
sign_extend width x = if ltb x (2 ^ (width - 1)) then x else 2 ^ 64 + x - 2 ^ width

-- Where a branch at `pc` leads.
pub branch_target : ℕ → ℕ → ℕ
branch_target instr pc = u64 (pc + sign_extend 28 (bit_and instr 0x03FFFFFF * 4))

-- `internal`: the address lies in the code.
abbrev pub in_code : ProcessLayout → ℕ → Bool
in_code l a = leb l.code_base_start a && ltb a (u64 (l.code_base_start + l.code_size))

abbrev pub in_data : ProcessLayout → ℕ → Bool
in_data l a = leb l.data_start a && ltb a (u64 (l.data_start + l.data_size))

-- The low bits of the distance in words, which the arithmetic shift of the `int64_t` keeps.
abbrev pub word_distance : ℕ → ℕ → ℕ
word_distance target from = bit_and (sub64 target from >>> 2) 0x03FFFFFF

pub print_branch : ℕ → ℕ → Bool → ProcessLayout → ProcessLayout → ℕ
unfolding branch_target
print_branch instr pc translate source destination =
    let target = branch_target instr pc in
    if not translate
    then instr
    else if not (in_code source target)
    then (let offset = u32 (sub64 pc source.code_base_start) in
        bit_or (bit_and instr 0xFC000000)
          (word_distance target (u64 (destination.code_base_start + offset))))
    else instr

pub cond_target : ℕ → ℕ → ℕ
cond_target instr pc = u64 (pc + sign_extend 21 (bit_and (instr >>> 5) 0x7FFFF * 4))

pub print_cond_branch : ℕ → ℕ → Bool → ProcessLayout → ProcessLayout → ℕ
unfolding cond_target
print_cond_branch instr pc translate source destination =
    let target = cond_target instr pc in
    if not translate
    then instr
    else if not (in_code source target)
    then (let new_offset = u32 (sub64 pc source.code_base_start) in
        bit_or (bit_and instr 0xFC000000)
          (word_distance target (u64 (destination.code_base_start + new_offset))))
    else instr

-- `x & ~0xFFF`
abbrev pub page_of : ℕ → ℕ
page_of x = bit_and x ((2 ^ 52 - 1) * 2 ^ 12)

-- The page that the function takes the instruction at `pc` to form. The two shifts, by 44 and by 32,
-- keep 20 of the 21 bits.
pub adrp_target : ℕ → ℕ → ℕ
adrp_target instr pc =
    let immhi = bit_and (instr >>> 5) 0x7FFFF in
    let immlo = bit_and (instr >>> 29) 3 in
    u64 (page_of pc + sign_extend 32 (u32 (bit_or (immhi * 4) immlo * 2 ^ 12)))

-- The two fields of the distance, put in their places.
pub with_page_distance : ℕ → ℕ → ℕ
with_page_distance instr new_offset =
    let new_immhi = bit_and (new_offset >>> 14) 0x7FFFF in
    let new_immlo = bit_and (new_offset >>> 12) 3 in
    bit_or (bit_and (bit_or (bit_and instr 0x9FFFFFFF) (new_immlo * 2 ^ 29)) 0xFF00001F)
      (new_immhi * 2 ^ 5)

pub print_adrp : ℕ → ℕ → Bool → ProcessLayout → ProcessLayout → ℕ
unfolding adrp_target with_page_distance
print_adrp instr pc translate source destination =
    let target = adrp_target instr pc in
    if not translate
    then instr
    else if in_data source target
    then (let new_target = u64 (destination.data_start + sub64 target source.data_start) in
        let dst_pc_page =
          page_of (u64 (destination.code_base_start + sub64 pc source.code_base_start)) in
        with_page_distance instr (sub64 new_target dst_pc_page))
    else instr

-- The functions of the table; the last stands for those that only print.
pub data Handler : Type 0 where
  branch cond_branch adrp prints_only : Handler

pub record InstructionEntry : Type 0 where
  pub mask : ℕ
  pub pattern_bits : ℕ
  pub handler : Handler

abbrev op : ℕ → ℕ → Handler → InstructionEntry
op m p h = record { mask = m; pattern_bits = p; handler = h }

pub ops : List InstructionEntry
ops =
    op 0xFFC00000 0xA9800000 prints_only
    ∷ op 0xFFC00000 0x52800000 prints_only
    ∷ op 0xFFC00000 0xD2800000 prints_only
    ∷ op 0x9F000000 0x90000000 adrp
    ∷ op 0x7F000000 0x11000000 prints_only
    ∷ op 0xFFF00000 0xF9400000 prints_only
    ∷ op 0xFFF00000 0xF9000000 prints_only
    ∷ op 0xFC000000 0x94000000 branch
    ∷ op 0xFFFFFC1F 0xEB00001F prints_only
    ∷ op 0xFC000000 0x14000000 branch
    ∷ op 0xFF000010 0x54000000 cond_branch
    ∷ op 0xFFC00000 0xB9000000 prints_only
    ∷ op 0xFFF00000 0xB9400000 prints_only
    ∷ op 0xFF800000 0x72800000 prints_only
    ∷ op 0xFF00001F 0x6B00001F prints_only
    ∷ op 0xFFE00000 0xAA000000 prints_only
    ∷ []

pub handle : Handler → ℕ → ℕ → Bool → ProcessLayout → ProcessLayout → ℕ
unfolding print_branch print_cond_branch print_adrp
handle branch = print_branch
handle cond_branch = print_cond_branch
handle adrp = print_adrp
handle prints_only = λ instr pc translate source destination. instr

-- The first entry that fits.
pub parse_loop : List InstructionEntry → ℕ → ℕ → Bool → ProcessLayout → ProcessLayout → ℕ
unfolding handle
parse_loop [] instr pc translate source destination = instr
parse_loop (e ∷ es) instr pc translate source destination =
    if bit_and instr e.mask == e.pattern_bits
    then handle e.handler instr pc translate source destination
    else parse_loop es instr pc translate source destination

pub parse_instruction : ℕ → ℕ → Bool → ProcessLayout → ProcessLayout → ℕ
unfolding ops parse_loop
parse_instruction = parse_loop ops

-- The loop of `relocate_code` over the words of `src`, at `pc`.
pub relocate_loop : List ℕ → ℕ → ProcessLayout → ProcessLayout → List ℕ
unfolding parse_instruction
relocate_loop [] pc source destination = []
relocate_loop (instr ∷ rest) pc source destination =
    parse_instruction instr pc true source destination
    ∷ relocate_loop rest (u64 (pc + 4)) source destination

-- `code` are the `size / 4` words at `src`; the answer is what is written from `dst` on.
pub relocate_code : ℕ → ℕ → List ℕ → ℕ → ℕ → ℕ → ℕ → List ℕ
unfolding relocate_loop
relocate_code dst src code size src_data_base dst_data_base data_size =
    relocate_loop code src
      (record {
        code_base_start = src;
        code_size = size;
        data_start = src_data_base;
        data_size = data_size;
      })
      (record {
        code_base_start = dst;
        code_size = size;
        data_start = dst_data_base;
        data_size = data_size;
      })

-- How `create_process` ends: with the process, with NULL, or in `init_process`.
pub data Created : Type 0 where
  created : ℕ → Sched → (ℕ → ℕ) → Created
  no_memory : Sched → (ℕ → ℕ) → Created
  no_slot : Created

-- The bytes of the content from `dest` on.
abbrev pub copied : ℕ → List ℕ → (ℕ → ℕ) → ℕ → ℕ
copied dest content mem a =
    if leb dest a && ltb a (dest + length content) then get_or content (a - dest) 0 else mem a

-- What follows `name_process` in `create_process`, for the slot `i`. `dest`, `stack` and `heap` are
-- the answers of the three calls of `palloc`.
pub set_up_slot : ℕ → ℕ → ℕ → List ℕ → ℕ → (ℕ → ℕ) → ℕ → Sched → Option Process → Created
set_up_slot dest stack heap content entry mem i s none = no_slot
set_up_slot dest stack heap content entry mem i s (some p) =
    let s₂ = record s { processes = set s.processes i p } in
    if dest == 0 || stack == 0 || heap == 0
    then no_memory s₂ (if dest == 0 then mem else copied dest content mem)
    else created i
        (emit interrupts_enabled (record s₂ {
          processes = set s₂.processes i (record p {
            stack = u64 (stack + 0x1000);
            stack_size = 0x1000;
            heap = heap;
            sp = u64 (stack + 0x1000);
            pc = u64 (dest + entry);
            spsr = 0;
            state = ready;
          });
        }))
        (copied dest content mem)

-- What follows `init_process`.
pub set_up_process : ℕ → ℕ → ℕ → List ℕ → List ℕ → ℕ → (ℕ → ℕ) → Started → Created
unfolding set_up_slot
set_up_process dest stack heap name content entry mem out_of_process_memory = no_slot
set_up_process dest stack heap name content entry mem start_faulted = no_slot
set_up_process dest stack heap name content entry mem (started i s) =
    set_up_slot dest stack heap content entry mem i s
      (get_elem? s.processes i >>= name_process name)

pub create_process : ℕ → ℕ → ℕ → List ℕ → List ℕ → ℕ → (ℕ → ℕ) → Sched → Created
unfolding init_process name_process set_up_process
create_process dest stack heap name content entry mem s =
    set_up_process dest stack heap name content entry mem
      (init_process (emit interrupts_disabled s))
