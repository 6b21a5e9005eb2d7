-- ===== src/Memory/Mmu.antt =====
-- kernel/memory/mmu.c: the translation tables. A table is known by its address, and an entry is
-- read at a table and an index; `root` is `page_table_l0`. `fresh` are the answers of `talloc`, in
-- their order: pages of zeros. The barriers and the registers that switch the MMU on are left
-- out, and so is the verbose printing.
pub mod Entries
pub mod Tree
pub mod Grow
pub mod Map
pub mod Leaf
pub mod Translate
mod Tests
use ionutnechita_redacted_os.Base.{
  ℕ, zero, suc, ◌+◌, ◌-◌, ◌*◌, ◌/◌, ◌%◌, ◌^◌, ◌≤◌, ◌<◌, ◌≡◌, ◌≢◌, ◌↔◌, refl, ap, Bool, true, false,
  Option, none, some, List, [], ◌∷◌, ◌++◌, arith, length, length-set, get_or, set,
  get_elem?-eq-get_or, ◌⊎◌, inl, inr, ◌==◌, ltb, leb, if◌then◌else◌, u64, u32, sub64, sub32,
  bswap16, bswap32, u8, u16, Bool-cases, store?, store?-eq-set, get_elem?, ◌>>=◌, ◌∙◌, sym, ap₂,
  min, max, ◌&&◌, ◌||◌, not, take, drop, replicate, length-append, length-replicate, append-nil,
  append_assoc, ◌>>>◌, bit_or, bit_and, bit_xor, ltb→lt, lt→ltb, le→ltb_false,
}

pub record Tables : Type 0 where
  pub entry : ℕ → ℕ → ℕ
  pub fresh : List ℕ

-- The attribute index, and who may access: `level` of `mmu_map_4kb`.
pub data MairIndex : Type 0 where
  device normal : MairIndex

pub data Access : Type 0 where
  el0 el1 shared : Access

abbrev pub mair_number : MairIndex → ℕ
mair_number device = 0
mair_number normal = 1

abbrev pub index_l0 : ℕ → ℕ
index_l0 va = bit_and (va >>> 39) 0x1FF

abbrev pub index_l1 : ℕ → ℕ
index_l1 va = bit_and (va >>> 30) 0x1FF

abbrev pub index_l2 : ℕ → ℕ
index_l2 va = bit_and (va >>> 21) 0x1FF

abbrev pub index_l3 : ℕ → ℕ
index_l3 va = bit_and (va >>> 12) 0x1FF

-- `x & 0xFFFFFFFFF000ULL`
pub address_of : ℕ → ℕ
address_of x = bit_and x 0xFFFFFFFFF000

-- The entry that points to a table.
pub table_entry : ℕ → ℕ
unfolding address_of
table_entry t = bit_or (address_of t) 3

abbrev pub permission : Access → ℕ
permission el0 = 1
permission el1 = 0
permission shared = 2

abbrev pub execute_never : Access → ℕ
execute_never el1 = 1
execute_never _ = 0

pub page_attr : MairIndex → Access → ℕ
page_attr attr_index level =
    bit_or
      (bit_or
        (bit_or (bit_or (bit_or (execute_never level * 2 ^ 54) (2 ^ 10)) (2 ^ 8))
          (permission level * 2 ^ 6))
        (mair_number attr_index * 2 ^ 2))
      3

pub block_attr : MairIndex → ℕ
block_attr attr_index =
    bit_or (bit_or (bit_or (bit_or (2 ^ 54) (2 ^ 10)) (3 * 2 ^ 8)) (mair_number attr_index * 2 ^ 2))
      1

pub page_entry : ℕ → MairIndex → Access → ℕ
unfolding address_of page_attr
page_entry pa attr_index level = bit_or (address_of pa) (page_attr attr_index level)

pub block_entry : ℕ → MairIndex → ℕ
unfolding address_of block_attr
block_entry pa attr_index = bit_or (address_of pa) (block_attr attr_index)

abbrev pub write_entry : ℕ → ℕ → ℕ → Tables → Tables
write_entry t i e s = record s {
  entry = λ u j. if u == t then (if j == i then e else s.entry u j) else s.entry u j;
}

-- A page of zeros for the table that the entry lacks; `none` is the panic of `talloc`.
pub add_table : ℕ → ℕ → Tables → Option Tables
unfolding table_entry
add_table t i s = elim s.fresh [
  | [] ↦ none
  | f ∷ fs ↦ some (
      write_entry t i (table_entry f)
        (record { entry = λ u j. if u == f then 0 else s.entry u j; fresh = fs }))
]

-- `if (!(t[i] & 1)) { … }` and the table below.
pub next_table : ℕ → ℕ → Tables → Option (ℕ × Tables)
unfolding add_table
next_table t i s = (if s.entry t i % 2 == 0 then add_table t i s else some s) >>= λ s'.
    some (address_of (s'.entry t i), s')

pub data Mapped : Type 0 where
  mapped : Tables → Mapped
  in_block : Tables → Mapped
  already_mapped : Tables → Mapped

pub mmu_map_4kb : ℕ → ℕ → ℕ → MairIndex → Access → Tables → Option Mapped
unfolding next_table page_entry
mmu_map_4kb root va pa attr_index level s = next_table root (index_l0 va) s >>= λ (l1, s₁).
    next_table l1 (index_l1 va) s₁ >>= λ (l2, s₂).
    if s₂.entry l2 (index_l2 va) % 4 == 1
    then some (in_block s₂)
    else (next_table l2 (index_l2 va) s₂ >>= λ (l3, s₃).
        if s₃.entry l3 (index_l3 va) % 2 == 1
        then some (already_mapped s₃)
        else some (mapped (write_entry l3 (index_l3 va) (page_entry pa attr_index level) s₃)))

pub mmu_map_2mb : ℕ → ℕ → ℕ → MairIndex → Tables → Option Tables
unfolding next_table block_entry
mmu_map_2mb root va pa attr_index s = next_table root (index_l0 va) s >>= λ (l1, s₁).
    next_table l1 (index_l1 va) s₁ >>= λ (l2, s₂).
    some (write_entry l2 (index_l2 va) (block_entry pa attr_index) s₂)

pub mmu_unmap : ℕ → ℕ → Tables → Tables
mmu_unmap root va s =
    if s.entry root (index_l0 va) % 2 == 0
    then s
    else (let l1 = address_of (s.entry root (index_l0 va)) in
        if s.entry l1 (index_l1 va) % 2 == 0
        then s
        else (let l2 = address_of (s.entry l1 (index_l1 va)) in
            if s.entry l2 (index_l2 va) % 2 == 0
            then s
            else if s.entry l2 (index_l2 va) % 4 == 1
            then write_entry l2 (index_l2 va) 0 s
            else write_entry (address_of (s.entry l2 (index_l2 va))) (index_l3 va) 0 s))

pub register_device_memory : ℕ → ℕ → ℕ → Tables → Option Mapped
unfolding mmu_map_4kb
register_device_memory root va pa s = mmu_map_4kb root va pa device el1 s

pub register_device_memory_2mb : ℕ → ℕ → ℕ → Tables → Option Tables
unfolding mmu_map_2mb
register_device_memory_2mb root va pa s = mmu_map_2mb root va pa device s

-- `kernel` is taken for the level: true is 1, for the kernel, and false is 0.
pub register_proc_memory : ℕ → ℕ → ℕ → Bool → Tables → Option Mapped
unfolding mmu_map_4kb
register_proc_memory root va pa kernel s =
    mmu_map_4kb root va pa normal (if kernel then el1 else el0) s
