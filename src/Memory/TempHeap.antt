-- ===== src/Memory/TempHeap.antt =====
-- kernel/memory/kalloc.c: the kernel's page-sized allocator, `talloc` and `temp_free`. The free
-- list lies in the first 16 bytes of the freed blocks themselves, which nothing else writes: it is a
-- list here, and what is written to those bytes is in `mem`. The printing under
-- `talloc_verbose` is left out. `panic_with_info` does not return.
pub mod Layout
mod Tests
use ionutnechita_redacted_os.Base.{
  ℕ, zero, suc, ◌+◌, ◌-◌, ◌*◌, ◌/◌, ◌%◌, ◌^◌, ◌≤◌, ◌<◌, ◌≡◌, ◌≢◌, ◌↔◌, refl, ap, Bool, true, false,
  Option, none, some, List, [], ◌∷◌, ◌++◌, arith, length, length-set, get_or, set,
  get_elem?-eq-get_or, ◌⊎◌, inl, inr, ◌==◌, ltb, leb, if◌then◌else◌, u64, u32, u8, u16, Bool-cases,
  store?, store?-eq-set, get_elem?, ◌>>=◌, ◌∙◌, sym, ap₂, min, max, ◌&&◌, ◌||◌, not, take, drop,
  replicate, length-append, length-replicate, append-nil, append_assoc, ◌>>>◌, bit_or, bit_and,
  bit_xor, ltb→lt, lt→ltb, le→ltb_false,
}
use ionutnechita_redacted_os.Memory.Region.{
  Region, region, clear, write_header, head_address, unlinked, first_fit,
}

-- The variables of the file, and memory.
pub record TempHeap : Type 0 where
  pub next_free_temp_memory : ℕ
  pub temp_free_list : List Region
  pub mem : ℕ → ℕ

pub data Outcome (A : Type 0) : Type 0 where
  returned : A → Outcome A
  panicked : Outcome A

-- `(size + 0xFFF) & ~0xFFF`
unfoldable pub round_to_page : ℕ → ℕ
round_to_page size = bit_and (u64 (size + 0xfff)) ((2 ^ 52 - 1) * 2 ^ 12)

-- `heap_limit` is the address that the linker gives.
pub talloc : ℕ → ℕ → TempHeap → Outcome (ℕ × TempHeap)
talloc heap_limit requested h =
    let size = round_to_page requested in
    elim (first_fit size h.temp_free_list) [
      | some (b, rest) ↦ returned (
        b.addr,
        record h {
          temp_free_list = rest;
          mem = clear (unlinked size h.temp_free_list h.mem) b.addr size;
        },
      )
      | none ↦
          if ltb heap_limit (u64 (h.next_free_temp_memory + size))
          then panicked
          else (let result = h.next_free_temp_memory in
              returned (
                result,
                record h {
                  next_free_temp_memory = u64 (result + size);
                  mem = clear h.mem result size;
                },
              ))
    ]

-- `block` becomes the head of the free list.
pub temp_free : ℕ → ℕ → TempHeap → TempHeap
temp_free ptr requested h =
    let size = round_to_page requested in
    record h {
      temp_free_list = region ptr size ∷ h.temp_free_list;
      mem = write_header (clear h.mem ptr size) ptr size (head_address h.temp_free_list);
    }
