-- ===== src/Memory/Pages/Tests.antt =====
-- The page allocator of kernel/memory/page_allocator.c on concrete tables.
use ionutnechita_redacted_os.Base.{
  ℕ, ◌-◌, ◌/◌, ◌^◌, ◌≡◌, refl, true, false, Option, none, some, [], arith, ◌==◌, if◌then◌else◌,
  ◌>>=◌,
}
use ionutnechita_redacted_os.Memory.Region.{first_fit}
use ionutnechita_redacted_os.Memory.Pages.{
  PageState, UserRam, page_size, count_pages, page_allocator_init, pfree, bit_loop, palloc,
  mark_used, kalloc, kfree, free_sized,
}
use ionutnechita_redacted_os.Memory.Pages.Single.{
  AreWords, Taken, Search, palloc-Search, pfree-Taken, bit_loop_unchecked,
}

-- Pages 0, 1 and 3 are in use.
abbrev table : PageState
table = record {
  bitmap = λ i. if i == 0 then 11 else 0;
  mapped = [];
  pages = λ a. none;
  mem = λ a. 0;
}

table-AreWords : AreWords table
table-AreWords i = ground arith

abbrev ram : UserRam
ram = record { ram_start = 0; ram_end = 0x100000 }

palloc-Search_example :
    let first = count_pages 0 page_size / 64 in
    let last = count_pages 0x100000 page_size / 64 in
    Search table first (last - first) (palloc 1 ram 4096 true false true table)
palloc-Search_example =
    palloc-Search 0 ram 4096 true false true table (omega arith) (omega arith) (omega arith)
      table-AreWords

-- The same table with page 2 taken.
abbrev taken : PageState
taken = record table { bitmap = λ i. if i == 0 then 15 else 0 }

taken-AreWords : AreWords taken
taken-AreWords i = ground arith

taken-Taken : Taken table 0 2 8192 taken
taken-Taken = record {
  bit_in = omega arith;
  was_free = refl;
  address = refl;
  now_used = refl;
  others = λ j h. ground arith;
}

pfree-Taken_example :
    (s'' : PageState) × (pfree 8192 4096 taken ≡ some s'')
    × ((j : ℕ) → s''.bitmap j ≡ table.bitmap j)
pfree-Taken_example = pfree-Taken table taken 0 2 8192 4096 (omega arith) taken-AreWords taken-Taken

-- Of the pages 2, 3 and 4, page 3 is in use.
bit_loop_unchecked_test : bit_loop 4 11 3 2 ≡ some 2
bit_loop_unchecked_test =
    bit_loop_unchecked 11 3 2 (λ e. absurd (omega arith)) (omega arith) (omega arith)

-- An address inside a page marks nothing.
mark_used_test : mark_used ram 4097 1 table ≡ some table
unfolding mark_used
mark_used_test = refl

-- A count that is negative as an `int`, and a user memory that goes on behind the table.
behind_test :
    (count_pages (2 ^ 43) page_size ≡ 2 ^ 64 - 2 ^ 31)
    × (palloc 1 (record { ram_start = 2 ^ 34; ram_end = 2 ^ 35 }) 4096 true false true table ≡ none)
unfolding count_pages palloc
behind_test = (refl, refl)

init_test : (page_allocator_init table).bitmap 0 ≡ 0
unfolding page_allocator_init
init_test = refl

-- A block that was given out at 4128 is handed out again once it is free.
abbrev answer : Option (ℕ × PageState) → ℕ
answer none = 0
answer (some (a, s)) = a

abbrev with_page : PageState
with_page = record table {
  pages = λ a.
      if a == 4096
      then some (record { next = 0; free_list = []; next_free_mem_ptr = 4200; size = 72 })
      else none;
}

kalloc_test :
    answer (free_sized (4128, 64) with_page >>= λ s. kalloc 2 3 ram 4096 60 16 true false s) ≡ 4128
unfolding kalloc kfree free_sized first_fit
kalloc_test = refl
