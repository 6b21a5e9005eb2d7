-- ===== src/Memory/Ram/Tests.antt =====
-- The layout of RAM of kernel/memory/kalloc.c on concrete boards.
use ionutnechita_redacted_os.Base.{
  ℕ, ◌+◌, ◌%◌, ◌^◌, ◌≤◌, ◌<◌, ◌≡◌, refl, true, Option, none, some, List, [], ◌∷◌, arith,
}
use ionutnechita_redacted_os.Std.Compare.{strcmp, fold_case}
use ionutnechita_redacted_os.Memory.Ram.{
  DtbMatch, handle_mem_node, Board, Ram, get_memory_region, calc_ram, get_total_ram,
  get_total_user_ram, get_user_ram_start, get_user_ram_end,
}
use ionutnechita_redacted_os.Memory.Ram.Laws.{calc_ram_bounds}

abbrev board : Board
board = record {
  ram_start = 0x40000000;
  ram_size = 0x20000000;
  cram_start = 0x43600000;
  cram_end = 0x60000000;
  kfull_end = 0x435ff123;
}

abbrev memory : DtbMatch
memory = record { reg_base = 0x40000000; reg_size = 0x10001000; found = true }

abbrev before : Ram
before = record {
  total_ram_size = 0;
  total_ram_start = 0;
  calculated_ram_size = 0;
  calculated_ram_start = 0;
  calculated_ram_end = 0;
}

calc_ram_bounds_test :
    let r = calc_ram board (some memory) before in
    (r.calculated_ram_start ≤ 0x435ff124)
    × (0x435ff124 < r.calculated_ram_start + 2 ^ 21)
    × (r.calculated_ram_start % 2 ^ 21 ≡ 0)
    × (r.calculated_ram_end ≤ 0x50001000)
    × (r.calculated_ram_end % 2 ^ 21 ≡ 0)
calc_ram_bounds_test = calc_ram_bounds board memory before (omega arith) (omega arith)

-- The property `reg` and what lies behind it.
abbrev memory_cells : List ℕ
memory_cells = 0 ∷ 0 ∷ 0 ∷ 0 ∷ 0x40 ∷ 0 ∷ 0 ∷ 0 ∷ 0 ∷ 0 ∷ 0 ∷ 0 ∷ 0x20 ∷ 0 ∷ 0 ∷ 0 ∷ []

getters_test :
    ((get_total_ram board none before).0 ≡ 0x20000000)
    × ((get_total_user_ram board none before).0 ≡ 0x1ca00000)
    × ((get_user_ram_start board none before).0 ≡ 0x43600000)
    × ((get_user_ram_end board none before).0 ≡ 0x60000000)
unfolding get_total_ram get_total_user_ram get_user_ram_start get_user_ram_end calc_ram
    get_memory_region
getters_test = (refl, refl, refl, refl)

abbrev base_and_size : Option (ℕ × DtbMatch) → ℕ × ℕ
base_and_size none = (0, 0)
base_and_size (some (answer, m)) = (m.reg_base, m.reg_size)

handle_mem_node_test :
    base_and_size (handle_mem_node (b'r' ∷ b'e' ∷ b'g' ∷ 0 ∷ []) memory_cells 16 memory)
    ≡ (0x40000000, 0x20000000)
unfolding handle_mem_node strcmp fold_case
handle_mem_node_test = refl
