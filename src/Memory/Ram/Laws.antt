-- ===== src/Memory/Ram/Laws.antt =====
-- What the MMIO allocator and `calc_ram` promise.
use ionutnechita_redacted_os.Base.{ℕ, ◌+◌, ◌*◌, ◌/◌, ◌%◌, ◌^◌, ◌≤◌, ◌<◌, ◌≡◌, some, arith, u64}
use ionutnechita_redacted_os.Base.Bits.{bit_and_round}
use ionutnechita_redacted_os.Memory.Ram.{Board, Ram, DtbMatch, calc_ram, round_to_2mb}

round_to_2mb_lem : (x : ℕ) → x < 2 ^ 64 → round_to_2mb x ≡ x / 2 ^ 21 * 2 ^ 21
unfolding round_to_2mb
round_to_2mb_lem x h = bit_and_round 21 43 x (omega arith)

-- From the device tree, the user memory of `calc_ram` starts and ends at multiples of 2 MiB; its
-- end is rounded down, and so is its start, which lies at the end of the kernel's image plus
-- one or up to 2 MiB before it.
pub calc_ram_bounds :
    (board : Board) (m : DtbMatch) (ram : Ram)
    → board.kfull_end + 1 < 2 ^ 64
    → m.reg_base + m.reg_size < 2 ^ 64
    → let r = calc_ram board (some m) ram in
      (r.calculated_ram_start ≤ board.kfull_end + 1)
      × (board.kfull_end + 1 < r.calculated_ram_start + 2 ^ 21)
      × (r.calculated_ram_start % 2 ^ 21 ≡ 0)
      × (r.calculated_ram_end ≤ m.reg_base + m.reg_size)
      × (r.calculated_ram_end % 2 ^ 21 ≡ 0)
unfolding calc_ram
calc_ram_bounds board m ram h k = omega (
  arith,
  round_to_2mb_lem (u64 (board.kfull_end + 1)) (omega arith),
  round_to_2mb_lem (u64 (m.reg_base + m.reg_size)) (omega arith),
)
