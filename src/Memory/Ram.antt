-- ===== src/Memory/Ram.antt =====
-- kernel/memory/kalloc.c: MMIO regions, the size of RAM from the device tree, and its getters. The
-- linker's and the board's constants are parameters, and so is what `dtb_scan` finds.
pub mod Laws
mod Tests
use ionutnechita_redacted_os.Base.{
  ℕ, zero, suc, ◌+◌, ◌-◌, ◌*◌, ◌/◌, ◌%◌, ◌^◌, ◌≤◌, ◌<◌, ◌≡◌, ◌≢◌, ◌↔◌, refl, ap, Bool, true, false,
  Option, none, some, List, [], ◌∷◌, ◌++◌, arith, length, length-set, get_or, set,
  get_elem?-eq-get_or, ◌⊎◌, inl, inr, ◌==◌, ltb, leb, if◌then◌else◌, u64, u32, sub64, sub32,
  bswap16, bswap32, u8, u16, Bool-cases, store?, store?-eq-set, get_elem?, ◌>>=◌, ◌∙◌, sym, ap₂,
  min, max, ◌&&◌, ◌||◌, not, take, drop, replicate, length-append, length-replicate, append-nil,
  append_assoc, ◌>>>◌, bit_or, bit_and, bit_xor, ltb→lt, lt→ltb, le→ltb_false,
}
use ionutnechita_redacted_os.Base.Int.{pos}
use ionutnechita_redacted_os.Memory.TempHeap.{Outcome, returned, panicked, round_to_page}
use ionutnechita_redacted_os.Std.Compare.{strcmp}

-- `alloc_mmio_region`; the state is `next_mmio_base`.
pub alloc_mmio_region : ℕ → ℕ → ℕ → Outcome (ℕ × ℕ)
alloc_mmio_region mmio_base requested next_mmio_base =
    let next = if next_mmio_base == 0 then mmio_base else next_mmio_base in
    let size = round_to_page requested in
    if ltb (u64 (mmio_base + 0xfffffff)) (u64 (next + size))
    then panicked
    else returned (next, u64 (next + size))

pub is_mmio_allocated : ℕ → ℕ → ℕ → Bool
is_mmio_allocated mmio_base next_mmio_base addr = ltb mmio_base addr && ltb addr next_mmio_base

-- The fields of `dtb_match_t` that are used here.
pub record DtbMatch : Type 0 where
  pub reg_base : ℕ
  pub reg_size : ℕ
  pub found : Bool

-- A big-endian 32-bit word of the property.
pub word_at : List ℕ → ℕ → Option ℕ
word_at prop i = do
  a ← get_elem? prop i
  b ← get_elem? prop (i + 1)
  c ← get_elem? prop (i + 2)
  d ← get_elem? prop (i + 3)
  some (a * 2 ^ 24 + b * 2 ^ 16 + c * 2 ^ 8 + d)

-- The names "reg", "device_type" and "memory" with their NULs.
abbrev reg_name : List ℕ
reg_name = b'r' ∷ b'e' ∷ b'g' ∷ 0 ∷ []

abbrev device_type_name : List ℕ
device_type_name =
    b'd' ∷ b'e' ∷ b'v' ∷ b'i' ∷ b'c' ∷ b'e' ∷ b'_' ∷ b't' ∷ b'y' ∷ b'p' ∷ b'e' ∷ 0 ∷ []

abbrev memory_name : List ℕ
memory_name = b'm' ∷ b'e' ∷ b'm' ∷ b'o' ∷ b'r' ∷ b'y' ∷ 0 ∷ []

-- `strcmp(a, b, false) == 0`
same_text : List ℕ → List ℕ → Option Bool
same_text a b = strcmp (some a) (some b) false >>= λ r. some (elim r [ pos n ↦ n == 0 | _ ↦ false ])

-- The two 64-bit numbers of a `reg` property.
read_reg : List ℕ → DtbMatch → Option (ℕ × DtbMatch)
unfolding word_at
read_reg prop m = do
  base_high ← word_at prop 0
  base_low ← word_at prop 4
  size_high ← word_at prop 8
  size_low ← word_at prop 12
  some (
    1,
    record m {
      reg_base = bit_or (base_high * 2 ^ 32) base_low;
      reg_size = bit_or (size_high * 2 ^ 32) size_low;
    },
  )

-- The second test of `handle_mem_node`.
note_type : List ℕ → List ℕ → DtbMatch → Option (ℕ × DtbMatch)
unfolding same_text
note_type propname prop m = same_text propname device_type_name >>= λ is_type.
    if is_type
    then (same_text prop memory_name >>= λ is_memory.
        some (0, if is_memory then record m { found = true } else m))
    else some (0, m)

pub handle_mem_node : List ℕ → List ℕ → ℕ → DtbMatch → Option (ℕ × DtbMatch)
unfolding read_reg note_type
handle_mem_node propname prop len m = same_text propname reg_name >>= λ is_reg.
    if is_reg && leb 16 len then read_reg prop m else note_type propname prop m

-- The constants of the board and of the linker that `calc_ram` reads.
pub record Board : Type 0 where
  pub ram_start : ℕ
  pub ram_size : ℕ
  pub cram_start : ℕ
  pub cram_end : ℕ
  pub kfull_end : ℕ

pub record Ram : Type 0 where
  pub total_ram_size : ℕ
  pub total_ram_start : ℕ
  pub calculated_ram_size : ℕ
  pub calculated_ram_start : ℕ
  pub calculated_ram_end : ℕ

-- `x & ~((1 << 21) - 1)`
unfoldable pub round_to_2mb : ℕ → ℕ
round_to_2mb x = bit_and x ((2 ^ 43 - 1) * 2 ^ 21)

-- `get_memory_region` answers with what the scan of the device tree finds.
pub get_memory_region : Option DtbMatch → Option (ℕ × ℕ)
get_memory_region none = none
get_memory_region (some m) = some (m.reg_base, m.reg_size)

pub calc_ram : Board → Option DtbMatch → Ram → Ram
unfolding get_memory_region
calc_ram board scanned ram =
    let (start, size, cstart, cend) =
      (let chosen : ℕ × ℕ × ℕ × ℕ = (elim (get_memory_region scanned) [
        | some (start, size) ↦ (
          start,
          size,
          round_to_2mb (u64 (board.kfull_end + 1)),
          round_to_2mb (u64 (start + size)),
        )
        | none ↦ (board.ram_start, board.ram_size, board.cram_start, board.cram_end)
      ]) in
        chosen) in
    record {
      total_ram_size = size;
      total_ram_start = start;
      calculated_ram_size = sub64 cend cstart;
      calculated_ram_start = cstart;
      calculated_ram_end = cend;
    }

-- `calcvar`: a getter computes everything anew while its own variable is 0.
pub get_total_ram : Board → Option DtbMatch → Ram → ℕ × Ram
get_total_ram board scanned ram =
    let ram' = if ram.total_ram_size == 0 then calc_ram board scanned ram else ram in
    (ram'.total_ram_size, ram')

pub get_total_user_ram : Board → Option DtbMatch → Ram → ℕ × Ram
get_total_user_ram board scanned ram =
    let ram' = if ram.calculated_ram_size == 0 then calc_ram board scanned ram else ram in
    (ram'.calculated_ram_size, ram')

pub get_user_ram_start : Board → Option DtbMatch → Ram → ℕ × Ram
get_user_ram_start board scanned ram =
    let ram' = if ram.calculated_ram_start == 0 then calc_ram board scanned ram else ram in
    (ram'.calculated_ram_start, ram')

pub get_user_ram_end : Board → Option DtbMatch → Ram → ℕ × Ram
get_user_ram_end board scanned ram =
    let ram' = if ram.calculated_ram_end == 0 then calc_ram board scanned ram else ram in
    (ram'.calculated_ram_end, ram')
