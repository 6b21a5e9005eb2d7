-- ===== src/Memory/Pages.antt =====
-- kernel/memory/page_allocator.c: the page bitmap, and the allocator inside pages. The bitmap is
-- a function from the table's index, below 65536, to its 64-bit word; the outcome `none` is an access
-- outside the table or to a page without a header. The calls that enter a page into the MMU's
-- tables are a list of events. A shift by more than the operand's width goes as on AArch64, by
-- the amount modulo the width. `get_user_ram_start` and `get_user_ram_end` are parameters.
pub mod Bitmap
pub mod Single
mod Tests
use ionutnechita_redacted_os.Base.{
  ℕ, zero, suc, ◌+◌, ◌-◌, ◌*◌, ◌/◌, ◌%◌, ◌^◌, ◌≤◌, ◌<◌, ◌≡◌, ◌≢◌, ◌↔◌, refl, ap, Bool, true, false,
  Option, none, some, List, [], ◌∷◌, ◌++◌, arith, length, length-set, get_or, set,
  get_elem?-eq-get_or, ◌⊎◌, inl, inr, ◌==◌, ltb, leb, if◌then◌else◌, u64, u32, sub64, sub32,
  bswap16, bswap32, u8, u16, Bool-cases, store?, store?-eq-set, get_elem?, ◌>>=◌, ◌∙◌, sym, ap₂,
  min, max, ◌&&◌, ◌||◌, not, take, drop, replicate, length-append, length-replicate, append-nil,
  append_assoc, ◌>>>◌, bit_or, bit_and, bit_xor, ltb→lt, lt→ltb, le→ltb_false,
}
use ionutnechita_redacted_os.Memory.Region.{
  Region, region, clear, write_header, head_address, unlinked, first_fit,
}

-- `mem_page`; its address is where it is found.
pub record MemPage : Type 0 where
  pub next : ℕ
  pub free_list : List Region
  pub next_free_mem_ptr : ℕ
  pub size : ℕ

-- `register_device_memory` and `register_proc_memory` at an address.
pub data Mapping : Type 0 where
  device_memory : ℕ → Mapping
  proc_memory : ℕ → Bool → Mapping

pub record PageState : Type 0 where
  pub bitmap : ℕ → ℕ
  pub mapped : List Mapping
  pub pages : ℕ → Option MemPage
  pub mem : ℕ → ℕ

abbrev pub page_size : ℕ
page_size = 4096

abbrev pub all_ones : ℕ
all_ones = 2 ^ 64 - 1

abbrev pub update {ℓ} : {A : Type ℓ} → (ℕ → A) → ℕ → A → ℕ → A
update f i v j = if j == i then v else f j

-- `PAGE_TABLE_ENTRIES`
abbrev pub table_words : ℕ
table_words = 65536

-- `page_allocator_init` clears the whole table.
pub page_allocator_init : PageState → PageState
page_allocator_init s = record s { bitmap = λ i. if ltb i table_words then 0 else s.bitmap i }

-- An `int`, which all callers take for a `uint64_t`.
pub count_pages : ℕ → ℕ → ℕ
count_pages i1 i2 =
    let n = u32 (i1 / i2 + (if ltb 0 (i1 % i2) then 1 else 0)) in
    if ltb n (2 ^ 31) then n else 2 ^ 64 - 2 ^ 32 + n

-- `1ULL << n`
abbrev pub bit_at : ℕ → ℕ
bit_at n = 2 ^ (n % 64)

pub pfree : ℕ → ℕ → PageState → Option PageState
pfree ptr size s =
    let addr = ptr / page_size in
    let i = addr / 64 in
    if ltb i table_words
    then some (record s {
      bitmap = update s.bitmap i (bit_and (s.bitmap i) (all_ones - bit_at (addr % 64)));
    })
    else none

-- `__builtin_ctzll(~w)`, the number of ones at the low end of `w`, in at most `n` binary digits.
pub trailing_ones : ℕ → ℕ → ℕ
trailing_ones zero w = 0
trailing_ones (suc n) w = let rest = trailing_ones n (w / 2) in if w % 2 == 1 then rest + 1 else 0

-- `!w >> b & 1` is `((!w) >> b) & 1`.
abbrev not_shifted : ℕ → ℕ → Bool
not_shifted w b = w == 0 && b % 32 == 0

-- The `for` loop over `b`; `none` means that the fuel ran out.
pub run_loop : ℕ → ℕ → ℕ → ℕ → ℕ → Bool → Option (ℕ × Bool)
run_loop zero w page_count b bit found = none
run_loop (suc fuel) w page_count b bit found = elim (ltb b (u64 (bit + sub64 page_count 1))) [
  | false ↦ some (bit, found)
  | true ↦ elim (not_shifted w b) [
    | true ↦ run_loop fuel w page_count (b + 1) (u64 (bit + page_count)) false
    | false ↦ run_loop fuel w page_count (b + 1) bit found
  ]
]

-- The `do … while (bit < 64)` loop: where it leaves `bit`.
pub bit_loop : ℕ → ℕ → ℕ → ℕ → Option ℕ
unfolding run_loop
bit_loop zero w page_count bit = none
bit_loop (suc fuel) w page_count bit =
    run_loop (suc fuel) w page_count bit bit true >>= λ (bit', found).
    elim (found || not (ltb bit' 64)) [ true ↦ some bit' | false ↦ bit_loop fuel w page_count bit' ]

-- One page of the loop over `j`: mark it, enter it in the tables, and give it a header unless the
-- caller takes it whole.
pub take_page : Bool → Bool → Bool → ℕ → ℕ → PageState → ℕ × PageState
take_page kernel device full i bit s =
    let address = (i * 64 + bit) * page_size in
    (
      address,
      record s {
        bitmap = update s.bitmap i (bit_or (s.bitmap i) (bit_at bit));
        mapped =
            (if device && kernel then device_memory address else proc_memory address kernel)
            ∷ s.mapped;
        pages =
            if full
            then s.pages
            else update s.pages address (
                some (record {
                  next = 0;
                  free_list = [];
                  next_free_mem_ptr = address + 32;
                  size = 0;
                }));
      },
    )

-- The loop over `j`, `left` pages before its end; `first` is `first_address`.
pub take_pages : Bool → Bool → Bool → ℕ → ℕ → ℕ → ℕ → PageState → ℕ × PageState
unfolding take_page
take_pages kernel device full zero i bit first s = (first, s)
take_pages kernel device full (suc left) i bit first s =
    let (address, s') = take_page kernel device full i bit s in
    take_pages kernel device full left i (bit + 1) (if first == 0 then address else first) s'

-- The loop over the words of the table, `rounds` before `end / 64`. 0 is the answer of a table
-- with no room. `none` also means that the fuel ran out.
pub word_loop : ℕ → Bool → Bool → Bool → ℕ → ℕ → ℕ → PageState → Option (ℕ × PageState)
word_loop fuel kernel device full page_count zero i s = some (0, s)
word_loop fuel kernel device full page_count (suc rounds) i s = elim (ltb i table_words) [
  | false ↦ none
  | true ↦ elim (s.bitmap i == all_ones) [
    | true ↦ word_loop fuel kernel device full page_count rounds (i + 1) s
    | false ↦ bit_loop fuel (s.bitmap i) page_count (trailing_ones 64 (s.bitmap i)) >>= λ bit.
        elim (bit == 64) [
          | true ↦ word_loop fuel kernel device full page_count rounds (i + 1) s
          | false ↦ some (take_pages kernel device full page_count i bit 0 s)
        ]
  ]
]

-- What `palloc` reads of the memory layout.
pub record UserRam : Type 0 where
  pub ram_start : ℕ
  pub ram_end : ℕ

pub palloc : ℕ → UserRam → ℕ → Bool → Bool → Bool → PageState → Option (ℕ × PageState)
unfolding word_loop count_pages
palloc fuel ram size kernel device full s =
    let first = count_pages ram.ram_start page_size / 64 in
    let last = count_pages ram.ram_end page_size / 64 in
    word_loop fuel kernel device full (count_pages size page_size) (last - first) first s

-- The loop of `mark_used`, `left` pages before its end, at `idx`.
pub mark_loop : ℕ → ℕ → (ℕ → ℕ) → Option (ℕ → ℕ)
mark_loop zero idx bitmap = some bitmap
mark_loop (suc left) idx bitmap = elim (ltb (idx / 64) table_words) [
  | false ↦ none
  | true ↦
      mark_loop left (u64 (idx + 1))
        (update bitmap (idx / 64) (bit_or (bitmap (idx / 64)) (2 ^ (idx % 64))))
]

pub mark_used : UserRam → ℕ → ℕ → PageState → Option PageState
unfolding mark_loop count_pages
mark_used ram address pages s =
    if not (bit_and address (page_size - 1) == 0) || pages == 0
    then some s
    else (let page_index =
          sub64 (address / (page_size * 64)) (count_pages ram.ram_start page_size / 64) in
        mark_loop pages page_index s.bitmap >>= λ bitmap. some (record s { bitmap = bitmap }))

-- `x & ~(alignment - 1)`, where `alignment - 1` is an `int`.
abbrev pub align_down : ℕ → ℕ → ℕ
align_down x alignment = bit_and x (sub64 0 alignment)

-- The full-page branch of `kalloc`: one `palloc` for each page of `size`, each page cleared.
pub full_pages : ℕ → UserRam → Bool → Bool → ℕ → ℕ → PageState → Option (ℕ × PageState)
unfolding palloc
full_pages fuel ram kernel device zero first s = some (first, s)
full_pages fuel ram kernel device (suc left) first s =
    palloc fuel ram page_size kernel device true s >>= λ (ptr, s').
    full_pages fuel ram kernel device left (if first == 0 then ptr else first)
      (record s' { mem = clear s'.mem ptr page_size })

-- The branch of `kalloc` that serves a size below a page from the page at `page`. The outcome is
-- the address, or the page to go on with; `none` is an access to a page without a header.
pub data Served : Type 0 where
  at_address : ℕ → PageState → Served
  go_on : ℕ → PageState → Served

pub within_page : ℕ → UserRam → ℕ → ℕ → ℕ → Bool → Bool → PageState → Option Served
unfolding palloc
within_page fuel ram page size alignment kernel device s = s.pages page >>= λ info.
    elim (first_fit size info.free_list) [
      | some (b, rest) ↦ some (
          at_address b.addr (record s {
            mem = clear (unlinked size info.free_list s.mem) b.addr size;
            pages =
                update s.pages page
                  (some (record info { free_list = rest; size = u64 (info.size + size) }));
          }))
      | none ↦
          (let p = align_down (u64 (info.next_free_mem_ptr + alignment - 1)) alignment in
            let aligned = record info { next_free_mem_ptr = p } in
            elim (ltb (page + page_size) (u64 (p + size))) [
              | true ↦ elim (info.next == 0) [
                | false ↦
                    some (go_on info.next (record s { pages = update s.pages page (some aligned) }))
                | true ↦
                    palloc fuel ram page_size kernel device false
                      (record s { pages = update s.pages page (some aligned) })
                    >>= λ (q, s'). some (
                        go_on q (record s' {
                          pages = update s'.pages page (some (record aligned { next = q }));
                        }))
              ]
              | false ↦ some (
                  at_address p (record s {
                    mem = clear s.mem p size;
                    pages = update s.pages page (
                        some (record aligned {
                          next_free_mem_ptr = u64 (p + size);
                          size = u64 (info.size + size);
                        }));
                  }))
            ])
    ]

-- `kalloc` on a chain of at most `depth` pages.
unfoldable pub kalloc :
    ℕ → ℕ → UserRam → ℕ → ℕ → ℕ → Bool → Bool → PageState → Option (ℕ × PageState)
unfolding within_page full_pages
kalloc zero fuel ram page requested alignment kernel device s = none
kalloc (suc depth) fuel ram page requested alignment kernel device s =
    let size = align_down (u64 (requested + alignment + (2 ^ 64 - 1))) alignment in
    elim (leb page_size size) [
      | true ↦ full_pages fuel ram kernel device ((size + 4095) / page_size) 0 s
      | false ↦ within_page fuel ram page size alignment kernel device s >>= λ r. elim r [
        | at_address a s' ↦ some (a, s')
        | go_on q s' ↦ kalloc depth fuel ram q size alignment kernel device s'
      ]
    ]

-- The page of a block is found by its address.
abbrev pub page_of : ℕ → ℕ
page_of ptr = bit_and ptr ((2 ^ 52 - 1) * 2 ^ 12)

pub kfree : ℕ → ℕ → PageState → Option PageState
kfree ptr size s = s.pages (page_of ptr) >>= λ info. some (record s {
  mem = write_header (clear s.mem ptr size) ptr size (head_address info.free_list);
  pages = update s.pages (page_of ptr) (
      some (record info {
        free_list = region ptr size ∷ info.free_list;
        size = sub64 info.size size;
      }));
})

-- `free_sized` of a pointer with its size.
unfoldable pub free_sized : ℕ × ℕ → PageState → Option PageState
unfolding kfree
free_sized (ptr, size) s = kfree ptr size s
