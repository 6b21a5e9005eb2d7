-- ===== src/Memory/Pages/Single.antt =====
-- One page at a time: what `palloc` and `pfree` do to the bitmap.
use ionutnechita_redacted_os.Base.{
  ℕ, zero, suc, ◌+◌, ◌-◌, ◌*◌, ◌/◌, ◌%◌, ◌^◌, ◌≤◌, ◌<◌, ◌≡◌, ◌≢◌, refl, ap, Bool, true, false,
  Option, some, arith, ◌⊎◌, inl, inr, ◌==◌, ltb, Bool-cases, ==_of_ne, ==_refl, ◌∙◌, bit_or,
  bit_and,
}
use native.Mathlib.Nat.{mod-eq_of_lt}
use native.Mathlib.Decide.{ℕ_discrete}
use ionutnechita_redacted_os.Memory.Pages.{
  PageState, UserRam, page_size, all_ones, update, count_pages, pfree, trailing_ones, run_loop,
  bit_loop, take_pages, word_loop, palloc, table_words,
}
use ionutnechita_redacted_os.Memory.Pages.Bitmap.{
  bit_of, trailing_ones-clear, bit_or-set, bit_and-clear,
}

-- All words of the table are 64-bit words.
abbrev pub AreWords : PageState → Type 0
AreWords s = (i : ℕ) → s.bitmap i < 2 ^ 64

-- The page `64 * i + bit` was free, and is the only one whose bit the new state adds.
pub record Taken (s : PageState) (i bit a : ℕ) (s' : PageState) : Type 0 where
  pub bit_in : bit < 64
  pub was_free : bit_of (s.bitmap i) bit ≡ 0
  pub address : a ≡ (i * 64 + bit) * 4096
  pub now_used : s'.bitmap i ≡ s.bitmap i + 2 ^ bit
  pub others : (j : ℕ) → j ≢ i → s'.bitmap j ≡ s.bitmap j

bit_loop_single : (fuel w bit : ℕ) → bit < 2 ^ 63 → bit_loop (suc fuel) w 1 bit ≡ some bit
unfolding bit_loop
bit_loop_single fuel w bit h = ground arith

run_loop_unchecked :
    (w page_count bit : ℕ)
    → w ≢ 0
    → 0 < page_count
    → bit + page_count < 2 ^ 64
    → (left b : ℕ) → bit + page_count ≤ b + left + 0
    → run_loop (suc left) w page_count b bit true ≡ some (bit, true)
unfolding run_loop
run_loop_unchecked w page_count bit used pos fits zero b h = ground arith
run_loop_unchecked w page_count bit used pos fits (suc left) b h =
    ground (arith, run_loop_unchecked w page_count bit used pos fits left (b + 1))

take_single-Taken :
    (kernel device full : Bool) (s : PageState) (i : ℕ)
    → AreWords s
    → s.bitmap i ≢ all_ones
    → let bit = trailing_ones 64 (s.bitmap i) in
      let (a, s') = take_pages kernel device full 1 i bit 0 s in Taken s i bit a s'
unfolding take_pages
take_single-Taken kernel device full s i words ne =
    let bit = trailing_ones 64 (s.bitmap i) in
    let (lt, clear) = trailing_ones-clear 64 (s.bitmap i) (words i) ne in
    let m : bit % 64 ≡ bit = mod-eq_of_lt lt in
    record {
      bit_in = lt;
      was_free = clear;
      address = refl;
      now_used =
          rw (==_refl i)
            (ap (λ (t : ℕ). bit_or (s.bitmap i) (2 ^ t)) m ∙ bit_or-set bit (s.bitmap i) clear);
      others = λ j h. rw (==_of_ne j i h);
    }

-- What the search from word `i` on comes to: no free page in `rounds` words, or the first one.
abbrev pub Search : PageState → ℕ → ℕ → Option (ℕ × PageState) → Type 0
Search s i rounds r =
    ((r ≡ some (0, s)) × ((j : ℕ) → i ≤ j → j < i + rounds → s.bitmap j ≡ all_ones))
    ⊎ ((k : ℕ) × (bit : ℕ) × (a : ℕ) × (s' : PageState) × (r ≡ some (a, s'))
        × (i ≤ k)
        × (k < i + rounds)
        × ((j : ℕ) → i ≤ j → j < k → s.bitmap j ≡ all_ones)
        × Taken s k bit a s')

-- One full word further on.
Search-next :
    (s : PageState) (i rounds : ℕ) (r : Option (ℕ × PageState))
    → s.bitmap i ≡ all_ones
    → Search s (i + 1) rounds r
    → Search s i (suc rounds) r
Search-next s i rounds r e (inl (q, h)) = inl (q, λ j lo hi. full j (ℕ_discrete j i) lo hi)
  where
    full : (j : ℕ) → Dec (j ≡ i) → i ≤ j → j < i + suc rounds → s.bitmap j ≡ all_ones
    full j (yes p) lo hi = ap s.bitmap p ∙ e
    full j (no p) lo hi = h j (omega arith) (omega arith)
Search-next s i rounds r e (inr (k, bit, a, s', q, lo, hi, h, t)) =
    inr (k, bit, a, s', q, omega arith, omega arith, λ j l u. full j (ℕ_discrete j i) l u, t)
  where
    full : (j : ℕ) → Dec (j ≡ i) → i ≤ j → j < k → s.bitmap j ≡ all_ones
    full j (yes p) l u = ap s.bitmap p ∙ e
    full j (no p) l u = h j (omega arith) (omega arith)

word_loop_take :
    (fuel : ℕ) (kernel device full : Bool) (rounds i : ℕ) (s : PageState)
    → i < table_words
    → (s.bitmap i == all_ones) ≡ false
    → trailing_ones 64 (s.bitmap i) < 64
    → word_loop (suc fuel) kernel device full 1 (suc rounds) i s
      ≡ some (take_pages kernel device full 1 i (trailing_ones 64 (s.bitmap i)) 0 s)
unfolding word_loop
word_loop_take fuel kernel device full rounds i s in_table open_word lt =
    let bit = trailing_ones 64 (s.bitmap i) in
    let inside : ltb i table_words ≡ true = (ground arith) in
    let not_past : (bit == 64) ≡ false = (ground arith) in
    rw (inside, open_word, bit_loop_single fuel (s.bitmap i) bit (omega arith), word_loop)
      (ap pick not_past)
  where
    pick : Bool → Option (ℕ × PageState)
    pick past = elim past [
      | true ↦ word_loop (suc fuel) kernel device full 1 rounds (i + 1) s
      | false ↦ some (take_pages kernel device full 1 i (trailing_ones 64 (s.bitmap i)) 0 s)
    ]

word_loop-Search :
    (fuel : ℕ) (kernel device full : Bool) (rounds i : ℕ) (s : PageState)
    → AreWords s
    → i + rounds ≤ table_words
    → Search s i rounds (word_loop (suc fuel) kernel device full 1 rounds i s)
unfolding word_loop
word_loop-Search fuel kernel device full zero i s words table =
    inl (refl, λ j lo hi. absurd (omega arith))
word_loop-Search fuel kernel device full (suc rounds) i s words table =
    let inside : ltb i table_words ≡ true = (ground arith) in
    elim (Bool-cases (s.bitmap i == all_ones)) [
      | inl is_full ↦
          rw (inside, is_full, word_loop)
            (Search-next s i rounds _ (ground arith)
              (word_loop-Search fuel kernel device full rounds (i + 1) s words (omega arith)))
      | inr open_word ↦
          let ne : s.bitmap i ≢ all_ones = ground arith in
          let t = take_single-Taken kernel device full s i words ne in
          let bit = trailing_ones 64 (s.bitmap i) in
          let lt : bit < 64 = omega (arith, t.bit_in) in
          inr (
            i,
            bit,
            (take_pages kernel device full 1 i bit 0 s).0,
            (take_pages kernel device full 1 i bit 0 s).1,
            word_loop_take fuel kernel device full rounds i s (omega arith) open_word lt,
            omega arith,
            omega arith,
            λ j lo hi. absurd (omega arith),
            t,
          )
    ]

one_page : (size : ℕ) → 0 < size → size ≤ page_size → count_pages size page_size ≡ 1
unfolding count_pages
one_page size pos le = ground arith

last_lem : (x : ℕ) → x ≤ 2 ^ 34 → count_pages x page_size / 64 ≤ table_words
unfolding count_pages
last_lem x h = ground arith

no_words :
    (fuel : ℕ) (kernel device full : Bool) (i : ℕ) (s : PageState)
    → Search s i 0 (word_loop (suc fuel) kernel device full 1 0 i s)
unfolding word_loop
no_words fuel kernel device full i s = inl (refl, λ j lo hi. absurd (omega arith))

in_table :
    (fuel : ℕ) (kernel device full : Bool) (first last : ℕ) (s : PageState)
    → AreWords s
    → last ≤ table_words
    → Search s first
        (last - first)
        (word_loop (suc fuel) kernel device full 1 (last - first) first s)
in_table fuel kernel device full first last s words h = elim (le_cases first last) [
  | inl ahead ↦ word_loop-Search fuel kernel device full (last - first) first s words (omega arith)
  | inr behind ↦
      let none_left : last - first ≡ 0 = omega arith in
      rw none_left (no_words fuel kernel device full first s)
]
  where
    le_cases : (a b : ℕ) → (a ≤ b) ⊎ (b ≤ a)
    le_cases a b = ground arith

-- For one page or less, but not for no byte, and with user memory that ends at 2 ^ 34 at the latest,
-- where the table ends too: `palloc` with any fuel above 0, on a table of 64-bit words, answers 0 and
-- changes nothing where all words of the user memory are full, and otherwise takes a page whose bit was clear, in the first word
-- that is not full: it sets that bit and no other, and returns that page's address.
pub palloc-Search :
    (fuel : ℕ) (ram : UserRam) (size : ℕ) (kernel device full : Bool) (s : PageState)
    → 0 < size
    → size ≤ page_size
    → ram.ram_end ≤ 2 ^ 34
    → AreWords s
    → let first = count_pages ram.ram_start page_size / 64 in
      let last = count_pages ram.ram_end page_size / 64 in
      Search s first (last - first) (palloc (suc fuel) ram size kernel device full s)
unfolding palloc
palloc-Search fuel ram size kernel device full s pos le top words =
    let first = count_pages ram.ram_start page_size / 64 in
    let last = count_pages ram.ram_end page_size / 64 in
    rw (one_page size pos le)
      (in_table fuel kernel device full first last s words (last_lem ram.ram_end top))

-- Freeing a page of the table that was taken restores every word of the table.
pub pfree-Taken :
    (s s' : PageState) (i bit a size : ℕ)
    → i < table_words
    → AreWords s'
    → Taken s i bit a s'
    → (s'' : PageState) × (pfree a size s' ≡ some s'') × ((j : ℕ) → s''.bitmap j ≡ s.bitmap j)
unfolding pfree
pfree-Taken s s' i bit a size in_range words t =
    let e : a / page_size / 64 ≡ i = omega (arith, t.address, t.bit_in) in
    let f : a / page_size % 64 % 64 ≡ bit = omega (arith, t.address, t.bit_in) in
    let inside : ltb (a / page_size / 64) table_words ≡ true = (ground arith) in
    (
      record s' {
        bitmap =
            update s'.bitmap (a / page_size / 64)
              (bit_and (s'.bitmap (a / page_size / 64)) (all_ones - 2 ^ (a / page_size % 64 % 64)));
      },
      rw inside refl,
      λ j. rw e (
          at_word j (ℕ_discrete j i)
            (ap (λ (b : ℕ). bit_and (s'.bitmap i) (all_ones - 2 ^ b)) f ∙ cleared)),
    )
  where
    cleared : bit_and (s'.bitmap i) (all_ones - 2 ^ bit) ≡ s.bitmap i
    cleared =
        ap (λ (w : ℕ). bit_and w (all_ones - 2 ^ bit)) t.now_used
        ∙ bit_and-clear 64 bit (s.bitmap i) t.bit_in (omega (arith, t.now_used, words i)) t.was_free

    at_word : (j : ℕ) → Dec (j ≡ i) → {w : ℕ} → w ≡ s.bitmap i → update s'.bitmap i w j ≡ s.bitmap j
    at_word j (yes p) q = rw (p, ==_refl i) q
    at_word j (no p) q = rw (==_of_ne j i p) (t.others j p)

-- The test of a run of pages looks at no bit behind the first, once the word has a page in use:
-- `palloc` of several pages takes the first clear bit, whatever pages behind it are in use.
pub bit_loop_unchecked :
    (w page_count bit : ℕ)
    → w ≢ 0
    → 0 < page_count
    → bit + page_count < 2 ^ 64
    → bit_loop (suc page_count) w page_count bit ≡ some bit
unfolding bit_loop
bit_loop_unchecked w page_count bit used pos fits =
    rw (run_loop_unchecked w page_count bit used pos fits page_count bit (omega arith))
