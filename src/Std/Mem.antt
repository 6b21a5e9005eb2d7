-- ===== src/Std/Mem.antt =====
-- shared/std/memfunctions.c and kernel/memory/memory_access.c on little-endian bytes. A buffer is
-- the list of its bytes; the outcome `none` is an access outside it.
pub mod Fill
pub mod Copy
mod Tests
use ionutnechita_redacted_os.Base.{
  ℕ, zero, suc, ◌+◌, ◌-◌, ◌*◌, ◌/◌, ◌%◌, ◌^◌, ◌≤◌, ◌<◌, ◌≡◌, ◌≢◌, ◌↔◌, refl, ap, Bool, true, false,
  Option, none, some, List, [], ◌∷◌, ◌++◌, arith, length, length-set, get_or, set,
  get_elem?-eq-get_or, ◌⊎◌, inl, inr, ◌==◌, ltb, leb, if◌then◌else◌, u64, u32, u8, u16, Bool-cases,
  store?, store?-eq-set, get_elem?, ◌>>=◌, ◌∙◌, sym, ap₂, min, max, ◌&&◌, ◌||◌, not, take, drop,
  replicate, length-append, length-replicate, append-nil, append_assoc, ◌>>>◌, bit_or, bit_and,
  bit_xor, ltb→lt, lt→ltb, le→ltb_false,
}
use ionutnechita_redacted_os.Base.Int.{ℤ, pos, sub_ℕ}

-- `memcmp`, `count` bytes before the end; the difference of the first two that differ.
pub memcmp : List ℕ → List ℕ → ℕ → Option ℤ
memcmp s1 s2 zero = some (pos 0)
memcmp [] s2 (suc count) = none
memcmp (a ∷ s1) [] (suc count) = none
memcmp (a ∷ s1) (b ∷ s2) (suc count) = if a == b then memcmp s1 s2 count else some (sub_ℕ a b)

-- The `n` bytes of a word in memory, lowest first.
abbrev pub bytes_of : ℕ → ℕ → List ℕ
bytes_of zero w = []
bytes_of (suc n) w = w % 2 ^ 8 ∷ bytes_of n (w / 2 ^ 8)

-- Storing a list of bytes at the start of a buffer.
abbrev pub put : List ℕ → List ℕ → Option (List ℕ)
put [] buf = some buf
put (b ∷ bs) [] = none
put (b ∷ bs) (c ∷ buf) = do buf' ← put bs buf; some (b ∷ buf')

-- `memset`'s 32-byte blocks, `d64 += 4` after each. The pattern repeats the 32-bit `val`.
pub fill_words : ℕ → ℕ → List ℕ
fill_words zero pattern = []
fill_words (suc n) pattern = bytes_of 8 pattern ++ fill_words n pattern

pub fill_blocks : ℕ → ℕ → List ℕ
unfolding fill_words
fill_blocks zero pattern = []
fill_blocks (suc n) pattern = fill_words 4 pattern ++ fill_blocks n pattern

-- The bytes that `memset` writes from `dest` on, in the order in which it writes them.
pub memset_bytes : ℕ → ℕ → List ℕ
unfolding fill_blocks
memset_bytes val count =
    let pattern = bit_or (val * 2 ^ 32) val in
    fill_blocks (count / 32) pattern
    ++ (fill_words (count % 32 / 8) pattern ++ replicate (count % 8) (val % 2 ^ 8))

pub memset : List ℕ → ℕ → ℕ → Option (List ℕ)
unfolding memset_bytes
memset dest val count = put (memset_bytes val count) dest

-- The word that bytes in memory are, lowest first.
abbrev pub word_of : List ℕ → ℕ
word_of [] = 0
word_of (b ∷ bs) = b + 2 ^ 8 * word_of bs

-- One 64-bit load of `memcpy`: the word, and what is left of the source.
pub load_word : List ℕ → Option (ℕ × List ℕ)
load_word (a ∷ b ∷ c ∷ d ∷ e ∷ f ∷ g ∷ h ∷ src) =
    some (word_of (a ∷ b ∷ c ∷ d ∷ e ∷ f ∷ g ∷ h ∷ []), src)
load_word _ = none

-- `n` words loaded and stored, the stores gathered in `out`.
pub copy_words : ℕ → List ℕ → List ℕ → Option (List ℕ × List ℕ)
unfolding load_word
copy_words zero src out = some (src, out)
copy_words (suc n) src out = do (w, src') ← load_word src; copy_words n src' (out ++ bytes_of 8 w)

pub copy_blocks : ℕ → List ℕ → List ℕ → Option (List ℕ × List ℕ)
unfolding copy_words
copy_blocks zero src out = some (src, out)
copy_blocks (suc n) src out = do (src', out') ← copy_words 4 src out; copy_blocks n src' out'

pub copy_bytes : ℕ → List ℕ → List ℕ → Option (List ℕ × List ℕ)
copy_bytes zero src out = some (src, out)
copy_bytes (suc n) [] out = none
copy_bytes (suc n) (b ∷ src) out = copy_bytes n src (out ++ b ∷ [])

-- The bytes that `memcpy` reads, in the order in which it stores them; the buffers are apart.
pub memcpy_bytes : List ℕ → ℕ → Option (List ℕ)
unfolding copy_blocks copy_bytes
memcpy_bytes src count = do
  (src₁, out₁) ← copy_blocks (count / 32) src []
  (src₂, out₂) ← copy_words (count % 32 / 8) src₁ out₁
  (src₃, out₃) ← copy_bytes (count % 8) src₂ out₂
  some out₃

pub memcpy : List ℕ → List ℕ → ℕ → Option (List ℕ)
unfolding memcpy_bytes
memcpy dest src count = do bytes ← memcpy_bytes src count; put bytes dest

-- kernel/memory/memory_access.c: little-endian loads from the bytes at an address, and the
-- unaligned store.
pub read_unaligned16 : List ℕ → Option ℕ
read_unaligned16 (a ∷ b ∷ p) = some (bit_or a (b * 2 ^ 8))
read_unaligned16 _ = none

pub read_unaligned32 : List ℕ → Option ℕ
read_unaligned32 (a ∷ b ∷ c ∷ d ∷ p) =
    some (bit_or (bit_or (bit_or a (b * 2 ^ 8)) (c * 2 ^ 16)) (d * 2 ^ 24))
read_unaligned32 _ = none

pub read_unaligned64 : List ℕ → Option ℕ
read_unaligned64 (a ∷ b ∷ c ∷ d ∷ e ∷ f ∷ g ∷ h ∷ p) = some (
    bit_or
      (bit_or
        (bit_or
          (bit_or (bit_or (bit_or (bit_or a (b * 2 ^ 8)) (c * 2 ^ 16)) (d * 2 ^ 24)) (e * 2 ^ 32))
          (f * 2 ^ 40))
        (g * 2 ^ 48))
      (h * 2 ^ 56))
read_unaligned64 _ = none

pub write_unaligned32 : List ℕ → ℕ → Option (List ℕ)
write_unaligned32 (a ∷ b ∷ c ∷ d ∷ p) value = some (
    (bit_and value 0xff % 2 ^ 8)
    ∷ (bit_and (value >>> 8) 0xff % 2 ^ 8)
    ∷ (bit_and (value >>> 16) 0xff % 2 ^ 8)
    ∷ (bit_and (value >>> 24) 0xff % 2 ^ 8)
    ∷ p)
write_unaligned32 _ value = none
