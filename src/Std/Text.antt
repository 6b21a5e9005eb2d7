-- ===== src/Std/Text.antt =====
-- shared/std/string.c: lengths, and the constructors of `string`. `malloc` is what the allocator
-- answers to a size: NULL, or fresh bytes. Texts are shorter than 2 ^ 32 bytes, so the counter of
-- `strlen` does not wrap.
pub mod Build
pub mod Repeat
mod Tests
use ionutnechita_redacted_os.Base.{
  ℕ, zero, suc, ◌+◌, ◌-◌, ◌*◌, ◌/◌, ◌%◌, ◌^◌, ◌≤◌, ◌<◌, ◌≡◌, ◌≢◌, refl, ap, Bool, true, false,
  Option, none, some, List, [], ◌∷◌, ◌++◌, arith, length, length-set, get_or, set,
  get_elem?-eq-get_or, ◌⊎◌, inl, inr, ◌==◌, ltb, leb, if◌then◌else◌, u64, u32, u8, u16, Bool-cases,
  store?, store?-eq-set, get_elem?, ◌>>=◌, ◌∙◌, sym, ap₂, min, max, ◌&&◌, ◌||◌, not, take, drop,
  replicate, length-append, length-replicate, append-nil, append_assoc, ◌>>>◌, bit_or, bit_and,
  bit_xor, ltb→lt, lt→ltb, le→ltb_false,
}
use ionutnechita_redacted_os.Std.Mem.{memset}

pub record StringBuf : Type 0 where
  pub bytes : Option (List ℕ)
  pub length : ℕ
  pub mem_length : ℕ

abbrev pub null_string : StringBuf
null_string = record { bytes = none; length = 0; mem_length = 0 }

abbrev pub Malloc : Type 0
Malloc = ℕ → Option (List ℕ)

-- The loop of `strlen` at its `len`-th byte.
pub strlen_loop : List ℕ → ℕ → ℕ → Option ℕ
strlen_loop [] max_length len = if max_length == 0 || ltb len max_length then none else some len
strlen_loop (c ∷ s) max_length len =
    let rest = strlen_loop s max_length (len + 1) in
    if max_length == 0 || ltb len max_length then (if c == 0 then some len else rest) else some len

pub strlen : Option (List ℕ) → ℕ → Option ℕ
unfolding strlen_loop
strlen none max_length = some 0
strlen (some s) max_length = strlen_loop s max_length 0

-- `for (i = 0; i < n; i++) buf[i] = src[i]`
pub copy_chars : ℕ → List ℕ → List ℕ → Option (List ℕ)
copy_chars zero src buf = some buf
copy_chars (suc n) [] buf = none
copy_chars (suc n) (c ∷ src) [] = none
copy_chars (suc n) (c ∷ src) (b ∷ buf) = do buf' ← copy_chars n src buf; some (c ∷ buf')

-- The common end of the constructors: `len` bytes of `src`, then NUL, in fresh memory.
pub build : Malloc → List ℕ → ℕ → Option StringBuf
unfolding copy_chars
build malloc src len = elim (malloc (u32 (len + 1))) [
  | none ↦ some null_string
  | some buf ↦ (do
    buf' ← copy_chars len src buf
    buf'' ← store? buf' len 0
    some (record { bytes = some buf''; length = len; mem_length = u32 (len + 1) }))
]

pub string_l : Malloc → Option (List ℕ) → Option StringBuf
unfolding build
string_l malloc none = some null_string
string_l malloc (some literal) = do len ← strlen_loop literal 0 0; build malloc literal len

pub string_repeat : Malloc → ℕ → ℕ → Option StringBuf
string_repeat malloc symbol amount = do
  buf ← malloc (u32 (amount + 1))
  buf' ← memset buf symbol amount
  buf'' ← store? buf' amount 0
  some (record { bytes = some buf''; length = amount; mem_length = u32 (amount + 1) })

-- `offset` is `(int)len - (int)max_length`, or 0 below that; both are below 2 ^ 31.
pub string_tail : Malloc → Option (List ℕ) → ℕ → Option StringBuf
unfolding build
string_tail malloc none max_length = some null_string
string_tail malloc (some array) max_length = do
  len ← strlen_loop array 0 0
  let offset = len - max_length
  build malloc (drop offset array) (len - offset)

pub string_ca_max : Malloc → Option (List ℕ) → ℕ → Option StringBuf
unfolding build
string_ca_max malloc none max_length = some null_string
string_ca_max malloc (some array) max_length = do
  len ← strlen_loop array max_length 0
  build malloc array len

-- There is no test of the allocator's answer here.
pub string_c : Malloc → ℕ → Option StringBuf
string_c malloc c = do
  buf ← malloc 2
  buf' ← store? buf 0 c
  buf'' ← store? buf' 1 0
  some (record { bytes = some buf''; length = 1; mem_length = 2 })
