-- ===== src/Std/Hex.antt =====
-- shared/std/string.c: hexadecimal and binary numbers as text, and back. The C loops write their
-- digits one behind the other into `buf`; `buf` ends where its object ends.
pub mod Digits
pub mod Print
mod Tests
use ionutnechita_redacted_os.Base.{
  ℕ, zero, suc, ◌+◌, ◌-◌, ◌*◌, ◌/◌, ◌%◌, ◌^◌, ◌≤◌, ◌<◌, ◌≡◌, ◌≢◌, refl, ap, Bool, true, false,
  Option, none, some, List, [], ◌∷◌, ◌++◌, arith, length, length-set, get_or, set,
  get_elem?-eq-get_or, ◌⊎◌, inl, inr, ◌==◌, ltb, leb, if◌then◌else◌, u64, u32, u8, u16, Bool-cases,
  store?, store?-eq-set, get_elem?, ◌>>=◌, ◌∙◌, sym, ap₂, min, max, ◌&&◌, ◌||◌, not, take, drop,
  replicate, length-append, length-replicate, append-nil, append_assoc, ◌>>>◌, bit_or, bit_and,
  bit_xor, ltb→lt, lt→ltb, le→ltb_false,
}
use ionutnechita_redacted_os.Std.Text.{StringBuf, Malloc}

-- `nibble < 10 ? '0' + nibble : 'A' + (nibble - 10)`
pub hex_char : ℕ → ℕ
hex_char nibble = if ltb nibble 10 then b'0' + nibble else b'A' + (nibble - 10)

-- The loop of `parse_hex` at `i = 4 * k`. The outcome is `len` and the buffer.
pub parse_hex_loop : ℕ → ℕ → Bool → ℕ → List ℕ → Option (ℕ × List ℕ)
parse_hex_loop value zero started len buf = do
  buf' ← store? buf len (hex_char (value >>> 0 % 16))
  some (len + 1, buf')
parse_hex_loop value (suc k) started len buf =
    let c = hex_char (value >>> (4 * suc k) % 16) in
    elim (started || not (c == b'0')) [
      | true ↦ store? buf len c >>= λ buf'. parse_hex_loop value k true (len + 1) buf'
      | false ↦ parse_hex_loop value k started len buf
    ]

unfoldable pub parse_hex : ℕ → List ℕ → Option (ℕ × List ℕ)
unfolding parse_hex_loop
parse_hex value buf = do
  buf₁ ← store? buf 0 b'0'
  buf₂ ← store? buf₁ 1 b'x'
  (len, buf₃) ← parse_hex_loop value 15 false 2 buf₂
  buf₄ ← store? buf₃ len 0
  some (len, buf₄)

pub string_from_hex : Malloc → ℕ → Option StringBuf
unfolding parse_hex
string_from_hex malloc value = do
  buf ← malloc 18
  (len, buf') ← parse_hex value buf
  some (record { bytes = some buf'; length = len; mem_length = 18 })

-- The loop of `parse_bin` at `i = k`.
pub parse_bin_loop : ℕ → ℕ → Bool → ℕ → List ℕ → Option (ℕ × List ℕ)
parse_bin_loop value zero started len buf = do
  buf' ← store? buf len (if value >>> 0 % 2 == 0 then b'0' else b'1')
  some (len + 1, buf')
parse_bin_loop value (suc k) started len buf =
    let bit = if value >>> suc k % 2 == 0 then b'0' else b'1' in
    elim (started || not (bit == b'0')) [
      | true ↦ store? buf len bit >>= λ buf'. parse_bin_loop value k true (len + 1) buf'
      | false ↦ parse_bin_loop value k started len buf
    ]

pub parse_bin : ℕ → List ℕ → Option (ℕ × List ℕ)
unfolding parse_bin_loop
parse_bin value buf = do
  buf₁ ← store? buf 0 b'0'
  buf₂ ← store? buf₁ 1 b'b'
  (len, buf₃) ← parse_bin_loop value 63 false 2 buf₂
  buf₄ ← store? buf₃ len 0
  some (len, buf₄)

unfoldable pub string_from_bin : Malloc → ℕ → Option StringBuf
unfolding parse_bin
string_from_bin malloc value = do
  buf ← malloc 66
  (len, buf') ← parse_bin value buf
  some (record { bytes = some buf'; length = len; mem_length = 66 })

-- The digit tests of `parse_hex_u64`; `none` is its `break`.
pub hex_digit : ℕ → Option ℕ
hex_digit c =
    if leb b'0' c && leb c b'9'
    then some (c - b'0')
    else if leb b'a' c && leb c b'f'
    then some (c - b'a' + 10)
    else if leb b'A' c && leb c b'F'
    then some (c - b'A' + 10)
    else none

-- The loop of `parse_hex_u64`, `rounds` before `size`.
pub parse_hex_u64_loop : ℕ → List ℕ → ℕ → Option ℕ
parse_hex_u64_loop zero str result = some result
parse_hex_u64_loop (suc rounds) [] result = none
parse_hex_u64_loop (suc rounds) (c ∷ str) result = elim (hex_digit c) [
  | none ↦ some result
  | some digit ↦ parse_hex_u64_loop rounds str (bit_or (u64 (result * 2 ^ 4)) digit)
]

pub parse_hex_u64 : List ℕ → ℕ → Option ℕ
unfolding parse_hex_u64_loop
parse_hex_u64 str size = parse_hex_u64_loop size str 0
