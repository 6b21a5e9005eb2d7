-- ===== src/Std/Format.antt =====
-- shared/std/string.c: `string_format_va_buf`. The variable arguments are a list; reading one that
-- is not there, or one of another type, is the outcome `none`, like a write outside the buffer.
pub mod Decimal
mod Tests
use mathlib.Core.List.{reverse, map}
use ionutnechita_redacted_os.Base.{
  ℕ, zero, suc, ◌+◌, ◌-◌, ◌*◌, ◌/◌, ◌%◌, ◌^◌, ◌≤◌, ◌<◌, ◌≡◌, ◌≢◌, ◌↔◌, refl, ap, Bool, true, false,
  Option, none, some, List, [], ◌∷◌, ◌++◌, arith, length, length-set, get_or, set,
  get_elem?-eq-get_or, ◌⊎◌, inl, inr, ◌==◌, ltb, leb, if◌then◌else◌, u64, u32, u8, u16, Bool-cases,
  store?, store?-eq-set, get_elem?, ◌>>=◌, ◌∙◌, sym, ap₂, min, max, ◌&&◌, ◌||◌, not, take, drop,
  replicate, length-append, length-replicate, append-nil, append_assoc, ◌>>>◌, bit_or, bit_and,
  bit_xor, ltb→lt, lt→ltb, le→ltb_false,
}
use ionutnechita_redacted_os.Std.Text.{StringBuf, Malloc}
use ionutnechita_redacted_os.Std.Hex.{parse_hex, string_from_bin}

-- An argument: a 64-bit word; the bytes from a `char*` on; or a `double`, as the code takes it
-- apart: whether it is below 0, `(uint64_t)val` of its absolute value, and the digits that
-- `frac *= 10; (int)frac` yields.
pub data Arg : Type 0 where
  word : ℕ → Arg
  text : List ℕ → Arg
  real : Bool → ℕ → (ℕ → ℕ) → Arg

-- The arguments left, `len`, and the buffer.
abbrev pub State : Type 0
State = List Arg × ℕ × List ℕ

-- `do { temp[temp_len++] = '0' + val % 10; val /= 10; } while (val && temp_len < 20);`
-- with `left` more rounds allowed behind the first. The result is `temp`, last digit first.
pub digit_loop : ℕ → ℕ → List ℕ
digit_loop zero val = (b'0' + val % 10) ∷ []
digit_loop (suc left) val =
    let rest = digit_loop left (val / 10) in
    (b'0' + val % 10) ∷ (if val / 10 == 0 then [] else rest)

-- The copy loops bounded by `len < 255`.
pub emit : List ℕ → ℕ → List ℕ → Option (ℕ × List ℕ)
emit [] len buf = some (len, buf)
emit (c ∷ cs) len buf =
    if ltb len 255 then (store? buf len c >>= λ buf'. emit cs (len + 1) buf') else some (len, buf)

-- `for (j = 0; str[j] && len < 255; j++) buf[len++] = str[j];`
pub emit_text : List ℕ → ℕ → List ℕ → Option (ℕ × List ℕ)
emit_text [] len buf = none
emit_text (c ∷ cs) len buf =
    if not (c == 0) && ltb len 255
    then (store? buf len c >>= λ buf'. emit_text cs (len + 1) buf')
    else some (len, buf)

-- `val` after the test for a sign: the two's complement of the lower 32 bits, sign-extended.
pub negated : ℕ → ℕ
negated val = if val % 2 ^ 32 == 2 ^ 31 then 2 ^ 64 - 2 ^ 31 else 2 ^ 32 - val % 2 ^ 32

pub format_int : ℕ → ℕ → List ℕ → Option (ℕ × List ℕ)
unfolding emit
format_int val len buf =
    if ltb (val % 2 ^ 32) (2 ^ 31)
    then emit (reverse (digit_loop 19 val)) len buf
    else (store? buf len b'-' >>= λ buf'.
        emit (reverse (digit_loop 19 (negated val))) (len + 1) buf')

pub format_real : Bool → ℕ → (ℕ → ℕ) → ℕ → List ℕ → Option (ℕ × List ℕ)
unfolding emit
format_real negative whole digit len buf = do
  (len₁, buf₁) ←
      (if negative then (store? buf len b'-' >>= λ buf'. some (len + 1, buf')) else some (len, buf))
  (len₂, buf₂) ← emit (reverse (digit_loop 19 whole)) len₁ buf₁
  (len₃, buf₃) ← emit (b'.' ∷ []) len₂ buf₂
  emit (map (λ d. b'0' + digit d) (0 ∷ 1 ∷ 2 ∷ 3 ∷ 4 ∷ 5 ∷ [])) len₃ buf₃

-- `parse_hex(val, buf + len)`: the digits go behind the first `len` bytes.
format_hex : ℕ → ℕ → List ℕ → Option (ℕ × List ℕ)
unfolding parse_hex
format_hex val len buf = do
  (n, tail) ← parse_hex val (drop len buf)
  some (len + n, take len buf ++ tail)

format_bin : Malloc → ℕ → ℕ → List ℕ → Option (ℕ × List ℕ)
unfolding emit string_from_bin
format_bin malloc val len buf = do
  bin ← string_from_bin malloc val
  bytes ← bin.bytes
  emit (take bin.length bytes) len buf

abbrev with_args : List Arg → Option (ℕ × List ℕ) → Option State
with_args args none = none
with_args args (some (len, buf)) = some (args, len, buf)

-- The body of the loop at `%` and the character `c` behind it.
pub directive : Malloc → ℕ → List Arg → ℕ → List ℕ → Option State
unfolding format_real format_hex format_bin emit_text
directive malloc c args len buf =
    if c == b'x'
    then (elim args [ word v ∷ args' ↦ with_args args' (format_hex v len buf) | _ ↦ none ])
    else if c == b'b'
    then (elim args [ word v ∷ args' ↦ with_args args' (format_bin malloc v len buf) | _ ↦ none ])
    else if c == b'c'
    then (elim args [
      | word v ∷ args' ↦ store? buf len (v % 2 ^ 8) >>= λ buf'. some (args', len + 1, buf')
      | _ ↦ none
    ])
    else if c == b's'
    then (elim args [ text s ∷ args' ↦ with_args args' (emit_text s len buf) | _ ↦ none ])
    else if c == b'i'
    then (elim args [ word v ∷ args' ↦ with_args args' (format_int v len buf) | _ ↦ none ])
    else if c == b'f' || c == b'd'
    then (elim args [ real n w d ∷ args' ↦ with_args args' (format_real n w d len buf) | _ ↦ none ])
    else (store? buf len b'%' >>= λ buf'.
        store? buf' (len + 1) c >>= λ buf''. some (args, len + 2, buf''))

-- The loop over `fmt`; `i` goes on by one, or by two at a directive.
pub format_loop : Malloc → List ℕ → List Arg → ℕ → List ℕ → Option State
unfolding directive
format_loop malloc [] args len buf = none
format_loop malloc (c ∷ []) args len buf =
    if c == 0 || not (ltb len 255) then some (args, len, buf) else none
format_loop malloc (c ∷ d ∷ fmt) args len buf = elim (c == 0 || not (ltb len 255)) [
  | true ↦ some (args, len, buf)
  | false ↦ elim (c == b'%' && not (d == 0)) [
    | true ↦ directive malloc d args len buf >>= λ (args', len', buf').
        format_loop malloc fmt args' len' buf'
    | false ↦ store? buf len c >>= λ buf'. format_loop malloc (d ∷ fmt) args (len + 1) buf'
  ]
]

pub string_format_va_buf : Malloc → List ℕ → List ℕ → List Arg → Option (ℕ × List ℕ)
unfolding format_loop
string_format_va_buf malloc fmt buf args = do
  (_, len, buf') ← format_loop malloc fmt args 0 buf
  buf'' ← store? buf' len 0
  some (len, buf'')

pub string_format_va : Malloc → List ℕ → List Arg → Option StringBuf
unfolding string_format_va_buf
string_format_va malloc fmt args = do
  buf ← malloc 256
  (len, buf') ← string_format_va_buf malloc fmt buf args
  some (record { bytes = some buf'; length = len; mem_length = 256 })

-- `string_format` with its argument list.
pub string_format : Malloc → Option (List ℕ) → List Arg → Option StringBuf
unfolding string_format_va
string_format malloc none args = some (record { bytes = none; length = 0; mem_length = 0 })
string_format malloc (some fmt) args = string_format_va malloc fmt args
