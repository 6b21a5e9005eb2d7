-- ===== src/Std/Text/Repeat.antt =====
-- `string_repeat` on eight characters and more.
use ionutnechita_redacted_os.Base.{
  ℕ, zero, suc, ◌+◌, ◌*◌, ◌/◌, ◌%◌, ◌^◌, ◌≤◌, ◌<◌, ◌≡◌, refl, ap, some, List, ◌∷◌, ◌++◌, arith,
  length, set, u32, length-drop, store?, store?-eq-set, ◌∙◌, sym, ap₂, drop, length-append, bit_or,
}
use ionutnechita_redacted_os.Base.Bits.{bit_or_join}
use ionutnechita_redacted_os.Std.Mem.{memset, memset_bytes, bytes_of}
use ionutnechita_redacted_os.Std.Mem.Fill.{memset-append, memset_bytes_word, length-memset_bytes}
use ionutnechita_redacted_os.Std.Text.{StringBuf, Malloc, strlen_loop, strlen, string_repeat}
use ionutnechita_redacted_os.Std.Text.Build.{Serves}

-- The first byte of a pattern is the symbol, the second is 0.
pattern_bytes :
    (symbol : ℕ)
    → symbol < 2 ^ 8
    → (rest : List ℕ) × (bytes_of 8 (bit_or (symbol * 2 ^ 32) symbol) ≡ symbol ∷ 0 ∷ rest)
pattern_bytes symbol h =
    let p : ℕ = bit_or (symbol * 2 ^ 32) symbol in
    let e : p ≡ symbol * 2 ^ 32 + symbol = bit_or_join 32 symbol symbol (omega arith) in
    (
      bytes_of 6 (p / 2 ^ 8 / 2 ^ 8),
      ap₂ (λ (x y : ℕ). x ∷ y ∷ bytes_of 6 (p / 2 ^ 8 / 2 ^ 8)) {x = p % 2 ^ 8} {y = symbol}
          (omega arith) (omega arith),
    )

strlen_loop_one :
    (symbol : ℕ) (rest : List ℕ) → 0 < symbol → strlen_loop (symbol ∷ 0 ∷ rest) 0 0 ≡ some 1
unfolding strlen_loop
strlen_loop_one symbol rest pos = ground arith

-- What `string_repeat` returns for eight characters or more: a text which a reader up to NUL takes
-- for a single character.
pub string_repeat-strlen :
    (malloc : Malloc) (symbol amount : ℕ)
    → Serves malloc
    → 0 < symbol
    → symbol < 2 ^ 8
    → 8 ≤ amount
    → amount + 1 < 2 ^ 32
    → (s : StringBuf) × (string_repeat malloc symbol amount ≡ some s)
      × (s.length ≡ amount)
      × (strlen s.bytes 0 ≡ some 1)
unfolding string_repeat strlen
string_repeat-strlen malloc symbol zero serves pos small many fits = absurd (omega arith)
string_repeat-strlen malloc symbol (suc zero) serves pos small many fits = absurd (omega arith)
string_repeat-strlen malloc symbol (suc (suc k)) serves pos small many fits =
    let amount : ℕ = suc (suc k) in
    let (buf, got, size) = serves (u32 (amount + 1)) in
    let (tail, starts) = memset_bytes_word symbol amount many in
    let (more, first) = pattern_bytes symbol small in
    let rest = (more ++ tail) ++ drop amount buf in
    let filled : memset buf symbol amount ≡ some (symbol ∷ 0 ∷ rest) =
      memset-append buf symbol amount (omega arith)
      ∙ ap (λ (l : List ℕ). some (l ++ drop amount buf))
          (starts ∙ ap (λ (l : List ℕ). l ++ tail) first) in
    let room : length (symbol ∷ 0 ∷ rest) ≡ length buf =
      ap (λ (l : List ℕ). length l)
        (sym (
          ap (λ (l : List ℕ). l ++ drop amount buf)
            (starts ∙ ap (λ (l : List ℕ). l ++ tail) first)))
      ∙ omega (
        arith,
        length-append (memset_bytes symbol amount) (drop amount buf),
        length-memset_bytes symbol amount,
        length-drop amount buf,
      ) in
    let ends : store? rest k 0 ≡ some (set rest k 0) = store?-eq-set rest k 0 (omega arith) in
    (
      record {
        bytes = some (symbol ∷ 0 ∷ set rest k 0);
        length = amount;
        mem_length = u32 (amount + 1);
      },
      rw (got, filled, ends),
      refl,
      strlen_loop_one symbol (set rest k 0) pos,
    )
