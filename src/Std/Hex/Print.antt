-- ===== src/Std/Hex/Print.antt =====
-- What `parse_hex` leaves in the buffer, and the limits of the buffer of `string_from_hex`.
use mathlib.Core.Option
use ionutnechita_redacted_os.Base.{
  ℕ, zero, suc, ◌+◌, ◌*◌, ◌%◌, ◌^◌, ◌≤◌, ◌<◌, ◌≡◌, refl, ap, Bool, true, false, Option, none, some,
  List, [], ◌∷◌, ◌++◌, arith, length, inl, inr, ◌==◌, Bool-cases, Option-cases, store?, ◌>>=◌, ◌∙◌,
  sym, ap₂, ◌||◌, not, drop, length-append, append_assoc, ◌>>>◌,
}
use ionutnechita_redacted_os.Std.Text.{StringBuf, Malloc}
use ionutnechita_redacted_os.Std.Hex.{
  hex_char, parse_hex_loop, parse_hex, string_from_hex, parse_hex_u64,
}
use ionutnechita_redacted_os.Std.Hex.Digits.{hex_digits, length-hex_digits, digits_start, Shortest}

-- Writing `cs` over the start of `post`, which faults where `post` is too short.
unfoldable pub overwrite : List ℕ → List ℕ → Option (List ℕ)
overwrite [] post = some post
overwrite (c ∷ cs) [] = none
overwrite (c ∷ cs) (b ∷ post) = Option.map (λ l. c ∷ l) (overwrite cs post)

pub overwrite-fits :
    (cs post : List ℕ)
    → length cs ≤ length post
    → overwrite cs post ≡ some (cs ++ drop (length cs) post)
unfolding overwrite
overwrite-fits [] post h = refl
overwrite-fits (c ∷ cs) [] h = absurd (omega arith)
overwrite-fits (c ∷ cs) (b ∷ post) h = rw (overwrite-fits cs post (omega arith))

pub overwrite-short : (cs post : List ℕ) → length post < length cs → overwrite cs post ≡ none
unfolding overwrite
overwrite-short [] post h = absurd (omega arith)
overwrite-short (c ∷ cs) [] h = refl
overwrite-short (c ∷ cs) (b ∷ post) h = rw (overwrite-short cs post (omega arith))

pub store_behind :
    (pre post : List ℕ) (b c : ℕ) → store? (pre ++ b ∷ post) (length pre) c ≡ some (pre ++ c ∷ post)
store_behind [] post b c = refl
store_behind (x ∷ pre) post b c = rw (store_behind pre post b c)

pub store_end : (pre : List ℕ) (c : ℕ) → store? (pre ++ []) (length pre) c ≡ none
store_end [] c = refl
store_end (x ∷ pre) c = rw (store_end pre c)

-- What the loop does to `post`, with `pre` written before it.
abbrev pub written : List ℕ → List ℕ → Option (List ℕ) → Option (ℕ × List ℕ)
written pre ds none = none
written pre ds (some o) = some (length pre + length ds, pre ++ o)

pub written-snoc :
    (pre ds post : List ℕ) (b c : ℕ)
    → written (pre ++ c ∷ []) ds (overwrite ds post)
      ≡ written pre (c ∷ ds) (overwrite (c ∷ ds) (b ∷ post))
unfolding overwrite
written-snoc pre ds post b c = elim (Option-cases (overwrite ds post)) [
  | inl e ↦ rw e
  | inr (o, e) ↦ rw (e, append_assoc) (ground (arith, length-append pre (c ∷ [])))
]

-- One digit written, and the loop goes on behind it.
step_written :
    (value k : ℕ) (pre post : List ℕ) (c : ℕ)
    → ((pre' post' : List ℕ)
        → parse_hex_loop value k true (length pre') (pre' ++ post')
          ≡ written pre' (hex_digits value k true) (overwrite (hex_digits value k true) post'))
    → (store? (pre ++ post) (length pre) c >>= λ buf.
        parse_hex_loop value k true (length pre + 1) buf)
      ≡ written pre (c ∷ hex_digits value k true) (overwrite (c ∷ hex_digits value k true) post)
unfolding overwrite
step_written value k pre [] c ih = rw (store_end pre c)
step_written value k pre (b ∷ post) c ih = rw (store_behind pre post b c) (
    ap₂ (λ (n : ℕ) (l : List ℕ). parse_hex_loop value k true n l) (sym (length-append pre (c ∷ [])))
      (sym (append_assoc pre (c ∷ []) post))
    ∙ ih (pre ++ c ∷ []) post
    ∙ written-snoc pre (hex_digits value k true) post b c)

parse_hex_loop-written :
    (value k : ℕ) (started : Bool) (pre post : List ℕ)
    → parse_hex_loop value k started (length pre) (pre ++ post)
      ≡ written pre (hex_digits value k started) (overwrite (hex_digits value k started) post)
unfolding parse_hex_loop hex_digits overwrite
parse_hex_loop-written value zero started pre [] = rw (store_end pre (hex_char (value >>> 0 % 16)))
parse_hex_loop-written value zero started pre (b ∷ post) =
    rw (store_behind pre post b (hex_char (value >>> 0 % 16)))
parse_hex_loop-written value (suc k) started pre post =
    let c = hex_char (value >>> (4 * suc k) % 16) in
    elim (Bool-cases (started || not (c == b'0'))) [
      | inl go ↦
          rw (go, parse_hex_loop)
            (step_written value k pre post c (parse_hex_loop-written value k true))
      | inr skip ↦ rw (skip, parse_hex_loop) (parse_hex_loop-written value k started pre post)
    ]

abbrev pub prefixed : List ℕ → List ℕ
prefixed ds = b'0' ∷ b'x' ∷ ds

parse_hex-written :
    (value a b : ℕ) (post : List ℕ)
    → parse_hex value (a ∷ b ∷ post) ≡ (
        written
          (prefixed [])
          (hex_digits value 15 false)
          (overwrite (hex_digits value 15 false) post)
        >>= λ (len, buf). store? buf len 0 >>= λ buf'. some (len, buf'))
unfolding parse_hex
parse_hex-written value a b post = rw (parse_hex_loop-written value 15 false (prefixed []) post)

pub store_drop :
    (ds post : List ℕ)
    → length ds < length post
    → store? (ds ++ drop (length ds) post) (length ds) 0
      ≡ some (ds ++ 0 ∷ drop (suc (length ds)) post)
store_drop [] [] h = absurd (omega arith)
store_drop [] (b ∷ post) h = refl
store_drop (d ∷ ds) [] h = absurd (omega arith)
store_drop (d ∷ ds) (b ∷ post) h = rw (store_drop ds post (omega arith))

store_full :
    (ds post : List ℕ)
    → length ds ≡ length post
    → store? (ds ++ drop (length ds) post) (length ds) 0 ≡ none
store_full [] [] h = refl
store_full [] (b ∷ post) h = absurd (omega arith)
store_full (d ∷ ds) [] h = absurd (omega arith)
store_full (d ∷ ds) (b ∷ post) h = rw (store_full ds post (omega arith))

parse_hex-overflows :
    (value a b : ℕ) (post : List ℕ)
    → length (hex_digits value 15 false) ≡ length post
    → parse_hex value (a ∷ b ∷ post) ≡ none
parse_hex-overflows value a b post h =
    let ds = hex_digits value 15 false in
    parse_hex-written value a b post
    ∙ rw (overwrite-fits ds post (omega arith), add_two (length ds), store_full ds post h)
  where
    add_two : (n : ℕ) → 2 + n ≡ suc (suc n)
    add_two n = omega arith

-- The text that `string_from_hex` builds for `value`: "0x", the digits, NUL, and what the memory held.
pub record HexText (value : ℕ) (s : StringBuf) : Type 0 where
  pub digits : List ℕ
  pub rest : List ℕ
  pub shape : s.bytes ≡ some (prefixed (digits ++ 0 ∷ rest))
  pub count : s.length ≡ 2 + length digits
  pub shortest : Shortest digits
  pub value_of : parse_hex_u64 digits (length digits) ≡ some value
  pub with_prefix : parse_hex_u64 (prefixed (digits ++ 0 ∷ rest)) (2 + length digits) ≡ some 0

-- A number from `2 ^ 60` on has sixteen digits, and the NUL behind them is written outside the 18
-- bytes that `string_from_hex` asks for.
pub string_from_hex_overflows :
    (malloc : Malloc) (value : ℕ) (buf : List ℕ)
    → malloc 18 ≡ some buf
    → length buf ≡ 18
    → 2 ^ 60 ≤ value
    → value < 2 ^ 64
    → string_from_hex malloc value ≡ none
unfolding string_from_hex
string_from_hex_overflows malloc value [] got size large small = absurd (omega arith)
string_from_hex_overflows malloc value (a ∷ []) got size large small = absurd (omega arith)
string_from_hex_overflows malloc value (a ∷ b ∷ post) got size large small =
    let top : hex_digits value 15 false ≡ hex_digits value 15 true =
      digits_start value 14 (omega arith) in
    rw (
      got,
      parse_hex-overflows value a b post
          (omega (arith, length-hex_digits value 15, ap (λ (l : List ℕ). length l) top)),
    )
