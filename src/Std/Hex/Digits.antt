-- ===== src/Std/Hex/Digits.antt =====
-- The digits of a hexadecimal number, apart from any buffer, and their value.
use native.Mathlib.Nat.{
  mod-lt, div-add-mod', add-mul-mod_self_left, mod-eq_of_lt, pow-suc, one-le-pow,
}
use ionutnechita_redacted_os.Base.{
  ℕ, zero, suc, ◌+◌, ◌*◌, ◌/◌, ◌%◌, ◌^◌, ◌≤◌, ◌<◌, ◌≡◌, ◌≢◌, refl, ap, Bool, true, false, some,
  List, [], ◌∷◌, ◌++◌, arith, length, inl, inr, ◌==◌, if◌then◌else◌, u64, Bool-cases, ◌∙◌, sym,
  ◌||◌, not, append-nil, ◌>>>◌, bit_or,
}
use ionutnechita_redacted_os.Base.Bits.{bit_or_join}
use ionutnechita_redacted_os.Std.Hex.{hex_char, hex_digit, parse_hex_u64_loop}

-- The digits of `value` from digit `k` down to 0, without leading zeros unless `started`.
unfoldable pub hex_digits : ℕ → ℕ → Bool → List ℕ
hex_digits value zero started = hex_char (value >>> 0 % 16) ∷ []
hex_digits value (suc k) started =
    let c = hex_char (value >>> (4 * suc k) % 16) in
    if started || not (c == b'0') then c ∷ hex_digits value k true else hex_digits value k started

-- A digit is read back as it was written.
pub hex_digit-hex_char : (n : ℕ) → n < 16 → hex_digit (hex_char n) ≡ some n
unfolding hex_digit hex_char
hex_digit-hex_char n h = ground arith

-- Only the digit 0 is written as a zero.
pub hex_char-zero : (n : ℕ) → (hex_char n == b'0') ≡ (n == 0)
unfolding hex_char
hex_char-zero n = ground arith

-- Joining one digit to a number that leaves it room is `result * 16 + digit`.
join_digit : (r n : ℕ) → r < 2 ^ 60 → n < 16 → bit_or (u64 (r * 2 ^ 4)) n ≡ r * 16 + n
join_digit r n h k =
    ap (λ (t : ℕ). bit_or t n) {x = u64 (r * 2 ^ 4)} {y = r * 2 ^ 4} (omega arith)
    ∙ bit_or_join 4 r n k

read_digit :
    (r n rounds : ℕ) (str : List ℕ)
    → r < 2 ^ 60
    → n < 16
    → parse_hex_u64_loop (suc rounds) (hex_char n ∷ str) r
      ≡ parse_hex_u64_loop rounds str (r * 16 + n)
unfolding parse_hex_u64_loop
read_digit r n rounds str h k = ground (arith, hex_digit-hex_char n k, join_digit r n h k)

-- `16 ^ k`
abbrev pub place : ℕ → ℕ
place k = 2 ^ (4 * k)

place-suc : (k : ℕ) → place (suc k) ≡ 16 * place k
place-suc k =
    ap (λ (t : ℕ). 2 ^ t) {x = 4 * suc k} {y = suc (suc (suc (suc (4 * k))))} (omega arith)
    ∙ rw (pow-suc, pow-suc, pow-suc, pow-suc) (omega arith)

place_pos : (k : ℕ) → 0 < place k
place_pos k = one-le-pow (4 * k) 2 (omega arith)

-- A number below `16 * p` is its digit at `p` and the rest.
split_digit : (value p : ℕ) → 0 < p → value % (16 * p) ≡ value / p % 16 * p + value % p
split_digit value p pos =
    let d : ℕ = value / p % 16 in
    let q : ℕ = value / p / 16 in
    let parts : value / p ≡ q * 16 + d = omega arith in
    let e : value ≡ d * p + value % p + 16 * p * q =
      omega (arith, div-add-mod' value p, ap (λ (t : ℕ). t * p) parts) in
    let small : d ≤ 15 = omega arith in
    let below : d * p + value % p < 16 * p = low d small (mod-lt value pos) in
    ap (λ (t : ℕ). t % (16 * p)) e
    ∙ add-mul-mod_self_left (d * p + value % p) (16 * p) q
    ∙ mod-eq_of_lt below
  where
    low : (d : ℕ) → d ≤ 15 → value % p < p → d * p + value % p < 16 * p
    low d h k = grind arith

-- `n` more rounds.
abbrev rounds_and : ℕ → ℕ → ℕ
rounds_and zero m = m
rounds_and (suc n) m = suc (rounds_and n m)

-- Reading `k + 1` digits of `value` behind a number `r` that leaves them room.
read_digits :
    (value k r m : ℕ) (str : List ℕ)
    → (r + 1) * place (suc k) ≤ 2 ^ 64
    → parse_hex_u64_loop (rounds_and (suc k) m) (hex_digits value k true ++ str) r
      ≡ parse_hex_u64_loop m str (r * place (suc k) + value % place (suc k))
unfolding hex_digits
read_digits value zero r m str h =
    read_digit r (value >>> 0 % 16) m str (omega arith) (omega arith)
    ∙ ap (λ (t : ℕ). parse_hex_u64_loop m str t) {x = r * 16 + value >>> 0 % 16}
        {y = r * place 1 + value % place 1} (omega arith)
read_digits value (suc k) r m str h =
    let p : ℕ = place (suc k) in
    let n : ℕ = value / p % 16 in
    let small : n < 16 = omega arith in
    let bound : (r + 1) * (16 * p) ≤ 2 ^ 64 = rw (← place-suc (suc k)) h in
    read_digit r n (rounds_and (suc k) m) (hex_digits value k true ++ str)
      (room r p (place_pos (suc k)) bound) small
    ∙ read_digits value k (r * 16 + n) m str (next_room r n p small bound)
    ∙ ap (λ (t : ℕ). parse_hex_u64_loop m str t) {x = (r * 16 + n) * p + value % p}
        {y = r * place (suc (suc k)) + value % place (suc (suc k))}
        (rw (place-suc (suc k)) (omega (arith, split_digit value p (place_pos (suc k)))))
  where
    room : (r p : ℕ) → 0 < p → (r + 1) * (16 * p) ≤ 2 ^ 64 → r < 2 ^ 60
    room r p pos b = grind arith

    next_room : (r n p : ℕ) → n < 16 → (r + 1) * (16 * p) ≤ 2 ^ 64 → (r * 16 + n + 1) * p ≤ 2 ^ 64
    next_room r n p b c = grind arith

-- Started, there are exactly `k + 1` digits.
pub length-hex_digits : (value k : ℕ) → length (hex_digits value k true) ≡ suc k
unfolding hex_digits
length-hex_digits value zero = refl
length-hex_digits value (suc k) = ap suc (length-hex_digits value k)

-- Not started, there are at most `k + 1`.
pub length-hex_digits_le :
    (value k : ℕ) (started : Bool) → length (hex_digits value k started) ≤ suc k
unfolding hex_digits
length-hex_digits_le value zero started = omega arith
length-hex_digits_le value (suc k) started =
    ground (arith, length-hex_digits_le value k true, length-hex_digits_le value k started)

rounds_and-zero : (n : ℕ) → rounds_and n 0 ≡ n
rounds_and-zero zero = refl
rounds_and-zero (suc n) = ap suc (rounds_and-zero n)

-- A leading zero is left out; the first other digit starts the number.
pub digits_skip :
    (value k : ℕ)
    → value / place (suc k) % 16 ≡ 0
    → hex_digits value (suc k) false ≡ hex_digits value k false
unfolding hex_digits
digits_skip value k e = ground (arith, hex_char-zero (value / place (suc k) % 16))

pub digits_start :
    (value k : ℕ)
    → value / place (suc k) % 16 ≢ 0
    → hex_digits value (suc k) false ≡ hex_digits value (suc k) true
unfolding hex_digits
digits_start value k e = ground (arith, hex_char-zero (value / place (suc k) % 16))

read_all :
    (value k : ℕ)
    → place (suc k) ≤ 2 ^ 64
    → parse_hex_u64_loop (length (hex_digits value k true)) (hex_digits value k true) 0
      ≡ some (value % place (suc k))
read_all value k h =
    let whole = read_digits value k 0 0 [] (omega arith) in
    rw (length-hex_digits) (
      ap (λ (n : ℕ). parse_hex_u64_loop n (hex_digits value k true) 0)
        (sym (rounds_and-zero (suc k)))
      ∙ ap (λ (l : List ℕ). parse_hex_u64_loop (rounds_and (suc k) 0) l 0)
          (sym (append-nil (hex_digits value k true)))
      ∙ whole
      ∙ unfold parse_hex_u64_loop in
        ap (λ (n : ℕ). some n) {x = 0 * place (suc k) + value % place (suc k)}
          {y = value % place (suc k)} (omega arith))

-- The digits of a number without its leading zeros read back as its `k + 1` low digits.
pub read_number :
    (value k : ℕ)
    → place (suc k) ≤ 2 ^ 64
    → parse_hex_u64_loop (length (hex_digits value k false)) (hex_digits value k false) 0
      ≡ some (value % place (suc k))
read_number value zero h = unfold hex_digits in read_all value zero h
read_number value (suc k) h = elim (Bool-cases (value / place (suc k) % 16 == 0)) [
  | inl skipped ↦
      let e : value / place (suc k) % 16 ≡ 0 = ground arith in
      rw (digits_skip value k e) (
        read_number value k (omega (arith, place-suc (suc k)))
        ∙ ap (λ (n : ℕ). some n)
            (rw (place-suc (suc k)) (
              omega (
                arith,
                split_digit value (place (suc k)) (place_pos (suc k)),
                ap (λ (t : ℕ). t * place (suc k)) e,
              ))))
  | inr starts ↦
      let ne : value / place (suc k) % 16 ≢ 0 = ground arith in
      rw (digits_start value k ne) (read_all value (suc k) h)
]

-- Digits without a needless zero in front.
abbrev pub Shortest : List ℕ → Type 0
Shortest [] = 0 < 0
Shortest (c ∷ []) = Unit {0}
Shortest (c ∷ d ∷ cs) = c ≢ b'0'

pub Shortest-cons : (c : ℕ) (cs : List ℕ) → c ≢ b'0' → Shortest (c ∷ cs)
Shortest-cons c [] h = tt
Shortest-cons c (d ∷ cs) h = h

above : (c : ℕ) → (c == b'0') ≡ false → c ≢ b'0'
above c h e = ground arith

pub hex_digits-Shortest : (value k : ℕ) → Shortest (hex_digits value k false)
unfolding hex_digits
hex_digits-Shortest value zero = tt
hex_digits-Shortest value (suc k) =
    let c = hex_char (value >>> (4 * suc k) % 16) in
    elim (Bool-cases (c == b'0')) [
      | inl skip ↦ rw (skip, hex_digits) (hex_digits-Shortest value k)
      | inr go ↦ rw (go, hex_digits) (Shortest-cons c (hex_digits value k true) (above c go))
    ]
