-- ===== src/Base/Bits.antt =====
-- Masks and joined bit fields as arithmetic, at every width.
use Prim.Native.Nat.{ℕ, zero, suc, ◌+◌, ◌-◌, ◌*◌, ◌/◌, ◌%◌, ◌^◌, ◌≤◌, ◌<◌, min, max}
use Prim.Native.Nat.{bit_and, bit_or, digits, bitwise, bit_and-bitwise, bit_or-bitwise}
use mathlib.Core.Path.{◌≡◌, refl, ap, sym, ◌∙◌, ◌≡⟨◌⟩◌, ◌∎}
use native.Mathlib.Nat.{pow-suc, one-le-pow, le_refl, div-lt_iff_lt-mul, div-add-mod'}
use native.Mathlib.Nat.{mod-lt, mod-eq_of_lt}
use native.Mathlib.Omega.{arith}

module _ (z : ℕ → ℕ) (f : ℕ → ℕ → ℕ) where
  digits_any_fuel : (n m a b : ℕ) → a ≤ n → a ≤ m → digits z f n a b ≡ digits z f m a b
  digits_any_fuel zero zero a b p q = refl
  digits_any_fuel zero (suc m) zero b p q = refl
  digits_any_fuel zero (suc m) (suc a) b p q = absurd (omega arith)
  digits_any_fuel (suc n) zero zero b p q = refl
  digits_any_fuel (suc n) zero (suc a) b p q = absurd (omega arith)
  digits_any_fuel (suc n) (suc m) zero b p q = refl
  digits_any_fuel (suc n) (suc m) (suc a) b p q =
      rw (digits_any_fuel n m (suc a / 2) (b / 2) (omega arith) (omega arith))

  bitwise_digit :
      (a b : ℕ)
      → bitwise z f (suc a) b ≡ bitwise z f (suc a / 2) (b / 2) * 2 + f (suc a % 2) (b % 2)
  bitwise_digit a b =
      omega (arith, digits_any_fuel a (suc a / 2) (suc a / 2) (b / 2) (omega arith) (le_refl _))

pub bit_and_digit : (a b : ℕ) → bit_and a b ≡ bit_and (a / 2) (b / 2) * 2 + min (a % 2) (b % 2)
bit_and_digit zero b = simp bit_and-bitwise (omega arith)
bit_and_digit (suc a) b = simp bit_and-bitwise (bitwise_digit (λ y. 0) min a b)

pub bit_or_digit : (a b : ℕ) → bit_or a b ≡ bit_or (a / 2) (b / 2) * 2 + max (a % 2) (b % 2)
bit_or_digit zero b = simp bit_or-bitwise (omega arith)
bit_or_digit (suc a) b = simp bit_or-bitwise (bitwise_digit (λ y. y) max a b)

scale : (q k : ℕ) → q * 2 ^ suc k ≡ 2 * (q * 2 ^ k)
scale q k = omega (arith, ap (λ (t : ℕ). q * t) (pow-suc 2 k))

-- Fields that do not overlap are joined by a sum, for words of fewer than `n` binary digits.
pub bit_or_join : (k q r : ℕ) → r < 2 ^ k → bit_or (q * 2 ^ k) r ≡ q * 2 ^ k + r
bit_or_join zero q r h = ground (arith, bit_or_none q q (le_refl q))
  where
    bit_or_none : (n a : ℕ) → a ≤ n → bit_or a 0 ≡ a
    bit_or_none zero a le = ground (arith, bit_or_digit a 0)
    bit_or_none (suc n) zero le = refl
    bit_or_none (suc n) (suc a) le =
        omega (arith, bit_or_digit (suc a) 0, bit_or_none n (suc a / 2) (omega arith))
bit_or_join (suc k) q r h = ground (
  arith,
  bit_or_digit (q * 2 ^ suc k) r,
  scale q k,
  pow-suc 2 k,
  bit_or_join k q (r / 2) (omega arith),
)

or_comm_below : (n a b : ℕ) → a ≤ n → b ≤ n → bit_or a b ≡ bit_or b a
or_comm_below zero a b p q = ground (arith, bit_or_digit a b, bit_or_digit b a)
or_comm_below (suc n) a b p q = ground (
  arith,
  bit_or_digit a b,
  bit_or_digit b a,
  or_comm_below n (a / 2) (b / 2) (omega arith) (omega arith),
)

pub bit_or_comm : (a b : ℕ) → bit_or a b ≡ bit_or b a
bit_or_comm a b = or_comm_below (a + b) a b (omega arith) (omega arith)

bit_and_none : (n a : ℕ) → a ≤ n → bit_and a 0 ≡ 0
bit_and_none zero a le = ground (arith, bit_and_digit a 0)
bit_and_none (suc n) zero le = refl
bit_and_none (suc n) (suc a) le =
    omega (arith, bit_and_digit (suc a) 0, bit_and_none n (suc a / 2) (omega arith))

-- A mask whose low `k` bits are clear drops them, and leaves the bits above to the rest of it.
pub bit_and_high :
    (k q m r : ℕ) → r < 2 ^ k → bit_and (q * 2 ^ k + r) (m * 2 ^ k) ≡ bit_and q m * 2 ^ k
bit_and_high zero q m r h = ground (arith)
bit_and_high (suc k) q m r h = ground (
  arith,
  bit_and_digit (q * 2 ^ suc k + r) (m * 2 ^ suc k),
  scale q k,
  scale m k,
  scale (bit_and q m) k,
  pow-suc 2 k,
  bit_and_high k q m (r / 2) (omega arith),
)

low_field : (k q r : ℕ) → r < 2 ^ k → bit_and (q * 2 ^ k + r) (2 ^ k - 1) ≡ r
low_field zero q r h = ground (arith, bit_and_none q q (le_refl q))
low_field (suc k) q r h = ground (
  arith,
  bit_and_digit (q * 2 ^ suc k + r) (2 ^ suc k - 1),
  scale q k,
  pow-suc 2 k,
  one-le-pow k 2,
  low_field k q (r / 2) (omega arith),
)

-- A mask of the low `k` bits is the remainder by `2 ^ k`.
pub bit_and_low : (k a : ℕ) → bit_and a (2 ^ k - 1) ≡ a % 2 ^ k
bit_and_low k a = ground (arith, one-le-pow k 2, low_field k (a / 2 ^ k) (a % 2 ^ k))

-- `x & ~(2^k - 1)` rounds a word down to a multiple of `2 ^ k`; the complement's `j` upper bits
-- are all ones.
pub bit_and_round :
    (k j x : ℕ) → x < 2 ^ j * 2 ^ k → bit_and x ((2 ^ j - 1) * 2 ^ k) ≡ x / 2 ^ k * 2 ^ k
bit_and_round k j x h =
    let pos : 0 < 2 ^ k = one-le-pow k 2 (omega arith) in
    let top : x / 2 ^ k < 2 ^ j = (div-lt_iff_lt-mul pos).1 h in
    bit_and x ((2 ^ j - 1) * 2 ^ k)
    ≡⟨ ap (λ (t : ℕ). bit_and t ((2 ^ j - 1) * 2 ^ k)) (sym (div-add-mod' x (2 ^ k))) ⟩
      bit_and (x / 2 ^ k * 2 ^ k + x % 2 ^ k) ((2 ^ j - 1) * 2 ^ k)
    ≡⟨ bit_and_high k (x / 2 ^ k) (2 ^ j - 1) (x % 2 ^ k) (mod-lt x pos) ⟩
      bit_and (x / 2 ^ k) (2 ^ j - 1) * 2 ^ k
    ≡⟨ ap (λ (t : ℕ). t * 2 ^ k) (bit_and_low j (x / 2 ^ k) ∙ mod-eq_of_lt top) ⟩
      x / 2 ^ k * 2 ^ k ∎

-- Two words are joined field by field.
pub bit_or_fields :
    (k a b r s : ℕ)
    → r < 2 ^ k
    → s < 2 ^ k
    → bit_or (a * 2 ^ k + r) (b * 2 ^ k + s) ≡ bit_or a b * 2 ^ k + bit_or r s
bit_or_fields zero a b r s hr hs = ground (arith, (bit_or_digit 0 0))
bit_or_fields (suc k) a b r s hr hs = ground (
  arith,
  bit_or_digit (a * 2 ^ suc k + r) (b * 2 ^ suc k + s),
  bit_or_digit r s,
  scale a k,
  scale b k,
  scale (bit_or a b) k,
  pow-suc 2 k,
  bit_or_fields k a b (r / 2) (s / 2) (omega arith) (omega arith),
)

-- Two words are masked field by field.
pub bit_and_fields :
    (k a b r s : ℕ)
    → r < 2 ^ k
    → s < 2 ^ k
    → bit_and (a * 2 ^ k + r) (b * 2 ^ k + s) ≡ bit_and a b * 2 ^ k + bit_and r s
bit_and_fields zero a b r s hr hs = ground (arith, (bit_and_digit 0 0))
bit_and_fields (suc k) a b r s hr hs = ground (
  arith,
  bit_and_digit (a * 2 ^ suc k + r) (b * 2 ^ suc k + s),
  bit_and_digit r s,
  scale a k,
  scale b k,
  scale (bit_and a b) k,
  pow-suc 2 k,
  bit_and_fields k a b (r / 2) (s / 2) (omega arith) (omega arith),
)
