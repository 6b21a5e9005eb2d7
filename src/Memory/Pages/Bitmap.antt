-- ===== src/Memory/Pages/Bitmap.antt =====
-- Single bits of a 64-bit word of the page table.
use ionutnechita_redacted_os.Base.{
  ℕ, zero, suc, ◌+◌, ◌-◌, ◌*◌, ◌/◌, ◌%◌, ◌^◌, ◌<◌, ◌≡◌, ◌≢◌, ap, true, arith, inl, inr, ◌==◌,
  Bool-cases, ◌∙◌, sym, ap₂, bit_or, bit_and,
}
use native.Mathlib.Nat.{pow-suc, one-le-pow, div-div-eq-div-mul, mul_comm, mod-eq_of_lt}
use ionutnechita_redacted_os.Base.Bits.{bit_or_join, bit_or_digit, bit_and_digit, bit_and_low}
use ionutnechita_redacted_os.Memory.Pages.{trailing_ones}

-- Digit `k` of `w`.
abbrev pub bit_of : ℕ → ℕ → ℕ
bit_of w k = w / 2 ^ k % 2

bit_of-suc : (w k : ℕ) → bit_of w (suc k) ≡ bit_of (w / 2) k
bit_of-suc w k =
    ap (λ (t : ℕ). w / t % 2) (pow-suc 2 k ∙ mul_comm (2 ^ k) 2)
    ∙ ap (λ (t : ℕ). t % 2) (sym (div-div-eq-div-mul w 2 (2 ^ k)))

bit_of-zero : (w : ℕ) → bit_of w 0 ≡ w % 2
bit_of-zero w = omega arith

-- In a word that is not full, the ones at the low end stop at a clear bit.
pub trailing_ones-clear :
    (n w : ℕ)
    → w < 2 ^ n
    → w ≢ 2 ^ n - 1
    → (trailing_ones n w < n) × (bit_of w (trailing_ones n w) ≡ 0)
unfolding trailing_ones
trailing_ones-clear zero w h ne = absurd (ne (omega arith))
trailing_ones-clear (suc n) w h ne = elim (Bool-cases (w % 2 == 1)) [
  | inl odd ↦
      let e = pow-suc 2 n in
      let (lt, clear) = trailing_ones-clear n (w / 2) (omega arith) (λ q. ne (full odd q)) in
      rw odd (
        omega arith,
        ap (λ (k : ℕ). bit_of w k) {x = trailing_ones n (w / 2) + 1}
              {y = suc (trailing_ones n (w / 2))} (omega arith)
            ∙ bit_of-suc w (trailing_ones n (w / 2))
            ∙ clear,
      )
  | inr even ↦ rw even (omega arith, ground arith)
]
  where
    full : (w % 2 == 1) ≡ true → w / 2 ≡ 2 ^ n - 1 → w ≡ 2 ^ suc n - 1
    full o q = ground (arith, pow-suc 2 n, one-le-pow n 2)

-- Setting a clear bit adds its weight.
pub bit_or-set : (k w : ℕ) → bit_of w k ≡ 0 → bit_or w (2 ^ k) ≡ w + 2 ^ k
bit_or-set zero w h =
    ap (λ (t : ℕ). bit_or t 1) {x = w} {y = w / 2 * 2 ^ 1} (omega arith)
    ∙ bit_or_join 1 (w / 2) 1 (omega arith)
    ∙ omega arith
bit_or-set (suc k) w h = omega (
  arith,
  bit_or_digit w (2 ^ suc k),
  pow-suc 2 k,
  ap (λ (t : ℕ). bit_or (w / 2) t) {x = 2 ^ suc k / 2} {y = 2 ^ k} (omega (arith, pow-suc 2 k)),
  bit_or-set k (w / 2) (sym (bit_of-suc w k) ∙ h),
)

-- Clearing a set bit takes its weight away.
pub bit_and-clear :
    (n k w : ℕ)
    → k < n
    → w + 2 ^ k < 2 ^ n
    → bit_of w k ≡ 0
    → bit_and (w + 2 ^ k) (2 ^ n - 1 - 2 ^ k) ≡ w
bit_and-clear zero k w h lt c = absurd (omega arith)
bit_and-clear (suc n) zero w h lt c = omega (
  arith,
  bit_and_digit (w + 2 ^ 0) (2 ^ suc n - 1 - 2 ^ 0),
  pow-suc 2 n,
  one-le-pow n 2,
  ap₂ bit_and {x = (w + 2 ^ 0) / 2} {y = w / 2} {u = (2 ^ suc n - 1 - 2 ^ 0) / 2} {v = 2 ^ n - 1}
      (omega arith) (omega (arith, pow-suc 2 n)),
  bit_and_low n (w / 2),
  mod-eq_of_lt {n = w / 2} {m = 2 ^ n} (omega (arith, pow-suc 2 n)),
)
bit_and-clear (suc n) (suc k) w h lt c =
    let e = pow-suc 2 n in
    let f = pow-suc 2 k in
    omega (
      arith,
      bit_and_digit (w + 2 ^ suc k) (2 ^ suc n - 1 - 2 ^ suc k),
      ap₂ bit_and {x = (w + 2 ^ suc k) / 2} {y = w / 2 + 2 ^ k}
          {u = (2 ^ suc n - 1 - 2 ^ suc k) / 2} {v = 2 ^ n - 1 - 2 ^ k} (omega arith) (omega arith),
      bit_and-clear n k (w / 2) (omega arith) (omega arith) (sym (bit_of-suc w k) ∙ c),
    )
