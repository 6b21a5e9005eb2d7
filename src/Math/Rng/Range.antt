-- ===== src/Math/Rng/Range.antt =====
-- The ranges of the `rng_between` functions of shared/math/rng.c.
use native.Mathlib.Nat.{mod-lt}
use ionutnechita_redacted_os.Base.{ℕ, ◌-◌, ◌%◌, ◌^◌, ◌≤◌, ◌<◌, ◌≡◌, arith}
use ionutnechita_redacted_os.Math.Rng.{
  Rng, rng_next64, rng_between64, rng_between32, rng_between16, rng_between8,
}

-- `r` is the answer at the bounds `low` and `high` to the draw `v`: within the bounds when there is
-- room between them, and the lower bound otherwise.
pub InRange : ℕ → ℕ → ℕ → Type 0
InRange low high r = (low < high → (low ≤ r) × (r < high)) × (high ≤ low → r ≡ low)

mod_lt : (v n : ℕ) → 0 < n → v % n < n
mod_lt v n h = mod-lt v h

-- At bounds that fit the width each of the four functions answers a number from the lower bound
-- on and below the upper one, or the lower bound when the upper one is not above it, at every
-- state of the generator.
pub rng_between-InRange :
    (r : Rng) (low high : ℕ)
    → (high < 2 ^ 64 → low < 2 ^ 64 → InRange low high (rng_between64 r low high).0)
      × (high < 2 ^ 32 → low < 2 ^ 32 → InRange low high (rng_between32 r low high).0)
      × (high < 2 ^ 16 → low < 2 ^ 16 → InRange low high (rng_between16 r low high).0)
      × (high < 2 ^ 8 → low < 2 ^ 8 → InRange low high (rng_between8 r low high).0)
unfolding rng_between64 rng_between32 rng_between16 rng_between8 InRange
rng_between-InRange r low high = ground (arith, mod_lt (rng_next64 r).0 (high - low))
