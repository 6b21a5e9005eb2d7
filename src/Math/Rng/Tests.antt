-- ===== src/Math/Rng/Tests.antt =====
-- The generator of shared/math/rng.c from concrete states.
use ionutnechita_redacted_os.Base.{◌+◌, ◌*◌, ◌^◌, ◌<◌, ◌≡◌, refl, arith, u8, ◌>>>◌}
use ionutnechita_redacted_os.Math.Rng.{
  Rng, rng_seed, rng_init_random, rng_next64, rng_next32, rng_next16, rng_next8, rng_between64,
  rng_between32, rng_between16, rng_between8, rng_fill64, rng_fill32, rng_fill16, rng_fill8,
  rng_fill_buf,
}
use ionutnechita_redacted_os.Math.Rng.Range.{InRange, rng_between-InRange}
use ionutnechita_redacted_os.Math.Rng.Fill.{draw, rng_fill-draw, rng_fill_buf-unfilled}

abbrev state : Rng
state = record { s0 = 5; s1 = 2 ^ 63 }

rng_between-InRange_example :
    (200 < 2 ^ 64 → 100 < 2 ^ 64 → InRange 100 200 (rng_between64 state 100 200).0)
    × (200 < 2 ^ 32 → 100 < 2 ^ 32 → InRange 100 200 (rng_between32 state 100 200).0)
    × (200 < 2 ^ 16 → 100 < 2 ^ 16 → InRange 100 200 (rng_between16 state 100 200).0)
    × (200 < 2 ^ 8 → 100 < 2 ^ 8 → InRange 100 200 (rng_between8 state 100 200).0)
rng_between-InRange_example = rng_between-InRange state 100 200

rng_fill-draw_test :
    (3 < 8
      → (rng_fill64 state 64 4 (λ a. 0)).1 (64 + 2 * 8 + 3)
        ≡ u8 (draw rng_next64 2 state >>> (8 * 3)))
    × (3 < 4
        → (rng_fill32 state 64 4 (λ a. 0)).1 (64 + 2 * 4 + 3)
          ≡ u8 (draw rng_next32 2 state >>> (8 * 3)))
    × (3 < 2
        → (rng_fill16 state 64 4 (λ a. 0)).1 (64 + 2 * 2 + 3)
          ≡ u8 (draw rng_next16 2 state >>> (8 * 3)))
    × (3 < 1
        → (rng_fill8 state 64 4 (λ a. 0)).1 (64 + 2 * 1 + 3)
          ≡ u8 (draw rng_next8 2 state >>> (8 * 3)))
rng_fill-draw_test = rng_fill-draw state 64 4 (λ a. 0) 2 3 (omega arith)

-- The last byte of a buffer of 64.
rng_fill_buf-unfilled_test : (rng_fill_buf state 4096 64 (λ a. 0)).1 (4096 + 63) ≡ 0
rng_fill_buf-unfilled_test =
    rng_fill_buf-unfilled state 4096 64 (λ a. 0) 63 (omega arith) (omega arith)

first_draws_test :
    ((rng_next64 state).0 ≡ 2 ^ 63 + 5)
    × ((rng_next32 state).0 ≡ 2 ^ 31)
    × ((rng_next16 state).0 ≡ 2 ^ 15)
    × ((rng_next8 state).0 ≡ 2 ^ 7)
unfolding rng_next64 rng_next32 rng_next16 rng_next8
first_draws_test = (refl, refl, refl, refl)

seed_test : rng_init_random 42 ≡ rng_seed 42
unfolding rng_init_random rng_seed
seed_test = refl
