-- ===== src/Math/Rng/Fill.antt =====
-- What the fill functions of shared/math/rng.c write.
use ionutnechita_redacted_os.Base.{
  ℕ, zero, suc, ◌+◌, ◌-◌, ◌*◌, ◌/◌, ◌%◌, ◌≤◌, ◌<◌, ◌≡◌, refl, ap, arith, ◌⊎◌, inl, inr, u8, ◌∙◌,
  ◌>>>◌,
}
use ionutnechita_redacted_os.Math.Rng.{
  Rng, rng_next64, rng_next32, rng_next16, rng_next8, store_le, fill_loop, rng_fill64, rng_fill32,
  rng_fill16, rng_fill8, rng_fill_buf,
}

-- The value that the generator `next` draws behind `n` others.
pub draw : (Rng → ℕ × Rng) → ℕ → Rng → ℕ
draw next zero r = (next r).0
draw next (suc n) r = draw next n (next r).1

store_le-outside :
    (width : ℕ) (mem : ℕ → ℕ) (a v j : ℕ)
    → (j < a) ⊎ (a + width ≤ j)
    → store_le width mem a v j ≡ mem j
unfolding store_le
store_le-outside width mem a v j h = ground arith

add_sub_left : (a b : ℕ) → a + b - a ≡ b
add_sub_left a b = omega arith

store_le-inside :
    (width : ℕ) (mem : ℕ → ℕ) (a v b : ℕ)
    → b < width
    → store_le width mem a v (a + b) ≡ u8 (v >>> (8 * b))
unfolding store_le
store_le-inside width mem a v b h =
    ground (arith, ap (λ (t : ℕ). u8 (v >>> (8 * t))) (add_sub_left a b))

fill_loop-below :
    (width : ℕ) (next : Rng → ℕ × Rng) (left a j : ℕ) (r : Rng) (mem : ℕ → ℕ)
    → j < a
    → (fill_loop width next left a r mem).1 j ≡ mem j
unfolding fill_loop
fill_loop-below width next zero a j r mem h = refl
fill_loop-below width next (suc left) a j r mem h =
    fill_loop-below width next left (a + width) j (next r).1 (store_le width mem a (next r).0)
      (omega arith)
    ∙ store_le-outside width mem a (next r).0 j (inl h)

fill_loop-above :
    (width : ℕ) (next : Rng → ℕ × Rng) (left a j : ℕ) (r : Rng) (mem : ℕ → ℕ)
    → a + left * width ≤ j
    → (fill_loop width next left a r mem).1 j ≡ mem j
unfolding fill_loop
fill_loop-above width next zero a j r mem h = refl
fill_loop-above width next (suc left) a j r mem h =
    fill_loop-above width next left (a + width) j (next r).1 (store_le width mem a (next r).0)
      (omega arith)
    ∙ store_le-outside width mem a (next r).0 j (inr (omega arith))

fill_loop-draw :
    (width : ℕ) (next : Rng → ℕ × Rng) (left a k b : ℕ) (r : Rng) (mem : ℕ → ℕ)
    → k < left
    → b < width
    → (fill_loop width next left a r mem).1 (a + k * width + b) ≡ u8 (draw next k r >>> (8 * b))
unfolding fill_loop draw
fill_loop-draw width next zero a k b r mem h hb = absurd (omega arith)
fill_loop-draw width next (suc left) a zero b r mem h hb =
    fill_loop-below width next left (a + width) (a + 0 * width + b) (next r).1
      (store_le width mem a (next r).0) (omega arith)
    ∙ ap (store_le width mem a (next r).0) (omega arith)
    ∙ store_le-inside width mem a (next r).0 b hb
fill_loop-draw width next (suc left) a (suc k) b r mem h hb =
    ap (fill_loop width next left (a + width) (next r).1 (store_le width mem a (next r).0)).1
      (omega arith)
    ∙ fill_loop-draw width next left (a + width) k b (next r).1 (store_le width mem a (next r).0)
        (omega arith) hb

-- Each of the four fill functions writes its successive draws: byte `b` of element `k` is byte `b`
-- of the draw behind `k` others.
pub rng_fill-draw :
    (r : Rng) (dst count : ℕ) (mem : ℕ → ℕ) (k b : ℕ)
    → k < count
    → (b < 8
        → (rng_fill64 r dst count mem).1 (dst + k * 8 + b) ≡ u8 (draw rng_next64 k r >>> (8 * b)))
      × (b < 4
          → (rng_fill32 r dst count mem).1 (dst + k * 4 + b) ≡ u8 (draw rng_next32 k r >>> (8 * b)))
      × (b < 2
          → (rng_fill16 r dst count mem).1 (dst + k * 2 + b) ≡ u8 (draw rng_next16 k r >>> (8 * b)))
      × (b < 1
          → (rng_fill8 r dst count mem).1 (dst + k * 1 + b) ≡ u8 (draw rng_next8 k r >>> (8 * b)))
unfolding rng_fill64 rng_fill32 rng_fill16 rng_fill8
rng_fill-draw r dst count mem k b h = (
  fill_loop-draw 8 rng_next64 count dst k b r mem h,
  fill_loop-draw 4 rng_next32 count dst k b r mem h,
  fill_loop-draw 2 rng_next16 count dst k b r mem h,
  fill_loop-draw 1 rng_next8 count dst k b r mem h,
)

-- `rng_fill_buf` counts its blocks of 32 bytes but fills 8 bytes for each, and starts again at
-- `dest` for the rest: behind a quarter of the buffer, and behind its first 31 bytes, it changes
-- no byte.
pub rng_fill_buf-unfilled :
    (r : Rng) (dest count : ℕ) (mem : ℕ → ℕ) (j : ℕ)
    → 31 ≤ j
    → count / 32 * 8 ≤ j
    → (rng_fill_buf r dest count mem).1 (dest + j) ≡ mem (dest + j)
unfolding rng_fill_buf rng_fill64
rng_fill_buf-unfilled r dest count mem j h₁ h₂ =
    let once = fill_loop 8 rng_next64 (count / 32) dest r mem in
    let twice = fill_loop 8 rng_next64 (count % 32 / 8) dest once.0 once.1 in
    fill_loop-above 1 rng_next8 (count % 8) (dest + 8 * (count % 32 / 8)) (dest + j) twice.0 twice.1
      (omega arith)
    ∙ fill_loop-above 8 rng_next64 (count % 32 / 8) dest (dest + j) once.0 once.1 (omega arith)
    ∙ fill_loop-above 8 rng_next64 (count / 32) dest (dest + j) r mem (omega arith)
