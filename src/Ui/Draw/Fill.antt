-- ===== src/Ui/Draw/Fill.antt =====
-- `fb_fill_rect` of shared/ui/draw/draw.c paints exactly its rectangle.
use ionutnechita_redacted_os.Base.{
  ℕ, zero, suc, ◌+◌, ◌*◌, ◌/◌, ◌^◌, ◌≤◌, ◌<◌, ◌≡◌, refl, some, arith, ◌⊎◌, inl, inr, ◌==◌, ltb, leb,
  if◌then◌else◌, u32, Bool-cases, ◌∙◌, ◌&&◌, ◌||◌,
}
use ionutnechita_redacted_os.Ui.Draw.{
  DrawState, FrameBuffer, mark_dirty, fb_draw_pixel, fill_row, fill_rows, fb_fill_rect,
}

-- The buffer holds all rows of the screen, at the stride, and a row of the screen fits the stride.
pub record IsScreen (s : DrawState) (fb : FrameBuffer) : Type 0 where
  pub row_fits : s.max_width ≤ s.stride / 4
  pub rows_fit : s.max_height * (s.stride / 4) ≤ fb.size
  pub small : fb.size < 2 ^ 32
  pub positive : 0 < s.stride / 4

-- The index of a pixel of the screen is in the buffer, and tells its place.
index_lt : (px py k w h size : ℕ) → px < w → py < h → w ≤ k → h * k ≤ size → py * k + px < size
index_lt px py k w h size a b c d = grind arith

index_inj : (px py x y k : ℕ) → px < k → x < k → py * k + px ≡ y * k + x → (py ≡ y) × (px ≡ x)
index_inj px py x y k a b e =
    ground (arith, index_lt px py k k y (y * k), index_lt x y k k py (py * k))

-- What a reader of the screen sees at a place.
abbrev pub at : DrawState → FrameBuffer → ℕ → ℕ → ℕ
at s fb px py = fb.pixels (py * (s.stride / 4) + px)

-- One pixel of the screen is painted and all others stay; off the screen nothing is done.
pub record Painted (s : DrawState) (color x y width height : ℕ) (fb fb' : FrameBuffer)
    : Type 0 where
  pub same_size : fb'.size ≡ fb.size
  pub painted :
      (px py : ℕ)
      → px < s.max_width
      → py < s.max_height
      → at s fb' px py ≡ (
          if (leb x px && ltb px (x + width)) && (leb y py && ltb py (y + height))
          then color
          else at s fb px py)

fb_draw_pixel-Painted :
    (x y color : ℕ) (s : DrawState) (fb : FrameBuffer)
    → IsScreen s fb
    → (fb' : FrameBuffer) × (fb_draw_pixel x y color s fb ≡ some fb')
      × Painted s color x y 1 1 fb fb'
unfolding fb_draw_pixel
fb_draw_pixel-Painted x y color s fb v =
    elim (Bool-cases (leb s.max_width x || leb s.max_height y)) [
      | inl off ↦
          (fb, rw off refl, record { same_size = refl; painted = λ px py hx hy. ground arith })
      | inr on ↦ (
        record fb { pixels = λ j. if j == (y * (s.stride / 4) + x) then color else fb.pixels j },
        ground (arith, index_lt x y (s.stride / 4) s.max_width s.max_height fb.size),
        record {
          same_size = refl;
          painted = λ px py hx hy. ground (arith, index_inj px py x y (s.stride / 4));
        },
      )
    ]

IsScreen-Painted :
    (s : DrawState) (color x y w h : ℕ) (fb fb' : FrameBuffer)
    → IsScreen s fb
    → Painted s color x y w h fb fb'
    → IsScreen s fb'
IsScreen-Painted s color x y w h fb fb' v p = record {
  row_fits = v.row_fits;
  rows_fit = omega (arith, v.rows_fit, p.same_size);
  small = omega (arith, v.small, p.same_size);
  positive = v.positive;
}

-- Nothing painted, and two rectangles side by side or one below the other.
Painted-empty :
    (s : DrawState) (color x y w h : ℕ) (fb : FrameBuffer)
    → (w ≡ 0) ⊎ (h ≡ 0)
    → Painted s color x y w h fb fb
Painted-empty s color x y w h fb e = record {
  same_size = refl;
  painted = λ px py hx hy. ground arith;
}

Painted-beside :
    (s : DrawState) (color x y w w' h : ℕ) (fb₁ fb₂ fb₃ : FrameBuffer)
    → Painted s color x y w h fb₁ fb₂
    → Painted s color (x + w) y w' h fb₂ fb₃
    → Painted s color x y (w + w') h fb₁ fb₃
Painted-beside s color x y w w' h fb₁ fb₂ fb₃ p q = record {
  same_size = q.same_size ∙ p.same_size;
  painted = λ px py hx hy. ground (arith, p.painted px py hx hy, q.painted px py hx hy);
}

Painted-below :
    (s : DrawState) (color x y w h h' : ℕ) (fb₁ fb₂ fb₃ : FrameBuffer)
    → Painted s color x y w h fb₁ fb₂
    → Painted s color x (y + h) w h' fb₂ fb₃
    → Painted s color x y w (h + h') fb₁ fb₃
Painted-below s color x y w h h' fb₁ fb₂ fb₃ p q = record {
  same_size = q.same_size ∙ p.same_size;
  painted = λ px py hx hy. ground (arith, p.painted px py hx hy, q.painted px py hx hy);
}

fill_row-Painted :
    (left dx x y color : ℕ) (s : DrawState) (fb : FrameBuffer)
    → IsScreen s fb
    → x + dx + left < 2 ^ 32
    → (fb' : FrameBuffer) × (fill_row left dx x y color s fb ≡ some fb')
      × Painted s color (x + dx) y left 1 fb fb'
unfolding fill_row
fill_row-Painted zero dx x y color s fb v small =
    (fb, refl, Painted-empty s color (x + dx) y 0 1 fb (inl refl))
fill_row-Painted (suc left) dx x y color s fb v small =
    let (fb₁, e₁, p₁) = fb_draw_pixel-Painted (x + dx) y color s fb v in
    let v₁ = IsScreen-Painted s color (x + dx) y 1 1 fb fb₁ v p₁ in
    let (fb₂, e₂, p₂) = fill_row-Painted left (dx + 1) x y color s fb₁ v₁ (omega arith) in
    let here : u32 (x + dx) ≡ x + dx = omega arith in
    let next : x + (dx + 1) ≡ x + dx + 1 = omega arith in
    let width : 1 + left ≡ suc left = omega arith in
    (
      fb₂,
      rw (here, e₁) e₂,
      rw (← width) (Painted-beside s color (x + dx) y 1 left 1 fb fb₁ fb₂ p₁ (rw next at p₂)),
    )

fill_rows-Painted :
    (left dy x y width color : ℕ) (s : DrawState) (fb : FrameBuffer)
    → IsScreen s fb
    → x + width < 2 ^ 32
    → y + dy + left < 2 ^ 32
    → (fb' : FrameBuffer) × (fill_rows left dy x y width color s fb ≡ some fb')
      × Painted s color x (y + dy) width left fb fb'
unfolding fill_rows
fill_rows-Painted zero dy x y width color s fb v wide small =
    (fb, refl, Painted-empty s color x (y + dy) width 0 fb (inr refl))
fill_rows-Painted (suc left) dy x y width color s fb v wide small =
    let start : x + 0 ≡ x = omega arith in
    let (fb₁, e₁, row) = fill_row-Painted width 0 x (y + dy) color s fb v (omega arith) in
    let p₁ : Painted s color x (y + dy) width 1 fb fb₁ = (rw start at row) in
    let v₁ = IsScreen-Painted s color x (y + dy) width 1 fb fb₁ v p₁ in
    let (fb₂, e₂, p₂) =
      fill_rows-Painted left (dy + 1) x y width color s fb₁ v₁ wide (omega arith) in
    let here : u32 (y + dy) ≡ y + dy = omega arith in
    let next : y + (dy + 1) ≡ y + dy + 1 = omega arith in
    let height : 1 + left ≡ suc left = omega arith in
    (
      fb₂,
      rw (here, e₁) e₂,
      rw (← height) (Painted-below s color x (y + dy) width 1 left fb fb₁ fb₂ p₁ (rw next at p₂)),
    )

-- On a frame buffer that holds the screen, `fb_fill_rect` of a rectangle that ends below 2 ^ 32
-- writes inside the buffer, and paints the pixels of the screen in the rectangle, and no other.
pub fb_fill_rect-Painted :
    (x y width height color : ℕ) (s : DrawState) (fb : FrameBuffer)
    → IsScreen s fb
    → x + width < 2 ^ 32
    → y + height < 2 ^ 32
    → (fb' : FrameBuffer) × (fb_fill_rect x y width height color s fb
        ≡ some (mark_dirty x y width height s, fb'))
      × Painted s color x y width height fb fb'
unfolding fb_fill_rect
fb_fill_rect-Painted x y width height color s fb v wide high =
    let start : y + 0 ≡ y = omega arith in
    let (fb', e, p) = fill_rows-Painted height 0 x y width color s fb v wide (omega arith) in
    (fb', rw e refl, rw start at p)
