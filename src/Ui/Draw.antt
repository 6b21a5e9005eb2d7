-- ===== src/Ui/Draw.antt =====
-- shared/ui/draw/draw.c. The dirty rectangles are the list of the first `dirty_count` entries of
-- the table. The frame buffer is a number of 32-bit pixels and a function from an index to the
-- pixel; the outcome `none` is a write outside it, or that the fuel of a loop ran out. A font's
-- glyph is eight bytes.
pub mod Dirty
pub mod Fill
mod Tests
use ionutnechita_redacted_os.Base.{
  ℕ, zero, suc, ◌+◌, ◌-◌, ◌*◌, ◌/◌, ◌%◌, ◌^◌, ◌≤◌, ◌<◌, ◌≡◌, ◌≢◌, ◌↔◌, refl, ap, Bool, true, false,
  Option, none, some, List, [], ◌∷◌, ◌++◌, arith, length, length-set, get_or, set,
  get_elem?-eq-get_or, ◌⊎◌, inl, inr, ◌==◌, ltb, leb, if◌then◌else◌, u64, u32, sub64, sub32,
  bswap16, bswap32, u8, u16, Bool-cases, store?, store?-eq-set, get_elem?, ◌>>=◌, ◌∙◌, sym, ap₂,
  min, max, ◌&&◌, ◌||◌, not, take, drop, replicate, length-append, length-replicate, append-nil,
  append_assoc, ◌>>>◌, bit_or, bit_and, bit_xor, ltb→lt, lt→ltb, le→ltb_false,
}

-- `gpu_rect`, with the fields of `gpu_point` and `gpu_size`.
pub record GpuRect : Type 0 where
  pub x : ℕ
  pub y : ℕ
  pub width : ℕ
  pub height : ℕ

pub record DrawState : Type 0 where
  pub stride : ℕ
  pub max_width : ℕ
  pub max_height : ℕ
  pub dirty_rects : List GpuRect
  pub full_redraw : Bool

pub record FrameBuffer : Type 0 where
  pub size : ℕ
  pub pixels : ℕ → ℕ

abbrev pub max_dirty_rects : ℕ
max_dirty_rects = 64

abbrev pub smaller : ℕ → ℕ → ℕ
smaller a b = if ltb a b then a else b

abbrev pub larger : ℕ → ℕ → ℕ
larger a b = if ltb b a then a else b

-- The answer, and `*a`.
pub try_merge : GpuRect → GpuRect → Bool × GpuRect
try_merge a b =
    let ax2 = u32 (a.x + a.width) in
    let ay2 = u32 (a.y + a.height) in
    let bx2 = u32 (b.x + b.width) in
    let by2 = u32 (b.y + b.height) in
    if ltb bx2 a.x || ltb ax2 b.x || ltb by2 a.y || ltb ay2 b.y
    then (false, a)
    else (let min_x = smaller a.x b.x in
        let min_y = smaller a.y b.y in
        (
          true,
          record {
            x = min_x;
            y = min_y;
            width = sub32 (larger ax2 bx2) min_x;
            height = sub32 (larger ay2 by2) min_y;
          },
        ))

-- The loop of `mark_dirty`: whether a rectangle took the new one in, and the rectangles.
pub merge_loop : List GpuRect → GpuRect → Bool × List GpuRect
merge_loop [] new_rect = (false, [])
merge_loop (r ∷ rs) new_rect =
    let rest : Bool × List GpuRect =
      (let (done, rs') = merge_loop rs new_rect in (done, r ∷ rs')) in
    let (merged, r') = try_merge r new_rect in if merged then (true, r' ∷ rs) else rest

-- Where no rectangle takes it in, the new one is added, or the whole screen is to be redrawn.
pub add_rect : GpuRect → DrawState → DrawState
unfolding merge_loop
add_rect new_rect s =
    let (merged, rs) = merge_loop s.dirty_rects new_rect in
    if merged
    then record s { dirty_rects = rs }
    else if ltb (length s.dirty_rects) max_dirty_rects
    then record s { dirty_rects = s.dirty_rects ++ (new_rect ∷ []) }
    else record s { full_redraw = true }

pub mark_dirty : ℕ → ℕ → ℕ → ℕ → DrawState → DrawState
mark_dirty x y w h s =
    if s.full_redraw
    then s
    else if leb s.max_width x || leb s.max_height y
    then s
    else (let w' = if ltb s.max_width (u32 (x + w)) then s.max_width - x else w in
        let h' = if ltb s.max_height (u32 (y + h)) then s.max_height - y else h in
        if w' == 0 || h' == 0
        then s
        else add_rect (record { x = x; y = y; width = w'; height = h' }) s)

pub fb_draw_pixel : ℕ → ℕ → ℕ → DrawState → FrameBuffer → Option FrameBuffer
fb_draw_pixel x y color s fb =
    if leb s.max_width x || leb s.max_height y
    then some fb
    else (let i = u32 (y * (s.stride / 4) + x) in
        if ltb i fb.size
        then some (record fb { pixels = λ j. if j == i then color else fb.pixels j })
        else none)

-- The inner loop of `fb_fill_rect`, `left` rounds before its end, at `dx`.
pub fill_row : ℕ → ℕ → ℕ → ℕ → ℕ → DrawState → FrameBuffer → Option FrameBuffer
fill_row zero dx x y color s fb = some fb
fill_row (suc left) dx x y color s fb =
    fb_draw_pixel (u32 (x + dx)) y color s fb >>= λ fb'. fill_row left (dx + 1) x y color s fb'

-- The outer loop, `left` rounds before its end, at `dy`.
pub fill_rows : ℕ → ℕ → ℕ → ℕ → ℕ → ℕ → DrawState → FrameBuffer → Option FrameBuffer
fill_rows zero dy x y width color s fb = some fb
fill_rows (suc left) dy x y width color s fb =
    fill_row width 0 x (u32 (y + dy)) color s fb >>= λ fb'.
    fill_rows left (dy + 1) x y width color s fb'

pub fb_fill_rect : ℕ → ℕ → ℕ → ℕ → ℕ → DrawState → FrameBuffer → Option (DrawState × FrameBuffer)
unfolding fill_rows mark_dirty
fb_fill_rect x y width height color s fb =
    fill_rows height 0 x y width color s fb >>= λ fb'. some (mark_dirty x y width height s, fb')

-- One row of a glyph, `left` columns before its end, at `col`.
pub char_row : ℕ → ℕ → ℕ → ℕ → ℕ → ℕ → ℕ → DrawState → FrameBuffer → Option FrameBuffer
unfolding fb_draw_pixel
char_row zero col bits scale x y color s fb = some fb
char_row (suc left) col bits scale x y color s fb =
    (if bits / 2 ^ (7 - col / scale) % 2 == 1
      then fb_draw_pixel (u32 (x + col)) y color s fb
      else some fb)
    >>= λ fb'. char_row left (col + 1) bits scale x y color s fb'

-- The rows of a glyph, `left` before its end, at `row`.
pub char_rows : ℕ → ℕ → List ℕ → ℕ → ℕ → ℕ → ℕ → DrawState → FrameBuffer → Option FrameBuffer
unfolding char_row
char_rows zero row glyph scale x y color s fb = some fb
char_rows (suc left) row glyph scale x y color s fb = get_elem? glyph (row / scale) >>= λ bits.
    char_row (8 * scale) 0 bits scale x (u32 (y + row)) color s fb >>= λ fb'.
    char_rows left (row + 1) glyph scale x y color s fb'

-- `font` is `get_font8x8`.
pub fb_draw_char :
    (ℕ → List ℕ) → ℕ → ℕ → ℕ → ℕ → ℕ → DrawState → FrameBuffer → Option (DrawState × FrameBuffer)
unfolding char_rows mark_dirty
fb_draw_char font x y c scale color s fb =
    char_rows (8 * scale) 0 (font c) scale x y color s fb >>= λ fb'.
    some (mark_dirty x y (8 * scale) (8 * scale) s, fb')

pub fb_get_char_size : ℕ → ℕ
fb_get_char_size scale = u32 (8 * scale)

pub fb_set_stride : ℕ → DrawState → DrawState
fb_set_stride new_stride s = record s { stride = new_stride }

pub fb_set_bounds : ℕ → ℕ → DrawState → DrawState
fb_set_bounds width height s = record s { max_width = width; max_height = height }

-- The variables of the loop of `fb_draw_string`.
pub record Pen : Type 0 where
  pub top : ℕ
  pub xoff : ℕ
  pub x_size : ℕ
  pub x_row_size : ℕ
  pub y_size : ℕ

-- The loop over the characters.
pub string_loop :
    (ℕ → List ℕ)
    → List ℕ
    → ℕ
    → ℕ
    → ℕ
    → Pen
    → DrawState
    → FrameBuffer
    → Option (Pen × DrawState × FrameBuffer)
unfolding fb_draw_char fb_get_char_size
string_loop font [] x0 scale color p s fb = some (p, s, fb)
string_loop font (c ∷ cs) x0 scale color p s fb =
    let char_size = fb_get_char_size scale in
    elim (c == b'\n') [
      | true ↦
          string_loop font cs x0 scale color
            (record {
              top = u32 (p.top + char_size + 2);
              xoff = 0;
              x_size = larger p.x_row_size p.x_size;
              x_row_size = 0;
              y_size = u32 (p.y_size + char_size + 2);
            })
            s fb
      | false ↦
          fb_draw_char font (u32 (x0 + p.xoff * char_size)) p.top c scale color s fb
          >>= λ (s', fb').
              string_loop font cs x0 scale color
                (record p { xoff = u32 (p.xoff + 1); x_row_size = u32 (p.x_row_size + char_size) })
                s' fb'
    ]

-- The answer is the width and the height.
pub fb_draw_string :
    (ℕ → List ℕ)
    → List ℕ
    → ℕ
    → ℕ
    → ℕ
    → ℕ
    → DrawState
    → FrameBuffer
    → Option (ℕ × ℕ × DrawState × FrameBuffer)
unfolding string_loop mark_dirty fb_get_char_size
fb_draw_string font text x0 y0 scale color s fb =
    string_loop font text x0 scale color
      (record {
        top = y0;
        xoff = 0;
        x_size = 0;
        x_row_size = 0;
        y_size = u32 (fb_get_char_size scale + 2);
      })
      s fb
    >>= λ (p, s', fb').
        let x_size = larger p.x_row_size p.x_size in
        some (x_size, p.y_size, mark_dirty x0 p.top x_size p.y_size s', fb')
