-- ===== src/Ui/Draw/Tests.antt =====
-- shared/ui/draw/draw.c on a screen of 8 by 4 pixels, in rows of 10.
use ionutnechita_redacted_os.Base.{
  ℕ, ◌<◌, ◌≡◌, refl, false, Option, none, some, List, [], ◌∷◌, arith, replicate,
}
use ionutnechita_redacted_os.Ui.Draw.{
  DrawState, FrameBuffer, mark_dirty, add_rect, try_merge, fb_fill_rect, fb_draw_string,
  fb_get_char_size, fb_set_stride, fb_set_bounds,
}
use ionutnechita_redacted_os.Ui.Draw.Dirty.{Inside, AllFit, WillRedraw, mark_dirty-WillRedraw}
use ionutnechita_redacted_os.Ui.Draw.Fill.{IsScreen, at, Painted, fb_fill_rect-Painted}

abbrev screen : DrawState
screen = record {
  stride = 40;
  max_width = 8;
  max_height = 4;
  dirty_rects = record { x = 0; y = 0; width = 2; height = 2 } ∷ [];
  full_redraw = false;
}

abbrev buffer : FrameBuffer
buffer = record { size = 40; pixels = λ i. 0 }

mark_dirty-WillRedraw_example :
    AllFit (mark_dirty 5 1 9 2 screen).dirty_rects
    × (WillRedraw 6 2 screen → WillRedraw 6 2 (mark_dirty 5 1 9 2 screen))
    × (Inside 6 2 (record { x = 5; y = 1; width = 9; height = 2 })
        → 6 < 8
        → 2 < 4
        → WillRedraw 6 2 (mark_dirty 5 1 9 2 screen))
mark_dirty-WillRedraw_example =
    mark_dirty-WillRedraw 5 1 9 2 screen 6 2 (omega arith) (omega arith) (omega arith)

buffer-IsScreen : IsScreen screen buffer
buffer-IsScreen = omega arith

fb_fill_rect-Painted_example :
    (fb' : FrameBuffer) × (fb_fill_rect 6 1 5 2 77 screen buffer
      ≡ some (mark_dirty 6 1 5 2 screen, fb'))
    × Painted screen 77 6 1 5 2 buffer fb'
fb_fill_rect-Painted_example =
    fb_fill_rect-Painted 6 1 5 2 77 screen buffer buffer-IsScreen (omega arith) (omega arith)

-- A glyph whose top row is its left half.
abbrev font : ℕ → List ℕ
font c = 0xf0 ∷ replicate 7 0

abbrev pixel_of : Option (ℕ × ℕ × DrawState × FrameBuffer) → ℕ → ℕ → ℕ × ℕ × ℕ
pixel_of none px py = (0, 0, 0)
pixel_of (some (w, h, s, fb)) px py = (w, h, at s fb px py)

draw_string_test :
    pixel_of (fb_draw_string font (b'a' ∷ b'\n' ∷ b'b' ∷ []) 0 0 1 5 screen buffer) 3 0 ≡ (8, 20, 5)
unfolding fb_draw_string add_rect try_merge
draw_string_test = refl

settings_test :
    (fb_get_char_size 2 ≡ 16)
    × ((fb_set_bounds 3 5 (fb_set_stride 64 screen)).stride ≡ 64)
    × ((fb_set_bounds 3 5 screen).max_height ≡ 5)
unfolding fb_get_char_size fb_set_stride fb_set_bounds
settings_test = (refl, refl, refl)
