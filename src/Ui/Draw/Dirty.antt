-- ===== src/Ui/Draw/Dirty.antt =====
-- The dirty rectangles of shared/ui/draw/draw.c cover all that was marked.
use ionutnechita_redacted_os.Base.{
  ℕ, ◌+◌, ◌-◌, ◌^◌, ◌≤◌, ◌<◌, ◌≡◌, refl, true, List, [], ◌∷◌, ◌++◌, arith, length, ◌⊎◌, inl, inr,
  ltb, if◌then◌else◌, u32, sub32, Bool-cases,
}
use ionutnechita_redacted_os.Ui.Draw.{
  GpuRect, DrawState, try_merge, merge_loop, add_rect, mark_dirty, smaller, larger, max_dirty_rects,
}

-- The pixel lies in the rectangle.
abbrev pub Inside : ℕ → ℕ → GpuRect → Type 0
Inside px py r = (r.x ≤ px) × (px < r.x + r.width) × (r.y ≤ py) × (py < r.y + r.height)

abbrev pub Covered : ℕ → ℕ → List GpuRect → Type 0
Covered px py [] = ⊥
Covered px py (r ∷ rs) = Inside px py r ⊎ Covered px py rs

-- The rectangle ends before 2 ^ 32 on both sides.
abbrev pub Fits : GpuRect → Type 0
Fits r = (r.x + r.width < 2 ^ 32) × (r.y + r.height < 2 ^ 32)

abbrev pub AllFit : List GpuRect → Type 0
AllFit [] = Unit {0}
AllFit (r ∷ rs) = Fits r × AllFit rs

-- The next redraw paints the pixel.
abbrev pub WillRedraw : ℕ → ℕ → DrawState → Type 0
WillRedraw px py s = (s.full_redraw ≡ true) ⊎ Covered px py s.dirty_rects

-- One side of a merged rectangle: where it starts, and how long it is.
abbrev union_start : ℕ → ℕ → ℕ
union_start a b = smaller a b

abbrev union_length : ℕ → ℕ → ℕ → ℕ → ℕ
union_length a m b n = sub32 (larger (u32 (a + m)) (u32 (b + n))) (smaller a b)

-- It ends where the one that reaches further does.
union_end :
    (a m b n : ℕ)
    → a + m < 2 ^ 32
    → b + n < 2 ^ 32
    → union_start a b + union_length a m b n ≡ larger (a + m) (b + n)
union_end a m b n ha hb = ground arith

union_bounds :
    (a m b n : ℕ)
    → (union_start a b ≤ a)
      × (union_start a b ≤ b)
      × (a + m ≤ larger (a + m) (b + n))
      × (b + n ≤ larger (a + m) (b + n))
union_bounds a m b n = ground arith

union_fits : (a m b n : ℕ) → a + m < 2 ^ 32 → b + n < 2 ^ 32 → larger (a + m) (b + n) < 2 ^ 32
union_fits a m b n ha hb = ground arith

abbrev union : GpuRect → GpuRect → GpuRect
union a b = record {
  x = union_start a.x b.x;
  y = union_start a.y b.y;
  width = union_length a.x a.width b.x b.width;
  height = union_length a.y a.height b.y b.height;
}

try_merge-union : (a b : GpuRect) → (try_merge a b).0 ≡ true → (try_merge a b).1 ≡ union a b
unfolding try_merge
try_merge-union a b h = ground arith

module _ (a b : GpuRect) (fa : Fits a) (fb : Fits b) where
  union-Fits : Fits (union a b)
  union-Fits = omega (
    arith,
    union_end a.x a.width b.x b.width fa.0 fb.0,
    union_end a.y a.height b.y b.height fa.1 fb.1,
    union_fits a.x a.width b.x b.width fa.0 fb.0,
    union_fits a.y a.height b.y b.height fa.1 fb.1,
  )

  union-Inside : (px py : ℕ) → Inside px py a ⊎ Inside px py b → Inside px py (union a b)
  union-Inside px py (inl i) = omega (
    arith,
    union_end a.x a.width b.x b.width fa.0 fb.0,
    union_end a.y a.height b.y b.height fa.1 fb.1,
    union_bounds a.x a.width b.x b.width,
    union_bounds a.y a.height b.y b.height,
  )
  union-Inside px py (inr i) = omega (
    arith,
    union_end a.x a.width b.x b.width fa.0 fb.0,
    union_end a.y a.height b.y b.height fa.1 fb.1,
    union_bounds a.x a.width b.x b.width,
    union_bounds a.y a.height b.y b.height,
  )

-- A merged rectangle holds both, and still fits.
try_merge-Inside :
    (a b : GpuRect) (px py : ℕ)
    → Fits a
    → Fits b
    → (try_merge a b).0 ≡ true
    → Fits (try_merge a b).1 × (Inside px py a ⊎ Inside px py b → Inside px py (try_merge a b).1)
try_merge-Inside a b px py fa fb h =
    rw (try_merge-union a b h) (union-Fits a b fa fb, union-Inside a b fa fb px py)

-- A kept rectangle keeps its pixels; the new one's are covered too where a rectangle took it in.
merge_loop-Covered :
    (rs : List GpuRect) (b : GpuRect) (px py : ℕ)
    → AllFit rs
    → Fits b
    → AllFit (merge_loop rs b).1
      × (Covered px py rs → Covered px py (merge_loop rs b).1)
      × ((merge_loop rs b).0 ≡ true → Inside px py b → Covered px py (merge_loop rs b).1)
unfolding merge_loop
merge_loop-Covered [] b px py f g = (tt, (λ c. c), λ e i. absurd (cc e))
merge_loop-Covered (r ∷ rs) b px py (fr, f) g =
    let (ih₀, ih₁, ih₂) = merge_loop-Covered rs b px py f g in
    elim (Bool-cases (try_merge r b).0) [
      | inl e ↦
          let (fits, ins) = try_merge-Inside r b px py fr g e in
          rw e (
            (fits, f),
            (λ c. elim c [ inl i ↦ inl (ins (inl i)) | inr c' ↦ inr c' ]),
            (λ e i. inl (ins (inr i))),
          )
      | inr e ↦ rw e (
        (fr, ih₀),
        (λ c. elim c [ inl i ↦ inl i | inr c' ↦ inr (ih₁ c') ]),
        (λ e' i. inr (ih₂ e' i)),
      )
    ]

Covered-append :
    (rs : List GpuRect) (b : GpuRect) (px py : ℕ)
    → Covered px py rs ⊎ Inside px py b
    → Covered px py (rs ++ (b ∷ []))
Covered-append [] b px py (inl c) = absurd c
Covered-append [] b px py (inr i) = inl i
Covered-append (r ∷ rs) b px py (inl (inl i)) = inl i
Covered-append (r ∷ rs) b px py (inl (inr c)) = inr (Covered-append rs b px py (inl c))
Covered-append (r ∷ rs) b px py (inr i) = inr (Covered-append rs b px py (inr i))

AllFit-append : (rs : List GpuRect) (b : GpuRect) → AllFit rs → Fits b → AllFit (rs ++ (b ∷ []))
AllFit-append [] b f g = (g, tt)
AllFit-append (r ∷ rs) b (fr, f) g = (fr, AllFit-append rs b f g)

add_rect-WillRedraw :
    (s : DrawState) (b : GpuRect) (px py : ℕ)
    → AllFit s.dirty_rects
    → Fits b
    → AllFit (add_rect b s).dirty_rects
      × (WillRedraw px py s ⊎ Inside px py b → WillRedraw px py (add_rect b s))
unfolding add_rect
add_rect-WillRedraw s b px py f g =
    let (fits, old, new) = merge_loop-Covered s.dirty_rects b px py f g in
    elim (Bool-cases (merge_loop s.dirty_rects b).0) [
      | inl e ↦ rw e (
        fits,
        λ c. elim c [ inl (inl r) ↦ inl r | inl (inr k) ↦ inr (old k) | inr i ↦ inr (new e i) ],
      )
      | inr e ↦ elim (Bool-cases (ltb (length s.dirty_rects) max_dirty_rects)) [
        | inl e' ↦
            rw (e, e')
              (
                AllFit-append s.dirty_rects b f g,
                λ c. elim c [
                  | inl (inl r) ↦ inl r
                  | inl (inr k) ↦ inr (Covered-append s.dirty_rects b px py (inl k))
                  | inr i ↦ inr (Covered-append s.dirty_rects b px py (inr i))
                ],
              )
        | inr e' ↦ rw (e, e') (f, λ c. inl refl)
      ]
    ]

-- A side of the marked area, cut at the edge of the screen.
abbrev cut : ℕ → ℕ → ℕ → ℕ
cut x w limit = if ltb limit (u32 (x + w)) then limit - x else w

cut_bounds :
    (x w limit p : ℕ)
    → x + w < 2 ^ 32
    → (x + cut x w limit < 2 ^ 32) × (p < limit → p < x + w → p < x + cut x w limit)
cut_bounds x w limit p h = ground arith

abbrev visible : ℕ → ℕ → ℕ → ℕ → DrawState → GpuRect
visible x y w h s = record {
  x = x;
  y = y;
  width = cut x w s.max_width;
  height = cut y h s.max_height;
}

-- Why a call may add nothing.
abbrev Skipped : ℕ → ℕ → GpuRect → DrawState → Type 0
Skipped x y b s =
    (s.full_redraw ≡ true) ⊎ (s.max_width ≤ x) ⊎ (s.max_height ≤ y) ⊎ (b.width ≡ 0) ⊎ (b.height ≡ 0)

mark_dirty-cases :
    (x y w h : ℕ) (s : DrawState)
    → ((mark_dirty x y w h s ≡ s) × Skipped x y (visible x y w h s) s)
      ⊎ (mark_dirty x y w h s ≡ add_rect (visible x y w h s) s)
unfolding mark_dirty
mark_dirty-cases x y w h s = ground arith

nothing_left :
    (x y w h px py : ℕ) (s : DrawState)
    → (s.max_width ≤ x)
      ⊎ (s.max_height ≤ y)
      ⊎ (cut x w s.max_width ≡ 0)
      ⊎ (cut y h s.max_height ≡ 0)
    → Inside px py (record { x = x; y = y; width = w; height = h })
    → px < s.max_width
    → py < s.max_height
    → ⊥
nothing_left x y w h px py s skipped i hpx hpy = ground arith

-- With all rectangles ending below 2 ^ 32, `mark_dirty` keeps them so, forgets no pixel that
-- would have been redrawn, and from then on every pixel of the marked area that is on the screen is
-- redrawn.
pub mark_dirty-WillRedraw :
    (x y w h : ℕ) (s : DrawState) (px py : ℕ)
    → AllFit s.dirty_rects
    → x + w < 2 ^ 32
    → y + h < 2 ^ 32
    → AllFit (mark_dirty x y w h s).dirty_rects
      × (WillRedraw px py s → WillRedraw px py (mark_dirty x y w h s))
      × (Inside px py (record { x = x; y = y; width = w; height = h })
          → px < s.max_width
          → py < s.max_height
          → WillRedraw px py (mark_dirty x y w h s))
mark_dirty-WillRedraw x y w h s px py f hx hy =
    let b = visible x y w h s in
    let (fw, inw) = cut_bounds x w s.max_width px hx in
    let (fh, inh) = cut_bounds y h s.max_height py hy in
    elim (mark_dirty-cases x y w h s) [
      | inl (e, skipped) ↦ rw e (
        f,
        (λ r. r),
        λ i hpx hpy. elim skipped [
          | inl r ↦ inl r
          | inr more ↦ absurd (nothing_left x y w h px py s more i hpx hpy)
        ],
      )
      | inr e ↦
          let (fits, redraw) = add_rect-WillRedraw s b px py f (fw, fh) in
          rw e (
            fits,
            (λ r. redraw (inl r)),
            λ i hpx hpy. redraw (inr (i.0, inw hpx i.1, i.2, inh hpy i.3)),
          )
    ]
