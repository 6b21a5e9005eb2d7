-- ===== src/Std/Compare/Suffix.antt =====
-- `strend` on texts that overlap.
use ionutnechita_redacted_os.Base.{
  ℕ, ◌≡◌, refl, Bool, true, false, some, List, [], ◌∷◌, ◌++◌, arith, inl, inr, ◌==◌, Bool-cases,
}
use ionutnechita_redacted_os.Std.Text.Build.{IsText}
use ionutnechita_redacted_os.Std.Compare.{fold_case, runs_out, strend_loop, strend}

-- The inner loop runs out of `y` while it stands at the start of `b`.
runs_out_prefix :
    (y z r r' : List ℕ) → IsText y → runs_out false (y ++ 0 ∷ r) (y ++ z ++ 0 ∷ r') ≡ some true
unfolding runs_out fold_case
runs_out_prefix [] [] r r' t = refl
runs_out_prefix [] (c ∷ z) r r' t = refl
runs_out_prefix (c ∷ y) z r r' t = ground (arith, runs_out_prefix y z r r')

-- The inner loop ends at the first text's NUL or at a difference.
runs_out_returns :
    (u w r r' : List ℕ)
    → IsText u
    → (b : Bool) × (runs_out false (u ++ 0 ∷ r) (w ++ 0 ∷ r') ≡ some b)
unfolding runs_out fold_case
runs_out_returns [] [] r r' t = (true, refl)
runs_out_returns [] (d ∷ w) r r' t = (true, refl)
runs_out_returns (c ∷ u) [] r r' t = (false, ground arith)
runs_out_returns (c ∷ u) (d ∷ w) r r' t =
    let (b, e) = runs_out_returns u w r r' t.1 in
    elim (Bool-cases (c == d)) [ inl same ↦ (b, ground arith) | inr other ↦ (false, ground arith) ]

IsText-append : (x y : List ℕ) → IsText x → IsText y → IsText (x ++ y)
IsText-append [] y t u = u
IsText-append (c ∷ x) y t u = (t.0, IsText-append x y t.1 u)

strend_loop_overlap :
    (x y z r r' : List ℕ) (c : ℕ)
    → IsText x
    → IsText (c ∷ y)
    → strend_loop false (x ++ (c ∷ y) ++ 0 ∷ r) ((c ∷ y) ++ z ++ 0 ∷ r') c ≡ some 0
unfolding strend_loop fold_case
strend_loop_overlap [] y z r r' c t u = ground (arith, runs_out_prefix (c ∷ y) z r r')
strend_loop_overlap (d ∷ x) y z r r' c t u =
    let (b, e) =
      runs_out_returns ((d ∷ x) ++ (c ∷ y)) ((c ∷ y) ++ z) r r'
        (IsText-append (d ∷ x) (c ∷ y) t u) in
    ground (arith, e, strend_loop_overlap x y z r r' c)

-- Wherever a text's end `c ∷ y` is the start of the text looked for, `strend` answers 0, "found",
-- whatever follows in the text looked for.
pub strend_overlap :
    (x y z r r' : List ℕ) (c : ℕ)
    → IsText x
    → IsText (c ∷ y)
    → strend (x ++ (c ∷ y) ++ 0 ∷ r) ((c ∷ y) ++ z ++ 0 ∷ r') false ≡ some 0
unfolding strend
strend_overlap [] y z r r' c t u = strend_loop_overlap [] y z r r' c t u
strend_overlap (d ∷ x) y z r r' c t u = strend_loop_overlap (d ∷ x) y z r r' c t u
