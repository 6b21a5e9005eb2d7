-- ===== src/Std/Compare/Tests.antt =====
-- The comparisons of shared/std/string.c at concrete texts.
use ionutnechita_redacted_os.Base.{ℕ, ◌≡◌, ◌↔◌, refl, true, false, some, List, [], ◌∷◌, ◌++◌, arith}
use ionutnechita_redacted_os.Base.Int.{ℤ, pos}
use ionutnechita_redacted_os.Std.Compare.{
  strcmp, string_equals, strstart, strindex, strend, strcont, utf16tochar, fold_case,
}
use ionutnechita_redacted_os.Std.Text.Build.{IsText}
use ionutnechita_redacted_os.Std.Compare.Equal.{strcmp-eq}
use ionutnechita_redacted_os.Std.Compare.Search.{IsFirst, strindex-IsFirst}
use ionutnechita_redacted_os.Std.Compare.Suffix.{strend_overlap}

abbrev dots : List ℕ
dots = b'a' ∷ b'.' ∷ b'.' ∷ []

dots-IsText : IsText dots
dots-IsText = ground arith

abbrev dot : List ℕ
dot = b'.' ∷ []

dot-IsText : IsText dot
dot-IsText = ground arith

strcmp-eq_test :
    (strcmp (some (dots ++ 0 ∷ 1 ∷ [])) (some (dot ++ 0 ∷ [])) false ≡ some (pos 0)) ↔ (dots ≡ dot)
strcmp-eq_test = strcmp-eq dots dot (1 ∷ []) [] dots-IsText dot-IsText

strindex-IsFirst_example :
    (n : ℤ) × (strindex (dots ++ 0 ∷ []) (dot ++ 0 ∷ []) ≡ some n) × IsFirst dot dots 0 n
strindex-IsFirst_example = strindex-IsFirst dots dot [] [] dots-IsText dot-IsText

strend_overlap_test :
    strend (dots ++ 0 ∷ []) (dot ++ (b'e' ∷ b'l' ∷ b'f' ∷ []) ++ 0 ∷ []) false ≡ some 0
strend_overlap_test =
    strend_overlap (b'a' ∷ b'.' ∷ []) [] (b'e' ∷ b'l' ∷ b'f' ∷ []) [] [] b'.' (ground arith)
      dot-IsText

others_test :
    (string_equals (some (dot ++ 0 ∷ [])) (some (dot ++ 0 ∷ [])) ≡ some true)
    × (strcont (dots ++ 0 ∷ []) (dot ++ 0 ∷ []) ≡ some true)
    × (strstart (dots ++ 0 ∷ []) (b'A' ∷ 0 ∷ []) true ≡ some 1)
    × (utf16tochar (b'h' ∷ b'i' ∷ 0 ∷ []) (7 ∷ 7 ∷ 7 ∷ []) 3 ≡ some (b'h' ∷ b'i' ∷ 0 ∷ []))
unfolding string_equals strcont strstart utf16tochar strcmp fold_case
others_test = (refl, refl, refl, refl)
