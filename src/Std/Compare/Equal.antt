-- ===== src/Std/Compare/Equal.antt =====
-- `strcmp` decides equality of texts.
use ionutnechita_redacted_os.Base.{ℕ, ◌≡◌, ◌↔◌, refl, Bool, false, some, List, [], ◌∷◌, ◌++◌, arith}
use ionutnechita_redacted_os.Base.Int.{pos}
use ionutnechita_redacted_os.Std.Text.Build.{IsText}
use ionutnechita_redacted_os.Std.Compare.{strcmp_loop, strcmp, fold_case}

strcmp_loop_self :
    (cs r r' : List ℕ) (ci : Bool) → strcmp_loop ci (cs ++ 0 ∷ r) (cs ++ 0 ∷ r') ≡ some (pos 0)
unfolding strcmp_loop
strcmp_loop_self [] r r' ci = ground arith
strcmp_loop_self (c ∷ cs) r r' ci = ground (arith, strcmp_loop_self cs r r' ci)

strcmp_loop_eq :
    (cs ds r r' : List ℕ)
    → IsText cs
    → IsText ds
    → strcmp_loop false (cs ++ 0 ∷ r) (ds ++ 0 ∷ r') ≡ some (pos 0)
    → cs ≡ ds
unfolding strcmp_loop fold_case
strcmp_loop_eq [] [] r r' t u h = refl
strcmp_loop_eq [] (d ∷ ds) r r' t u h = ground arith
strcmp_loop_eq (c ∷ cs) [] r r' t u h = ground arith
strcmp_loop_eq (c ∷ cs) (d ∷ ds) r r' t u h = ground (arith, strcmp_loop_eq cs ds r r')

-- On NUL-terminated texts the case-sensitive `strcmp` is 0 exactly when the texts are equal; what
-- lies behind the NULs plays no part.
pub strcmp-eq :
    (cs ds r r' : List ℕ)
    → IsText cs
    → IsText ds
    → (strcmp (some (cs ++ 0 ∷ r)) (some (ds ++ 0 ∷ r')) false ≡ some (pos 0)) ↔ (cs ≡ ds)
unfolding strcmp
strcmp-eq cs ds r r' t u =
    (strcmp_loop_eq cs ds r r' t u, λ e. rw (← e) (strcmp_loop_self cs r r' false))
