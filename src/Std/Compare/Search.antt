-- ===== src/Std/Compare/Search.antt =====
-- `strindex` finds the first occurrence.
use mathlib.Core.Path.{subst}
use ionutnechita_redacted_os.Base.{
  ℕ, zero, suc, ◌+◌, ◌-◌, ◌≤◌, ◌<◌, ◌≡◌, refl, true, false, some, List, [], ◌∷◌, ◌++◌, arith,
  length, ◌⊎◌, inl, inr, ◌==◌, Bool-cases, sym, drop,
}
use ionutnechita_redacted_os.Base.Int.{ℤ, pos, negsuc}
use ionutnechita_redacted_os.Std.Text.Build.{IsText}
use ionutnechita_redacted_os.Std.Compare.{matches_at, strindex_loop, strindex}

-- `ds` stands at the start of `cs`.
abbrev pub Starts : List ℕ → List ℕ → Type 0
Starts [] cs = Unit {0}
Starts (d ∷ ds) [] = ⊥
Starts (d ∷ ds) (c ∷ cs) = (c ≡ d) × Starts ds cs

matches_at-Starts :
    (cs ds r r' : List ℕ)
    → IsText cs
    → IsText ds
    → ((matches_at (cs ++ 0 ∷ r) (ds ++ 0 ∷ r') ≡ some true) × Starts ds cs)
      ⊎ ((matches_at (cs ++ 0 ∷ r) (ds ++ 0 ∷ r') ≡ some false) × ¬ Starts ds cs)
unfolding matches_at
matches_at-Starts [] [] r r' t u = inl (refl, tt)
matches_at-Starts (c ∷ cs) [] r r' t u = inl (refl, tt)
matches_at-Starts [] (d ∷ ds) r r' t u = inr (ground arith, λ h. h)
matches_at-Starts (c ∷ cs) (d ∷ ds) r r' t u = elim (Bool-cases (c == d)) [
  | inl same ↦ elim (matches_at-Starts cs ds r r' t.1 u.1) [
    | inl (e, h) ↦ inl (ground arith, (ground arith, h))
    | inr (e, h) ↦ inr (ground arith, λ s. h s.1)
  ]
  | inr other ↦ inr (ground arith, λ s. ground arith)
]

-- What `strindex` from index `i` on may answer for `ds` in `cs`.
abbrev pub IsFirst : List ℕ → List ℕ → ℕ → ℤ → Type 0
IsFirst ds cs i (pos n) =
    (i ≤ n)
    × (n < i + length cs)
    × Starts ds (drop (n - i) cs)
    × ((j : ℕ) → j < n - i → ¬ Starts ds (drop j cs))
IsFirst ds cs i (negsuc n) = (n ≡ 0) × ((j : ℕ) → j < length cs → ¬ Starts ds (drop j cs))

-- No occurrence at the first character nor in the rest.
none_before :
    (ds cs : List ℕ) (c m : ℕ)
    → ¬ Starts ds (c ∷ cs)
    → ((j : ℕ) → j < m → ¬ Starts ds (drop j cs))
    → (j : ℕ) → j < suc m
    → ¬ Starts ds (drop j (c ∷ cs))
none_before ds cs c m first rest zero h = first
none_before ds cs c m first rest (suc j) h = rest j (omega arith)

-- One character further on.
IsFirst-cons :
    (ds cs : List ℕ) (c i : ℕ) (n : ℤ)
    → ¬ Starts ds (c ∷ cs)
    → IsFirst ds cs (i + 1) n
    → IsFirst ds (c ∷ cs) i n
IsFirst-cons ds cs c i (pos n) first (lo, hi, found, before) =
    let e : n - i ≡ suc (n - (i + 1)) = omega arith in
    (
      omega arith,
      omega arith,
      subst (λ (k : ℕ). Starts ds (drop k (c ∷ cs))) (sym e) found,
      subst (λ (k : ℕ). (j : ℕ) → j < k → ¬ Starts ds (drop j (c ∷ cs))) (sym e)
          (none_before ds cs c (n - (i + 1)) first before),
    )
IsFirst-cons ds cs c i (negsuc n) first (e, never) =
    (e, none_before ds cs c (length cs) first never)

strindex_loop-IsFirst :
    (cs ds r r' : List ℕ) (i : ℕ)
    → IsText cs
    → IsText ds
    → (n : ℤ) × (strindex_loop (cs ++ 0 ∷ r) (ds ++ 0 ∷ r') i ≡ some n) × IsFirst ds cs i n
unfolding strindex_loop
strindex_loop-IsFirst [] ds r r' i t u = (negsuc 0, refl, (refl, λ j h. absurd (omega arith)))
strindex_loop-IsFirst (c ∷ cs) ds r r' i t u = elim (matches_at-Starts (c ∷ cs) ds r r' t u) [
  | inl (e, s) ↦
      let here : i - i ≡ 0 = omega arith in
      (
        pos i,
        ground arith,
        (
          omega arith,
          omega arith,
          subst (λ (k : ℕ). Starts ds (drop k (c ∷ cs))) (sym here) s,
          λ j h. absurd (omega arith),
        ),
      )
  | inr (e, s) ↦
      let (n, e', f) = strindex_loop-IsFirst cs ds r r' (i + 1) t.1 u in
      (n, ground arith, IsFirst-cons ds cs c i n s f)
]

-- On NUL-terminated texts `strindex` returns, and returns the index of the first occurrence of the
-- second text in the first, before the end of the first, or -1 if there is none.
pub strindex-IsFirst :
    (cs ds r r' : List ℕ)
    → IsText cs
    → IsText ds
    → (n : ℤ) × (strindex (cs ++ 0 ∷ r) (ds ++ 0 ∷ r') ≡ some n) × IsFirst ds cs 0 n
unfolding strindex
strindex-IsFirst cs ds r r' t u = strindex_loop-IsFirst cs ds r r' 0 t u
