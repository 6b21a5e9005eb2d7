-- ===== src/DataStruct/Fifo.antt =====
-- The abstract view of the two array containers: a first-in first-out queue of at most `cap`
-- elements, and the stretch of a circular array that stands for it.
use native.Mathlib.Nat.{mod-add-mod, mod-eq_of_lt, mod-eq-sub-mod, add-zero, add-mod_right}
use native.Mathlib.Decide.{dec_lt}
use ionutnechita_redacted_os.Base.{
  ℕ, zero, suc, ◌+◌, ◌-◌, ◌%◌, ◌≤◌, ◌<◌, ◌≡◌, ◌≢◌, refl, ap, ap₂, ◌∙◌, Bool, true, false, Option,
  none, some, List, [], ◌∷◌, ◌++◌, arith, length, get_or, set, get_or-set_self, get_or-set_ne, ltb,
  ◌==◌, ◌||◌, if◌then◌else◌,
}

module _ {ℓ} {A : Type ℓ} where
  -- What a bounded queue answers and keeps: `enqueue` refuses at the bound.
  unfoldable pub enqueue : ℕ → List A → A → Bool × List A
  enqueue cap q x = if ltb (length q) cap then (true, q ++ (x ∷ [])) else (false, q)

  unfoldable pub dequeue : List A → Option A × List A
  dequeue [] = (none, [])
  dequeue (x ∷ q) = (some x, q)

  -- The `n` elements from index `i` on, going round at `cap`; `d` stands for what lies outside.
  abbrev pub window : A → List A → ℕ → ℕ → ℕ → List A
  window d buf cap i zero = []
  window d buf cap i (suc n) = get_or buf i d ∷ window d buf cap ((i + 1) % cap) n

  pub length-window : (d : A) (buf : List A) (cap i n : ℕ) → length (window d buf cap i n) ≡ n
  length-window d buf cap i zero = refl
  length-window d buf cap i (suc n) = ap suc (length-window d buf cap ((i + 1) % cap) n)

  -- The code tests a count, the window matches on it.
  pub window_of_ne_zero :
      (d : A) (buf : List A) (cap i n : ℕ)
      → n ≢ 0
      → window d buf cap i n ≡ get_or buf i d ∷ window d buf cap ((i + 1) % cap) (n - 1)
  window_of_ne_zero d buf cap i zero p = absurd (p refl)
  window_of_ne_zero d buf cap i (suc n) p = ap (λ (k : ℕ). window d buf cap i (suc k)) (omega arith)

  pub window_of_zero : (d : A) (buf : List A) (cap i n : ℕ) → n ≡ 0 → window d buf cap i n ≡ []
  window_of_zero d buf cap i zero p = refl
  window_of_zero d buf cap i (suc n) p = absurd (omega arith)

-- Fewer than `cap` steps round the array do not come back to the start.
pub round_ne : {cap i k : ℕ} → i < cap → suc k < cap → (i + suc k) % cap ≢ i
round_ne {cap} {i} {k} hi hk = elim (dec_lt (i + suc k) cap) [
  | yes p ↦ omega (arith, mod-eq_of_lt p)
  | no p ↦ omega (
    arith,
    mod-eq-sub-mod {n = i + suc k} {m = cap} (omega arith),
    mod-eq_of_lt {n = i + suc k - cap} {m = cap} (omega arith),
  )
]

module _ {ℓ} {A : Type ℓ} where
  -- A write just past a window extends it by the element written.
  pub window-set :
      (d : A) (buf : List A) (cap : ℕ) (x : A) (n i j : ℕ)
      → cap ≤ length buf
      → i < cap
      → n < cap
      → j ≡ (i + n) % cap
      → window d (set buf j x) cap i (suc n) ≡ window d buf cap i n ++ (x ∷ [])
  window-set d buf cap x zero i j fits hi hn e =
      rw (e, add-zero, mod-eq_of_lt hi, get_or-set_self buf i x d (omega arith))
  window-set d buf cap x (suc n) i j fits hi hn e =
      ap₂ ◌∷◌ (get_or-set_ne buf j i x d (rw e (round_ne hi hn)))
        (window-set d buf cap x n ((i + 1) % cap) j fits (omega arith) (omega arith) (e ∙ shift))
    where
      shift : (i + suc n) % cap ≡ ((i + 1) % cap + n) % cap
      shift = rw mod-add-mod (ap (λ (k : ℕ). k % cap) (omega arith))

-- The index behind `n` elements moves on by one with the count.
pub advance : (t n cap : ℕ) → ((t + n) % cap + 1) % cap ≡ (t + (n + 1)) % cap
advance t n cap = rw mod-add-mod (ap (λ (k : ℕ). k % cap) (omega arith))

-- Dropping the first element moves the start and keeps the end.
pub advance_start : (t n cap : ℕ) → n ≢ 0 → ((t + 1) % cap + (n - 1)) % cap ≡ (t + n) % cap
advance_start t n cap h = rw mod-add-mod (ap (λ (k : ℕ). k % cap) (omega arith))

-- A whole turn comes back to the start.
pub round_full : (i cap : ℕ) → i < cap → (i + cap) % cap ≡ i
round_full i cap h = rw add-mod_right (mod-eq_of_lt h)

-- The index behind `n` elements is the start's exactly when there are none or `cap` of them.
pub round_eq : (i n cap : ℕ) → i < cap → n ≤ cap → ((i + n) % cap == i) ≡ (n == 0 || n == cap)
round_eq i zero cap hi hn = rw (add-zero, mod-eq_of_lt hi) (ground arith)
round_eq i (suc n) cap hi hn = elim (dec_lt (suc n) cap) [
  | yes p ↦ ground (arith, round_ne {cap = cap} {i = i} {k = n} hi p)
  | no p ↦ let e : suc n ≡ cap = omega arith in rw e (rw (round_full i cap hi) (ground arith))
]
