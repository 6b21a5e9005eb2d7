-- ===== src/Std/Mem/Fill.antt =====
-- What `memset` writes.
use ionutnechita_redacted_os.Base.{
  ℕ, zero, suc, ◌+◌, ◌*◌, ◌/◌, ◌%◌, ◌^◌, ◌≤◌, ◌<◌, ◌≡◌, refl, ap, some, List, [], ◌∷◌, ◌++◌, arith,
  length, ◌∙◌, ap₂, drop, replicate, length-append, length-replicate, bit_or,
}
use ionutnechita_redacted_os.Std.Mem.{bytes_of, put, fill_words, fill_blocks, memset_bytes, memset}

pub put-append :
    (bs buf : List ℕ) → length bs ≤ length buf → put bs buf ≡ some (bs ++ drop (length bs) buf)
put-append [] buf h = refl
put-append (b ∷ bs) [] h = absurd (omega arith)
put-append (b ∷ bs) (c ∷ buf) h = rw (put-append bs buf (omega arith))

length-fill_words : (n w : ℕ) → length (fill_words n w) ≡ 8 * n
unfolding fill_words
length-fill_words zero w = omega arith
length-fill_words (suc n) w = omega (arith, length-fill_words n w)

length-fill_blocks : (n w : ℕ) → length (fill_blocks n w) ≡ 32 * n
unfolding fill_blocks
length-fill_blocks zero w = omega arith
length-fill_blocks (suc n) w = omega (
  arith,
  length-append (fill_words 4 w) (fill_blocks n w),
  length-fill_words 4 w,
  length-fill_blocks n w,
)

-- `memset` writes exactly `count` bytes.
pub length-memset_bytes : (val count : ℕ) → length (memset_bytes val count) ≡ count
unfolding memset_bytes
length-memset_bytes val count =
    let p = bit_or (val * 2 ^ 32) val in
    let tail = replicate (count % 8) (val % 2 ^ 8) in
    omega (
      arith,
      length-append (fill_blocks (count / 32) p) (fill_words (count % 32 / 8) p ++ tail),
      length-append (fill_words (count % 32 / 8) p) tail,
      length-fill_words (count % 32 / 8) p,
      length-fill_blocks (count / 32) p,
      length-replicate (count % 8) (val % 2 ^ 8),
    )

-- Zeros all through.
abbrev AreZero : List ℕ → Type 0
AreZero [] = Unit {0}
AreZero (b ∷ bs) = (b ≡ 0) × AreZero bs

AreZero-append : (xs ys : List ℕ) → AreZero xs → AreZero ys → AreZero (xs ++ ys)
AreZero-append [] ys p q = q
AreZero-append (x ∷ xs) ys p q = (p.0, AreZero-append xs ys p.1 q)

AreZero-replicate : (n : ℕ) → AreZero (replicate n 0)
AreZero-replicate zero = tt
AreZero-replicate (suc n) = (refl, AreZero-replicate n)

eq_of_AreZero : (xs : List ℕ) → AreZero xs → xs ≡ replicate (length xs) 0
eq_of_AreZero [] h = refl
eq_of_AreZero (x ∷ xs) h = ap₂ ◌∷◌ h.0 (eq_of_AreZero xs h.1)

fill_words-AreZero : (n : ℕ) → AreZero (fill_words n 0)
unfolding fill_words
fill_words-AreZero zero = tt
fill_words-AreZero (suc n) =
    AreZero-append (bytes_of 8 0) (fill_words n 0) (AreZero-replicate 8) (fill_words-AreZero n)

fill_blocks-AreZero : (n : ℕ) → AreZero (fill_blocks n 0)
unfolding fill_blocks
fill_blocks-AreZero zero = tt
fill_blocks-AreZero (suc n) =
    AreZero-append (fill_words 4 0) (fill_blocks n 0) (fill_words-AreZero 4) (fill_blocks-AreZero n)

-- `memset` to 0 clears exactly the first `count` bytes and leaves the rest.
pub memset-zero :
    (dest : List ℕ) (count : ℕ)
    → count ≤ length dest
    → memset dest 0 count ≡ some (replicate count 0 ++ drop count dest)
unfolding memset memset_bytes
memset-zero dest count h =
    put-append (memset_bytes 0 count) dest (omega (arith, length-memset_bytes 0 count))
    ∙ rw (length-memset_bytes 0 count) (
        ap (λ (l : List ℕ). some (l ++ drop count dest))
          (zeros ∙ ap (λ (n : ℕ). replicate n 0) (length-memset_bytes 0 count)))
  where
    zeros : memset_bytes 0 count ≡ replicate (length (memset_bytes 0 count)) 0
    zeros = eq_of_AreZero (memset_bytes 0 count) (
        AreZero-append (fill_blocks (count / 32) 0)
          (fill_words (count % 32 / 8) 0 ++ replicate (count % 8) 0)
          (fill_blocks-AreZero (count / 32))
          (AreZero-append (fill_words (count % 32 / 8) 0) (replicate (count % 8) 0)
            (fill_words-AreZero (count % 32 / 8)) (AreZero-replicate (count % 8))))

word_first :
    (n m w : ℕ) (tail : List ℕ)
    → 0 < n + m
    → (rest : List ℕ) × (fill_blocks n w ++ (fill_words m w ++ tail) ≡ bytes_of 8 w ++ rest)
unfolding fill_blocks fill_words
word_first zero zero w tail h = absurd (omega arith)
word_first zero (suc m) w tail h = (fill_words m w ++ tail, refl)
word_first (suc n) m w tail h =
    ((fill_words 3 w ++ fill_blocks n w) ++ (fill_words m w ++ tail), refl)

-- From eight bytes on, the bytes start with one whole word of the pattern.
pub memset_bytes_word :
    (val count : ℕ)
    → 8 ≤ count
    → (rest : List ℕ) × (memset_bytes val count ≡ bytes_of 8 (bit_or (val * 2 ^ 32) val) ++ rest)
unfolding memset_bytes
memset_bytes_word val count h =
    word_first (count / 32) (count % 32 / 8) (bit_or (val * 2 ^ 32) val)
      (replicate (count % 8) (val % 2 ^ 8)) (omega arith)

-- `memset` replaces the first `count` bytes.
pub memset-append :
    (dest : List ℕ) (val count : ℕ)
    → count ≤ length dest
    → memset dest val count ≡ some (memset_bytes val count ++ drop count dest)
unfolding memset
memset-append dest val count h =
    put-append (memset_bytes val count) dest (omega (arith, length-memset_bytes val count))
    ∙ ap (λ (n : ℕ). some (memset_bytes val count ++ drop n dest)) (length-memset_bytes val count)
