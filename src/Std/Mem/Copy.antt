-- ===== src/Std/Mem/Copy.antt =====
-- What `memcpy` copies, and unaligned words.
use mathlib.Core.Path.{fun_ext}
use ionutnechita_redacted_os.Base.{
  ℕ, zero, suc, ◌+◌, ◌-◌, ◌*◌, ◌/◌, ◌%◌, ◌^◌, ◌≤◌, ◌<◌, ◌≡◌, refl, ap, Option, some, List, [], ◌∷◌,
  ◌++◌, arith, length, inl, inr, Option-cases, length-drop, length-take, ◌>>=◌, ◌∙◌, ap₂, take,
  drop, append-nil, append_assoc, ◌>>>◌, bit_or, bit_and,
}
use ionutnechita_redacted_os.Base.Bits.{bit_or_join, bit_or_comm, bit_and_low}
use ionutnechita_redacted_os.Std.Mem.Fill.{put-append}
use ionutnechita_redacted_os.Std.Mem.{
  bytes_of, word_of, load_word, copy_words, copy_blocks, copy_bytes, memcpy_bytes, memcpy,
  read_unaligned32, write_unaligned32,
}

abbrev pub AreBytes : List ℕ → Type 0
AreBytes [] = Unit {0}
AreBytes (b ∷ bs) = (b < 2 ^ 8) × AreBytes bs

abbrev eight : ℕ → ℕ
eight zero = 0
eight (suc n) = suc (suc (suc (suc (suc (suc (suc (suc (eight n))))))))

eight-mul : (n : ℕ) → eight n ≡ 8 * n
eight-mul zero = omega arith
eight-mul (suc n) = omega (arith, eight-mul n)

-- A word stored is the bytes that were loaded.
bytes_of-word_of : (bs : List ℕ) → AreBytes bs → bytes_of (length bs) (word_of bs) ≡ bs
bytes_of-word_of [] p = refl
bytes_of-word_of (b ∷ bs) p =
    ap₂ ◌∷◌ {x = (b + 2 ^ 8 * word_of bs) % 2 ^ 8} {y = b} (omega (arith, p.0)) (
      ap (bytes_of (length bs)) {x = (b + 2 ^ 8 * word_of bs) / 2 ^ 8} {y = word_of bs}
        (omega (arith, p.0))
      ∙ bytes_of-word_of bs p.1)

AreBytes-drop : (n : ℕ) (xs : List ℕ) → AreBytes xs → AreBytes (drop n xs)
AreBytes-drop zero xs p = p
AreBytes-drop (suc n) [] p = p
AreBytes-drop (suc n) (x ∷ xs) p = AreBytes-drop n xs p.1

-- A whole word is copied as it is.
copy_words-suc :
    (n a b c d e f g h : ℕ) (src out : List ℕ)
    → AreBytes (a ∷ b ∷ c ∷ d ∷ e ∷ f ∷ g ∷ h ∷ [])
    → copy_words (suc n) (a ∷ b ∷ c ∷ d ∷ e ∷ f ∷ g ∷ h ∷ src) out
      ≡ copy_words n src (out ++ (a ∷ b ∷ c ∷ d ∷ e ∷ f ∷ g ∷ h ∷ []))
unfolding copy_words
copy_words-suc n a b c d e f g h src out p =
    ap (λ (l : List ℕ). copy_words n src (out ++ l))
      (bytes_of-word_of (a ∷ b ∷ c ∷ d ∷ e ∷ f ∷ g ∷ h ∷ []) p)

copy_words-take :
    (n : ℕ) (src out : List ℕ)
    → AreBytes src
    → eight n ≤ length src
    → copy_words n src out ≡ some (drop (eight n) src, out ++ take (eight n) src)
copy_words-take zero src out p h = unfold copy_words in rw append-nil
copy_words-take (suc n) (a ∷ b ∷ c ∷ d ∷ e ∷ f ∷ g ∷ h ∷ src) out
      (pa, (pb, (pc, (pd, (pe, (pf, (pg, (ph, p)))))))) k =
    copy_words-suc n a b c d e f g h src out (pa, (pb, (pc, (pd, (pe, (pf, (pg, (ph, tt))))))))
    ∙ copy_words-take n src (out ++ (a ∷ b ∷ c ∷ d ∷ e ∷ f ∷ g ∷ h ∷ [])) p (omega arith)
    ∙ rw append_assoc
copy_words-take (suc n) _ out p k = absurd (omega arith)

copy_bytes-take :
    (n : ℕ) (src out : List ℕ)
    → n ≤ length src
    → copy_bytes n src out ≡ some (drop n src, out ++ take n src)
unfolding copy_bytes
copy_bytes-take zero src out h = rw append-nil
copy_bytes-take (suc n) [] out h = absurd (omega arith)
copy_bytes-take (suc n) (b ∷ src) out h =
    copy_bytes-take n src (out ++ b ∷ []) (omega arith) ∙ rw append_assoc

abbrev four : ℕ → ℕ
four zero = 0
four (suc n) = suc (suc (suc (suc (four n))))

four-mul : (n : ℕ) → four n ≡ 4 * n
four-mul zero = omega arith
four-mul (suc n) = omega (arith, four-mul n)

abbrev plus : ℕ → ℕ → ℕ
plus zero m = m
plus (suc n) m = suc (plus n m)

copy_words-plus :
    (n m : ℕ) (src out : List ℕ)
    → (copy_words n src out >>= λ (src', out'). copy_words m src' out')
      ≡ copy_words (plus n m) src out
unfolding copy_words
copy_words-plus zero m src out = refl
copy_words-plus (suc n) m src out = elim (Option-cases (load_word src)) [
  | inl e ↦ rw e
  | inr ((w, src'), e) ↦ rw e (copy_words-plus n m src' (out ++ bytes_of 8 w))
]

-- The blocks are four words each.
copy_blocks-words : (n : ℕ) (src out : List ℕ) → copy_blocks n src out ≡ copy_words (four n) src out
unfolding copy_blocks
copy_blocks-words zero src out = unfold copy_words in refl
copy_blocks-words (suc n) src out =
    ap (λ (k : List ℕ × List ℕ → Option (List ℕ × List ℕ)). copy_words 4 src out >>= k)
      (fun_ext λ (src', out'). copy_blocks-words n src' out')
    ∙ copy_words-plus 4 (four n) src out

take-nil : (m : ℕ) → take {A = ℕ} m [] ≡ []
take-nil zero = refl
take-nil (suc m) = refl

take-take : (n m : ℕ) (xs : List ℕ) → take n xs ++ take m (drop n xs) ≡ take (plus n m) xs
take-take zero m xs = refl
take-take (suc n) m [] = take-nil m
take-take (suc n) m (x ∷ xs) = ap (λ (l : List ℕ). x ∷ l) (take-take n m xs)

plus-add : (n m : ℕ) → plus n m ≡ n + m
plus-add zero m = omega arith
plus-add (suc n) m = omega (arith, plus-add n m)

drop-plus : (n m : ℕ) (xs : List ℕ) → drop m (drop n xs) ≡ drop (plus n m) xs
drop-plus zero m xs = refl
drop-plus (suc n) zero [] = refl
drop-plus (suc n) (suc m) [] = refl
drop-plus (suc n) m (x ∷ xs) = drop-plus n m xs

memcpy_bytes-take :
    (src : List ℕ) (count : ℕ)
    → AreBytes src
    → count ≤ length src
    → memcpy_bytes src count ≡ some (take count src)
unfolding memcpy_bytes
memcpy_bytes-take src count p h =
    let n₁ : ℕ = eight (four (count / 32)) in
    let n₂ : ℕ = eight (count % 32 / 8) in
    let src₁ = drop n₁ src in
    let src₂ = drop n₂ src₁ in
    let e₁ : n₁ ≡ count / 32 * 32 =
      omega (arith, eight-mul (four (count / 32)), four-mul (count / 32)) in
    let e₂ : n₂ ≡ count % 32 / 8 * 8 = omega (arith, eight-mul (count % 32 / 8)) in
    let l₁ : length src₁ ≡ length src - n₁ = length-drop n₁ src in
    let l₂ : length src₂ ≡ length src₁ - n₂ = length-drop n₂ src₁ in
    let r₂ : n₂ ≤ length src₁ = omega arith in
    let r₃ : count % 8 ≤ length src₂ = omega arith in
    let all : plus (plus n₁ n₂) (count % 8) ≡ count =
      omega (arith, plus-add (plus n₁ n₂) (count % 8), plus-add n₁ n₂) in
    rw
      (
        copy_blocks-words,
        copy_words-take (four (count / 32)) src [] p
            (omega (arith, eight-mul (four (count / 32)), four-mul (count / 32))),
        copy_words-take (count % 32 / 8) src₁ (take n₁ src) (AreBytes-drop n₁ src p) r₂,
        copy_bytes-take (count % 8) src₂ (take n₁ src ++ take n₂ src₁) r₃,
      )
      (rw (take-take n₁ n₂ src) (
        ap (λ (l : List ℕ). some (take (plus n₁ n₂) src ++ take (count % 8) l))
          (drop-plus n₁ n₂ src)
        ∙ ap (λ (l : List ℕ). some l) (take-take (plus n₁ n₂) (count % 8) src)
        ∙ ap (λ (n : ℕ). some (take n src)) all))

-- `memcpy` between buffers that are apart, both of `count` bytes or more, replaces the first
-- `count` bytes of the destination by those of the source, and no other.
pub memcpy-take :
    (dest src : List ℕ) (count : ℕ)
    → AreBytes src
    → count ≤ length src
    → count ≤ length dest
    → memcpy dest src count ≡ some (take count src ++ drop count dest)
unfolding memcpy
memcpy-take dest src count p h k = rw (memcpy_bytes-take src count p h) (
    put-append (take count src) dest (omega (arith, length-take count src))
    ∙ ap (λ (n : ℕ). some (take count src ++ drop n dest)) (length-take count src ∙ omega arith))

-- Joining a field above `k` bits.
join_above : (k low high : ℕ) → low < 2 ^ k → bit_or low (high * 2 ^ k) ≡ high * 2 ^ k + low
join_above k low high h = bit_or_comm low (high * 2 ^ k) ∙ bit_or_join k high low h

low_octet : (v : ℕ) → bit_and v 0xff % 2 ^ 8 ≡ v % 2 ^ 8
low_octet v = omega (arith, bit_and_low 8 v)

join_octets :
    (a b c d : ℕ)
    → a < 2 ^ 8
    → b < 2 ^ 8
    → c < 2 ^ 8
    → bit_or (bit_or (bit_or a (b * 2 ^ 8)) (c * 2 ^ 16)) (d * 2 ^ 24)
      ≡ a + b * 2 ^ 8 + c * 2 ^ 16 + d * 2 ^ 24
join_octets a b c d ha hb hc =
    rw
      (
        join_above 8 a b ha,
        join_above 16 (b * 2 ^ 8 + a) c (omega arith),
        join_above 24 (c * 2 ^ 16 + (b * 2 ^ 8 + a)) d (omega arith),
      )
      (omega arith)

-- A 32-bit word stored at any address is read back, and the bytes behind it stay.
pub read_unaligned32-write_unaligned32 :
    (p : List ℕ) (value : ℕ)
    → 4 ≤ length p
    → value < 2 ^ 32
    → (p' : List ℕ) × (write_unaligned32 p value ≡ some p')
      × (read_unaligned32 p' ≡ some value)
      × (drop 4 p' ≡ drop 4 p)
unfolding write_unaligned32 read_unaligned32
read_unaligned32-write_unaligned32 (a ∷ b ∷ c ∷ d ∷ p) value h small = (
  (bit_and value 0xff % 2 ^ 8)
      ∷ (bit_and (value >>> 8) 0xff % 2 ^ 8)
      ∷ (bit_and (value >>> 16) 0xff % 2 ^ 8)
      ∷ (bit_and (value >>> 24) 0xff % 2 ^ 8)
      ∷ p,
  refl,
  ap (λ (n : ℕ). some n)
      (join_octets (bit_and value 0xff % 2 ^ 8) (bit_and (value >>> 8) 0xff % 2 ^ 8)
          (bit_and (value >>> 16) 0xff % 2 ^ 8) (bit_and (value >>> 24) 0xff % 2 ^ 8) (omega arith)
          (omega arith) (omega arith)
        ∙ omega (
          arith,
          low_octet value,
          low_octet (value >>> 8),
          low_octet (value >>> 16),
          low_octet (value >>> 24),
        )),
  refl,
)
read_unaligned32-write_unaligned32 _ value h small = absurd (omega arith)
