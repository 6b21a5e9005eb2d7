-- ===== src/Std/Text/Build.antt =====
-- What the constructors of `string` build from a NUL-terminated text.
use native.Mathlib.Decide.{dec_le}
use ionutnechita_redacted_os.Base.{
  ℕ, zero, suc, ◌+◌, ◌-◌, ◌^◌, ◌≤◌, ◌<◌, ◌≡◌, ◌≢◌, refl, ap, some, List, [], ◌∷◌, ◌++◌, arith,
  length, ◌==◌, if◌then◌else◌, u32, store?, ◌∙◌, sym, min, take, drop, length-append, length-take,
  length-drop, take_all,
}
use ionutnechita_redacted_os.Std.Text.{
  StringBuf, Malloc, strlen_loop, strlen, copy_chars, build, string_l, string_tail, string_ca_max,
}

-- A text has no NUL inside.
abbrev pub IsText : List ℕ → Type 0
IsText [] = Unit {0}
IsText (c ∷ cs) = (c ≢ 0) × IsText cs

-- The allocator answers every request with as many bytes as asked for.
abbrev pub Serves : Malloc → Type 0
Serves malloc = (n : ℕ) → (buf : List ℕ) × (malloc n ≡ some buf) × (length buf ≡ n)

strlen_loop_text :
    (cs rest : List ℕ) (n : ℕ) → IsText cs → strlen_loop (cs ++ 0 ∷ rest) 0 n ≡ some (n + length cs)
unfolding strlen_loop
strlen_loop_text [] rest n t = ap some (omega arith)
strlen_loop_text (c ∷ cs) rest n t = ground (arith, strlen_loop_text cs rest (n + 1))

strlen_loop_bounded :
    (cs rest : List ℕ) (m n : ℕ)
    → IsText cs
    → n ≤ m
    → 0 < m
    → strlen_loop (cs ++ 0 ∷ rest) m n ≡ some (min m (n + length cs))
unfolding strlen_loop
strlen_loop_bounded [] rest m n t h pos = ground arith
strlen_loop_bounded (c ∷ cs) rest m n t h pos =
    ground (arith, strlen_loop_bounded cs rest m (n + 1))

-- On a text followed by NUL, `strlen` is its length, cut at `max_length` unless that is 0.
pub strlen-length :
    (cs rest : List ℕ) (max_length : ℕ)
    → IsText cs
    → strlen (some (cs ++ 0 ∷ rest)) max_length
      ≡ some (if max_length == 0 then length cs else min max_length (length cs))
unfolding strlen
strlen-length cs rest zero t = strlen_loop_text cs rest 0 t ∙ ap some (omega arith)
strlen-length cs rest (suc m) t =
    strlen_loop_bounded cs rest (suc m) 0 t (omega arith) (omega arith) ∙ ground arith

pub copy_chars-take :
    (n : ℕ) (src buf : List ℕ)
    → n ≤ length src
    → n ≤ length buf
    → copy_chars n src buf ≡ some (take n src ++ drop n buf)
unfolding copy_chars
copy_chars-take zero src buf h k = refl
copy_chars-take (suc n) [] buf h k = absurd (omega arith)
copy_chars-take (suc n) (c ∷ src) [] h k = absurd (omega arith)
copy_chars-take (suc n) (c ∷ src) (b ∷ buf) h k =
    rw (copy_chars-take n src buf (omega arith) (omega arith))

-- One slot is left behind the first `n`, and the NUL goes there.
store_last :
    (n : ℕ) (xs buf : List ℕ)
    → length xs ≡ n
    → length buf ≡ suc n
    → store? (xs ++ drop n buf) n 0 ≡ some (xs ++ 0 ∷ [])
store_last zero [] [] e f = absurd (omega arith)
store_last zero [] (b ∷ []) e f = refl
store_last zero [] (b ∷ c ∷ buf) e f = absurd (omega arith)
store_last zero (x ∷ xs) buf e f = absurd (omega arith)
store_last (suc n) [] buf e f = absurd (omega arith)
store_last (suc n) (x ∷ xs) [] e f = absurd (omega arith)
store_last (suc n) (x ∷ xs) (b ∷ buf) e f = rw (store_last n xs buf (omega arith) (omega arith))

abbrev pub terminated : List ℕ → StringBuf
terminated cs = record {
  bytes = some (cs ++ 0 ∷ []);
  length = length cs;
  mem_length = length cs + 1;
}

build-terminated :
    (malloc : Malloc) (src : List ℕ) (n : ℕ)
    → Serves malloc
    → n ≤ length src
    → n + 1 < 2 ^ 32
    → build malloc src n ≡ some (terminated (take n src))
unfolding build
build-terminated malloc src n serves h small =
    let (buf, got, size) = serves (u32 (n + 1)) in
    ground (arith, got, copy_chars-take n src buf, length-take n src, store_last n (take n src) buf)

take-append : (cs rest : List ℕ) → take (length cs) (cs ++ rest) ≡ cs
take-append [] rest = refl
take-append (c ∷ cs) rest = ap (λ (l : List ℕ). c ∷ l) (take-append cs rest)

take-append_le : (n : ℕ) (cs rest : List ℕ) → n ≤ length cs → take n (cs ++ rest) ≡ take n cs
take-append_le zero cs rest h = refl
take-append_le (suc n) [] rest h = absurd (omega arith)
take-append_le (suc n) (c ∷ cs) rest h =
    ap (λ (l : List ℕ). c ∷ l) (take-append_le n cs rest (omega arith))

take-min : (n : ℕ) (cs : List ℕ) → take (min n (0 + length cs)) cs ≡ take n cs
take-min n cs = elim (dec_le n (length cs)) [
  | yes p ↦ ap (λ (k : ℕ). take k cs) {x = min n (0 + length cs)} {y = n} (omega arith)
  | no p ↦
      ap (λ (k : ℕ). take k cs) {x = min n (0 + length cs)} {y = length cs} (omega arith)
      ∙ take_all cs
      ∙ sym (take_long n cs (omega arith))
]
  where
    take_long : (n : ℕ) (cs : List ℕ) → length cs ≤ n → take n cs ≡ cs
    take_long zero [] h = refl
    take_long zero (c ∷ cs) h = absurd (omega arith)
    take_long (suc n) [] h = refl
    take_long (suc n) (c ∷ cs) h = ap (λ (l : List ℕ). c ∷ l) (take_long n cs (omega arith))

drop-append_le :
    (n : ℕ) (cs rest : List ℕ) → n ≤ length cs → drop n (cs ++ rest) ≡ drop n cs ++ rest
drop-append_le zero cs rest h = refl
drop-append_le (suc n) [] rest h = absurd (omega arith)
drop-append_le (suc n) (c ∷ cs) rest h = drop-append_le n cs rest (omega arith)

module _ (malloc : Malloc) (cs rest : List ℕ) (serves : Serves malloc) (t : IsText cs)
    (small : length cs + 1 < 2 ^ 32) where
  -- With memory to be had, `string_l` of a text is a copy of it up to and with its NUL.
  pub string_l-terminated : string_l malloc (some (cs ++ 0 ∷ rest)) ≡ some (terminated cs)
  unfolding string_l
  string_l-terminated = ground (
    arith,
    strlen_loop_text cs rest 0 t,
    build-terminated malloc (cs ++ 0 ∷ rest) (length cs) serves,
    length-append cs (0 ∷ rest),
    take-append cs (0 ∷ rest),
  )

  -- With memory to be had, `string_ca_max` copies at most `max_length` bytes of a text (all of it
  -- for 0), and ends the copy with NUL.
  pub string_ca_max-terminated :
      (max_length : ℕ)
      → string_ca_max malloc (some (cs ++ 0 ∷ rest)) max_length
        ≡ some (terminated (if max_length == 0 then cs else take max_length cs))
  unfolding string_ca_max strlen
  string_ca_max-terminated zero = ground (
    arith,
    strlen_loop_text cs rest 0 t,
    build-terminated malloc (cs ++ 0 ∷ rest) (length cs) serves,
    length-append cs (0 ∷ rest),
    take-append cs (0 ∷ rest),
  )
  string_ca_max-terminated (suc m) =
      let n = min (suc m) (0 + length cs) in
      ground (
        arith,
        strlen_loop_bounded cs rest (suc m) 0 t,
        build-terminated malloc (cs ++ 0 ∷ rest) n serves,
        length-append cs (0 ∷ rest),
        take-append_le n cs (0 ∷ rest),
        take-min (suc m) cs,
      )

  -- With memory to be had, `string_tail` is a copy of the last `max_length` bytes of a text, or of
  -- all of it if it is shorter.
  pub string_tail-terminated :
      (max_length : ℕ)
      → string_tail malloc (some (cs ++ 0 ∷ rest)) max_length
        ≡ some (terminated (drop (length cs - max_length) cs))
  unfolding string_tail
  string_tail-terminated max_length = ground (
    arith,
    strlen_loop_text cs rest 0 t,
    drop-append_le (length cs - max_length) cs (0 ∷ rest),
    length-drop (length cs - max_length) cs,
    length-append (drop (length cs - max_length) cs) (0 ∷ rest),
    take-append (drop (length cs - max_length) cs) (0 ∷ rest),
    build-terminated malloc (drop (length cs - max_length) cs ++ 0 ∷ rest)
        (length cs - (length cs - max_length)) serves,
  )
