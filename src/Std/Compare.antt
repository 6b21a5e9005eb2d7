-- ===== src/Std/Compare.antt =====
-- shared/std/string.c: comparison and search of NUL-terminated texts. `char` is unsigned on the
-- target, so a cast to `unsigned char` changes nothing. Texts are shorter than 2 ^ 31 bytes, as far
-- as an `int` counts.
pub mod Equal
pub mod Search
pub mod Suffix
mod Tests
use ionutnechita_redacted_os.Base.{
  ℕ, zero, suc, ◌+◌, ◌-◌, ◌*◌, ◌/◌, ◌%◌, ◌^◌, ◌≤◌, ◌<◌, ◌≡◌, ◌≢◌, refl, ap, Bool, true, false,
  Option, none, some, List, [], ◌∷◌, ◌++◌, arith, length, length-set, get_or, set,
  get_elem?-eq-get_or, ◌⊎◌, inl, inr, ◌==◌, ltb, leb, if◌then◌else◌, u64, u32, u8, u16, Bool-cases,
  store?, store?-eq-set, get_elem?, ◌>>=◌, ◌∙◌, sym, ap₂, min, max, ◌&&◌, ◌||◌, not, take, drop,
  replicate, length-append, length-replicate, append-nil, append_assoc, ◌>>>◌, bit_or, bit_and,
  bit_xor, ltb→lt, lt→ltb, le→ltb_false,
}
use ionutnechita_redacted_os.Base.Int.{ℤ, pos, negsuc, sub_ℕ}

pub tolower : ℕ → ℕ
tolower c = if leb b'A' c && leb c b'Z' then c + b'a' - b'A' else c

-- A character as the comparisons take it.
unfoldable pub fold_case : Bool → ℕ → ℕ
unfolding tolower
fold_case case_insensitive c = if case_insensitive then tolower c else c

strcmp_loop : Bool → List ℕ → List ℕ → Option ℤ
strcmp_loop ci [] b = none
strcmp_loop ci (x ∷ a) [] = none
strcmp_loop ci (x ∷ a) (y ∷ b) =
    if not (x == 0) && not (y == 0) && fold_case ci x == fold_case ci y
    then strcmp_loop ci a b
    else some (sub_ℕ (fold_case ci x) (fold_case ci y))

-- NULL is below every text, and equal to itself.
unfoldable pub strcmp : Option (List ℕ) → Option (List ℕ) → Bool → Option ℤ
unfolding strcmp_loop
strcmp none none ci = some (pos 0)
strcmp none (some b) ci = some (negsuc 0)
strcmp (some a) none ci = some (pos 1)
strcmp (some a) (some b) ci = strcmp_loop ci a b

-- `string_equals` of the texts that two strings hold.
pub string_equals : Option (List ℕ) → Option (List ℕ) → Option Bool
string_equals a b = strcmp a b false >>= λ r. some (elim r [ pos n ↦ n == 0 | negsuc n ↦ false ])

strstart_loop : Bool → List ℕ → List ℕ → ℕ → Option ℕ
strstart_loop ci [] b index = none
strstart_loop ci (x ∷ a) [] index = if x == 0 then some index else none
strstart_loop ci (x ∷ a) (y ∷ b) index =
    if not (x == 0) && not (y == 0) && fold_case ci x == fold_case ci y
    then strstart_loop ci a b (index + 1)
    else some index

pub strstart : List ℕ → List ℕ → Bool → Option ℕ
unfolding strstart_loop
strstart a b ci = strstart_loop ci a b 0

-- The inner loop of `strindex` and its test `!b[j]`, from `a + i`.
pub matches_at : List ℕ → List ℕ → Option Bool
matches_at a [] = none
matches_at [] (y ∷ b) = if y == 0 then some true else none
matches_at (x ∷ a) (y ∷ b) =
    if y == 0 then some true else if x == y then matches_at a b else some false

pub strindex_loop : List ℕ → List ℕ → ℕ → Option ℤ
strindex_loop [] b i = none
strindex_loop (x ∷ a) b i =
    if x == 0
    then some (negsuc 0)
    else (matches_at (x ∷ a) b >>= λ found.
        if found then some (pos i) else strindex_loop a b (i + 1))

pub strindex : List ℕ → List ℕ → Option ℤ
unfolding strindex_loop matches_at
strindex a b = strindex_loop a b 0

-- The inner loop of `strend`: whether it returns.
pub runs_out : Bool → List ℕ → List ℕ → Option Bool
runs_out ci [] pb = none
runs_out ci (x ∷ pa) [] = none
runs_out ci (x ∷ pa) (y ∷ pb) =
    if fold_case ci x == 0
    then some true
    else if fold_case ci x == fold_case ci y
    then runs_out ci pa pb
    else some false

strend_loop : Bool → List ℕ → List ℕ → ℕ → Option ℕ
strend_loop ci [] b first = none
strend_loop ci (x ∷ a) b first =
    if x == 0 || first == 0
    then some 1
    else if fold_case ci x == fold_case ci first
    then (runs_out ci (x ∷ a) b >>= λ done. if done then some 0 else strend_loop ci a b first)
    else strend_loop ci a b first

-- `strend` is 0 where it finds what it looks for, and 1 otherwise. `*b` is read at each round,
-- and is always the first byte of `b`.
pub strend : List ℕ → List ℕ → Bool → Option ℕ
unfolding strend_loop
strend [] b ci = none
strend (x ∷ a) [] ci = if x == 0 then some 1 else none
strend (x ∷ a) (y ∷ b) ci = strend_loop ci (x ∷ a) (y ∷ b) y

-- The inner loop of `strcont` and its test `*q == 0`.
pub contains_at : List ℕ → List ℕ → Option Bool
contains_at [] q = none
contains_at (x ∷ p) [] = none
contains_at (x ∷ p) (y ∷ q) =
    if not (x == 0) && not (y == 0) && x == y then contains_at p q else some (y == 0)

pub strcont : List ℕ → List ℕ → Option Bool
unfolding contains_at
strcont [] b = none
strcont (x ∷ a) b =
    if x == 0
    then some false
    else (contains_at (x ∷ a) b >>= λ found. if found then some true else strcont a b)

-- The loop of `utf16tochar`, with `max_len - i` rounds left; it writes `out_str` from `i` on.
utf16_loop : ℕ → List ℕ → List ℕ → Option (List ℕ)
utf16_loop zero str_in out_str = store? out_str 0 0
utf16_loop (suc left) [] out_str = none
utf16_loop (suc left) (wc ∷ str_in) [] = none
utf16_loop (suc left) (wc ∷ str_in) (o ∷ out_str) =
    if wc == 0
    then some (0 ∷ out_str)
    else (utf16_loop left str_in out_str >>= λ out'.
        some ((if leb wc 0x7f then wc % 2 ^ 8 else b'?') ∷ out'))

pub utf16tochar : List ℕ → List ℕ → ℕ → Option (List ℕ)
unfolding utf16_loop
utf16tochar str_in out_str max_len = utf16_loop max_len str_in out_str
