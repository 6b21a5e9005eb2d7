-- ===== src/Std/Format/Decimal.antt =====
-- The decimal digits of `%i`.
use mathlib.Core.List.{reverse, reverse_aux-eq}
use native.Mathlib.Nat.{pow-suc}
use native.Mathlib.Decide.{ℕ_discrete}
use ionutnechita_redacted_os.Base.{
  ℕ, zero, suc, ◌+◌, ◌-◌, ◌*◌, ◌/◌, ◌%◌, ◌^◌, ◌≤◌, ◌<◌, ◌≡◌, ◌≢◌, refl, ap, some, List, [], ◌∷◌,
  ◌++◌, arith, length, ==_of_ne, ◌∙◌, sym, ap₂, drop, length-append, append_assoc, lt→ltb,
}
use ionutnechita_redacted_os.Std.Format.{digit_loop}
use ionutnechita_redacted_os.Std.Format.{Arg, word, emit, format_int, string_format, format_loop}
use ionutnechita_redacted_os.Std.Hex.Digits.{Shortest, Shortest-cons}
use ionutnechita_redacted_os.Std.Text.{StringBuf, Malloc}
use ionutnechita_redacted_os.Std.Hex.Print.{
  overwrite, overwrite-fits, store_behind, store_drop, written, written-snoc, store_end,
}

-- The number that decimal digits stand for, behind `acc`.
pub decimal_value : ℕ → List ℕ → ℕ
decimal_value acc [] = acc
decimal_value acc (c ∷ cs) = decimal_value (acc * 10 + (c - b'0')) cs

-- Every character is a digit.
abbrev pub AreDigits : List ℕ → Type 0
AreDigits [] = Unit {0}
AreDigits (c ∷ cs) = (b'0' ≤ c) × (c ≤ b'9') × AreDigits cs

decimal_value-snoc :
    (acc : ℕ) (cs : List ℕ) (c : ℕ)
    → decimal_value acc (cs ++ c ∷ []) ≡ decimal_value acc cs * 10 + (c - b'0')
unfolding decimal_value
decimal_value-snoc acc [] c = refl
decimal_value-snoc acc (d ∷ cs) c = decimal_value-snoc (acc * 10 + (d - b'0')) cs c

AreDigits-snoc :
    (cs : List ℕ) (c : ℕ) → AreDigits cs → b'0' ≤ c → c ≤ b'9' → AreDigits (cs ++ c ∷ [])
AreDigits-snoc [] c t h k = (h, k, tt)
AreDigits-snoc (d ∷ cs) c t h k = (t.0, t.1, AreDigits-snoc cs c t.2 h k)

-- The digits in the order of the text.
pub digits_of : ℕ → ℕ → List ℕ
digits_of left v = reverse (digit_loop left v)

digits_of_last : (left v : ℕ) → v / 10 ≡ 0 → digits_of (suc left) v ≡ (b'0' + v % 10) ∷ []
unfolding digits_of digit_loop
digits_of_last left v e = rw e

digits_of_more :
    (left v : ℕ)
    → v / 10 ≢ 0
    → digits_of (suc left) v ≡ digits_of left (v / 10) ++ (b'0' + v % 10) ∷ []
unfolding digits_of digit_loop
digits_of_more left v ne =
    rw (==_of_ne (v / 10) 0 ne) (reverse_aux-eq (digit_loop left (v / 10)) ((b'0' + v % 10) ∷ []))

-- Ten times as much room for each round allowed.
digits_of-value : (left v : ℕ) → v < 10 ^ suc left → decimal_value 0 (digits_of left v) ≡ v
digits_of-value zero v h = unfold digits_of digit_loop decimal_value in omega arith
digits_of-value (suc left) v h = elim (ℕ_discrete (v / 10) 0) [
  | yes e ↦ rw (digits_of_last left v e) (unfold decimal_value in omega arith)
  | no ne ↦
      rw (digits_of_more left v ne, decimal_value-snoc)
        (omega (arith, digits_of-value left (v / 10) (omega (arith, pow-suc 10 (suc left)))))
]

-- At most one character for each round, and all are digits.
digits_of-AreDigits :
    (left v : ℕ) → AreDigits (digits_of left v) × (length (digits_of left v) ≤ suc left)
digits_of-AreDigits zero v =
    unfold digits_of digit_loop in ((omega arith, omega arith, tt), omega arith)
digits_of-AreDigits (suc left) v = elim (ℕ_discrete (v / 10) 0) [
  | yes e ↦ rw (digits_of_last left v e) ((omega arith, omega arith, tt), omega arith)
  | no ne ↦
      let (are, short) = digits_of-AreDigits left (v / 10) in
      let ds = digits_of left (v / 10) in
      rw (digits_of_more left v ne) (
        AreDigits-snoc ds (b'0' + v % 10) are (omega arith) (omega arith),
        omega (arith, length-append ds ((b'0' + v % 10) ∷ [])),
      )
]

-- The digits of a number above 0 begin with no zero.
abbrev StartsAboveZero : List ℕ → Type 0
StartsAboveZero [] = 0 < 0
StartsAboveZero (c ∷ cs) = c ≢ b'0'

StartsAboveZero-snoc : (cs : List ℕ) (c : ℕ) → StartsAboveZero cs → StartsAboveZero (cs ++ c ∷ [])
StartsAboveZero-snoc [] c h = absurd (omega (arith, h))
StartsAboveZero-snoc (d ∷ cs) c h = h

digits_of-StartsAboveZero :
    (left v : ℕ) → v ≢ 0 → v < 10 ^ suc left → StartsAboveZero (digits_of left v)
digits_of-StartsAboveZero zero v ne h = unfold digits_of digit_loop in (λ e. ne (omega (arith, e)))
digits_of-StartsAboveZero (suc left) v ne h = elim (ℕ_discrete (v / 10) 0) [
  | yes e ↦ rw (digits_of_last left v e) (λ z. ne (omega (arith, z)))
  | no more ↦ rw (digits_of_more left v more) (
      StartsAboveZero-snoc (digits_of left (v / 10)) (b'0' + v % 10)
        (digits_of-StartsAboveZero left (v / 10) more (omega (arith, pow-suc 10 (suc left)))))
]

Shortest-of : (cs : List ℕ) → StartsAboveZero cs → Shortest cs
Shortest-of [] h = h
Shortest-of (c ∷ cs) h = Shortest-cons c cs h

digits_of-Shortest : (v : ℕ) → v < 10 ^ 20 → Shortest (digits_of 19 v)
digits_of-Shortest v h = elim (ℕ_discrete v 0) [
  | yes e ↦ rw (digits_of_last 18 v (omega (arith, e))) tt
  | no ne ↦ Shortest-of (digits_of 19 v) (digits_of-StartsAboveZero 19 v ne h)
]

-- A bounded copy that has room for all of `cs` writes all of it.
emit-written :
    (cs pre post : List ℕ)
    → length pre + length cs ≤ 255
    → emit cs (length pre) (pre ++ post) ≡ written pre cs (overwrite cs post)
unfolding emit overwrite
emit-written [] pre post h = ap (λ (n : ℕ). some (n, pre ++ post)) (omega arith)
emit-written (c ∷ cs) pre [] h = rw (lt→ltb (length pre) 255 (omega arith), store_end pre c)
emit-written (c ∷ cs) pre (b ∷ post) h =
    rw (lt→ltb (length pre) 255 (omega arith), store_behind pre post b c)
      (ap₂ (λ (n : ℕ) (l : List ℕ). emit cs n l) (sym (length-append pre (c ∷ [])))
          (sym (append_assoc pre (c ∷ []) post))
        ∙ emit-written cs (pre ++ c ∷ []) post (omega (arith, length-append pre (c ∷ [])))
        ∙ written-snoc pre cs post b c)

-- Without a sign, `%i` writes the digits.
format_int_plain :
    (v : ℕ) (buf : List ℕ)
    → v % 2 ^ 32 < 2 ^ 31
    → 20 ≤ length buf
    → let ds = digits_of 19 v in format_int v 0 buf ≡ some (length ds, ds ++ drop (length ds) buf)
unfolding format_int digits_of
format_int_plain v buf h room =
    let (are, short) = digits_of-AreDigits 19 v in
    rw (lt→ltb (v % 2 ^ 32) (2 ^ 31) h) (
      emit-written (digits_of 19 v) [] buf (omega arith)
      ∙ rw (overwrite-fits (digits_of 19 v) buf (omega arith)) (
          ap (λ (n : ℕ). some (n, digits_of 19 v ++ drop (length (digits_of 19 v)) buf))
            (omega arith)))

-- What `%i` alone makes of `v`, in a buffer of 256 bytes.
pub record IntText (sign : List ℕ) (v : ℕ) (s : StringBuf) : Type 0 where
  pub digits : List ℕ
  pub rest : List ℕ
  pub shape : s.bytes ≡ some (sign ++ digits ++ 0 ∷ rest)
  pub count : s.length ≡ length sign + length digits
  pub are_digits : AreDigits digits
  pub shortest : Shortest digits
  pub value : decimal_value 0 digits ≡ v

abbrev pub int_format : List ℕ → List ℕ
int_format fmt = b'%' ∷ b'i' ∷ 0 ∷ fmt

format_loop_end :
    (malloc : Malloc) (fmt : List ℕ) (args : List Arg) (len : ℕ) (buf : List ℕ)
    → format_loop malloc (0 ∷ fmt) args len buf ≡ some (args, len, buf)
unfolding format_loop
format_loop_end malloc [] args len buf = refl
format_loop_end malloc (c ∷ fmt) args len buf = refl

-- `string_format("%i", v)`, for a word `v` whose lower half is not negative as an `int`, is the
-- decimal text of `v`: its digits, without a zero in front but for `v` = 0, which is one zero.
pub string_format-int :
    (malloc : Malloc) (v : ℕ) (args : List Arg) (buf fmt : List ℕ)
    → malloc 256 ≡ some buf
    → length buf ≡ 256
    → v < 2 ^ 64
    → v % 2 ^ 32 < 2 ^ 31
    → (s : StringBuf) × (string_format malloc (some (int_format fmt)) (word v ∷ args) ≡ some s)
      × IntText [] v s
unfolding string_format
string_format-int malloc v args buf fmt got size h sign =
    let ds = digits_of 19 v in
    let (are, short) = digits_of-AreDigits 19 v in
    (
      record {
        bytes = some (ds ++ 0 ∷ drop (suc (length ds)) buf);
        length = length ds;
        mem_length = 256;
      },
      rw (
        got,
        format_int_plain v buf sign (omega arith),
        format_loop_end,
        store_drop ds buf (omega arith),
      ),
      record {
        digits = ds;
        rest = drop (suc (length ds)) buf;
        shape = refl;
        count = omega arith;
        are_digits = are;
        shortest = digits_of-Shortest v (omega arith);
        value = digits_of-value 19 v (omega arith);
      },
    )
