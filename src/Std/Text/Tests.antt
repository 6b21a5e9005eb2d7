-- ===== src/Std/Text/Tests.antt =====
-- Strings of shared/std/string.c that are built from concrete texts.
use ionutnechita_redacted_os.Base.{
  ℕ, ◌≡◌, refl, some, List, [], ◌∷◌, ◌++◌, arith, replicate, length-replicate,
}
use ionutnechita_redacted_os.Std.Text.{
  StringBuf, Malloc, strlen, string_l, string_repeat, string_tail, string_ca_max, string_c,
}
use ionutnechita_redacted_os.Std.Text.Build.{
  IsText, Serves, terminated, strlen-length, string_l-terminated, string_ca_max-terminated,
  string_tail-terminated,
}
use ionutnechita_redacted_os.Std.Text.Repeat.{string_repeat-strlen}

abbrev malloc : Malloc
malloc n = some (replicate n 0)

malloc-Serves : Serves malloc
malloc-Serves n = (replicate n 0, refl, length-replicate n 0)

abbrev word : List ℕ
word = b'r' ∷ b'e' ∷ b'd' ∷ []

word-IsText : IsText word
word-IsText = ground arith

strlen-length_test : strlen (some (word ++ 0 ∷ 5 ∷ [])) 2 ≡ some 2
strlen-length_test = strlen-length word (5 ∷ []) 2 word-IsText

string_l-terminated_test : string_l malloc (some (word ++ 0 ∷ [])) ≡ some (terminated word)
string_l-terminated_test =
    string_l-terminated malloc word [] malloc-Serves word-IsText (omega arith)

string_ca_max-terminated_test :
    string_ca_max malloc (some (word ++ 0 ∷ [])) 2 ≡ some (terminated (b'r' ∷ b'e' ∷ []))
string_ca_max-terminated_test =
    string_ca_max-terminated malloc word [] malloc-Serves word-IsText (omega arith) 2

string_tail-terminated_test :
    string_tail malloc (some (word ++ 0 ∷ [])) 2 ≡ some (terminated (b'e' ∷ b'd' ∷ []))
string_tail-terminated_test =
    string_tail-terminated malloc word [] malloc-Serves word-IsText (omega arith) 2

string_repeat-strlen_test :
    (s : StringBuf) × (string_repeat malloc b'-' 20 ≡ some s)
    × (s.length ≡ 20)
    × (strlen s.bytes 0 ≡ some 1)
string_repeat-strlen_test =
    string_repeat-strlen malloc b'-' 20 malloc-Serves (omega arith) (omega arith) (omega arith)
      (omega arith)

string_c_test : string_c malloc b'a' ≡ some (terminated (b'a' ∷ []))
unfolding string_c
string_c_test = refl
