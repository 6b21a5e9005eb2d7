-- ===== src/Std/Format/Tests.antt =====
-- `string_format` of shared/std/string.c at a concrete number.
use ionutnechita_redacted_os.Base.{◌≡◌, refl, some, [], ◌∷◌, arith, replicate}
use ionutnechita_redacted_os.Std.Text.{StringBuf, Malloc}
use ionutnechita_redacted_os.Std.Format.{word, string_format}
use ionutnechita_redacted_os.Std.Format.Decimal.{IntText, int_format, string_format-int}

abbrev malloc : Malloc
malloc n = some (replicate n 0)

string_format-int_example :
    (s : StringBuf) × (string_format malloc (some (int_format [])) (word 1984 ∷ []) ≡ some s)
    × IntText [] 1984 s
string_format-int_example =
    string_format-int malloc 1984 [] (replicate 256 0) [] refl refl (omega arith) (omega arith)
