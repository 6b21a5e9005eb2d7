-- ===== src/Std/Hex/Tests.antt =====
-- Numbers in text, shared/std/string.c, at concrete numbers.
use ionutnechita_redacted_os.Base.{◌^◌, ◌≡◌, refl, none, some, arith, replicate}
use ionutnechita_redacted_os.Std.Text.{Malloc}
use ionutnechita_redacted_os.Std.Hex.{string_from_hex, parse_bin, string_from_bin}
use ionutnechita_redacted_os.Std.Hex.Print.{string_from_hex_overflows}

abbrev malloc : Malloc
malloc n = some (replicate n 0)

string_from_hex_overflows_test : string_from_hex malloc (2 ^ 63) ≡ none
string_from_hex_overflows_test =
    string_from_hex_overflows malloc (2 ^ 63) (replicate 18 0) refl refl (omega arith) (omega arith)

-- The same overflow in binary.
string_from_bin_test : string_from_bin malloc (2 ^ 63) ≡ none
unfolding string_from_bin parse_bin
string_from_bin_test = refl
