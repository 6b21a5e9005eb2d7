-- ===== src/Std/Mem/Tests.antt =====
-- shared/std/memfunctions.c and kernel/memory/memory_access.c at concrete bytes.
use ionutnechita_redacted_os.Base.{ℕ, ◌≡◌, refl, some, List, [], ◌∷◌, arith, drop}
use ionutnechita_redacted_os.Base.Int.{pos}
use ionutnechita_redacted_os.Std.Mem.{
  memcmp, memset, memcpy, read_unaligned16, read_unaligned32, read_unaligned64, write_unaligned32,
}
use ionutnechita_redacted_os.Std.Mem.Fill.{memset-zero}
use ionutnechita_redacted_os.Std.Mem.Copy.{memcpy-take, read_unaligned32-write_unaligned32}

abbrev bytes : List ℕ
bytes = 1 ∷ 2 ∷ 3 ∷ 4 ∷ 5 ∷ 6 ∷ []

memset-zero_test : memset bytes 0 5 ≡ some (0 ∷ 0 ∷ 0 ∷ 0 ∷ 0 ∷ 6 ∷ [])
memset-zero_test = memset-zero bytes 5 (omega arith)

memcpy-take_example : memcpy bytes (9 ∷ 8 ∷ 7 ∷ 6 ∷ 5 ∷ []) 5 ≡ some (9 ∷ 8 ∷ 7 ∷ 6 ∷ 5 ∷ 6 ∷ [])
memcpy-take_example =
    memcpy-take bytes (9 ∷ 8 ∷ 7 ∷ 6 ∷ 5 ∷ []) 5 (ground arith) (omega arith) (omega arith)

read_unaligned32-write_unaligned32_test :
    (p' : List ℕ) × (write_unaligned32 bytes 0xdeadbeef ≡ some p')
    × (read_unaligned32 p' ≡ some 0xdeadbeef)
    × (drop 4 p' ≡ 5 ∷ 6 ∷ [])
read_unaligned32-write_unaligned32_test =
    read_unaligned32-write_unaligned32 bytes 0xdeadbeef (omega arith) (omega arith)

read_unaligned16_test : read_unaligned16 bytes ≡ some 0x201
unfolding read_unaligned16
read_unaligned16_test = refl

loads_test :
    (read_unaligned64 (1 ∷ 2 ∷ 3 ∷ 4 ∷ 5 ∷ 6 ∷ 7 ∷ 8 ∷ []) ≡ some 0x807060504030201)
    × (memcmp bytes (1 ∷ 2 ∷ 3 ∷ 9 ∷ []) 3 ≡ some (pos 0))
unfolding read_unaligned64 memcmp
loads_test = (refl, refl)
