-- ===== src/Memory/Mmu/Tests.antt =====
-- The tables of kernel/memory/mmu.c, from an empty root at 0 on.
use ionutnechita_redacted_os.Base.{
  ℕ, ◌≡◌, refl, true, Option, none, some, [], ◌∷◌, arith, ◌==◌, if◌then◌else◌,
}
use ionutnechita_redacted_os.Memory.Mmu.{
  Tables, normal, el0, Mapped, mapped, mmu_map_4kb, mmu_map_2mb, mmu_unmap, register_device_memory,
  register_device_memory_2mb, register_proc_memory,
}
use ionutnechita_redacted_os.Memory.Mmu.Tree.{translate, unused, top}
use ionutnechita_redacted_os.Memory.Mmu.Translate.{IsSound, Answer, mmu_map_4kb-Answer}

abbrev empty : Tables
empty = record { entry = λ t i. 0; fresh = 4096 ∷ 8192 ∷ 12288 ∷ [] }

empty-IsSound : IsSound 0 empty
empty-IsSound = record {
  place = λ t. if t == 0 then top else unused;
  tree = record {
    at_root = refl;
    at_l0 = λ i h. absurd (omega arith);
    at_l1 = λ t i j p h. absurd (omega arith);
    at_l2 = λ t i j k p h. absurd (omega arith);
  };
  fresh = ground arith;
}

mmu_map_4kb-Answer_example :
    (r : Mapped) × (mmu_map_4kb 0 0x12345678 0x40001000 normal el0 empty ≡ some r)
    × Answer 0 0x12345678 0x40001000 empty r
mmu_map_4kb-Answer_example =
    mmu_map_4kb-Answer 0 0x12345678 0x40001000 normal el0 empty empty-IsSound (omega arith)

abbrev after : Option Mapped → ℕ → Option ℕ
after (some (mapped s)) va = translate 0 va s
after _ va = none

abbrev unmapped : Option Mapped → ℕ → Option ℕ
unmapped (some (mapped s)) va = translate 0 va (mmu_unmap 0 va s)
unmapped _ va = some 0

abbrev block_at : Option Tables → ℕ → Option ℕ
block_at none va = none
block_at (some s) va = translate 0 va s

translations_test :
    (after (register_proc_memory 0 0x12345678 0x40001000 true empty) 0x12345678 ≡ some 0x40001678)
    × (unmapped (register_device_memory 0 0x12345678 0x40001000 empty) 0x12345678 ≡ none)
    × (block_at (register_device_memory_2mb 0 0x200000 0x40000000 empty) 0x212345 ≡ some 0x40012345)
    × (block_at (mmu_map_2mb 0 0x200000 0x40000000 normal empty) 0x412345 ≡ none)
unfolding register_proc_memory register_device_memory register_device_memory_2mb mmu_map_2mb
    mmu_unmap translate
translations_test = (refl, refl, refl, refl)
