-- ===== src/Memory/TempHeap/Tests.antt =====
-- `talloc` and `temp_free` of kernel/memory/kalloc.c on a heap with one region in use.
use ionutnechita_redacted_os.Base.{ℕ, ◌+◌, ◌^◌, ◌<◌, ◌≡◌, refl, [], ◌∷◌, arith, ◌⊎◌}
use ionutnechita_redacted_os.Memory.Region.{region}
use ionutnechita_redacted_os.Memory.TempHeap.{
  TempHeap, returned, panicked, round_to_page, talloc, temp_free,
}
use ionutnechita_redacted_os.Memory.TempHeap.Layout.{
  IsLaidOut, Handed, Freed, talloc-Handed, temp_free-IsLaidOut,
}

-- A block freed at 4096, and a region in use at 8192.
abbrev heap : TempHeap
heap = record {
  next_free_temp_memory = 12288;
  temp_free_list = region 4096 4096 ∷ [];
  mem = λ a. 0;
}

rounded : round_to_page 100 ≡ 4096
unfolding round_to_page
rounded = refl

heap-IsLaidOut : IsLaidOut (2 ^ 20) (region 8192 (round_to_page 100) ∷ []) heap
heap-IsLaidOut = ground (arith, rounded)

talloc-Handed_example :
    ((talloc (2 ^ 20) 100 heap ≡ panicked) × (2 ^ 20 < 12288 + round_to_page 100))
    ⊎ ((p : ℕ) × (h' : TempHeap) × (talloc (2 ^ 20) 100 heap ≡ returned (p, h'))
        × Handed (2 ^ 20) 100 (region 8192 (round_to_page 100) ∷ []) heap p h')
talloc-Handed_example =
    talloc-Handed (2 ^ 20) 100 (region 8192 (round_to_page 100) ∷ []) heap heap-IsLaidOut
      (omega arith)

temp_free-IsLaidOut_example :
    IsLaidOut (2 ^ 20) [] (temp_free 8192 100 heap)
    × ((temp_free 8192 100 heap).temp_free_list
        ≡ region 8192 (round_to_page 100) ∷ region 4096 4096 ∷ [])
    × Freed 8192 (round_to_page 100) 4096 heap.mem (temp_free 8192 100 heap).mem
temp_free-IsLaidOut_example =
    temp_free-IsLaidOut (2 ^ 20) 100 8192 [] heap (omega arith) (omega arith) heap-IsLaidOut
