-- ===== src/DataStruct/RingBuffer/Tests.antt =====
-- The ring buffer of shared/data_struct/ring_buffer.c at concrete contents.
use ionutnechita_redacted_os.Base.{ℕ, ◌≡◌, refl, true, false, [], ◌∷◌, arith}
use ionutnechita_redacted_os.DataStruct.Fifo.{enqueue, dequeue}
use ionutnechita_redacted_os.DataStruct.RingBuffer.{
  CRingBuffer, cring_init, cring_capacity, cring_push, cring_pop, cring_is_empty, cring_is_full,
  cring_clear,
}
use ionutnechita_redacted_os.DataStruct.RingBuffer.Refine.{
  Holds, contents, cring_init-Holds, cring_push-enqueue, cring_pop-dequeue,
}

-- Three slots, of which the last and the first are taken.
abbrev wrapped : CRingBuffer ℕ
wrapped = record {
  buffer = 8 ∷ 0 ∷ 7 ∷ [];
  capacity = 3;
  element_size = 8;
  head = 1;
  tail = 2;
  full = false;
}

wrapped-Holds : Holds wrapped 2
wrapped-Holds = ground arith

cring_init-Holds_test : Holds {A = ℕ} (cring_init (5 ∷ 5 ∷ 5 ∷ []) 3 8) 0
cring_init-Holds_test =
    cring_init-Holds (5 ∷ 5 ∷ 5 ∷ []) 3 8 (omega arith) (omega arith) (omega arith)

cring_push-enqueue_example :
    let (done, rb') = cring_push wrapped 9 in
    ((done, contents 0 rb' 3) ≡ enqueue 3 (contents 0 wrapped 2) 9) × Holds rb' 3
cring_push-enqueue_example = cring_push-enqueue 0 wrapped 2 9 wrapped-Holds

cring_pop-dequeue_example :
    let (done, out, rb') = cring_pop wrapped in
    ((out, contents 0 rb' 1) ≡ dequeue (contents 0 wrapped 2)) × (done ≡ true) × Holds rb' 1
cring_pop-dequeue_example = cring_pop-dequeue 0 wrapped 2 wrapped-Holds

getters_test :
    (cring_capacity wrapped ≡ 3)
    × (cring_is_empty wrapped ≡ false)
    × (cring_is_full wrapped ≡ false)
    × (cring_is_empty (cring_clear wrapped) ≡ true)
unfolding cring_capacity cring_is_empty cring_is_full cring_clear
getters_test = (refl, refl, refl, refl)
