-- ===== src/DataStruct/Queue/Tests.antt =====
-- The queue of shared/data_struct/queue.c at concrete contents.
use ionutnechita_redacted_os.Base.{
  ℕ, ◌≡◌, refl, true, false, Option, none, some, List, [], ◌∷◌, ◌++◌, arith,
}
use ionutnechita_redacted_os.DataStruct.Fifo.{enqueue, dequeue}
use ionutnechita_redacted_os.DataStruct.Queue.{
  CQueue, cqueue_init, cqueue_enqueue, cqueue_dequeue, cqueue_is_empty, cqueue_size, cqueue_clear,
  cqueue_destroy,
}
use ionutnechita_redacted_os.DataStruct.Queue.Refine.{
  Stored, contents, cqueue_enqueue-bounded, cqueue_enqueue-unbounded, cqueue_dequeue-dequeue,
}

abbrev malloc : ℕ → Option (List ℕ)
malloc n = some (0 ∷ 0 ∷ 0 ∷ 0 ∷ [])

abbrev slots : List ℕ
slots = 8 ∷ 7 ∷ []

-- A full queue of two, with the oldest element in the second slot.
abbrev queue : ℕ → CQueue ℕ
queue max_capacity = record {
  buffer = some slots;
  capacity = 2;
  max_capacity = max_capacity;
  elem_size = 8;
  head = 1;
  tail = 1;
  length = 2;
  freed = [];
}

queue-Stored : (max_capacity : ℕ) → Stored (queue max_capacity) slots
queue-Stored max_capacity = ground arith

cqueue_enqueue-bounded_example :
    (q' : CQueue ℕ) × (buf' : List ℕ) × (cqueue_enqueue malloc (queue 2) 9 ≡ some (false, q'))
    × (contents 0 q' buf' ≡ (enqueue 2 (contents 0 (queue 2) slots) 9).1)
    × Stored q' buf'
cqueue_enqueue-bounded_example =
    cqueue_enqueue-bounded malloc 0 (queue 2) slots 9 (queue-Stored 2) (omega arith)

cqueue_enqueue-unbounded_example :
    (q' : CQueue ℕ) × (buf' : List ℕ) × (cqueue_enqueue malloc (queue 0) 9 ≡ some (true, q'))
    × (contents 0 q' buf' ≡ contents 0 (queue 0) slots ++ (9 ∷ []))
    × Stored q' buf'
cqueue_enqueue-unbounded_example =
    cqueue_enqueue-unbounded malloc 0 (queue 0) slots (0 ∷ 0 ∷ 0 ∷ 0 ∷ []) 9 (queue-Stored 0) refl
      (omega arith) refl (omega arith)

cqueue_dequeue-dequeue_example :
    (q' : CQueue ℕ) × (cqueue_dequeue (queue 2)
      ≡ some (true, (dequeue (contents 0 (queue 2) slots)).0, q'))
    × (contents 0 q' slots ≡ (dequeue (contents 0 (queue 2) slots)).1)
    × Stored q' slots
cqueue_dequeue-dequeue_example = cqueue_dequeue-dequeue 0 (queue 2) slots (queue-Stored 2)

-- A bounded queue whose storage was refused faults at the first element.
without_storage_test : cqueue_enqueue {A = ℕ} (λ n. none) (cqueue_init (λ n. none) 2 8) 5 ≡ none
unfolding cqueue_enqueue cqueue_init
without_storage_test = refl

getters_test :
    (cqueue_is_empty (queue 2) ≡ false)
    × (cqueue_size (queue 2) ≡ 2)
    × (cqueue_size (cqueue_clear (queue 2)) ≡ 0)
    × ((cqueue_destroy (queue 2)).freed ≡ 16 ∷ [])
unfolding cqueue_is_empty cqueue_size cqueue_clear cqueue_destroy
getters_test = (refl, refl, refl, refl)
