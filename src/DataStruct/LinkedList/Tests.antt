-- ===== src/DataStruct/LinkedList/Tests.antt =====
-- The list of shared/data_struct/linked_list.c with two nodes.
use ionutnechita_redacted_os.Base.{
  ℕ, ◌≡◌, refl, Option, none, some, List, [], ◌∷◌, arith, ◌==◌, if◌then◌else◌, ◌>>=◌,
}
use ionutnechita_redacted_os.DataStruct.LinkedList.{
  CLinkedList, Heap, node, clinkedlist_destroy, clinkedlist_push_front, clinkedlist_clone,
  clinkedlist_pop_front, clinkedlist_insert_after, clinkedlist_remove, clinkedlist_update,
  clinkedlist_length, clinkedlist_size_bytes, clinkedlist_find, clinkedlist_for_each,
}
use ionutnechita_redacted_os.DataStruct.LinkedList.Chain.{
  IsList, first, data_of, clinkedlist_push_front-IsList, clinkedlist_pop_front-IsList,
  clinkedlist_find-first,
}

abbrev heap : Heap
heap a = if a == 16 then some (node 7 32) else if a == 32 then some (node 8 0) else none

abbrev pair : CLinkedList
pair = record { head = 16; tail = 32; length = 2 }

pair-IsList : IsList heap pair ((16, 7) ∷ (32, 8) ∷ [])
pair-IsList = ground arith

clinkedlist_push_front-IsList_example :
    (l' : CLinkedList) × (h' : Heap) × (clinkedlist_push_front 48 9 pair heap ≡ some (l', h'))
    × IsList h' l' ((48, 9) ∷ (16, 7) ∷ (32, 8) ∷ [])
clinkedlist_push_front-IsList_example =
    clinkedlist_push_front-IsList 48 9 pair heap ((16, 7) ∷ (32, 8) ∷ []) pair-IsList
      (λ e. absurd (omega arith)) (ground arith) (omega arith)

clinkedlist_pop_front-IsList_test :
    (l' : CLinkedList) × (h' : Heap) × (clinkedlist_pop_front pair heap ≡ some (7, l', h'))
    × IsList h' l' ((32, 8) ∷ [])
    × (h' 16 ≡ none)
clinkedlist_pop_front-IsList_test =
    clinkedlist_pop_front-IsList pair heap 16 7 ((32, 8) ∷ []) pair-IsList

clinkedlist_find-first_test :
    (clinkedlist_find 3 (λ d. d == 8) pair heap
      ≡ some (first (λ d. d == 8) ((16, 7) ∷ (32, 8) ∷ [])))
    × (clinkedlist_for_each 3 pair heap ≡ some (data_of ((16, 7) ∷ (32, 8) ∷ [])))
clinkedlist_find-first_test =
    clinkedlist_find-first (λ d. d == 8) pair heap ((16, 7) ∷ (32, 8) ∷ []) 3 pair-IsList
      (omega arith)

-- The data in order behind an operation.
abbrev contents : Option (CLinkedList × Heap) → Option (List ℕ)
contents r = r >>= λ (l, h). clinkedlist_for_each 9 l h

abbrev without_answer : Option (ℕ × CLinkedList × Heap) → Option (CLinkedList × Heap)
without_answer r = r >>= λ (a, l, h). some (l, h)

operations_test :
    (contents (clinkedlist_clone 3 (64 ∷ 80 ∷ []) pair heap) ≡ some (7 ∷ 8 ∷ []))
    × (contents (without_answer (clinkedlist_insert_after 48 16 9 pair heap))
        ≡ some (7 ∷ 9 ∷ 8 ∷ []))
    × (contents (without_answer (clinkedlist_remove 3 32 pair heap)) ≡ some (7 ∷ []))
    × (contents (clinkedlist_update 32 5 heap >>= λ h. some (pair, h)) ≡ some (7 ∷ 5 ∷ []))
    × (clinkedlist_length pair ≡ 2)
    × (clinkedlist_size_bytes pair ≡ 32)
    × ((clinkedlist_destroy 3 16 heap >>= λ h. h 32) ≡ none)
unfolding clinkedlist_for_each clinkedlist_clone clinkedlist_insert_after clinkedlist_remove
    clinkedlist_update clinkedlist_length clinkedlist_size_bytes clinkedlist_destroy
operations_test = (refl, refl, refl, refl, refl, refl, refl)

-- No answer of `malloc` is looked at before the node is written.
out_of_memory_test : contents (clinkedlist_push_front 0 9 pair heap) ≡ none
unfolding clinkedlist_push_front
out_of_memory_test = refl
