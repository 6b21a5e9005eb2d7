-- ===== src/DataStruct/DoublyLinkedList/Tests.antt =====
-- The list of shared/data_struct/doubly_linked_list.c with two nodes.
use ionutnechita_redacted_os.Base.{
  ℕ, ◌≡◌, ◌≢◌, refl, Bool, Option, none, some, [], ◌∷◌, arith, ◌==◌, if◌then◌else◌, ◌>>=◌,
}
use ionutnechita_redacted_os.DataStruct.DoublyLinkedList.{
  CDoubleLinkedList, DoubleHeap, double_node, cdouble_linked_list_destroy,
  cdouble_linked_list_push_front, cdouble_linked_list_push_back, cdouble_linked_list_clone,
  cdouble_linked_list_pop_front, cdouble_linked_list_insert_before, cdouble_linked_list_remove,
  cdouble_linked_list_update, cdouble_linked_list_length, cdouble_linked_list_size_bytes,
  cdouble_linked_list_find,
}
use ionutnechita_redacted_os.DataStruct.DoublyLinkedList.Ends.{
  Ends, cdouble_linked_list_pop_front-push_front,
}

abbrev heap : DoubleHeap
heap a =
    if a == 16
    then some (double_node 7 32 32)
    else (if a == 32 then some (double_node 8 16 16) else none)

abbrev pair : CDoubleLinkedList
pair = record { head = 16; tail = 32; length = 2 }

pair-Ends : Ends heap pair (double_node 7 32 32) (double_node 8 16 16)
pair-Ends = ground arith

cdouble_linked_list_pop_front-push_front_example :
    (l₁ : CDoubleLinkedList) × (h₁ h₂ : DoubleHeap) × (cdouble_linked_list_push_front 48 9 pair heap
      ≡ some (l₁, h₁))
    × (cdouble_linked_list_pop_front l₁ h₁ ≡ some (9, pair, h₂))
    × ((a : ℕ) → a ≢ 48 → h₂ a ≡ heap a)
cdouble_linked_list_pop_front-push_front_example =
    cdouble_linked_list_pop_front-push_front 48 9 pair heap (double_node 7 32 32)
      (double_node 8 16 16) pair-Ends (λ e. absurd (omega arith)) (λ e. absurd (omega arith))
      (λ e. absurd (omega arith))

abbrev find_in : (ℕ → Bool) → Option (CDoubleLinkedList × DoubleHeap) → Option ℕ
find_in same r = r >>= λ (l, h). cdouble_linked_list_find same l h

abbrev without_answer :
    Option (ℕ × CDoubleLinkedList × DoubleHeap) → Option (CDoubleLinkedList × DoubleHeap)
without_answer r = r >>= λ (a, l, h). some (l, h)

operations_test :
    (find_in (λ d. d == 8) (cdouble_linked_list_clone (64 ∷ 80 ∷ []) pair heap) ≡ some 80)
    × (find_in (λ d. d == 9) (cdouble_linked_list_push_back 48 9 pair heap) ≡ some 48)
    × (find_in (λ d. d == 9) (without_answer (cdouble_linked_list_insert_before 48 32 9 pair heap))
        ≡ some 48)
    × (find_in (λ d. d == 7) (without_answer (cdouble_linked_list_remove 16 pair heap)) ≡ some 0)
    × (find_in (λ d. d == 5) (cdouble_linked_list_update 32 5 heap >>= λ h. some (pair, h))
        ≡ some 32)
    × (cdouble_linked_list_length pair ≡ 2)
    × (cdouble_linked_list_size_bytes pair ≡ 48)
    × ((cdouble_linked_list_destroy 2 16 heap >>= λ h. h 32) ≡ none)
unfolding cdouble_linked_list_find cdouble_linked_list_clone cdouble_linked_list_push_back
    cdouble_linked_list_insert_before cdouble_linked_list_remove cdouble_linked_list_update
    cdouble_linked_list_length cdouble_linked_list_size_bytes cdouble_linked_list_destroy
operations_test = (refl, refl, refl, refl, refl, refl, refl, refl)
