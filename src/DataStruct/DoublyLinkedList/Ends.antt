-- ===== src/DataStruct/DoublyLinkedList/Ends.antt =====
-- The two ends of the circular list of shared/data_struct/doubly_linked_list.c.
use ionutnechita_redacted_os.Base.{
  ℕ, ◌+◌, ◌^◌, ◌<◌, ◌≡◌, ◌≢◌, none, some, arith, ◌==◌, if◌then◌else◌, u64,
}
use ionutnechita_redacted_os.DataStruct.DoublyLinkedList.{
  DoubleNode, CDoubleLinkedList, DoubleHeap, double_node, put, cdouble_linked_list_push_front,
  cdouble_linked_list_pop_front,
}

-- A list that is not empty: its first and last node point to each other, and are one node exactly
-- when the list has length 1.
pub record Ends (h : DoubleHeap) (l : CDoubleLinkedList) (first last : DoubleNode) : Type 0 where
  pub head_nz : l.head ≢ 0
  pub tail_nz : l.tail ≢ 0
  pub first_at : h l.head ≡ some first
  pub last_at : h l.tail ≡ some last
  pub back : first.prev ≡ l.tail
  pub round : last.next ≡ l.head
  pub longer : 0 < l.length
  pub small : l.length + 1 < 2 ^ 64

-- The heap behind the push, and behind the pop that follows.
abbrev pushed_last : ℕ → CDoubleLinkedList → DoubleNode → DoubleNode → DoubleNode
pushed_last raw l first last =
    if l.tail == l.head then record first { prev = raw; next = raw } else record last { next = raw }

abbrev pushed : ℕ → ℕ → CDoubleLinkedList → DoubleNode → DoubleNode → DoubleHeap → DoubleHeap
pushed raw d l first last h = put l.tail (some (pushed_last raw l first last)) (
    put l.head (some (record first { prev = raw }))
      (put raw (some (double_node d l.head l.tail)) h))

abbrev popped : ℕ → ℕ → CDoubleLinkedList → DoubleNode → DoubleNode → DoubleHeap → DoubleHeap
popped raw d l first last h = put raw none (
    put l.tail
      (some (
        if l.tail == l.head
        then record first { prev = l.tail; next = l.head }
        else record last { next = l.head }))
      (put l.head
        (some (
          if l.tail == l.head
          then record first { prev = l.tail; next = raw }
          else record first { prev = l.tail }))
        (pushed raw d l first last h)))

abbrev pushed_list : ℕ → CDoubleLinkedList → CDoubleLinkedList
pushed_list raw l = record l { head = raw; length = u64 (l.length + 1) }

module _ (raw d : ℕ) (l : CDoubleLinkedList) (h : DoubleHeap) (first last : DoubleNode)
    (v : Ends h l first last) (nz : raw ≢ 0) (nh : raw ≢ l.head) (nt : raw ≢ l.tail) where
  push_front-pushed :
      cdouble_linked_list_push_front raw d l h
      ≡ some (pushed_list raw l, pushed raw d l first last h)
  unfolding cdouble_linked_list_push_front
  push_front-pushed = ground (arith, v.first_at, v.last_at)

  pop_front-popped :
      cdouble_linked_list_pop_front (pushed_list raw l) (pushed raw d l first last h)
      ≡ some (d, l, popped raw d l first last h)
  unfolding cdouble_linked_list_pop_front
  pop_front-popped = ground (arith, v.first_at, v.last_at)

  popped-same : (a : ℕ) → a ≢ raw → popped raw d l first last h a ≡ h a
  popped-same a ne = ground (arith, v.first_at, v.last_at, v.back, v.round)

-- Popping at the front undoes a push at the front of a list that is not empty: the data comes
-- back, the list has its old fields, and all memory but the new node's is as it was.
pub cdouble_linked_list_pop_front-push_front :
    (raw d : ℕ) (l : CDoubleLinkedList) (h : DoubleHeap) (first last : DoubleNode)
    → Ends h l first last
    → raw ≢ 0
    → raw ≢ l.head
    → raw ≢ l.tail
    → (l₁ : CDoubleLinkedList) × (h₁ h₂ : DoubleHeap) × (cdouble_linked_list_push_front raw d l h
        ≡ some (l₁, h₁))
      × (cdouble_linked_list_pop_front l₁ h₁ ≡ some (d, l, h₂))
      × ((a : ℕ) → a ≢ raw → h₂ a ≡ h a)
unfolding cdouble_linked_list_push_front cdouble_linked_list_pop_front
cdouble_linked_list_pop_front-push_front raw d l h first last v nz nh nt = (
  pushed_list raw l,
  pushed raw d l first last h,
  popped raw d l first last h,
  push_front-pushed raw d l h first last v nz nh nt,
  pop_front-popped raw d l h first last v nz nh nt,
  popped-same raw d l h first last v nz nh nt,
)
