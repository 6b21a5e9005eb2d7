-- ===== src/DataStruct/LinkedList.antt =====
-- shared/data_struct/linked_list.c. A pointer is a number, NULL is 0, and the heap is a function
-- from an address to the node that lies there. `raw` is what `malloc` answers. A loop has fuel; the
-- outcome `none` is an access through NULL or to no node, or that the fuel ran out. The list
-- itself is not NULL; `cmp` is given as the test whether it answers 0.
pub mod Chain
mod Tests
use ionutnechita_redacted_os.Base.{
  ℕ, zero, suc, ◌+◌, ◌-◌, ◌*◌, ◌/◌, ◌%◌, ◌^◌, ◌≤◌, ◌<◌, ◌≡◌, ◌≢◌, ◌↔◌, refl, ap, Bool, true, false,
  Option, none, some, List, [], ◌∷◌, ◌++◌, arith, length, length-set, get_or, set,
  get_elem?-eq-get_or, ◌⊎◌, inl, inr, ◌==◌, ltb, leb, if◌then◌else◌, u64, u32, sub64, sub32,
  bswap16, bswap32, u8, u16, Bool-cases, store?, store?-eq-set, get_elem?, ◌>>=◌, ◌∙◌, sym, ap₂,
  min, max, ◌&&◌, ◌||◌, not, take, drop, replicate, length-append, length-replicate, append-nil,
  append_assoc, ◌>>>◌, bit_or, bit_and, bit_xor, ltb→lt, lt→ltb, le→ltb_false,
}

pub record Node : Type 0 where
  pub data_ptr : ℕ
  pub next : ℕ

pub record CLinkedList : Type 0 where
  pub head : ℕ
  pub tail : ℕ
  pub length : ℕ

abbrev pub Heap : Type 0
Heap = ℕ → Option Node

abbrev pub node : ℕ → ℕ → Node
node d n = record { data_ptr = d; next = n }

abbrev pub read : ℕ → Heap → Option Node
read p h = if p == 0 then none else h p

abbrev pub put : ℕ → Option Node → Heap → Heap
put p v h a = if a == p then v else h a

abbrev pub write : ℕ → Node → Heap → Option Heap
write p n h = if p == 0 then none else some (put p (some n) h)

-- `clinkedlist_create` in storage that `malloc` has given.
pub clinkedlist_create : CLinkedList
clinkedlist_create = record { head = 0; tail = 0; length = 0 }

-- The loop of `clinkedlist_destroy` from `p` on.
pub clinkedlist_destroy : ℕ → ℕ → Heap → Option Heap
clinkedlist_destroy zero p h = none
clinkedlist_destroy (suc fuel) p h = elim (p == 0) [
  | true ↦ some h
  | false ↦ read p h >>= λ n. clinkedlist_destroy fuel n.next (put p none h)
]

pub clinkedlist_push_front : ℕ → ℕ → CLinkedList → Heap → Option (CLinkedList × Heap)
clinkedlist_push_front raw d l h = write raw (node d l.head) h >>= λ h'. some (
  record l { head = raw; tail = if l.tail == 0 then raw else l.tail; length = u64 (l.length + 1) },
  h',
)

-- The loop of `clinkedlist_clone` at `it`; `raws` are the answers of `malloc` in their order.
pub clone_loop : ℕ → List ℕ → ℕ → CLinkedList → Heap → Option (CLinkedList × Heap)
unfolding clinkedlist_push_front
clone_loop zero raws it l h = none
clone_loop (suc fuel) raws it l h = elim (it == 0) [
  | true ↦ some (l, h)
  | false ↦ read it h >>= λ n. elim raws [
    | [] ↦ none
    | raw ∷ raws' ↦ elim (l.tail == 0) [
      | true ↦ clinkedlist_push_front raw n.data_ptr l h >>= λ (l', h').
          clone_loop fuel raws' n.next l' h'
      | false ↦ write raw (node n.data_ptr 0) h >>= λ h₁. read l.tail h₁ >>= λ t.
          write l.tail (record t { next = raw }) h₁ >>= λ h₂.
          clone_loop fuel raws' n.next (record l { tail = raw; length = u64 (l.length + 1) }) h₂
    ]
  ]
]

pub clinkedlist_clone : ℕ → List ℕ → CLinkedList → Heap → Option (CLinkedList × Heap)
unfolding clone_loop clinkedlist_create
clinkedlist_clone fuel raws l h = clone_loop fuel raws l.head clinkedlist_create h

-- 0 is also the answer of an empty list.
pub clinkedlist_pop_front : CLinkedList → Heap → Option (ℕ × CLinkedList × Heap)
clinkedlist_pop_front l h =
    if l.head == 0
    then some (0, l, h)
    else (read l.head h >>= λ n. some (
      n.data_ptr,
      record l {
        head = n.next;
        tail = if n.next == 0 then 0 else l.tail;
        length = sub64 l.length 1;
      },
      put l.head none h,
    ))

pub clinkedlist_insert_after : ℕ → ℕ → ℕ → CLinkedList → Heap → Option (ℕ × CLinkedList × Heap)
unfolding clinkedlist_push_front
clinkedlist_insert_after raw at d l h =
    if at == 0
    then (clinkedlist_push_front raw d l h >>= λ (l', h'). some (l'.head, l', h'))
    else (read at h >>= λ n. write raw (node d n.next) h >>= λ h₁. read at h₁ >>= λ n₁.
        write at (record n₁ { next = raw }) h₁ >>= λ h₂. some (
          raw,
          record l { tail = if l.tail == at then raw else l.tail; length = u64 (l.length + 1) },
          h₂,
        ))

-- `while (prev->next && prev->next != node)`
pub find_prev : ℕ → ℕ → ℕ → Heap → Option ℕ
find_prev zero at prev h = none
find_prev (suc fuel) at prev h = read prev h >>= λ p.
    elim (not (p.next == 0) && not (p.next == at)) [
      | true ↦ find_prev fuel at p.next h
      | false ↦ some prev
    ]

pub clinkedlist_remove : ℕ → ℕ → CLinkedList → Heap → Option (ℕ × CLinkedList × Heap)
unfolding clinkedlist_pop_front find_prev
clinkedlist_remove fuel at l h =
    if at == 0 || l.head == 0
    then some (0, l, h)
    else if at == l.head
    then clinkedlist_pop_front l h
    else (find_prev fuel at l.head h >>= λ prev. read prev h >>= λ p.
        if not (p.next == at)
        then some (0, l, h)
        else (read at h >>= λ n. write prev (record p { next = n.next }) h >>= λ h₁.
            read at h₁ >>= λ n₁. some (
              n₁.data_ptr,
              record l { tail = if at == l.tail then prev else l.tail; length = sub64 l.length 1 },
              put at none h₁,
            )))

pub clinkedlist_update : ℕ → ℕ → Heap → Option Heap
clinkedlist_update at d h =
    if at == 0 then some h else (read at h >>= λ n. write at (record n { data_ptr = d }) h)

pub clinkedlist_length : CLinkedList → ℕ
clinkedlist_length l = l.length

pub clinkedlist_size_bytes : CLinkedList → ℕ
clinkedlist_size_bytes l = u64 (l.length * 16)

-- The loop of `clinkedlist_find` at `it`; 0 is NULL.
pub find_loop : ℕ → (ℕ → Bool) → ℕ → Heap → Option ℕ
find_loop zero same it h = none
find_loop (suc fuel) same it h = elim (it == 0) [
  | true ↦ some 0
  | false ↦ read it h >>= λ n. elim (same n.data_ptr) [
    | true ↦ some it
    | false ↦ find_loop fuel same n.next h
  ]
]

pub clinkedlist_find : ℕ → (ℕ → Bool) → CLinkedList → Heap → Option ℕ
unfolding find_loop
clinkedlist_find fuel same l h = find_loop fuel same l.head h

-- The arguments of the calls of `func`, in their order.
pub for_each_loop : ℕ → ℕ → Heap → Option (List ℕ)
for_each_loop zero it h = none
for_each_loop (suc fuel) it h = elim (it == 0) [
  | true ↦ some []
  | false ↦ read it h >>= λ n. for_each_loop fuel n.next h >>= λ ds. some (n.data_ptr ∷ ds)
]

pub clinkedlist_for_each : ℕ → CLinkedList → Heap → Option (List ℕ)
unfolding for_each_loop
clinkedlist_for_each fuel l h = for_each_loop fuel l.head h
