-- ===== src/DataStruct/DoublyLinkedList.antt =====
-- shared/data_struct/doubly_linked_list.c, a circular list. A pointer is a number, NULL is 0, and
-- the heap is a function from an address to the node that lies there. `raw` is what `malloc`
-- answers. The list itself is not NULL; `cmp` is given as the test whether it answers 0. The
-- outcome `none` is an access through NULL or to no node.
pub mod Ends
mod Tests
use ionutnechita_redacted_os.Base.{
  ℕ, zero, suc, ◌+◌, ◌-◌, ◌*◌, ◌/◌, ◌%◌, ◌^◌, ◌≤◌, ◌<◌, ◌≡◌, ◌≢◌, ◌↔◌, refl, ap, Bool, true, false,
  Option, none, some, List, [], ◌∷◌, ◌++◌, arith, length, length-set, get_or, set,
  get_elem?-eq-get_or, ◌⊎◌, inl, inr, ◌==◌, ltb, leb, if◌then◌else◌, u64, u32, sub64, sub32,
  bswap16, bswap32, u8, u16, Bool-cases, store?, store?-eq-set, get_elem?, ◌>>=◌, ◌∙◌, sym, ap₂,
  min, max, ◌&&◌, ◌||◌, not, take, drop, replicate, length-append, length-replicate, append-nil,
  append_assoc, ◌>>>◌, bit_or, bit_and, bit_xor, ltb→lt, lt→ltb, le→ltb_false,
}

pub record DoubleNode : Type 0 where
  pub data_ptr : ℕ
  pub next : ℕ
  pub prev : ℕ

pub record CDoubleLinkedList : Type 0 where
  pub head : ℕ
  pub tail : ℕ
  pub length : ℕ

abbrev pub DoubleHeap : Type 0
DoubleHeap = ℕ → Option DoubleNode

abbrev pub double_node : ℕ → ℕ → ℕ → DoubleNode
double_node d n p = record { data_ptr = d; next = n; prev = p }

abbrev pub read : ℕ → DoubleHeap → Option DoubleNode
read p h = if p == 0 then none else h p

abbrev pub put : ℕ → Option DoubleNode → DoubleHeap → DoubleHeap
put p v h a = if a == p then v else h a

-- `p->next = x`
abbrev pub set_next : ℕ → ℕ → DoubleHeap → Option DoubleHeap
set_next p x h = read p h >>= λ n. some (put p (some (record n { next = x })) h)

-- `p->prev = x`
abbrev pub set_prev : ℕ → ℕ → DoubleHeap → Option DoubleHeap
set_prev p x h = read p h >>= λ n. some (put p (some (record n { prev = x })) h)

-- `cdouble_linked_list_create` in storage that `malloc` has given.
pub cdouble_linked_list_create : CDoubleLinkedList
cdouble_linked_list_create = record { head = 0; tail = 0; length = 0 }

-- The loop of `cdouble_linked_list_destroy`, `left` rounds before its end.
pub cdouble_linked_list_destroy : ℕ → ℕ → DoubleHeap → Option DoubleHeap
cdouble_linked_list_destroy zero p h = some h
cdouble_linked_list_destroy (suc left) p h =
    read p h >>= λ n. cdouble_linked_list_destroy left n.next (put p none h)

-- A list of the one node `raw`.
abbrev alone : ℕ → ℕ → CDoubleLinkedList → DoubleHeap → Option (CDoubleLinkedList × DoubleHeap)
alone raw d l h = some (
  record l { head = raw; tail = raw; length = u64 (l.length + 1) },
  put raw (some (double_node d raw raw)) h,
)

pub cdouble_linked_list_push_front :
    ℕ → ℕ → CDoubleLinkedList → DoubleHeap → Option (CDoubleLinkedList × DoubleHeap)
cdouble_linked_list_push_front raw d l h =
    if raw == 0
    then some (l, h)
    else if l.length == 0
    then alone raw d l h
    else (set_prev l.head raw (put raw (some (double_node d l.head l.tail)) h) >>= λ h₁.
        set_next l.tail raw h₁ >>= λ h₂.
        some (record l { head = raw; length = u64 (l.length + 1) }, h₂))

pub cdouble_linked_list_push_back :
    ℕ → ℕ → CDoubleLinkedList → DoubleHeap → Option (CDoubleLinkedList × DoubleHeap)
cdouble_linked_list_push_back raw d l h =
    if raw == 0
    then some (l, h)
    else if l.length == 0
    then alone raw d l h
    else (set_next l.tail raw (put raw (some (double_node d l.head l.tail)) h) >>= λ h₁.
        set_prev l.head raw h₁ >>= λ h₂.
        some (record l { tail = raw; length = u64 (l.length + 1) }, h₂))

-- The loop of `cdouble_linked_list_clone`, `left` rounds before its end, at `it`; `raws` are the
-- answers of `malloc` in their order. A node without memory is left out.
pub double_clone_loop :
    ℕ → List ℕ → ℕ → CDoubleLinkedList → DoubleHeap → Option (CDoubleLinkedList × DoubleHeap)
unfolding cdouble_linked_list_push_back
double_clone_loop zero raws it l h = some (l, h)
double_clone_loop (suc left) [] it l h = none
double_clone_loop (suc left) (raw ∷ raws) it l h = read it h >>= λ n.
    cdouble_linked_list_push_back raw n.data_ptr l h >>= λ (l', h').
    read it h' >>= λ n'. double_clone_loop left raws n'.next l' h'

pub cdouble_linked_list_clone :
    List ℕ → CDoubleLinkedList → DoubleHeap → Option (CDoubleLinkedList × DoubleHeap)
unfolding double_clone_loop cdouble_linked_list_create
cdouble_linked_list_clone raws l h =
    double_clone_loop l.length raws l.head cdouble_linked_list_create h

-- 0 is also the answer of an empty list.
pub cdouble_linked_list_pop_front :
    CDoubleLinkedList → DoubleHeap → Option (ℕ × CDoubleLinkedList × DoubleHeap)
cdouble_linked_list_pop_front l h =
    if l.length == 0
    then some (0, l, h)
    else (read l.head h >>= λ n.
        if l.length == 1
        then some (n.data_ptr, record l { head = 0; tail = 0; length = 0 }, put l.head none h)
        else (set_prev n.next l.tail h >>= λ h₁. set_next l.tail n.next h₁ >>= λ h₂.
            some
              (n.data_ptr, record l { head = n.next; length = l.length - 1 }, put l.head none h₂)))

pub cdouble_linked_list_pop_back :
    CDoubleLinkedList → DoubleHeap → Option (ℕ × CDoubleLinkedList × DoubleHeap)
cdouble_linked_list_pop_back l h =
    if l.length == 0
    then some (0, l, h)
    else (read l.tail h >>= λ n.
        if l.length == 1
        then some (n.data_ptr, record l { head = 0; tail = 0; length = 0 }, put l.tail none h)
        else (set_next n.prev l.head h >>= λ h₁. set_prev l.head n.prev h₁ >>= λ h₂.
            some
              (n.data_ptr, record l { tail = n.prev; length = l.length - 1 }, put l.tail none h₂)))

pub cdouble_linked_list_insert_after :
    ℕ → ℕ → ℕ → CDoubleLinkedList → DoubleHeap → Option (ℕ × CDoubleLinkedList × DoubleHeap)
unfolding cdouble_linked_list_push_front
cdouble_linked_list_insert_after raw at d l h =
    if at == 0
    then (cdouble_linked_list_push_front raw d l h >>= λ (l', h'). some (l'.head, l', h'))
    else if raw == 0
    then some (0, l, h)
    else (read at h >>= λ n.
        let h₁ = put raw (some (double_node d n.next at)) h in
        read at h₁ >>= λ n₁. set_prev n₁.next raw h₁ >>= λ h₂. set_next at raw h₂ >>= λ h₃. some (
          raw,
          record l { tail = if l.tail == at then raw else l.tail; length = u64 (l.length + 1) },
          h₃,
        ))

pub cdouble_linked_list_insert_before :
    ℕ → ℕ → ℕ → CDoubleLinkedList → DoubleHeap → Option (ℕ × CDoubleLinkedList × DoubleHeap)
unfolding cdouble_linked_list_push_back cdouble_linked_list_insert_after
cdouble_linked_list_insert_before raw at d l h =
    if at == 0
    then (cdouble_linked_list_push_back raw d l h >>= λ (l', h'). some (l'.tail, l', h'))
    else (read at h >>= λ n. cdouble_linked_list_insert_after raw n.prev d l h)

pub cdouble_linked_list_remove :
    ℕ → CDoubleLinkedList → DoubleHeap → Option (ℕ × CDoubleLinkedList × DoubleHeap)
unfolding cdouble_linked_list_pop_front cdouble_linked_list_pop_back
cdouble_linked_list_remove at l h =
    if at == 0 || l.length == 0
    then some (0, l, h)
    else if at == l.head
    then cdouble_linked_list_pop_front l h
    else if at == l.tail
    then cdouble_linked_list_pop_back l h
    else (read at h >>= λ n. set_next n.prev n.next h >>= λ h₁. read at h₁ >>= λ n₁.
        set_prev n₁.next n₁.prev h₁ >>= λ h₂.
        read at h₂ >>= λ n₂. some (n₂.data_ptr, record l { length = l.length - 1 }, put at none h₂))

pub cdouble_linked_list_update : ℕ → ℕ → DoubleHeap → Option DoubleHeap
cdouble_linked_list_update at d h =
    if at == 0
    then some h
    else (read at h >>= λ n. some (put at (some (record n { data_ptr = d })) h))

pub cdouble_linked_list_length : CDoubleLinkedList → ℕ
cdouble_linked_list_length l = l.length

pub cdouble_linked_list_size_bytes : CDoubleLinkedList → ℕ
cdouble_linked_list_size_bytes l = u64 (l.length * 24)

-- The loop of `cdouble_linked_list_find`, `left` rounds before its end; 0 is NULL.
pub double_find_loop : ℕ → (ℕ → Bool) → ℕ → DoubleHeap → Option ℕ
double_find_loop zero same it h = some 0
double_find_loop (suc left) same it h = read it h >>= λ n. elim (same n.data_ptr) [
  | true ↦ some it
  | false ↦ double_find_loop left same n.next h
]

pub cdouble_linked_list_find : (ℕ → Bool) → CDoubleLinkedList → DoubleHeap → Option ℕ
unfolding double_find_loop
cdouble_linked_list_find same l h = double_find_loop l.length same l.head h
