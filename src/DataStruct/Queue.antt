-- ===== src/DataStruct/Queue.antt =====
-- shared/data_struct/queue.c. As in the ring buffer a slot of `elem_size` bytes is one element.
-- `buffer` is NULL or storage. `malloc` is what the allocator answers to a size in bytes, NULL or
-- fresh storage; `freed` are the sizes of what `free` has been given, the latest first. The outcome
-- `none` is an access through NULL or outside the storage.
pub mod Refine
pub mod Grow
mod Tests
use ionutnechita_redacted_os.Base.{
  ℕ, zero, suc, ◌+◌, ◌-◌, ◌*◌, ◌%◌, Bool, true, false, Option, none, some, List, [], ◌∷◌, get_elem?,
  store?, ◌==◌, ltb, u64, if◌then◌else◌, ◌>>=◌,
}

pub record CQueue (A : Type 0) : Type 0 where
  pub buffer : Option (List A)
  pub capacity : ℕ
  pub max_capacity : ℕ
  pub elem_size : ℕ
  pub head : ℕ
  pub tail : ℕ
  pub length : ℕ
  pub freed : List ℕ

module _ {A : Type 0} where
  pub cqueue_init : (ℕ → Option (List A)) → ℕ → ℕ → CQueue A
  cqueue_init malloc max_capacity elem_size = record {
    buffer = if ltb 0 max_capacity then malloc (u64 (max_capacity * elem_size)) else none;
    capacity = max_capacity;
    max_capacity = max_capacity;
    elem_size = elem_size;
    head = 0;
    tail = 0;
    length = 0;
    freed = [];
  }

  -- The copy loop of `cqueue_enqueue`, `rounds` before its end, at round `i`.
  pub copy_loop : CQueue A → List A → ℕ → ℕ → Option (List A)
  copy_loop q newb zero i = some newb
  copy_loop q newb (suc rounds) i = do
    buffer ← q.buffer
    x ← get_elem? buffer (u64 (q.tail + i) % q.capacity)
    newb' ← store? newb i x
    copy_loop q newb' rounds (i + 1)

  -- The store at the end of `cqueue_enqueue`.
  pub append : CQueue A → A → Option (Bool × CQueue A)
  append q item = do
    buffer ← q.buffer
    buffer' ← store? buffer q.head item
    some (
      true,
      record q {
        buffer = some buffer';
        head = u64 (q.head + 1) % q.capacity;
        length = u64 (q.length + 1);
      },
    )

  -- What has been given back, in bytes, once `buffer` has been, if there is one.
  abbrev pub give_back : CQueue A → List ℕ
  give_back q = elim q.buffer [ none ↦ q.freed | some b ↦ u64 (q.capacity * q.elem_size) ∷ q.freed ]

  -- The unbounded queue's move to a larger buffer.
  pub grow : (ℕ → Option (List A)) → CQueue A → Option (Bool × CQueue A)
  unfolding copy_loop
  grow malloc q =
      let nc = if ltb 0 q.capacity then u64 (q.capacity * 2) else 4 in
      elim (malloc (u64 (nc * q.elem_size))) [
        | none ↦ some (false, q)
        | some newb ↦ (do
          newb' ← copy_loop q newb q.length 0
          some (
            true,
            record q {
              buffer = some newb';
              capacity = nc;
              head = q.length;
              tail = 0;
              freed = give_back q;
            },
          ))
      ]

  pub cqueue_enqueue : (ℕ → Option (List A)) → CQueue A → A → Option (Bool × CQueue A)
  unfolding append grow
  cqueue_enqueue malloc q item =
      if ltb 0 q.max_capacity
      then (if q.length == q.capacity then some (false, q) else append q item)
      else if q.length == q.capacity
      then (grow malloc q >>= λ (grown, q'). if grown then append q' item else some (false, q'))
      else append q item

  -- The inner option is what goes through `out`.
  pub cqueue_dequeue : CQueue A → Option (Bool × Option A × CQueue A)
  cqueue_dequeue q = if q.length == 0 then some (false, none, q) else (do
    buffer ← q.buffer
    x ← get_elem? buffer q.tail
    some (true, some x, record q { tail = u64 (q.tail + 1) % q.capacity; length = q.length - 1 }))

  pub cqueue_is_empty : CQueue A → Bool
  cqueue_is_empty q = q.length == 0

  pub cqueue_size : CQueue A → ℕ
  cqueue_size q = q.length

  pub cqueue_clear : CQueue A → CQueue A
  cqueue_clear q = record q { head = 0; tail = 0; length = 0 }

  pub cqueue_destroy : CQueue A → CQueue A
  cqueue_destroy q = record q { freed = give_back q }
