-- ===== src/DataStruct/RingBuffer.antt =====
-- shared/data_struct/ring_buffer.c. The storage is a list of elements: the C code copies whole
-- elements of `element_size` bytes between `item` and slot `i` at byte `i * element_size`, so
-- a slot is one element here, and `element_size` is carried along. A function that changes `*rb`
-- returns the new ring beside its result.
pub mod Refine
mod Tests
use ionutnechita_redacted_os.Base.{
  ℕ, ◌+◌, ◌%◌, Bool, true, false, ◌&&◌, not, Option, none, some, List, get_elem?, set, ◌==◌, u64,
  if◌then◌else◌,
}

pub record CRingBuffer {ℓ} (A : Type ℓ) : Type ℓ where
  pub buffer : List A
  pub capacity : ℕ
  pub element_size : ℕ
  pub head : ℕ
  pub tail : ℕ
  pub full : Bool

module _ {ℓ} {A : Type ℓ} where
  pub cring_init : List A → ℕ → ℕ → CRingBuffer A
  cring_init storage capacity elem_size = record {
    buffer = storage;
    capacity = capacity;
    element_size = elem_size;
    head = 0;
    tail = 0;
    full = false;
  }

  pub cring_capacity : CRingBuffer A → ℕ
  cring_capacity rb = rb.capacity

  pub cring_push : CRingBuffer A → A → Bool × CRingBuffer A
  cring_push rb item =
      if rb.full
      then (false, rb)
      else let head' = u64 (rb.head + 1) % rb.capacity in
        (
          true,
          record rb { buffer = set rb.buffer rb.head item; head = head'; full = head' == rb.tail },
        )

  -- The option is what goes through `out`: `none` where nothing is written there.
  pub cring_pop : CRingBuffer A → Bool × Option A × CRingBuffer A
  cring_pop rb = if not rb.full && rb.head == rb.tail then (false, none, rb) else (
    true,
    get_elem? rb.buffer rb.tail,
    record rb { tail = u64 (rb.tail + 1) % rb.capacity; full = false },
  )

  pub cring_is_empty : CRingBuffer A → Bool
  cring_is_empty rb = not rb.full && rb.head == rb.tail

  pub cring_is_full : CRingBuffer A → Bool
  cring_is_full rb = rb.full

  pub cring_clear : CRingBuffer A → CRingBuffer A
  cring_clear rb = record rb { head = 0; tail = 0; full = false }
