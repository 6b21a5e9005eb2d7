-- ===== src/DataStruct/RingBuffer/Refine.antt =====
-- A valid ring holds a bounded queue, and its operations are the queue's.
use ionutnechita_redacted_os.Base.{
  ℕ, ◌+◌, ◌-◌, ◌%◌, ◌^◌, ◌≤◌, ◌<◌, ◌≡◌, List, arith, length, length-set, get_elem?-eq-get_or, ◌==◌,
  ltb, if◌then◌else◌,
}
use ionutnechita_redacted_os.DataStruct.Fifo.{
  round_full, round_eq, enqueue, dequeue, window, length-window, window_of_ne_zero, window-set,
  advance, advance_start,
}
use ionutnechita_redacted_os.DataStruct.RingBuffer.{CRingBuffer, cring_init, cring_push, cring_pop}

module _ {A : Type 0} where
  -- `count` elements lie from `tail` on, and `head` is the slot behind them.
  pub record Holds (rb : CRingBuffer A) (count : ℕ) : Type 0 where
    pub fits : rb.capacity ≤ length rb.buffer
    pub small : rb.capacity < 2 ^ 64
    pub tail_in : rb.tail < rb.capacity
    pub count_le : count ≤ rb.capacity
    pub head_at : rb.head ≡ (rb.tail + count) % rb.capacity
    pub full_iff : rb.full ≡ (count == rb.capacity)

  abbrev pub contents : A → CRingBuffer A → ℕ → List A
  contents d rb count = window d rb.buffer rb.capacity rb.tail count

  -- A ring set up over `capacity` slots is valid and holds nothing.
  pub cring_init-Holds :
      (storage : List A) (capacity elem_size : ℕ)
      → capacity ≤ length storage
      → 0 < capacity
      → capacity < 2 ^ 64
      → Holds (cring_init storage capacity elem_size) 0
  unfolding cring_init
  cring_init-Holds storage capacity elem_size h pos small =
      ground (arith, round_full 0 capacity pos)

  -- On a valid ring holding `n` elements `cring_push` answers as the bounded queue does, leaves it
  -- holding the queue's elements, and keeps the ring valid.
  pub cring_push-enqueue :
      (d : A) (rb : CRingBuffer A) (n : ℕ) (x : A)
      → Holds rb n
      → let (done, rb') = cring_push rb x in
        let n' = if ltb n rb.capacity then n + 1 else n in
        ((done, contents d rb' n') ≡ enqueue rb.capacity (contents d rb n) x) × Holds rb' n'
  unfolding cring_push enqueue
  cring_push-enqueue d rb n x v = ground (
    arith,
    length-window d rb.buffer rb.capacity rb.tail n,
    length-set rb.buffer rb.head x,
    advance rb.tail n rb.capacity,
    round_eq rb.tail (n + 1) rb.capacity,
    window-set d rb.buffer rb.capacity x n rb.tail rb.head,
  )

  -- On a valid ring `cring_pop` returns the oldest element, or refuses if there is none, leaves
  -- the rest in order, and keeps the ring valid.
  pub cring_pop-dequeue :
      (d : A) (rb : CRingBuffer A) (n : ℕ)
      → Holds rb n
      → let (done, out, rb') = cring_pop rb in
        ((out, contents d rb' (n - 1)) ≡ dequeue (contents d rb n))
        × (done ≡ ltb 0 n)
        × Holds rb' (n - 1)
  unfolding cring_pop dequeue
  cring_pop-dequeue d rb n v = ground (
    arith,
    window_of_ne_zero d rb.buffer rb.capacity rb.tail n,
    get_elem?-eq-get_or rb.buffer rb.tail d,
    round_eq rb.tail n rb.capacity,
    advance_start rb.tail n rb.capacity,
  )
