-- ===== src/DataStruct/Queue/Refine.antt =====
-- A queue with storage holds a sequence, and its operations are those of the abstract queue.
use native.Mathlib.Nat.{mod-eq_of_lt, mod-lt}
use ionutnechita_redacted_os.Base.{
  ℕ, ◌+◌, ◌-◌, ◌*◌, ◌%◌, ◌^◌, ◌≤◌, ◌<◌, ◌≡◌, refl, ap, true, Option, some, List, [], ◌∷◌, ◌++◌,
  arith, length, length-set, get_or, set, get_elem?-eq-get_or, inl, inr, ◌==◌, ltb, u64, Bool-cases,
  lt→ltb, ltb→lt, store?-eq-set, ◌∙◌,
}
use ionutnechita_redacted_os.DataStruct.Fifo.{
  enqueue, dequeue, window, length-window, window_of_zero, window_of_ne_zero, window-set, advance,
  advance_start,
}
use ionutnechita_redacted_os.DataStruct.Queue.{
  CQueue, give_back, append, grow, cqueue_enqueue, cqueue_dequeue,
}
use ionutnechita_redacted_os.DataStruct.Queue.Grow.{window_ext, Copied, copy_loop-Copied}

module _ {A : Type 0} where
  -- The queue has the storage `buf`, and `length` elements lie in it from `tail` on.
  pub record Stored (q : CQueue A) (buf : List A) : Type 0 where
    pub storage : q.buffer ≡ some buf
    pub fits : q.capacity ≤ length buf
    pub small : q.capacity < 2 ^ 62
    pub tail_in : q.tail < q.capacity
    pub length_le : q.length ≤ q.capacity
    pub head_at : q.head ≡ (q.tail + q.length) % q.capacity

  abbrev pub contents : A → CQueue A → List A → List A
  contents d q buf = window d buf q.capacity q.tail q.length

  -- A store at the free slot adds the element at the end.
  abbrev pub Appended : A → CQueue A → List A → A → CQueue A → Type 0
  Appended d q buf x q' =
      (buf' : List A) × Stored q' buf'
      × (contents d q' buf' ≡ contents d q buf ++ (x ∷ []))
      × (q'.capacity ≡ q.capacity)

  append-Appended :
      (d : A) (q : CQueue A) (buf : List A) (x : A)
      → Stored q buf
      → q.length < q.capacity
      → (q' : CQueue A) × (append q x ≡ some (true, q')) × Appended d q buf x q'
  unfolding append
  append-Appended d q buf x v room =
      let q' : CQueue A = record q {
        buffer = some (set buf q.head x);
        head = u64 (q.head + 1) % q.capacity;
        length = u64 (q.length + 1);
      } in
      let at : q.head < length buf = omega (
        arith,
        v.head_at,
        v.fits,
        mod-lt (q.tail + q.length) {m = q.capacity} (omega (arith, v.tail_in)),
      ) in
      (
        q',
        rw (v.storage, store?-eq-set buf q.head x at),
        (
          set buf q.head x,
          record {
            storage = refl;
            fits = rw length-set v.fits;
            small = v.small;
            tail_in = v.tail_in;
            length_le = ground arith;
            head_at = ground (arith, advance q.tail q.length q.capacity);
          },
          ground (arith, window-set d buf q.capacity x q.length q.tail q.head),
          refl,
        ),
      )

  -- A bounded queue with storage: `cqueue_enqueue` answers as the abstract queue of its capacity
  -- does, leaves the abstract queue's elements in order, and keeps the queue well formed.
  pub cqueue_enqueue-bounded :
      (malloc : ℕ → Option (List A)) (d : A) (q : CQueue A) (buf : List A) (x : A)
      → Stored q buf
      → 0 < q.max_capacity
      → (q' : CQueue A) × (buf' : List A) × (cqueue_enqueue malloc q x
          ≡ some (ltb q.length q.capacity, q'))
        × (contents d q' buf' ≡ (enqueue q.capacity (contents d q buf) x).1)
        × Stored q' buf'
  unfolding cqueue_enqueue enqueue
  cqueue_enqueue-bounded malloc d q buf x v bounded = elim (Bool-cases (ltb q.length q.capacity)) [
    | inl room ↦
        let (q', e, a) = append-Appended d q buf x v (ltb→lt q.length q.capacity room) in
        (
          q',
          a.0,
          rw (room, lt→ltb 0 q.max_capacity bounded) (ground arith),
          rw (length-window d buf q.capacity q.tail q.length, room) a.2,
          a.1,
        )
    | inr no_room ↦
        (q, buf, ground arith, ground (arith, length-window d buf q.capacity q.tail q.length), v)
  ]

  -- The move to a larger buffer keeps the elements in order, and starts them at slot 0.
  grow-Stored :
      (malloc : ℕ → Option (List A)) (d : A) (q : CQueue A) (buf newb : List A)
      → Stored q buf
      → q.length ≡ q.capacity
      → q.capacity < 2 ^ 61
      → malloc (u64 (u64 (q.capacity * 2) * q.elem_size)) ≡ some newb
      → q.capacity * 2 ≤ length newb
      → Copied d q buf newb q.length 0
      → (q' : CQueue A) × (buf' : List A) × (grow malloc q ≡ some (true, q'))
        × Stored q' buf'
        × (q'.length ≡ q.length)
        × (q'.capacity ≡ q.capacity * 2)
        × (contents d q' buf' ≡ contents d q buf)
  unfolding grow
  grow-Stored malloc d q buf newb v full bound got room c =
      let nc : u64 (q.capacity * 2) ≡ q.capacity * 2 = omega arith in
      (
        record q {
          buffer = some c.out;
          capacity = u64 (q.capacity * 2);
          head = q.length;
          tail = 0;
          freed = give_back q;
        },
        c.out,
        ground (arith, c.returns, v.tail_in),
        record {
          storage = refl;
          fits = rw nc (rw c.same_length room);
          small = omega arith;
          tail_in = omega (arith, v.tail_in);
          length_le = omega arith;
          head_at = ground (arith, mod-eq_of_lt {n = q.length} {m = q.capacity * 2});
        },
        refl,
        nc,
        window_ext d c.out buf (u64 (q.capacity * 2)) q.capacity 0 q.tail q.length
            (omega (arith, v.tail_in)) v.tail_in
            λ j hj.
              ap (λ (k : ℕ). get_or c.out k d) (aligned j (omega (arith, v.tail_in)) nc)
              ∙ c.filled j (omega arith) (omega arith),
      )
    where
      aligned :
          (j : ℕ)
          → j < q.capacity * 2
          → u64 (q.capacity * 2) ≡ q.capacity * 2
          → (0 + j) % u64 (q.capacity * 2) ≡ j
      aligned j h e =
          rw e (
            ap (λ (t : ℕ). t % (q.capacity * 2)) {x = 0 + j} {y = j} (omega arith) ∙ mod-eq_of_lt h)

  -- An unbounded queue with storage never refuses: `cqueue_enqueue` adds the element at the end and
  -- keeps the queue well formed, where the allocator has storage for the doubled capacity.
  pub cqueue_enqueue-unbounded :
      (malloc : ℕ → Option (List A)) (d : A) (q : CQueue A) (buf newb : List A) (x : A)
      → Stored q buf
      → q.max_capacity ≡ 0
      → q.capacity < 2 ^ 61
      → malloc (u64 (u64 (q.capacity * 2) * q.elem_size)) ≡ some newb
      → q.capacity * 2 ≤ length newb
      → (q' : CQueue A) × (buf' : List A) × (cqueue_enqueue malloc q x ≡ some (true, q'))
        × (contents d q' buf' ≡ contents d q buf ++ (x ∷ []))
        × Stored q' buf'
  unfolding cqueue_enqueue
  cqueue_enqueue-unbounded malloc d q buf newb x v unbounded bound got room =
      elim (Bool-cases (q.length == q.capacity)) [
        | inl full ↦
            let e : q.length ≡ q.capacity = ground arith in
            let (q', buf', grown, v', same_length, doubled, kept) =
              grow-Stored malloc d q buf newb v e bound got room (
                copy_loop-Copied d q buf newb q.length 0 v.storage (omega (arith, v.tail_in)) v.fits
                  (omega (arith, v.tail_in)) (omega arith)) in
            let (q'', e', a) = append-Appended d q' buf' x v' (omega (arith, v.tail_in)) in
            (q'', a.0, ground (arith, e'), a.2 ∙ ap (λ (l : List A). l ++ (x ∷ [])) kept, a.1)
        | inr more ↦
            let (q', e, a) = append-Appended d q buf x v (ground (arith, v.length_le)) in
            (q', a.0, ground arith, a.2, a.1)
      ]

  -- A queue with storage hands out its oldest element, or refuses if there is none; the rest stay
  -- in order, and the queue stays well formed.
  pub cqueue_dequeue-dequeue :
      (d : A) (q : CQueue A) (buf : List A)
      → Stored q buf
      → (q' : CQueue A) × (cqueue_dequeue q
          ≡ some (ltb 0 q.length, (dequeue (contents d q buf)).0, q'))
        × (contents d q' buf ≡ (dequeue (contents d q buf)).1)
        × Stored q' buf
  unfolding cqueue_dequeue dequeue
  cqueue_dequeue-dequeue d q buf v = elim (Bool-cases (q.length == 0)) [
    | inl empty ↦ (
      q,
      ground (arith, window_of_zero d buf q.capacity q.tail q.length),
      ground (arith, window_of_zero d buf q.capacity q.tail q.length),
      v,
    )
    | inr more ↦ (
      record q { tail = u64 (q.tail + 1) % q.capacity; length = q.length - 1 },
      ground (
        arith,
        v.storage,
        window_of_ne_zero d buf q.capacity q.tail q.length,
        get_elem?-eq-get_or buf q.tail d,
      ),
      ground (arith, v.small, v.tail_in, window_of_ne_zero d buf q.capacity q.tail q.length),
      ground (arith, v, advance_start q.tail q.length q.capacity),
    )
  ]
