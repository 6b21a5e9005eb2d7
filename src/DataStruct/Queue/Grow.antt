-- ===== src/DataStruct/Queue/Grow.antt =====
-- The copy loop that moves a full circular buffer to a larger one.
use native.Mathlib.Nat.{mod-add-mod, mod-eq_of_lt, mod-lt}
use ionutnechita_redacted_os.Base.{
  ℕ, zero, suc, ◌+◌, ◌%◌, ◌^◌, ◌≤◌, ◌<◌, ◌≡◌, refl, ap, some, List, ◌∷◌, arith, length, length-set,
  get_or, set, get_elem?-eq-get_or, u64, store?-eq-set, get_or-set_self, get_or-set_ne, ◌∙◌, sym,
  ap₂,
}
use ionutnechita_redacted_os.DataStruct.Fifo.{window}
use ionutnechita_redacted_os.DataStruct.Queue.{CQueue, copy_loop}

module _ {A : Type 0} where
  -- Two windows with equal elements are equal.
  pub window_ext :
      (d : A) (buf buf' : List A) (c c' i i' n : ℕ)
      → i < c
      → i' < c'
      → ((j : ℕ) → j < n → get_or buf ((i + j) % c) d ≡ get_or buf' ((i' + j) % c') d)
      → window d buf c i n ≡ window d buf' c' i' n
  window_ext d buf buf' c c' i i' zero hi hi' h = refl
  window_ext d buf buf' c c' i i' (suc n) hi hi' h = ap₂ ◌∷◌ (start (h 0 (omega arith))) (
      window_ext d buf buf' c c' ((i + 1) % c) ((i' + 1) % c') n (mod-lt (i + 1) (omega arith))
        (mod-lt (i' + 1) (omega arith))
        λ j hj. rw (mod-add-mod, mod-add-mod) (shift j (h (suc j) (omega arith))))
    where
      start :
          get_or buf ((i + 0) % c) d ≡ get_or buf' ((i' + 0) % c') d
          → get_or buf i d ≡ get_or buf' i' d
      start e =
          ap (λ (k : ℕ). get_or buf k d)
            (sym (ap (λ (t : ℕ). t % c) {x = i + 0} {y = i} (omega arith) ∙ mod-eq_of_lt hi))
          ∙ e
          ∙ ap (λ (k : ℕ). get_or buf' k d)
              (ap (λ (t : ℕ). t % c') {x = i' + 0} {y = i'} (omega arith) ∙ mod-eq_of_lt hi')

      shift :
          (j : ℕ)
          → get_or buf ((i + suc j) % c) d ≡ get_or buf' ((i' + suc j) % c') d
          → get_or buf ((i + 1 + j) % c) d ≡ get_or buf' ((i' + 1 + j) % c') d
      shift j e =
          ap (λ (k : ℕ). get_or buf (k % c) d) {x = i + 1 + j} {y = i + suc j} (omega arith)
          ∙ e
          ∙ ap (λ (k : ℕ). get_or buf' (k % c') d) {x = i' + suc j} {y = i' + 1 + j} (omega arith)

  -- What the loop leaves: the slots before round `i` untouched, those of its rounds filled.
  pub record Copied (d : A) (q : CQueue A) (buf newb : List A) (rounds i : ℕ) : Type 0 where
    pub out : List A
    pub returns : copy_loop q newb rounds i ≡ some out
    pub same_length : length out ≡ length newb
    pub before : (j : ℕ) → j < i → get_or out j d ≡ get_or newb j d
    pub filled :
        (j : ℕ) → i ≤ j → j < i + rounds → get_or out j d ≡ get_or buf ((q.tail + j) % q.capacity) d

  copy_loop-suc :
      (d : A) (q : CQueue A) (buf newb : List A) (rounds i : ℕ)
      → q.buffer ≡ some buf
      → u64 (q.tail + i) % q.capacity < length buf
      → i < length newb
      → copy_loop q newb (suc rounds) i
        ≡ copy_loop q (set newb i (get_or buf (u64 (q.tail + i) % q.capacity) d)) rounds (i + 1)
  unfolding copy_loop
  copy_loop-suc d q buf newb rounds i b h room = ground (
    arith,
    get_elem?-eq-get_or buf (u64 (q.tail + i) % q.capacity) d,
    store?-eq-set newb i (get_or buf (u64 (q.tail + i) % q.capacity) d),
  )

  pub copy_loop-Copied :
      (d : A) (q : CQueue A) (buf newb : List A) (rounds i : ℕ)
      → q.buffer ≡ some buf
      → 0 < q.capacity
      → q.capacity ≤ length buf
      → q.tail + (i + rounds) < 2 ^ 64
      → i + rounds ≤ length newb
      → Copied d q buf newb rounds i
  copy_loop-Copied d q buf newb zero i b pos fits small room = record {
    out = newb;
    returns = unfold copy_loop in refl;
    same_length = refl;
    before = λ j h. refl;
    filled = λ j h h'. absurd (omega arith);
  }
  copy_loop-Copied d q buf newb (suc rounds) i b pos fits small room =
      let at : ℕ = u64 (q.tail + i) % q.capacity in
      let in_range : at < length buf = omega (arith, mod-lt (u64 (q.tail + i)) pos) in
      let x : A = get_or buf at d in
      let rest =
        copy_loop-Copied d q buf (set newb i x) rounds (i + 1) b pos fits (omega arith)
          (omega (arith, length-set {0} newb i x)) in
      record {
        out = rest.out;
        returns = rw (copy_loop-suc d q buf newb rounds i b in_range (omega arith)) rest.returns;
        same_length = rest.same_length ∙ length-set newb i x;
        before = λ j h. rest.before j (omega arith) ∙ get_or-set_ne newb i j x d (omega arith);
        filled = λ j h h'. ground (
          arith,
          rest.before j,
          rest.filled j,
          get_or-set_self newb i x d,
          get_or-set_ne newb i j x d,
        );
      }
