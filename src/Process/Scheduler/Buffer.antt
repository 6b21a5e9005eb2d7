-- ===== src/Process/Scheduler/Buffer.antt =====
-- The rings of keys and of packets in a process, kernel/process/process.h: `read` and `write` are
-- indices below the capacity, equal when the ring is empty, and a write that would make them equal
-- moves `read` on.
use ionutnechita_redacted_os.Base.{
  ℕ, zero, suc, ◌+◌, ◌-◌, ◌<◌, ◌≡◌, ◌≢◌, refl, ap, true, false, some, List, [], ◌∷◌, ◌++◌, arith,
  length, length-set, set, ◌⊎◌, inl, inr, ◌==◌, ltb, if◌then◌else◌, Bool-cases, get_elem?, ◌∙◌, sym,
  not, drop, length-append,
}

-- Where `i`, at most one lap ahead, lies in the ring.
abbrev pub wrap : ℕ → ℕ → ℕ
wrap n i = if ltb i n then i else i - n

-- The ring holds the elements of `q`, the oldest first.
pub record Buffered {A : Type 0} (n : ℕ) (es : List A) (r w : ℕ) (q : List A) : Type 0 where
  pub read_below : r < n
  pub write_below : w < n
  pub entries_length : length es ≡ n
  pub held_length : (length q + r ≡ w) ⊎ (length q + r ≡ w + n)
  pub held_below : length q < n
  pub held : (k : ℕ) → k < length q → get_elem? q k ≡ get_elem? es (wrap n (r + k))

wrap_below : (n i : ℕ) → i < n → wrap n (i + 1) < n
wrap_below n i h = ground arith

module _ {A : Type 0} where
  pub get_elem?-set_ne :
      (es : List A) (i j : ℕ) (x : A) → i ≢ j → get_elem? (set es i x) j ≡ get_elem? es j
  get_elem?-set_ne [] i j x h = refl
  get_elem?-set_ne (y ∷ es) zero zero x h = absurd (h refl)
  get_elem?-set_ne (y ∷ es) zero (suc j) x h = refl
  get_elem?-set_ne (y ∷ es) (suc i) zero x h = refl
  get_elem?-set_ne (y ∷ es) (suc i) (suc j) x h = get_elem?-set_ne es i j x (λ e. h (ap suc e))

  get_elem?-set_self :
      (es : List A) (i : ℕ) (x : A) → i < length es → get_elem? (set es i x) i ≡ some x
  get_elem?-set_self [] i x h = absurd (omega arith)
  get_elem?-set_self (y ∷ es) zero x h = refl
  get_elem?-set_self (y ∷ es) (suc i) x h = get_elem?-set_self es i x (omega arith)

  get_elem?-snoc :
      (q : List A) (x : A) (k : ℕ) → k < length q → get_elem? (q ++ x ∷ []) k ≡ get_elem? q k
  get_elem?-snoc [] x k h = absurd (omega arith)
  get_elem?-snoc (y ∷ q) x zero h = refl
  get_elem?-snoc (y ∷ q) x (suc k) h = get_elem?-snoc q x k (omega arith)

  get_elem?-snoc_last : (q : List A) (x : A) → get_elem? (q ++ x ∷ []) (length q) ≡ some x
  get_elem?-snoc_last [] x = refl
  get_elem?-snoc_last (y ∷ q) x = get_elem?-snoc_last q x

  -- The queue with `x` at its end, in a ring of `n`: the oldest goes when it is full.
  abbrev pub push_overwriting : ℕ → A → List A → List A
  push_overwriting n x q = if ltb (length q + 1) n then q ++ x ∷ [] else drop 1 (q ++ x ∷ [])

  snoc_cases :
      (q : List A) (x : A) (k : ℕ) → k < length (q ++ x ∷ []) → (k < length q) ⊎ (k ≡ length q)
  snoc_cases q x k h = ground (arith, length-append q (x ∷ []))

  not_written :
      (n : ℕ) (es : List A) (r w : ℕ) (q : List A) (k : ℕ)
      → Buffered n es r w q
      → k < length q
      → w ≢ wrap n (r + k)
  not_written n es r w q k b h e =
      let r_below = b.read_below in
      let w_below = b.write_below in
      let q_below = b.held_below in
      elim b.held_length [ inl flat ↦ ground arith | inr lap ↦ ground arith ]

  next_written :
      (n : ℕ) (es : List A) (r w : ℕ) (q : List A) → Buffered n es r w q → w ≡ wrap n (r + length q)
  next_written n es r w q b =
      let r_below = b.read_below in
      let w_below = b.write_below in
      elim b.held_length [ inl flat ↦ ground arith | inr lap ↦ ground arith ]

  pushed :
      (n : ℕ) (es : List A) (r w : ℕ) (q : List A) (x : A)
      → Buffered n es r w q
      → (k : ℕ) → k < length (q ++ x ∷ [])
      → get_elem? (q ++ x ∷ []) k ≡ get_elem? (set es w x) (wrap n (r + k))
  pushed n es r w q x b k h = elim (snoc_cases q x k h) [
    | inl old ↦
        get_elem?-snoc q x k old
        ∙ b.held k old
        ∙ sym (get_elem?-set_ne es w (wrap n (r + k)) x (not_written n es r w q k b old))
    | inr last ↦
        let there : w ≡ wrap n (r + k) =
          (next_written n es r w q b ∙ ap (λ (j : ℕ). wrap n (r + j)) (sym last)) in
        let below = b.write_below in
        let full = b.entries_length in
        ap (get_elem? (q ++ x ∷ [])) last
        ∙ get_elem?-snoc_last q x
        ∙ sym (get_elem?-set_self es w x (omega (arith, full)))
        ∙ ap (get_elem? (set es w x)) there
  ]

  length_pushed :
      (n : ℕ) (es : List A) (r w : ℕ) (q : List A) (x : A)
      → Buffered n es r w q
      → (length (q ++ x ∷ []) + r ≡ wrap n (w + 1))
        ⊎ (length (q ++ x ∷ []) + r ≡ wrap n (w + 1) + n)
  length_pushed n es r w q x b =
      let r_below = b.read_below in
      let w_below = b.write_below in
      let q_below = b.held_below in
      let longer : length (q ++ x ∷ []) ≡ length q + 1 = (length-append q (x ∷ [])) in
      elim b.held_length [
        | inl flat ↦ rw longer (ground arith)
        | inr lap ↦ rw longer (ground arith)
      ]

  -- A write into a ring with room.
  pub Buffered-push :
      (n : ℕ) (es : List A) (r w : ℕ) (q : List A) (x : A)
      → Buffered n es r w q
      → length q + 1 < n
      → Buffered n (set es w x) r (wrap n (w + 1)) (q ++ x ∷ [])
  Buffered-push n es r w q x b room = record {
    read_below = b.read_below;
    write_below = wrap_below n w b.write_below;
    entries_length = length-set es w x ∙ b.entries_length;
    held_length = length_pushed n es r w q x b;
    held_below = omega (arith, length-append q (x ∷ []));
    held = pushed n es r w q x b;
  }

  -- The oldest element leaves.
  pub Buffered-pop :
      (n : ℕ) (es : List A) (r w : ℕ) (x : A) (q : List A)
      → Buffered n es r w (x ∷ q)
      → Buffered n es (wrap n (r + 1)) w q
  Buffered-pop n es r w x q b =
      let r_below = b.read_below in
      let q_below = b.held_below in
      let w_below = b.write_below in
      record {
        read_below = wrap_below n r b.read_below;
        write_below = b.write_below;
        entries_length = b.entries_length;
        held_length = elim b.held_length [ inl flat ↦ ground arith | inr lap ↦ ground arith ];
        held_below = omega arith;
        held = λ k h. b.held (suc k) (omega arith) ∙ ap (get_elem? es) (ground arith);
      }

  meets :
      (n : ℕ) (es : List A) (r w : ℕ) (q : List A)
      → Buffered n es r w q
      → (wrap n (w + 1) == r) ≡ not (ltb (length q + 1) n)
  meets n es r w q b =
      let r_below = b.read_below in
      let q_below = b.held_below in
      let w_below = b.write_below in
      elim b.held_length [ inl flat ↦ ground arith | inr lap ↦ ground arith ]

  overwritten :
      (n : ℕ) (es : List A) (r w : ℕ) (q : List A) (x : A)
      → 1 < n
      → Buffered n es r w q
      → ltb (length q + 1) n ≡ false
      → Buffered n
          (set es w x)
          (if wrap n (w + 1) == r then wrap n (r + 1) else r)
          (wrap n (w + 1))
          (push_overwriting n x q)
  overwritten n es r w [] x two b full = absurd (ground arith)
  overwritten n es r w (y ∷ q) x two b full =
      let below = b.held_below in
      rw (meets n es r w (y ∷ q) b, full)
        (Buffered-push n es (wrap n (r + 1)) w q x (Buffered-pop n es r w y q b) (omega arith))

  -- A write into any ring.
  pub Buffered-push_overwriting :
      (n : ℕ) (es : List A) (r w : ℕ) (q : List A) (x : A)
      → 1 < n
      → Buffered n es r w q
      → Buffered n
          (set es w x)
          (if wrap n (w + 1) == r then wrap n (r + 1) else r)
          (wrap n (w + 1))
          (push_overwriting n x q)
  Buffered-push_overwriting n es r w q x two b = elim (Bool-cases (ltb (length q + 1) n)) [
    | inl room ↦ rw (meets n es r w q b, room) (Buffered-push n es r w q x b (ground arith))
    | inr full ↦ overwritten n es r w q x two b full
  ]

  -- An empty ring is one whose indices are equal.
  pub Buffered-empty : (n : ℕ) (es : List A) (r w : ℕ) → Buffered n es r w [] → (r == w) ≡ true
  Buffered-empty n es r w b =
      let r_below = b.read_below in
      let w_below = b.write_below in
      elim b.held_length [ inl flat ↦ ground arith | inr lap ↦ absurd (omega arith) ]

  -- The oldest element is the one at `read`.
  pub Buffered-oldest :
      (n : ℕ) (es : List A) (r w : ℕ) (x : A) (q : List A)
      → Buffered n es r w (x ∷ q)
      → ((r == w) ≡ false) × (get_elem? es r ≡ some x)
  Buffered-oldest n es r w x q b =
      let r_below = b.read_below in
      let w_below = b.write_below in
      let q_below = b.held_below in
      (
        elim b.held_length [ inl flat ↦ ground arith | inr lap ↦ ground arith ],
        ap (get_elem? es) (ground arith) ∙ sym (b.held 0 (omega arith)),
      )
