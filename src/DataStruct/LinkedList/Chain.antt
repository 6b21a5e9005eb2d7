-- ===== src/DataStruct/LinkedList/Chain.antt =====
-- The chain of nodes of shared/data_struct/linked_list.c as a sequence.
use ionutnechita_redacted_os.Base.{
  ℕ, zero, suc, ◌+◌, ◌^◌, ◌<◌, ◌≡◌, ◌≢◌, refl, ap, Bool, Option, none, some, List, [], ◌∷◌, arith,
  length, ◌==◌, if◌then◌else◌, u64, sub64, ◌∙◌,
}
use ionutnechita_redacted_os.Base.{==_of_ne, ==_refl}
use ionutnechita_redacted_os.DataStruct.LinkedList.{
  Node, CLinkedList, Heap, node, put, clinkedlist_push_front, clinkedlist_pop_front, find_loop,
  clinkedlist_find, for_each_loop, clinkedlist_for_each,
}

-- The address and the data of each node, in order.
abbrev pub Cells : Type 0
Cells = List (ℕ × ℕ)

abbrev pub head_of : Cells → ℕ
head_of [] = 0
head_of ((a, d) ∷ xs) = a

abbrev pub tail_of : Cells → ℕ
tail_of [] = 0
tail_of ((a, d) ∷ []) = a
tail_of ((a, d) ∷ x ∷ xs) = tail_of (x ∷ xs)

-- No node lies at the address.
abbrev pub Fresh : ℕ → Cells → Type 0
Fresh a [] = Unit {0}
Fresh a ((b, d) ∷ xs) = (b ≢ a) × Fresh a xs

-- Every node points to the one behind it, and no two share an address.
abbrev pub IsChain : Heap → Cells → Type 0
IsChain h [] = Unit {0}
IsChain h ((a, d) ∷ xs) = (a ≢ 0) × (h a ≡ some (node d (head_of xs))) × Fresh a xs × IsChain h xs

pub record IsList (h : Heap) (l : CLinkedList) (xs : Cells) : Type 0 where
  pub chain : IsChain h xs
  pub head_at : l.head ≡ head_of xs
  pub tail_at : l.tail ≡ tail_of xs
  pub counted : l.length ≡ length xs
  pub small : length xs < 2 ^ 64

-- A change where no node of the chain lies keeps the chain.
IsChain-put :
    (h : Heap) (xs : Cells) (p : ℕ) (v : Option Node)
    → IsChain h xs
    → Fresh p xs
    → IsChain (put p v h) xs
IsChain-put h [] p v c f = c
IsChain-put h ((a, d) ∷ xs) p v (nz, at, fr, c) (ne, f) =
    (nz, rw (==_of_ne a p ne) at, fr, IsChain-put h xs p v c f)

tail_of_ne_zero : (h : Heap) (x : ℕ × ℕ) (xs : Cells) → IsChain h (x ∷ xs) → tail_of (x ∷ xs) ≢ 0
tail_of_ne_zero h (a, d) [] (nz, at, fr, c) = nz
tail_of_ne_zero h (a, d) (y ∷ xs) (nz, at, fr, c) = tail_of_ne_zero h y xs c

pushed_tail :
    (h : Heap) (xs : Cells) (t raw d : ℕ)
    → IsChain h xs
    → t ≡ tail_of xs
    → (if t == 0 then raw else t) ≡ tail_of ((raw, d) ∷ xs)
pushed_tail h [] t raw d c e = ground arith
pushed_tail h (x ∷ xs) t raw d c e = ground (arith, tail_of_ne_zero h x xs c)

popped_tail :
    (h : Heap) (xs : Cells) (t a d : ℕ)
    → IsChain h xs
    → t ≡ tail_of ((a, d) ∷ xs)
    → (if head_of xs == 0 then 0 else t) ≡ tail_of xs
popped_tail h [] t a d c e = refl
popped_tail h ((b, x) ∷ xs) t a d (nz, at, fr, c) e = rw (==_of_ne b 0 nz) e

-- At a fresh address `clinkedlist_push_front` puts a node before the others, and the fields of the
-- list fit the longer chain.
pub clinkedlist_push_front-IsList :
    (raw d : ℕ) (l : CLinkedList) (h : Heap) (xs : Cells)
    → IsList h l xs
    → raw ≢ 0
    → Fresh raw xs
    → length xs + 1 < 2 ^ 64
    → (l' : CLinkedList) × (h' : Heap) × (clinkedlist_push_front raw d l h ≡ some (l', h'))
      × IsList h' l' ((raw, d) ∷ xs)
unfolding clinkedlist_push_front
clinkedlist_push_front-IsList raw d l h xs v nz f small = (
  record l { head = raw; tail = if l.tail == 0 then raw else l.tail; length = u64 (l.length + 1) },
  put raw (some (node d l.head)) h,
  rw (==_of_ne raw 0 nz) refl,
  record {
    chain = (
      nz,
      rw (==_refl raw, v.head_at) refl,
      f,
      IsChain-put h xs raw (some (node d l.head)) v.chain f,
    );
    head_at = refl;
    tail_at = pushed_tail h xs l.tail raw d v.chain v.tail_at;
    counted = omega (arith, v.counted);
    small = omega arith;
  },
)

-- `clinkedlist_pop_front` returns the data of the first node and leaves a list of the others.
pub clinkedlist_pop_front-IsList :
    (l : CLinkedList) (h : Heap) (a d : ℕ) (xs : Cells)
    → IsList h l ((a, d) ∷ xs)
    → (l' : CLinkedList) × (h' : Heap) × (clinkedlist_pop_front l h ≡ some (d, l', h'))
      × IsList h' l' xs
      × (h' a ≡ none)
unfolding clinkedlist_pop_front
clinkedlist_pop_front-IsList l h a d xs v =
    let (nz, at, fr, c) = v.chain in
    (
      record l {
        head = head_of xs;
        tail = if head_of xs == 0 then 0 else l.tail;
        length = sub64 l.length 1;
      },
      put a none h,
      rw (v.head_at, ==_of_ne a 0 nz, at) refl,
      record {
        chain = IsChain-put h xs a none c fr;
        head_at = refl;
        tail_at = popped_tail h xs l.tail a d c v.tail_at;
        counted = omega (arith, v.counted, v.small);
        small = omega (arith, v.small);
      },
      rw (==_refl a) refl,
    )

-- The address of the first node whose data passes the test, or 0.
pub first : (ℕ → Bool) → Cells → ℕ
first same [] = 0
first same ((a, d) ∷ xs) = if same d then a else first same xs

find_loop-first :
    (same : ℕ → Bool) (h : Heap) (xs : Cells) (fuel : ℕ)
    → IsChain h xs
    → length xs < fuel
    → find_loop fuel same (head_of xs) h ≡ some (first same xs)
unfolding find_loop first
find_loop-first same h xs zero c lt = absurd (omega arith)
find_loop-first same h [] (suc fuel) c lt = refl
find_loop-first same h ((a, d) ∷ xs) (suc fuel) (nz, at, fr, c) lt =
    ground (arith, find_loop-first same h xs fuel c (omega arith))

pub data_of : Cells → List ℕ
data_of [] = []
data_of ((a, d) ∷ xs) = d ∷ data_of xs

for_each_loop-data_of :
    (h : Heap) (xs : Cells) (fuel : ℕ)
    → IsChain h xs
    → length xs < fuel
    → for_each_loop fuel (head_of xs) h ≡ some (data_of xs)
unfolding for_each_loop data_of
for_each_loop-data_of h xs zero c lt = absurd (omega arith)
for_each_loop-data_of h [] (suc fuel) c lt = refl
for_each_loop-data_of h ((a, d) ∷ xs) (suc fuel) (nz, at, fr, c) lt =
    ground (arith, for_each_loop-data_of h xs fuel c (omega arith))

-- With more fuel than nodes `clinkedlist_find` answers the first node that passes the test, or
-- NULL if there is none, and `clinkedlist_for_each` calls its function on every node's data in order.
pub clinkedlist_find-first :
    (same : ℕ → Bool) (l : CLinkedList) (h : Heap) (xs : Cells) (fuel : ℕ)
    → IsList h l xs
    → length xs < fuel
    → (clinkedlist_find fuel same l h ≡ some (first same xs))
      × (clinkedlist_for_each fuel l h ≡ some (data_of xs))
unfolding clinkedlist_find clinkedlist_for_each
clinkedlist_find-first same l h xs fuel v lt = (
  ap (λ (p : ℕ). find_loop fuel same p h) v.head_at ∙ find_loop-first same h xs fuel v.chain lt,
  ap (λ (p : ℕ). for_each_loop fuel p h) v.head_at ∙ for_each_loop-data_of h xs fuel v.chain lt,
)
