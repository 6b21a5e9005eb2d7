-- ===== src/Memory/Region.antt =====
-- Regions of memory, and the bytes in them. Memory is a function from addresses to bytes.
use mathlib.Core.Path.{subst}
use mathlib.Core.Option.{some-injective}
use ionutnechita_redacted_os.Base.{
  ℕ, ◌+◌, ◌-◌, ◌*◌, ◌/◌, ◌%◌, ◌^◌, ◌<◌, refl, ap, true, false, ◌∙◌, ltb, ◌≤◌, ◌≡◌, Option, none,
  some, List, [], ◌∷◌, arith, ◌⊎◌, inl, inr, leb, if◌then◌else◌, Bool-cases, Option-cases, leb→le,
  ◌&&◌,
}

-- `FreeBlock`: the block's address is where it lies, and the `next` pointers are the list's order.
pub record Region : Type 0 where
  pub addr : ℕ
  pub size : ℕ

abbrev pub region : ℕ → ℕ → Region
region a n = record { addr = a; size = n }

-- `memset(addr, 0, size)` on memory; Std.Mem has the loop itself.
abbrev pub clear : (ℕ → ℕ) → ℕ → ℕ → ℕ → ℕ
clear mem addr size a = if leb addr a && ltb a (addr + size) then 0 else mem a

-- A `uint64_t` is written to memory.
abbrev pub write64 : (ℕ → ℕ) → ℕ → ℕ → ℕ → ℕ
write64 mem addr value a =
    if leb addr a && ltb a (addr + 8) then value / 2 ^ (8 * (a - addr)) % 2 ^ 8 else mem a

-- A `FreeBlock*` to the first block of a list.
abbrev pub head_address : List Region → ℕ
head_address [] = 0
head_address (b ∷ bs) = b.addr

-- `block->size = size; block->next = next;`
abbrev pub write_header : (ℕ → ℕ) → ℕ → ℕ → ℕ → ℕ → ℕ
write_header mem addr size next = write64 (write64 mem addr size) (addr + 8) next

-- `*curr = (*curr)->next` writes the `next` of the block before the one that is taken; where the
-- first block is taken, it writes a variable. `prev` is the block before the list.
unfoldable pub unlinked_after : ℕ → Region → List Region → (ℕ → ℕ) → ℕ → ℕ
unlinked_after size prev [] mem = mem
unlinked_after size prev (b ∷ bs) mem =
    if leb size b.size
    then write64 mem (prev.addr + 8) (head_address bs)
    else unlinked_after size b bs mem

unfoldable pub unlinked : ℕ → List Region → (ℕ → ℕ) → ℕ → ℕ
unlinked size [] mem = mem
unlinked size (b ∷ bs) mem = if leb size b.size then mem else unlinked_after size b bs mem

-- The first block that is large enough, and the list without it.
unfoldable pub first_fit : ℕ → List Region → Option (Region × List Region)
first_fit size [] = none
first_fit size (b ∷ bs) =
    let rest = first_fit size bs in
    if leb size b.size
    then some (b, bs)
    else elim rest [ none ↦ none | some (c, cs) ↦ some (c, b ∷ cs) ]

-- No byte in common.
abbrev pub Apart : Region → Region → Type 0
Apart r s = (r.addr + r.size ≤ s.addr) ⊎ (s.addr + s.size ≤ r.addr)

abbrev pub AllApart : Region → List Region → Type 0
AllApart r [] = Unit {0}
AllApart r (s ∷ ss) = Apart r s × AllApart r ss

-- No two regions of the list have a byte in common.
abbrev pub Separate : List Region → Type 0
Separate [] = Unit {0}
Separate (r ∷ rs) = AllApart r rs × Separate rs

-- No region of the one list has a byte in common with a region of the other.
abbrev pub Cross : List Region → List Region → Type 0
Cross [] ss = Unit {0}
Cross (r ∷ rs) ss = AllApart r ss × Cross rs ss

-- All regions end at `limit` at the latest.
abbrev pub Below : ℕ → List Region → Type 0
Below limit [] = Unit {0}
Below limit (r ∷ rs) = (r.addr + r.size ≤ limit) × Below limit rs

-- All regions have room for the header of a free block.
abbrev pub AllLarge : List Region → Type 0
AllLarge [] = Unit {0}
AllLarge (r ∷ rs) = (16 ≤ r.size) × AllLarge rs

-- The address lies in none of the regions.
abbrev pub Outside : ℕ → List Region → Type 0
Outside a [] = Unit {0}
Outside a (r ∷ rs) = ((a < r.addr) ⊎ (r.addr + r.size ≤ a)) × Outside a rs

-- What `first_fit` takes is large enough, and what it leaves is the list without it.
pub record Fit (size : ℕ) (bs : List Region) (b : Region) (rest : List Region) : Type 0 where
  pub large : size ≤ b.size
  pub apart : (r : Region) → AllApart r bs → Apart r b × AllApart r rest
  pub separate : Separate bs → AllApart b rest × Separate rest
  pub cross : (ss : List Region) → Cross bs ss → AllApart b ss × Cross rest ss
  pub below : (limit : ℕ) → Below limit bs → (b.addr + b.size ≤ limit) × Below limit rest
  pub kept_large : AllLarge bs → AllLarge rest
  pub same_after :
      (prev : Region) (mem : ℕ → ℕ) (a : ℕ)
      → 16 ≤ prev.size
      → AllLarge bs
      → Outside a (prev ∷ rest)
      → unlinked_after size prev bs mem a ≡ mem a
  pub same : (mem : ℕ → ℕ) (a : ℕ) → AllLarge bs → Outside a rest → unlinked size bs mem a ≡ mem a

pub write64-field :
    (mem : ℕ → ℕ) (at v i : ℕ) → i < 8 → write64 mem at v (at + i) ≡ v / 2 ^ (8 * i) % 2 ^ 8
write64-field mem at v i h =
    let inside : (leb at (at + i) && ltb (at + i) (at + 8)) ≡ true = (ground arith) in
    let same : at + i - at ≡ i = omega arith in
    rw inside (ap (λ (n : ℕ). v / 2 ^ (8 * n) % 2 ^ 8) same)

pub write64-outside :
    (mem : ℕ → ℕ) (at v a : ℕ) → (a < at) ⊎ (at + 8 ≤ a) → write64 mem at v a ≡ mem a
write64-outside mem at v a (inl before) = ground arith
write64-outside mem at v a (inr behind) = ground arith

not_in_next :
    (prev : Region) (mem : ℕ → ℕ) (a v : ℕ)
    → 16 ≤ prev.size
    → (a < prev.addr) ⊎ (prev.addr + prev.size ≤ a)
    → write64 mem (prev.addr + 8) v a ≡ mem a
not_in_next prev mem a v large (inl before) = ground arith
not_in_next prev mem a v large (inr behind) = ground arith

after_here :
    (size : ℕ) (prev b : Region) (bs : List Region) (mem : ℕ → ℕ) (a : ℕ)
    → leb size b.size ≡ true
    → 16 ≤ prev.size
    → (a < prev.addr) ⊎ (prev.addr + prev.size ≤ a)
    → unlinked_after size prev (b ∷ bs) mem a ≡ mem a
unfolding unlinked_after
after_here size prev b bs mem a fits large out =
    rw fits (not_in_next prev mem a (head_address bs) large out)

after_later :
    (size : ℕ) (prev b : Region) (bs : List Region) (mem : ℕ → ℕ) (a : ℕ)
    → leb size b.size ≡ false
    → unlinked_after size prev (b ∷ bs) mem a ≡ unlinked_after size b bs mem a
unfolding unlinked_after
after_later size prev b bs mem a later = rw later refl

head_here :
    (size : ℕ) (b : Region) (bs : List Region) (mem : ℕ → ℕ) (a : ℕ)
    → leb size b.size ≡ true
    → unlinked size (b ∷ bs) mem a ≡ mem a
unfolding unlinked
head_here size b bs mem a fits = rw fits refl

head_later :
    (size : ℕ) (b : Region) (bs : List Region) (mem : ℕ → ℕ) (a : ℕ)
    → leb size b.size ≡ false
    → unlinked size (b ∷ bs) mem a ≡ unlinked_after size b bs mem a
unfolding unlinked
head_later size b bs mem a later = rw later refl

pub Apart-symm : (r s : Region) → Apart r s → Apart s r
Apart-symm r s (inl h) = inr h
Apart-symm r s (inr h) = inl h

Fit-cons :
    (size : ℕ) (c : Region) (bs : List Region) (b : Region) (rest : List Region)
    → leb size c.size ≡ false
    → Fit size bs b rest
    → Fit size (c ∷ bs) b (c ∷ rest)
Fit-cons size c bs b rest later f = record {
  large = f.large;
  apart = λ r h. let g = f.apart r h.1 in (g.0, (h.0, g.1));
  separate = λ h.
      let g = f.apart c h.0 in let s = f.separate h.1 in ((Apart-symm c b g.0, s.0), (g.1, s.1));
  cross = λ ss h. let g = f.cross ss h.1 in (g.0, (h.0, g.1));
  below = λ limit h. let g = f.below limit h.1 in (g.0, (h.0, g.1));
  kept_large = λ h. (h.0, f.kept_large h.1);
  same_after = λ prev mem a large h out.
      after_later size prev c bs mem a later ∙ f.same_after c mem a h.0 h.1 out.1;
  same = λ mem a h out. head_later size c bs mem a later ∙ f.same_after c mem a h.0 h.1 out;
}

pub first_fit-Fit :
    (size : ℕ) (bs : List Region) (b : Region) (rest : List Region)
    → first_fit size bs ≡ some (b, rest)
    → Fit size bs b rest
unfolding first_fit
first_fit-Fit size [] b rest e = cc
first_fit-Fit size (c ∷ bs) b rest e = elim (Bool-cases (leb size c.size)) [
  | inl fits ↦
      let same : some (c, bs) ≡ some (b, rest) = rw fits at e in
      subst (λ (p : Region × List Region). Fit size (c ∷ bs) p.0 p.1) (some-injective _ _ same)
        (record {
          large = leb→le size c.size fits;
          apart = λ r h. h;
          separate = λ h. h;
          cross = λ ss h. h;
          below = λ limit h. h;
          kept_large = λ h. h.1;
          same_after = λ prev mem a large h out. after_here size prev c bs mem a fits large out.0;
          same = λ mem a h out. head_here size c bs mem a fits;
        })
  | inr not_here ↦ elim (Option-cases (first_fit size bs)) [
    | inl no_block ↦
        let bad : ◌≡◌ {A = Option (Region × List Region)} none (some (b, rest)) =
          rw (not_here, no_block) at e in
        cc
    | inr ((d, ds), later) ↦
        let same : some (d, c ∷ ds) ≡ some (b, rest) = rw (not_here, later) at e in
        subst (λ (p : Region × List Region). Fit size (c ∷ bs) p.0 p.1) (some-injective _ _ same)
          (Fit-cons size c bs d ds not_here (first_fit-Fit size bs d ds later))
  ]
]

-- Taking less of a region, or another list order, keeps regions apart.
pub AllApart-shrink :
    (b : Region) (size : ℕ) (rs : List Region)
    → size ≤ b.size
    → AllApart b rs
    → AllApart (region b.addr size) rs
AllApart-shrink b size [] h p = tt
AllApart-shrink b size (r ∷ rs) h (inl q, p) = (inl (omega arith), AllApart-shrink b size rs h p)
AllApart-shrink b size (r ∷ rs) h (inr q, p) = (inr q, AllApart-shrink b size rs h p)

-- What begins at the limit or behind it is apart from everything below.
pub Below-AllApart :
    (limit size : ℕ) (rs : List Region) → Below limit rs → AllApart (region limit size) rs
Below-AllApart limit size [] h = tt
Below-AllApart limit size (r ∷ rs) h = (inr h.0, Below-AllApart limit size rs h.1)

pub Below-mono : (m n : ℕ) (rs : List Region) → m ≤ n → Below m rs → Below n rs
Below-mono m n [] h p = tt
Below-mono m n (r ∷ rs) h p = (omega arith, Below-mono m n rs h p.1)

pub Cross-cons :
    (rs ss : List Region) (r : Region) → AllApart r rs → Cross rs ss → Cross rs (r ∷ ss)
Cross-cons [] ss r p q = tt
Cross-cons (s ∷ rs) ss r p q = ((Apart-symm r s p.0, q.0), Cross-cons rs ss r p.1 q.1)
