-- ===== src/Memory/TempHeap/Layout.antt =====
-- The regions that `talloc` hands out and the free blocks never overlap.
use ionutnechita_redacted_os.Base.{
  ℕ, ◌+◌, ◌-◌, ◌*◌, ◌/◌, ◌^◌, ◌≤◌, ◌<◌, ◌≡◌, refl, ◌%◌, ap, false, List, [], ◌∷◌, arith, ◌⊎◌, inl,
  inr, ltb, u64, Bool-cases, Option-cases, ◌∙◌, bit_and, ltb→lt,
}
use ionutnechita_redacted_os.Base.Bits.{bit_and_round}
use ionutnechita_redacted_os.Memory.Region.{
  Region, region, clear, first_fit, AllApart, Separate, Cross, Below, Fit, AllLarge, Outside,
  unlinked, write64, write64-field, write64-outside, write_header, head_address, first_fit-Fit,
  AllApart-shrink, Below-AllApart, Below-mono, Cross-cons, Apart-symm,
}
use ionutnechita_redacted_os.Memory.TempHeap.{
  TempHeap, returned, panicked, round_to_page, talloc, temp_free,
}

-- Rounding is up to the next multiple of the page size.
pub round_to_page_lem : (n : ℕ) → n + 0xfff < 2 ^ 64 → round_to_page n ≡ (n + 4095) / 4096 * 4096
unfolding round_to_page
round_to_page_lem n h =
    ap (λ (t : ℕ). bit_and t ((2 ^ 52 - 1) * 2 ^ 12)) {x = u64 (n + 0xfff)} {y = n + 0xfff}
      (omega arith)
    ∙ bit_and_round 12 52 (n + 0xfff) (omega arith)

-- `live` are the regions handed out and not yet freed.
pub record IsLaidOut (heap_limit : ℕ) (live : List Region) (h : TempHeap) : Type 0 where
  pub live_separate : Separate live
  pub free_separate : Separate h.temp_free_list
  pub cross : Cross h.temp_free_list live
  pub live_below : Below h.next_free_temp_memory live
  pub free_below : Below h.next_free_temp_memory h.temp_free_list
  pub bounded : h.next_free_temp_memory ≤ heap_limit
  pub limit_fits : heap_limit < 2 ^ 63
  pub free_large : AllLarge h.temp_free_list

-- What `talloc` hands out: a region of the rounded size, all zero, apart from all regions in use.
pub record Handed (heap_limit requested : ℕ) (live : List Region) (h : TempHeap) (p : ℕ)
    (h' : TempHeap) : Type 0 where
  pub laid_out : IsLaidOut heap_limit (region p (round_to_page requested) ∷ live) h'
  pub zero : (a : ℕ) → p ≤ a → a < p + round_to_page requested → h'.mem a ≡ 0
  pub same :
      (a : ℕ)
      → (a < p) ⊎ (p + round_to_page requested ≤ a)
      → Outside a h'.temp_free_list
      → h'.mem a ≡ h.mem a

not_cleared : (mem : ℕ → ℕ) (p size a : ℕ) → (a < p) ⊎ (p + size ≤ a) → clear mem p size a ≡ mem a
not_cleared mem p size a (inl before) = ground arith
not_cleared mem p size a (inr behind) = ground arith

module _ (heap_limit requested : ℕ) (live : List Region) (h : TempHeap)
    (v : IsLaidOut heap_limit live h) where
  from_free_list :
      (b : Region) (rest : List Region)
      → Fit (round_to_page requested) h.temp_free_list b rest
      → Handed heap_limit requested live h b.addr (record h {
        temp_free_list = rest;
        mem =
            clear
              (unlinked (round_to_page requested) h.temp_free_list h.mem)
              b.addr
              (round_to_page requested);
      })
  from_free_list b rest f =
      let size = round_to_page requested in
      let c = f.cross live v.cross in
      let s = f.separate v.free_separate in
      let w = f.below h.next_free_temp_memory v.free_below in
      record {
        laid_out = record {
          live_separate = (AllApart-shrink b size live f.large c.0, v.live_separate);
          free_separate = s.1;
          cross =
              Cross-cons rest live (region b.addr size) (AllApart-shrink b size rest f.large s.0)
                c.1;
          live_below = (omega (arith, w.0, f.large), v.live_below);
          free_below = w.1;
          bounded = v.bounded;
          limit_fits = v.limit_fits;
          free_large = f.kept_large v.free_large;
        };
        zero = λ a p q. ground arith;
        same = λ a q out.
            not_cleared (unlinked size h.temp_free_list h.mem) b.addr size a q
            ∙ f.same h.mem a v.free_large out;
      }

  from_top :
      h.next_free_temp_memory + round_to_page requested ≤ heap_limit
      → Handed heap_limit requested live h h.next_free_temp_memory (record h {
        next_free_temp_memory = u64 (h.next_free_temp_memory + round_to_page requested);
        mem = clear h.mem h.next_free_temp_memory (round_to_page requested);
      })
  from_top room =
      let n = h.next_free_temp_memory in
      let size = round_to_page requested in
      let top : u64 (n + size) ≡ n + size = omega (arith, v.limit_fits) in
      record {
        laid_out = record {
          live_separate = (Below-AllApart n size live v.live_below, v.live_separate);
          free_separate = v.free_separate;
          cross =
              Cross-cons h.temp_free_list live (region n size)
                (Below-AllApart n size h.temp_free_list v.free_below) v.cross;
          live_below = (omega arith, Below-mono n (u64 (n + size)) live (omega arith) v.live_below);
          free_below = Below-mono n (u64 (n + size)) h.temp_free_list (omega arith) v.free_below;
          bounded = omega arith;
          limit_fits = v.limit_fits;
          free_large = v.free_large;
        };
        zero = λ a p q. ground arith;
        same = λ a q out. ground arith;
      }

  -- On a well laid out heap, for a request below 2 ^ 62, `talloc` panics where the room up to the limit
  -- is too small, or hands out a zeroed region of the rounded size that is apart from all regions in
  -- use and all free blocks, changes no byte outside it and outside the free blocks, and leaves the
  -- heap well laid out.
  pub talloc-Handed :
      requested < 2 ^ 62
      → ((talloc heap_limit requested h ≡ panicked)
          × (heap_limit < h.next_free_temp_memory + round_to_page requested))
        ⊎ ((p : ℕ) × (h' : TempHeap) × (talloc heap_limit requested h ≡ returned (p, h'))
            × Handed heap_limit requested live h p h')
  unfolding talloc
  talloc-Handed small = elim (Option-cases (first_fit (round_to_page requested) h.temp_free_list)) [
    | inr ((b, rest), e) ↦ inr (
      b.addr,
      _,
      rw (e, talloc),
      from_free_list b rest (first_fit-Fit (round_to_page requested) h.temp_free_list b rest e),
    )
    | inl e ↦
        elim (Bool-cases
          (ltb heap_limit (u64 (h.next_free_temp_memory + round_to_page requested)))) [
            | inl over ↦ inl (rw (e, over, talloc), omega (arith, ltb→lt _ _ over))
            | inr room ↦
                inr (h.next_free_temp_memory, _, rw (e, room, talloc), from_top (within room))
          ]
  ]
    where
      bound : round_to_page requested < 2 ^ 63
      bound = omega (arith, round_to_page_lem requested (omega arith))

      within :
          ltb heap_limit (u64 (h.next_free_temp_memory + round_to_page requested)) ≡ false
          → h.next_free_temp_memory + round_to_page requested ≤ heap_limit
      within r = ground (arith, bound, v.bounded, v.limit_fits)

-- What the freed region holds: its header, with its size and the address of the block that was the
-- first of the free list, and zeros.
pub record Freed (p size next : ℕ) (mem mem' : ℕ → ℕ) : Type 0 where
  pub size_field : (i : ℕ) → i < 8 → mem' (p + i) ≡ size / 2 ^ (8 * i) % 2 ^ 8
  pub next_field : (i : ℕ) → i < 8 → mem' (p + 8 + i) ≡ next / 2 ^ (8 * i) % 2 ^ 8
  pub zero : (a : ℕ) → p + 16 ≤ a → a < p + size → mem' a ≡ 0
  pub same : (a : ℕ) → (a < p) ⊎ (p + size ≤ a) → mem' a ≡ mem a

untouched :
    (p size next : ℕ) (mem : ℕ → ℕ) (a : ℕ)
    → 16 ≤ size
    → (a < p) ⊎ (p + size ≤ a)
    → write_header (clear mem p size) p size next a ≡ mem a
untouched p size next mem a large (inl before) =
    write64-outside (write64 (clear mem p size) p size) (p + 8) next a (inl (omega arith))
    ∙ write64-outside (clear mem p size) p size a (inl before)
    ∙ not_cleared mem p size a (inl before)
untouched p size next mem a large (inr behind) =
    write64-outside (write64 (clear mem p size) p size) (p + 8) next a (inr (omega arith))
    ∙ write64-outside (clear mem p size) p size a (inr (omega arith))
    ∙ not_cleared mem p size a (inr behind)

freed :
    (p size next : ℕ) (mem : ℕ → ℕ)
    → 16 ≤ size
    → Freed p size next mem (write_header (clear mem p size) p size next)
freed p size next mem large = record {
  size_field = λ i h.
      write64-outside (write64 (clear mem p size) p size) (p + 8) next (p + i) (inl (omega arith))
      ∙ write64-field (clear mem p size) p size i h;
  next_field = λ i h. write64-field (write64 (clear mem p size) p size) (p + 8) next i h;
  zero = λ a lo hi. ground arith;
  same = λ a out. untouched p size next mem a large out;
}

-- Freeing a region in use, with the size above 0 and below 2 ^ 62 that it was asked for with, moves it
-- to the head of the free list, writes its header, clears the rest of it, changes no other byte, and
-- leaves the heap well laid out.
pub temp_free-IsLaidOut :
    (heap_limit requested p : ℕ) (live : List Region) (h : TempHeap)
    → 0 < requested
    → requested < 2 ^ 62
    → IsLaidOut heap_limit (region p (round_to_page requested) ∷ live) h
    → let h' = temp_free p requested h in
      let size = round_to_page requested in
      IsLaidOut heap_limit live h'
      × (h'.temp_free_list ≡ region p size ∷ h.temp_free_list)
      × Freed p size (head_address h.temp_free_list) h.mem h'.mem
unfolding temp_free
temp_free-IsLaidOut heap_limit requested p live h pos small v = (
  record {
    live_separate = v.live_separate.1;
    free_separate = (apart_free h.temp_free_list v.cross, v.free_separate);
    cross = (v.live_separate.0, rest_cross h.temp_free_list v.cross);
    live_below = v.live_below.1;
    free_below = (v.live_below.0, v.free_below);
    bounded = v.bounded;
    limit_fits = v.limit_fits;
    free_large = (large, v.free_large);
  },
  refl,
  freed p (round_to_page requested) (head_address h.temp_free_list) h.mem large,
)
  where
    large : 16 ≤ round_to_page requested
    large = omega (arith, round_to_page_lem requested (omega arith))

    apart_free :
        (fs : List Region)
        → Cross fs (region p (round_to_page requested) ∷ live)
        → AllApart (region p (round_to_page requested)) fs
    apart_free [] c = tt
    apart_free (f ∷ fs) c =
        (Apart-symm f (region p (round_to_page requested)) c.0.0, apart_free fs c.1)

    rest_cross :
        (fs : List Region) → Cross fs (region p (round_to_page requested) ∷ live) → Cross fs live
    rest_cross [] c = tt
    rest_cross (f ∷ fs) c = (c.0.1, rest_cross fs c.1)
