-- ===== src/Memory/Mmu/Grow.antt =====
-- A new table of zeros in the tree of kernel/memory/mmu.c changes no translation.
use ionutnechita_redacted_os.Base.{
  ℕ, ◌%◌, ◌≡◌, ◌≢◌, refl, ap, true, false, none, List, arith, ◌⊎◌, inl, inr, ◌==◌, Bool-cases, ◌∙◌,
}
use ionutnechita_redacted_os.Memory.Mmu.{Tables, index_l0, index_l1, index_l2, table_entry}
use ionutnechita_redacted_os.Memory.Mmu.Entries.{page_base}
use ionutnechita_redacted_os.Memory.Mmu.Tree.{
  translate_page, translate_below, translate_l1, translate, Place, unused, under_l0, under_l1,
  under_l2, IsTree, new_base, grown,
}

module _ (root : ℕ) (place : ℕ → Place) (s : Tables) (v : IsTree root place s) (f : ℕ) (fs : List ℕ)
    (aligned : page_base f ≡ f) (free : place f ≡ unused) (i t : ℕ) (used : place t ≢ unused)
    (inner : (a b c : ℕ) → place t ≢ under_l2 a b c) (even : s.entry t i % 2 ≡ 0) (va : ℕ) where
  distinct : t ≢ f
  distinct e = used (ap place e ∙ free)

  page_same :
      (l3 a b c : ℕ)
      → place l3 ≡ under_l2 a b c
      → translate_page l3 va (grown t i f fs s) ≡ translate_page l3 va s
  unfolding translate_page
  page_same l3 a b c p = ground (arith, free, (λ (e : t ≡ l3). inner a b c (ap place e ∙ p)))

  zero_page : translate_page f va (grown t i f fs s) ≡ none
  unfolding translate_page
  zero_page = ground (arith, distinct)

  zero_below : translate_below f va (grown t i f fs s) ≡ none
  unfolding translate_below
  zero_below = ground (arith, distinct)

  zero_l1 : translate_l1 f va (grown t i f fs s) ≡ none
  unfolding translate_l1
  zero_l1 = ground (arith, distinct)

  below_same :
      (l2 a b : ℕ)
      → place l2 ≡ under_l1 a b
      → translate_below l2 va (grown t i f fs s) ≡ translate_below l2 va s
  unfolding translate_below
  below_same l2 a b p = ground (
    arith,
    free,
    new_base f aligned,
    zero_page,
    v.at_l2 l2 a b (index_l2 va) p,
    page_same (page_base (s.entry l2 (index_l2 va))) a b (index_l2 va),
  )

  -- The entry is the new one, in place of one that was not valid, or it is the old one.
  entry_cases :
      (u j : ℕ)
      → u ≢ f
      → ((s.entry u j % 2 ≡ 0) × ((grown t i f fs s).entry u j ≡ table_entry f))
        ⊎ ((grown t i f fs s).entry u j ≡ s.entry u j)
  entry_cases u j ne = ground arith

  new_entry : (page_base (table_entry f) ≡ f) × ((table_entry f % 2 == 0) ≡ false)
  new_entry = ground (arith, new_base f aligned)

  l1_same :
      (l1 a : ℕ)
      → place l1 ≡ under_l0 a
      → translate_l1 l1 va (grown t i f fs s) ≡ translate_l1 l1 va s
  unfolding translate_l1
  l1_same l1 a p = elim (entry_cases l1 (index_l1 va) (ground (arith, free))) [
    | inl (old, new) ↦
        let was : (s.entry l1 (index_l1 va) % 2 == 0) ≡ true = (ground arith) in
        rw (new, new_entry.1, new_entry.0, was) zero_below
    | inr same ↦ elim (Bool-cases (s.entry l1 (index_l1 va) % 2 == 0)) [
      | inl e ↦ rw (same, e) refl
      | inr e ↦
          rw (same, e)
            (below_same (page_base (s.entry l1 (index_l1 va))) a (index_l1 va)
              (v.at_l1 l1 a (index_l1 va) p (ground arith)))
    ]
  ]

  pub grown-translate : translate root va (grown t i f fs s) ≡ translate root va s
  unfolding translate
  grown-translate = elim (entry_cases root (index_l0 va) (ground (arith, free, v.at_root))) [
    | inl (old, new) ↦
        let was : (s.entry root (index_l0 va) % 2 == 0) ≡ true = (ground arith) in
        rw (new, new_entry.1, new_entry.0, was) zero_l1
    | inr same ↦ elim (Bool-cases (s.entry root (index_l0 va) % 2 == 0)) [
      | inl e ↦ rw (same, e) refl
      | inr e ↦
          rw (same, e)
            (l1_same (page_base (s.entry root (index_l0 va))) (index_l0 va)
              (v.at_l0 (index_l0 va) (ground arith)))
    ]
  ]
