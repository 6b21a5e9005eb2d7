-- ===== src/Memory/Mmu/Leaf.antt =====
-- The last write of `mmu_map_4kb` of kernel/memory/mmu.c, the entry of a page.
use ionutnechita_redacted_os.Base.{ℕ, ◌%◌, ◌≡◌, ◌≢◌, refl, ap, arith, inl, inr, ◌==◌, Bool-cases}
use ionutnechita_redacted_os.Memory.Mmu.{
  Tables, index_l0, index_l1, index_l2, index_l3, write_entry,
}
use ionutnechita_redacted_os.Memory.Mmu.Entries.{page_base}
use ionutnechita_redacted_os.Memory.Mmu.Tree.{
  translate_page, translate_below, translate_l1, translate, Place, under_l0, under_l1, under_l2,
  IsTree,
}

module _ (root : ℕ) (place : ℕ → Place) (s : Tables) (v : IsTree root place s) (l3 a b c i e : ℕ)
    (at_l3 : place l3 ≡ under_l2 a b c) where
  pub write-IsTree : IsTree root place (write_entry l3 i e s)
  write-IsTree = record {
    at_root = v.at_root;
    at_l0 = λ j h. ground (arith, v.at_root, v.at_l0 j);
    at_l1 = λ t j k p h. ground (arith, v.at_l1 t j k);
    at_l2 = λ t j k m p h. ground (arith, v.at_l2 t j k m);
  }

  -- An address that does not lead to the written entry.
  module _ (wa : ℕ)
      (other : index_l0 wa ≡ a → index_l1 wa ≡ b → index_l2 wa ≡ c → index_l3 wa ≢ i) where
    page_other :
        (x : ℕ)
        → place x ≡ under_l2 (index_l0 wa) (index_l1 wa) (index_l2 wa)
        → translate_page x wa (write_entry l3 i e s) ≡ translate_page x wa s
    unfolding translate_page
    page_other x p = ground (arith, ap place {x = x} {y = l3}, other)

    below_other :
        (x : ℕ)
        → place x ≡ under_l1 (index_l0 wa) (index_l1 wa)
        → translate_below x wa (write_entry l3 i e s) ≡ translate_below x wa s
    unfolding translate_below
    below_other x p = ground (
      arith,
      v.at_l2 x (index_l0 wa) (index_l1 wa) (index_l2 wa) p,
      page_other (page_base (s.entry x (index_l2 wa))),
    )

    elsewhere : (x j : ℕ) → x ≢ l3 → (write_entry l3 i e s).entry x j ≡ s.entry x j
    elsewhere x j ne = ground arith

    l1_other :
        (x : ℕ)
        → place x ≡ under_l0 (index_l0 wa)
        → translate_l1 x wa (write_entry l3 i e s) ≡ translate_l1 x wa s
    unfolding translate_l1
    l1_other x p =
        let same = elsewhere x (index_l1 wa) (ground (arith, ap place {x = x} {y = l3})) in
        elim (Bool-cases (s.entry x (index_l1 wa) % 2 == 0)) [
          | inl ev ↦ rw (same, ev) refl
          | inr od ↦
              rw (same, od)
                (below_other (page_base (s.entry x (index_l1 wa)))
                  (v.at_l1 x (index_l0 wa) (index_l1 wa) p (ground arith)))
        ]

    pub write-translate_other : translate root wa (write_entry l3 i e s) ≡ translate root wa s
    unfolding translate
    write-translate_other =
        let same =
          elsewhere root (index_l0 wa) (ground (arith, v.at_root, ap place {x = root} {y = l3})) in
        elim (Bool-cases (s.entry root (index_l0 wa) % 2 == 0)) [
          | inl ev ↦ rw (same, ev) refl
          | inr od ↦
              rw (same, od)
                (l1_other (page_base (s.entry root (index_l0 wa)))
                  (v.at_l0 (index_l0 wa) (ground arith)))
        ]
