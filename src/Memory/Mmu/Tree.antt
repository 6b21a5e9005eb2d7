-- ===== src/Memory/Mmu/Tree.antt =====
-- The tables of kernel/memory/mmu.c form a tree, and what the hardware finds in it.
use ionutnechita_redacted_os.Base.{
  ℕ, ◌+◌, ◌%◌, ◌^◌, ◌≡◌, ◌≢◌, Option, none, some, List, [], ◌∷◌, arith, ◌==◌, if◌then◌else◌,
}
use ionutnechita_redacted_os.Memory.Mmu.{
  Tables, index_l0, index_l1, index_l2, index_l3, table_entry, write_entry,
}
use ionutnechita_redacted_os.Memory.Mmu.Entries.{page_base, table_entry_lem}

-- What the hardware answers to an address: not mapped, or where it leads.
unfoldable pub translate_page : ℕ → ℕ → Tables → Option ℕ
translate_page l3 va s =
    if s.entry l3 (index_l3 va) % 2 == 0
    then none
    else some (page_base (s.entry l3 (index_l3 va)) + va % 2 ^ 12)

unfoldable pub translate_below : ℕ → ℕ → Tables → Option ℕ
unfolding translate_page
translate_below l2 va s =
    if s.entry l2 (index_l2 va) % 2 == 0
    then none
    else if s.entry l2 (index_l2 va) % 4 == 1
    then some (page_base (s.entry l2 (index_l2 va)) + va % 2 ^ 21)
    else translate_page (page_base (s.entry l2 (index_l2 va))) va s

unfoldable pub translate_l1 : ℕ → ℕ → Tables → Option ℕ
unfolding translate_below
translate_l1 l1 va s =
    if s.entry l1 (index_l1 va) % 2 == 0
    then none
    else translate_below (page_base (s.entry l1 (index_l1 va))) va s

unfoldable pub translate : ℕ → ℕ → Tables → Option ℕ
unfolding translate_l1
translate root va s =
    if s.entry root (index_l0 va) % 2 == 0
    then none
    else translate_l1 (page_base (s.entry root (index_l0 va))) va s

-- The place of a table in the tree: the indices that lead to it.
pub data Place : Type 0 where
  unused : Place
  top : Place
  under_l0 : ℕ → Place
  under_l1 : ℕ → ℕ → Place
  under_l2 : ℕ → ℕ → ℕ → Place

-- Every table stands at one place.
pub record IsTree (root : ℕ) (place : ℕ → Place) (s : Tables) : Type 0 where
  pub at_root : place root ≡ top
  pub at_l0 : (i : ℕ) → s.entry root i % 2 ≡ 1 → place (page_base (s.entry root i)) ≡ under_l0 i
  pub at_l1 :
      (t i j : ℕ)
      → place t ≡ under_l0 i
      → s.entry t j % 2 ≡ 1
      → place (page_base (s.entry t j)) ≡ under_l1 i j
  pub at_l2 :
      (t i j k : ℕ)
      → place t ≡ under_l1 i j
      → s.entry t k % 4 ≡ 3
      → place (page_base (s.entry t k)) ≡ under_l2 i j k

-- The pages that `talloc` will hand out: aligned, below 2 ^ 48, in no place of the tree, and
-- all different.
abbrev pub NotIn : ℕ → List ℕ → Type 0
NotIn f [] = Unit {0}
NotIn f (g ∷ gs) = (f ≢ g) × NotIn f gs

abbrev pub AreFresh : (ℕ → Place) → List ℕ → Type 0
AreFresh place [] = Unit {0}
AreFresh place (f ∷ fs) = (page_base f ≡ f) × (place f ≡ unused) × NotIn f fs × AreFresh place fs

abbrev pub put_place : (ℕ → Place) → ℕ → Place → ℕ → Place
put_place place f p t = if t == f then p else place t

pub AreFresh-put :
    (place : ℕ → Place) (fs : List ℕ) (f : ℕ) (p : Place)
    → AreFresh place fs
    → NotIn f fs
    → AreFresh (put_place place f p) fs
AreFresh-put place [] f p a n = tt
AreFresh-put place (g ∷ gs) f p (al, un, ni, a) (ne, n) =
    (al, ground arith, ni, AreFresh-put place gs f p a n)

-- The new entry's address.
pub new_base : (f : ℕ) → page_base f ≡ f → (page_base (table_entry f) ≡ f) × (table_entry f % 4 ≡ 3)
new_base f h = omega (arith, table_entry_lem f)

-- The state with the fresh page `f` as a table, under index `i` of the table `t`.
abbrev pub grown : ℕ → ℕ → ℕ → List ℕ → Tables → Tables
grown t i f fs s =
    write_entry t i (table_entry f)
      (record { entry = λ u j. if u == f then 0 else s.entry u j; fresh = fs })

module _ (root : ℕ) (place : ℕ → Place) (s : Tables) (v : IsTree root place s) (f : ℕ) (fs : List ℕ)
    (aligned : page_base f ≡ f) (free : place f ≡ unused) (i : ℕ) where
  not_top : root ≢ f
  not_top = ground (arith, v.at_root)

  pub grown_l0-IsTree :
      s.entry root i % 2 ≡ 0 → IsTree root (put_place place f (under_l0 i)) (grown root i f fs s)
  grown_l0-IsTree even = record {
    at_root = ground (arith, v.at_root);
    at_l0 = λ a h. ground (arith, v.at_root, v.at_l0 a, new_base f aligned);
    at_l1 = λ t a b p h. ground (arith, v.at_root, v.at_l1 t a b, new_base f aligned);
    at_l2 = λ t a b c p h. ground (arith, v.at_root, v.at_l2 t a b c, new_base f aligned);
  }

  pub grown_l1-IsTree :
      (t a : ℕ)
      → place t ≡ under_l0 a
      → s.entry t i % 2 ≡ 0
      → IsTree root (put_place place f (under_l1 a i)) (grown t i f fs s)
  grown_l1-IsTree t a pt even = record {
    at_root = ground (arith, v.at_root);
    at_l0 = λ b h. ground (arith, v.at_root, v.at_l0 b, new_base f aligned);
    at_l1 = λ u b c p h. ground (arith, v.at_root, v.at_l1 u b c, new_base f aligned);
    at_l2 = λ u b c d p h. ground (arith, v.at_root, v.at_l2 u b c d, new_base f aligned);
  }

  pub grown_l2-IsTree :
      (t a b : ℕ)
      → place t ≡ under_l1 a b
      → s.entry t i % 2 ≡ 0
      → IsTree root (put_place place f (under_l2 a b i)) (grown t i f fs s)
  grown_l2-IsTree t a b pt even = record {
    at_root = ground (arith, v.at_root);
    at_l0 = λ c h. ground (arith, v.at_root, v.at_l0 c, new_base f aligned);
    at_l1 = λ u c d p h. ground (arith, v.at_root, v.at_l1 u c d, new_base f aligned);
    at_l2 = λ u c d e p h. ground (arith, v.at_root, v.at_l2 u c d e, new_base f aligned);
  }
