-- ===== src/Memory/Mmu/Map.antt =====
-- What `mmu_map_4kb` of kernel/memory/mmu.c does to the translations.
use mathlib.Core.Path.{subst}
use ionutnechita_redacted_os.Base.{
  ℕ, ◌+◌, ◌%◌, ◌≤◌, ◌<◌, ◌≡◌, ◌≢◌, refl, ap, some, List, [], ◌∷◌, arith, length, ◌⊎◌, inl, inr,
  ◌==◌, Bool-cases, ◌∙◌, sym,
}
use ionutnechita_redacted_os.Memory.Mmu.{Tables, table_entry, next_table}
use ionutnechita_redacted_os.Memory.Mmu.Entries.{page_base, address_of-page_base}
use ionutnechita_redacted_os.Memory.Mmu.Tree.{
  translate, Place, unused, top, under_l0, under_l1, under_l2, IsTree, AreFresh, AreFresh-put,
  put_place, new_base, grown, grown_l0-IsTree, grown_l1-IsTree, grown_l2-IsTree,
}
use ionutnechita_redacted_os.Memory.Mmu.Grow.{grown-translate}

-- What a step down from index `i` of the table `t` leaves: the table below at its place `p`, and
-- all else as it was.
pub record Stepped (root : ℕ) (place : ℕ → Place) (s : Tables) (t i : ℕ) (p : Place) (c : ℕ)
    (s' : Tables) : Type 0 where
  pub place' : ℕ → Place
  pub tree : IsTree root place' s'
  pub at_place : place' c ≡ p
  pub fresh : AreFresh place' s'.fresh
  pub same : (va : ℕ) → translate root va s' ≡ translate root va s
  pub valid : s'.entry t i % 2 ≡ 1
  pub base : page_base (s'.entry t i) ≡ c
  pub old_or_table : (s'.entry t i ≡ s.entry t i) ⊎ (s'.entry t i % 4 ≡ 3)
  pub kept : (u j : ℕ) → place u ≢ unused → (u ≢ t) ⊎ (j ≢ i) → s'.entry u j ≡ s.entry u j
  pub kept_place : (u : ℕ) → place u ≢ unused → place' u ≡ place u
  pub spare : length s.fresh ≤ length s'.fresh + 1

List-cases : (xs : List ℕ) → (xs ≡ []) ⊎ ((x : ℕ) × (ys : List ℕ) × (xs ≡ x ∷ ys))
List-cases [] = inl refl
List-cases (x ∷ ys) = inr (x, ys, refl)

-- A level of the tree: what stands under index `i` of a table at the place.
abbrev pub Child : Place → ℕ → Place
Child top i = under_l0 i
Child (under_l0 a) i = under_l1 a i
Child (under_l1 a b) i = under_l2 a b i
Child _ i = unused

abbrev pub IsInner : Place → Type 0
IsInner unused = ⊥
IsInner top = Unit {0}
IsInner (under_l0 a) = Unit {0}
IsInner (under_l1 a b) = Unit {0}
IsInner (under_l2 a b c) = ⊥

-- The code looks for a block at the third level only.
abbrev pub NoBlock : Place → ℕ → Type 0
NoBlock (under_l1 a b) e = e % 4 ≢ 1
NoBlock _ e = Unit {0}

module _ (root : ℕ) (place : ℕ → Place) (s : Tables) (v : IsTree root place s) (i : ℕ) where
  -- Where the entry is valid, the table below is there.
  child_there :
      (t : ℕ) (p : Place)
      → place t ≡ p
      → IsInner p
      → (p ≡ top → t ≡ root)
      → NoBlock p (s.entry t i)
      → s.entry t i % 2 ≡ 1
      → place (page_base (s.entry t i)) ≡ Child p i
  child_there t unused at_p inner is_root nb odd = absurd inner
  child_there t top at_p inner is_root nb odd =
      let e = is_root refl in rw e (v.at_l0 i (rw e at odd))
  child_there t (under_l0 a) at_p inner is_root nb odd = v.at_l1 t a i at_p odd
  child_there t (under_l1 a b) at_p inner is_root nb odd = v.at_l2 t a b i at_p (omega (arith, nb))
  child_there t (under_l2 a b c) at_p inner is_root nb odd = absurd inner

  module _ (f : ℕ) (fs : List ℕ) (aligned : page_base f ≡ f) (free : place f ≡ unused) where
    grown-IsTree :
        (t : ℕ) (p : Place)
        → place t ≡ p
        → IsInner p
        → (p ≡ top → t ≡ root)
        → s.entry t i % 2 ≡ 0
        → IsTree root (put_place place f (Child p i)) (grown t i f fs s)
    grown-IsTree t unused at_p inner is_root even = absurd inner
    grown-IsTree t top at_p inner is_root even =
        let e = is_root refl in
        rw e (grown_l0-IsTree root place s v f fs aligned free i (rw e at even))
    grown-IsTree t (under_l0 a) at_p inner is_root even =
        grown_l1-IsTree root place s v f fs aligned free i t a at_p even
    grown-IsTree t (under_l1 a b) at_p inner is_root even =
        grown_l2-IsTree root place s v f fs aligned free i t a b at_p even
    grown-IsTree t (under_l2 a b c) at_p inner is_root even = absurd inner

  inner-not_last :
      (t : ℕ) (p : Place) → place t ≡ p → IsInner p → (a b c : ℕ) → place t ≢ under_l2 a b c
  inner-not_last t p at_p inner a b c e = subst IsInner (sym at_p ∙ e) inner

  inner-used : (t : ℕ) (p : Place) → place t ≡ p → IsInner p → place t ≢ unused
  inner-used t p at_p inner e = subst IsInner (sym at_p ∙ e) inner

  module _ (t : ℕ) (p : Place) (at_p : place t ≡ p) (inner : IsInner p)
      (is_root : p ≡ top → t ≡ root) (fr : AreFresh place s.fresh) where
    Stepped-there :
        NoBlock p (s.entry t i)
        → s.entry t i % 2 ≡ 1
        → Stepped root place s t i (Child p i) (page_base (s.entry t i)) s
    Stepped-there nb odd = record {
      place' = place;
      tree = v;
      at_place = child_there t p at_p inner is_root nb odd;
      fresh = fr;
      same = λ va. refl;
      valid = odd;
      base = refl;
      old_or_table = inl refl;
      kept = λ u j used h. refl;
      kept_place = λ u used. refl;
      spare = omega arith;
    }

    Stepped-grown :
        (f : ℕ) (fs : List ℕ)
        → s.fresh ≡ f ∷ fs
        → s.entry t i % 2 ≡ 0
        → Stepped root place s t i (Child p i) f (grown t i f fs s)
    Stepped-grown f fs e even =
        let (aligned, free, apart, rest) : AreFresh place (f ∷ fs) = subst (AreFresh place) e fr in
        let used = inner-used t p at_p inner in
        let (base, tabled) = new_base f aligned in
        record {
          place' = put_place place f (Child p i);
          tree = grown-IsTree f fs aligned free t p at_p inner is_root even;
          at_place = ground arith;
          fresh = AreFresh-put place fs f (Child p i) rest apart;
          same = λ va.
              grown-translate root place s v f fs aligned free i t used
                (inner-not_last t p at_p inner) even va;
          valid = ground arith;
          base = ground arith;
          old_or_table = inr (ground arith);
          kept = λ u j alive h. ground (arith, free);
          kept_place = λ u alive. ground (arith, free);
          spare = omega (arith, ap (length {A = ℕ}) e);
        }

  -- Stepping down with a table to spare.
  pub next_table-Stepped :
      (t : ℕ) (p : Place)
      → place t ≡ p
      → IsInner p
      → (p ≡ top → t ≡ root)
      → NoBlock p (s.entry t i)
      → AreFresh place s.fresh
      → 0 < length s.fresh
      → (c : ℕ) × (s' : Tables) × (next_table t i s ≡ some (c, s'))
        × Stepped root place s t i (Child p i) c s'
  unfolding next_table
  next_table-Stepped t p at_p inner is_root nb fr pos = elim (Bool-cases (s.entry t i % 2 == 0)) [
    | inr odd ↦ (
      page_base (s.entry t i),
      s,
      rw (odd, address_of-page_base (s.entry t i)) refl,
      Stepped-there t p at_p inner is_root fr nb (ground arith),
    )
    | inl even ↦ elim (List-cases s.fresh) [
      | inl e ↦ absurd (omega (arith, ap (length {A = ℕ}) e))
      | inr (f, fs, e) ↦
          let (aligned, free, apart, rest) : AreFresh place (f ∷ fs) =
            subst (AreFresh place) e fr in
          (
            f,
            grown t i f fs s,
            ground (arith, address_of-page_base (table_entry f), new_base f aligned),
            Stepped-grown t p at_p inner is_root fr f fs e (ground arith),
          )
    ]
  ]
