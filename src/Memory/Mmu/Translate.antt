-- ===== src/Memory/Mmu/Translate.antt =====
-- What `mmu_map_4kb` of kernel/memory/mmu.c does to the translations.
use ionutnechita_redacted_os.Base.{
  ℕ, ◌+◌, ◌/◌, ◌%◌, ◌^◌, ◌≤◌, ◌<◌, ◌≡◌, ◌≢◌, refl, ap, true, false, none, some, arith, length, inl,
  inr, ◌==◌, Bool-cases, ◌∙◌, sym,
}
use ionutnechita_redacted_os.Memory.Mmu.{
  Tables, MairIndex, Access, Mapped, mapped, in_block, already_mapped, index_l0, index_l1, index_l2,
  index_l3, page_entry, write_entry, mmu_map_4kb,
}
use ionutnechita_redacted_os.Memory.Mmu.Entries.{page_base, page_entry_lem, same_page}
use ionutnechita_redacted_os.Memory.Mmu.Tree.{
  translate_page, translate, Place, top, under_l0, under_l1, under_l2, IsTree, AreFresh,
}
use ionutnechita_redacted_os.Memory.Mmu.Map.{Stepped, next_table-Stepped}
use ionutnechita_redacted_os.Memory.Mmu.Leaf.{write-IsTree, write-translate_other}

-- The tables are a tree again, and what `talloc` will hand out is still unused.
pub record IsSound (root : ℕ) (s : Tables) : Type 0 where
  pub place : ℕ → Place
  pub tree : IsTree root place s
  pub fresh : AreFresh place s.fresh

abbrev pub SameTranslations : ℕ → Tables → Tables → Type 0
SameTranslations root s s' = (wa : ℕ) → translate root wa s' ≡ translate root wa s

-- What each answer means.
abbrev pub Answer : ℕ → ℕ → ℕ → Tables → Mapped → Type 0
Answer root va pa s (mapped s') =
    IsSound root s'
    × (translate root va s' ≡ some (page_base pa + va % 2 ^ 12))
    × ((wa : ℕ)
        → va < 2 ^ 48
        → wa < 2 ^ 48
        → wa / 2 ^ 12 ≢ va / 2 ^ 12
        → translate root wa s' ≡ translate root wa s)
Answer root va pa s (in_block s') =
    IsSound root s' × SameTranslations root s s' × (translate root va s ≢ none)
Answer root va pa s (already_mapped s') =
    IsSound root s' × SameTranslations root s s' × (translate root va s ≢ none)

-- Following three entries that point to tables.
follow_tables :
    (root l1 l2 l3 va : ℕ) (s : Tables)
    → s.entry root (index_l0 va) % 2 ≡ 1
    → page_base (s.entry root (index_l0 va)) ≡ l1
    → s.entry l1 (index_l1 va) % 2 ≡ 1
    → page_base (s.entry l1 (index_l1 va)) ≡ l2
    → s.entry l2 (index_l2 va) % 4 ≡ 3
    → page_base (s.entry l2 (index_l2 va)) ≡ l3
    → translate root va s ≡ translate_page l3 va s
unfolding translate
follow_tables root l1 l2 l3 va s v₀ b₀ v₁ b₁ v₂ b₂ =
    let o₀ : (s.entry root (index_l0 va) % 2 == 0) ≡ false = (ground arith) in
    let o₁ : (s.entry l1 (index_l1 va) % 2 == 0) ≡ false = (ground arith) in
    let o₂ : (s.entry l2 (index_l2 va) % 2 == 0) ≡ false = (ground arith) in
    let q₂ : (s.entry l2 (index_l2 va) % 4 == 1) ≡ false = (ground arith) in
    rw (o₀, b₀, o₁, b₁, o₂, q₂, b₂) refl

follow_block :
    (root l1 l2 va : ℕ) (s : Tables)
    → s.entry root (index_l0 va) % 2 ≡ 1
    → page_base (s.entry root (index_l0 va)) ≡ l1
    → s.entry l1 (index_l1 va) % 2 ≡ 1
    → page_base (s.entry l1 (index_l1 va)) ≡ l2
    → s.entry l2 (index_l2 va) % 4 ≡ 1
    → translate root va s ≢ none
unfolding translate
follow_block root l1 l2 va s v₀ b₀ v₁ b₁ v₂ =
    let o₀ : (s.entry root (index_l0 va) % 2 == 0) ≡ false = (ground arith) in
    let o₁ : (s.entry l1 (index_l1 va) % 2 == 0) ≡ false = (ground arith) in
    let o₂ : (s.entry l2 (index_l2 va) % 2 == 0) ≡ false = (ground arith) in
    let q₂ : (s.entry l2 (index_l2 va) % 4 == 1) ≡ true = (ground arith) in
    rw (o₀, b₀, o₁, b₁, o₂, q₂) (λ e. cc e)

eq_of_== : (a b : ℕ) → (a == b) ≡ true → a ≡ b
eq_of_== a b h = ground arith

ne_of_== : (a b : ℕ) → (a == b) ≡ false → a ≢ b
ne_of_== a b h e = ground arith

-- Tables at different places are different.
apart : (place : ℕ → Place) (x y : ℕ) (p q : Place) → place x ≡ p → place y ≡ q → p ≢ q → x ≢ y
apart place x y p q hp hq ne e = ne (sym hp ∙ ap place e ∙ hq)

module _ (root va pa : ℕ) (attr_index : MairIndex) (level : Access) (s : Tables) where
  -- Behind the first two levels.
  module _ (l1 l2 : ℕ) (s₂ : Tables) (place : ℕ → Place) (tree : IsTree root place s₂)
      (fresh : AreFresh place s₂.fresh) (same : SameTranslations root s s₂)
      (at_l1 : place l1 ≡ under_l0 (index_l0 va))
      (at_l2 : place l2 ≡ under_l1 (index_l0 va) (index_l1 va))
      (v₀ : s₂.entry root (index_l0 va) % 2 ≡ 1) (b₀ : page_base (s₂.entry root (index_l0 va)) ≡ l1)
      (v₁ : s₂.entry l1 (index_l1 va) % 2 ≡ 1)
      (b₁ : page_base (s₂.entry l1 (index_l1 va)) ≡ l2) where
    in_block-Answer : s₂.entry l2 (index_l2 va) % 4 ≡ 1 → Answer root va pa s (in_block s₂)
    in_block-Answer block = (
      record { place = place; tree = tree; fresh = fresh },
      same,
      (λ e. follow_block root l1 l2 va s₂ v₀ b₀ v₁ b₁ block (same va ∙ e)),
    )

    module _ (l3 : ℕ) (s₃ : Tables)
        (g : Stepped root place s₂ l2
          (index_l2 va)
          (under_l2 (index_l0 va) (index_l1 va) (index_l2 va))
          l3
          s₃)
        (no_block : s₂.entry l2 (index_l2 va) % 4 ≢ 1) where
      same₃ : SameTranslations root s s₃
      same₃ wa = g.same wa ∙ same wa

      tabled : s₃.entry l2 (index_l2 va) % 4 ≡ 3
      tabled = ground (arith, g.valid, g.old_or_table)

      entry₀ : s₃.entry root (index_l0 va) ≡ s₂.entry root (index_l0 va)
      entry₀ =
          g.kept root (index_l0 va) (λ e. cc (tree.at_root, e))
            (inl (apart place root l2 _ _ tree.at_root at_l2 (λ e. cc e)))

      entry₁ : s₃.entry l1 (index_l1 va) ≡ s₂.entry l1 (index_l1 va)
      entry₁ =
          g.kept l1 (index_l1 va) (λ e. cc (at_l1, e))
            (inl (apart place l1 l2 _ _ at_l1 at_l2 (λ e. cc e)))

      -- Any change of the last table alone leaves the way to it.
      follow :
          (s₄ : Tables)
          → ((x j : ℕ) → x ≢ l3 → s₄.entry x j ≡ s₃.entry x j)
          → translate root va s₄ ≡ translate_page l3 va s₄
      follow s₄ keep =
          let p₁ = g.kept_place l1 (λ e. cc (at_l1, e)) ∙ at_l1 in
          let p₂ = g.kept_place l2 (λ e. cc (at_l2, e)) ∙ at_l2 in
          let k₀ =
            keep root (index_l0 va)
              (apart g.place' root l3 _ _ g.tree.at_root g.at_place (λ e. cc e))
            ∙ entry₀ in
          let k₁ =
            keep l1 (index_l1 va) (apart g.place' l1 l3 _ _ p₁ g.at_place (λ e. cc e)) ∙ entry₁ in
          let k₂ = keep l2 (index_l2 va) (apart g.place' l2 l3 _ _ p₂ g.at_place (λ e. cc e)) in
          follow_tables root l1 l2 l3 va s₄ (rw k₀ v₀) (rw k₀ b₀) (rw k₁ v₁) (rw k₁ b₁)
            (rw k₂ tabled) (rw k₂ g.base)

      already-Answer : s₃.entry l3 (index_l3 va) % 2 ≡ 1 → Answer root va pa s (already_mapped s₃)
      unfolding translate_page
      already-Answer odd = (
        record { place = g.place'; tree = g.tree; fresh = g.fresh },
        same₃,
        (λ e.
            let there : (s₃.entry l3 (index_l3 va) % 2 == 0) ≡ false = (ground arith) in
            let found : translate_page l3 va s₃
                ≡ some (page_base (s₃.entry l3 (index_l3 va)) + va % 2 ^ 12) =
              rw there refl in
            cc (sym (follow s₃ (λ x j ne. refl)) ∙ same₃ va ∙ e, found)),
      )

      mapped-Answer :
          Answer root va pa s
            (mapped (write_entry l3 (index_l3 va) (page_entry pa attr_index level) s₃))
      unfolding translate_page
      mapped-Answer =
          let e = page_entry pa attr_index level in
          let s₄ = write_entry l3 (index_l3 va) e s₃ in
          let (base, low) = page_entry_lem pa attr_index level in
          (
            record {
              place = g.place';
              tree =
                  write-IsTree root g.place' s₃ g.tree l3 (index_l0 va) (index_l1 va) (index_l2 va)
                    (index_l3 va) e g.at_place;
              fresh = g.fresh;
            },
            follow s₄ (λ x j ne. ground arith) ∙ ground (arith, base, low),
            λ wa hv hw ne.
                write-translate_other root g.place' s₃ g.tree l3 (index_l0 va) (index_l1 va)
                  (index_l2 va) (index_l3 va) e g.at_place wa
                  (λ a b c d. ne (same_page wa va hw hv a b c d))
                ∙ same₃ wa,
          )

-- On a tree of tables, with three pages to spare, `mmu_map_4kb` answers, and leaves a tree. Where it
-- maps the page, the hardware then finds the page at `va`, and every other page below 2 ^ 48 where it
-- was before; where it refuses, no translation has changed, and `va` had one.
pub mmu_map_4kb-Answer :
    (root va pa : ℕ) (attr_index : MairIndex) (level : Access) (s : Tables)
    → IsSound root s
    → 3 ≤ length s.fresh
    → (r : Mapped) × (mmu_map_4kb root va pa attr_index level s ≡ some r) × Answer root va pa s r
unfolding mmu_map_4kb
mmu_map_4kb-Answer root va pa attr_index level s v enough =
    let i₀ = index_l0 va in
    let i₁ = index_l1 va in
    let i₂ = index_l2 va in
    let (l1, s₁, e₁, g₁) =
      next_table-Stepped root v.place s v.tree i₀ root top v.tree.at_root tt (λ _. refl) tt v.fresh
        (omega arith) in
    let (l2, s₂, e₂, g₂) =
      next_table-Stepped root g₁.place' s₁ g₁.tree i₁ l1 (under_l0 i₀) g₁.at_place tt
        (λ e. absurd (cc e)) tt g₁.fresh (omega (arith, g₁.spare)) in
    let at_l1 = g₂.kept_place l1 (λ e. cc (g₁.at_place, e)) ∙ g₁.at_place in
    let keep =
      g₂.kept root i₀ (λ e. cc (g₁.tree.at_root, e))
        (inl (apart g₁.place' root l1 _ _ g₁.tree.at_root g₁.at_place (λ e. cc e))) in
    let same : SameTranslations root s s₂ = (λ wa. g₂.same wa ∙ g₁.same wa) in
    let v₀ : s₂.entry root i₀ % 2 ≡ 1 = (rw keep g₁.valid) in
    let b₀ : page_base (s₂.entry root i₀) ≡ l1 = (rw keep g₁.base) in
    elim (Bool-cases (s₂.entry l2 i₂ % 4 == 1)) [
      | inl block ↦ (
        in_block s₂,
        rw (e₁, e₂, block) refl,
        in_block-Answer root va pa attr_index level s l1 l2 s₂ g₂.place' g₂.tree g₂.fresh same at_l1
            g₂.at_place v₀ b₀ g₂.valid g₂.base (eq_of_== (s₂.entry l2 i₂ % 4) 1 block),
      )
      | inr table ↦
          let no_block : s₂.entry l2 i₂ % 4 ≢ 1 = (ne_of_== (s₂.entry l2 i₂ % 4) 1 table) in
          let (l3, s₃, e₃, g₃) =
            next_table-Stepped root g₂.place' s₂ g₂.tree i₂ l2 (under_l1 i₀ i₁) g₂.at_place tt
              (λ e. absurd (cc e)) no_block g₂.fresh (omega (arith, g₁.spare, g₂.spare)) in
          elim (Bool-cases (s₃.entry l3 (index_l3 va) % 2 == 1)) [
            | inl taken ↦ (
              already_mapped s₃,
              rw (e₁, e₂, table, e₃, taken) refl,
              already-Answer root va pa attr_index level s l1 l2 s₂ g₂.place' g₂.tree g₂.fresh same
                  at_l1 g₂.at_place v₀ b₀ g₂.valid g₂.base l3 s₃ g₃ no_block
                  (eq_of_== (s₃.entry l3 (index_l3 va) % 2) 1 taken),
            )
            | inr free ↦ (
              mapped (write_entry l3 (index_l3 va) (page_entry pa attr_index level) s₃),
              rw (e₁, e₂, table, e₃, free) refl,
              mapped-Answer root va pa attr_index level s l1 l2 s₂ g₂.place' g₂.tree g₂.fresh same
                  at_l1 g₂.at_place v₀ b₀ g₂.valid g₂.base l3 s₃ g₃ no_block,
            )
          ]
    ]
