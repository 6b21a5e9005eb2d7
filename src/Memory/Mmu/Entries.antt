-- ===== src/Memory/Mmu/Entries.antt =====
-- What the entries of kernel/memory/mmu.c say: an address, and in the low bits what it is of.
use ionutnechita_redacted_os.Base.{
  ℕ, ◌+◌, ◌-◌, ◌*◌, ◌/◌, ◌%◌, ◌^◌, ◌<◌, ◌≡◌, refl, ap, arith, ◌∙◌, bit_or, bit_and,
}
use ionutnechita_redacted_os.Base.Bits.{bit_and_high, bit_and_low, bit_or_join, bit_or_fields}
use ionutnechita_redacted_os.Memory.Mmu.{
  MairIndex, device, normal, Access, el0, el1, shared, address_of, table_entry, page_attr,
  page_entry, index_l0, index_l1, index_l2, index_l3,
}

-- The page of a word, below 2 ^ 48.
abbrev pub page_base : ℕ → ℕ
page_base x = x / 2 ^ 12 % 2 ^ 36 * 2 ^ 12

pub address_of-page_base : (x : ℕ) → address_of x ≡ page_base x
unfolding address_of
address_of-page_base x =
    ap (λ (t : ℕ). bit_and t ((2 ^ 36 - 1) * 2 ^ 12)) (split x)
    ∙ bit_and_high 12 (x / 2 ^ 12) (2 ^ 36 - 1) (x % 2 ^ 12) (omega arith)
    ∙ ap (λ (t : ℕ). t * 2 ^ 12) (bit_and_low 36 (x / 2 ^ 12))
  where
    split : (x : ℕ) → x ≡ x / 2 ^ 12 * 2 ^ 12 + x % 2 ^ 12
    split x = omega arith

pub table_entry_lem : (t : ℕ) → table_entry t ≡ page_base t + 3
unfolding table_entry
table_entry_lem t =
    ap (λ (u : ℕ). bit_or u 3) (address_of-page_base t)
    ∙ bit_or_join 12 (t / 2 ^ 12 % 2 ^ 36) 3 (omega arith)

-- The attributes stand below bit 12 and above bit 48.
attr_parts :
    (a : MairIndex) (l : Access)
    → (u v : ℕ) × (page_attr a l ≡ u * 2 ^ 48 + v) × (v < 2 ^ 12) × (v % 4 ≡ 3)
unfolding page_attr
attr_parts device el0 = (0, 0x543, refl, omega arith, refl)
attr_parts device el1 = (64, 0x503, refl, omega arith, refl)
attr_parts device shared = (0, 0x583, refl, omega arith, refl)
attr_parts normal el0 = (0, 0x547, refl, omega arith, refl)
attr_parts normal el1 = (64, 0x507, refl, omega arith, refl)
attr_parts normal shared = (0, 0x587, refl, omega arith, refl)

-- The entry of a page keeps the page's address, and says that it is valid and not a block.
pub page_entry_lem :
    (pa : ℕ) (a : MairIndex) (l : Access)
    → (page_base (page_entry pa a l) ≡ page_base pa) × (page_entry pa a l % 4 ≡ 3)
unfolding page_entry
page_entry_lem pa a l =
    let (u, v, e, lt, m) = attr_parts a l in
    let low : bit_or (page_base pa) v ≡ page_base pa + v =
      bit_or_join 12 (pa / 2 ^ 12 % 2 ^ 36) v lt in
    let whole : bit_or (0 * 2 ^ 48 + page_base pa) (u * 2 ^ 48 + v)
        ≡ bit_or 0 u * 2 ^ 48 + bit_or (page_base pa) v =
      bit_or_fields 48 0 u (page_base pa) v (omega arith) (omega arith) in
    let none_before : 0 * 2 ^ 48 + page_base pa ≡ page_base pa = omega arith in
    rw (address_of-page_base pa, e) (omega (arith, low, rw none_before at whole, m, lt))

pub index_l0_lem : (va : ℕ) → index_l0 va ≡ va / 2 ^ 39 % 512
index_l0_lem va = bit_and_low 9 (va / 2 ^ 39)

pub index_l1_lem : (va : ℕ) → index_l1 va ≡ va / 2 ^ 30 % 512
index_l1_lem va = bit_and_low 9 (va / 2 ^ 30)

pub index_l2_lem : (va : ℕ) → index_l2 va ≡ va / 2 ^ 21 % 512
index_l2_lem va = bit_and_low 9 (va / 2 ^ 21)

pub index_l3_lem : (va : ℕ) → index_l3 va ≡ va / 2 ^ 12 % 512
index_l3_lem va = bit_and_low 9 (va / 2 ^ 12)

-- Two addresses below 2 ^ 48 whose four indices agree lie in the same page.
pub same_page :
    (va wa : ℕ)
    → va < 2 ^ 48
    → wa < 2 ^ 48
    → index_l0 va ≡ index_l0 wa
    → index_l1 va ≡ index_l1 wa
    → index_l2 va ≡ index_l2 wa
    → index_l3 va ≡ index_l3 wa
    → va / 2 ^ 12 ≡ wa / 2 ^ 12
same_page va wa hv hw e₀ e₁ e₂ e₃ = omega (
  arith,
  index_l0_lem va,
  index_l0_lem wa,
  index_l1_lem va,
  index_l1_lem wa,
  index_l2_lem va,
  index_l2_lem wa,
  index_l3_lem va,
  index_l3_lem wa,
)
