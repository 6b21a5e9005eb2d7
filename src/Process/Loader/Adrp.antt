-- ===== src/Process/Loader/Adrp.antt =====
-- Addresses of data that kernel/process/loading/process_loader.c moves.
use ionutnechita_redacted_os.Base.{
  ℕ, ◌+◌, ◌-◌, ◌*◌, ◌/◌, ◌%◌, ◌^◌, ◌≤◌, ◌<◌, ◌≡◌, refl, ap, true, false, arith, ◌⊎◌, inl, inr, u64,
  u32, sub64, ◌∙◌, ap₂, ◌>>>◌, bit_or, bit_and,
}
use ionutnechita_redacted_os.Base.Bits.{
  bit_and_low, bit_and_round, bit_and_fields, bit_or_join, bit_or_comm, bit_or_fields,
}
use ionutnechita_redacted_os.Process.Loader.{
  ProcessLayout, sign_extend, in_data, page_of, adrp_target, with_page_distance, print_adrp,
}

or_zero : (r : ℕ) → r < 2 ^ 64 → bit_or r 0 ≡ r
or_zero r h =
    bit_or_comm r 0
    ∙ ap (λ (t : ℕ). bit_or t r) {x = 0} {y = 0 * 2 ^ 64} refl
    ∙ bit_or_join 64 0 r h
    ∙ omega arith

-- The field of bits 29 and 30 is cleared.
cleared_lo : (x : ℕ) → x < 2 ^ 32 → bit_and x 0x9FFFFFFF ≡ x / 2 ^ 31 * 2 ^ 31 + x % 2 ^ 29
cleared_lo x h =
    ap (λ (t : ℕ). bit_and t (4 * 2 ^ 29 + (2 ^ 29 - 1))) {x = x}
      {y = x / 2 ^ 29 * 2 ^ 29 + x % 2 ^ 29} (omega arith)
    ∙ bit_and_fields 29 (x / 2 ^ 29) 4 (x % 2 ^ 29) (2 ^ 29 - 1) (omega arith) (omega arith)
    ∙ omega (arith, bit_and_round 2 1 (x / 2 ^ 29) (omega arith), bit_and_low 29 (x % 2 ^ 29))

filled_lo :
    (b lo r : ℕ)
    → lo < 4
    → r < 2 ^ 29
    → bit_or (b * 2 ^ 31 + r) (lo * 2 ^ 29) ≡ (b * 4 + lo) * 2 ^ 29 + r
filled_lo b lo r hl hr =
    let high : b * 2 ^ 31 + r ≡ b * 4 * 2 ^ 29 + r = omega arith in
    let field : lo * 2 ^ 29 ≡ lo * 2 ^ 29 + 0 = omega arith in
    ap₂ bit_or high field
    ∙ bit_or_fields 29 (b * 4) lo r 0 hr (omega arith)
    ∙ omega (arith, bit_or_join 2 b lo hl, or_zero r (omega arith))

-- The field of bits 5 to 23.
cleared_hi : (x : ℕ) → x < 2 ^ 32 → bit_and x 0xFF00001F ≡ x / 2 ^ 24 * 2 ^ 24 + x % 2 ^ 5
cleared_hi x h =
    let parts : x ≡ x / 2 ^ 24 * 2 ^ 24 + x % 2 ^ 24 = omega arith in
    ap (λ (t : ℕ). bit_and t (0xFF * 2 ^ 24 + 0x1F)) parts
    ∙ bit_and_fields 24 (x / 2 ^ 24) 0xFF (x % 2 ^ 24) 0x1F (omega arith) (omega arith)
    ∙ omega (arith, bit_and_low 8 (x / 2 ^ 24), bit_and_low 5 (x % 2 ^ 24))

filled_hi :
    (b hi r : ℕ)
    → hi < 2 ^ 19
    → r < 2 ^ 5
    → b < 2 ^ 8
    → bit_or (b * 2 ^ 24 + r) (hi * 2 ^ 5) ≡ b * 2 ^ 24 + hi * 2 ^ 5 + r
filled_hi b hi r hh hr hb =
    let field : hi * 2 ^ 5 ≡ 0 * 2 ^ 24 + hi * 2 ^ 5 = omega arith in
    ap (bit_or (b * 2 ^ 24 + r)) field
    ∙ bit_or_fields 24 b 0 r (hi * 2 ^ 5) (omega arith) (omega arith)
    ∙ omega (arith, or_zero b (omega arith), bit_or_comm r (hi * 2 ^ 5), bit_or_join 5 hi r hr)

-- The word with both fields of the distance, and the rest as it was.
with_page_distance_lem :
    (instr n : ℕ)
    → instr < 2 ^ 32
    → let r = with_page_distance instr n in
      (r / 2 ^ 5 % 2 ^ 19 ≡ n / 2 ^ 14 % 2 ^ 19)
      × (r / 2 ^ 29 % 4 ≡ n / 2 ^ 12 % 4)
      × (r % 2 ^ 5 ≡ instr % 2 ^ 5)
      × (r / 2 ^ 24 % 2 ^ 5 ≡ instr / 2 ^ 24 % 2 ^ 5)
      × (r / 2 ^ 31 ≡ instr / 2 ^ 31)
unfolding with_page_distance
with_page_distance_lem instr n h =
    let lo = n / 2 ^ 12 % 4 in
    let hi = n / 2 ^ 14 % 2 ^ 19 in
    let b = (instr / 2 ^ 31 * 4 + lo) * 2 ^ 29 + instr % 2 ^ 29 in
    let word : with_page_distance instr n ≡ b / 2 ^ 24 * 2 ^ 24 + hi * 2 ^ 5 + b % 2 ^ 5 =
      (ap₂
          (λ (x y : ℕ).
            bit_or (bit_and (bit_or (bit_and instr 0x9FFFFFFF) (x * 2 ^ 29)) 0xFF00001F)
              (y * 2 ^ 5))
          (bit_and_low 2 (n >>> 12)) (bit_and_low 19 (n >>> 14))
        ∙ ap (λ (t : ℕ). bit_or (bit_and (bit_or t (lo * 2 ^ 29)) 0xFF00001F) (hi * 2 ^ 5))
            (cleared_lo instr h)
        ∙ ap (λ (t : ℕ). bit_or (bit_and t 0xFF00001F) (hi * 2 ^ 5))
            (filled_lo (instr / 2 ^ 31) lo (instr % 2 ^ 29) (omega arith) (omega arith))
        ∙ ap (λ (t : ℕ). bit_or t (hi * 2 ^ 5)) (cleared_hi b (omega arith))
        ∙ filled_hi (b / 2 ^ 24) hi (b % 2 ^ 5) (omega arith) (omega arith) (omega arith)) in
    omega (arith, word)

page_lem : (x : ℕ) → x < 2 ^ 64 → page_of x ≡ x / 2 ^ 12 * 2 ^ 12
page_lem x h = bit_and_round 12 52 x h

-- The 21 bits of the distance in pages.
abbrev pub page_field : ℕ → ℕ
page_field instr = instr / 2 ^ 5 % 2 ^ 19 * 4 + instr / 2 ^ 29 % 4

-- The page that an AArch64 processor forms for an `adrp` at `pc`: all 21 bits count.
abbrev pub formed_page : ℕ → ℕ → ℕ
formed_page instr pc = u64 (pc / 2 ^ 12 * 2 ^ 12 + sign_extend 33 (page_field instr * 2 ^ 12))

-- What the function takes it to be.
adrp_target_lem :
    (instr pc : ℕ)
    → pc < 2 ^ 64
    → adrp_target instr pc
      ≡ u64 (pc / 2 ^ 12 * 2 ^ 12 + sign_extend 32 (u32 (page_field instr * 2 ^ 12)))
unfolding adrp_target
adrp_target_lem instr pc h =
    ap₂ (λ (x y : ℕ). u64 (page_of pc + sign_extend 32 (u32 (bit_or (x * 4) y * 2 ^ 12))))
      (bit_and_low 19 (instr >>> 5)) (bit_and_low 2 (instr >>> 29))
    ∙ ap₂ (λ (x y : ℕ). u64 (x + sign_extend 32 (u32 (y * 2 ^ 12)))) (page_lem pc h)
        (bit_or_join 2 (instr / 2 ^ 5 % 2 ^ 19) (instr / 2 ^ 29 % 4) (omega arith))

same_sign :
    (f : ℕ)
    → f < 2 ^ 21
    → (f < 2 ^ 19) ⊎ (3 * 2 ^ 19 ≤ f)
    → sign_extend 32 (u32 (f * 2 ^ 12)) ≡ sign_extend 33 (f * 2 ^ 12)
same_sign f h (inl low) = ground arith
same_sign f h (inr high) = ground arith

-- Within 2 GiB the two agree.
adrp_target-formed :
    (instr pc : ℕ)
    → pc < 2 ^ 64
    → (page_field instr < 2 ^ 19) ⊎ (3 * 2 ^ 19 ≤ page_field instr)
    → adrp_target instr pc ≡ formed_page instr pc
adrp_target-formed instr pc h near =
    adrp_target_lem instr pc h
    ∙ ap (λ (t : ℕ). u64 (pc / 2 ^ 12 * 2 ^ 12 + t))
        (same_sign (page_field instr) (omega arith) near)

-- A distance of whole pages within 4 GiB comes back from its 21 bits.
page_distance_lem :
    (n : ℕ)
    → n < 2 ^ 64
    → n % 2 ^ 12 ≡ 0
    → (n < 2 ^ 32) ⊎ (2 ^ 64 ≤ n + 2 ^ 32)
    → sign_extend 33 ((n / 2 ^ 14 % 2 ^ 19 * 4 + n / 2 ^ 12 % 4) * 2 ^ 12) ≡ n
page_distance_lem n h page (inl near) = ground arith
page_distance_lem n h page (inr near) = ground arith

field_near :
    (n f : ℕ)
    → n < 2 ^ 64
    → f ≡ n / 2 ^ 12 % 2 ^ 21
    → (n < 2 ^ 31) ⊎ (2 ^ 64 ≤ n + 2 ^ 31)
    → (f < 2 ^ 19) ⊎ (3 * 2 ^ 19 ≤ f)
field_near n f h e (inl near) = inl (omega arith)
field_near n f h e (inr near) = inr (omega arith)

-- Where the instruction, and the data that it is about, stand afterwards.
abbrev pub moved_code : ℕ → ProcessLayout → ProcessLayout → ℕ
moved_code pc source destination =
    u64 (destination.code_base_start + sub64 pc source.code_base_start)

abbrev pub moved_data : ℕ → ProcessLayout → ProcessLayout → ℕ
moved_data a source destination = u64 (destination.data_start + sub64 a source.data_start)

outside_word :
    (instr pc : ℕ) (source destination : ProcessLayout)
    → in_data source (adrp_target instr pc) ≡ false
    → print_adrp instr pc true source destination ≡ instr
unfolding print_adrp
outside_word instr pc source destination outside = rw outside refl

inside_word :
    (instr pc : ℕ) (source destination : ProcessLayout)
    → in_data source (adrp_target instr pc) ≡ true
    → print_adrp instr pc true source destination
      ≡ with_page_distance instr (
          sub64
            (moved_data (adrp_target instr pc) source destination)
            (page_of (moved_code pc source destination)))
unfolding print_adrp
inside_word instr pc source destination inside = rw inside refl

-- The word with the distance, at its new place.
moved_word :
    (instr instr' from to : ℕ)
    → let distance = sub64 to (from / 2 ^ 12 * 2 ^ 12) in
      instr' ≡ with_page_distance instr distance
      → instr < 2 ^ 32
      → from < 2 ^ 64
      → to < 2 ^ 64
      → to % 2 ^ 12 ≡ 0
      → (distance < 2 ^ 32) ⊎ (2 ^ 64 ≤ distance + 2 ^ 32)
      → (formed_page instr' from ≡ to)
        × (page_field instr' ≡ distance / 2 ^ 12 % 2 ^ 21)
        × (instr' % 2 ^ 5 ≡ instr % 2 ^ 5)
        × (instr' / 2 ^ 24 % 2 ^ 5 ≡ instr / 2 ^ 24 % 2 ^ 5)
        × (instr' / 2 ^ 31 ≡ instr / 2 ^ 31)
moved_word instr instr' from to e h hf ht whole near =
    let n = sub64 to (from / 2 ^ 12 * 2 ^ 12) in
    let (hi, lo, rd, op, top) = with_page_distance_lem instr n h in
    let there = page_distance_lem n (omega arith) (omega (arith, whole)) near in
    let base = from / 2 ^ 12 * 2 ^ 12 in
    (
      ap₂ (λ (x y : ℕ). u64 (base + sign_extend 33 ((x * 4 + y) * 2 ^ 12)))
            (ap (λ (t : ℕ). t / 2 ^ 5 % 2 ^ 19) e ∙ hi) (ap (λ (t : ℕ). t / 2 ^ 29 % 4) e ∙ lo)
          ∙ ap (λ (t : ℕ). u64 (base + t)) there
          ∙ omega arith,
      ap₂ (λ (x y : ℕ). x * 4 + y) (ap (λ (t : ℕ). t / 2 ^ 5 % 2 ^ 19) e ∙ hi)
            (ap (λ (t : ℕ). t / 2 ^ 29 % 4) e ∙ lo)
          ∙ omega arith,
      ap (λ (t : ℕ). t % 2 ^ 5) e ∙ rd,
      ap (λ (t : ℕ). t / 2 ^ 24 % 2 ^ 5) e ∙ op,
      ap (λ (t : ℕ). t / 2 ^ 31) e ∙ top,
    )

-- An `adrp` whose distance is within 2 GiB is taken for the page that it forms. If that is a page of
-- the data, and its new address is the address of a page and within 4 GiB, then at the new place the
-- instruction forms that address, and is taken for it within 2 GiB; the register and the operation
-- stay. An `adrp` of anything else is left as it is.
pub print_adrp-target :
    (instr pc : ℕ) (source destination : ProcessLayout)
    → instr < 2 ^ 32
    → pc < 2 ^ 64
    → let target = adrp_target instr pc in
      let from = moved_code pc source destination in
      let to = moved_data target source destination in
      let distance = sub64 to (from / 2 ^ 12 * 2 ^ 12) in
      let instr' = print_adrp instr pc true source destination in
      ((page_field instr < 2 ^ 19) ⊎ (3 * 2 ^ 19 ≤ page_field instr)
        → target ≡ formed_page instr pc)
      × (in_data source target ≡ false → instr' ≡ instr)
      × (in_data source target ≡ true
          → to % 2 ^ 12 ≡ 0
          → (distance < 2 ^ 32) ⊎ (2 ^ 64 ≤ distance + 2 ^ 32)
          → (formed_page instr' from ≡ to)
            × ((distance < 2 ^ 31) ⊎ (2 ^ 64 ≤ distance + 2 ^ 31) → adrp_target instr' from ≡ to)
            × (instr' % 2 ^ 5 ≡ instr % 2 ^ 5)
            × (instr' / 2 ^ 24 % 2 ^ 5 ≡ instr / 2 ^ 24 % 2 ^ 5)
            × (instr' / 2 ^ 31 ≡ instr / 2 ^ 31))
print_adrp-target instr pc source destination h hp =
    let target = adrp_target instr pc in
    let from = moved_code pc source destination in
    let to = moved_data target source destination in
    let n = sub64 to (from / 2 ^ 12 * 2 ^ 12) in
    let page = page_lem from (omega arith) in
    (
      (λ near. adrp_target-formed instr pc hp near),
      (λ outside. outside_word instr pc source destination outside),
      λ inside whole near.
          let word : print_adrp instr pc true source destination ≡ with_page_distance instr n =
            (inside_word instr pc source destination inside
              ∙ ap (λ (t : ℕ). with_page_distance instr (sub64 to t)) page) in
          let instr' = print_adrp instr pc true source destination in
          let (formed, field, rd, op, top) =
            moved_word instr instr' from to word h (omega arith) (omega arith) whole near in
          (
            formed,
            (λ nearer.
                adrp_target-formed instr' from (omega arith)
                  (field_near n (page_field instr') (omega arith) field nearer)
                ∙ formed),
            rd,
            op,
            top,
          ),
    )
