-- ===== src/Process/Loader/Branch.antt =====
-- Branches that kernel/process/loading/process_loader.c moves.
use ionutnechita_redacted_os.Base.{
  ℕ, ◌+◌, ◌*◌, ◌/◌, ◌%◌, ◌^◌, ◌≤◌, ◌<◌, ◌≡◌, refl, ap, true, false, arith, ◌⊎◌, inl, inr, u64, u32,
  sub64, ◌∙◌, sym, ap₂, ◌>>>◌, bit_or, bit_and,
}
use ionutnechita_redacted_os.Base.Bits.{bit_and_low, bit_and_round, bit_or_join}
use ionutnechita_redacted_os.Process.Loader.{
  ProcessLayout, sign_extend, branch_target, in_code, word_distance, print_branch, cond_target,
  print_cond_branch,
}

low26 : (x : ℕ) → bit_and x 0x03FFFFFF ≡ x % 2 ^ 26
low26 x = bit_and_low 26 x

-- The word with its low 26 bits replaced.
replaced :
    (instr w : ℕ)
    → instr < 2 ^ 32
    → w < 2 ^ 26
    → bit_or (bit_and instr 0xFC000000) w ≡ instr / 2 ^ 26 * 2 ^ 26 + w
replaced instr w h hw =
    ap (λ (t : ℕ). bit_or t w) (bit_and_round 26 6 instr h) ∙ bit_or_join 26 (instr / 2 ^ 26) w hw

-- A distance of whole words within 128 MiB comes back from its 26 bits.
distance_lem :
    (d : ℕ)
    → d < 2 ^ 64
    → d % 4 ≡ 0
    → (d < 2 ^ 27) ⊎ (2 ^ 64 ≤ d + 2 ^ 27)
    → sign_extend 28 (d / 4 % 2 ^ 26 * 4) ≡ d
distance_lem d h four (inl near) = ground arith
distance_lem d h four (inr near) = ground arith

-- Where the word at `pc` stands afterwards.
abbrev pub moved : ℕ → ProcessLayout → ProcessLayout → ℕ
moved pc source destination =
    u64 (destination.code_base_start + u32 (sub64 pc source.code_base_start))

word_distance_lem : (a b : ℕ) → word_distance a b ≡ sub64 a b / 4 % 2 ^ 26
word_distance_lem a b = low26 (sub64 a b / 4)

target_lem :
    (instr pc : ℕ) → branch_target instr pc ≡ u64 (pc + sign_extend 28 (instr % 2 ^ 26 * 4))
unfolding branch_target
target_lem instr pc = ap (λ (t : ℕ). u64 (pc + sign_extend 28 (t * 4))) (low26 instr)

target_aligned : (instr pc : ℕ) → pc % 4 ≡ 0 → branch_target instr pc % 4 ≡ 0
target_aligned instr pc h = ground (arith, target_lem instr pc)

external_word :
    (instr pc : ℕ) (source destination : ProcessLayout)
    → instr < 2 ^ 32
    → in_code source (branch_target instr pc) ≡ false
    → print_branch instr pc true source destination
      ≡ instr / 2 ^ 26 * 2 ^ 26
        + sub64 (branch_target instr pc) (moved pc source destination) / 4 % 2 ^ 26
unfolding print_branch
external_word instr pc source destination h ext = rw ext (
    replaced instr (word_distance (branch_target instr pc) (moved pc source destination)) h
      (omega (arith, word_distance_lem (branch_target instr pc) (moved pc source destination)))
    ∙ ap (λ (t : ℕ). instr / 2 ^ 26 * 2 ^ 26 + t)
        (word_distance_lem (branch_target instr pc) (moved pc source destination)))

internal_word :
    (instr pc : ℕ) (source destination : ProcessLayout)
    → in_code source (branch_target instr pc) ≡ true
    → print_branch instr pc true source destination ≡ instr
unfolding print_branch
internal_word instr pc source destination int = rw int refl

back : (t from d : ℕ) → t < 2 ^ 64 → from < 2 ^ 64 → d ≡ sub64 t from → u64 (from + d) ≡ t
back t from d ht hf e = omega arith

-- A branch out of the code, at addresses that are multiples of 4, leads to the same address from its
-- new place, if that is within 128 MiB, and keeps its operation; a branch within the code stays as
-- it is.
pub print_branch-target :
    (instr pc : ℕ) (source destination : ProcessLayout)
    → instr < 2 ^ 32
    → pc % 4 ≡ 0
    → moved pc source destination % 4 ≡ 0
    → let target = branch_target instr pc in
      let distance = sub64 target (moved pc source destination) in
      let instr' = print_branch instr pc true source destination in
      (in_code source target ≡ true → instr' ≡ instr)
      × (in_code source target ≡ false
          → (distance < 2 ^ 27) ⊎ (2 ^ 64 ≤ distance + 2 ^ 27)
          → (branch_target instr' (moved pc source destination) ≡ target)
            × (instr' / 2 ^ 26 ≡ instr / 2 ^ 26))
print_branch-target instr pc source destination h four four' =
    let target = branch_target instr pc in
    let from = moved pc source destination in
    (
      (λ int. internal_word instr pc source destination int),
      λ ext near.
          let d = sub64 target from in
          let instr' = print_branch instr pc true source destination in
          let word = external_word instr pc source destination h ext in
          let low : instr' % 2 ^ 26 ≡ d / 4 % 2 ^ 26 = omega (arith, word) in
          let below : target < 2 ^ 64 = omega (arith, target_lem instr pc) in
          (
            target_lem instr' from
                ∙ ap (λ (t : ℕ). u64 (from + sign_extend 28 (t * 4))) low
                ∙ ap (λ (t : ℕ). u64 (from + t))
                    (distance_lem d (omega arith)
                      (omega (arith, target_aligned instr pc four, four')) near)
                ∙ back target from d below (omega arith) refl,
            omega (arith, word),
          ),
    )

cond_word :
    (instr pc : ℕ) (source destination : ProcessLayout)
    → instr < 2 ^ 32
    → in_code source (cond_target instr pc) ≡ false
    → print_cond_branch instr pc true source destination
      ≡ instr / 2 ^ 26 * 2 ^ 26
        + sub64 (cond_target instr pc) (moved pc source destination) / 4 % 2 ^ 26
unfolding print_cond_branch
cond_word instr pc source destination h ext = rw ext (
    replaced instr (word_distance (cond_target instr pc) (moved pc source destination)) h
      (omega (arith, word_distance_lem (cond_target instr pc) (moved pc source destination)))
    ∙ ap (λ (t : ℕ). instr / 2 ^ 26 * 2 ^ 26 + t)
        (word_distance_lem (cond_target instr pc) (moved pc source destination)))

cond_target_of_field :
    (x y pc : ℕ) → x / 2 ^ 5 % 2 ^ 19 ≡ y / 2 ^ 5 % 2 ^ 19 → cond_target x pc ≡ cond_target y pc
unfolding cond_target
cond_target_of_field x y pc e =
    ap (λ (t : ℕ). u64 (pc + sign_extend 21 (t * 4)))
      (bit_and_low 19 (x >>> 5) ∙ e ∙ sym (bit_and_low 19 (y >>> 5)))

-- A conditional branch out of the code is written over like an unconditional one: two that differ in
-- their conditions, the low four bits, become one and the same word.
pub print_cond_branch_loses_condition :
    (instr instr' pc : ℕ) (source destination : ProcessLayout)
    → instr < 2 ^ 32
    → instr' < 2 ^ 32
    → instr / 2 ^ 4 ≡ instr' / 2 ^ 4
    → in_code source (cond_target instr pc) ≡ false
    → print_cond_branch instr pc true source destination
      ≡ print_cond_branch instr' pc true source destination
print_cond_branch_loses_condition instr instr' pc source destination h h' e ext =
    let same = cond_target_of_field instr instr' pc (omega arith) in
    cond_word instr pc source destination h ext
    ∙ ap₂ (λ (a b : ℕ). a * 2 ^ 26 + sub64 b (moved pc source destination) / 4 % 2 ^ 26)
        (omega arith) same
    ∙ sym (cond_word instr' pc source destination h' (rw (sym same) ext))
