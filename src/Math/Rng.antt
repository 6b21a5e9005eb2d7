-- ===== src/Math/Rng.antt =====
-- shared/math/rng.c, the xoroshiro128+ generator. Memory is a function from an address to its
-- byte, and a store of more than one byte is little-endian. The seed that `rng_init_random` reads
-- from the counter register is its parameter. The number of elements filled is below 2 ^ 32: the
-- counter of the loops has 32 bits.
pub mod Range
pub mod Fill
mod Tests
use ionutnechita_redacted_os.Base.{
  ℕ, zero, suc, ◌+◌, ◌-◌, ◌*◌, ◌/◌, ◌%◌, ◌^◌, ◌≤◌, ◌<◌, ◌≡◌, ◌≢◌, ◌↔◌, refl, ap, Bool, true, false,
  Option, none, some, List, [], ◌∷◌, ◌++◌, arith, length, length-set, get_or, set,
  get_elem?-eq-get_or, ◌⊎◌, inl, inr, ◌==◌, ltb, leb, if◌then◌else◌, u64, u32, sub64, sub32,
  bswap16, bswap32, u8, u16, Bool-cases, store?, store?-eq-set, get_elem?, ◌>>=◌, ◌∙◌, sym, ap₂,
  min, max, ◌&&◌, ◌||◌, not, take, drop, replicate, length-append, length-replicate, append-nil,
  append_assoc, ◌>>>◌, bit_or, bit_and, bit_xor, ltb→lt, lt→ltb, le→ltb_false,
}

pub record Rng : Type 0 where
  pub s0 : ℕ
  pub s1 : ℕ

-- `z ^ (z >> 31)` behind two such steps with a multiplication, at `z`.
abbrev mix : ℕ → ℕ
mix z =
    let z₁ = u64 (bit_xor z (z >>> 30) * 0xBF58476D1CE4E5B9) in
    let z₂ = u64 (bit_xor z₁ (z₁ >>> 27) * 0x94D049BB133111EB) in bit_xor z₂ (z₂ >>> 31)

pub rng_seed : ℕ → Rng
rng_seed seed = record {
  s0 = mix (u64 (seed + 0x9E3779B97F4A7C15));
  s1 = mix (u64 (seed + 0x9E3779B97F4A7C15 + 1));
}

pub rng_init_random : ℕ → Rng
unfolding rng_seed
rng_init_random counter = rng_seed counter

pub rotl : ℕ → ℕ → ℕ
rotl x k = bit_or (u64 (x * 2 ^ k)) (x >>> (64 - k))

pub rng_next64 : Rng → ℕ × Rng
unfolding rotl
rng_next64 r =
    let s1 = bit_xor r.s1 r.s0 in
    (
      u64 (r.s0 + r.s1),
      record { s0 = bit_xor (bit_xor (rotl r.s0 55) s1) (u64 (s1 * 2 ^ 14)); s1 = rotl s1 36 },
    )

pub rng_next32 : Rng → ℕ × Rng
rng_next32 r = let (v, r') = rng_next64 r in (u32 (v >>> 32), r')

pub rng_next16 : Rng → ℕ × Rng
rng_next16 r = let (v, r') = rng_next64 r in (u16 (v >>> 48), r')

pub rng_next8 : Rng → ℕ × Rng
rng_next8 r = let (v, r') = rng_next64 r in (u8 (v >>> 56), r')

pub rng_between64 : Rng → ℕ → ℕ → ℕ × Rng
rng_between64 r min max =
    if leb max min
    then (min, r)
    else (let (v, r') = rng_next64 r in (u64 (v % (max - min) + min), r'))

pub rng_between32 : Rng → ℕ → ℕ → ℕ × Rng
rng_between32 r min max =
    if leb max min
    then (min, r)
    else (let (v, r') = rng_next64 r in (u32 (v % (max - min) + min), r'))

pub rng_between16 : Rng → ℕ → ℕ → ℕ × Rng
rng_between16 r min max =
    if leb max min
    then (min, r)
    else (let (v, r') = rng_next64 r in (u16 (u16 (v % (max - min)) + min), r'))

pub rng_between8 : Rng → ℕ → ℕ → ℕ × Rng
rng_between8 r min max =
    if leb max min
    then (min, r)
    else (let (v, r') = rng_next64 r in (u8 (u8 (v % (max - min)) + min), r'))

-- A store of the `width` low bytes of `v` at `a`.
pub store_le : ℕ → (ℕ → ℕ) → ℕ → ℕ → ℕ → ℕ
store_le width mem a v j = if leb a j && ltb j (a + width) then u8 (v >>> (8 * (j - a))) else mem j

-- The loop of the fill functions, at the address `a`, `left` elements before its end.
pub fill_loop : ℕ → (Rng → ℕ × Rng) → ℕ → ℕ → Rng → (ℕ → ℕ) → Rng × (ℕ → ℕ)
fill_loop width next zero a r mem = (r, mem)
fill_loop width next (suc left) a r mem =
    let (v, r') = next r in fill_loop width next left (a + width) r' (store_le width mem a v)

pub rng_fill64 : Rng → ℕ → ℕ → (ℕ → ℕ) → Rng × (ℕ → ℕ)
rng_fill64 r dst count mem = fill_loop 8 rng_next64 count dst r mem

pub rng_fill32 : Rng → ℕ → ℕ → (ℕ → ℕ) → Rng × (ℕ → ℕ)
rng_fill32 r dst count mem = fill_loop 4 rng_next32 count dst r mem

pub rng_fill16 : Rng → ℕ → ℕ → (ℕ → ℕ) → Rng × (ℕ → ℕ)
rng_fill16 r dst count mem = fill_loop 2 rng_next16 count dst r mem

pub rng_fill8 : Rng → ℕ → ℕ → (ℕ → ℕ) → Rng × (ℕ → ℕ)
rng_fill8 r dst count mem = fill_loop 1 rng_next8 count dst r mem

pub rng_fill_buf : Rng → ℕ → ℕ → (ℕ → ℕ) → Rng × (ℕ → ℕ)
unfolding rng_fill64
rng_fill_buf r dest count mem =
    let (r₁, mem₁) = rng_fill64 r dest (count / 32) mem in
    let remaining = count % 32 / 8 in
    let (r₂, mem₂) = fill_loop 8 rng_next64 remaining dest r₁ mem₁ in
    fill_loop 1 rng_next8 (count % 8) (dest + 8 * remaining) r₂ mem₂
