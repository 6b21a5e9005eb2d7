-- ===== src/Net/Checksum.antt =====
-- shared/net/checksums.c. `words` is the list of the `len` 16-bit words that are read, and
-- `payload` of the `length` bytes.
pub mod Verify
mod Tests
use ionutnechita_redacted_os.Base.{
  ℕ, zero, suc, ◌+◌, ◌-◌, ◌*◌, ◌/◌, ◌%◌, ◌^◌, ◌≤◌, ◌<◌, ◌≡◌, ◌≢◌, ◌↔◌, refl, ap, Bool, true, false,
  Option, none, some, List, [], ◌∷◌, ◌++◌, arith, length, length-set, get_or, set,
  get_elem?-eq-get_or, ◌⊎◌, inl, inr, ◌==◌, ltb, leb, if◌then◌else◌, u64, u32, sub64, sub32,
  bswap16, bswap32, u8, u16, Bool-cases, store?, store?-eq-set, get_elem?, ◌>>=◌, ◌∙◌, sym, ap₂,
  min, max, ◌&&◌, ◌||◌, not, take, drop, replicate, length-append, length-replicate, append-nil,
  append_assoc, ◌>>>◌, bit_or, bit_and, bit_xor, ltb→lt, lt→ltb, le→ltb_false,
}

pub sum_words : List ℕ → ℕ → ℕ
sum_words [] sum = sum
sum_words (d ∷ ds) sum = sum_words ds (u32 (sum + d))

-- `while (sum >> 16) sum = (sum & 0xFFFF) + (sum >> 16)` on fuel; `none` means that it ran out.
pub fold_carries : ℕ → ℕ → Option ℕ
fold_carries zero sum = none
fold_carries (suc fuel) sum = elim (sum >>> 16 == 0) [
  | true ↦ some sum
  | false ↦ fold_carries fuel (u32 (bit_and sum (2 ^ 16 - 1) + (sum >>> 16)))
]

-- `~sum` as a `uint16_t`.
abbrev complement : ℕ → ℕ
complement sum = 2 ^ 16 - 1 - u16 sum

pub checksum16 : List ℕ → Option ℕ
unfolding sum_words fold_carries
checksum16 words = do sum ← fold_carries 3 (sum_words words 0); some (complement sum)

-- The loop over the pairs of bytes, and the odd byte behind it.
pub sum_bytes : List ℕ → ℕ → ℕ
sum_bytes [] sum = sum
sum_bytes (a ∷ []) sum = u32 (sum + a * 2 ^ 8)
sum_bytes (a ∷ b ∷ rest) sum = sum_bytes rest (u32 (sum + bit_or (a * 2 ^ 8) b))

pub checksum16_pipv4 : ℕ → ℕ → ℕ → List ℕ → Option ℕ
unfolding sum_bytes fold_carries
checksum16_pipv4 src_ip dst_ip protocol payload =
    let sum = u32 (
      u32 (
        u32 (
          u32 (
            u32 (bit_and (src_ip >>> 16) (2 ^ 16 - 1) + bit_and src_ip (2 ^ 16 - 1))
            + bit_and (dst_ip >>> 16) (2 ^ 16 - 1))
          + bit_and dst_ip (2 ^ 16 - 1))
        + protocol)
      + length payload) in
    (do folded ← fold_carries 3 (sum_bytes payload sum); some (complement folded))
