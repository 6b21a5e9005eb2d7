-- ===== src/Net/Checksum/Verify.antt =====
-- What a receiver finds of the checksums of shared/net/checksums.c.
use ionutnechita_redacted_os.Base.{
  bit_or, Option, ℕ, suc, ◌+◌, ◌-◌, ◌*◌, ◌/◌, ◌%◌, ◌^◌, ◌≤◌, ◌<◌, ◌≡◌, refl, ap, some, List, [],
  ◌∷◌, arith, length, u32, u16, ◌>>=◌, ◌∙◌, ◌>>>◌, bit_and,
}
use ionutnechita_redacted_os.Base.Bits.{bit_or_join, bit_and_low}
use ionutnechita_redacted_os.Net.Checksum.{
  sum_words, fold_carries, checksum16, sum_bytes, checksum16_pipv4,
}

-- The sum of the words as a number, of any size.
pub total : List ℕ → ℕ
total [] = 0
total (d ∷ ds) = d + total ds

sum_words-total :
    (ds : List ℕ) (sum : ℕ) → sum + total ds < 2 ^ 32 → sum_words ds sum ≡ sum + total ds
unfolding sum_words total
sum_words-total [] sum h = omega arith
sum_words-total (d ∷ ds) sum h = sum_words-total ds (u32 (sum + d)) (omega arith) ∙ omega arith

abbrev pub Words : List ℕ → Type 0
Words [] = Unit {0}
Words (d ∷ ds) = (d < 2 ^ 16) × Words ds

total_le : (ds : List ℕ) → Words ds → total ds ≤ length ds * 65535
unfolding total
total_le [] w = omega arith
total_le (d ∷ ds) (h, w) = omega (arith, total_le ds w)

-- One round of the loop, and its result.
abbrev folded : ℕ → ℕ
folded sum = sum % 65536 + sum / 65536

round_eq : (sum : ℕ) → sum < 2 ^ 32 → u32 (bit_and sum (2 ^ 16 - 1) + (sum >>> 16)) ≡ folded sum
round_eq sum h = ground (arith, bit_and_low 16 sum)

fold_carries_stop : (fuel sum : ℕ) → sum < 2 ^ 16 → fold_carries (suc fuel) sum ≡ some sum
unfolding fold_carries
fold_carries_stop fuel sum h = ground arith

fold_carries_round :
    (fuel sum : ℕ)
    → sum < 2 ^ 32
    → 2 ^ 16 ≤ sum
    → fold_carries (suc fuel) sum ≡ fold_carries fuel (folded sum)
unfolding fold_carries
fold_carries_round fuel sum h big = ground (arith, round_eq sum h)

fold_carries-folded : (sum : ℕ) → sum < 2 ^ 32 → fold_carries 3 sum ≡ some (folded (folded sum))
fold_carries-folded sum h = ground (
  arith,
  fold_carries_stop 2 sum,
  fold_carries_round 2 sum h,
  fold_carries_stop 1 (folded sum),
  fold_carries_round 1 (folded sum) (omega arith),
  fold_carries_stop 0 (folded (folded sum)),
)

sum_words_lt : (ds : List ℕ) (sum : ℕ) → sum < 2 ^ 32 → sum_words ds sum < 2 ^ 32
unfolding sum_words
sum_words_lt [] sum h = h
sum_words_lt (d ∷ ds) sum h = sum_words_lt ds (u32 (sum + d)) (omega arith)

sum_bytes_lt : (bs : List ℕ) (sum : ℕ) → sum < 2 ^ 32 → sum_bytes bs sum < 2 ^ 32
unfolding sum_bytes
sum_bytes_lt [] sum h = h
sum_bytes_lt (a ∷ []) sum h = omega arith
sum_bytes_lt (a ∷ b ∷ rest) sum h =
    sum_bytes_lt rest (u32 (sum + bit_or (a * 2 ^ 8) b)) (omega arith)

pub checksum16-total : (ds : List ℕ) → (c : ℕ) × (checksum16 ds ≡ some c)
unfolding checksum16
checksum16-total ds = (
  2 ^ 16 - 1 - u16 (folded (folded (sum_words ds 0))),
  rw (fold_carries-folded (sum_words ds 0) (sum_words_lt ds 0 (omega arith))) refl,
)

pub checksum16_pipv4-total :
    (src_ip dst_ip protocol : ℕ) (payload : List ℕ)
    → (c : ℕ) × (checksum16_pipv4 src_ip dst_ip protocol payload ≡ some c)
unfolding checksum16_pipv4
checksum16_pipv4-total src_ip dst_ip protocol payload = (
  _,
  ap (λ (o : Option ℕ). o >>= λ (f : ℕ). some (2 ^ 16 - 1 - u16 f))
      (fold_carries-folded _ (sum_bytes_lt payload _ (omega arith))),
)

-- At most 65537 words, each below 2 ^ 16, always have a checksum, found within three rounds of
-- the loop that folds the carries, and with it the sum of all words is a multiple of 65535, which
-- is 0 in the receiver's one's complement arithmetic.
pub checksum16-verifies :
    (words : List ℕ)
    → Words words
    → length words ≤ 65537
    → (c : ℕ) × (checksum16 words ≡ some c) × (c < 2 ^ 16) × ((total words + c) % 65535 ≡ 0)
unfolding checksum16
checksum16-verifies words w len =
    let bound : total words < 2 ^ 32 = omega (arith, total_le words w) in
    (
      2 ^ 16 - 1 - folded (folded (total words)),
      ground
          (arith, sum_words-total words 0 (omega arith), fold_carries-folded (total words) bound),
      omega arith,
      omega arith,
    )

-- The 16-bit words of the bytes in network order, an odd byte filled up with a zero.
pub be_words : List ℕ → List ℕ
be_words [] = []
be_words (a ∷ []) = a * 256 ∷ []
be_words (a ∷ b ∷ rest) = (a * 256 + b) ∷ be_words rest

abbrev pub Bytes : List ℕ → Type 0
Bytes [] = Unit {0}
Bytes (b ∷ bs) = (b < 2 ^ 8) × Bytes bs

sum_bytes-be_words :
    (bs : List ℕ) (sum : ℕ) → Bytes bs → sum_bytes bs sum ≡ sum_words (be_words bs) sum
unfolding sum_bytes sum_words be_words
sum_bytes-be_words [] sum h = refl
sum_bytes-be_words (a ∷ []) sum h = refl
sum_bytes-be_words (a ∷ b ∷ rest) sum (ha, (hb, h)) =
    ap (λ (t : ℕ). sum_bytes rest (u32 (sum + t))) (bit_or_join 8 a b hb)
    ∙ sum_bytes-be_words rest (u32 (sum + (a * 256 + b))) h

-- `checksum16_pipv4` is `checksum16` of the pseudo-header's words, the addresses by halves, the
-- protocol and the length, and of the payload's bytes as words in network order.
pub checksum16_pipv4-checksum16 :
    (src_ip dst_ip protocol : ℕ) (payload : List ℕ)
    → src_ip < 2 ^ 32
    → dst_ip < 2 ^ 32
    → protocol < 2 ^ 8
    → length payload < 2 ^ 16
    → Bytes payload
    → checksum16_pipv4 src_ip dst_ip protocol payload
      ≡ checksum16 (
          src_ip / 65536
          ∷ src_ip % 65536
          ∷ dst_ip / 65536
          ∷ dst_ip % 65536
          ∷ protocol
          ∷ length payload
          ∷ be_words payload)
unfolding checksum16_pipv4 checksum16 sum_words
checksum16_pipv4-checksum16 src_ip dst_ip protocol payload hs hd hp hl hb =
    ap (λ (t : ℕ). fold_carries 3 t >>= λ sum. some (2 ^ 16 - 1 - u16 sum))
      (sum_bytes-be_words payload _ hb
        ∙ ap (sum_words (be_words payload)) (
            ground (
              arith,
              bit_and_low 16 src_ip,
              bit_and_low 16 dst_ip,
              bit_and_low 16 (src_ip >>> 16),
              bit_and_low 16 (dst_ip >>> 16),
            )))
