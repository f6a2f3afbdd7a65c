-- ===== src/Crc/Laws16.antt =====
-- crc.c, CRC-16/CCITT-FALSE: the register keeps 16 bits, chunks add up, and a damaged byte shows.
use pico_framework.Base.{
  ℕ, zero, suc, ◌*◌, ◌+◌, ◌-◌, ◌%◌, ◌^◌, ◌<◌, ◌≤◌, ◌≡◌, ◌≢◌, refl, ap, sym, ◌∙◌, some, List, [],
  ◌∷◌, ◌++◌, bit_xor, ◌⊎◌, arith, All, u16, IsByte,
}
use pico_framework.Base.Bits.Xor.{
  bit_xor-lt, bit_xor_cancel_left, bit_xor_cancel_right, bit_xor_high, bit_xor-mod,
}
use pico_framework.Base.Bits.And.{bit_and_top_clear, bit_and_top_set}
use pico_framework.Crc.{
  crc16_bit, crc16_bits, crc16_bytes, crc16_ccitt_update, crc16_ccitt_begin, crc16_ccitt_end,
  crc16_ccitt, crc16_polynomial,
}
use pico_framework.Crc.Laws32.{join}

crc16_bit-clear : (s : ℕ) → s < 2 ^ 15 → crc16_bit s ≡ s * 2
unfolding crc16_bit
crc16_bit-clear s h = ground (arith, bit_and_top_clear 15 s h)

-- The top bit is shifted out, and the polynomial goes into what is left.
crc16_bit-set :
    (s : ℕ) → 2 ^ 15 ≤ s → s < 2 ^ 16 → crc16_bit s ≡ bit_xor (s * 2 - 2 ^ 16) crc16_polynomial
unfolding crc16_bit
crc16_bit-set s h p =
    let low = s * 2 - 2 ^ 16 in
    let sum : s * 2 ≡ 2 ^ 16 + low = omega arith in
    let high : bit_xor (s * 2) crc16_polynomial ≡ 2 ^ 16 + bit_xor low crc16_polynomial =
      ap (λ t. bit_xor t crc16_polynomial) sum
      ∙ bit_xor_high 16 low crc16_polynomial (omega arith) (omega arith) in
    ground (
      arith,
      bit_and_top_set 15 s h p,
      high,
      bit_xor-lt 16 low crc16_polynomial (omega arith) (omega arith),
    )

top_bit : (s : ℕ) → (s < 2 ^ 15) ⊎ (2 ^ 15 ≤ s)
top_bit s = omega arith

crc16_bit-lt : (s : ℕ) → s < 2 ^ 16 → crc16_bit s < 2 ^ 16
crc16_bit-lt s h = ground (
  arith,
  top_bit s,
  crc16_bit-clear s,
  crc16_bit-set s,
  bit_xor-lt 16 (s * 2 - 2 ^ 16) crc16_polynomial,
)

-- The polynomial's lowest bit tells which branch was taken, so a round can be undone.
crc16_bit_injective : (s t : ℕ) → s < 2 ^ 16 → t < 2 ^ 16 → crc16_bit s ≡ crc16_bit t → s ≡ t
crc16_bit_injective s t hs ht e = ground (
  arith,
  top_bit s,
  top_bit t,
  crc16_bit-clear s,
  crc16_bit-set s,
  crc16_bit-clear t,
  crc16_bit-set t,
  odd s,
  odd t,
  bit_xor_cancel_right (s * 2 - 2 ^ 16) (t * 2 - 2 ^ 16) crc16_polynomial,
)
  where
    odd : (r : ℕ) → 2 ^ 15 ≤ r → bit_xor (r * 2 - 2 ^ 16) crc16_polynomial % 2 ≡ 1
    odd r p =
        bit_xor-mod (r * 2 - 2 ^ 16) crc16_polynomial
        ∙ let even : (r * 2 - 2 ^ 16) % 2 ≡ 0 = omega arith in rw even

-- Where a byte enters the register.
abbrev top : ℕ → ℕ
top b = u16 (b * 2 ^ 8)

crc16_bits-lt : (n s : ℕ) → s < 2 ^ 16 → crc16_bits n s < 2 ^ 16
unfolding crc16_bits
crc16_bits-lt zero s h = h
crc16_bits-lt (suc n) s h = crc16_bits-lt n (crc16_bit s) (crc16_bit-lt s h)

crc16_bits_injective :
    (n s t : ℕ) → s < 2 ^ 16 → t < 2 ^ 16 → crc16_bits n s ≡ crc16_bits n t → s ≡ t
unfolding crc16_bits
crc16_bits_injective zero s t hs ht e = e
crc16_bits_injective (suc n) s t hs ht e =
    crc16_bit_injective s t hs ht
      (crc16_bits_injective n (crc16_bit s) (crc16_bit t) (crc16_bit-lt s hs) (crc16_bit-lt t ht) e)

crc16_bytes-lt :
    (bytes : List ℕ) (s : ℕ) → All IsByte bytes → s < 2 ^ 16 → crc16_bytes s bytes < 2 ^ 16
unfolding crc16_bytes
crc16_bytes-lt [] s bs h = h
crc16_bytes-lt (b ∷ bytes) s bs h =
    crc16_bytes-lt bytes (crc16_bits 8 (bit_xor s (top b))) bs.1
      (crc16_bits-lt 8 (bit_xor s (top b)) (bit_xor-lt 16 s (top b) h (omega (arith, bs.0))))

-- Two registers that differ still differ after the same bytes.
crc16_bytes_injective :
    (bytes : List ℕ) (s t : ℕ)
    → All IsByte bytes
    → s < 2 ^ 16
    → t < 2 ^ 16
    → crc16_bytes s bytes ≡ crc16_bytes t bytes
    → s ≡ t
unfolding crc16_bytes
crc16_bytes_injective [] s t bs hs ht e = e
crc16_bytes_injective (b ∷ bytes) s t bs hs ht e =
    let small : top b < 2 ^ 16 = omega (arith, bs.0) in
    let xs = bit_xor-lt 16 s (top b) hs small in
    let xt = bit_xor-lt 16 t (top b) ht small in
    bit_xor_cancel_right s t (top b) (
      crc16_bits_injective 8 (bit_xor s (top b)) (bit_xor t (top b)) xs xt (
        crc16_bytes_injective bytes (crc16_bits 8 (bit_xor s (top b)))
          (crc16_bits 8 (bit_xor t (top b))) bs.1 (crc16_bits-lt 8 (bit_xor s (top b)) xs)
          (crc16_bits-lt 8 (bit_xor t (top b)) xt) e))

pub crc16_bytes-append :
    (xs ys : List ℕ) (s : ℕ) → crc16_bytes s (xs ++ ys) ≡ crc16_bytes (crc16_bytes s xs) ys
unfolding crc16_bytes
crc16_bytes-append [] ys s = refl
crc16_bytes-append (x ∷ xs) ys s = crc16_bytes-append xs ys (crc16_bits 8 (bit_xor s (top x)))

-- The updates over a list of chunks, one after the other.
abbrev pub update16_all : ℕ → List (List ℕ) → ℕ
update16_all s [] = s
update16_all s (c ∷ chunks) = update16_all (crc16_ccitt_update s (some c)) chunks

update16_all-eq :
    (chunks : List (List ℕ)) (s : ℕ) → update16_all s chunks ≡ crc16_bytes s (join chunks)
unfolding crc16_ccitt_update
update16_all-eq [] s = unfold crc16_bytes in refl
update16_all-eq (c ∷ chunks) s =
    update16_all-eq chunks (crc16_bytes s c) ∙ sym (crc16_bytes-append c (join chunks) s)

-- However the data is cut into chunks, begin, an update for each chunk and end give the CRC-16 of
-- the whole.
pub crc16_ccitt_chunks :
    (chunks : List (List ℕ))
    → crc16_ccitt_end (update16_all crc16_ccitt_begin chunks) ≡ crc16_ccitt (some (join chunks))
unfolding crc16_ccitt
crc16_ccitt_chunks chunks = ap crc16_ccitt_end (update16_all-eq chunks crc16_ccitt_begin)

-- Two runs of bytes that differ in exactly one byte have different CRC-16 values.
pub crc16_ccitt_one_byte :
    (before after : List ℕ) (b c : ℕ)
    → All IsByte before
    → All IsByte after
    → IsByte b
    → IsByte c
    → b ≢ c
    → crc16_ccitt (some (before ++ b ∷ after)) ≢ crc16_ccitt (some (before ++ c ∷ after))
unfolding crc16_ccitt
crc16_ccitt_one_byte before after b c hp hq hb hc ne e =
    let s = crc16_bytes 0xFFFF before in
    let hs : s < 2 ^ 16 = crc16_bytes-lt before 0xFFFF hp (omega arith) in
    let xb = bit_xor-lt 16 s (top b) hs (omega arith) in
    let xc = bit_xor-lt 16 s (top c) hs (omega arith) in
    let registers : crc16_bytes s (b ∷ after) ≡ crc16_bytes s (c ∷ after) =
      sym (crc16_bytes-append before (b ∷ after) 0xFFFF)
      ∙ (e ∙ crc16_bytes-append before (c ∷ after) 0xFFFF) in
    let tops : top b ≡ top c = bit_xor_cancel_left (top b) (top c) s (
      crc16_bits_injective 8 (bit_xor s (top b)) (bit_xor s (top c)) xb xc (
        crc16_bytes_injective after (crc16_bits 8 (bit_xor s (top b)))
          (crc16_bits 8 (bit_xor s (top c))) hq (crc16_bits-lt 8 (bit_xor s (top b)) xb)
          (crc16_bits-lt 8 (bit_xor s (top c)) xc) (unfold crc16_bytes in registers))) in
    ne (omega arith)
