-- ===== src/Crc/Laws32.antt =====
-- crc.c, CRC-32: the register keeps 32 bits, chunks add up, and a damaged byte shows.
use pico_framework.Base.{
  ◌⊎◌, ℕ, zero, suc, ◌/◌, ◌%◌, ◌^◌, ◌<◌, ◌≡◌, ◌≢◌, refl, ap, sym, ◌∙◌, some, List, [], ◌∷◌, ◌++◌,
  bit_xor, arith, All, IsByte,
}
use pico_framework.Base.Bits.Xor.{
  bit_xor-lt, bit_xor_cancel_left, bit_xor_cancel_right, bit_xor_top,
}
use pico_framework.Base.Bits.And.{bit_and-one}
use pico_framework.Crc.{
  crc32_bit, crc32_bits, crc32_bytes, crc32_update, crc32_begin, crc32_end, crc32, crc32_polynomial,
}

crc32_bit-even : (s : ℕ) → s % 2 ≡ 0 → crc32_bit s ≡ s / 2
unfolding crc32_bit
crc32_bit-even s h = ground (arith, bit_and-one s)

crc32_bit-odd : (s : ℕ) → s % 2 ≡ 1 → crc32_bit s ≡ bit_xor (s / 2) crc32_polynomial
unfolding crc32_bit
crc32_bit-odd s h = ground (arith, bit_and-one s)

parity : (s : ℕ) → (s % 2 ≡ 0) ⊎ (s % 2 ≡ 1)
parity s = omega arith

crc32_bit-lt : (s : ℕ) → s < 2 ^ 32 → crc32_bit s < 2 ^ 32
crc32_bit-lt s h = ground (
  arith,
  parity s,
  crc32_bit-even s,
  crc32_bit-odd s,
  bit_xor-lt 32 (s / 2) crc32_polynomial (omega arith) (omega arith),
)

-- The polynomial's top bit tells which branch was taken, so a round can be undone.
crc32_bit_injective : (s t : ℕ) → s < 2 ^ 32 → t < 2 ^ 32 → crc32_bit s ≡ crc32_bit t → s ≡ t
crc32_bit_injective s t hs ht e = ground (
  arith,
  parity s,
  parity t,
  crc32_bit-even s,
  crc32_bit-odd s,
  crc32_bit-even t,
  crc32_bit-odd t,
  bit_xor_top 31 (s / 2) crc32_polynomial (omega arith) (omega arith),
  bit_xor_top 31 (t / 2) crc32_polynomial (omega arith) (omega arith),
  bit_xor_cancel_right (s / 2) (t / 2) crc32_polynomial,
)

crc32_bits-lt : (n s : ℕ) → s < 2 ^ 32 → crc32_bits n s < 2 ^ 32
unfolding crc32_bits
crc32_bits-lt zero s h = h
crc32_bits-lt (suc n) s h = crc32_bits-lt n (crc32_bit s) (crc32_bit-lt s h)

crc32_bits_injective :
    (n s t : ℕ) → s < 2 ^ 32 → t < 2 ^ 32 → crc32_bits n s ≡ crc32_bits n t → s ≡ t
unfolding crc32_bits
crc32_bits_injective zero s t hs ht e = e
crc32_bits_injective (suc n) s t hs ht e =
    crc32_bit_injective s t hs ht
      (crc32_bits_injective n (crc32_bit s) (crc32_bit t) (crc32_bit-lt s hs) (crc32_bit-lt t ht) e)

crc32_bytes-lt :
    (bytes : List ℕ) (s : ℕ) → All IsByte bytes → s < 2 ^ 32 → crc32_bytes s bytes < 2 ^ 32
unfolding crc32_bytes
crc32_bytes-lt [] s bs h = h
crc32_bytes-lt (b ∷ bytes) s bs h =
    crc32_bytes-lt bytes (crc32_bits 8 (bit_xor s b)) bs.1
      (crc32_bits-lt 8 (bit_xor s b) (bit_xor-lt 32 s b h (omega (arith, bs.0))))

-- Two registers that differ still differ after the same bytes.
crc32_bytes_injective :
    (bytes : List ℕ) (s t : ℕ)
    → All IsByte bytes
    → s < 2 ^ 32
    → t < 2 ^ 32
    → crc32_bytes s bytes ≡ crc32_bytes t bytes
    → s ≡ t
unfolding crc32_bytes
crc32_bytes_injective [] s t bs hs ht e = e
crc32_bytes_injective (b ∷ bytes) s t bs hs ht e =
    let small : b < 2 ^ 32 = omega (arith, bs.0) in
    let xs = bit_xor-lt 32 s b hs small in
    let xt = bit_xor-lt 32 t b ht small in
    bit_xor_cancel_right s t b (
      crc32_bits_injective 8 (bit_xor s b) (bit_xor t b) xs xt (
        crc32_bytes_injective bytes (crc32_bits 8 (bit_xor s b)) (crc32_bits 8 (bit_xor t b)) bs.1
          (crc32_bits-lt 8 (bit_xor s b) xs) (crc32_bits-lt 8 (bit_xor t b) xt) e))

pub crc32_bytes-append :
    (xs ys : List ℕ) (s : ℕ) → crc32_bytes s (xs ++ ys) ≡ crc32_bytes (crc32_bytes s xs) ys
unfolding crc32_bytes
crc32_bytes-append [] ys s = refl
crc32_bytes-append (x ∷ xs) ys s = crc32_bytes-append xs ys (crc32_bits 8 (bit_xor s x))

-- The updates over a list of chunks, one after the other.
abbrev pub update_all : ℕ → List (List ℕ) → ℕ
update_all s [] = s
update_all s (c ∷ chunks) = update_all (crc32_update s (some c)) chunks

abbrev pub join : List (List ℕ) → List ℕ
join [] = []
join (c ∷ chunks) = c ++ join chunks

update_all-eq : (chunks : List (List ℕ)) (s : ℕ) → update_all s chunks ≡ crc32_bytes s (join chunks)
unfolding crc32_update
update_all-eq [] s = unfold crc32_bytes in refl
update_all-eq (c ∷ chunks) s =
    update_all-eq chunks (crc32_bytes s c) ∙ sym (crc32_bytes-append c (join chunks) s)

-- However the data is cut into chunks, begin, an update for each chunk and end give the CRC-32 of
-- the whole.
pub crc32_chunks :
    (chunks : List (List ℕ))
    → crc32_end (update_all crc32_begin chunks) ≡ crc32 (some (join chunks))
unfolding crc32
crc32_chunks chunks = ap crc32_end (update_all-eq chunks crc32_begin)

-- The CRC-32 of bytes has 32 bits.
pub crc32-lt : (bytes : List ℕ) → All IsByte bytes → crc32 (some bytes) < 2 ^ 32
unfolding crc32
crc32-lt bytes h =
    bit_xor-lt 32 (crc32_bytes 0xFFFFFFFF bytes) 0xFFFFFFFF
      (crc32_bytes-lt bytes 0xFFFFFFFF h (omega arith)) (omega arith)

-- Two runs of bytes that differ in exactly one byte have different CRC-32 values.
pub crc32_one_byte :
    (before after : List ℕ) (b c : ℕ)
    → All IsByte before
    → All IsByte after
    → IsByte b
    → IsByte c
    → b ≢ c
    → crc32 (some (before ++ b ∷ after)) ≢ crc32 (some (before ++ c ∷ after))
unfolding crc32
crc32_one_byte before after b c hp hq hb hc ne e =
    let s = crc32_bytes 0xFFFFFFFF before in
    let hs : s < 2 ^ 32 = crc32_bytes-lt before 0xFFFFFFFF hp (omega arith) in
    let xb = bit_xor-lt 32 s b hs (omega arith) in
    let xc = bit_xor-lt 32 s c hs (omega arith) in
    let registers : crc32_bytes s (b ∷ after) ≡ crc32_bytes s (c ∷ after) =
      sym (crc32_bytes-append before (b ∷ after) 0xFFFFFFFF)
      ∙ (bit_xor_cancel_right _ _ 0xFFFFFFFF e
          ∙ crc32_bytes-append before (c ∷ after) 0xFFFFFFFF) in
    ne (
      bit_xor_cancel_left b c s (
        crc32_bits_injective 8 (bit_xor s b) (bit_xor s c) xb xc (
          crc32_bytes_injective after (crc32_bits 8 (bit_xor s b)) (crc32_bits 8 (bit_xor s c)) hq
            (crc32_bits-lt 8 (bit_xor s b) xb) (crc32_bits-lt 8 (bit_xor s c) xc)
            (unfold crc32_bytes in registers))))
