-- ===== src/Crc.antt =====
-- components/crc: crc.c and the inline functions of include/crc.h. `data` with `len` is the list of
-- the `len` bytes, and `none` is a NULL pointer.
pub mod Laws32
pub mod Laws16
mod Examples
use pico_framework.Base.{
  ℕ, zero, suc, ◌*◌, ◌/◌, ◌%◌, ◌^◌, Option, none, some, List, [], ◌∷◌, bit_and, bit_xor, ◌==◌,
  if◌then◌else◌, shr, u16,
}

abbrev pub crc32_polynomial : ℕ
crc32_polynomial = 0xEDB88320

abbrev pub crc16_polynomial : ℕ
crc16_polynomial = 0x1021

abbrev pub crc32_initial : ℕ
crc32_initial = 0xFFFFFFFF

abbrev pub crc16_ccitt_initial : ℕ
crc16_ccitt_initial = 0xFFFF

-- One round of the inner loop of `crc32_update`.
unfoldable pub crc32_bit : ℕ → ℕ
crc32_bit state =
    if bit_and state 1 == 0 then shr state 1 else bit_xor (shr state 1) crc32_polynomial

unfoldable pub crc32_bits : ℕ → ℕ → ℕ
unfolding crc32_bit
crc32_bits zero state = state
crc32_bits (suc left) state = crc32_bits left (crc32_bit state)

unfoldable pub crc32_bytes : ℕ → List ℕ → ℕ
unfolding crc32_bits
crc32_bytes state [] = state
crc32_bytes state (b ∷ bytes) = crc32_bytes (crc32_bits 8 (bit_xor state b)) bytes

unfoldable pub crc32_begin : ℕ
crc32_begin = crc32_initial

unfoldable pub crc32_update : ℕ → Option (List ℕ) → ℕ
unfolding crc32_bytes
crc32_update state none = state
crc32_update state (some bytes) = crc32_bytes state bytes

unfoldable pub crc32_end : ℕ → ℕ
crc32_end state = bit_xor state 0xFFFFFFFF

unfoldable pub crc32 : Option (List ℕ) → ℕ
unfolding crc32_begin crc32_update crc32_end
crc32 bytes = crc32_end (crc32_update crc32_begin bytes)

-- One round of the inner loop of `crc16_ccitt_update`.
pub crc16_bit : ℕ → ℕ
crc16_bit state =
    if bit_and state 0x8000 == 0
    then u16 (state * 2)
    else u16 (bit_xor (state * 2) crc16_polynomial)

pub crc16_bits : ℕ → ℕ → ℕ
unfolding crc16_bit
crc16_bits zero state = state
crc16_bits (suc left) state = crc16_bits left (crc16_bit state)

pub crc16_bytes : ℕ → List ℕ → ℕ
unfolding crc16_bits
crc16_bytes state [] = state
crc16_bytes state (b ∷ bytes) = crc16_bytes (crc16_bits 8 (bit_xor state (u16 (b * 2 ^ 8)))) bytes

pub crc16_ccitt_begin : ℕ
crc16_ccitt_begin = crc16_ccitt_initial

pub crc16_ccitt_update : ℕ → Option (List ℕ) → ℕ
unfolding crc16_bytes
crc16_ccitt_update state none = state
crc16_ccitt_update state (some bytes) = crc16_bytes state bytes

pub crc16_ccitt_end : ℕ → ℕ
crc16_ccitt_end state = state

pub crc16_ccitt : Option (List ℕ) → ℕ
unfolding crc16_ccitt_begin crc16_ccitt_update crc16_ccitt_end
crc16_ccitt bytes = crc16_ccitt_end (crc16_ccitt_update crc16_ccitt_begin bytes)
