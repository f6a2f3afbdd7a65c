-- ===== src/Crc/Examples.antt =====
-- crc.c: the published check values, and the theorems at small inputs.
use pico_framework.Base.{ℕ, ◌≡◌, ◌≢◌, refl, some, List, [], ◌∷◌, arith}
use pico_framework.Crc.{crc32, crc32_end, crc32_begin, crc16_ccitt}
use pico_framework.Crc.Laws32.{crc32_one_byte, crc32_chunks, update_all}
use pico_framework.Crc.Laws16.{crc16_ccitt_one_byte}

-- The ASCII digits 1 to 9.
abbrev digits : List ℕ
digits = 49 ∷ 50 ∷ 51 ∷ 52 ∷ 53 ∷ 54 ∷ 55 ∷ 56 ∷ 57 ∷ []

crc32_check : crc32 (some digits) ≡ 0xCBF43926
unfolding crc32
crc32_check = refl

crc16_check : crc16_ccitt (some digits) ≡ 0x29B1
unfolding crc16_ccitt
crc16_check = refl

crc32_chunks_example :
    crc32_end (update_all crc32_begin ((1 ∷ 2 ∷ []) ∷ [] ∷ (3 ∷ []) ∷ []))
    ≡ crc32 (some (1 ∷ 2 ∷ 3 ∷ []))
crc32_chunks_example = crc32_chunks ((1 ∷ 2 ∷ []) ∷ [] ∷ (3 ∷ []) ∷ [])

crc32_one_byte_example : crc32 (some (1 ∷ 2 ∷ 3 ∷ [])) ≢ crc32 (some (1 ∷ 7 ∷ 3 ∷ []))
crc32_one_byte_example =
    crc32_one_byte (1 ∷ []) (3 ∷ []) 2 7 (omega arith) (omega arith) (omega arith) (omega arith)
      (omega arith)

crc16_ccitt_one_byte_example :
    crc16_ccitt (some (1 ∷ 2 ∷ 3 ∷ [])) ≢ crc16_ccitt (some (1 ∷ 7 ∷ 3 ∷ []))
crc16_ccitt_one_byte_example =
    crc16_ccitt_one_byte (1 ∷ []) (3 ∷ []) 2 7 (omega arith) (omega arith) (omega arith)
      (omega arith) (omega arith)
