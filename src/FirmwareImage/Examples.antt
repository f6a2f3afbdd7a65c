-- ===== src/FirmwareImage/Examples.antt =====
-- firmware_image.c at a small image.
use pico_framework.Base.{◌≡◌, ◌≢◌, refl, some, [], ◌∷◌, arith}
use pico_framework.Crc.{crc32}
use pico_framework.FirmwareImage.{
  Header, ImageResult, magic_number, header_crc, header_init, header_validate,
}
use pico_framework.FirmwareImage.Validate.{validate_one_byte}

abbrev small : Header
small = record {
  magic = magic_number;
  header_version = 1;
  header_size = 28;
  payload_size = 256;
  payload_crc32 = 0x12345678;
  load_address = 0x10000000;
  build_id = 7;
  header_crc32 = 0x157205d1;
}

-- The payload size reads 257.
abbrev torn : Header
torn = record small { payload_size = 257 }

small_made : (header_init 256 0x12345678 0x10000000 7).0 ≡ some small
unfolding header_init header_crc crc32
small_made = refl

small_valid : header_validate small ≡ ImageResult.ok
unfolding header_validate header_crc crc32
small_valid = refl

torn_refused : header_validate torn ≡ ImageResult.bad_header_crc
unfolding header_validate header_crc crc32
torn_refused = refl

validate_one_byte_example : header_validate torn ≢ ImageResult.ok
validate_one_byte_example =
    validate_one_byte small torn (0x50 ∷ 0x46 ∷ 0x57 ∷ 0x31 ∷ 1 ∷ 0 ∷ 28 ∷ 0 ∷ [])
      (1 ∷ 0 ∷ 0 ∷ 0x78 ∷ 0x56 ∷ 0x34 ∷ 0x12 ∷ 0 ∷ 0 ∷ 0 ∷ 0x10 ∷ 7 ∷ 0 ∷ 0 ∷ 0 ∷ []) 0 1
      small_valid refl refl refl (omega arith) (omega arith) (omega arith) (omega arith)
      (omega arith)
