-- ===== src/FirmwareImage.antt =====
-- components/firmware_update/firmware_image.c. A header that is passed in is not NULL.
pub mod Validate
mod Examples
use pico_framework.Base.{
  ℕ, ◌+◌, ◌*◌, ◌/◌, ◌%◌, ◌^◌, Bool, true, false, Option, none, some, List, [], ◌∷◌, ◌++◌, ltb, ◌==◌,
  if◌then◌else◌, ◌||◌, not,
}
use pico_framework.Crc.{crc32}

abbrev pub magic_number : ℕ
magic_number = 0x31574650

abbrev pub current_version : ℕ
current_version = 1

abbrev pub max_payload : ℕ
max_payload = 8 * 1024 * 1024

-- `sizeof(firmware_image_header_t)`, which the source asserts.
abbrev pub header_bytes : ℕ
header_bytes = 28

-- `firmware_image_header_t`
pub record Header : Type 0 where
  pub magic : ℕ
  pub header_version : ℕ
  pub header_size : ℕ
  pub payload_size : ℕ
  pub payload_crc32 : ℕ
  pub load_address : ℕ
  pub build_id : ℕ
  pub header_crc32 : ℕ

-- `firmware_image_result_t`
pub data ImageResult : Type 0 where
  ok invalid_arg bad_magic bad_version bad_size bad_header_crc bad_payload_crc : ImageResult

-- A field as it lies in memory: the target is little-endian.
abbrev pub le16 : ℕ → List ℕ
le16 x = x % 256 ∷ (x / 256 % 256) ∷ []

abbrev pub le32 : ℕ → List ℕ
le32 x = x % 256 ∷ (x / 256 % 256) ∷ (x / 65536 % 256) ∷ (x / 16777216 % 256) ∷ []

-- The bytes of a header before its CRC field; there is no padding.
abbrev pub covered : Header → List ℕ
covered h =
    le32 h.magic
    ++ (le16 h.header_version
        ++ (le16 h.header_size
            ++ (le32 h.payload_size
                ++ (le32 h.payload_crc32 ++ (le32 h.load_address ++ le32 h.build_id)))))

unfoldable pub header_crc : Header → ℕ
header_crc h = crc32 (some (covered h))

-- The header that is written, if any, and the result.
pub header_init : ℕ → ℕ → ℕ → ℕ → Option Header × ImageResult
header_init payload_size payload_crc32 load_address build_id =
    if payload_size == 0 || ltb max_payload payload_size
    then (none, ImageResult.bad_size)
    else (let blank : Header = record {
      magic = magic_number;
      header_version = current_version;
      header_size = header_bytes;
      payload_size = payload_size;
      payload_crc32 = payload_crc32;
      load_address = load_address;
      build_id = build_id;
      header_crc32 = 0;
    } in
        (some (record blank { header_crc32 = header_crc blank }), ImageResult.ok))

unfoldable pub header_validate : Header → ImageResult
header_validate h =
    if not (h.magic == magic_number)
    then ImageResult.bad_magic
    else if not (h.header_version == current_version) || not (h.header_size == header_bytes)
    then ImageResult.bad_version
    else if h.payload_size == 0 || ltb max_payload h.payload_size
    then ImageResult.bad_size
    else if not (h.header_crc32 == header_crc h)
    then ImageResult.bad_header_crc
    else ImageResult.ok

unfoldable pub is_ok : ImageResult → Bool
is_ok ImageResult.ok = true
is_ok _ = false

unfoldable pub verify_payload : Header → ℕ → ImageResult
unfolding is_ok
verify_payload h payload_crc32 =
    let header_result = header_validate h in
    if not (is_ok header_result)
    then header_result
    else if h.payload_crc32 == payload_crc32
    then ImageResult.ok
    else ImageResult.bad_payload_crc
