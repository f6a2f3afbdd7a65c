-- ===== src/FirmwareImage/Validate.antt =====
-- firmware_image.c: what validation accepts, and that a damaged header is refused.
use pico_framework.Base.{
  ℕ, ◌≤◌, ◌<◌, ◌≡◌, ◌≢◌, ◌↔◌, sym, ap, ◌∙◌, some, List, ◌∷◌, ◌++◌, ◌==◌, if◌then◌else◌, arith, All,
  IsByte,
}
use pico_framework.Crc.{crc32}
use pico_framework.Crc.Laws32.{crc32_one_byte}
use pico_framework.FirmwareImage.{
  Header, ImageResult, magic_number, current_version, max_payload, header_bytes, covered,
  header_crc, header_init, header_validate, verify_payload,
}

-- A header is accepted exactly when its magic, version, size field, payload size and CRC are right.
pub validate_iff :
    (h : Header)
    → (header_validate h ≡ ImageResult.ok) ↔ (
        (h.magic ≡ magic_number)
        × (h.header_version ≡ current_version)
        × (h.header_size ≡ header_bytes)
        × (0 < h.payload_size)
        × (h.payload_size ≤ max_payload)
        × (h.header_crc32 ≡ header_crc h))
unfolding header_validate
validate_iff h = (λ e. ground arith, λ p. ground arith)

-- A header is made exactly for a payload that is not empty and within the bound.
pub init_ok_iff :
    (size crc load build : ℕ)
    → ((header_init size crc load build).1 ≡ ImageResult.ok) ↔ ((0 < size) × (size ≤ max_payload))
unfolding header_init
init_ok_iff size crc load build = (λ e. ground arith, λ p. ground arith)

init-validate :
    (size crc load build : ℕ) {h : Header}
    → (header_init size crc load build).0 ≡ some h
    → (header_validate h ≡ ImageResult.ok) × (h.payload_crc32 ≡ crc)
unfolding header_init header_validate header_crc
init-validate size crc load build e = ground arith

-- A header that was made is valid, and verifies a payload checksum exactly when it is the one that
-- the header was made with; any other is reported as a damaged payload.
pub init-verify :
    (size crc load build found : ℕ) {h : Header}
    → (header_init size crc load build).0 ≡ some h
    → (header_validate h ≡ ImageResult.ok)
      × (verify_payload h found
          ≡ (if crc == found then ImageResult.ok else ImageResult.bad_payload_crc))
unfolding verify_payload
init-verify size crc load build found {h} e =
    let v = init-validate size crc load build e in (v.0, rw (v.0, v.1))

-- A payload is accepted only with the checksum in its header.
pub verify_payload_crc :
    (h : Header) (found : ℕ) → verify_payload h found ≡ ImageResult.ok → h.payload_crc32 ≡ found
unfolding verify_payload
verify_payload_crc h found e = ground (arith, e)

-- Change one covered byte of a valid header and leave its CRC field: it is refused.
pub validate_one_byte :
    (h damaged : Header) (before after : List ℕ) (b c : ℕ)
    → header_validate h ≡ ImageResult.ok
    → covered h ≡ before ++ b ∷ after
    → covered damaged ≡ before ++ c ∷ after
    → damaged.header_crc32 ≡ h.header_crc32
    → All IsByte before
    → All IsByte after
    → IsByte b
    → IsByte c
    → b ≢ c
    → header_validate damaged ≢ ImageResult.ok
unfolding header_crc
validate_one_byte h damaged before after b c v e d same hp hq hb hc ne w =
    let sound = ((validate_iff h).0 v).5 in
    let damaged_sound = ((validate_iff damaged).0 w).5 in
    crc32_one_byte before after b c hp hq hb hc ne (
      ap (λ l. crc32 (some l)) (sym e)
      ∙ (sym sound ∙ (sym same ∙ (damaged_sound ∙ ap (λ l. crc32 (some l)) d))))
