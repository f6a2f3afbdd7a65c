-- ===== src/FirmwareService.antt =====
-- components/firmware_update/firmware_service.c: the transfer as the command line drives it. The
-- state of the chip is kept where the page writer acts on it, in `receive.write_ctx`; the texts that
-- are printed, and the `cli` that prints them, are left out. The argument of a command is what
-- cli_next_u32 or cli_next_hex32 gives, `none` when it fails.
pub mod Writer
pub mod Transfer
pub mod Safety
pub mod Install
mod Examples
use pico_framework.Base.{
  ℕ, ◌+◌, ◌*◌, ◌^◌, Bool, true, false, Option, none, some, List, [], ◌∷◌, ◌++◌, ltb, leb, ◌==◌,
  if◌then◌else◌, ◌&&◌, ◌||◌, not, add32, get_or, replicate, blit, drop, ◌⊎◌, inl, inr,
}
use pico_framework.FlashLayout.{Layout, Region, round_up_to_sector}
use pico_framework.FlashStorage.{
  StorageResult, failed, erase, program_verified, storage_data, storage_crc32,
}
use pico_framework.FlashStorage.Hardware.{Sdk}
use pico_framework.FirmwareImage.{
  Header, ImageResult, covered, le32, header_init, header_validate, verify_payload,
}
use pico_framework.FirmwareReceive.{Receive, ReceiveResult, begin, receive_line}
use pico_framework.FirmwareApply.{apply}

-- `XIP_BASE` of the SDK.
abbrev pub image_base_address : ℕ
image_base_address = 0x10000000

abbrev pub progress_interval : ℕ
progress_interval = 64

-- The result codes of a command, `CLI_OK` and the errors that are given here.
pub data CommandResult : Type 0 where
  ok err_failed err_range err_arg err_state : CommandResult

-- `firmware_service_t`
pub record Service (Chip : Type 0) : Type 0 where
  pub receive : Receive Chip
  pub layout : Layout
  pub receiving : Bool
  pub verified : Bool
  pub verified_crc32 : ℕ
  pub staged_from_manifest : Bool
  pub records_since_progress : ℕ
  pub initialised : Bool

-- A header as it lies in memory, and one read from there.
abbrev pub header_image : Header → List ℕ
header_image h = covered h ++ le32 h.header_crc32

abbrev pub word_at : List ℕ → ℕ → ℕ
word_at bytes i =
    get_or bytes i 0
    + get_or bytes (i + 1) 0 * 256
    + get_or bytes (i + 2) 0 * 65536
    + get_or bytes (i + 3) 0 * 16777216

abbrev pub header_of : List ℕ → Header
header_of bytes = record {
  magic = word_at bytes 0;
  header_version = get_or bytes 4 0 + get_or bytes 5 0 * 256;
  header_size = get_or bytes 6 0 + get_or bytes 7 0 * 256;
  payload_size = word_at bytes 8;
  payload_crc32 = word_at bytes 12;
  load_address = word_at bytes 16;
  build_id = word_at bytes 20;
  header_crc32 = word_at bytes 24;
}

abbrev pub is_image_ok : ImageResult → Bool
is_image_ok ImageResult.ok = true
is_image_ok _ = false

-- `memset` of the service, with the chip as it is.
abbrev pub zeroed : {Chip : Type 0} → Chip → Layout → Service Chip
zeroed chip layout = record {
  receive = record {
    base_address = 0;
    capacity = 0;
    write_ctx = chip;
    parser = record {
      address_base = 0;
      start_address = 0;
      have_start_address = false;
      seen_eof = false;
    };
    page = replicate 256 0;
    page_offset = 0;
    page_dirty = false;
    records = 0;
    bytes = 0;
    image_size = 0;
    pages_written = 0;
    started = false;
    is_complete = false;
    error = ReceiveResult.ok;
  };
  layout = layout;
  receiving = false;
  verified = false;
  verified_crc32 = 0;
  staged_from_manifest = false;
  records_since_progress = 0;
  initialised = false;
}

abbrev pub chip_of : {Chip : Type 0} → Service Chip → Chip
chip_of s = s.receive.write_ctx

abbrev pub with_chip : {Chip : Type 0} → Service Chip → Chip → Service Chip
with_chip s chip = record s { receive = record s.receive { write_ctx = chip } }

-- The switch on the result of a line.
abbrev pub after_line : {Chip : Type 0} → Service Chip → ReceiveResult → Service Chip
after_line s ReceiveResult.ok =
    if leb progress_interval (add32 s.records_since_progress 1)
    then record s { records_since_progress = 0 }
    else record s { records_since_progress = add32 s.records_since_progress 1 }
after_line s _ = record s { receiving = false }

module _ {Chip : Type 0} (sdk : Sdk Chip) (code : Option ℕ) where
  pub manifest_write : Layout → Chip → ℕ → ℕ → Chip × Bool
  manifest_write layout chip size crc =
      let (chip', erased) = erase sdk code chip layout.manifest 0 layout.manifest.size in
      if failed erased
      then (chip', false)
      else elim (header_init size crc image_base_address crc).0 [
        | none ↦ (chip', false)
        | some header ↦
            let page = blit (replicate 256 0xFF) 0 (header_image header) in
            let (written, result) =
              program_verified sdk code chip' layout.manifest 0 (some page) 256 in
            (written, not (failed result))
      ]

  pub manifest_invalidate : Layout → Chip → Chip × Bool
  manifest_invalidate layout chip =
      let (chip', erased) = erase sdk code chip layout.manifest 0 layout.manifest.size in
      (chip', not (failed erased))

  -- The header that is handed out, `none` for false.
  -- `manifest_matches_staging` from the header on.
  pub check_staged : Layout → Chip → Header → Option Header
  check_staged layout chip header =
      if not (is_image_ok (header_validate header))
      then none
      else if ltb layout.staging.size header.payload_size
      then none
      else if not (
          is_image_ok
            (verify_payload header (storage_crc32 sdk chip layout.staging 0 header.payload_size)))
      then none
      else some header

  pub manifest_matches_staging : Layout → Chip → Option Header
  manifest_matches_staging layout chip = elim (storage_data sdk chip layout.manifest 0 28) [
    | none ↦ none
    | some stored ↦ check_staged layout chip (header_of stored)
  ]

  pub write_page : Layout → Chip → ℕ → List ℕ → Chip × Bool
  write_page layout chip offset page =
      let (chip', result) = program_verified sdk code chip layout.staging offset (some page) 256 in
      (chip', not (failed result))

  -- `layout` is what flash_layout_get gives.
  pub init : Chip → Layout → Service Chip × Bool
  init chip layout =
      if layout.staging.size == 0
      then (zeroed chip layout, false)
      else (let ready : Service Chip = record (zeroed chip layout) { initialised = true } in
          elim (manifest_matches_staging layout chip) [
            | none ↦ (ready, true)
            | some staged ↦ (
              record ready {
                receive = record ready.receive {
                  image_size = staged.payload_size;
                  is_complete = true;
                };
                verified = true;
                verified_crc32 = staged.payload_crc32;
                staged_from_manifest = true;
              },
              true,
            )
          ])

  -- Whether the line is claimed; the line's bytes are those before its NUL.
  pub line_filter : Service Chip → List ℕ → Service Chip × Bool
  line_filter s line =
      if not s.initialised || not (get_or line 0 0 == 58)
      then (s, false)
      else if not s.receiving
      then (s, true)
      else (let (rx, result) = receive_line (write_page s.layout) s.receive (some line) in
          (after_line (record s { receive = rx }) result, true))

  -- `cmd_begin` once the size to erase is known.
  pub start : Service Chip → ℕ → Service Chip × CommandResult
  start s erase_size =
      let (chip, erased) = erase sdk code (chip_of s) s.layout.staging 0 erase_size in
      let s' = with_chip s chip in
      if failed erased
      then (s', CommandResult.err_failed)
      else elim (begin (
          some (record {
            base_address = image_base_address;
            capacity = s.layout.staging.size;
            write_ctx = chip;
          }))).0 [
            | none ↦ (s', CommandResult.err_failed)
            | some rx ↦ (record s' { receive = rx; receiving = true }, CommandResult.ok)
          ]

  pub cmd_begin : Service Chip → Option ℕ → Service Chip × CommandResult
  cmd_begin s argument =
      let cleared = record s {
        verified = false;
        staged_from_manifest = false;
        records_since_progress = 0;
      } in
      let (chip, invalidated) = manifest_invalidate s.layout (chip_of s) in
      let s' = with_chip cleared chip in
      if not invalidated then (s', CommandResult.err_failed) else elim argument [
        | none ↦ start s' s.layout.staging.size
        | some requested ↦
            if requested == 0 || ltb s.layout.staging.size requested
            then (s', CommandResult.err_range)
            else start s' (round_up_to_sector requested)
      ]

  pub cmd_verify : Service Chip → Option ℕ → Service Chip × CommandResult
  cmd_verify s none = (s, CommandResult.err_arg)
  cmd_verify s (some expected) =
      let size = s.receive.image_size in
      let actual = storage_crc32 sdk (chip_of s) s.layout.staging 0 size in
      if not s.receive.is_complete
      then (s, CommandResult.err_state)
      else if not (actual == expected)
      then (record s { verified = false }, CommandResult.err_failed)
      else (let marked = record s { verified = true; verified_crc32 = actual } in
          (with_chip marked (manifest_write s.layout (chip_of s) size actual).0, CommandResult.ok))

  -- `inl` is a refusal, and `inr` the chip when the install resets it.
  pub cmd_apply : Service Chip → CommandResult ⊎ Chip
  cmd_apply s =
      let size = s.receive.image_size in
      if not s.verified
      then inl CommandResult.err_state
      else if size == 0 || ltb s.layout.application.size size
      then inl CommandResult.err_range
      else inr (apply sdk (chip_of s) s.layout.staging s.layout.application size)
