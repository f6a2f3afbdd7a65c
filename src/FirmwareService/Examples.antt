-- ===== src/FirmwareService/Examples.antt =====
-- A staged image of one byte, found at startup and installed.
use pico_framework.Base.{
  ℕ, ◌+◌, ◌-◌, ◌*◌, ◌/◌, ◌≤◌, ◌<◌, ◌^◌, ◌≡◌, inr, true, false, none, some, List, [], ◌∷◌, arith,
  refl, get_or, if◌then◌else◌, leb, ◌==◌, replicate,
}
use pico_framework.Crc.{
  crc32, crc32_begin, crc32_update, crc32_end, crc32_bytes, crc32_bits, crc32_bit,
}
use pico_framework.FlashLayout.{
  Layout, LayoutResult, compute, is_sector_aligned, region_contains, region_absolute,
}
use pico_framework.FlashStorage.{storage_data, storage_crc32}
use pico_framework.FlashStorage.Model.{memory, memory-IsDocumented, blank_chip}
use pico_framework.FirmwareImage.{header_validate, header_crc, verify_payload, is_ok}
use pico_framework.FirmwareReceive.Programmed.{written}
use pico_framework.FirmwareApply.{apply}
use pico_framework.FirmwareApply.Copy.{copied}
use pico_framework.FirmwareService.{
  Service, init, cmd_apply, chip_of, manifest_matches_staging, check_staged, zeroed, line_filter,
}
use pico_framework.HexParser.{
  feed_record, feed, skip_space, feed_body, check_frame, decode_bytes, sum_bytes, accept,
  trimmed_length, trim_from, is_space, decode_byte, decode_nibble, record_data,
}
use pico_framework.HexParser.Frame.{frame, line_of}
use pico_framework.HexParser.Line.{hex_digit}
use pico_framework.FirmwareReceive.{
  ReceiveResult, receive_line, take_line, apply_record, place_all, place_byte, place_at, put_byte,
  reset_page, flush_page,
}
use pico_framework.FirmwareReceive.Flash.{view}
use pico_framework.FirmwareService.Transfer.{staging_cell, line_filter_data, line_filter_complete}
use pico_framework.FirmwareService.Safety.{run, given, staged_crc}
use pico_framework.FirmwareService.Install.{install_verified}

-- Sixteen sectors, two of them for data.
abbrev layout : Layout
layout = record {
  application = record { offset = 0; size = 28672 };
  staging = record { offset = 28672; size = 28672 };
  manifest = record { offset = 57344; size = 4096 };
  spare = record { offset = 61440; size = 4096 };
}

layout_made : compute 65536 2 ≡ (some layout, LayoutResult.ok)
unfolding compute is_sector_aligned
layout_made = refl

-- The header of the image `A`.
abbrev manifest : List ℕ
manifest =
    80 ∷ 70 ∷ 87 ∷ 49 ∷ 1 ∷ 0 ∷ 28 ∷ 0 ∷ 1 ∷ 0 ∷ 0 ∷ 0 ∷ 139 ∷ 158 ∷ 217 ∷ 211 ∷ 0 ∷ 0 ∷ 0 ∷ 16
    ∷ 139 ∷ 158 ∷ 217 ∷ 211 ∷ 242 ∷ 78 ∷ 26 ∷ 88 ∷ []

abbrev staged_chip : ℕ → ℕ
staged_chip j =
    if leb 57344 j then get_or manifest (j - 57344) 255 else if j == 28672 then 65 else 255

abbrev started : Service (ℕ → ℕ)
started = run memory none (init memory none staged_chip layout).0 []

installs :
    cmd_apply memory none started
    ≡ inr (apply memory staged_chip (layout.staging) (layout.application) 1)
unfolding cmd_apply run init manifest_matches_staging check_staged storage_data storage_crc32
    region_contains region_absolute header_validate header_crc verify_payload is_ok crc32
    crc32_begin crc32_update crc32_end crc32_bytes crc32_bits crc32_bit
installs = refl

install_verified_example :
    (started.receiving ≡ false)
    × (storage_crc32 memory (chip_of started) layout.staging 0 started.receive.image_size
        ≡ started.verified_crc32)
    × (given (staged_crc memory none staged_chip layout) [] ≡ some started.verified_crc32)
    × (0 < started.receive.image_size)
    × (started.receive.image_size ≤ 28672)
    × (memory.cell (apply memory staged_chip layout.staging layout.application 1) 0
        ≡ copied
            (memory.cell (chip_of started))
            28672
            0
            0
            ((started.receive.image_size + 4095) / 4096 * 4096)
            0)
install_verified_example =
    install_verified memory memory-IsDocumented 65536 2 layout none staged_chip
      (apply memory staged_chip (layout.staging) (layout.application) 1) [] 0 (omega arith)
      (omega arith) layout_made installs

-- A transfer that has just begun, on an erased chip.
abbrev running : Service (ℕ → ℕ)
running = record (zeroed blank_chip layout) {
  initialised = true;
  receiving = true;
  receive = record {
    base_address = 2 ^ 28;
    capacity = 28672;
    write_ctx = blank_chip;
    parser = record {
      address_base = 2 ^ 28;
      start_address = 0;
      have_start_address = false;
      seen_eof = false;
    };
    page = replicate 256 255;
    page_offset = 0;
    page_dirty = false;
    records = 1;
    bytes = 0;
    image_size = 0;
    pages_written = 0;
    started = true;
    is_complete = false;
    error = ReceiveResult.ok;
  };
}

abbrev data_line : List ℕ
data_line = line_of [] (frame record_data 258 (7 ∷ 9 ∷ [])) (10 ∷ [])

line_filter_data_example :
    view (staging_cell memory layout) (line_filter memory none running data_line).0.receive 259
    ≡ written
        (7 ∷ 9 ∷ [])
        (2 ^ 28 + 258 - 2 ^ 28)
        259
        (view (staging_cell memory layout) running.receive 259)
unfolding line_filter receive_line take_line feed_record feed skip_space feed_body check_frame
    decode_bytes sum_bytes accept trimmed_length trim_from is_space decode_byte decode_nibble
    hex_digit apply_record place_all place_byte place_at put_byte reset_page flush_page
line_filter_data_example =
    line_filter_data memory memory-IsDocumented none running (10 ∷ []) 258 259 (7 ∷ 9 ∷ []) refl
      refl refl refl refl refl (omega arith) (refl, tt) (omega arith) (omega arith) (omega arith)
      (omega arith) (λ k p q. refl) refl

abbrev end_line : List ℕ
end_line = 58 ∷ 48 ∷ 48 ∷ 48 ∷ 48 ∷ 48 ∷ 48 ∷ 48 ∷ 49 ∷ 70 ∷ 70 ∷ []

line_filter_complete_example :
    staging_cell memory layout (chip_of (line_filter memory none running end_line).0) 0
    ≡ view (staging_cell memory layout) running.receive 0
unfolding line_filter receive_line take_line feed_record feed skip_space feed_body check_frame
    decode_bytes sum_bytes accept trimmed_length trim_from is_space decode_byte decode_nibble
    apply_record flush_page
line_filter_complete_example =
    line_filter_complete memory memory-IsDocumented none running end_line 0 refl refl refl refl
      (omega arith) refl refl
