-- ===== src/FirmwareApply.antt =====
-- components/firmware_update/firmware_apply.c: firmware_apply, which copies a staged image over the
-- application sector by sector and resets the chip. The watchdog and the reset are hardware.
pub mod Copy
mod Examples
use pico_framework.Base.{ℕ, zero, suc, ◌+◌, ◌*◌, ◌/◌, List, add32, sub32, tabulate}
use pico_framework.FlashLayout.{Region, sector_size}
use pico_framework.FlashStorage.Hardware.{Sdk}

module _ {Chip : Type 0} (sdk : Sdk Chip) where
  -- The loop, with `left` sectors to copy from the `sector`-th on.
  pub apply_sectors : Chip → ℕ → ℕ → ℕ → ℕ → Chip
  apply_sectors chip source_offset destination_offset zero sector = chip
  apply_sectors chip source_offset destination_offset (suc left) sector =
      let at = sector * sector_size in
      let staged = tabulate sector_size (λ i. sdk.cell chip (source_offset + at + i)) in
      let gone = sdk.range_erase chip (add32 destination_offset at) sector_size in
      let copied = sdk.range_program gone (add32 destination_offset at) staged in
      apply_sectors copied source_offset destination_offset left (sector + 1)

  -- The chip as the reset finds it.
  pub apply : Chip → Region → Region → ℕ → Chip
  apply chip source destination size =
      apply_sectors chip source.offset destination.offset
        (sub32 (add32 size sector_size) 1 / sector_size) 0
