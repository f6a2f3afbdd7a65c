-- ===== src/FlashLayout.antt =====
-- components/flash_storage/flash_layout.c and include/flash_layout.h. Offsets and sizes are
-- `uint32_t`; the regions handed in are not NULL.
pub mod Division
pub mod Bounds
mod Examples
use pico_framework.Base.{
  ℕ, zero, suc, ◌+◌, ◌-◌, ◌*◌, ◌/◌, ◌%◌, ◌^◌, Bool, true, false, Option, none, some, ltb, leb, ◌==◌,
  if◌then◌else◌, ◌&&◌, ◌||◌, not, add32, sub32, bit_and,
}

abbrev pub sector_size : ℕ
sector_size = 4096

abbrev pub page_size : ℕ
page_size = 256

abbrev pub manifest_sectors : ℕ
manifest_sectors = 1

-- `flash_region_t`
pub record Region : Type 0 where
  pub offset : ℕ
  pub size : ℕ

-- `flash_layout_t`
pub record Layout : Type 0 where
  pub application : Region
  pub staging : Region
  pub manifest : Region
  pub spare : Region

-- `flash_layout_result_t`
pub data LayoutResult : Type 0 where
  ok invalid_arg too_small unaligned out_of_range : LayoutResult

unfoldable pub is_sector_aligned : ℕ → Bool
is_sector_aligned offset = offset % sector_size == 0

unfoldable pub is_page_aligned : ℕ → Bool
is_page_aligned offset = offset % page_size == 0

-- The regions for an image of `image_size` bytes.
abbrev pub divide : ℕ → ℕ → Layout
divide flash_size image_size =
    let manifest_offset = 2 * image_size % 2 ^ 32 in
    let data_offset = add32 manifest_offset (manifest_sectors * sector_size) in
    record {
      application = record { offset = 0; size = image_size };
      staging = record { offset = image_size; size = image_size };
      manifest = record { offset = manifest_offset; size = manifest_sectors * sector_size };
      spare = record { offset = data_offset; size = sub32 flash_size data_offset };
    }

-- The layout that is written, and `flash_layout_compute`'s result.
unfoldable pub compute : ℕ → ℕ → Option Layout × LayoutResult
compute flash_size data_sectors =
    let total_sectors = flash_size / sector_size in
    if not (is_sector_aligned flash_size)
    then (none, LayoutResult.invalid_arg)
    else if ltb data_sectors (manifest_sectors + 1) || ltb total_sectors (add32 data_sectors 2)
    then (none, LayoutResult.too_small)
    else (
      some (divide flash_size (sub32 total_sectors data_sectors / 2 * sector_size % 2 ^ 32)),
      LayoutResult.ok,
    )

unfoldable pub region_contains : Region → ℕ → ℕ → Bool
region_contains region offset size =
    if region.size == 0
    then false
    else if size == 0
    then leb offset region.size
    else if ltb region.size offset || ltb (sub32 region.size offset) size
    then false
    else true

unfoldable pub check_erase : Region → ℕ → ℕ → LayoutResult
check_erase region offset size =
    if not (region_contains region offset size)
    then LayoutResult.out_of_range
    else if not (is_sector_aligned region.offset)
        || not (is_sector_aligned offset)
        || not (is_sector_aligned size)
    then LayoutResult.unaligned
    else LayoutResult.ok

unfoldable pub check_program : Region → ℕ → ℕ → LayoutResult
check_program region offset size =
    if not (region_contains region offset size)
    then LayoutResult.out_of_range
    else if not (is_page_aligned region.offset)
        || not (is_page_aligned offset)
        || not (is_page_aligned size)
    then LayoutResult.unaligned
    else LayoutResult.ok

pub sector_count : Region → ℕ
sector_count region = region.size / sector_size

unfoldable pub region_absolute : Region → ℕ → ℕ
region_absolute region offset = add32 region.offset offset

-- `~(SECTOR_SIZE - 1)` is the 32-bit mask 0xFFFFF000.
pub round_up_to_sector : ℕ → ℕ
round_up_to_sector size = bit_and (sub32 (add32 size sector_size) 1) 0xFFFFF000
