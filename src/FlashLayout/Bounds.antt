-- ===== src/FlashLayout/Bounds.antt =====
-- flash_layout.c: what the checks on a span let through.
use pico_framework.Base.{
  some, ℕ, ◌+◌, ◌-◌, ◌*◌, ◌/◌, ◌%◌, ◌^◌, ◌≤◌, ◌<◌, ◌≡◌, ◌≢◌, ap, ◌∙◌, true, arith, ◌↔◌, bit_and,
  add32, sub32,
}
use pico_framework.Base.Bits.And.{bit_and_ones, bit_and_shifted}
use pico_framework.FlashLayout.{
  Region, Layout, LayoutResult, sector_size, page_size, is_sector_aligned, is_page_aligned,
  region_contains, check_erase, check_program, region_absolute, round_up_to_sector, compute,
}
use pico_framework.FlashLayout.Division.{Divides, end_of, compute-Divides}

-- `contains` says exactly that the span ends inside a region that is not empty, with no wrap of
-- offset and size.
pub region_contains_iff :
    (r : Region) (offset size : ℕ)
    → r.size < 2 ^ 32
    → (region_contains r offset size ≡ true) ↔ ((0 < r.size) × (offset + size ≤ r.size))
unfolding region_contains
region_contains_iff r offset size h = (λ e. ground arith, λ p. ground arith)

-- A span that may be erased lies in the region and covers whole sectors of the chip; anything else
-- is refused.
pub check_erase_iff :
    (r : Region) (offset size : ℕ)
    → r.size < 2 ^ 32
    → (check_erase r offset size ≡ LayoutResult.ok) ↔ (
        (0 < r.size)
        × (offset + size ≤ r.size)
        × (r.offset % sector_size ≡ 0)
        × (offset % sector_size ≡ 0)
        × (size % sector_size ≡ 0))
unfolding check_erase region_contains is_sector_aligned
check_erase_iff r offset size h = (λ e. ground arith, λ p. ground arith)

-- A span that may be programmed lies in the region and covers whole pages of the chip; anything
-- else is refused.
pub check_program_iff :
    (r : Region) (offset size : ℕ)
    → r.size < 2 ^ 32
    → (check_program r offset size ≡ LayoutResult.ok) ↔ (
        (0 < r.size)
        × (offset + size ≤ r.size)
        × (r.offset % page_size ≡ 0)
        × (offset % page_size ≡ 0)
        × (size % page_size ≡ 0))
unfolding check_program region_contains is_page_aligned
check_program_iff r offset size h = (λ e. ground arith, λ p. ground arith)

-- The chip bytes of a span start at its absolute offset.
abbrev pub Touches : Region → ℕ → ℕ → ℕ → Type 0
Touches r offset size byte =
    (region_absolute r offset ≤ byte) × (byte < region_absolute r offset + size)

abbrev pub Within : Region → ℕ → Type 0
Within r byte = (r.offset ≤ byte) × (byte < end_of r)

-- An erase that passes the check touches bytes of its own region alone.
check_erase-Within :
    (r : Region) (offset size byte : ℕ)
    → end_of r < 2 ^ 32
    → check_erase r offset size ≡ LayoutResult.ok
    → Touches r offset size byte
    → Within r byte
unfolding region_absolute
check_erase-Within r offset size byte h e t =
    omega (arith, (check_erase_iff r offset size (omega arith)).0 e)

-- The four regions of a layout, by name.
pub data Part : Type 0 where
  application staging manifest spare : Part

abbrev pub part : Part → Layout → Region
part Part.application l = l.application
part Part.staging l = l.staging
part Part.manifest l = l.manifest
part Part.spare l = l.spare

apart :
    (flash_size data_sectors byte : ℕ) (l : Layout) (p q : Part)
    → Divides flash_size data_sectors l
    → p ≢ q
    → Within (part p l) byte
    → ¬ Within (part q l) byte
apart flash_size data_sectors byte l Part.application q d ne h w = ground arith
apart flash_size data_sectors byte l Part.staging q d ne h w = ground arith
apart flash_size data_sectors byte l Part.manifest q d ne h w = ground arith
apart flash_size data_sectors byte l Part.spare q d ne h w = ground arith

part-bounded :
    (flash_size data_sectors : ℕ) (l : Layout) (p : Part)
    → flash_size < 2 ^ 32
    → Divides flash_size data_sectors l
    → end_of (part p l) ≤ flash_size
part-bounded flash_size data_sectors l Part.application hf d = omega arith
part-bounded flash_size data_sectors l Part.staging hf d = omega arith
part-bounded flash_size data_sectors l Part.manifest hf d = omega arith
part-bounded flash_size data_sectors l Part.spare hf d = omega arith

-- In a layout that was computed for a chip of less than 2 ^ 32 bytes and less than 2 ^ 32 - 2 data
-- sectors, an erase that passes the check for one region touches no byte of another region.
pub erase_isolated :
    (flash_size data_sectors offset size byte : ℕ) (l : Layout) (p q : Part)
    → flash_size < 2 ^ 32
    → data_sectors < 2 ^ 32 - 2
    → compute flash_size data_sectors ≡ (some l, LayoutResult.ok)
    → p ≢ q
    → check_erase (part p l) offset size ≡ LayoutResult.ok
    → Touches (part p l) offset size byte
    → ¬ Within (part q l) byte
erase_isolated flash_size data_sectors offset size byte l p q hf hd e ne c t =
    let d = compute-Divides flash_size data_sectors hf hd e in
    let fits = part-bounded flash_size data_sectors l p hf d in
    apart flash_size data_sectors byte l p q d ne
      (check_erase-Within (part p l) offset size byte (omega arith) c t)

clear_low : (a : ℕ) → a < 2 ^ 32 → bit_and a 0xFFFFF000 ≡ a / 4096 * 4096
clear_low a h =
    let parts : a ≡ a / 4096 * 2 ^ 12 + a % 4096 = omega arith in
    ap (λ t. bit_and t 0xFFFFF000) parts
    ∙ (bit_and_shifted 12 (a / 4096) (a % 4096) 0xFFFFF (omega arith)
        ∙ ap (λ (t : ℕ). t * 4096) (bit_and_ones 20 (a / 4096) (omega arith)))

-- Rounding up gives the least whole number of sectors that holds the size, for sizes whose last
-- sector is below 2 ^ 32.
pub round_up_lem :
    (size : ℕ)
    → size ≤ 2 ^ 32 - sector_size
    → (round_up_to_sector size % sector_size ≡ 0)
      × (size ≤ round_up_to_sector size)
      × (round_up_to_sector size < size + sector_size)
unfolding round_up_to_sector
round_up_lem size h = omega (arith, clear_low (sub32 (add32 size sector_size) 1) (omega arith))
