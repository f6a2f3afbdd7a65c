-- ===== src/FlashLayout/Division.antt =====
-- flash_layout.c: how `flash_layout_compute` divides the chip.
use pico_framework.Base.{◌↔◌, sub32, ℕ, ◌+◌, ◌-◌, ◌*◌, ◌/◌, ◌%◌, ◌^◌, ◌≤◌, ◌<◌, ◌≡◌, some, arith}
use pico_framework.FlashLayout.{
  Region, Layout, LayoutResult, sector_size, compute, divide, is_sector_aligned,
}

abbrev pub end_of : Region → ℕ
end_of r = r.offset + r.size

-- Application, staging, manifest and data follow one another without a gap from the start of the
-- chip to its end; the two images are equal and not empty; every region starts and ends on a
-- sector boundary; and the tail kept for manifest and data has at least the sectors asked for.
pub record Divides (flash_size data_sectors : ℕ) (l : Layout) : Type 0 where
  pub first : l.application.offset ≡ 0
  pub second : l.staging.offset ≡ end_of l.application
  pub third : l.manifest.offset ≡ end_of l.staging
  pub fourth : l.spare.offset ≡ end_of l.manifest
  pub whole : end_of l.spare ≡ flash_size
  pub equal : l.staging.size ≡ l.application.size
  pub image : 0 < l.application.size
  pub one_sector : l.manifest.size ≡ sector_size
  pub kept : data_sectors * sector_size ≤ l.manifest.size + l.spare.size
  pub spare_room : 0 < l.spare.size
  pub application_aligned : l.application.size % sector_size ≡ 0
  pub spare_aligned : l.spare.size % sector_size ≡ 0

-- A layout that is accepted divides the chip: the regions follow one another from its start to its
-- end, on sector boundaries, with two equal images and the tail that was asked for. The number
-- of data sectors must leave room for `+ 2` in 32 bits.
pub compute-Divides :
    (flash_size data_sectors : ℕ) {l : Layout}
    → flash_size < 2 ^ 32
    → data_sectors < 2 ^ 32 - 2
    → compute flash_size data_sectors ≡ (some l, LayoutResult.ok)
    → Divides flash_size data_sectors l
unfolding compute is_sector_aligned
compute-Divides flash_size data_sectors hf hd e = ground arith

-- Exactly when a chip is divided: it is whole sectors, the tail has two sectors at least, and two
-- more are left for the images.
pub compute_ok_iff :
    (flash_size data_sectors : ℕ)
    → flash_size < 2 ^ 32
    → data_sectors < 2 ^ 32 - 2
    → ((compute flash_size data_sectors).1 ≡ LayoutResult.ok) ↔ (
        (flash_size % sector_size ≡ 0)
        × (2 ≤ data_sectors)
        × (data_sectors + 2 ≤ flash_size / sector_size))
unfolding compute is_sector_aligned
compute_ok_iff flash_size data_sectors hf hd = (λ e. ground arith, λ p. ground arith)

-- With `data_sectors` at 2 ^ 32 - 2 or 2 ^ 32 - 1 the guard wraps: every chip of whole sectors is
-- accepted, and the two images take it to its end or beyond, so nothing is left for manifest and
-- data.
pub compute_wraps :
    (flash_size data_sectors : ℕ)
    → flash_size < 2 ^ 32
    → flash_size % sector_size ≡ 0
    → 2 ^ 32 - 2 ≤ data_sectors
    → data_sectors < 2 ^ 32
    → 0 < flash_size
    → (l : Layout) × (compute flash_size data_sectors ≡ (some l, LayoutResult.ok))
      × (flash_size ≤ end_of l.staging)
unfolding compute is_sector_aligned
compute_wraps flash_size data_sectors hf ha low high pos = (
  divide flash_size (sub32 (flash_size / sector_size) data_sectors / 2 * sector_size % 2 ^ 32),
  ground arith,
  ground arith,
)
