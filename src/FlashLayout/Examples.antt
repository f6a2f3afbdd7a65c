-- ===== src/FlashLayout/Examples.antt =====
-- flash_layout.c at the default 2 MiB chip, and its theorems at small inputs.
use pico_framework.Base.{◌+◌, ◌-◌, ◌%◌, ◌^◌, ◌≤◌, ◌<◌, ◌≡◌, ◌↔◌, refl, true, some, arith}
use pico_framework.FlashLayout.{
  Layout, LayoutResult, sector_size, compute, is_sector_aligned, check_erase, region_contains,
  region_absolute, round_up_to_sector,
}
use pico_framework.FlashLayout.Division.{Divides, end_of, compute-Divides, compute_wraps}
use pico_framework.FlashLayout.Bounds.{
  Within, Part, region_contains_iff, erase_isolated, round_up_lem,
}

-- 2 MiB with 32 sectors kept.
abbrev default_layout : Layout
default_layout = record {
  application = record { offset = 0; size = 0xF0000 };
  staging = record { offset = 0xF0000; size = 0xF0000 };
  manifest = record { offset = 0x1E0000; size = 0x1000 };
  spare = record { offset = 0x1E1000; size = 0x1F000 };
}

compute_default : compute 0x200000 32 ≡ (some default_layout, LayoutResult.ok)
unfolding compute is_sector_aligned
compute_default = refl

compute-Divides_example : Divides 0x200000 32 default_layout
compute-Divides_example = compute-Divides 0x200000 32 (omega arith) (omega arith) compute_default

compute_wraps_example :
    (l : Layout) × (compute 8192 (2 ^ 32 - 2) ≡ (some l, LayoutResult.ok))
    × (8192 ≤ end_of l.staging)
compute_wraps_example =
    compute_wraps 8192 (2 ^ 32 - 2) (omega arith) (omega arith) (omega arith) (omega arith)
      (omega arith)

region_contains_iff_example :
    (region_contains default_layout.staging 0x1000 0x2000 ≡ true)
    ↔ ((0 < 0xF0000) × (0x1000 + 0x2000 ≤ 0xF0000))
region_contains_iff_example = region_contains_iff default_layout.staging 0x1000 0x2000 (omega arith)

erase_isolated_example : ¬ Within default_layout.spare 0x1E0004
unfolding region_absolute check_erase region_contains is_sector_aligned
erase_isolated_example =
    erase_isolated 0x200000 32 0 0x1000 0x1E0004 default_layout Part.manifest Part.spare
      (omega arith) (omega arith) compute_default (λ e. cc) refl (omega arith)

round_up_lem_example :
    (round_up_to_sector 4097 % sector_size ≡ 0)
    × (4097 ≤ round_up_to_sector 4097)
    × (round_up_to_sector 4097 < 4097 + sector_size)
round_up_lem_example = round_up_lem 4097 (omega arith)
