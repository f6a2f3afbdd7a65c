-- ===== src/FlashStorage/Examples.antt =====
-- Erasing and programming at concrete values.
use pico_framework.Base.{◌≡◌, refl, inr, true, some, arith, replicate}
use pico_framework.FlashLayout.{Region, check_erase, region_contains, is_sector_aligned}
use pico_framework.FlashStorage.{
  StorageResult, erase, program_verified, is_erased, holds_running_code, precheck,
}
use pico_framework.FlashStorage.Model.{memory, memory-IsDocumented, blank_chip}
use pico_framework.FlashStorage.Guard.{confined}
use pico_framework.FlashStorage.Done.{erase-is_erased}

abbrev region : Region
region = record { offset = 8192; size = 8192 }

-- The region that the code runs from is refused, and a span that is not a whole sector.
erase_running :
    (erase memory (some 9000) blank_chip region 0 4096).1 ≡ StorageResult.running_from_region
unfolding erase precheck holds_running_code
erase_running = refl

erased_ok : (erase memory (some 100) blank_chip region 4096 4096).1 ≡ StorageResult.ok
unfolding erase precheck holds_running_code check_erase region_contains is_sector_aligned
erased_ok = refl

confined_example :
    (memory.cell (erase memory (some 100) blank_chip region 0 256).0 100
      ≡ memory.cell blank_chip 100)
    × (memory.cell
          (program_verified memory (some 100) blank_chip region 0 (some (replicate 256 7)) 256).0
          100
        ≡ memory.cell blank_chip 100)
confined_example =
    confined memory memory-IsDocumented (some 100) blank_chip region 0 (replicate 256 7) 256 100
      (omega arith) (omega arith) (inr refl)

erase-is_erased_example :
    is_erased memory (erase memory (some 100) blank_chip region 4096 4096).0 region 4096 4096 ≡ true
erase-is_erased_example =
    erase-is_erased memory memory-IsDocumented (some 100) blank_chip region 4096 4096 (omega arith)
      (omega arith) erased_ok
