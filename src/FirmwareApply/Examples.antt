-- ===== src/FirmwareApply/Examples.antt =====
-- A copy of one byte.
use pico_framework.Base.{◌≡◌, inr, arith}
use pico_framework.FlashLayout.{Region}
use pico_framework.FlashStorage.Model.{memory, memory-IsDocumented, blank_chip}
use pico_framework.FirmwareApply.{apply}
use pico_framework.FirmwareApply.Copy.{copied, apply_lem}

abbrev source : Region
source = record { offset = 8192; size = 8192 }

abbrev destination : Region
destination = record { offset = 0; size = 8192 }

apply_lem_example :
    memory.cell (apply memory blank_chip source destination 1) 4095
    ≡ copied (memory.cell blank_chip) 8192 0 0 4096 4095
apply_lem_example =
    apply_lem memory memory-IsDocumented blank_chip source destination 1 4095 (omega arith)
      (omega arith) (omega arith) (omega arith) (inr (omega arith))
