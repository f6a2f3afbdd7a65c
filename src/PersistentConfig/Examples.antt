-- ===== src/PersistentConfig/Examples.antt =====
-- A save at concrete values, and the counter at its wrap.
use pico_framework.Base.{
  ℕ, List, ◌-◌, ◌^◌, ◌≡◌, ◌⊎◌, refl, true, false, none, some, [], ◌∷◌, arith, add32, ltb, get_or,
  if◌then◌else◌,
}
use pico_framework.FlashLayout.{region_contains, region_absolute}
use pico_framework.FlashStorage.{storage_data}
use pico_framework.FlashStorage.Model.{memory, memory-IsDocumented}
use pico_framework.Crc.{crc32}
use pico_framework.PersistentConfig.{
  Config, PersistentResult, magic_number, header_crc, sequence_is_later, slot_check, slot_read,
  save,
}
use pico_framework.PersistentConfig.Save.{sequence_is_later_lem, save_keeps_current}

-- A store of one record, loaded from the first slot.
abbrev saved : Config
saved = record {
  store =
      some (record { buffer = 1 ∷ 1 ∷ 97 ∷ 5 ∷ []; capacity = 4; used = 4; initialised = true });
  slot0 = record { offset = 61440; size = 4096 };
  slot1 = record { offset = 65536; size = 4096 };
  current = 0;
  sequence = 2 ^ 32 - 1;
  loaded = true;
}

-- A chip that holds the saved configuration in the first slot.
abbrev header_bytes_saved : List ℕ
header_bytes_saved =
    80 ∷ 67 ∷ 70 ∷ 49 ∷ 255 ∷ 255 ∷ 255 ∷ 255 ∷ 4 ∷ 0 ∷ 0 ∷ 0 ∷ 39 ∷ 124 ∷ 182 ∷ 148 ∷ 98 ∷ 117 ∷ 99
    ∷ 185 ∷ []

abbrev saved_chip : ℕ → ℕ
saved_chip j =
    if ltb j 61440
    then 255
    else if ltb j 61696
    then get_or header_bytes_saved (j - 61440) 255
    else get_or (1 ∷ 1 ∷ 97 ∷ 5 ∷ []) (j - 61696) 255

read_before :
    slot_read memory saved_chip saved.slot0
    ≡ some (
      record {
        magic = magic_number;
        sequence = 2 ^ 32 - 1;
        length = 4;
        records_crc32 = 2494987303;
        header_crc32 = 3110303074;
      },
      1 ∷ 1 ∷ 97 ∷ 5 ∷ [],
    )
unfolding slot_read slot_check header_crc storage_data region_contains region_absolute crc32
read_before = refl

data_before : storage_data memory saved_chip saved.slot0 256 4 ≡ some (1 ∷ 1 ∷ 97 ∷ 5 ∷ [])
unfolding storage_data region_contains region_absolute
data_before = refl

save_keeps_current_example :
    (storage_data memory (save memory none saved_chip saved).0 saved.slot0 256 4
      ≡ storage_data memory saved_chip saved.slot0 256 4)
    × ((slot_read memory (save memory none saved_chip saved).0 saved.slot0
          ≡ slot_read memory saved_chip saved.slot0)
        × (((save memory none saved_chip saved).1.1 ≡ PersistentResult.ok)
            ⊎ ((save memory none saved_chip saved).1.0 ≡ saved)))
save_keeps_current_example =
    save_keeps_current memory memory-IsDocumented none saved_chip saved 256 4
      (record { apart = omega arith; ends = omega arith }) refl (omega arith)

sequence_is_later_lem_example :
    (sequence_is_later (add32 (2 ^ 32 - 1) 1) (2 ^ 32 - 1) ≡ true)
    × (sequence_is_later (2 ^ 32 - 1) (add32 (2 ^ 32 - 1) 1) ≡ false)
sequence_is_later_lem_example =
    sequence_is_later_lem (2 ^ 32 - 1) 1 (omega arith) (omega arith) (omega arith)
