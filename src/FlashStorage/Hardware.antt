-- ===== src/FlashStorage/Hardware.antt =====
-- The functions of hardware/flash.h and pico/flash.h that flash_storage.c and firmware_apply.c call,
-- and what the Pico SDK's documentation says of them.
use pico_framework.Base.{
  ℕ, ◌+◌, ◌-◌, ◌%◌, ◌<◌, ◌≡◌, ◌⊎◌, Bool, true, List, ltb, leb, if◌then◌else◌, ◌&&◌, get_or, length,
  bit_and,
}

-- `Chip` is the state of the flash chip and of the lockout of the other core. `cell` is a byte of
-- the XIP window, by its offset from XIP_BASE. `safe_execute` gives whether it returned PICO_OK.
pub record Sdk (Chip : Type 0) : Type 0 where
  pub cell : Chip → ℕ → ℕ
  pub range_erase : Chip → ℕ → ℕ → Chip
  pub range_program : Chip → ℕ → List ℕ → Chip
  pub safe_execute : Chip → (Chip → Chip) → Chip × Bool

-- What a cell holds after an erase, and after a program, where it held `old`.
abbrev pub erased : ℕ → ℕ → ℕ → ℕ → ℕ
erased offset size j old = if leb offset j && ltb j (offset + size) then 255 else old

abbrev pub cleared : ℕ → List ℕ → ℕ → ℕ → ℕ
cleared offset bytes j old =
    if leb offset j && ltb j (offset + length bytes)
    then bit_and old (get_or bytes (j - offset) 255)
    else old

-- An erase of whole sectors sets every bit, a program of whole pages only clears bits, and
-- `safe_execute` has called the function when it returns PICO_OK, and may have when it times out.
pub record IsDocumented {Chip : Type 0} (sdk : Sdk Chip) : Type 0 where
  pub byte_cell : (chip : Chip) (j : ℕ) → sdk.cell chip j < 256
  pub erases :
      (chip : Chip) (offset size j : ℕ)
      → offset % 4096 ≡ 0
      → size % 4096 ≡ 0
      → sdk.cell (sdk.range_erase chip offset size) j ≡ erased offset size j (sdk.cell chip j)
  pub programs :
      (chip : Chip) (offset : ℕ) (bytes : List ℕ) (j : ℕ)
      → offset % 256 ≡ 0
      → length bytes % 256 ≡ 0
      → sdk.cell (sdk.range_program chip offset bytes) j ≡ cleared offset bytes j (sdk.cell chip j)
  pub called :
      (chip : Chip) (operation : Chip → Chip) (j : ℕ)
      → (sdk.safe_execute chip operation).1 ≡ true
      → sdk.cell (sdk.safe_execute chip operation).0 j ≡ sdk.cell (operation chip) j
  pub refused :
      (chip : Chip) (operation : Chip → Chip)
      → ((j : ℕ) → sdk.cell (sdk.safe_execute chip operation).0 j ≡ sdk.cell chip j)
        ⊎ ((j : ℕ) → sdk.cell (sdk.safe_execute chip operation).0 j ≡ sdk.cell (operation chip) j)
