-- ===== src/FlashStorage.antt =====
-- components/flash_storage/flash_storage.c: bounded erasing, programming and reading of a region.
-- The SDK's flash functions are the parameter `sdk`, and `code` is the chip offset of the code of
-- flash_storage_holds_running_code, `none` when it runs from RAM. Regions are not NULL.
pub mod Hardware
pub mod Guard
pub mod Done
pub mod Model
mod Examples
use pico_framework.Base.{
  ℕ, zero, suc, ◌+◌, ◌≡◌, Bool, true, false, Option, none, some, List, [], ◌∷◌, ltb, leb, ◌==◌,
  if◌then◌else◌, ◌&&◌, ◌||◌, not, add32, take, tabulate,
}
use pico_framework.Crc.{crc32}
use pico_framework.FlashLayout.{
  Region, LayoutResult, region_contains, check_erase, check_program, region_absolute,
}
use pico_framework.FlashStorage.Hardware.{Sdk}

-- `flash_storage_result_t`
pub data StorageResult : Type 0 where
  ok invalid_arg out_of_range unaligned running_from_region not_safe verify_failed : StorageResult

abbrev pub failed : StorageResult → Bool
failed StorageResult.ok = false
failed _ = true

-- `memcmp(…) == 0` of two runs of one size.
pub same_cells : List ℕ → List ℕ → Bool
same_cells [] [] = true
same_cells [] (y ∷ ys) = false
same_cells (x ∷ xs) [] = false
same_cells (x ∷ xs) (y ∷ ys) = (x == y) && same_cells xs ys

pub all_erased : List ℕ → Bool
all_erased [] = true
all_erased (b ∷ bytes) = (b == 0xFF) && all_erased bytes

abbrev pub translate : LayoutResult → StorageResult
translate LayoutResult.ok = StorageResult.ok
translate LayoutResult.unaligned = StorageResult.unaligned
translate LayoutResult.out_of_range = StorageResult.out_of_range
translate _ = StorageResult.invalid_arg

abbrev pub absent : Option (List ℕ) → Bool
absent none = true
absent (some bytes) = false

abbrev pub bytes_of : Option (List ℕ) → List ℕ
bytes_of none = []
bytes_of (some bytes) = bytes

module _ (code : Option ℕ) where
  unfoldable pub holds_running_code : Region → Bool
  holds_running_code region = if region.size == 0 then false else elim code [
    | none ↦ false
    | some offset ↦ leb region.offset offset && ltb offset (add32 region.offset region.size)
  ]

  unfoldable pub precheck : Region → StorageResult
  unfolding holds_running_code
  precheck region =
      if region.size == 0
      then StorageResult.invalid_arg
      else if holds_running_code region
      then StorageResult.running_from_region
      else StorageResult.ok

module _ {Chip : Type 0} (sdk : Sdk Chip) where
  -- The bytes that the pointer gives, `none` for NULL.
  unfoldable pub storage_data : Chip → Region → ℕ → ℕ → Option (List ℕ)
  storage_data chip region offset size =
      if not (region_contains region offset size)
      then none
      else some (tabulate size (λ i. sdk.cell chip (region_absolute region offset + i)))

  pub is_erased : Chip → Region → ℕ → ℕ → Bool
  is_erased chip region offset size = elim (storage_data chip region offset size) [
    | none ↦ false
    | some bytes ↦ all_erased bytes
  ]

  unfoldable pub storage_crc32 : Chip → Region → ℕ → ℕ → ℕ
  storage_crc32 chip region offset size = elim (storage_data chip region offset size) [
    | none ↦ 0
    | some bytes ↦ crc32 (some bytes)
  ]

  -- An operation under `flash_safe_execute`.
  abbrev pub execute : Chip → (Chip → Chip) → Chip × StorageResult
  execute chip operation =
      let (chip', done) = sdk.safe_execute chip operation in
      (chip', if not done then StorageResult.not_safe else StorageResult.ok)

  pub erase : Option ℕ → Chip → Region → ℕ → ℕ → Chip × StorageResult
  erase code chip region offset size =
      let checked = precheck code region in
      let bounds = translate (check_erase region offset size) in
      if failed checked
      then (chip, checked)
      else if failed bounds
      then (chip, bounds)
      else if size == 0
      then (chip, StorageResult.ok)
      else execute chip (λ c. sdk.range_erase c (region_absolute region offset) size)

  -- `none` for `data` is NULL; `size` bytes are taken from it.
  pub program : Option ℕ → Chip → Region → ℕ → Option (List ℕ) → ℕ → Chip × StorageResult
  program code chip region offset bytes size =
      let checked = precheck code region in
      let bounds = translate (check_program region offset size) in
      if failed checked
      then (chip, checked)
      else if absent bytes && ltb 0 size
      then (chip, StorageResult.invalid_arg)
      else if failed bounds
      then (chip, bounds)
      else if size == 0
      then (chip, StorageResult.ok)
      else execute chip
          (λ c. sdk.range_program c (region_absolute region offset) (take size (bytes_of bytes)))

  pub program_verified : Option ℕ → Chip → Region → ℕ → Option (List ℕ) → ℕ → Chip × StorageResult
  program_verified code chip region offset bytes size =
      let (chip', written) = program code chip region offset bytes size in
      if failed written then (chip', written) else elim (storage_data chip' region offset size) [
        | none ↦ (chip', StorageResult.out_of_range)
        | some stored ↦ (
          chip',
          if not (same_cells stored (take size (bytes_of bytes)))
              then StorageResult.verify_failed
              else StorageResult.ok,
        )
      ]
