-- ===== src/PersistentConfig.antt =====
-- components/persistent_config/persistent_config.c: a config_store kept in two slots of flash. A
-- handle is not NULL; the layout is what flash_layout_get gives, its data region the field `spare`,
-- and the chip is passed along.
pub mod Save
mod Examples
use pico_framework.Base.{
  ℕ, zero, suc, ◌+◌, ◌-◌, ◌*◌, ◌/◌, ◌%◌, ◌^◌, Bool, true, false, Option, none, some, List, [], ◌∷◌,
  ◌++◌, ltb, leb, ◌==◌, if◌then◌else◌, ◌&&◌, ◌||◌, not, add32, sub32, get_or, replicate, blit, take,
  drop, length,
}
use pico_framework.Crc.{crc32}
use pico_framework.FlashLayout.{Layout, Region, sector_size, page_size}
use pico_framework.FlashStorage.{
  StorageResult, failed, erase, program_verified, storage_data, is_erased,
}
use pico_framework.FlashStorage.Hardware.{Sdk}
use pico_framework.FirmwareImage.{le32}
use pico_framework.ConfigStore.{Store, ConfigResult, store_init, store_load, config_clear}

abbrev pub magic_number : ℕ
magic_number = 0x31464350

-- `sizeof(slot_header_t)`, which the source asserts, and RECORDS_AT.
abbrev pub header_bytes : ℕ
header_bytes = 20

abbrev pub records_at : ℕ
records_at = page_size

abbrev pub slot_capacity : ℕ
slot_capacity = sector_size - records_at

-- `persistent_config_result_t`
pub data PersistentResult : Type 0 where
  ok invalid_arg no_space empty corrupt too_large flash : PersistentResult

-- `slot_header_t`
pub record SlotHeader : Type 0 where
  pub magic : ℕ
  pub sequence : ℕ
  pub length : ℕ
  pub records_crc32 : ℕ
  pub header_crc32 : ℕ

-- `persistent_config_t`; `none` is a store without a buffer.
pub record Config : Type 0 where
  pub store : Option Store
  pub slot0 : Region
  pub slot1 : Region
  pub current : ℕ
  pub sequence : ℕ
  pub loaded : Bool

abbrev pub slot : Config → ℕ → Region
slot config zero = config.slot0
slot config (suc n) = config.slot1

-- The bytes of a header before its CRC field, and all of it; there is no padding.
abbrev pub covered : SlotHeader → List ℕ
covered h = le32 h.magic ++ (le32 h.sequence ++ (le32 h.length ++ le32 h.records_crc32))

pub header_crc : SlotHeader → ℕ
header_crc h = crc32 (some (covered h))

abbrev pub header_image : SlotHeader → List ℕ
header_image h = covered h ++ le32 h.header_crc32

abbrev pub word_at : List ℕ → ℕ → ℕ
word_at bytes i =
    get_or bytes i 0
    + get_or bytes (i + 1) 0 * 256
    + get_or bytes (i + 2) 0 * 65536
    + get_or bytes (i + 3) 0 * 16777216

abbrev pub header_of : List ℕ → SlotHeader
header_of bytes = record {
  magic = word_at bytes 0;
  sequence = word_at bytes 4;
  length = word_at bytes 8;
  records_crc32 = word_at bytes 12;
  header_crc32 = word_at bytes 16;
}

-- `(int32_t)(a - b) > 0`
pub sequence_is_later : ℕ → ℕ → Bool
sequence_is_later a b = ltb 0 (sub32 a b) && ltb (sub32 a b) (2 ^ 31)

abbrev pub no_region : Region
no_region = record { offset = 0; size = 0 }

-- The zeroed structure, with the slots where the data region has room for two.
pub slot_regions : Layout → Option Config
slot_regions layout =
    if ltb layout.spare.size (2 * sector_size)
    then none
    else some (record {
      store = none;
      slot0 = record { offset = layout.spare.offset; size = sector_size };
      slot1 = record { offset = add32 layout.spare.offset sector_size; size = sector_size };
      current = 0;
      sequence = 0;
      loaded = false;
    })

-- The slot that is chosen, and what was read from it.
abbrev pub choose :
    Option (SlotHeader × List ℕ) → Option (SlotHeader × List ℕ) → Option (ℕ × (SlotHeader × List ℕ))
choose none none = none
choose (some first) none = some (0, first)
choose none (some second) = some (1, second)
choose (some (h, a)) (some (k, b)) =
    if sequence_is_later k.sequence h.sequence then some (1, (k, b)) else some (0, (h, a))

-- `persistent_config_load` once a slot is chosen: the slot's number, its header and records.
pub adopt : Config → List ℕ → ℕ → ℕ → SlotHeader → List ℕ → Config × PersistentResult
adopt config buffer capacity chosen header records =
    let empty_store = (store_init (some buffer) capacity).0 in
    let filled = blit buffer 0 records in
    let (store, adopted) = store_load (some filled) capacity header.length in
    if ltb capacity header.length
    then (record config { store = empty_store }, PersistentResult.too_large)
    else elim adopted [
      | ConfigResult.ok ↦ (
        record config {
          store = store;
          current = chosen;
          sequence = header.sequence;
          loaded = true;
        },
        PersistentResult.ok,
      )
      | _ ↦ (
        record config { store = (store_init (some filled) capacity).0 },
        PersistentResult.corrupt,
      )
    ]

abbrev pub page_of : List ℕ → List ℕ
page_of bytes = blit (replicate page_size 0xFF) 0 bytes

module _ {Chip : Type 0} (sdk : Sdk Chip) where
  -- `slot_read` from the header on: its header and records.
  pub slot_check : Chip → Region → SlotHeader → Option (SlotHeader × List ℕ)
  slot_check chip region header =
      if not (header.magic == magic_number)
      then none
      else if not (header.header_crc32 == header_crc header)
      then none
      else if ltb slot_capacity header.length
      then none
      else elim (storage_data sdk chip region records_at header.length) [
        | none ↦ none
        | some payload ↦
            if not (crc32 (some payload) == header.records_crc32)
            then none
            else some (header, payload)
      ]

  pub slot_read : Chip → Region → Option (SlotHeader × List ℕ)
  slot_read chip region = elim (storage_data sdk chip region 0 header_bytes) [
    | none ↦ none
    | some raw ↦ slot_check chip region (header_of raw)
  ]

  -- The configuration that is written, if any, and the result; `none` for `buffer` is NULL.
  pub load : Chip → Layout → Option (List ℕ) → ℕ → Option Config × PersistentResult
  load chip layout none capacity = (none, PersistentResult.invalid_arg)
  load chip layout (some buffer) capacity =
      let empty_store = (store_init (some buffer) capacity).0 in
      if capacity == 0 then (none, PersistentResult.invalid_arg) else elim (slot_regions layout) [
        | none ↦ (
          some (record {
            store = empty_store;
            slot0 = no_region;
            slot1 = no_region;
            current = 0;
            sequence = 0;
            loaded = false;
          }),
          PersistentResult.no_space,
        )
        | some config ↦ elim (choose (slot_read chip config.slot0) (slot_read chip config.slot1)) [
          | none ↦ (
            some (record config { store = empty_store }),
            if is_erased sdk chip config.slot0 0 header_bytes
                  && is_erased sdk chip config.slot1 0 header_bytes
                then PersistentResult.empty
                else PersistentResult.corrupt,
          )
          | some (chosen, (header, records)) ↦
              let (adopted, result) = adopt config buffer capacity chosen header records in
              (some adopted, result)
        ]
      ]

  -- The loop over the pages of `len` bytes of records, from byte `done` on, and whether each was
  -- stored.
  pub save_pages : Option ℕ → ℕ → Chip → Region → List ℕ → ℕ → ℕ → Chip × Bool
  save_pages code zero chip region buffer len done = (chip, true)
  save_pages code (suc fuel) chip region buffer len done =
      let chunk = if ltb (len - done) page_size then len - done else page_size in
      let page = page_of (take chunk (drop done buffer)) in
      let (chip', written) =
        program_verified sdk code chip region (records_at + done) (some page) page_size in
      let rest = save_pages code fuel chip' region buffer len (done + chunk) in
      if not (ltb done len) then (chip, true) else if failed written then (chip', false) else rest

  -- `persistent_config_save` from the target on.
  pub save_to : Option ℕ → Chip → Config → Store → ℕ → Chip × (Config × PersistentResult)
  save_to code chip config store target =
      let region = slot config target in
      let (gone, erased) = erase sdk code chip region 0 region.size in
      let (paged, stored) = save_pages code store.used gone region store.buffer store.used 0 in
      let blank : SlotHeader = record {
        magic = magic_number;
        sequence = add32 config.sequence 1;
        length = store.used;
        records_crc32 = crc32 (some (take store.used store.buffer));
        header_crc32 = 0;
      } in
      let header = record blank { header_crc32 = header_crc blank } in
      let (last, written) =
        program_verified sdk code paged region 0 (some (page_of (header_image header))) page_size in
      if failed erased
      then (gone, (config, PersistentResult.flash))
      else if not stored
      then (paged, (config, PersistentResult.flash))
      else if failed written
      then (last, (config, PersistentResult.flash))
      else (
        last,
        (
          record config { current = target; sequence = header.sequence; loaded = true },
          PersistentResult.ok,
        ),
      )

  -- `persistent_config_save` where the store has a buffer.
  pub save_store : Option ℕ → Chip → Config → Store → Chip × (Config × PersistentResult)
  save_store code chip config store =
      if config.slot0.size == 0
      then (chip, (config, PersistentResult.no_space))
      else if ltb slot_capacity store.used
      then (chip, (config, PersistentResult.too_large))
      else save_to code chip config store (if config.loaded then 1 - config.current else 0)

  pub save : Option ℕ → Chip → Config → Chip × (Config × PersistentResult)
  save code chip config = elim (config.store) [
    | none ↦ (chip, (config, PersistentResult.invalid_arg))
    | some store ↦ save_store code chip config store
  ]

  pub erase_all : Option ℕ → Chip → Config → Chip × (Config × PersistentResult)
  erase_all code chip config =
      let (first, erased) = erase sdk code chip config.slot0 0 config.slot0.size in
      let (second, erased') = erase sdk code first config.slot1 0 config.slot1.size in
      if config.slot0.size == 0
      then (chip, (config, PersistentResult.invalid_arg))
      else if failed erased
      then (first, (config, PersistentResult.flash))
      else if failed erased'
      then (second, (config, PersistentResult.flash))
      else (
        second,
        (
          record config {
            store = elim (config.store) [ none ↦ none | some store ↦ some (config_clear store) ];
            loaded = false;
            sequence = 0;
            current = 0;
          },
          PersistentResult.ok,
        ),
      )
