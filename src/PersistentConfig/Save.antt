-- ===== src/PersistentConfig/Save.antt =====
-- persistent_config.c: a save leaves the slot that is current as it was.
use pico_framework.Base.{
  ℕ, zero, suc, ◌+◌, ◌-◌, ◌^◌, ◌≤◌, ◌<◌, ◌≡◌, refl, sym, ap, ◌∙◌, true, false, Option, none, some,
  List, ltb, ◌==◌, if◌then◌else◌, not, add32, sub32, arith, length, length-blit, length-replicate,
  replicate, take, drop, ◌⊎◌, inl, inr, Bool-cases, subst,
}
use pico_framework.FlashLayout.{Region, page_size}
use pico_framework.FlashLayout.Division.{end_of}
use pico_framework.FlashLayout.Bounds.{Within}
use pico_framework.FlashStorage.{failed, erase, program_verified, storage_data}
use pico_framework.FlashStorage.Hardware.{Sdk, IsDocumented}
use pico_framework.FlashStorage.Guard.{erase_keeps, confined}
use pico_framework.FlashStorage.Done.{storage_data_same}
use pico_framework.Crc.{crc32}
use pico_framework.ConfigStore.{Store}
use pico_framework.PersistentConfig.{
  Config, PersistentResult, SlotHeader, slot, slot_check, slot_read, header_bytes, header_of,
  page_of, save_pages, save_to, save_store, save, sequence_is_later, records_at, header_image,
  magic_number, slot_capacity, header_crc,
}

-- The two slots do not overlap and end in the address space.
pub record IsApart (config : Config) : Type 0 where
  pub apart : end_of config.slot0 ≤ config.slot1.offset
  pub ends : end_of config.slot1 < 2 ^ 32

-- A later number is recognised across the wrap of the counter, and is not mistaken for the earlier
-- one, as long as the two are less than 2 ^ 31 saves apart.
pub sequence_is_later_lem :
    (a k : ℕ)
    → a < 2 ^ 32
    → 0 < k
    → k < 2 ^ 31
    → (sequence_is_later (add32 a k) a ≡ true) × (sequence_is_later a (add32 a k) ≡ false)
unfolding sequence_is_later
sequence_is_later_lem a k ha hk small =
    let forth : sub32 (add32 a k) a ≡ k = omega (arith, ha, small) in
    let back : sub32 a (add32 a k) ≡ 2 ^ 32 - k = omega (arith, ha, hk, small) in
    rw (forth, back) (ground (arith, hk, small))

page_of-full : (bytes : List ℕ) → 256 ≤ length (page_of bytes)
page_of-full bytes =
    omega (arith, length-blit (replicate 256 0xFF) 0 bytes, length-replicate {A = ℕ} 256 255)

slot_ends : (config : Config) (n : ℕ) → IsApart config → end_of (slot config n) < 2 ^ 32
slot_ends config zero is = omega (arith, is.apart, is.ends)
slot_ends config (suc n) is = is.ends

other_slot :
    (config : Config) (n j : ℕ)
    → IsApart config
    → n ≤ 1
    → Within (slot config n) j
    → ¬ Within (slot config (1 - n)) j
other_slot config zero j is low w = λ v. omega (arith, is.apart, w, v)
other_slot config (suc zero) j is low w = λ v. omega (arith, is.apart, w, v)
other_slot config (suc (suc n)) j is low w = absurd (omega (arith, low))

module _ {Chip : Type 0} (sdk : Sdk Chip) (chip chip' : Chip) (r : Region)
    (ends : end_of r < 2 ^ 32)
    (same : (j : ℕ) → Within r j → sdk.cell chip' j ≡ sdk.cell chip j) where
  slot_check_same :
      (header : SlotHeader) → slot_check sdk chip' r header ≡ slot_check sdk chip r header
  unfolding slot_check
  slot_check_same header =
      rw (storage_data_same sdk chip chip' r records_at (header.length) ends same) refl

  check_same :
      (raw : Option (List ℕ))
      → (elim raw [ none ↦ none | some bytes ↦ slot_check sdk chip' r (header_of bytes) ])
        ≡ (elim raw [ none ↦ none | some bytes ↦ slot_check sdk chip r (header_of bytes) ])
  check_same none = refl
  check_same (some bytes) = slot_check_same (header_of bytes)

  -- What a slot reads as depends on its cells alone.
  slot_read_same : slot_read sdk chip' r ≡ slot_read sdk chip r
  unfolding slot_read
  slot_read_same =
      ap (λ d. elim d [ none ↦ none | some raw ↦ slot_check sdk chip' r (header_of raw) ])
        (storage_data_same sdk chip chip' r 0 header_bytes ends same)
      ∙ check_same (storage_data sdk chip r 0 header_bytes)

module _ {Chip : Type 0} (sdk : Sdk Chip) (doc : IsDocumented sdk) where
  save_pages-keeps :
      (code : Option ℕ) (fuel : ℕ) (chip : Chip) (r : Region) (buffer : List ℕ) (len done j : ℕ)
      → end_of r < 2 ^ 32
      → ¬ Within r j
      → sdk.cell (save_pages sdk code fuel chip r buffer len done).0 j ≡ sdk.cell chip j
  unfolding save_pages
  save_pages-keeps code zero chip r buffer len done j ends out = refl
  save_pages-keeps code (suc fuel) chip r buffer len done j ends out =
      let chunk = if ltb (len - done) page_size then len - done else page_size in
      let page = page_of (take chunk (drop done buffer)) in
      let p = program_verified sdk code chip r (records_at + done) (some page) page_size in
      let kept : sdk.cell p.0 j ≡ sdk.cell chip j =
        (confined sdk doc code chip r (records_at + done) page 256 j ends
          (page_of-full (take chunk (drop done buffer))) (inl out)).1 in
      elim (Bool-cases (not (ltb done len))) [
        | inl over ↦ rw over refl
        | inr more ↦ elim (Bool-cases (failed (p.1))) [
          | inl bad ↦ rw more (rw bad kept)
          | inr fine ↦ rw more (
              rw fine
                (save_pages-keeps code fuel (p.0) r buffer len (done + chunk) j ends out ∙ kept))
        ]
      ]

  header_kept :
      (code : Option ℕ) (chip : Chip) (r : Region) (bytes : List ℕ) (j : ℕ)
      → end_of r < 2 ^ 32
      → ¬ Within r j
      → sdk.cell (program_verified sdk code chip r 0 (some (page_of bytes)) page_size).0 j
        ≡ sdk.cell chip j
  header_kept code chip r bytes j ends out =
      (confined sdk doc code chip r 0 (page_of bytes) 256 j ends (page_of-full bytes) (inl out)).1

  -- What a save may do: leave a cell alone, and change the configuration only if it succeeds.
  record Kept (chip : Chip) (config : Config) (j : ℕ) (r : Chip × (Config × PersistentResult))
      : Type 0 where
    cells : sdk.cell r.0 j ≡ sdk.cell chip j
    outcome : (r.1.1 ≡ PersistentResult.ok) ⊎ (r.1.0 ≡ config)

  save_to-keeps :
      (code : Option ℕ) (chip : Chip) (config : Config) (store : Store) (target j : ℕ)
      → end_of (slot config target) < 2 ^ 32
      → ¬ Within (slot config target) j
      → Kept chip config j (save_to sdk code chip config store target)
  unfolding save_to
  save_to-keeps code chip config store target j ends out =
      let region = slot config target in
      let e = erase sdk code chip region 0 region.size in
      let pages = save_pages sdk code store.used e.0 region store.buffer store.used 0 in
      let blank : SlotHeader = record {
        magic = magic_number;
        sequence = add32 config.sequence 1;
        length = store.used;
        records_crc32 = crc32 (some (take store.used store.buffer));
        header_crc32 = 0;
      } in
      let header = record blank { header_crc32 = header_crc blank } in
      let last =
        program_verified sdk code pages.0 region 0 (some (page_of (header_image header)))
          page_size in
      let first : sdk.cell (e.0) j ≡ sdk.cell chip j =
        erase_keeps sdk doc code chip region 0 (region.size) j ends (inl out) in
      let second : sdk.cell (pages.0) j ≡ sdk.cell chip j =
        save_pages-keeps code (store.used) (e.0) region (store.buffer) (store.used) 0 j ends out
        ∙ first in
      let third : sdk.cell (last.0) j ≡ sdk.cell chip j =
        header_kept code (pages.0) region (header_image header) j ends out ∙ second in
      elim (Bool-cases (failed (e.1))) [
        | inl bad ↦ rw bad (record { cells = first; outcome = inr refl })
        | inr fine ↦ elim (Bool-cases (not (pages.1))) [
          | inl bad ↦ rw fine (rw bad (record { cells = second; outcome = inr refl }))
          | inr stored ↦ elim (Bool-cases (failed (last.1))) [
            | inl bad ↦ rw fine (rw stored (rw bad (record { cells = third; outcome = inr refl })))
            | inr good ↦
                rw fine (rw stored (rw good (record { cells = third; outcome = inl refl })))
          ]
        ]
      ]

  idle :
      (chip : Chip) (config : Config) (j : ℕ) (e : PersistentResult)
      → Kept chip config j (chip, (config, e))
  idle chip config j e = record { cells = refl; outcome = inr refl }

  save_store-Kept :
      (code : Option ℕ) (chip : Chip) (config : Config) (store : Store) (j : ℕ)
      → IsApart config
      → config.loaded ≡ true
      → ¬ Within (slot config (1 - config.current)) j
      → Kept chip config j (save_store sdk code chip config store)
  unfolding save_store
  save_store-Kept code chip config store j is loaded out =
      let target = 1 - config.current in
      let same : (if config.loaded then target else 0) ≡ target =
        ap (λ b. if b then target else 0) loaded in
      elim (Bool-cases (config.slot0.size == 0)) [
        | inl bad ↦ rw bad (idle chip config j PersistentResult.no_space)
        | inr room ↦ elim (Bool-cases (ltb slot_capacity store.used)) [
          | inl large ↦ rw room (rw large (idle chip config j PersistentResult.too_large))
          | inr fits ↦ rw room (
              rw fits (
                subst (λ t. Kept chip config j (save_to sdk code chip config store t)) (sym same)
                  (save_to-keeps code chip config store target j (slot_ends config target is) out)))
        ]
      ]

  stored-Kept :
      (code : Option ℕ) (chip : Chip) (config : Config) (j : ℕ) (found : Option Store)
      → ((store : Store) → Kept chip config j (save_store sdk code chip config store))
      → Kept chip config j (elim found [
        | none ↦ (chip, (config, PersistentResult.invalid_arg))
        | some store ↦ save_store sdk code chip config store
      ])
  stored-Kept code chip config j none each = idle chip config j PersistentResult.invalid_arg
  stored-Kept code chip config j (some store) each = each store

  save-Kept :
      (code : Option ℕ) (chip : Chip) (config : Config) (j : ℕ)
      → IsApart config
      → config.loaded ≡ true
      → ¬ Within (slot config (1 - config.current)) j
      → Kept chip config j (save sdk code chip config)
  unfolding save
  save-Kept code chip config j is loaded out =
      stored-Kept code chip config j (config.store)
        (λ store. save_store-Kept code chip config store j is loaded out)

  -- Whatever a save of a loaded configuration returns, any span of the slot it was loaded from is
  -- read as before, and the slot is found to hold the same header and records, or found unusable,
  -- as before; unless the save succeeds the configuration is as it was, so a later save aims at the
  -- other slot again. The slots do not overlap and end below 2 ^ 32, the current one is the first or
  -- the second, and the flash does what its documentation says.
  pub save_keeps_current :
      (code : Option ℕ) (chip : Chip) (config : Config) (offset size : ℕ)
      → IsApart config
      → config.loaded ≡ true
      → config.current ≤ 1
      → let r = save sdk code chip config in
        let region = slot config config.current in
        (storage_data sdk r.0 region offset size ≡ storage_data sdk chip region offset size)
        × ((slot_read sdk r.0 region ≡ slot_read sdk chip region)
            × ((r.1.1 ≡ PersistentResult.ok) ⊎ (r.1.0 ≡ config)))
  save_keeps_current code chip config offset size is loaded low =
      let region = slot config (config.current) in
      let ends : end_of region < 2 ^ 32 = slot_ends config (config.current) is in
      let same : (j : ℕ)
          → Within region j
          → sdk.cell (save sdk code chip config).0 j ≡ sdk.cell chip j =
        λ j w.
          (save-Kept code chip config j is loaded
            (other_slot config (config.current) j is low w)).cells in
      let above : ¬ Within (slot config (1 - config.current)) (2 ^ 32) =
        λ w. omega (arith, w, slot_ends config (1 - config.current) is) in
      (
        storage_data_same sdk chip (save sdk code chip config).0 region offset size ends same,
        (
          slot_read_same sdk chip (save sdk code chip config).0 region ends same,
          (save-Kept code chip config (2 ^ 32) is loaded above).outcome,
        ),
      )
