-- ===== src/FlashStorage/Done.antt =====
-- flash_storage.c: what the success of an operation means.
use pico_framework.Base.{
  ℕ, zero, suc, ◌+◌, ◌-◌, ◌^◌, ◌≤◌, ◌<◌, ◌≡◌, refl, sym, ap, ap₂, ◌∙◌, inl, inr, true, false,
  Option, none, some, List, [], ◌∷◌, ltb, leb, if◌then◌else◌, ◌&&◌, not, add32, take, tabulate,
  tabulate_ext, arith, Bool-cases, length, length-take, Option-cases,
}
use pico_framework.FlashLayout.{Region, region_contains, region_absolute}
use pico_framework.FlashLayout.Bounds.{
  check_erase_iff, check_program_iff, Within, region_contains_iff,
}
use pico_framework.FlashLayout.Division.{end_of}
use pico_framework.FlashStorage.{
  StorageResult, failed, execute, erase, program, program_verified, storage_data, same_cells,
  all_erased, is_erased, bytes_of, storage_crc32,
}
use pico_framework.Crc.{crc32}
use pico_framework.FlashStorage.Hardware.{Sdk, IsDocumented, erased, cleared}
use pico_framework.FlashStorage.Guard.{erase_cases, program_cases, erased_miss, cleared_miss}

all_erased-tabulate :
    (n : ℕ) (f : ℕ → ℕ) → ((i : ℕ) → i < n → f i ≡ 255) → all_erased (tabulate n f) ≡ true
unfolding all_erased
all_erased-tabulate zero f h = refl
all_erased-tabulate (suc n) f h =
    rw (h 0 (omega arith)) (all_erased-tabulate n (λ i. f (suc i)) (λ i p. h (suc i) (omega arith)))

same_cells_eq : (xs ys : List ℕ) → same_cells xs ys ≡ true → xs ≡ ys
unfolding same_cells
same_cells_eq [] [] h = refl
same_cells_eq [] (y ∷ ys) h = absurd (ground arith)
same_cells_eq (x ∷ xs) [] h = absurd (ground arith)
same_cells_eq (x ∷ xs) (y ∷ ys) h =
    ap₂ (λ (a : ℕ) l. a ∷ l) (ground (arith, h)) (same_cells_eq xs ys (ground (arith, h)))

-- A region's cells, counted from its start.
erased_shift :
    (base offset size j old : ℕ)
    → erased (base + offset) size (base + j) old ≡ erased offset size j old
erased_shift base offset size j old =
    let low : leb (base + offset) (base + j) ≡ leb offset j = ground arith in
    let high : ltb (base + j) (base + offset + size) ≡ ltb j (offset + size) = ground arith in
    rw (low, high)

cleared_shift :
    (base offset : ℕ) (bytes : List ℕ) (j old : ℕ)
    → cleared (base + offset) bytes (base + j) old ≡ cleared offset bytes j old
cleared_shift base offset bytes j old =
    let low : leb (base + offset) (base + j) ≡ leb offset j = ground arith in
    let high : ltb (base + j) (base + offset + length bytes) ≡ ltb j (offset + length bytes) =
      ground arith in
    let index : base + j - (base + offset) ≡ j - offset = omega arith in rw (low, high, index)

module _ {Chip : Type 0} (sdk : Sdk Chip) where
  execute_ok :
      (chip : Chip) (operation : Chip → Chip)
      → (execute sdk chip operation).1 ≡ StorageResult.ok
      → (sdk.safe_execute chip operation).1 ≡ true
  execute_ok chip operation good = ground (arith, good)

  -- A verified program that succeeds has read back what it wrote.
  pub program_verified_ok :
      (code : Option ℕ) (chip : Chip) (r : Region) (offset : ℕ) (bytes : Option (List ℕ)) (size : ℕ)
      → (program_verified sdk code chip r offset bytes size).1 ≡ StorageResult.ok
      → ((program sdk code chip r offset bytes size).1 ≡ StorageResult.ok)
        × (storage_data sdk (program_verified sdk code chip r offset bytes size).0 r offset size
            ≡ some (take size (bytes_of bytes)))
  unfolding program_verified
  program_verified_ok code chip r offset bytes size good =
      let p = program sdk code chip r offset bytes size in
      elim (Bool-cases (failed p.1)) [
        | inl bad ↦ absurd (ground (arith, good, bad))
        | inr fine ↦ elim (Option-cases (storage_data sdk p.0 r offset size)) [
          | inl nothing ↦ absurd (ground (arith, good, fine, nothing))
          | inr stored ↦
              let same : same_cells (stored.0) (take size (bytes_of bytes)) ≡ true =
                ground (arith, good, fine, stored.1) in
              (
                ground (arith, fine),
                rw fine (
                    rw (stored.1) (
                      stored.1
                      ∙ ap some (same_cells_eq (stored.0) (take size (bytes_of bytes)) same))),
              )
        ]
      ]

module _ {Chip : Type 0} (sdk : Sdk Chip) (doc : IsDocumented sdk) where
  pub erase_cell :
      (code : Option ℕ) (chip : Chip) (r : Region) (offset size j : ℕ)
      → end_of r < 2 ^ 32
      → (erase sdk code chip r offset size).1 ≡ StorageResult.ok
      → sdk.cell (erase sdk code chip r offset size).0 (r.offset + j)
        ≡ erased offset size j (sdk.cell chip (r.offset + j))
  unfolding region_absolute
  erase_cell code chip r offset size j ends good = elim (erase_cases sdk code chip r offset size) [
    | inl idle ↦
        ap (λ c. sdk.cell c (r.offset + j)) idle.0
        ∙ sym (
            erased_miss offset size j (sdk.cell chip (r.offset + j))
              (λ w. omega (arith, w, idle.1 good)))
    | inr ran ↦
        let c = (check_erase_iff r offset size (omega arith)).0 ran.1 in
        let operation : Chip → Chip = λ c. sdk.range_erase c (region_absolute r offset) size in
        let at : region_absolute r offset ≡ r.offset + offset = omega (arith, c.1) in
        ap (λ t. sdk.cell t.0 (r.offset + j)) ran.2
        ∙ doc.called chip operation (r.offset + j)
            (execute_ok sdk chip operation (sym (ap (λ t. t.1) ran.2) ∙ good))
        ∙ doc.erases chip (region_absolute r offset) size (r.offset + j)
            (omega (arith, c.1, c.2, c.3)) c.4
        ∙ ap (λ a. erased a size (r.offset + j) (sdk.cell chip (r.offset + j))) at
        ∙ erased_shift (r.offset) offset size j (sdk.cell chip (r.offset + j))
  ]

  pub program_cell :
      (code : Option ℕ) (chip : Chip) (r : Region) (offset : ℕ) (bytes : List ℕ) (size j : ℕ)
      → end_of r < 2 ^ 32
      → size ≤ length bytes
      → (program sdk code chip r offset (some bytes) size).1 ≡ StorageResult.ok
      → sdk.cell (program sdk code chip r offset (some bytes) size).0 (r.offset + j)
        ≡ cleared offset (take size bytes) j (sdk.cell chip (r.offset + j))
  unfolding region_absolute
  program_cell code chip r offset bytes size j ends long good =
      let n : length (take size bytes) ≡ size = omega (arith, length-take size bytes) in
      elim (program_cases sdk code chip r offset (some bytes) size) [
        | inl idle ↦
            ap (λ c. sdk.cell c (r.offset + j)) idle.0
            ∙ sym (
                cleared_miss offset (take size bytes) j (sdk.cell chip (r.offset + j))
                  (λ w. omega (arith, n, w, idle.1 good)))
        | inr ran ↦
            let c = (check_program_iff r offset size (omega arith)).0 ran.1 in
            let operation : Chip → Chip =
              λ c. sdk.range_program c (region_absolute r offset) (take size bytes) in
            let at : region_absolute r offset ≡ r.offset + offset = omega (arith, c.1) in
            ap (λ t. sdk.cell t.0 (r.offset + j)) ran.2
            ∙ doc.called chip operation (r.offset + j)
                (execute_ok sdk chip operation (sym (ap (λ t. t.1) ran.2) ∙ good))
            ∙ doc.programs chip (region_absolute r offset) (take size bytes) (r.offset + j)
                (omega (arith, c.1, c.2, c.3)) (omega (arith, c.4, n))
            ∙ ap (λ a. cleared a (take size bytes) (r.offset + j) (sdk.cell chip (r.offset + j))) at
            ∙ cleared_shift (r.offset) offset (take size bytes) j (sdk.cell chip (r.offset + j))
      ]

module _ {Chip : Type 0} (sdk : Sdk Chip) where
  pub storage_data_same :
      (chip chip' : Chip) (r : Region) (offset size : ℕ)
      → end_of r < 2 ^ 32
      → ((j : ℕ) → Within r j → sdk.cell chip' j ≡ sdk.cell chip j)
      → storage_data sdk chip' r offset size ≡ storage_data sdk chip r offset size
  unfolding storage_data region_absolute
  storage_data_same chip chip' r offset size ends same =
      elim (Bool-cases (region_contains r offset size)) [
        | inr out ↦ rw out refl
        | inl inside ↦
            let c = (region_contains_iff r offset size (omega (arith, ends))).0 inside in
            rw inside (
              ap some (
                tabulate_ext size (λ i. sdk.cell chip' (add32 r.offset offset + i))
                  (λ i. sdk.cell chip (add32 r.offset offset + i))
                  (λ i p. same (add32 r.offset offset + i) (omega (arith, c.1, p, ends)))))
      ]

  -- A checksum depends on the cells of the region alone.
  pub storage_crc32_same :
      (chip chip' : Chip) (r : Region) (size : ℕ)
      → end_of r < 2 ^ 32
      → ((j : ℕ) → Within r j → sdk.cell chip' j ≡ sdk.cell chip j)
      → storage_crc32 sdk chip' r 0 size ≡ storage_crc32 sdk chip r 0 size
  unfolding storage_crc32
  storage_crc32_same chip chip' r size ends same =
      ap (λ d. elim d [ none ↦ 0 | some bytes ↦ crc32 (some bytes) ])
        (storage_data_same chip chip' r 0 size ends same)

module _ {Chip : Type 0} (sdk : Sdk Chip) where
  -- A span inside the region is read from its cells.
  is_erased_in :
      (chip : Chip) (r : Region) (offset size : ℕ)
      → region_contains r offset size ≡ true
      → ((i : ℕ) → i < size → sdk.cell chip (region_absolute r offset + i) ≡ 255)
      → is_erased sdk chip r offset size ≡ true
  unfolding is_erased storage_data
  is_erased_in chip r offset size inside cells =
      ap
        (λ b.
          elim (if not b
            then none
            else some (tabulate size (λ i. sdk.cell chip (region_absolute r offset + i)))) [
              | none ↦ false
              | some bytes ↦ all_erased bytes
            ])
        inside
      ∙ all_erased-tabulate size (λ i. sdk.cell chip (region_absolute r offset + i)) cells

module _ {Chip : Type 0} (sdk : Sdk Chip) (doc : IsDocumented sdk) where
  -- An erase that succeeds leaves every byte of its span erased, as flash_storage_is_erased finds,
  -- where the span is not empty and the region ends below 2 ^ 32.
  pub erase-is_erased :
      (code : Option ℕ) (chip : Chip) (r : Region) (offset size : ℕ)
      → end_of r < 2 ^ 32
      → 0 < size
      → (erase sdk code chip r offset size).1 ≡ StorageResult.ok
      → is_erased sdk (erase sdk code chip r offset size).0 r offset size ≡ true
  unfolding region_absolute
  erase-is_erased code chip r offset size ends some_bytes good =
      elim (erase_cases sdk code chip r offset size) [
        | inl idle ↦ absurd (omega (arith, idle.1 good, some_bytes))
        | inr ran ↦
            let c = (check_erase_iff r offset size (omega (arith, ends))).0 ran.1 in
            let after = (erase sdk code chip r offset size).0 in
            let inside : region_contains r offset size ≡ true =
              (region_contains_iff r offset size (omega (arith, ends))).1 (c.0, c.1) in
            is_erased_in sdk after r offset size inside (λ i p.
              let at : add32 r.offset offset + i ≡ r.offset + (offset + i) =
                omega (arith, c.1, ends) in
              let hit : (leb offset (offset + i) && ltb (offset + i) (offset + size)) ≡ true =
                ground (arith, p) in
              ap (sdk.cell after) at
              ∙ erase_cell sdk doc code chip r offset size (offset + i) ends good
              ∙ ap (λ b. if b then 255 else sdk.cell chip (r.offset + (offset + i))) hit)
      ]
