-- ===== src/FirmwareService/Writer.antt =====
-- firmware_service.c: the writer that firmware_receive.c is given.
use pico_framework.Base.{
  ℕ, ◌+◌, ◌-◌, ◌^◌, ◌<◌, ◌≡◌, sym, ap, ◌∙◌, true, Option, some, List, [], ltb, leb, if◌then◌else◌,
  ◌&&◌, arith, length, take, bit_and, get_or, not, append-nil, take-length-append,
}
use pico_framework.FlashLayout.{Layout}
use pico_framework.FlashLayout.Division.{end_of}
use pico_framework.FlashStorage.{StorageResult, failed, program_verified, storage_data}
use pico_framework.FlashStorage.Hardware.{Sdk, IsDocumented, cleared}
use pico_framework.FlashStorage.Guard.{program_verified-chip}
use pico_framework.FlashStorage.Done.{program_verified_ok, program_cell}
use pico_framework.FirmwareReceive.Programmed.{programmed}
use pico_framework.FirmwareService.{write_page}

take_page : (page : List ℕ) → length page ≡ 256 → take 256 page ≡ page
take_page page full =
    ap (λ n. take n page) (sym full)
    ∙ ap (take (length page)) (sym (append-nil page))
    ∙ take-length-append page []

not-failed : (e : StorageResult) → not (failed e) ≡ true → e ≡ StorageResult.ok
not-failed e h = ground (arith, h)

module _ {Chip : Type 0} (sdk : Sdk Chip) (doc : IsDocumented sdk) where
  -- A page that the writer reports as stored was read back from staging as it was given, and the
  -- writer has cleared bits of the cells of that page alone, as firmware_receive.c relies on.
  pub write_page_stores :
      (code : Option ℕ) (layout : Layout) (chip : Chip) (offset j : ℕ) (page : List ℕ)
      → end_of layout.staging < 2 ^ 32
      → length page ≡ 256
      → (write_page sdk code layout chip offset page).1 ≡ true
      → let after = (write_page sdk code layout chip offset page).0 in
        (storage_data sdk after layout.staging offset 256 ≡ some page)
        × (sdk.cell after (layout.staging.offset + j)
            ≡ programmed offset page j (sdk.cell chip (layout.staging.offset + j)))
  unfolding write_page
  write_page_stores code layout chip offset j page ends full stored =
      let good =
        not-failed (program_verified sdk code chip layout.staging offset (some page) 256).1
          stored in
      let v = program_verified_ok sdk code chip (layout.staging) offset (some page) 256 good in
      let all = take_page page full in
      (
        v.1 ∙ ap some all,
        ap (λ c. sdk.cell c (layout.staging.offset + j))
              (program_verified-chip sdk code chip (layout.staging) offset (some page) 256)
            ∙ program_cell sdk doc code chip (layout.staging) offset page 256 j ends
                (omega (arith, full)) v.0
            ∙ ap (λ l. cleared offset l j (sdk.cell chip (layout.staging.offset + j))) all
            ∙ ap
                (λ (n : ℕ).
                  if leb offset j && ltb j (offset + n)
                  then bit_and (sdk.cell chip (layout.staging.offset + j))
                      (get_or page (j - offset) 255)
                  else sdk.cell chip (layout.staging.offset + j))
                full,
      )
