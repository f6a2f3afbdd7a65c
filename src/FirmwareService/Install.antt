-- ===== src/FirmwareService/Install.antt =====
-- firmware_service.c and firmware_apply.c: what an install leaves on the chip.
use pico_framework.Base.{
  ℕ, ◌+◌, ◌-◌, ◌*◌, ◌/◌, ◌%◌, ◌^◌, ◌≤◌, ◌<◌, ◌≡◌, sym, ap, ◌∙◌, inr, true, false, Option, some,
  List, arith, subst,
}
use pico_framework.FlashLayout.{compute, LayoutResult, Layout}
use pico_framework.FlashLayout.Division.{end_of, compute-Divides}
use pico_framework.FlashStorage.{storage_crc32}
use pico_framework.FlashStorage.Hardware.{Sdk, IsDocumented}
use pico_framework.FirmwareApply.{apply}
use pico_framework.FirmwareApply.Copy.{copied, apply_lem}
use pico_framework.FirmwareService.{Service, chip_of, init, cmd_apply}
use pico_framework.FirmwareService.Safety.{
  IsDivided, Command, run, given, staged_crc, init-IsSafe, run-IsSafe,
}

-- What installing needs of a layout.
pub record IsInstallable (layout : Layout) : Type 0 where
  pub divided : IsDivided layout
  pub start : layout.application.offset % 4096 ≡ 0
  pub sectors : layout.application.size % 4096 ≡ 0
  pub below : end_of layout.application < 2 ^ 32
  pub behind : end_of layout.application ≤ layout.staging.offset

compute-IsInstallable :
    (flash_size data_sectors : ℕ) (layout : Layout)
    → flash_size < 2 ^ 32
    → data_sectors < 2 ^ 32 - 2
    → compute flash_size data_sectors ≡ (some layout, LayoutResult.ok)
    → IsInstallable layout
compute-IsInstallable flash_size data_sectors layout hf hd e =
    let d = compute-Divides flash_size data_sectors (omega (arith, hf)) hd e in
    record {
      divided = record {
        apart = omega (arith, d.third);
        ends = omega (arith, d.whole, d.fourth, hf);
      };
      start = omega (arith, d.first);
      sectors = omega (arith, d.application_aligned);
      below = omega (arith, d.whole, d.fourth, d.third, d.second, d.first, hf);
      behind = omega (arith, d.second);
    }

module _ {Chip : Type 0} (sdk : Sdk Chip) (doc : IsDocumented sdk) where
  apply_ok :
      (code : Option ℕ) (s : Service Chip) (after : Chip)
      → cmd_apply sdk code s ≡ inr after
      → (s.verified ≡ true)
        × (0 < s.receive.image_size)
        × (s.receive.image_size ≤ s.layout.application.size)
        × (after ≡ apply sdk (chip_of s) s.layout.staging s.layout.application s.receive.image_size)
  unfolding cmd_apply
  apply_ok code s after installs = ground (arith, installs)

  -- Whatever lines and commands arrive, and whatever each returns: fwapply installs only an image
  -- that fits, while no transfer is running and the checksum read from staging is the one that the
  -- sender gave last since the last fwbegin, or, where it gave none and there was no fwbegin, the
  -- one in the manifest that startup accepted; it then leaves the staged bytes in the application
  -- region, and changes no byte but those of the sectors that hold them. The layout is one that was
  -- computed for a chip of less than 2 ^ 32 bytes and less than 2 ^ 32 - 2 data sectors, and
  -- the SDK's flash functions do what their documentation says.
  pub install_verified :
      (flash_size data_sectors : ℕ) (layout : Layout) (code : Option ℕ) (chip after : Chip)
      (commands : List Command) (j : ℕ)
      → flash_size < 2 ^ 32
      → data_sectors < 2 ^ 32 - 2
      → compute flash_size data_sectors ≡ (some layout, LayoutResult.ok)
      → cmd_apply sdk code (run sdk code (init sdk code chip layout).0 commands) ≡ inr after
      → let s = run sdk code (init sdk code chip layout).0 commands in
        (s.receiving ≡ false)
        × (storage_crc32 sdk (chip_of s) layout.staging 0 s.receive.image_size ≡ s.verified_crc32)
        × (given (staged_crc sdk code chip layout) commands ≡ some s.verified_crc32)
        × (0 < s.receive.image_size)
        × (s.receive.image_size ≤ layout.application.size)
        × (sdk.cell after j
            ≡ copied
                (sdk.cell (chip_of s))
                layout.staging.offset
                layout.application.offset
                0
                ((s.receive.image_size + 4095) / 4096 * 4096)
                j)
  install_verified flash_size data_sectors layout code chip after commands j hf hd made installs =
      let i = compute-IsInstallable flash_size data_sectors layout hf hd made in
      let s = run sdk code (init sdk code chip layout).0 commands in
      let safe =
        run-IsSafe sdk doc code layout commands (staged_crc sdk code chip layout)
          (init sdk code chip layout).0 i.divided (init-IsSafe sdk doc code chip layout) in
      let a = apply_ok code s after installs in
      let c = safe.checked a.0 in
      let same = safe.divided in
      let fits : s.receive.image_size ≤ layout.application.size =
        subst (λ (l : Layout). s.receive.image_size ≤ l.application.size) same a.2 in
      (
        c.0,
        ap (λ (l : Layout). storage_crc32 sdk (chip_of s) l.staging 0 s.receive.image_size)
              (sym same)
            ∙ c.2,
        safe.confirmed a.0,
        a.1,
        fits,
        ap (λ t. sdk.cell t j) a.3
            ∙ ap
                (λ (l : Layout).
                  sdk.cell (apply sdk (chip_of s) l.staging l.application s.receive.image_size) j)
                same
            ∙ apply_lem sdk doc (chip_of s) (layout.staging) (layout.application)
                (s.receive.image_size) j i.start i.sectors i.below fits
                (inr (omega (arith, i.behind, i.sectors, fits))),
      )
