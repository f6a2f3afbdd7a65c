-- ===== src/FirmwareService/Safety.antt =====
-- firmware_service.c: an image is installed only as it was verified.
use pico_framework.Base.{
  ℕ, ◌^◌, ◌≤◌, ◌<◌, ◌≡◌, ◌≢◌, refl, sym, ap, ◌∙◌, ◌⊎◌, inl, inr, Bool, true, false, Option, none,
  some, List, [], ◌∷◌, ltb, ◌==◌, if◌then◌else◌, ◌||◌, not, arith, Bool-cases, Option-cases, subst,
  get_or, blit, replicate, length, length-blit, length-replicate,
}
use pico_framework.FlashLayout.{Layout, round_up_to_sector}
use pico_framework.FlashLayout.Division.{end_of}
use pico_framework.FlashLayout.Bounds.{Within}
use pico_framework.FlashStorage.{failed, erase, storage_data, storage_crc32}
use pico_framework.FlashStorage.Hardware.{Sdk, IsDocumented}
use pico_framework.FlashStorage.Guard.{erase_keeps, confined}
use pico_framework.FlashStorage.Done.{storage_crc32_same}
use pico_framework.FirmwareImage.{Header, ImageResult, header_init, verify_payload}
use pico_framework.FirmwareImage.Validate.{verify_payload_crc}
use pico_framework.FirmwareReceive.{ReceiveResult, Config, begin, receive_line}
use pico_framework.FirmwareReceive.Errors.{begin_open, receive_line_open}
use pico_framework.FirmwareService.{
  Service, chip_of, with_chip, manifest_write, manifest_invalidate, manifest_matches_staging,
  check_staged, header_of, write_page, init, after_line, line_filter, start, cmd_begin, cmd_verify,
  image_base_address, header_image,
}

-- What staging needs of a layout: it ends before the manifest, inside the address space.
pub record IsDivided (layout : Layout) : Type 0 where
  pub apart : end_of layout.staging ≤ layout.manifest.offset
  pub ends : end_of layout.manifest < 2 ^ 32

-- The commands and lines that change the service, as they arrive.
pub data Command : Type 0 where
  line : List ℕ → Command
  begin_transfer verify : Option ℕ → Command

-- The checksum that the sender has given for what is staged, after each command: a new transfer
-- takes it back.
abbrev pub offered : Option ℕ → Command → Option ℕ
offered crc (Command.line bytes) = crc
offered crc (Command.begin_transfer argument) = none
offered crc (Command.verify none) = crc
offered crc (Command.verify (some expected)) = some expected

-- The last one that it gave since the last start of a transfer; `crc` stood at the beginning.
abbrev pub given : Option ℕ → List Command → Option ℕ
given crc [] = crc
given crc (command ∷ commands) = given (offered crc command) commands

-- What holds of the service after both branches of a test holds of the test.
if_case :
    {Chip R : Type 0} (P : Service Chip → Type 0) (b : Bool) (x y : Service Chip × R)
    → (b ≡ true → P x.0)
    → (b ≡ false → P y.0)
    → P (if b then x else y).0
if_case P true x y f g = f refl
if_case P false x y f g = g refl

not-false : (b : Bool) → not b ≡ false → b ≡ true
not-false true h = refl
not-false false h = sym h

module _ {Chip : Type 0} (sdk : Sdk Chip) where
  -- What makes installing safe: no transfer is running, and the checksum of what is staged is the
  -- one that was verified, which is the one that the sender gave.
  abbrev pub Checked : Service Chip → Type 0
  Checked s =
      (s.receiving ≡ false)
      × (s.receive.is_complete ≡ true)
      × (storage_crc32 sdk (chip_of s) s.layout.staging 0 s.receive.image_size ≡ s.verified_crc32)

  pub record IsSafe (layout : Layout) (crc : Option ℕ) (s : Service Chip) : Type 0 where
    pub divided : s.layout ≡ layout
    pub stopped : s.receive.is_complete ≡ true → s.receiving ≡ false
    pub checked : s.verified ≡ true → Checked s
    pub confirmed : s.verified ≡ true → crc ≡ some s.verified_crc32

  abbrev pub step : Option ℕ → Service Chip → Command → Service Chip
  step code s (Command.line bytes) = (line_filter sdk code s bytes).0
  step code s (Command.begin_transfer argument) = (cmd_begin sdk code s argument).0
  step code s (Command.verify argument) = (cmd_verify sdk code s argument).0

  unfoldable pub run : Option ℕ → Service Chip → List Command → Service Chip
  run code s [] = s
  run code s (command ∷ commands) = run code (step code s command) commands

  -- The checksum in the manifest that startup takes, if there is one.
  abbrev pub staged_crc : Option ℕ → Chip → Layout → Option ℕ
  staged_crc code chip layout = elim (manifest_matches_staging sdk code layout chip) [
    | none ↦ none
    | some header ↦ some header.payload_crc32
  ]

  after_line-kept :
      (s : Service Chip) (result : ReceiveResult)
      → ((after_line s result).layout ≡ s.layout)
        × ((after_line s result).verified ≡ s.verified)
        × ((after_line s result).receive ≡ s.receive)
        × (((after_line s result).receiving ≡ false) ⊎ (result ≡ ReceiveResult.ok))
  after_line-kept s result = ground arith

  received-IsSafe :
      (code : Option ℕ) (layout : Layout) (crc : Option ℕ) (s : Service Chip) (bytes : List ℕ)
      → IsSafe layout crc s
      → s.receiving ≡ true
      → let r = receive_line (write_page sdk code s.layout) s.receive (some bytes) in
        IsSafe layout crc (after_line (record s { receive = r.0 }) r.1)
  received-IsSafe code layout crc s bytes safe busy =
      let r = receive_line (write_page sdk code s.layout) s.receive (some bytes) in
      let k = after_line-kept (record s { receive = r.0 }) (r.1) in
      let unfinished : s.receive.is_complete ≢ true = λ e. cc (sym busy ∙ safe.stopped e) in
      let open_line : (r.1 ≡ ReceiveResult.ok) → s.receive.is_complete ≡ r.0.is_complete = λ going.
        sym (
          receive_line_open (write_page sdk code s.layout) (s.receive) bytes
            (λ q. cc (sym going ∙ q))) in
      record {
        divided = k.0 ∙ safe.divided;
        stopped = λ e. elim k.3 [
          | inl over ↦ over
          | inr going ↦
              absurd (unfinished (open_line going ∙ ap (λ x. x.is_complete) (sym k.2) ∙ e))
        ];
        checked = λ e. absurd (unfinished (safe.checked (sym k.1 ∙ e)).1);
        confirmed = λ e. absurd (unfinished (safe.checked (sym k.1 ∙ e)).1);
      }

  line-IsSafe :
      (code : Option ℕ) (layout : Layout) (crc : Option ℕ) (s : Service Chip) (bytes : List ℕ)
      → IsSafe layout crc s
      → IsSafe layout crc (line_filter sdk code s bytes).0
  unfolding line_filter
  line-IsSafe code layout crc s bytes safe =
      if_case (IsSafe layout crc) (not s.initialised || not (get_or bytes 0 0 == 58)) _ _
        (λ e. safe)
        (λ e.
          if_case (IsSafe layout crc) (not s.receiving) _ _ (λ e. safe)
            (λ busy. received-IsSafe code layout crc s bytes safe (not-false (s.receiving) busy)))

  start-IsSafe :
      (code : Option ℕ) (layout : Layout) (crc : Option ℕ) (s : Service Chip) (size : ℕ)
      → s.verified ≡ false
      → IsSafe layout crc s
      → IsSafe layout crc (start sdk code s size).0
  unfolding start
  start-IsSafe code layout crc s size unverified safe =
      let e = erase sdk code (chip_of s) s.layout.staging 0 size in
      let failing : IsSafe layout crc (with_chip s e.0) = record {
        divided = safe.divided;
        stopped = safe.stopped;
        checked = λ v. cc (sym v ∙ unverified);
        confirmed = λ v. cc (sym v ∙ unverified);
      } in
      let config : Config Chip = record {
        base_address = image_base_address;
        capacity = s.layout.staging.size;
        write_ctx = e.0;
      } in
      if_case (IsSafe layout crc) (failed (e.1)) _ _ (λ bad. failing)
        (λ fine. elim (Option-cases (begin (some config)).0) [
          | inl nothing ↦ rw nothing failing
          | inr rx ↦ rw (rx.1) (record {
            divided = safe.divided;
            stopped = λ d. cc (sym d ∙ begin_open config (rx.0) (rx.1));
            checked = λ v. cc (sym v ∙ unverified);
            confirmed = λ v. cc (sym v ∙ unverified);
          })
        ])

  -- What fwbegin leaves once the manifest is cleared, whatever the chip holds.
  abbrev cleared : Service Chip → Chip → Service Chip
  cleared s chip =
      with_chip
        (record s { verified = false; staged_from_manifest = false; records_since_progress = 0 })
        chip

  cleared-IsSafe :
      (layout : Layout) (crc : Option ℕ) (s : Service Chip) (chip : Chip)
      → IsSafe layout crc s
      → IsSafe layout none (cleared s chip)
  cleared-IsSafe layout crc s chip safe = record {
    divided = safe.divided;
    stopped = safe.stopped;
    checked = λ v. cc v;
    confirmed = λ v. cc v;
  }

  begin-IsSafe :
      (code : Option ℕ) (layout : Layout) (crc : Option ℕ) (s : Service Chip) (argument : Option ℕ)
      → IsSafe layout crc s
      → IsSafe layout none (cmd_begin sdk code s argument).0
  unfolding cmd_begin
  begin-IsSafe code layout crc s none safe =
      let m = manifest_invalidate sdk code s.layout (chip_of s) in
      let kept = cleared-IsSafe layout crc s (m.0) safe in
      elim (Bool-cases (not (m.1))) [
        | inl bad ↦ rw bad kept
        | inr fine ↦
            rw fine
              (start-IsSafe code layout none (cleared s m.0) (s.layout.staging.size) refl kept)
      ]
  begin-IsSafe code layout crc s (some requested) safe =
      let m = manifest_invalidate sdk code s.layout (chip_of s) in
      let kept = cleared-IsSafe layout crc s (m.0) safe in
      elim (Bool-cases (not (m.1))) [
        | inl bad ↦ rw bad kept
        | inr fine ↦ elim (Bool-cases (requested == 0 || ltb s.layout.staging.size requested)) [
          | inl refused ↦ rw fine (rw refused kept)
          | inr taken ↦ rw fine (
              rw taken (
                start-IsSafe code layout none (cleared s m.0) (round_up_to_sector requested) refl
                  kept))
        ]
      ]

module _ {Chip : Type 0} (sdk : Sdk Chip) (doc : IsDocumented sdk) where
  manifest_write_keeps :
      (code : Option ℕ) (layout : Layout) (chip : Chip) (size crc j : ℕ)
      → IsDivided layout
      → Within layout.staging j
      → sdk.cell (manifest_write sdk code layout chip size crc).0 j ≡ sdk.cell chip j
  unfolding manifest_write
  manifest_write_keeps code layout chip size crc j divided inside =
      let e = erase sdk code chip layout.manifest 0 layout.manifest.size in
      let h = (header_init size crc image_base_address crc).0 in
      let out : ¬ Within layout.manifest j = λ w. omega (arith, w, inside, divided.apart) in
      let page : Header → List ℕ = λ header. blit (replicate 256 0xFF) 0 (header_image header) in
      let long : (header : Header) → 256 ≤ length (page header) = λ header. omega (
        arith,
        length-blit (replicate 256 0xFF) 0 (header_image header),
        length-replicate {A = ℕ} 256 255,
      ) in
      let erased : sdk.cell (e.0) j ≡ sdk.cell chip j =
        erase_keeps sdk doc code chip (layout.manifest) 0 (layout.manifest.size) j (divided.ends)
          (inl out) in
      elim (Bool-cases (failed (e.1))) [
        | inl bad ↦ rw bad erased
        | inr fine ↦ elim (Option-cases h) [
          | inl nothing ↦ rw fine (rw nothing erased)
          | inr header ↦ rw fine (
              rw (header.1) (
                (confined sdk doc code (e.0) (layout.manifest) 0 (page (header.0)) 256 j
                  (divided.ends) (long (header.0)) (inl out)).1
                ∙ erased))
        ]
      ]

  verify-IsSafe :
      (code : Option ℕ) (layout : Layout) (crc : Option ℕ) (s : Service Chip) (argument : Option ℕ)
      → IsDivided layout
      → IsSafe sdk layout crc s
      → IsSafe sdk layout (offered crc (Command.verify argument)) (cmd_verify sdk code s argument).0
  unfolding cmd_verify
  verify-IsSafe code layout crc s none divided safe = safe
  verify-IsSafe code layout crc s (some expected) divided safe =
      let size = s.receive.image_size in
      let actual = storage_crc32 sdk (chip_of s) s.layout.staging 0 size in
      let m = manifest_write sdk code s.layout (chip_of s) size actual in
      let here : IsDivided (s.layout) = subst IsDivided (sym safe.divided) divided in
      if_case (IsSafe sdk layout (some expected)) (not s.receive.is_complete) _ _
        (λ e. record {
          divided = safe.divided;
          stopped = safe.stopped;
          checked = safe.checked;
          confirmed = λ v. cc (sym e ∙ ap not (safe.checked v).1);
        })
        (λ e.
          let complete = not-false (s.receive.is_complete) e in
          if_case (IsSafe sdk layout (some expected)) (not (actual == expected)) _ _
            (λ other. record {
              divided = safe.divided;
              stopped = safe.stopped;
              checked = λ v. cc v;
              confirmed = λ v. cc v;
            })
            (λ same. record {
              divided = safe.divided;
              stopped = safe.stopped;
              checked = λ v. (
                safe.stopped complete,
                complete,
                storage_crc32_same sdk (chip_of s) (m.0) (s.layout.staging) size
                    (omega (arith, here.apart, here.ends))
                    (λ j w. manifest_write_keeps code (s.layout) (chip_of s) size actual j here w),
              );
              confirmed = λ v. ap some (sym (ground (arith, same)));
            }))

  check_staged_crc :
      (code : Option ℕ) (layout : Layout) (chip : Chip) (header staged : Header)
      → check_staged sdk code layout chip header ≡ some staged
      → storage_crc32 sdk chip layout.staging 0 staged.payload_size ≡ staged.payload_crc32
  unfolding check_staged
  check_staged_crc code layout chip header staged found =
      let crc = storage_crc32 sdk chip layout.staging 0 header.payload_size in
      let same : header ≡ staged = ground (arith, found) in
      let good : verify_payload header crc ≡ ImageResult.ok = ground (arith, found) in
      ap (λ h. storage_crc32 sdk chip layout.staging 0 h.payload_size) (sym same)
      ∙ sym (verify_payload_crc header crc good)
      ∙ ap (λ h. h.payload_crc32) same

  manifest_matches_crc :
      (code : Option ℕ) (layout : Layout) (chip : Chip) (staged : Header)
      → manifest_matches_staging sdk code layout chip ≡ some staged
      → storage_crc32 sdk chip layout.staging 0 staged.payload_size ≡ staged.payload_crc32
  unfolding manifest_matches_staging
  manifest_matches_crc code layout chip staged found =
      elim (Option-cases (storage_data sdk chip layout.manifest 0 28)) [
        | inl nothing ↦ absurd (ground (arith, found, nothing))
        | inr stored ↦ check_staged_crc code layout chip (header_of (stored.0)) staged (
            sym (
              ap
                (λ d. elim d [
                  | none ↦ none
                  | some bytes ↦ check_staged sdk code layout chip (header_of bytes)
                ])
                (stored.1))
            ∙ found)
      ]

  pub init-IsSafe :
      (code : Option ℕ) (chip : Chip) (layout : Layout)
      → IsSafe sdk layout (staged_crc sdk code chip layout) (init sdk code chip layout).0
  unfolding init
  init-IsSafe code chip layout =
      if_case (IsSafe sdk layout (staged_crc sdk code chip layout)) (layout.staging.size == 0) _ _
        (λ e. record {
          divided = refl;
          stopped = λ c. refl;
          checked = λ v. cc v;
          confirmed = λ v. cc v;
        })
        (λ e. elim (Option-cases (manifest_matches_staging sdk code layout chip)) [
          | inl nothing ↦ rw nothing (record {
            divided = refl;
            stopped = λ c. refl;
            checked = λ v. cc v;
            confirmed = λ v. cc v;
          })
          | inr staged ↦ rw (staged.1) (record {
            divided = refl;
            stopped = λ c. refl;
            checked =
                λ v. (refl, refl, manifest_matches_crc code layout chip (staged.0) (staged.1));
            confirmed = λ v.
                ap (λ o. elim o [ none ↦ none | some header ↦ some header.payload_crc32 ])
                  (staged.1);
          })
        ])

  pub run-IsSafe :
      (code : Option ℕ) (layout : Layout) (commands : List Command) (crc : Option ℕ)
      (s : Service Chip)
      → IsDivided layout
      → IsSafe sdk layout crc s
      → IsSafe sdk layout (given crc commands) (run sdk code s commands)
  unfolding run
  run-IsSafe code layout [] crc s divided safe = safe
  run-IsSafe code layout (Command.line bytes ∷ commands) crc s divided safe =
      run-IsSafe code layout commands crc (step sdk code s (Command.line bytes)) divided
        (line-IsSafe sdk code layout crc s bytes safe)
  run-IsSafe code layout (Command.begin_transfer argument ∷ commands) crc s divided safe =
      run-IsSafe code layout commands none (step sdk code s (Command.begin_transfer argument))
        divided (begin-IsSafe sdk code layout crc s argument safe)
  run-IsSafe code layout (Command.verify argument ∷ commands) crc s divided safe =
      run-IsSafe code layout commands (offered crc (Command.verify argument))
        (step sdk code s (Command.verify argument)) divided
        (verify-IsSafe code layout crc s argument divided safe)
