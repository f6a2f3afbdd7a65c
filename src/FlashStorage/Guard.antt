-- ===== src/FlashStorage/Guard.antt =====
-- flash_storage.c: what an operation does to the chip, whatever it returns, and what its success
-- means.
use pico_framework.Base.{
  ℕ, ◌+◌, ◌^◌, ◌≤◌, ◌<◌, ◌≡◌, ◌≢◌, refl, sym, ap, ◌∙◌, ◌⊎◌, inl, inr, true, false, Option, some,
  List, ltb, leb, ◌==◌, ◌&&◌, take, arith, Bool-cases, length, length-take,
}
use pico_framework.FlashLayout.{Region, LayoutResult, check_erase, check_program, region_absolute}
use pico_framework.FlashLayout.Bounds.{check_erase_iff, check_program_iff, Within}
use pico_framework.FlashLayout.Division.{end_of}
use pico_framework.FlashStorage.{
  StorageResult, failed, translate, absent, bytes_of, precheck, holds_running_code, execute, erase,
  program, program_verified,
}
use pico_framework.FlashStorage.Hardware.{Sdk, IsDocumented, erased, cleared}

-- The region that is worked on can be: it is not empty, ends inside the address space, and the
-- running code is not in it.
precheck_ok :
    (code : Option ℕ) (r : Region)
    → failed (precheck code r) ≡ false
    → (0 < r.size) × (holds_running_code code r ≡ false)
unfolding precheck
precheck_ok code r h = ground arith

translate_ok : (e : LayoutResult) → failed (translate e) ≡ false → e ≡ LayoutResult.ok
translate_ok LayoutResult.ok h = refl
translate_ok LayoutResult.invalid_arg h = absurd (ground arith)
translate_ok LayoutResult.too_small h = absurd (ground arith)
translate_ok LayoutResult.unaligned h = absurd (ground arith)
translate_ok LayoutResult.out_of_range h = absurd (ground arith)

failed_ne : (e : StorageResult) → failed e ≡ true → e ≢ StorageResult.ok
failed_ne e h q = ground (arith, h, q)

module _ {Chip : Type 0} (sdk : Sdk Chip) where
  -- Nothing was done, and success means that nothing was asked.
  abbrev pub Idle : Chip → ℕ → Chip × StorageResult → Type 0
  Idle chip size r = (r.0 ≡ chip) × ((r.1 ≡ StorageResult.ok) → size ≡ 0)

  Idle-failed :
      (chip : Chip) (size : ℕ) (e : StorageResult) → failed e ≡ true → Idle chip size (chip, e)
  Idle-failed chip size e bad = (refl, λ q. absurd (failed_ne e bad q))

  -- An erase, and a program, is idle or has passed every check.
  pub erase_cases :
      (code : Option ℕ) (chip : Chip) (r : Region) (offset size : ℕ)
      → Idle chip size (erase sdk code chip r offset size)
        ⊎ ((holds_running_code code r ≡ false)
            × (check_erase r offset size ≡ LayoutResult.ok)
            × (erase sdk code chip r offset size
                ≡ execute sdk chip (λ c. sdk.range_erase c (region_absolute r offset) size)))
  unfolding erase
  erase_cases code chip r offset size = elim (Bool-cases (failed (precheck code r))) [
    | inl bad ↦ rw bad (inl (Idle-failed chip size (precheck code r) bad))
    | inr fine ↦ elim (Bool-cases (failed (translate (check_erase r offset size)))) [
      | inl bad ↦
          rw fine (rw bad (inl (Idle-failed chip size (translate (check_erase r offset size)) bad)))
      | inr inside ↦ elim (Bool-cases (size == 0)) [
        | inl nothing ↦ rw fine (rw inside (rw nothing (inl (refl, λ q. ground (arith, nothing)))))
        | inr much ↦ rw fine (
            rw inside (
              rw much (
                inr (
                  (precheck_ok code r fine).1,
                  translate_ok (check_erase r offset size) inside,
                  refl,
                ))))
      ]
    ]
  ]

  pub program_cases :
      (code : Option ℕ) (chip : Chip) (r : Region) (offset : ℕ) (bytes : Option (List ℕ)) (size : ℕ)
      → Idle chip size (program sdk code chip r offset bytes size)
        ⊎ ((holds_running_code code r ≡ false)
            × (check_program r offset size ≡ LayoutResult.ok)
            × (program sdk code chip r offset bytes size
                ≡ execute sdk chip (λ c.
                  sdk.range_program c (region_absolute r offset) (take size (bytes_of bytes)))))
  unfolding program
  program_cases code chip r offset bytes size = elim (Bool-cases (failed (precheck code r))) [
    | inl bad ↦ rw bad (inl (Idle-failed chip size (precheck code r) bad))
    | inr fine ↦ elim (Bool-cases (absent bytes && ltb 0 size)) [
      | inl bad ↦ rw fine (rw bad (inl (Idle-failed chip size StorageResult.invalid_arg refl)))
      | inr given ↦ elim (Bool-cases (failed (translate (check_program r offset size)))) [
        | inl bad ↦ rw fine (
            rw given
              (rw bad (inl (Idle-failed chip size (translate (check_program r offset size)) bad))))
        | inr inside ↦ elim (Bool-cases (size == 0)) [
          | inl nothing ↦
              rw fine (rw given (rw inside (rw nothing (inl (refl, λ q. ground (arith, nothing))))))
          | inr much ↦ rw fine (
              rw given (
                rw inside (
                  rw much (
                    inr (
                      (precheck_ok code r fine).1,
                      translate_ok (check_program r offset size) inside,
                      refl,
                    )))))
        ]
      ]
    ]
  ]

  -- Verifying changes nothing.
  pub program_verified-chip :
      (code : Option ℕ) (chip : Chip) (r : Region) (offset : ℕ) (bytes : Option (List ℕ)) (size : ℕ)
      → (program_verified sdk code chip r offset bytes size).0
        ≡ (program sdk code chip r offset bytes size).0
  unfolding program_verified
  program_verified-chip code chip r offset bytes size = ground arith

pub erased_miss :
    (offset size j old : ℕ)
    → ¬ ((offset ≤ j) × (j < offset + size))
    → erased offset size j old ≡ old
erased_miss offset size j old away = elim (Bool-cases (leb offset j && ltb j (offset + size))) [
  | inr out ↦ rw out refl
  | inl inside ↦ absurd (away (ground (arith, inside)))
]

pub cleared_miss :
    (offset : ℕ) (bytes : List ℕ) (j old : ℕ)
    → ¬ ((offset ≤ j) × (j < offset + length bytes))
    → cleared offset bytes j old ≡ old
cleared_miss offset bytes j old away =
    elim (Bool-cases (leb offset j && ltb j (offset + length bytes))) [
      | inr out ↦ rw out refl
      | inl inside ↦ absurd (away (ground (arith, inside)))
    ]

-- The code is in no region that passes the check.
code_outside :
    (code : Option ℕ) (r : Region) (j : ℕ)
    → end_of r < 2 ^ 32
    → holds_running_code code r ≡ false
    → (¬ Within r j) ⊎ (code ≡ some j)
    → ¬ Within r j
unfolding holds_running_code
code_outside code r j ends free (inl out) = out
code_outside code r j ends free (inr at) = λ w.
    let held : holds_running_code (some j) r ≡ false =
      sym (ap (λ c. holds_running_code c r) at) ∙ free in
    ground (arith, held, w, ends)

module _ {Chip : Type 0} (sdk : Sdk Chip) (doc : IsDocumented sdk) where
  -- A cell that the function called would leave alone is left alone.
  execute_keeps :
      (chip : Chip) (operation : Chip → Chip) (j : ℕ)
      → sdk.cell (operation chip) j ≡ sdk.cell chip j
      → sdk.cell (execute sdk chip operation).0 j ≡ sdk.cell chip j
  execute_keeps chip operation j same = elim (doc.refused chip operation) [
    | inl kept ↦ kept j
    | inr done ↦ done j ∙ same
  ]

  pub erase_keeps :
      (code : Option ℕ) (chip : Chip) (r : Region) (offset size j : ℕ)
      → end_of r < 2 ^ 32
      → (¬ Within r j) ⊎ (code ≡ some j)
      → sdk.cell (erase sdk code chip r offset size).0 j ≡ sdk.cell chip j
  unfolding region_absolute
  erase_keeps code chip r offset size j ends away = elim (erase_cases sdk code chip r offset size) [
    | inl idle ↦ ap (λ c. sdk.cell c j) idle.0
    | inr ran ↦
        let c = (check_erase_iff r offset size (omega arith)).0 ran.1 in
        let out = code_outside code r j ends ran.0 away in
        ap (λ t. sdk.cell t.0 j) ran.2
        ∙ execute_keeps chip (λ c. sdk.range_erase c (region_absolute r offset) size) j
            (doc.erases chip (region_absolute r offset) size j (omega (arith, c.1, c.2, c.3)) c.4
              ∙ erased_miss (region_absolute r offset) size j (sdk.cell chip j)
                  (λ w. out (omega (arith, c.1, w))))
  ]

  program_keeps :
      (code : Option ℕ) (chip : Chip) (r : Region) (offset : ℕ) (bytes : List ℕ) (size j : ℕ)
      → end_of r < 2 ^ 32
      → size ≤ length bytes
      → (¬ Within r j) ⊎ (code ≡ some j)
      → sdk.cell (program sdk code chip r offset (some bytes) size).0 j ≡ sdk.cell chip j
  unfolding region_absolute
  program_keeps code chip r offset bytes size j ends long away =
      elim (program_cases sdk code chip r offset (some bytes) size) [
        | inl idle ↦ ap (λ c. sdk.cell c j) idle.0
        | inr ran ↦
            let c = (check_program_iff r offset size (omega arith)).0 ran.1 in
            let out = code_outside code r j ends ran.0 away in
            let n : length (take size bytes) ≡ size = omega (arith, length-take size bytes) in
            ap (λ t. sdk.cell t.0 j) ran.2
            ∙ execute_keeps chip
                (λ c. sdk.range_program c (region_absolute r offset) (take size bytes)) j
                (doc.programs chip (region_absolute r offset) (take size bytes) j
                    (omega (arith, c.1, c.2, c.3)) (omega (arith, c.4, n))
                  ∙ cleared_miss (region_absolute r offset) (take size bytes) j (sdk.cell chip j)
                      (λ w. out (omega (arith, c.1, w, n))))
      ]

  -- Whatever an erase and a verified program return, they leave every byte outside their region as
  -- it was, and the byte that the running code is at, wherever it is. The region ends below 2 ^ 32,
  -- and as many bytes are given as are to be programmed.
  pub confined :
      (code : Option ℕ) (chip : Chip) (r : Region) (offset : ℕ) (bytes : List ℕ) (size j : ℕ)
      → end_of r < 2 ^ 32
      → size ≤ length bytes
      → (¬ Within r j) ⊎ (code ≡ some j)
      → (sdk.cell (erase sdk code chip r offset size).0 j ≡ sdk.cell chip j)
        × (sdk.cell (program_verified sdk code chip r offset (some bytes) size).0 j
            ≡ sdk.cell chip j)
  confined code chip r offset bytes size j ends long away = (
    erase_keeps code chip r offset size j ends away,
    ap (λ c. sdk.cell c j) (program_verified-chip sdk code chip r offset (some bytes) size)
        ∙ program_keeps code chip r offset bytes size j ends long away,
  )
