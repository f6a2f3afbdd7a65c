-- ===== src/FlashStorage/Model.antt =====
-- A chip that behaves as the SDK's documentation says: its bytes by their offsets, with a lockout
-- that never fails.
use pico_framework.Base.{
  ℕ, ◌+◌, ◌-◌, ◌%◌, refl, inl, inr, true, ltb, leb, ◌&&◌, get_or, length, arith, Bool-cases,
}
use pico_framework.Base.Bits.And.{bit_and-le}
use pico_framework.FlashStorage.Hardware.{Sdk, IsDocumented, erased, cleared}

abbrev pub memory : Sdk (ℕ → ℕ)
memory = record {
  cell = λ chip j. chip j % 256;
  range_erase = λ chip offset size j. erased offset size j (chip j);
  range_program = λ chip offset bytes j. cleared offset bytes j (chip j % 256);
  safe_execute = λ chip operation. (operation chip, true);
}

pub memory-IsDocumented : IsDocumented memory
memory-IsDocumented = record {
  byte_cell = λ chip j. omega arith;
  erases = λ chip offset size j a b. elim (Bool-cases (leb offset j && ltb j (offset + size))) [
    | inl inside ↦ rw inside
    | inr out ↦ rw out
  ];
  programs = λ chip offset bytes j a b.
      elim (Bool-cases (leb offset j && ltb j (offset + length bytes))) [
        | inl inside ↦
            rw inside (omega (arith, bit_and-le (chip j % 256) (get_or bytes (j - offset) 255)))
        | inr out ↦ rw out (omega arith)
      ];
  called = λ chip operation j done. refl;
  refused = λ chip operation. inr (λ j. refl);
}

-- A chip of erased bytes.
abbrev pub blank_chip : ℕ → ℕ
blank_chip j = 255
