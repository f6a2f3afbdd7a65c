-- ===== src/FirmwareReceive/Programmed.antt =====
-- The cells of flash under the writes of firmware_receive.c: storing a page clears bits, and erased
-- bytes of a page leave their cells alone.
use pico_framework.Base.{
  ℕ, zero, suc, ◌+◌, ◌-◌, ◌%◌, ◌<◌, ◌≡◌, ◌≢◌, refl, sym, ap, ap₂, ◌∙◌, inl, inr, true, List, ◌∷◌,
  ltb, leb, ◌==◌, if◌then◌else◌, ◌&&◌, set, get_or, replicate, length, arith, Bool-cases, bit_and,
  get_or-set_self, get_or-set_ne, ==→ne,
}
use pico_framework.Base.Bits.And.{bit_and_ones, ones_bit_and, bit_and-le}

get_or-replicate : (n i d : ℕ) → get_or (replicate n d) i d ≡ d
get_or-replicate zero i d = refl
get_or-replicate (suc n) zero d = refl
get_or-replicate (suc n) (suc i) d = get_or-replicate n i d

-- What storing a page at `offset` leaves in a cell that held `old`.
abbrev pub programmed : ℕ → List ℕ → ℕ → ℕ → ℕ
programmed offset page j old =
    if leb offset j && ltb j (offset + 256) then bit_and old (get_or page (j - offset) 255) else old

-- A write into the cell that reads as erased leaves the value there.
pub programmed-hit :
    (start off value old : ℕ) (page : List ℕ)
    → start ≡ off - off % 256
    → length page ≡ 256
    → value < 256
    → old < 256
    → programmed start page off old ≡ 255
    → programmed start (set page (off % 256) value) off old ≡ value
programmed-hit start off value old page at full hv ho before =
    let index : off - start ≡ off % 256 = omega arith in
    let inside : (leb start off && ltb off (start + 256)) ≡ true = ground arith in
    let was : bit_and old (get_or page (off - start) 255) ≡ 255 =
      sym (ap (λ b. if b then bit_and old (get_or page (off - start) 255) else old) inside)
      ∙ before in
    let erased : old ≡ 255 = omega (arith, was, bit_and-le old (get_or page (off - start) 255)) in
    let new : get_or (set page (off % 256) value) (off - start) 255 ≡ value =
      ap (λ i. get_or (set page (off % 256) value) i 255) index
      ∙ get_or-set_self page (off % 256) value 255 (omega arith) in
    ap (λ b. if b then bit_and old (get_or (set page (off % 256) value) (off - start) 255) else old)
      inside
    ∙ (ap₂ bit_and erased new ∙ ones_bit_and 8 value hv)

pub programmed-miss :
    (start off value old j : ℕ) (page : List ℕ)
    → start ≡ off - off % 256
    → j ≢ off
    → programmed start (set page (off % 256) value) j old ≡ programmed start page j old
programmed-miss start off value old j page at ne =
    elim (Bool-cases (leb start j && ltb j (start + 256))) [
      | inr out ↦ rw out
      | inl inside ↦
          let apart : off % 256 ≢ j - start = λ e. ne (ground (arith, inside, e)) in
          ap (λ v. if leb start j && ltb j (start + 256) then bit_and old v else old)
            (get_or-set_ne page (off % 256) (j - start) value 255 apart)
    ]

pub programmed-fresh :
    (start old j : ℕ) → old < 256 → programmed start (replicate 256 255) j old ≡ old
programmed-fresh start old j h = elim (Bool-cases (leb start j && ltb j (start + 256))) [
  | inr out ↦ rw out
  | inl inside ↦
      rw inside (ap (bit_and old) (get_or-replicate 256 (j - start) 255) ∙ bit_and_ones 8 old h)
]

-- What a cell holds once `values` are written from `start` on, where it held `old`.
abbrev pub written : List ℕ → ℕ → ℕ → ℕ → ℕ
written values start j old =
    if leb start j && ltb j (start + length values) then get_or values (j - start) 0 else old

pub written-one :
    (value start j old new : ℕ) (values : List ℕ)
    → (j ≡ start → new ≡ value)
    → (j ≢ start → new ≡ old)
    → written values (start + 1) j new ≡ written (value ∷ values) start j old
written-one value start j old new values at elsewhere = elim (Bool-cases (j == start)) [
  | inl here ↦
      let same : j ≡ start = ground arith in
      let first : get_or (value ∷ values) (j - start) 0 ≡ value =
        let none_before : j - start ≡ 0 = omega arith in
        ap (λ i. get_or (value ∷ values) i 0) none_before in
      ground (arith, first, at same)
  | inr other ↦
      let ne : j ≢ start = ==→ne j start other in
      elim (Bool-cases (ltb start j)) [
        | inr below ↦ ground (arith, ne, below, elsewhere ne)
        | inl above ↦
            let next : get_or (value ∷ values) (j - start) 0 ≡ get_or values (j - (start + 1)) 0 =
              let more : j - start ≡ suc (j - (start + 1)) = ground arith in
              ap (λ i. get_or (value ∷ values) i 0) more in
            ground (arith, next, elsewhere ne)
      ]
]
