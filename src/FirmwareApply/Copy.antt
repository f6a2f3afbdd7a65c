-- ===== src/FirmwareApply/Copy.antt =====
-- firmware_apply.c: after the copy the destination holds what was staged.
use pico_framework.Base.{
  ℕ, zero, suc, ◌+◌, ◌-◌, ◌*◌, ◌/◌, ◌%◌, ◌^◌, ◌≤◌, ◌<◌, ◌≡◌, refl, sym, ap, ◌∙◌, ◌⊎◌, inl, inr,
  true, ltb, leb, if◌then◌else◌, ◌&&◌, add32, sub32, tabulate, arith, Bool-cases, length, bit_and,
  get_or, length-tabulate,
}
use pico_framework.Base.Bits.And.{ones_bit_and}
use pico_framework.FlashLayout.{Region}
use pico_framework.FlashStorage.Hardware.{Sdk, IsDocumented, erased, cleared}
use pico_framework.FirmwareApply.{apply_sectors, apply}

get_or-tabulate_in : (n : ℕ) (f : ℕ → ℕ) (i d : ℕ) → i < n → get_or (tabulate n f) i d ≡ f i
get_or-tabulate_in zero f i d h = absurd (omega arith)
get_or-tabulate_in (suc n) f zero d h = refl
get_or-tabulate_in (suc n) f (suc i) d h = get_or-tabulate_in n (λ k. f (suc k)) i d (omega arith)

-- What a cell holds once the sectors from `low` to below `high` are copied.
abbrev pub copied : (ℕ → ℕ) → ℕ → ℕ → ℕ → ℕ → ℕ → ℕ
copied cells source destination low high j =
    if leb (destination + low) j && ltb j (destination + high)
    then cells (j - destination + source)
    else cells j

-- One sector, erased and programmed.
sector_lem :
    (cells : ℕ → ℕ) (n source destination at j : ℕ)
    → ((k : ℕ) → cells k < 256)
    → cleared
        (destination + at)
        (tabulate n (λ i. cells (source + at + i)))
        j
        (erased (destination + at) n j (cells j))
      ≡ copied cells source destination at (at + n) j
sector_lem cells n source destination at j bytes =
    let size = length-tabulate n (λ i. cells (source + at + i)) in
    let last : destination + (at + n) ≡ destination + at + n = omega arith in
    rw (size, last)
      (elim (Bool-cases (leb (destination + at) j && ltb j (destination + at + n))) [
        | inr out ↦ rw out refl
        | inl inside ↦
            let index : source + at + (j - (destination + at)) ≡ j - destination + source =
              ground (arith, inside) in
            let read : get_or (tabulate n (λ i. cells (source + at + i))) (j - (destination + at))
                  255
                ≡ cells (j - destination + source) =
              get_or-tabulate_in n (λ i. cells (source + at + i)) (j - (destination + at)) 255
                (ground (arith, inside))
              ∙ ap cells index in
            rw inside (
              ap (bit_and 255) read
              ∙ ones_bit_and 8 (cells (j - destination + source))
                  (bytes (j - destination + source)))
      ])

copied_none :
    (cells : ℕ → ℕ) (source destination low j : ℕ)
    → copied cells source destination low low j ≡ cells j
copied_none cells source destination low j =
    elim (Bool-cases (leb (destination + low) j && ltb j (destination + low))) [
      | inr out ↦ rw out refl
      | inl inside ↦ absurd (ground (arith, inside))
    ]

copied_in :
    (cells : ℕ → ℕ) (source destination low high j : ℕ)
    → destination + low ≤ j
    → j < destination + high
    → copied cells source destination low high j ≡ cells (j - destination + source)
copied_in cells source destination low high j p q =
    let inside : (leb (destination + low) j && ltb j (destination + high)) ≡ true =
      ground (arith, p, q) in
    rw inside refl

copied_out :
    (cells : ℕ → ℕ) (source destination low high j : ℕ)
    → ¬ ((destination + low ≤ j) × (j < destination + high))
    → copied cells source destination low high j ≡ cells j
copied_out cells source destination low high j away =
    elim (Bool-cases (leb (destination + low) j && ltb j (destination + high))) [
      | inr out ↦ rw out refl
      | inl inside ↦ absurd (away (ground (arith, inside)))
    ]

-- Two runs of sectors that follow one another, copied from cells that neither writes.
copied_join :
    (cells cells' : ℕ → ℕ) (source destination low mid high j : ℕ)
    → low ≤ mid
    → mid ≤ high
    → (source + high ≤ destination) ⊎ (destination + high ≤ source)
    → ((k : ℕ) → cells' k ≡ copied cells source destination low mid k)
    → copied cells' source destination mid high j ≡ copied cells source destination low high j
copied_join cells cells' source destination low mid high j a b apart step =
    elim (Bool-cases (leb (destination + mid) j && ltb j (destination + high))) [
      | inl second ↦
          let p : destination + mid ≤ j = ground (arith, second) in
          let q : j < destination + high = ground (arith, second) in
          copied_in cells' source destination mid high j p q
          ∙ step (j - destination + source)
          ∙ copied_out cells source destination low mid (j - destination + source)
              (λ w. omega (arith, w, p, q, apart))
          ∙ sym (copied_in cells source destination low high j (omega (arith, a, p)) q)
      | inr other ↦
          copied_out cells' source destination mid high j (λ w. ground (arith, other, w))
          ∙ step j
          ∙ elim (Bool-cases (leb (destination + low) j && ltb j (destination + mid))) [
            | inl first ↦
                let p : destination + low ≤ j = ground (arith, first) in
                let q : j < destination + mid = ground (arith, first) in
                copied_in cells source destination low mid j p q
                ∙ sym (copied_in cells source destination low high j p (omega (arith, q, b)))
            | inr neither ↦
                copied_out cells source destination low mid j (λ w. ground (arith, neither, w))
                ∙ sym (
                    copied_out cells source destination low high j
                      (λ w. ground (arith, neither, other, w)))
          ]
    ]

module _ {Chip : Type 0} (sdk : Sdk Chip) (doc : IsDocumented sdk) where
  one_sector :
      (chip : Chip) (n source destination at k : ℕ)
      → n % 4096 ≡ 0
      → (destination + at) % 4096 ≡ 0
      → destination + at < 2 ^ 32
      → sdk.cell
          (sdk.range_program
            (sdk.range_erase chip (add32 destination at) n)
            (add32 destination at)
            (tabulate n (λ i. sdk.cell chip (source + at + i))))
          k
        ≡ copied (sdk.cell chip) source destination at (at + n) k
  one_sector chip n source destination at k whole aligned small =
      let staged = tabulate n (λ i. sdk.cell chip (source + at + i)) in
      let here : add32 destination at ≡ destination + at = omega (arith, small) in
      let size : length staged ≡ n = length-tabulate n (λ i. sdk.cell chip (source + at + i)) in
      rw here (
        doc.programs (sdk.range_erase chip (destination + at) n) (destination + at) staged k
          (omega (arith, aligned)) (omega (arith, size, whole))
        ∙ ap (λ old. cleared (destination + at) staged k old)
            (doc.erases chip (destination + at) n k aligned whole)
        ∙ sector_lem (sdk.cell chip) n source destination at k (λ i. doc.byte_cell chip i))

  apply_sectors-copied :
      (left sector source destination room : ℕ) (chip : Chip) (j : ℕ)
      → destination % 4096 ≡ 0
      → destination + room < 2 ^ 32
      → (source + room ≤ destination) ⊎ (destination + room ≤ source)
      → (sector + left) * 4096 ≤ room
      → sdk.cell (apply_sectors sdk chip source destination left sector) j
        ≡ copied (sdk.cell chip) source destination (sector * 4096) ((sector + left) * 4096) j
  unfolding apply_sectors
  apply_sectors-copied zero sector source destination room chip j aligned ends apart fits =
      let none_left : (sector + 0) * 4096 ≡ sector * 4096 = omega arith in
      rw none_left (sym (copied_none (sdk.cell chip) source destination (sector * 4096) j))
  apply_sectors-copied (suc left) sector source destination room chip j aligned ends apart fits =
      let at = sector * 4096 in
      let next =
        sdk.range_program (sdk.range_erase chip (add32 destination at) 4096) (add32 destination at)
          (tabulate 4096 (λ i. sdk.cell chip (source + at + i))) in
      let end : (sector + 1 + left) * 4096 ≡ (sector + suc left) * 4096 = omega arith in
      let after : at + 4096 ≡ (sector + 1) * 4096 = omega arith in
      apply_sectors-copied left (sector + 1) source destination room next j aligned ends apart
        (omega (arith, fits))
      ∙ ap (λ (h : ℕ). copied (sdk.cell next) source destination ((sector + 1) * 4096) h j) end
      ∙ copied_join (sdk.cell chip) (sdk.cell next) source destination at ((sector + 1) * 4096)
          ((sector + suc left) * 4096) j (omega arith) (omega arith) (omega (arith, apart, fits))
          (λ k.
            one_sector chip 4096 source destination at k refl (omega (arith, aligned))
              (omega (arith, ends, fits))
            ∙ ap (λ (m : ℕ). copied (sdk.cell chip) source destination at m k) after)

  -- A copy of `size` bytes leaves in the sectors of the destination that hold them what was staged,
  -- and every other byte of the chip as it was. The destination starts at a sector, is whole
  -- sectors, ends below 2 ^ 32 and has room for the bytes; and the bytes that are copied, counted up
  -- to whole sectors from the start of the source, do not overlap as many from the start of the
  -- destination.
  pub apply_lem :
      (chip : Chip) (source destination : Region) (size j : ℕ)
      → destination.offset % 4096 ≡ 0
      → destination.size % 4096 ≡ 0
      → destination.offset + destination.size < 2 ^ 32
      → size ≤ destination.size
      → (source.offset + (size + 4095) / 4096 * 4096 ≤ destination.offset)
        ⊎ (destination.offset + (size + 4095) / 4096 * 4096 ≤ source.offset)
      → sdk.cell (apply sdk chip source destination size) j
        ≡ copied (sdk.cell chip) source.offset destination.offset 0 ((size + 4095) / 4096 * 4096) j
  unfolding apply
  apply_lem chip source destination size j aligned whole ends fits apart =
      let span = (size + 4095) / 4096 * 4096 in
      let low : size ≤ 2 ^ 32 - 4096 = omega (arith, ends, fits, whole) in
      let sectors : sub32 (add32 size 4096) 1 / 4096 ≡ (size + 4095) / 4096 =
        ap (λ (n : ℕ). n / 4096) (omega (arith, low)) in
      let n : (0 + (size + 4095) / 4096) * 4096 ≡ span = omega arith in
      let room : span ≤ destination.size = omega (arith, fits, whole) in
      rw sectors (
        apply_sectors-copied ((size + 4095) / 4096) 0 (source.offset) (destination.offset) span chip
          j aligned (omega (arith, ends, room)) apart (omega (arith, n))
        ∙ ap (λ (h : ℕ). copied (sdk.cell chip) source.offset destination.offset 0 h j) n)
