-- ===== src/FirmwareReceive/Flash.antt =====
-- firmware_receive.c over flash, where storing a page can only clear bits: the bytes of a transfer
-- come to lie at their offsets.
use pico_framework.Base.{
  ℕ, ◌+◌, ◌-◌, ◌%◌, ◌^◌, ◌≤◌, ◌<◌, ◌≡◌, ◌≢◌, refl, sym, ap, All, IsByte, ◌∙◌, ◌⊎◌, inl, inr, Bool,
  true, false, List, [], ◌∷◌, ltb, leb, ◌==◌, if◌then◌else◌, ◌&&◌, not, replicate, length,
  length-replicate, arith, Bool-cases, sub32, add32, ltb→ge, length-set,
}
use pico_framework.FirmwareReceive.Programmed.{
  programmed, written, programmed-hit, programmed-miss, programmed-fresh, written-one,
}
use pico_framework.FirmwareReceive.{
  Receive, failed, page_size, erased_byte, reset_page, put_byte, flush_page, place_at, place_byte,
  place_all,
}
use pico_framework.FirmwareReceive.Inv.{
  ready, flush_page-clean, flush_page-stored, flush_page-refused, flush_page_ok-clean,
}

module _ {Ctx : Type 0} (cell : Ctx → ℕ → ℕ) where
  -- What a cell of the region holds once the page that is open is stored.
  abbrev pub view : Receive Ctx → ℕ → ℕ
  view rx j =
      if rx.page_dirty
      then programmed rx.page_offset rx.page j (cell rx.write_ctx j)
      else cell rx.write_ctx j

module _ {Ctx : Type 0} (write_page : Ctx → ℕ → List ℕ → Ctx × Bool) (cell : Ctx → ℕ → ℕ)
    (byte_cell : (ctx : Ctx) (j : ℕ) → cell ctx j < 256)
    (stores : (ctx : Ctx) (offset : ℕ) (page : List ℕ) (j : ℕ)
      → length page ≡ 256
      → (write_page ctx offset page).1 ≡ true
      → cell (write_page ctx offset page).0 j ≡ programmed offset page j (cell ctx j)) where
  -- Storing the open page changes no view.
  pub view-flush_page :
      (rx : Receive Ctx) (j : ℕ)
      → length rx.page ≡ 256
      → failed (flush_page write_page rx).1 ≡ false
      → view cell (flush_page write_page rx).0 j ≡ view cell rx j
  view-flush_page rx j full good = elim (Bool-cases (rx.page_dirty)) [
    | inr clean ↦ ap (λ r. view cell r.0 j) (flush_page-clean write_page rx clean)
    | inl dirty ↦ elim (Bool-cases (write_page rx.write_ctx rx.page_offset rx.page).1) [
      | inl stored ↦
          ap (λ r. view cell r.0 j) (flush_page-stored write_page rx dirty stored)
          ∙ (stores (rx.write_ctx) (rx.page_offset) (rx.page) j full stored
              ∙ ap
                  (λ b.
                    if b
                    then programmed rx.page_offset rx.page j (cell rx.write_ctx j)
                    else cell rx.write_ctx j)
                  (sym dirty))
      | inr bad ↦ absurd (ground (arith, flush_page-refused write_page rx dirty bad))
    ]
  ]

  -- Stated of the page that a byte goes into: the view is that of the transfer.
  pub record Opened (rx rdy : Receive Ctx) (start : ℕ) : Type 0 where
    pub placed : rdy.page_offset ≡ start
    pub full : length rdy.page ≡ 256
    pub reads :
        (j : ℕ) → programmed rdy.page_offset rdy.page j (cell rdy.write_ctx j) ≡ view cell rx j

  ready-Opened :
      (rx : Receive Ctx) (offset : ℕ)
      → length rx.page ≡ 256
      → (rx.page_dirty ≡ false) ⊎ (sub32 offset (offset % page_size) ≡ rx.page_offset)
      → Opened rx (ready rx offset) (sub32 offset (offset % page_size))
  unfolding reset_page
  ready-Opened rx offset full same = elim (Bool-cases (rx.page_dirty)) [
    | inr clean ↦ rw clean (record {
      placed = refl;
      full = length-replicate 256 erased_byte;
      reads = λ j. programmed-fresh _ (cell rx.write_ctx j) j (byte_cell rx.write_ctx j);
    })
    | inl dirty ↦
        rw dirty
          (record { placed = sym (ground (arith, same, dirty)); full = full; reads = λ j. refl })
  ]

  -- One byte more: the cell at `offset` holds it, and every other cell what it held.
  abbrev pub Stored : Receive Ctx → Receive Ctx → ℕ → ℕ → Type 0
  Stored rx rx' offset value =
      (view cell rx' offset ≡ value) × ((j : ℕ) → j ≢ offset → view cell rx' j ≡ view cell rx j)

  put_ready-Stored :
      (rx : Receive Ctx) (offset value : ℕ)
      → offset < 2 ^ 32
      → value < 256
      → length rx.page ≡ 256
      → (rx.page_dirty ≡ false) ⊎ (sub32 offset (offset % page_size) ≡ rx.page_offset)
      → view cell rx offset ≡ 255
      → Stored rx (put_byte (ready rx offset) offset value) offset value
  unfolding put_byte
  put_ready-Stored rx offset value small hv full same erased =
      let rdy = ready rx offset in
      let o = ready-Opened rx offset full same in
      let start : rdy.page_offset ≡ offset - offset % 256 = omega (arith, o.placed) in
      (
        programmed-hit (rdy.page_offset) offset value (cell rdy.write_ctx offset) (rdy.page) start
            o.full hv (byte_cell (rdy.write_ctx) offset) (o.reads offset ∙ erased),
        λ j ne.
            programmed-miss (rdy.page_offset) offset value (cell rdy.write_ctx j) j (rdy.page) start
              ne
            ∙ o.reads j,
      )

  flush_page-page : (rx : Receive Ctx) → (flush_page write_page rx).0.page ≡ rx.page
  unfolding flush_page
  flush_page-page rx = ground arith

  place_at-Stored :
      (rx : Receive Ctx) (offset value : ℕ)
      → offset < 2 ^ 32
      → value < 256
      → length rx.page ≡ 256
      → failed (place_at write_page rx offset value).1 ≡ false
      → view cell rx offset ≡ 255
      → Stored rx (place_at write_page rx offset value).0 offset value
  unfolding place_at
  place_at-Stored rx offset value small hv full good erased =
      let start = sub32 offset (offset % page_size) in
      let f = flush_page write_page rx in
      elim (Bool-cases (rx.page_dirty && not (start == rx.page_offset))) [
        | inr stays ↦
            rw stays (put_ready-Stored rx offset value small hv full (ground (arith, stays)) erased)
        | inl moves ↦ elim (Bool-cases (failed f.1)) [
          | inl bad ↦ absurd (ground (arith, good, moves, bad))
          | inr fine ↦
              let kept : (j : ℕ) → view cell f.0 j ≡ view cell rx j =
                λ j. view-flush_page rx j full fine in
              let stored =
                put_ready-Stored (f.0) offset value small hv (ap length (flush_page-page rx) ∙ full)
                  (inl (flush_page_ok-clean write_page rx fine)) (kept offset ∙ erased) in
              rw moves (rw fine (stored.0, λ j ne. stored.1 j ne ∙ kept j))
        ]
      ]

  place_byte-Stored :
      (rx : Receive Ctx) (address value : ℕ)
      → address < 2 ^ 32
      → value < 256
      → length rx.page ≡ 256
      → failed (place_byte write_page rx address value).1 ≡ false
      → view cell rx (address - rx.base_address) ≡ 255
      → Stored rx (place_byte write_page rx address value).0 (address - rx.base_address) value
  unfolding place_byte
  place_byte-Stored rx address value small hv full good erased =
      elim (Bool-cases (ltb address rx.base_address)) [
        | inl below ↦ absurd (ground (arith, good, below))
        | inr above ↦ elim (Bool-cases (leb rx.capacity (sub32 address rx.base_address))) [
          | inl large ↦ absurd (ground (arith, good, above, large))
          | inr fits ↦
              let at : sub32 address rx.base_address ≡ address - rx.base_address =
                omega (arith, ltb→ge _ _ above) in
              rw above (
                rw fits (
                  rw at (
                    place_at-Stored rx (address - rx.base_address) value (omega arith) hv full
                      (ground (arith, good, above, fits, at)) erased)))
        ]
      ]

  place_byte-above :
      (rx : Receive Ctx) (address value : ℕ)
      → failed (place_byte write_page rx address value).1 ≡ false
      → rx.base_address ≤ address
  unfolding place_byte
  place_byte-above rx address value good = ground arith

  put_ready-page :
      (rx : Receive Ctx) (offset value : ℕ)
      → length rx.page ≡ 256
      → length (put_byte (ready rx offset) offset value).page ≡ 256
  unfolding put_byte reset_page
  put_ready-page rx offset value full = elim (Bool-cases (rx.page_dirty)) [
    | inr clean ↦ rw clean (
        length-set (replicate page_size erased_byte) (offset % 256) value
        ∙ length-replicate 256 erased_byte)
    | inl dirty ↦ rw dirty (length-set (rx.page) (offset % 256) value ∙ full)
  ]

  place_at-page :
      (rx : Receive Ctx) (offset value : ℕ)
      → length rx.page ≡ 256
      → length (place_at write_page rx offset value).0.page ≡ 256
  unfolding place_at
  place_at-page rx offset value full =
      let start = sub32 offset (offset % page_size) in
      let f = flush_page write_page rx in
      let flushed : length f.0.page ≡ 256 = ap length (flush_page-page rx) ∙ full in
      elim (Bool-cases (rx.page_dirty && not (start == rx.page_offset))) [
        | inr stays ↦ rw stays (put_ready-page rx offset value full)
        | inl moves ↦ rw moves (elim (Bool-cases (failed f.1)) [
          | inl bad ↦ rw bad flushed
          | inr fine ↦ rw fine (put_ready-page (f.0) offset value flushed)
        ])
      ]

  place_byte-page :
      (rx : Receive Ctx) (address value : ℕ)
      → length rx.page ≡ 256
      → length (place_byte write_page rx address value).0.page ≡ 256
  unfolding place_byte
  place_byte-page rx address value full =
      ground (arith, place_at-page rx (sub32 address rx.base_address) value full)

  place_byte-base :
      (rx : Receive Ctx) (address value : ℕ)
      → (place_byte write_page rx address value).0.base_address ≡ rx.base_address
  unfolding place_byte place_at put_byte reset_page flush_page
  place_byte-base rx address value = ground arith

  -- Bytes that were all placed lie in a row from their address on, and no other cell changed, if the
  -- cells were erased.
  pub place_all-written :
      (values : List ℕ) (rx : Receive Ctx) (address i j : ℕ)
      → length rx.page ≡ 256
      → All IsByte values
      → address + i + length values ≤ 2 ^ 32
      → failed (place_all write_page rx address i values).1 ≡ false
      → ((k : ℕ)
          → address + i ≤ k + rx.base_address
          → k + rx.base_address < address + i + length values
          → view cell rx k ≡ 255)
      → view cell (place_all write_page rx address i values).0 j
        ≡ written values (address + i - rx.base_address) j (view cell rx j)
  unfolding place_all
  place_all-written [] rx address i j full bytes fits good erased = ground arith
  place_all-written (value ∷ values) rx address i j full bytes fits good erased =
      let r = place_byte write_page rx (add32 address i) value in
      let at : add32 address i ≡ address + i = omega arith in
      elim (Bool-cases (failed r.1)) [
        | inl bad ↦ absurd (ground (arith, good, bad))
        | inr fine ↦
            let above : rx.base_address ≤ address + i =
              omega (arith, at, place_byte-above rx (add32 address i) value fine) in
            let off = add32 address i - rx.base_address in
            let here : off ≡ address + i - rx.base_address = omega (arith, at) in
            let one : Stored rx (r.0) off value =
              place_byte-Stored rx (add32 address i) value (omega arith) (bytes.0) full fine
                (erased off (omega (arith, at)) (omega (arith, at))) in
            let base : r.0.base_address ≡ rx.base_address =
              place_byte-base rx (add32 address i) value in
            let next : address + (i + 1) - r.0.base_address ≡ off + 1 = omega (arith, at, base) in
            let rest =
              place_all-written values (r.0) address (i + 1) j
                (place_byte-page rx (add32 address i) value full) (bytes.1) (omega arith)
                (ground (arith, good, fine))
                (λ k p q.
                  one.1 k (λ e. omega (arith, e, at, base))
                  ∙ erased k (omega (arith, base)) (omega (arith, base))) in
            rw fine (
              rest
              ∙ ap (λ start. written values start j (view cell r.0 j)) next
              ∙ written-one value off j (view cell rx j) (view cell r.0 j) values
                  (λ e. ap (λ k. view cell r.0 k) e ∙ one.0) (λ ne. one.1 j ne)
              ∙ ap (λ start. written (value ∷ values) start j (view cell rx j)) here)
      ]
