-- ===== src/FirmwareReceive/Placed.antt =====
-- firmware_receive.c over flash: what a line of the file comes to in the cells.
use pico_framework.Base.{
  ℕ, ◌+◌, ◌-◌, ◌^◌, ◌≤◌, ◌<◌, ◌≡◌, ◌≢◌, refl, sym, ap, ◌∙◌, Bool, true, false, some, List, [], ◌∷◌,
  arith, take, blit, replicate, Bool-cases, Option-cases, length, not, if◌then◌else◌, ◌==◌, inl,
  inr, All, IsByte, length-replicate, add32,
}
use pico_framework.HexParser.{HexRecord, feed, record_data, record_eof, max_record_data, HexResult}
use pico_framework.HexParser.Line.{IsBlank}
use pico_framework.HexParser.Frame.{frame, line_of}
use pico_framework.HexParser.RoundTrip.{record_of, feed_data}
use pico_framework.FirmwareReceive.{
  Receive, ReceiveResult, failed, hex_ok, flush_page, place_byte, place_all, apply_record,
  take_line, receive_line,
}
use pico_framework.FirmwareReceive.Inv.{flush_page_ok-clean}
use pico_framework.FirmwareReceive.Errors.{
  receive_line-running, flush_page-ne-complete, place_byte-ne-complete,
}
use pico_framework.FirmwareReceive.Programmed.{programmed, written}
use pico_framework.FirmwareReceive.Flash.{view, view-flush_page, place_all-written}

take-blit : (dst src : List ℕ) → length src ≤ length dst → take (length src) (blit dst 0 src) ≡ src
take-blit [] [] h = refl
take-blit (x ∷ dst) [] h = refl
take-blit [] (y ∷ src) h = absurd (omega arith)
take-blit (x ∷ dst) (y ∷ src) h = ap (λ l. y ∷ l) (take-blit dst src (omega arith))

-- What an accepted data line does, and which lines complete a transfer.
module _ {Ctx : Type 0} (write_page : Ctx → ℕ → List ℕ → Ctx × Bool) where
  pub take_line-data :
      (rx : Receive Ctx) (line : List ℕ) (address : ℕ) (payload : List ℕ)
      → length payload < 256
      → feed rx.parser (some line) ≡ record {
        parser = rx.parser;
        written = some (record_of record_data address payload);
        result = HexResult.ok;
      }
      → take_line write_page rx line
        ≡ place_all write_page (record rx { records = add32 rx.records 1 }) address 0 payload
  unfolding take_line apply_record
  take_line-data rx line address payload short fed = rw (ap (λ o. hex_ok o.result) fed) (
      rw (ap (λ o. o.written) fed) (
        rw (ap (λ o. o.parser) fed) (
          ap
            (λ values.
              place_all write_page (record rx { records = add32 rx.records 1 }) address 0 values)
            (take-blit (replicate max_record_data 0) payload
              (omega (arith, length-replicate {A = ℕ} max_record_data 0))))))

  place_all-ne-complete :
      (values : List ℕ) (rx : Receive Ctx) (address i : ℕ)
      → (place_all write_page rx address i values).1 ≢ ReceiveResult.complete
  unfolding place_all
  place_all-ne-complete [] rx address i = λ e. cc
  place_all-ne-complete (value ∷ values) rx address i = ground (
    arith,
    place_byte-ne-complete write_page rx (add32 address i) value,
    place_all-ne-complete values (place_byte write_page rx (add32 address i) value).0 address
        (i + 1),
  )

module _ {Ctx : Type 0} (write_page : Ctx → ℕ → List ℕ → Ctx × Bool) (cell : Ctx → ℕ → ℕ)
    (byte_cell : (ctx : Ctx) (j : ℕ) → cell ctx j < 256)
    (stores : (ctx : Ctx) (offset : ℕ) (page : List ℕ) (j : ℕ)
      → length page ≡ 256
      → (write_page ctx offset page).1 ≡ true
      → cell (write_page ctx offset page).0 j ≡ programmed offset page j (cell ctx j)) where
  apply_record-complete :
      (rx : Receive Ctx) (r : HexRecord) (j : ℕ)
      → length rx.page ≡ 256
      → (apply_record write_page rx r).1 ≡ ReceiveResult.complete
      → cell (apply_record write_page rx r).0.write_ctx j ≡ view cell rx j
  unfolding apply_record
  apply_record-complete rx r j full done = elim (Bool-cases (r.type == record_data)) [
    | inl is_data ↦ absurd (
        ground (
          arith,
          done,
          is_data,
          place_all-ne-complete write_page (take (r.length) (r.payload)) rx r.address 0,
        ))
    | inr not_data ↦ elim (Bool-cases (r.type == record_eof)) [
      | inr other ↦ absurd (ground (arith, done, not_data, other))
      | inl eof ↦
          let f = flush_page write_page rx in
          elim (Bool-cases (failed f.1)) [
            | inl bad ↦
                absurd
                  (ground (arith, done, not_data, eof, bad, flush_page-ne-complete write_page rx))
            | inr fine ↦
                let clean : view cell (f.0) j ≡ cell f.0.write_ctx j =
                  ap
                    (λ b.
                      if b
                      then programmed f.0.page_offset f.0.page j (cell f.0.write_ctx j)
                      else cell f.0.write_ctx j)
                    (flush_page_ok-clean write_page rx fine) in
                rw not_data (
                  rw eof (
                    rw fine (
                      sym clean ∙ view-flush_page write_page cell byte_cell stores rx j full fine)))
          ]
    ]
  ]

  take_line-complete :
      (rx : Receive Ctx) (line : List ℕ) (j : ℕ)
      → length rx.page ≡ 256
      → (take_line write_page rx line).1 ≡ ReceiveResult.complete
      → cell (take_line write_page rx line).0.write_ctx j ≡ view cell rx j
  unfolding take_line
  take_line-complete rx line j full done =
      let o = feed rx.parser (some line) in
      let fed = record rx { parser = o.parser } in
      let counted = record fed { records = add32 rx.records 1 } in
      elim (Bool-cases (hex_ok o.result)) [
        | inr bad ↦ absurd (ground (arith, done, bad))
        | inl good ↦ elim (Option-cases (o.written)) [
          | inl nothing ↦ absurd (ground (arith, done, good, nothing))
          | inr r ↦
              let same : take_line write_page rx line ≡ apply_record write_page counted (r.0) =
                rw good (rw (r.1) refl) in
              ap (λ t. cell t.0.write_ctx j) same
              ∙ apply_record-complete counted (r.0) j full (sym (ap (λ t. t.1) same) ∙ done)
        ]
      ]

  -- A data line that a running transfer accepts, its page of 256 bytes and no end of file seen: the
  -- line's bytes lie at their address less the base address, and no other cell changed. The cells
  -- for them were erased, the addresses do not wrap, and the writer clears bits as flash does. A
  -- cell stands for what it holds once the page that is open is stored.
  pub receive_data :
      (rx : Receive Ctx) (leading trailing : List ℕ) (offset j : ℕ) (payload : List ℕ)
      → rx.started ≡ true
      → failed rx.error ≡ false
      → rx.parser.seen_eof ≡ false
      → length rx.page ≡ 256
      → All IsBlank leading
      → All IsBlank trailing
      → offset < 2 ^ 16
      → length payload < 256
      → All IsByte payload
      → rx.parser.address_base + offset + length payload < 2 ^ 32
      → ((k : ℕ)
          → rx.parser.address_base + offset ≤ k + rx.base_address
          → k + rx.base_address < rx.parser.address_base + offset + length payload
          → view cell rx k ≡ 255)
      → (receive_line write_page rx
          (some (line_of leading (frame record_data offset payload) trailing))).1
        ≡ ReceiveResult.ok
      → view cell
          (receive_line write_page rx
            (some (line_of leading (frame record_data offset payload) trailing))).0
          j
        ≡ written payload (rx.parser.address_base + offset - rx.base_address) j (view cell rx j)
  receive_data rx leading trailing offset j payload s e open_file full hl ht ho hs hp fits erased
        good =
      let line = line_of leading (frame record_data offset payload) trailing in
      let address : add32 rx.parser.address_base offset ≡ rx.parser.address_base + offset =
        omega arith in
      let counted = record rx { records = add32 rx.records 1 } in
      let same : receive_line write_page rx (some line)
          ≡ place_all write_page counted (rx.parser.address_base + offset) 0 payload =
        receive_line-running write_page rx line s e
        ∙ take_line-data write_page rx line (add32 rx.parser.address_base offset) payload hs
            (feed_data (rx.parser) leading trailing offset payload hl ht ho hs hp open_file)
        ∙ ap (λ a. place_all write_page counted a 0 payload) address in
      let start = rx.parser.address_base + offset in
      let at : start + 0 - rx.base_address ≡ start - rx.base_address = omega arith in
      ap (λ t. view cell (t.0) j) same
      ∙ (place_all-written write_page cell byte_cell stores payload counted start 0 j full hp
            (omega arith) (ap failed (sym (ap (λ t. t.1) same) ∙ good))
            (λ k p q. erased k (omega arith) (omega arith))
          ∙ ap (λ from. written payload from j (view cell rx j)) at)

  -- A line that completes a transfer leaves in every cell what it was to hold once the open page was
  -- stored, where the page has 256 bytes and the writer clears bits as flash does: no byte that was
  -- placed is lost.
  pub receive_complete :
      (rx : Receive Ctx) (line : List ℕ) (j : ℕ)
      → length rx.page ≡ 256
      → (receive_line write_page rx (some line)).1 ≡ ReceiveResult.complete
      → cell (receive_line write_page rx (some line)).0.write_ctx j ≡ view cell rx j
  unfolding receive_line
  receive_complete rx line j full done = elim (Bool-cases (not rx.started)) [
    | inl stopped ↦ absurd (ground (arith, done, stopped))
    | inr running ↦ elim (Bool-cases (failed rx.error)) [
      | inl dead ↦ absurd (ground (arith, done, running, dead))
      | inr alive ↦
          rw running
            (rw alive (take_line-complete rx line j full (ground (arith, done, running, alive))))
    ]
  ]
