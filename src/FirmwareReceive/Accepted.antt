-- ===== src/FirmwareReceive/Accepted.antt =====
-- firmware_receive.c: a data line for the region is accepted where the writer stores every page.
use pico_framework.Base.{
  ℕ, ◌+◌, ◌^◌, ◌≤◌, ◌<◌, ◌≡◌, refl, ap, ◌∙◌, Bool, true, false, some, List, [], ◌∷◌, arith, length,
  All, IsByte, add32,
}
use pico_framework.HexParser.{record_data}
use pico_framework.HexParser.Line.{IsBlank}
use pico_framework.HexParser.Frame.{frame, line_of}
use pico_framework.HexParser.RoundTrip.{feed_data}
use pico_framework.FirmwareReceive.{
  Receive, ReceiveResult, failed, flush_page, place_at, place_byte, put_byte, reset_page, place_all,
  receive_line,
}
use pico_framework.FirmwareReceive.Errors.{receive_line-running}
use pico_framework.FirmwareReceive.Placed.{take_line-data}

module _ {Ctx : Type 0} (write_page : Ctx → ℕ → List ℕ → Ctx × Bool)
    (always : (ctx : Ctx) (offset : ℕ) (page : List ℕ)
      → (write_page ctx offset page).1 ≡ true) where
  flush_page-ok : (rx : Receive Ctx) → (flush_page write_page rx).1 ≡ ReceiveResult.ok
  unfolding flush_page
  flush_page-ok rx = ground (arith, always rx.write_ctx rx.page_offset rx.page)

  place_byte-ok :
      (rx : Receive Ctx) (address value : ℕ)
      → rx.base_address ≤ address
      → address < rx.base_address + rx.capacity
      → address < 2 ^ 32
      → (place_byte write_page rx address value).1 ≡ ReceiveResult.ok
  unfolding place_byte place_at
  place_byte-ok rx address value low high small = ground (arith, flush_page-ok rx)

  place_byte-region :
      (rx : Receive Ctx) (address value : ℕ)
      → ((place_byte write_page rx address value).0.base_address ≡ rx.base_address)
        × ((place_byte write_page rx address value).0.capacity ≡ rx.capacity)
  unfolding place_byte place_at put_byte reset_page flush_page
  place_byte-region rx address value = ground arith

  place_all-ok :
      (values : List ℕ) (rx : Receive Ctx) (address i : ℕ)
      → rx.base_address ≤ address + i
      → address + i + length values ≤ rx.base_address + rx.capacity
      → address + i + length values < 2 ^ 32
      → (place_all write_page rx address i values).1 ≡ ReceiveResult.ok
  unfolding place_all
  place_all-ok [] rx address i low high small = refl
  place_all-ok (value ∷ values) rx address i low high small =
      let r = place_byte write_page rx (add32 address i) value in
      let one : r.1 ≡ ReceiveResult.ok =
        place_byte-ok rx (add32 address i) value (omega arith) (omega arith) (omega arith) in
      let region = place_byte-region rx (add32 address i) value in
      let rest =
        place_all-ok values (r.0) address (i + 1) (omega (arith, region.0))
          (omega (arith, region.0, region.1)) (omega arith) in
      rw one rest

  -- Where the writer stores every page it is given, a running transfer that has seen no end of file
  -- accepts any data line whose bytes lie between the base address and the end of the region, below
  -- 2 ^ 32.
  pub receive_data_accepted :
      (rx : Receive Ctx) (leading trailing : List ℕ) (offset : ℕ) (payload : List ℕ)
      → rx.started ≡ true
      → failed rx.error ≡ false
      → rx.parser.seen_eof ≡ false
      → All IsBlank leading
      → All IsBlank trailing
      → offset < 2 ^ 16
      → length payload < 256
      → All IsByte payload
      → rx.base_address ≤ rx.parser.address_base + offset
      → rx.parser.address_base + offset + length payload ≤ rx.base_address + rx.capacity
      → rx.parser.address_base + offset + length payload < 2 ^ 32
      → (receive_line write_page rx
          (some (line_of leading (frame record_data offset payload) trailing))).1
        ≡ ReceiveResult.ok
  receive_data_accepted rx leading trailing offset payload s e open_file hl ht ho hs hp low high
        small =
      let line = line_of leading (frame record_data offset payload) trailing in
      let address = add32 rx.parser.address_base offset in
      ap (λ t. t.1)
        (receive_line-running write_page rx line s e
          ∙ take_line-data write_page rx line address payload hs
              (feed_data (rx.parser) leading trailing offset payload hl ht ho hs hp open_file))
      ∙ place_all-ok payload (record rx { records = add32 rx.records 1 }) address 0 (omega arith)
          (omega arith) (omega arith)
