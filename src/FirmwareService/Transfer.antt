-- ===== src/FirmwareService/Transfer.antt =====
-- firmware_service.c: a transfer over the flash, line by line.
use pico_framework.Base.{
  ℕ, ◌+◌, ◌-◌, ◌^◌, ◌≤◌, ◌<◌, ◌≡◌, ◌≢◌, refl, sym, ap, ◌∙◌, true, false, some, List, [], arith,
  length, All, IsByte, not, ◌||◌, ◌==◌, get_or, Option, if◌then◌else◌, inl, inr, ◌⊎◌,
}
use pico_framework.HexParser.{record_data}
use pico_framework.HexParser.Line.{IsBlank}
use pico_framework.HexParser.Frame.{frame, line_of}
use pico_framework.FlashLayout.{Layout}
use pico_framework.FlashLayout.Division.{end_of}
use pico_framework.FlashStorage.Hardware.{Sdk, IsDocumented}
use pico_framework.FirmwareReceive.{ReceiveResult, failed, receive_line}
use pico_framework.FirmwareReceive.Errors.{receive_line_open}
use pico_framework.FirmwareReceive.Programmed.{written}
use pico_framework.FirmwareReceive.Flash.{view}
use pico_framework.FirmwareReceive.Placed.{receive_data, receive_complete}
use pico_framework.FirmwareService.{Service, write_page, line_filter, after_line, chip_of}
use pico_framework.FirmwareService.Writer.{write_page_stores}

-- The cells of staging, by their offsets in it.
abbrev pub staging_cell : {Chip : Type 0} → Sdk Chip → Layout → Chip → ℕ → ℕ
staging_cell sdk layout chip j = sdk.cell chip (layout.staging.offset + j)

module _ {Chip : Type 0} (sdk : Sdk Chip) (code : Option ℕ) where
  -- A record that is taken while a transfer runs goes to the receiver.
  line_filter-running :
      (s : Service Chip) (line : List ℕ)
      → s.initialised ≡ true
      → s.receiving ≡ true
      → get_or line 0 0 ≡ 58
      → let r = receive_line (write_page sdk code s.layout) s.receive (some line) in
        line_filter sdk code s line ≡ (after_line (record s { receive = r.0 }) r.1, true)
  unfolding line_filter
  line_filter-running s line ready busy colon =
      let first : (not s.initialised || not (get_or line 0 0 == 58)) ≡ false =
        ground (arith, ready, colon) in
      let second : (not s.receiving) ≡ false = ground (arith, busy) in
      let r = receive_line (write_page sdk code s.layout) s.receive (some line) in
      ap
        (λ b.
          if b
          then (s, false)
          else if not s.receiving
          then (s, true)
          else (after_line (record s { receive = r.0 }) r.1, true))
        first
      ∙ ap (λ b. if b then (s, true) else (after_line (record s { receive = r.0 }) r.1, true))
          second

  after_line-cases :
      (s : Service Chip) (result : ReceiveResult)
      → ((after_line s result).receive ≡ s.receive)
        × ((after_line s result).receiving ≡ true → s.receiving ≡ true → result ≡ ReceiveResult.ok)
  after_line-cases s result = (ground arith, λ e f. ground (arith, e))

module _ {Chip : Type 0} (sdk : Sdk Chip) (doc : IsDocumented sdk) where
  -- A data line of a running transfer, after which the transfer still runs: the line's bytes lie in
  -- staging at their address less the base address, and no other cell of staging changed. The cells
  -- for them were erased, the page has 256 bytes, no end of file was seen, the addresses do not
  -- wrap, staging ends below 2 ^ 32, and the flash does what its documentation says. A cell stands
  -- for what it holds once the page that is open is stored.
  pub line_filter_data :
      (code : Option ℕ) (s : Service Chip) (trailing : List ℕ) (offset j : ℕ) (payload : List ℕ)
      → s.initialised ≡ true
      → s.receiving ≡ true
      → s.receive.started ≡ true
      → failed s.receive.error ≡ false
      → s.receive.parser.seen_eof ≡ false
      → length s.receive.page ≡ 256
      → end_of s.layout.staging < 2 ^ 32
      → All IsBlank trailing
      → offset < 2 ^ 16
      → length payload < 256
      → All IsByte payload
      → s.receive.parser.address_base + offset + length payload < 2 ^ 32
      → ((k : ℕ)
          → s.receive.parser.address_base + offset ≤ k + s.receive.base_address
          → k + s.receive.base_address < s.receive.parser.address_base + offset + length payload
          → view (staging_cell sdk s.layout) s.receive k ≡ 255)
      → (line_filter sdk code s
          (line_of [] (frame record_data offset payload) trailing)).0.receiving
        ≡ true
      → view
          (staging_cell sdk s.layout)
          (line_filter sdk code s
            (line_of [] (frame record_data offset payload) trailing)).0.receive
          j
        ≡ written payload
            (s.receive.parser.address_base + offset - s.receive.base_address)
            j
            (view (staging_cell sdk s.layout) s.receive j)
  line_filter_data code s trailing offset j payload ready busy started fine open_file full ends ht
        ho hs hp fits erased going =
      let line = line_of [] (frame record_data offset payload) trailing in
      let r = receive_line (write_page sdk code s.layout) s.receive (some line) in
      let same = line_filter-running sdk code s line ready busy refl in
      let c = after_line-cases sdk code (record s { receive = r.0 }) (r.1) in
      let good : r.1 ≡ ReceiveResult.ok = c.1 (sym (ap (λ t. t.0.receiving) same) ∙ going) busy in
      ap (λ t. view (staging_cell sdk s.layout) t.0.receive j) same
      ∙ ap (λ x. view (staging_cell sdk s.layout) x j) c.0
      ∙ receive_data (write_page sdk code s.layout) (staging_cell sdk s.layout)
          (λ chip k. doc.byte_cell chip (s.layout.staging.offset + k))
          (λ chip at page k is_full stored.
            (write_page_stores sdk doc code (s.layout) chip at k page ends is_full stored).1)
          (s.receive) [] trailing offset j payload started fine open_file full tt ht ho hs hp fits
          erased good

  complete-cases : (e : ReceiveResult) → (e ≡ ReceiveResult.complete) ⊎ (e ≢ ReceiveResult.complete)
  complete-cases e = ground arith

  -- The line that completes a transfer, which was not complete before, leaves in every cell of
  -- staging what it was to hold once the open page was stored: what fwverify reads is all there. The
  -- page has 256 bytes, staging ends below 2 ^ 32, and the flash does what its documentation says.
  pub line_filter_complete :
      (code : Option ℕ) (s : Service Chip) (line : List ℕ) (j : ℕ)
      → s.initialised ≡ true
      → s.receiving ≡ true
      → s.receive.is_complete ≡ false
      → length s.receive.page ≡ 256
      → end_of s.layout.staging < 2 ^ 32
      → get_or line 0 0 ≡ 58
      → (line_filter sdk code s line).0.receive.is_complete ≡ true
      → staging_cell sdk s.layout (chip_of (line_filter sdk code s line).0) j
        ≡ view (staging_cell sdk s.layout) s.receive j
  line_filter_complete code s line j ready busy open_file full ends colon done =
      let r = receive_line (write_page sdk code s.layout) s.receive (some line) in
      let same = line_filter-running sdk code s line ready busy colon in
      let c = after_line-cases sdk code (record s { receive = r.0 }) (r.1) in
      let is : (line_filter sdk code s line).0.receive ≡ r.0 = ap (λ t. t.0.receive) same ∙ c.0 in
      let ended : r.1 ≡ ReceiveResult.complete = elim (complete-cases (r.1)) [
        | inl over ↦ over
        | inr going ↦ absurd (
            cc (
              sym done
              ∙ ap (λ x. x.is_complete) is
              ∙ receive_line_open (write_page sdk code s.layout) (s.receive) line going
              ∙ open_file))
      ] in
      ap (λ x. staging_cell sdk s.layout x.write_ctx j) is
      ∙ receive_complete (write_page sdk code s.layout) (staging_cell sdk s.layout)
          (λ chip k. doc.byte_cell chip (s.layout.staging.offset + k))
          (λ chip at page k is_full stored.
            (write_page_stores sdk doc code (s.layout) chip at k page ends is_full stored).1)
          (s.receive) line j full ended
