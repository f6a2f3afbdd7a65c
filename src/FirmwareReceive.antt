-- ===== src/FirmwareReceive.antt =====
-- components/firmware_update/firmware_receive.c. The page writer belongs to the caller: its state
-- and its function are parameters.
pub mod Inv
pub mod Errors
pub mod Programmed
pub mod Flash
pub mod Placed
pub mod Accepted
mod Examples
use pico_framework.Base.{
  ℕ, zero, suc, ◌+◌, ◌-◌, ◌%◌, ◌^◌, Bool, true, false, Option, none, some, List, [], ◌∷◌, ltb, leb,
  ◌==◌, if◌then◌else◌, ◌&&◌, not, set, take, replicate, add32, sub32,
}
use pico_framework.HexParser.{
  Parser, HexRecord, HexResult, parser_reset, feed, record_data, record_eof,
}

abbrev pub page_size : ℕ
page_size = 256

-- What erased flash reads as.
abbrev pub erased_byte : ℕ
erased_byte = 255

-- `firmware_receive_result_t`
pub data ReceiveResult : Type 0 where
  ok complete invalid_arg not_started bad_hex below_base too_large write_failed aborted :
      ReceiveResult

-- `result != FIRMWARE_RECEIVE_OK`
abbrev pub failed : ReceiveResult → Bool
failed ReceiveResult.ok = false
failed ReceiveResult.complete = true
failed ReceiveResult.invalid_arg = true
failed ReceiveResult.not_started = true
failed ReceiveResult.bad_hex = true
failed ReceiveResult.below_base = true
failed ReceiveResult.too_large = true
failed ReceiveResult.write_failed = true
failed ReceiveResult.aborted = true

-- `hex_parser_feed` returned HEX_OK.
abbrev pub hex_ok : HexResult → Bool
hex_ok HexResult.ok = true
hex_ok HexResult.invalid_arg = false
hex_ok HexResult.no_start_code = false
hex_ok HexResult.bad_character = false
hex_ok HexResult.bad_length = false
hex_ok HexResult.bad_checksum = false
hex_ok HexResult.unknown_type = false
hex_ok HexResult.malformed_record = false
hex_ok HexResult.after_eof = false

-- `firmware_receive_t`, with the state that its writer works on in place of `write_ctx`.
pub record Receive (Ctx : Type 0) : Type 0 where
  pub base_address : ℕ
  pub capacity : ℕ
  pub write_ctx : Ctx
  pub parser : Parser
  pub page : List ℕ
  pub page_offset : ℕ
  pub page_dirty : Bool
  pub records : ℕ
  pub bytes : ℕ
  pub image_size : ℕ
  pub pages_written : ℕ
  pub started : Bool
  pub is_complete : Bool
  pub error : ReceiveResult

-- `*config`, but for the writer's function.
pub record Config (Ctx : Type 0) : Type 0 where
  pub base_address : ℕ
  pub capacity : ℕ
  pub write_ctx : Ctx

module _ {Ctx : Type 0} where
  unfoldable pub reset_page : Receive Ctx → ℕ → Receive Ctx
  reset_page rx page_offset = record rx {
    page = replicate page_size erased_byte;
    page_offset = page_offset;
    page_dirty = false;
  }

  -- `none` is a NULL configuration; a config without a writer is refused in the same place, and
  -- here there is always one. What is not refused is set up from zeroed memory.
  pub begin : Option (Config Ctx) → Option (Receive Ctx) × ReceiveResult
  unfolding reset_page
  begin none = (none, ReceiveResult.invalid_arg)
  begin (some config) =
      if config.capacity == 0
      then (none, ReceiveResult.invalid_arg)
      else (let zeroed : Receive Ctx = record {
        base_address = config.base_address;
        capacity = config.capacity;
        write_ctx = config.write_ctx;
        parser = parser_reset;
        page = replicate page_size 0;
        page_offset = 0;
        page_dirty = false;
        records = 0;
        bytes = 0;
        image_size = 0;
        pages_written = 0;
        started = true;
        is_complete = false;
        error = ReceiveResult.ok;
      } in
          (some (reset_page zeroed 0), ReceiveResult.ok))

  -- The end of `place_byte`, once the right page is at hand.
  unfoldable pub put_byte : Receive Ctx → ℕ → ℕ → Receive Ctx
  put_byte rx offset value = record rx {
    page = set rx.page (offset % page_size) value;
    page_dirty = true;
    bytes = add32 rx.bytes 1;
    image_size = if ltb rx.image_size (add32 offset 1) then add32 offset 1 else rx.image_size;
  }

-- The functions that reach the writer, which takes its state, an offset and a page, and gives its
-- state and whether it stored the page.
module _ {Ctx : Type 0} (write_page : Ctx → ℕ → List ℕ → Ctx × Bool) where
  unfoldable pub flush_page : Receive Ctx → Receive Ctx × ReceiveResult
  flush_page rx =
      if not rx.page_dirty
      then (rx, ReceiveResult.ok)
      else (let (ctx, stored) = write_page rx.write_ctx rx.page_offset rx.page in
          if not stored then (record rx { write_ctx = ctx }, ReceiveResult.write_failed) else (
            record rx {
              write_ctx = ctx;
              pages_written = add32 rx.pages_written 1;
              page_dirty = false;
            },
            ReceiveResult.ok,
          ))

  -- `place_byte` from the comparison of pages on.
  unfoldable pub place_at : Receive Ctx → ℕ → ℕ → Receive Ctx × ReceiveResult
  place_at rx offset value =
      let page_offset = sub32 offset (offset % page_size) in
      let (rx', flushed) =
        (if rx.page_dirty && not (page_offset == rx.page_offset)
          then flush_page rx
          else (rx, ReceiveResult.ok)) in
      if failed flushed then (rx', flushed) else (
        put_byte (if not rx'.page_dirty then reset_page rx' page_offset else rx') offset value,
        ReceiveResult.ok,
      )

  unfoldable pub place_byte : Receive Ctx → ℕ → ℕ → Receive Ctx × ReceiveResult
  place_byte rx address value =
      if ltb address rx.base_address
      then (rx, ReceiveResult.below_base)
      else if leb rx.capacity (sub32 address rx.base_address)
      then (rx, ReceiveResult.too_large)
      else place_at rx (sub32 address rx.base_address) value

  pub flush : Receive Ctx → Receive Ctx × ReceiveResult
  flush rx =
      if not rx.started
      then (rx, ReceiveResult.not_started)
      else if failed rx.error
      then (rx, ReceiveResult.aborted)
      else (let (rx', flushed) = flush_page rx in
          if failed flushed then (record rx' { error = flushed }, flushed) else (rx', flushed))

  -- The loop over a data record's bytes, from the `i`-th on.
  unfoldable pub place_all : Receive Ctx → ℕ → ℕ → List ℕ → Receive Ctx × ReceiveResult
  place_all rx address i [] = (rx, ReceiveResult.ok)
  place_all rx address i (value ∷ values) =
      let (rx', placed) = place_byte rx (add32 address i) value in
      let rest = place_all rx' address (i + 1) values in
      if failed placed then (record rx' { error = placed }, placed) else rest

  -- The switch on the type of an accepted record.
  unfoldable pub apply_record : Receive Ctx → HexRecord → Receive Ctx × ReceiveResult
  apply_record rx r =
      if r.type == record_data
      then place_all rx r.address 0 (take r.length r.payload)
      else if r.type == record_eof
      then (let (rx', flushed) = flush_page rx in
          if failed flushed
          then (record rx' { error = flushed }, flushed)
          else (record rx' { is_complete = true }, ReceiveResult.complete))
      else (rx, ReceiveResult.ok)

  -- A line behind the guards. An accepted line has always filled in its record.
  unfoldable pub take_line : Receive Ctx → List ℕ → Receive Ctx × ReceiveResult
  take_line rx line =
      let o = feed rx.parser (some line) in
      let fed = record rx { parser = o.parser } in
      if not (hex_ok o.result)
      then (record fed { error = ReceiveResult.bad_hex }, ReceiveResult.bad_hex)
      else (let counted = record fed { records = add32 rx.records 1 } in
          elim (o.written) [ none ↦ (counted, ReceiveResult.ok) | some r ↦ apply_record counted r ])

  -- `firmware_receive_line`; `none` is a NULL line.
  unfoldable pub receive_line : Receive Ctx → Option (List ℕ) → Receive Ctx × ReceiveResult
  receive_line rx none = (rx, ReceiveResult.invalid_arg)
  receive_line rx (some line) =
      if not rx.started
      then (rx, ReceiveResult.not_started)
      else if failed rx.error
      then (rx, ReceiveResult.aborted)
      else take_line rx line
