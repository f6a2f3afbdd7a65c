-- ===== src/HexParser/RoundTrip.antt =====
-- hex_parser.c: lines as tools write them are read back, extension records included.
use pico_framework.Base.{
  ℕ, ◌+◌, ◌*◌, ◌/◌, ◌%◌, ◌^◌, ◌<◌, ◌≡◌, refl, ap, ◌∙◌, true, false, some, List, [], ◌∷◌, length,
  arith, u16, All, IsByte, bit_or, add32, shl32, blit, replicate, take-length-append,
}
use pico_framework.Base.Bits.Or.{bit_or_shifted}
use pico_framework.HexParser.{
  Parser, HexResult, HexRecord, feed, accept, finish, apply_extension, max_record_data, record_data,
  record_eof, record_extended_linear,
}
use pico_framework.HexParser.Line.{IsBlank}
use pico_framework.HexParser.Frame.{frame, line_of, feed-frame, checksum, total}

offset_lem :
    (offset : ℕ) → offset < 2 ^ 16 → u16 (bit_or (offset / 256 * 2 ^ 8) (offset % 256)) ≡ offset
offset_lem offset h = omega (arith, bit_or_shifted 8 (offset / 256) (offset % 256) (omega arith))

-- The record that a line of `type` fills in.
abbrev pub record_of : ℕ → ℕ → List ℕ → HexRecord
record_of type address payload = record {
  type = type;
  address = address;
  payload = blit (replicate max_record_data 0) 0 payload;
  length = length payload;
}

accept-data :
    (p : Parser) (offset : ℕ) (payload : List ℕ)
    → offset < 2 ^ 16
    → accept p (frame record_data offset payload)
      ≡ finish (record_of record_data (add32 p.address_base offset) payload) (p, HexResult.ok)
unfolding accept
accept-data p offset payload h = rw (
  take-length-append payload
      (checksum (length payload + offset / 256 + offset % 256 + 0 + total payload) ∷ []),
  offset_lem offset h,
)

accept-eof :
    (p : Parser) (offset : ℕ)
    → accept p (frame record_eof offset [])
      ≡ finish (record_of record_eof 0 []) (record p { seen_eof = true }, HexResult.ok)
unfolding accept
accept-eof p offset = refl

accept-extended :
    (p : Parser) (offset high low : ℕ)
    → low < 256
    → high < 256
    → accept p (frame record_extended_linear offset (high ∷ low ∷ []))
      ≡ finish
          (record_of record_extended_linear 0 (high ∷ low ∷ []))
          (record p { address_base = (high * 256 + low) * 2 ^ 16 }, HexResult.ok)
unfolding accept apply_extension
accept-extended p offset high low hl hh =
    let value : shl32 (bit_or (high * 2 ^ 8) low) 16 ≡ (high * 256 + low) * 2 ^ 16 =
      omega (arith, bit_or_shifted 8 high low hl) in
    rw value

-- A data line of at most 255 bytes, with white space around it and before any end-of-file record,
-- is read back: its bytes, their number, and the 16-bit offset added to the base; the parser stays
-- as it is.
pub feed_data :
    (p : Parser) (leading trailing : List ℕ) (offset : ℕ) (payload : List ℕ)
    → All IsBlank leading
    → All IsBlank trailing
    → offset < 2 ^ 16
    → length payload < 256
    → All IsByte payload
    → p.seen_eof ≡ false
    → feed p (some (line_of leading (frame record_data offset payload) trailing)) ≡ record {
      parser = p;
      written = some (record_of record_data (add32 p.address_base offset) payload);
      result = HexResult.ok;
    }
feed_data p leading trailing offset payload hl ht ho hs hp open_file =
    feed-frame p leading trailing record_data offset payload hl ht (omega arith) ho hs hp open_file
    ∙ accept-data p offset payload ho

-- An end-of-file line is accepted, and marks the parser.
pub feed_eof :
    (p : Parser) (leading trailing : List ℕ)
    → All IsBlank leading
    → All IsBlank trailing
    → p.seen_eof ≡ false
    → feed p (some (line_of leading (frame record_eof 0 []) trailing)) ≡ record {
      parser = record p { seen_eof = true };
      written = some (record_of record_eof 0 []);
      result = HexResult.ok;
    }
feed_eof p leading trailing hl ht open_file =
    feed-frame p leading trailing record_eof 0 [] hl ht (omega arith) (omega arith) (omega arith) tt
      open_file
    ∙ accept-eof p 0

-- An extended linear address line followed by a data line, before any end-of-file record: whatever
-- the base was, the data comes with the flat 32-bit address of the two, and both lines are accepted.
-- The fields are bytes, the offset has 16 bits and the data line at most 255 bytes.
pub feed_extended_data :
    (p : Parser) (high low offset : ℕ) (payload : List ℕ)
    → high < 256
    → low < 256
    → offset < 2 ^ 16
    → length payload < 256
    → All IsByte payload
    → p.seen_eof ≡ false
    → let first =
        feed p (some (line_of [] (frame record_extended_linear 0 (high ∷ low ∷ [])) [])) in
      let second = feed (first.parser) (some (line_of [] (frame record_data offset payload) [])) in
      (first.result ≡ HexResult.ok)
      × (second.result ≡ HexResult.ok)
      × (second.written
          ≡ some (record_of record_data (high * 2 ^ 24 + low * 2 ^ 16 + offset) payload))
feed_extended_data p high low offset payload hh hl ho hs hp open_file =
    let base = (high * 256 + low) * 2 ^ 16 in
    let extended =
      feed-frame p [] [] record_extended_linear 0 (high ∷ low ∷ []) tt tt (omega arith)
        (omega arith) (omega arith) (hh, (hl, tt)) open_file
      ∙ accept-extended p 0 high low hl hh in
    let read =
      feed_data (record p { address_base = base }) [] [] offset payload tt tt ho hs hp open_file in
    let address : add32 base offset ≡ high * 2 ^ 24 + low * 2 ^ 16 + offset = omega arith in
    rw (extended, read) (refl, refl, ap (λ a. some (record_of record_data a payload)) address)
