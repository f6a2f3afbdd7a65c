-- ===== src/HexParser/Examples.antt =====
-- hex_parser.c run on real lines, and its theorems at small inputs.
use Prim.Native.Char.{code}
use Prim.Native.String.{String}
use pico_framework.Base.{ℕ, ◌^◌, ◌≡◌, ◌≢◌, refl, true, false, some, none, List, [], ◌∷◌, arith}
use pico_framework.HexParser.{
  Parser, HexResult, feed, feed_record, feed_body, check_frame, accept, skip_space, is_space,
  trimmed_length, trim_from, decode_bytes, decode_byte, decode_nibble, sum_bytes, apply_extension,
  apply_start_address, record_data, record_extended_linear,
}
use pico_framework.HexParser.Frame.{frame, line_of}
use pico_framework.HexParser.RoundTrip.{record_of, feed_data, feed_extended_data}
use pico_framework.HexParser.Errors.{feed_error_keeps, feed_one_byte}

abbrev codes : String → List ℕ
codes String.[] = []
codes (String.◌∷◌ c s) = code c ∷ codes s

abbrev ended : Parser
ended = record { address_base = 0; start_address = 0; have_start_address = false; seen_eof = true }

abbrev opened : Parser
opened = record {
  address_base = 2 ^ 28;
  start_address = 0;
  have_start_address = false;
  seen_eof = false;
}

data_line : feed opened (some (codes "  :0300300002337A1E\r\n")) ≡ record {
  parser = opened;
  written = some (record_of 0 0x10000030 (2 ∷ 0x33 ∷ 0x7A ∷ []));
  result = HexResult.ok;
}
unfolding feed feed_record feed_body check_frame accept skip_space is_space trimmed_length trim_from
    decode_bytes decode_byte decode_nibble sum_bytes
data_line = refl

wrong_digit : (feed opened (some (codes ":0300300002337A1G"))).result ≡ HexResult.bad_character
unfolding feed feed_record feed_body skip_space is_space trimmed_length trim_from decode_bytes
    decode_byte decode_nibble
wrong_digit = refl

-- A malformed record is refused, yet the record is filled in.
written_but_malformed : feed opened (some (codes ":01000004AA51")) ≡ record {
  parser = opened;
  written = some (record_of 4 0 (0xAA ∷ []));
  result = HexResult.malformed_record;
}
unfolding feed feed_record feed_body check_frame accept apply_extension skip_space is_space
    trimmed_length trim_from decode_bytes decode_byte decode_nibble sum_bytes
written_but_malformed = refl

-- The entry point of an image, 0x10000100.
start_line :
    (feed opened (some (codes ":0400000510000100E6"))).parser
    ≡ record opened { start_address = 0x10000100; have_start_address = true }
unfolding feed feed_record feed_body check_frame accept apply_start_address skip_space is_space
    trimmed_length trim_from decode_bytes decode_byte decode_nibble sum_bytes
start_line = refl

feed_data_example :
    feed opened (some (line_of (32 ∷ []) (frame record_data 48 (2 ∷ 51 ∷ [])) (13 ∷ 10 ∷ [])))
    ≡ record {
      parser = opened;
      written = some (record_of record_data 0x10000030 (2 ∷ 51 ∷ []));
      result = HexResult.ok;
    }
unfolding is_space
feed_data_example =
    feed_data opened (32 ∷ []) (13 ∷ 10 ∷ []) 48 (2 ∷ 51 ∷ []) (refl, tt) (refl, (refl, tt))
      (omega arith) (omega arith) (omega arith) refl

feed_extended_data_example :
    let first =
      feed opened (some (line_of [] (frame record_extended_linear 0 (0x20 ∷ 4 ∷ [])) [])) in
    let second = feed (first.parser) (some (line_of [] (frame record_data 16 (7 ∷ [])) [])) in
    (first.result ≡ HexResult.ok)
    × (second.result ≡ HexResult.ok)
    × (second.written ≡ some (record_of record_data 0x20040010 (7 ∷ [])))
feed_extended_data_example =
    feed_extended_data opened 0x20 4 16 (7 ∷ []) (omega arith) (omega arith) (omega arith)
      (omega arith) (omega arith) refl

feed_error_keeps_example : (feed opened none).parser ≡ opened
unfolding feed
feed_error_keeps_example = feed_error_keeps opened none (λ e. cc)

feed_one_byte_example :
    let o = feed opened (some (line_of [] (1 ∷ 0 ∷ 0 ∷ 0 ∷ 9 ∷ 248 ∷ []) [])) in
    (o.parser ≡ opened) × (o.written ≡ none) × (o.result ≢ HexResult.ok)
feed_one_byte_example =
    feed_one_byte opened [] [] 0 0 (7 ∷ []) (1 ∷ 0 ∷ 0 ∷ 0 ∷ []) (248 ∷ []) 7 9 tt tt (omega arith)
      refl (omega arith) (omega arith) (omega arith)
