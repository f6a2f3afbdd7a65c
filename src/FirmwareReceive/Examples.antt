-- ===== src/FirmwareReceive/Examples.antt =====
-- firmware_receive.c over a writer that keeps a log of what it was asked to store.
use Prim.Native.Char.{code}
use Prim.Native.String.{String}
use pico_framework.Base.{
  ℕ, ◌%◌, ◌^◌, ◌<◌, ◌≡◌, refl, Bool, true, false, some, List, [], ◌∷◌, arith, All, replicate, ◌-◌,
  ◌+◌, get_or, length,
}
use pico_framework.HexParser.{
  parser_reset, apply_extension, feed_record, feed, skip_space, feed_body, check_frame,
  decode_bytes, sum_bytes, accept, trimmed_length, trim_from, is_space, decode_byte, decode_nibble,
  Parser, record_data,
}
use pico_framework.FirmwareReceive.{
  Receive, ReceiveResult, Config, begin, receive_line, take_line, apply_record, place_all,
  place_byte, place_at, put_byte, reset_page, flush_page,
}
use pico_framework.Base.Bits.And.{bit_and-le}
use pico_framework.HexParser.Frame.{frame, line_of}
use pico_framework.HexParser.Line.{hex_digit}
use pico_framework.FirmwareReceive.Programmed.{programmed, written}
use pico_framework.FirmwareReceive.Flash.{view}
use pico_framework.FirmwareReceive.Accepted.{receive_data_accepted}
use pico_framework.FirmwareReceive.Placed.{receive_data, receive_complete}
use pico_framework.FirmwareReceive.Errors.{
  receive_line_fails_for_good, receive_all, receive_all_complete, AcceptedToEnd,
}
use pico_framework.FirmwareReceive.Inv.{IsValid, Holds, receive_line-Holds, begin-IsValid}

abbrev codes : String → List ℕ
codes String.[] = []
codes (String.◌∷◌ c s) = code c ∷ codes s

-- The offsets of the pages that were stored, the last one first.
abbrev log_page : List ℕ → ℕ → List ℕ → List ℕ × Bool
log_page log offset page = (offset ∷ log, true)

abbrev IsGood : ℕ → Type 0
IsGood offset = (offset % 256 ≡ 0) × (offset < 1024)

abbrev fresh : Receive (List ℕ)
fresh = record {
  base_address = 2 ^ 28;
  capacity = 1024;
  write_ctx = [];
  parser = parser_reset;
  page = replicate 256 255;
  page_offset = 0;
  page_dirty = false;
  records = 0;
  bytes = 0;
  image_size = 0;
  pages_written = 0;
  started = true;
  is_complete = false;
  error = ReceiveResult.ok;
}

config : Config (List ℕ)
config = record { base_address = 2 ^ 28; capacity = 1024; write_ctx = [] }

begin-IsValid_example : IsValid fresh
unfolding begin config
begin-IsValid_example = begin-IsValid config (omega arith) refl

fresh-Holds : Holds log_page 1024 (All IsGood) (λ log offset page h a b c. ((a, b), h)) fresh
fresh-Holds = record { valid = begin-IsValid_example; same_capacity = refl; writer = tt }

receive_line-Holds_example :
    Holds log_page 1024
      (All IsGood)
      (λ log offset page h a b c. ((a, b), h))
      (receive_line log_page fresh (some (codes ":020000041000EA"))).0
receive_line-Holds_example =
    receive_line-Holds log_page 1024 (All IsGood) (λ log offset page h a b c. ((a, b), h))
      (some (codes ":020000041000EA")) fresh-Holds

-- A line without a colon, then one that would have been fine.
no_colon : (receive_line log_page fresh (some (codes "0000000"))).1 ≡ ReceiveResult.bad_hex
unfolding receive_line take_line feed_record feed skip_space is_space
no_colon = refl

receive_line_fails_for_good_example :
    let rx = (receive_line log_page fresh (some (codes "0000000"))).0 in
    receive_line log_page rx (some (codes ":00000001FF")) ≡ (rx, ReceiveResult.aborted)
receive_line_fails_for_good_example =
    receive_line_fails_for_good log_page fresh (codes "0000000") (codes ":00000001FF") refl
      (rw no_colon (λ e. cc)) (rw no_colon (λ e. cc))

-- The base address, a data record of one byte, and the end of the file.
file : List (List ℕ)
file = codes ":020000041000EA" ∷ codes ":0100000041BE" ∷ codes ":00000001FF" ∷ []

receive_all_complete_example : AcceptedToEnd (receive_all log_page fresh file).1
unfolding parser_reset apply_extension receive_all receive_line take_line feed_record feed
    skip_space feed_body check_frame decode_bytes sum_bytes accept trimmed_length trim_from is_space
    decode_byte decode_nibble apply_record place_all place_byte place_at put_byte reset_page
    flush_page file
receive_all_complete_example = receive_all_complete log_page file fresh refl refl refl

-- A chip whose cells a store can only clear bits of.
abbrev chip_cell : (ℕ → ℕ) → ℕ → ℕ
chip_cell chip j = chip j % 256

abbrev chip_page : (ℕ → ℕ) → ℕ → List ℕ → (ℕ → ℕ) × Bool
chip_page chip offset page = (λ j. programmed offset page j (chip_cell chip j), true)

chip_byte : (chip : ℕ → ℕ) (j : ℕ) → chip_cell chip j < 256
chip_byte chip j = omega arith

chip_stores :
    (chip : ℕ → ℕ) (offset : ℕ) (page : List ℕ) (j : ℕ)
    → length page ≡ 256
    → (chip_page chip offset page).1 ≡ true
    → chip_cell (chip_page chip offset page).0 j ≡ programmed offset page j (chip_cell chip j)
chip_stores chip offset page j full e =
    let bound : programmed offset page j (chip_cell chip j) < 256 =
      ground (arith, bit_and-le (chip_cell chip j) (get_or page (j - offset) 255)) in
    omega (arith, bound)

abbrev located : Parser
located = record {
  address_base = 2 ^ 28;
  start_address = 0;
  have_start_address = false;
  seen_eof = false;
}

abbrev erased_chip : Receive (ℕ → ℕ)
erased_chip = record {
  base_address = 2 ^ 28;
  capacity = 1024;
  write_ctx = λ j. 255;
  parser = located;
  page = replicate 256 255;
  page_offset = 0;
  page_dirty = false;
  records = 1;
  bytes = 0;
  image_size = 0;
  pages_written = 0;
  started = true;
  is_complete = false;
  error = ReceiveResult.ok;
}

receive_data_example :
    view chip_cell
      (receive_line chip_page erased_chip
        (some (line_of [] (frame record_data 258 (7 ∷ 9 ∷ [])) (10 ∷ [])))).0
      259
    ≡ written (7 ∷ 9 ∷ []) (2 ^ 28 + 258 - 2 ^ 28) 259 (view chip_cell erased_chip 259)
unfolding receive_line take_line feed_record feed skip_space feed_body check_frame decode_bytes
    sum_bytes accept trimmed_length trim_from is_space decode_byte decode_nibble hex_digit
    apply_record place_all place_byte place_at put_byte reset_page flush_page
receive_data_example =
    receive_data chip_page chip_cell chip_byte chip_stores erased_chip [] (10 ∷ []) 258 259
      (7 ∷ 9 ∷ []) refl refl refl refl tt (refl, tt) (omega arith) (omega arith) (omega arith)
      (omega arith) (λ k p q. refl) refl

-- A byte waits in the page.
abbrev waiting : Receive (ℕ → ℕ)
waiting = record erased_chip { page = 7 ∷ replicate 255 255; page_dirty = true }

receive_complete_example :
    chip_cell (receive_line chip_page waiting (some (codes ":00000001FF"))).0.write_ctx 0
    ≡ view chip_cell waiting 0
unfolding receive_line take_line feed_record feed skip_space feed_body check_frame decode_bytes
    sum_bytes accept trimmed_length trim_from is_space decode_byte decode_nibble apply_record
    flush_page
receive_complete_example =
    receive_complete chip_page chip_cell chip_byte chip_stores waiting (codes ":00000001FF") 0 refl
      refl

receive_data_accepted_example :
    (receive_line chip_page erased_chip
      (some (line_of [] (frame record_data 1022 (7 ∷ 9 ∷ [])) (10 ∷ [])))).1
    ≡ ReceiveResult.ok
unfolding is_space
receive_data_accepted_example =
    receive_data_accepted chip_page (λ chip offset page. refl) erased_chip [] (10 ∷ []) 1022
      (7 ∷ 9 ∷ []) refl refl refl tt (refl, tt) (omega arith) (omega arith) (omega arith)
      (omega arith) (omega arith) (omega arith)
