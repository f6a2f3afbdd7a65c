-- ===== src/HexParser.antt =====
-- components/hex_parser: hex_parser.c. A line is the list of its characters before the NUL.
pub mod Line
pub mod Frame
pub mod RoundTrip
pub mod Errors
mod Examples
use pico_framework.Base.{
  ℕ, zero, suc, ◌+◌, ◌-◌, ◌*◌, ◌/◌, ◌%◌, ◌^◌, Bool, true, false, Option, none, some, List, [], ◌∷◌,
  ltb, leb, ◌==◌, if◌then◌else◌, ◌&&◌, ◌||◌, not, get_or, take, drop, blit, replicate, bit_or,
  add32, shl32, u8, u16,
}

-- `hex_record_type_t`; a record holds the byte as it came.
abbrev pub record_data : ℕ
record_data = 0

abbrev pub record_eof : ℕ
record_eof = 1

abbrev pub record_extended_segment : ℕ
record_extended_segment = 2

abbrev pub record_start_segment : ℕ
record_start_segment = 3

abbrev pub record_extended_linear : ℕ
record_extended_linear = 4

abbrev pub record_start_linear : ℕ
record_start_linear = 5

abbrev pub max_record_data : ℕ
max_record_data = 255

abbrev pub frame_bytes : ℕ
frame_bytes = 5

-- `hex_result_t`
pub data HexResult : Type 0 where
  ok invalid_arg no_start_code bad_character bad_length bad_checksum unknown_type : HexResult
  malformed_record after_eof : HexResult

-- `hex_record_t`; `payload` is the array `data`.
pub record HexRecord : Type 0 where
  pub type : ℕ
  pub address : ℕ
  pub payload : List ℕ
  pub length : ℕ

-- `hex_parser_t`
pub record Parser : Type 0 where
  pub address_base : ℕ
  pub start_address : ℕ
  pub have_start_address : Bool
  pub seen_eof : Bool

unfoldable pub parser_reset : Parser
parser_reset = record {
  address_base = 0;
  start_address = 0;
  have_start_address = false;
  seen_eof = false;
}

unfoldable pub decode_nibble : ℕ → Option ℕ
decode_nibble c =
    if leb b'0' c && leb c b'9'
    then some (c - b'0')
    else if leb b'A' c && leb c b'F'
    then some (c - b'A' + 10)
    else if leb b'a' c && leb c b'f'
    then some (c - b'a' + 10)
    else none

unfoldable pub decode_byte : ℕ → ℕ → Option ℕ
decode_byte c d = elim (decode_nibble c) [
  | none ↦ none
  | some high ↦ elim (decode_nibble d) [
    | none ↦ none
    | some low ↦ some (u8 (bit_or (high * 2 ^ 4) low))
  ]
]

unfoldable pub is_space : ℕ → Bool
is_space c = c == b' ' || c == 9 || c == 13 || c == 10

-- The leading white space that `hex_parser_feed` steps over.
unfoldable pub skip_space : List ℕ → List ℕ
skip_space [] = []
skip_space (c ∷ line) = if is_space c then skip_space line else c ∷ line

-- The loop of `trimmed_length` from `len` on.
unfoldable pub trim_from : List ℕ → ℕ → ℕ
trim_from line zero = 0
trim_from line (suc len) =
    let shorter = trim_from line len in if is_space (get_or line len 0) then shorter else suc len

abbrev string_length : List ℕ → ℕ
string_length [] = 0
string_length (c ∷ line) = suc (string_length line)

unfoldable pub trimmed_length : List ℕ → ℕ
trimmed_length line = trim_from line (string_length line)

-- The decoding loop over `byte_count` pairs of characters.
unfoldable pub decode_bytes : ℕ → List ℕ → Option (List ℕ)
decode_bytes zero body = some []
decode_bytes (suc left) (c ∷ d ∷ body) =
    let rest = decode_bytes left body in
    elim (decode_byte c d) [
      | none ↦ none
      | some b ↦ elim rest [ none ↦ none | some bytes ↦ some (b ∷ bytes) ]
    ]
decode_bytes (suc left) body = none

-- The checksum loop.
unfoldable pub sum_bytes : ℕ → List ℕ → ℕ
sum_bytes sum [] = sum
sum_bytes sum (b ∷ bytes) = sum_bytes (u8 (sum + b)) bytes

unfoldable pub apply_extension : Parser → HexRecord → Parser × HexResult
apply_extension p r =
    if r.length == 2
    then (let value = bit_or (get_or r.payload 0 0 * 2 ^ 8) (get_or r.payload 1 0) in
        if r.type == record_extended_linear
        then (record p { address_base = shl32 value 16 }, HexResult.ok)
        else if r.type == record_extended_segment
        then (record p { address_base = shl32 value 4 }, HexResult.ok)
        else (p, HexResult.unknown_type))
    else (p, HexResult.malformed_record)

pub apply_start_address : Parser → HexRecord → Parser × HexResult
apply_start_address p r =
    if r.length == 4
    then (
      record p {
        start_address =
            bit_or
              (bit_or (bit_or (shl32 (get_or r.payload 0 0) 24) (shl32 (get_or r.payload 1 0) 16))
                (shl32 (get_or r.payload 2 0) 8))
              (get_or r.payload 3 0);
        have_start_address = true;
      },
      HexResult.ok,
    )
    else (p, HexResult.malformed_record)

-- What a call leaves: the parser, the record if `*record` was written, and the result.
pub record Outcome : Type 0 where
  pub parser : Parser
  pub written : Option HexRecord
  pub result : HexResult

abbrev pub reject : Parser → HexResult → Outcome
reject p e = record { parser = p; written = none; result = e }

abbrev pub finish : HexRecord → Parser × HexResult → Outcome
finish r (p, e) = record { parser = p; written = some r; result = e }

-- `*record` as it is filled before the switch on its type.
abbrev pub blank_record : List ℕ → HexRecord
blank_record bytes = record {
  type = get_or bytes 3 0;
  address = 0;
  payload = blit (replicate max_record_data 0) 0 (take (get_or bytes 0 0) (drop 4 bytes));
  length = get_or bytes 0 0;
}

abbrev pub offset_of : List ℕ → ℕ
offset_of bytes = u16 (bit_or (get_or bytes 1 0 * 2 ^ 8) (get_or bytes 2 0))

-- The switch on the type, for a frame that has passed every check.
unfoldable pub accept : Parser → List ℕ → Outcome
accept p bytes =
    let r = blank_record bytes in
    let type = get_or bytes 3 0 in
    if type == record_data
    then finish (record r { address = add32 p.address_base (offset_of bytes) }) (p, HexResult.ok)
    else if type == record_eof
    then (if r.length == 0
        then finish r (record p { seen_eof = true }, HexResult.ok)
        else finish r (p, HexResult.malformed_record))
    else if type == record_extended_segment || type == record_extended_linear
    then finish r (apply_extension p r)
    else if type == record_start_segment || type == record_start_linear
    then finish r (apply_start_address p r)
    else finish r (p, HexResult.unknown_type)

-- The checks on the decoded bytes.
unfoldable pub check_frame : Parser → ℕ → List ℕ → Outcome
check_frame p byte_count bytes =
    if not (byte_count == get_or bytes 0 0 + frame_bytes)
    then reject p HexResult.bad_length
    else if not (sum_bytes 0 bytes == 0)
    then reject p HexResult.bad_checksum
    else if p.seen_eof
    then reject p HexResult.after_eof
    else accept p bytes

-- From the character behind the colon.
unfoldable pub feed_body : Parser → List ℕ → Outcome
feed_body p body =
    let body_length = trimmed_length body in
    if ltb body_length (2 * frame_bytes) || not (body_length % 2 == 0)
    then reject p HexResult.bad_length
    else if ltb (frame_bytes + max_record_data) (body_length / 2)
    then reject p HexResult.bad_length
    else elim (decode_bytes (body_length / 2) body) [
      | none ↦ reject p HexResult.bad_character
      | some bytes ↦ check_frame p (body_length / 2) bytes
    ]

unfoldable pub feed_record : Parser → List ℕ → Outcome
feed_record p [] = reject p HexResult.no_start_code
feed_record p (c ∷ body) = if c == b':' then feed_body p body else reject p HexResult.no_start_code

-- `hex_parser_feed`; `none` is a NULL line.
unfoldable pub feed : Parser → Option (List ℕ) → Outcome
feed p none = reject p HexResult.invalid_arg
feed p (some line) = feed_record p (skip_space line)

pub is_complete : Parser → Bool
is_complete p = p.seen_eof
