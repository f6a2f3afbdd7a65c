-- ===== src/ServoProtocol.antt =====
-- components/servo_bus/servo_protocol.c and include/servo_protocol.h: packets to and from servos. A
-- buffer that is written is the list of its cells, and one that is read the list of its bytes;
-- `none` is a NULL pointer. `out` of servo_protocol_parse_status and `written` are not NULL.
pub mod Packet
pub mod Parse
pub mod Accepted
pub mod Values
pub mod Sent
mod Examples
use pico_framework.Base.{
  ℕ, zero, suc, ◌+◌, ◌-◌, ◌*◌, Bool, true, false, Option, none, some, List, [], ◌∷◌, ◌++◌, ltb, leb,
  ◌==◌, if◌then◌else◌, ◌&&◌, ◌||◌, not, length, get_or, take, drop, set, blit, shl32, shr, u8,
  bit_or,
}

abbrev pub broadcast_id : ℕ
broadcast_id = 0xFE

abbrev pub max_params : ℕ
max_params = 128

abbrev pub overhead : ℕ
overhead = 6

abbrev pub header_byte : ℕ
header_byte = 0xFF

abbrev pub length_minimum : ℕ
length_minimum = 2

-- `servo_instruction_t`
abbrev pub inst_ping : ℕ
inst_ping = 1

abbrev pub inst_read : ℕ
inst_read = 2

abbrev pub inst_write : ℕ
inst_write = 3

abbrev pub inst_sync_write : ℕ
inst_sync_write = 0x83

-- `servo_endianness_t`
pub data Endianness : Type 0 where
  little big : Endianness

-- `servo_protocol_result_t`
pub data ServoResult : Type 0 where
  ok invalid_arg buffer_too_small too_many_params bad_header incomplete bad_checksum : ServoResult

-- `servo_status_packet_t`, with the bytes that `params` points at; `none` is NULL.
pub record Status : Type 0 where
  pub id : ℕ
  pub error : ℕ
  pub params : Option (List ℕ)
  pub param_count : ℕ
  pub packet_size : ℕ

-- `servo_sync_target_t`
pub record Target : Type 0 where
  pub id : ℕ
  pub value : ℕ

abbrev pub packet_size : ℕ → ℕ
packet_size param_count = param_count + overhead

-- The loop of `servo_protocol_checksum`.
pub sum_bytes : ℕ → List ℕ → ℕ
sum_bytes sum [] = sum
sum_bytes sum (b ∷ bytes) = sum_bytes (u8 (sum + b)) bytes

-- `~sum` of a byte is what it lacks to 255.
pub checksum : Option (List ℕ) → ℕ
checksum none = 0
checksum (some bytes) = 255 - sum_bytes 0 bytes

-- What a call leaves: the buffer, `*written`, and the result.
pub record Built : Type 0 where
  pub out : Option (List ℕ)
  pub written : ℕ
  pub result : ServoResult

abbrev pub fail : Option (List ℕ) → ServoResult → Built
fail out e = record { out = out; written = 0; result = e }

abbrev pub absent : Option (List ℕ) → Bool
absent none = true
absent (some bytes) = false

abbrev pub bytes_of : Option (List ℕ) → List ℕ
bytes_of none = []
bytes_of (some bytes) = bytes

-- The writes of `servo_protocol_build` into a buffer with room for them.
pub write_packet : List ℕ → ℕ → ℕ → List ℕ → ℕ → List ℕ
unfolding checksum
write_packet out id instruction params param_count =
    let size = packet_size param_count in
    let header =
      set
        (set (set (set (set out 0 header_byte) 1 header_byte) 2 id) 3
          (u8 (param_count + length_minimum)))
        4 instruction in
    let filled = if ltb 0 param_count then blit header 5 (take param_count params) else header in
    set filled (size - 1) (checksum (some (take (size - 1 - 2) (drop 2 filled))))

pub build : Option (List ℕ) → ℕ → ℕ → ℕ → Option (List ℕ) → ℕ → Built
build none capacity id instruction params param_count = fail none ServoResult.invalid_arg
build (some out) capacity id instruction params param_count =
    if absent params && ltb 0 param_count
    then fail (some out) ServoResult.invalid_arg
    else if ltb max_params param_count
    then fail (some out) ServoResult.too_many_params
    else if ltb capacity (packet_size param_count)
    then fail (some out) ServoResult.buffer_too_small
    else record {
      out = some (write_packet out id instruction (bytes_of params) param_count);
      written = packet_size param_count;
      result = ServoResult.ok;
    }

pub build_ping : Option (List ℕ) → ℕ → ℕ → Built
build_ping out capacity id = build out capacity id inst_ping none 0

pub build_read : Option (List ℕ) → ℕ → ℕ → ℕ → ℕ → Built
build_read out capacity id reg count =
    if count == 0
    then fail out ServoResult.invalid_arg
    else build out capacity id inst_read (some (reg ∷ count ∷ [])) 2

pub build_write : Option (List ℕ) → ℕ → ℕ → ℕ → Option (List ℕ) → ℕ → Built
build_write out capacity id reg values count =
    if absent values || count == 0
    then fail out ServoResult.invalid_arg
    else if ltb max_params (count + 1)
    then fail out ServoResult.too_many_params
    else build out capacity id inst_write (some (reg ∷ take count (bytes_of values)))
        (u8 (count + 1))

abbrev pub is_width : ℕ → Bool
is_width width = width == 1 || width == 2 || width == 4

-- The bytes that the loop of `servo_protocol_encode_value` takes from the `i`-th on.
pub low_bytes : ℕ → ℕ → ℕ → List ℕ
low_bytes zero i value = []
low_bytes (suc left) i value = u8 (shr value (8 * i)) ∷ low_bytes left (i + 1) value

-- `out[width - 1 - i]`: the last byte first.
pub backwards : List ℕ → List ℕ → List ℕ
backwards [] acc = acc
backwards (b ∷ bytes) acc = backwards bytes (b ∷ acc)

-- The bytes that `servo_protocol_encode_value` stores at `out`, none for a bad width.
pub encode_value : ℕ → ℕ → Endianness → List ℕ
encode_value value width Endianness.little = if is_width width then low_bytes width 0 value else []
encode_value value width Endianness.big =
    if is_width width then backwards (low_bytes width 0 value) [] else []

-- The loop of `servo_protocol_decode_value` over the bytes from the `i`-th on, the lowest first.
pub join_bytes : ℕ → ℕ → List ℕ → ℕ
join_bytes i value [] = value
join_bytes i value (b ∷ bytes) = join_bytes (i + 1) (bit_or value (shl32 b (8 * i))) bytes

pub decode_value : Option (List ℕ) → ℕ → Endianness → ℕ
decode_value none width order = 0
decode_value (some bytes) width Endianness.little =
    if is_width width then join_bytes 0 0 (take width bytes) else 0
decode_value (some bytes) width Endianness.big =
    if is_width width then join_bytes 0 0 (backwards (take width bytes) []) else 0

pub build_write_value : Option (List ℕ) → ℕ → ℕ → ℕ → ℕ → ℕ → Endianness → Built
build_write_value out capacity id reg value width order =
    if not (is_width width)
    then fail out ServoResult.invalid_arg
    else build_write out capacity id reg (some (encode_value value width order)) width

pub sync_write_params : ℕ → ℕ → ℕ
sync_write_params width count = 2 + (width + 1) * count

-- The loop of `servo_protocol_build_sync_write`.
pub sync_params : ℕ → Endianness → List Target → List ℕ
sync_params width order [] = []
sync_params width order (t ∷ targets) =
    t.id ∷ (encode_value t.value width order ++ sync_params width order targets)

-- `count` is the length of the list of targets, at most 255.
pub build_sync_write : Option (List ℕ) → ℕ → ℕ → ℕ → Option (List Target) → Endianness → Built
build_sync_write out capacity reg width none order = fail out ServoResult.invalid_arg
build_sync_write out capacity reg width (some targets) order =
    if absent out || length targets == 0
    then fail out ServoResult.invalid_arg
    else if not (is_width width)
    then fail out ServoResult.invalid_arg
    else if ltb max_params (sync_write_params width (length targets))
    then fail out ServoResult.too_many_params
    else build out capacity broadcast_id inst_sync_write
        (some (reg ∷ width ∷ sync_params width order targets))
        (u8 (sync_write_params width (length targets)))

-- `*out` as it is zeroed.
abbrev pub blank : Status
blank = record { id = 0; error = 0; params = none; param_count = 0; packet_size = 0 }

-- `servo_protocol_parse_status` from the length byte on.
pub parse_body : List ℕ → ℕ → Status × ServoResult
unfolding checksum
parse_body bytes param_count =
    let size = packet_size param_count in
    if ltb max_params param_count
    then (blank, ServoResult.too_many_params)
    else if ltb (length bytes) size
    then (blank, ServoResult.incomplete)
    else if not (checksum (some (take (size - 1 - 2) (drop 2 bytes))) == get_or bytes (size - 1) 0)
    then (blank, ServoResult.bad_checksum)
    else (
      record {
        id = get_or bytes 2 0;
        error = get_or bytes 4 0;
        params = if ltb 0 param_count then some (take param_count (drop 5 bytes)) else none;
        param_count = param_count;
        packet_size = size;
      },
      ServoResult.ok,
    )

pub parse_status : Option (List ℕ) → Status × ServoResult
parse_status none = (blank, ServoResult.invalid_arg)
parse_status (some bytes) =
    if ltb (length bytes) 2
    then (blank, ServoResult.incomplete)
    else if not (get_or bytes 0 0 == header_byte) || not (get_or bytes 1 0 == header_byte)
    then (blank, ServoResult.bad_header)
    else if leb (length bytes) 3
    then (blank, ServoResult.incomplete)
    else if ltb (get_or bytes 3 0) length_minimum
    then (blank, ServoResult.bad_header)
    else parse_body bytes (get_or bytes 3 0 - length_minimum)
