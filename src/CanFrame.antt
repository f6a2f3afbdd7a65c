-- ===== src/CanFrame.antt =====
-- components/can_frame: identifiers, acceptance filters and the frame queue of can_frame.c and
-- include/can_frame.h, over the ring buffer. Identifiers are `uint32_t`.
pub mod Codec
mod Examples
use pico_framework.Base.{
  ℕ, zero, suc, ◌+◌, ◌-◌, ◌*◌, ◌/◌, ◌%◌, ◌^◌, Bool, true, false, Option, none, some, List, [], ◌∷◌,
  ltb, leb, ◌==◌, if◌then◌else◌, ◌&&◌, ◌||◌, not, get_or, take, drop, blit, replicate, add32, shl32,
  shr, u8, bit_and, bit_or,
}
use pico_framework.RingBuffer.{Ring, capacity, count, free, write, read, clear}
use pico_framework.RingBuffer

abbrev pub max_data_length : ℕ
max_data_length = 8

abbrev pub standard_id_max : ℕ
standard_id_max = 0x7FF

abbrev pub extended_id_max : ℕ
extended_id_max = 0x1FFFFFFF

abbrev pub flag_rtr : ℕ
flag_rtr = 2 ^ 30

abbrev pub flag_extended : ℕ
flag_extended = 2 ^ 31

-- `can_message_t`
pub record Message : Type 0 where
  pub id : ℕ
  pub length : ℕ
  pub extended : Bool
  pub remote : Bool
  pub payload : List ℕ

-- `can_filter_t`
pub record Filter : Type 0 where
  pub id : ℕ
  pub mask : ℕ

pub id_is_extended : ℕ → Bool
id_is_extended packed = not (bit_and packed flag_extended == 0)

pub id_is_remote : ℕ → Bool
id_is_remote packed = not (bit_and packed flag_rtr == 0)

pub id_value : ℕ → ℕ
id_value packed =
    if id_is_extended packed then bit_and packed extended_id_max else bit_and packed standard_id_max

pub id_pack : ℕ → Bool → Bool → ℕ
id_pack id extended remote =
    let value = if extended then bit_and id extended_id_max else bit_and id standard_id_max in
    let kind = if extended then bit_or value flag_extended else value in
    if remote then bit_or kind flag_rtr else kind

pub id_is_valid : ℕ → Bool → Bool
id_is_valid id extended = leb id (if extended then extended_id_max else standard_id_max)

-- `none` is a NULL message.
pub message_is_valid : Option Message → Bool
message_is_valid none = false
message_is_valid (some m) = leb m.length max_data_length && id_is_valid m.id m.extended

pub dlc_to_length : ℕ → ℕ
dlc_to_length dlc = if ltb max_data_length dlc then max_data_length else u8 dlc

pub filter_matches : Option Filter → ℕ → Bool
filter_matches none packed = false
filter_matches (some filter) packed = bit_and packed filter.mask == bit_and filter.id filter.mask

pub any_matches : List Filter → ℕ → Bool
any_matches [] packed = false
any_matches (filter ∷ filters) packed =
    if filter_matches (some filter) packed then true else any_matches filters packed

-- `none` is a NULL array; `count` is the length of the list.
pub filters_accept : Option (List Filter) → ℕ → Bool
filters_accept none packed = true
filters_accept (some []) packed = true
filters_accept (some (filter ∷ filters)) packed = any_matches (filter ∷ filters) packed

abbrev pub record_size : ℕ
record_size = 16

-- `can_queue_t`
pub record Queue : Type 0 where
  pub buffer : Ring
  pub dropped : ℕ
  pub initialised : Bool

-- The record that `can_queue_push` builds.
pub encode : Message → List ℕ
encode m =
    u8 m.id
    ∷ u8 (shr m.id 8)
    ∷ u8 (shr m.id 16)
    ∷ u8 (shr m.id 24)
    ∷ m.length
    ∷ bit_or (if m.extended then 1 else 0) (if m.remote then 2 else 0)
    ∷ blit (replicate 10 0) 0 (if not m.remote then take m.length m.payload else [])

-- The message that `can_queue_pop` reads from a record.
pub decode : List ℕ → Message
unfolding dlc_to_length
decode bytes =
    let length = dlc_to_length (get_or bytes 4 0) in
    record {
      id =
          bit_or
            (bit_or (bit_or (get_or bytes 0 0) (shl32 (get_or bytes 1 0) 8))
              (shl32 (get_or bytes 2 0) 16))
            (shl32 (get_or bytes 3 0) 24);
      length = length;
      extended = not (bit_and (get_or bytes 5 0) 1 == 0);
      remote = not (bit_and (get_or bytes 5 0) 2 == 0);
      payload = blit (replicate max_data_length 0) 0 (take length (drop 6 bytes));
    }

-- The queue, where `can_queue_init` gives `true`.
pub queue_init : Option (List ℕ) → ℕ → Option Queue
queue_init storage size = elim (RingBuffer.init storage size) [
  | none ↦ none
  | some buffer ↦
      if ltb (capacity buffer) record_size
      then none
      else some (record { buffer = buffer; dropped = 0; initialised = true })
]

pub queue_push : Queue → Option Message → Queue × Bool
queue_push queue none = (queue, false)
queue_push queue (some m) =
    if not queue.initialised || not (message_is_valid (some m))
    then (queue, false)
    else if ltb (free queue.buffer) record_size
    then (record queue { dropped = add32 queue.dropped 1 }, false)
    else (let (buffer, written) = write (queue.buffer) (some (encode m)) record_size in
        (record queue { buffer = buffer }, written == record_size))

pub queue_pop : Queue → Queue × Option Message
queue_pop queue =
    if not queue.initialised
    then (queue, none)
    else if ltb (count queue.buffer) record_size
    then (queue, none)
    else (let (buffer, bytes, taken) = read (queue.buffer) record_size in
        (
          record queue { buffer = buffer },
          if taken == record_size then some (decode bytes) else none,
        ))

pub queue_count : Queue → ℕ
queue_count queue = if not queue.initialised then 0 else count queue.buffer / record_size

pub queue_capacity : Queue → ℕ
queue_capacity queue = if not queue.initialised then 0 else capacity queue.buffer / record_size

pub queue_clear : Queue → Queue
queue_clear queue =
    if queue.initialised then record queue { buffer = clear queue.buffer } else queue
