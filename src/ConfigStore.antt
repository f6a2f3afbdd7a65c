-- ===== src/ConfigStore.antt =====
-- components/persistent_config/config_store.c and include/config_store.h: named values packed into
-- one buffer. A key is the text before its NUL; `none` stands for a NULL key, value or buffer. The
-- handle and the pointer to a value that a number is read into are not NULL.

pub mod Values
pub mod Image
pub mod Find
pub mod Splice
pub mod Entries
pub mod Set
pub mod Get
pub mod Load
pub mod Walks
mod Examples
use pico_framework.Base.{
  ℕ, zero, suc, ◌+◌, ◌-◌, ◌*◌, ◌/◌, ◌%◌, ◌^◌, Bool, true, false, Option, none, some, List, [], ◌∷◌,
  ltb, leb, ◌==◌, if◌then◌else◌, ◌&&◌, ◌||◌, not, length, get_or, take, drop, set, blit, add32,
  sub32, shl32, shr, u8, bit_or,
}

abbrev pub max_key_length : ℕ
max_key_length = 31

abbrev pub max_value_length : ℕ
max_value_length = 255

-- `CONFIG_RECORD_SIZE`, of two bytes.
abbrev pub record_size : ℕ → ℕ → ℕ
record_size key_length value_length = key_length + value_length + 2

-- `config_result_t`
pub data ConfigResult : Type 0 where
  ok invalid_arg key_too_long value_too_long full not_found too_small corrupt : ConfigResult

-- `config_store_t`
pub record Store : Type 0 where
  pub buffer : List ℕ
  pub capacity : ℕ
  pub used : ℕ
  pub initialised : Bool

-- `memcmp(…) == 0` on runs of one length.
pub same_bytes : List ℕ → List ℕ → Bool
same_bytes [] [] = true
same_bytes [] (y ∷ ys) = false
same_bytes (x ∷ xs) [] = false
same_bytes (x ∷ xs) (y ∷ ys) = x == y && same_bytes xs ys

-- The result for an unusable key.
pub check_key : Option (List ℕ) → ConfigResult
check_key none = ConfigResult.invalid_arg
check_key (some []) = ConfigResult.invalid_arg
check_key (some (c ∷ key)) =
    if ltb max_key_length (length (c ∷ key)) then ConfigResult.key_too_long else ConfigResult.ok

-- `result == CONFIG_OK`
abbrev pub is_ok : ConfigResult → Bool
is_ok ConfigResult.ok = true
is_ok ConfigResult.invalid_arg = false
is_ok ConfigResult.key_too_long = false
is_ok ConfigResult.value_too_long = false
is_ok ConfigResult.full = false
is_ok ConfigResult.not_found = false
is_ok ConfigResult.too_small = false
is_ok ConfigResult.corrupt = false

-- The loop of `find_record` from `at` on: the offset, and whether the key was found there.
pub find_from : ℕ → List ℕ → ℕ → List ℕ → ℕ → ℕ × Bool
find_from zero buffer used key at = (used, false)
find_from (suc fuel) buffer used key at =
    let record_key = get_or buffer at 0 in
    let record_value = get_or buffer (add32 at 1) 0 in
    let rest = find_from fuel buffer used key (add32 at (record_size record_key record_value)) in
    if not (ltb at used)
    then (used, false)
    else if record_key == length key
        && same_bytes (take (length key) (drop (add32 at 2) buffer)) key
    then (at, true)
    else rest

-- A round moves on by two bytes at least, so `used` rounds are enough.
pub find_record : Store → List ℕ → ℕ × Bool
find_record store key = find_from (store.used) (store.buffer) (store.used) key 0

-- The store that is set up, and `config_store_init`'s result.
pub store_init : Option (List ℕ) → ℕ → Option Store × ConfigResult
store_init none capacity = (none, ConfigResult.invalid_arg)
store_init (some buffer) capacity = if capacity == 0 then (none, ConfigResult.invalid_arg) else (
  some (record { buffer = buffer; capacity = capacity; used = 0; initialised = true }),
  ConfigResult.ok,
)

-- The loop of `config_store_load` from `at` on: whether the records parse exactly to `used`.
pub walk : ℕ → List ℕ → ℕ → ℕ → Bool
walk zero buffer used at = not (ltb at used)
walk (suc fuel) buffer used at =
    let key_length = get_or buffer at 0 in
    let value_length = get_or buffer (add32 at 1) 0 in
    let size = record_size key_length value_length in
    let rest = walk fuel buffer used (add32 at size) in
    if not (ltb at used)
    then true
    else if ltb (sub32 used at) 2
    then false
    else if key_length == 0 || ltb max_key_length key_length
    then false
    else if ltb (sub32 used at) size
    then false
    else rest

-- `config_store_load`, on a buffer that `config_store_init` takes.
pub load_into : Store → ℕ → Store × ConfigResult
load_into store used =
    if ltb store.capacity used
    then (store, ConfigResult.corrupt)
    else if walk used (store.buffer) used 0
    then (record store { used = used }, ConfigResult.ok)
    else (store, ConfigResult.corrupt)

pub store_load : Option (List ℕ) → ℕ → ℕ → Option Store × ConfigResult
store_load buffer capacity used =
    let (started, result) = store_init buffer capacity in
    elim started [
      | none ↦ (none, result)
      | some store ↦ let (store', loaded) = load_into store used in (some store', loaded)
    ]

pub store_free : Store → ℕ
store_free store = sub32 store.capacity store.used

-- The four writes that end `config_set`.
pub write_record : List ℕ → ℕ → List ℕ → ℕ → List ℕ → List ℕ
write_record buffer offset key size bytes =
    let header = set (set buffer offset (length key)) (add32 offset 1) size in
    let named = blit header (add32 offset 2) key in blit named (add32 offset (2 + length key)) bytes

-- `config_set` once the record was searched, with the bytes of the value.
pub set_at : Store → List ℕ → ℕ → List ℕ → ℕ × Bool → Store × ConfigResult
set_at store key size bytes (offset, true) =
    let wanted = record_size (length key) size in
    let existing =
      record_size (get_or store.buffer offset 0) (get_or store.buffer (add32 offset 1) 0) in
    let tail_at = add32 offset existing in
    let tail = sub32 store.used tail_at in
    if ltb existing wanted && ltb (store_free store) (sub32 wanted existing)
    then (store, ConfigResult.full)
    else (
      record store {
        buffer =
            write_record
              (blit store.buffer (add32 offset wanted) (take tail (drop tail_at store.buffer)))
              offset key size bytes;
        used = add32 (sub32 store.used existing) wanted;
      },
      ConfigResult.ok,
    )
set_at store key size bytes (offset, false) =
    let wanted = record_size (length key) size in
    if ltb (store_free store) wanted then (store, ConfigResult.full) else (
      record store {
        buffer = write_record (store.buffer) offset key size bytes;
        used = add32 store.used wanted;
      },
      ConfigResult.ok,
    )

-- `!store->initialised`, and then the key that is not usable.
abbrev pub refused : Store → Option (List ℕ) → Bool
refused store key = not store.initialised || not (is_ok (check_key key))

abbrev pub refusal : Store → Option (List ℕ) → ConfigResult
refusal store key = if not store.initialised then ConfigResult.invalid_arg else check_key key

abbrev pub text : Option (List ℕ) → List ℕ
text none = []
text (some key) = key

pub config_set : Store → Option (List ℕ) → Option (List ℕ) → ℕ → Store × ConfigResult
config_set store key value size =
    if refused store key then (store, refusal store key) else elim value [
      | none ↦
          if ltb 0 size
          then (store, ConfigResult.invalid_arg)
          else set_at store (text key) size [] (find_record store (text key))
      | some bytes ↦ set_at store (text key) size (take size bytes) (find_record store (text key))
    ]

-- What `config_get` leaves: what it wrote to `*length` and to `value`, if anything, and its result.
pub record Got : Type 0 where
  pub size : Option ℕ
  pub copied : Option (List ℕ)
  pub result : ConfigResult

-- `config_get` once the record was searched; `wanted` says that `value` is not NULL.
pub get_at : Store → List ℕ → Bool → ℕ → ℕ × Bool → Got
get_at store key wanted capacity (offset, false) = record {
  size = some 0;
  copied = none;
  result = ConfigResult.not_found;
}
get_at store key wanted capacity (offset, true) =
    let value_length = get_or store.buffer (add32 offset 1) 0 in
    if ltb capacity value_length
    then record { size = some value_length; copied = none; result = ConfigResult.too_small }
    else record {
      size = some value_length;
      copied =
          if wanted && ltb 0 value_length
          then some (take value_length (drop (add32 offset (2 + length key)) store.buffer))
          else none;
      result = ConfigResult.ok;
    }

pub config_get : Store → Option (List ℕ) → Bool → ℕ → Got
config_get store key wanted capacity =
    if refused store key
    then record { size = none; copied = none; result = refusal store key }
    else get_at store (text key) wanted capacity (find_record store (text key))

pub remove_at : Store → ℕ × Bool → Store × ConfigResult
remove_at store (offset, false) = (store, ConfigResult.not_found)
remove_at store (offset, true) =
    let size =
      record_size (get_or store.buffer offset 0) (get_or store.buffer (add32 offset 1) 0) in
    let tail = sub32 (sub32 store.used offset) size in
    (
      record store {
        buffer = blit store.buffer offset (take tail (drop (add32 offset size) store.buffer));
        used = sub32 store.used size;
      },
      ConfigResult.ok,
    )

pub config_remove : Store → Option (List ℕ) → Store × ConfigResult
config_remove store key =
    if refused store key
    then (store, refusal store key)
    else remove_at store (find_record store (text key))

pub config_clear : Store → Store
config_clear store = if store.initialised then record store { used = 0 } else store
