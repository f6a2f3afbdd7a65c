-- ===== src/ConfigStore/Values.antt =====
-- config_store.c: the functions over config_get and config_set, and the enumeration of the keys.
pub mod Count
pub mod Typed
pub mod Run
use pico_framework.Base.{
  ℕ, zero, suc, ◌+◌, ◌-◌, ◌*◌, ◌/◌, ◌%◌, ◌^◌, Bool, true, false, Option, none, some, List, [], ◌∷◌,
  ltb, leb, ◌==◌, if◌then◌else◌, ◌&&◌, ◌||◌, not, length, get_or, take, drop, add32, sub32, shl32,
  shr, u8, bit_or,
}
use pico_framework.ConfigStore.{
  Store, ConfigResult, Got, is_ok, text, config_get, config_set, record_size, max_value_length,
}

-- The key is stored, whatever the length of its value.
abbrev pub is_there : ConfigResult → Bool
is_there ConfigResult.ok = true
is_there ConfigResult.too_small = true
is_there ConfigResult.invalid_arg = false
is_there ConfigResult.key_too_long = false
is_there ConfigResult.value_too_long = false
is_there ConfigResult.full = false
is_there ConfigResult.not_found = false
is_there ConfigResult.corrupt = false

-- `length`, which starts at 0.
abbrev pub size_of : Got → ℕ
size_of got = elim (got.size) [ none ↦ 0 | some n ↦ n ]

pub config_has : Store → Option (List ℕ) → Bool
config_has store key = is_there (config_get store key false 0).result

abbrev pub word_bytes : ℕ → List ℕ
word_bytes value = u8 value ∷ u8 (shr value 8) ∷ u8 (shr value 16) ∷ u8 (shr value 24) ∷ []

unfoldable pub set_u32 : Store → Option (List ℕ) → ℕ → Store × ConfigResult
set_u32 store key value = config_set store key (some (word_bytes value)) 4

-- The first test of `config_get_u32`.
abbrev pub is_refusal : ConfigResult → Bool
is_refusal ConfigResult.not_found = true
is_refusal ConfigResult.invalid_arg = true
is_refusal ConfigResult.key_too_long = true
is_refusal ConfigResult.ok = false
is_refusal ConfigResult.too_small = false
is_refusal ConfigResult.value_too_long = false
is_refusal ConfigResult.full = false
is_refusal ConfigResult.corrupt = false

abbrev pub word_of : List ℕ → ℕ
word_of bytes =
    bit_or
      (bit_or (bit_or (get_or bytes 0 0) (shl32 (get_or bytes 1 0) 8))
        (shl32 (get_or bytes 2 0) 16))
      (shl32 (get_or bytes 3 0) 24)

-- What `*value` holds in the end, and the result.
pub get_u32 : Store → Option (List ℕ) → ℕ → ℕ × ConfigResult
get_u32 store key fallback =
    let probe = config_get store key false 0 in
    if is_refusal probe.result
    then (fallback, probe.result)
    else if not (size_of probe == 4)
    then (fallback, ConfigResult.corrupt)
    else (let got = config_get store key true 4 in
        if not (is_ok got.result)
        then (fallback, got.result)
        else (word_of (text got.copied), ConfigResult.ok))

unfoldable pub set_string : Store → Option (List ℕ) → Option (List ℕ) → Store × ConfigResult
set_string store key none = (store, ConfigResult.invalid_arg)
set_string store key (some value) =
    if ltb max_value_length (length value)
    then (store, ConfigResult.value_too_long)
    else config_set store key (some value) (u8 (length value))

-- `probe == CONFIG_ERR_NOT_FOUND`
abbrev pub is_not_found : ConfigResult → Bool
is_not_found ConfigResult.not_found = true
is_not_found ConfigResult.ok = false
is_not_found ConfigResult.invalid_arg = false
is_not_found ConfigResult.key_too_long = false
is_not_found ConfigResult.value_too_long = false
is_not_found ConfigResult.full = false
is_not_found ConfigResult.too_small = false
is_not_found ConfigResult.corrupt = false

-- The text that `value` holds in the end, if it was written, and the result; `wanted` says that
-- `value` is not NULL.
pub get_string :
    Store → Option (List ℕ) → Bool → ℕ → Option (List ℕ) → Option (List ℕ) × ConfigResult
get_string store key wanted capacity fallback =
    let probe = config_get store key false 0 in
    if not wanted || capacity == 0
    then (none, ConfigResult.invalid_arg)
    else if is_not_found probe.result || ltb capacity (size_of probe + 1)
    then (
      some (
          take
            (if leb (length (text fallback) + 1) capacity
              then length (text fallback)
              else sub32 capacity 1)
            (text fallback)),
      if is_not_found probe.result then ConfigResult.not_found else ConfigResult.too_small,
    )
    else (let got = config_get store key true (u8 (sub32 capacity 1)) in
        if not (is_ok got.result)
        then (some [], got.result)
        else (some (text got.copied), ConfigResult.ok))

-- The loop of `config_count` from `at` on.
pub count_from : ℕ → List ℕ → ℕ → ℕ → ℕ
count_from zero buffer used at = 0
count_from (suc fuel) buffer used at =
    let rest =
      count_from fuel buffer used
        (add32 at (record_size (get_or buffer at 0) (get_or buffer (add32 at 1) 0))) in
    if not (ltb at used) then 0 else rest + 1

-- A round moves on by two bytes at least, so `used` rounds are enough.
pub config_count : Store → ℕ
config_count store =
    if not store.initialised then 0 else count_from (store.used) (store.buffer) (store.used) 0

-- The loop of `config_key_at`, where `left` is `index - seen`: the key, if it fits.
pub key_from : ℕ → List ℕ → ℕ → ℕ → ℕ → ℕ → Option (List ℕ)
key_from zero buffer used capacity left at = none
key_from (suc fuel) buffer used capacity left at =
    let key_length = get_or buffer at 0 in
    let rest =
      key_from fuel buffer used capacity (left - 1)
        (add32 at (record_size key_length (get_or buffer (add32 at 1) 0))) in
    if not (ltb at used)
    then none
    else if left == 0
    then (if ltb capacity (key_length + 1)
        then none
        else some (take key_length (drop (add32 at 2) buffer)))
    else rest

pub config_key_at : Store → ℕ → ℕ → Option (List ℕ)
config_key_at store index capacity =
    if not store.initialised || capacity == 0
    then none
    else key_from (store.used) (store.buffer) (store.used) capacity index 0
