-- ===== src/ConfigStore/Values/Typed.antt =====
-- config_store.c: numbers and texts as values.
use pico_framework.Base.{
  ℕ, ◌+◌, ◌-◌, ◌^◌, ◌≤◌, ◌<◌, ◌≡◌, refl, ap, ◌∙◌, Bool, true, false, Option, some, List, [], ◌∷◌,
  arith, length, ◌==◌, if◌then◌else◌, not, ltb, ltb→lt, Bool-cases, inl, inr, u8, sub32,
}
use pico_framework.ConfigStore.{Store, ConfigResult, Got, text, is_ok, config_get, config_set}
use pico_framework.ConfigStore.Values.{
  word_bytes, get_u32, set_u32, get_string, set_string, size_of, is_not_found,
}
use pico_framework.ConfigStore.Image.{Entry}
use pico_framework.ConfigStore.Entries.{Represents, IsKey, lookup, insert, lookup-insert_self}
use pico_framework.ConfigStore.Set.{config_set_lem}
use pico_framework.ConfigStore.Get.{answer, config_get_lem}
use pico_framework.Base.Bits.Or.{word_assembled}

-- A value that was stored is read back, if it fits.
get_after_set :
    (s : Store) (es : List Entry) (key value : List ℕ) (wanted : Bool) (capacity : ℕ)
    → Represents s es
    → IsKey key
    → length value ≤ 255
    → (config_set s (some key) (some value) (length value)).1 ≡ ConfigResult.ok
    → config_get (config_set s (some key) (some value) (length value)).0 (some key) wanted capacity
      ≡ answer wanted capacity (some value)
get_after_set s es key value wanted capacity r key_ok short done =
    elim (config_set_lem s es key value r key_ok short) [
      | inl st ↦
          config_get_lem (config_set s (some key) (some value) (length value)).0
            (insert key value es) key wanted capacity st.1 key_ok
          ∙ ap (answer wanted capacity) (lookup-insert_self key value es)
      | inr full ↦ absurd (cc)
    ]

-- A number that was stored is read back, whatever the default.
pub get_u32-set_u32 :
    (s : Store) (es : List Entry) (key : List ℕ) (value fallback : ℕ)
    → Represents s es
    → IsKey key
    → value < 2 ^ 32
    → (set_u32 s (some key) value).1 ≡ ConfigResult.ok
    → get_u32 (set_u32 s (some key) value).0 (some key) fallback ≡ (value, ConfigResult.ok)
unfolding set_u32 get_u32
get_u32-set_u32 s es key value fallback r key_ok small done =
    let bytes = word_bytes value in
    let probe = get_after_set s es key bytes false 0 r key_ok (omega arith) done in
    let got = get_after_set s es key bytes true 4 r key_ok (omega arith) done in
    rw (probe, got) (ap (λ w. (w, ConfigResult.ok)) (word_assembled value small))

-- What reading a text comes to once its key is found and its length fits.
read_text : Got → Option (List ℕ) × ConfigResult
read_text got =
    if not (is_ok got.result)
    then (some [], got.result)
    else (some (text got.copied), ConfigResult.ok)

answer_found :
    (wanted : Bool) (capacity : ℕ) (value : List ℕ)
    → (is_not_found (answer wanted capacity (some value)).result ≡ false)
      × (size_of (answer wanted capacity (some value)) ≡ length value)
answer_found wanted capacity value = elim (Bool-cases (ltb capacity (length value))) [
  | inl over ↦ rw over (refl, refl)
  | inr fits ↦ rw fits (refl, refl)
]

-- A text that fits is copied whole.
read_text_fits :
    (capacity : ℕ) (value : List ℕ)
    → length value ≤ capacity
    → read_text (answer true capacity (some value)) ≡ (some value, ConfigResult.ok)
unfolding read_text
read_text_fits capacity [] h = let fits : ltb capacity 0 ≡ false = ground arith in rw fits
read_text_fits capacity (c ∷ value) h =
    let fits : ltb capacity (length (c ∷ value)) ≡ false = ground arith in
    let filled : ltb 0 (length (c ∷ value)) ≡ true = ground arith in rw (fits, filled)

get_string_stored :
    (s : Store) (es : List Entry) (key value : List ℕ) (capacity : ℕ) (fallback : Option (List ℕ))
    → Represents s es
    → IsKey key
    → lookup key es ≡ some value
    → length value < capacity
    → get_string s (some key) true capacity fallback
      ≡ read_text (answer true (u8 (sub32 capacity 1)) (some value))
unfolding get_string read_text
get_string_stored s es key value capacity fallback r key_ok there room =
    let probe = config_get_lem s es key false 0 r key_ok ∙ ap (answer false 0) there in
    let got =
      config_get_lem s es key true (u8 (sub32 capacity 1)) r key_ok
      ∙ ap (answer true (u8 (sub32 capacity 1))) there in
    let some_room : (capacity == 0) ≡ false = ground arith in
    let fits : ltb capacity (length value + 1) ≡ false = ground arith in
    let known = answer_found false 0 value in rw (some_room, probe, known.0, known.1, fits, got)

-- A text that was stored is read back where it fits with its NUL, in a buffer of up to 256 bytes.
pub get_string-set_string :
    (s : Store) (es : List Entry) (key value : List ℕ) (capacity : ℕ) (fallback : Option (List ℕ))
    → Represents s es
    → IsKey key
    → length value < capacity
    → capacity ≤ 256
    → (set_string s (some key) (some value)).1 ≡ ConfigResult.ok
    → get_string (set_string s (some key) (some value)).0 (some key) true capacity fallback
      ≡ (some value, ConfigResult.ok)
unfolding set_string read_text
get_string-set_string s es key value capacity fallback r key_ok room small done =
    elim (Bool-cases (ltb 255 (length value))) [
      | inl long ↦ absurd (omega (arith, ltb→lt 255 (length value) long))
      | inr short ↦
          let size : u8 (length value) ≡ length value = omega arith in
          let s' = (config_set s (some key) (some value) (length value)).0 in
          let same : set_string s (some key) (some value)
              ≡ config_set s (some key) (some value) (length value) =
            rw (short, size) in
          rw same (elim (config_set_lem s es key value r key_ok (omega arith)) [
            | inl st ↦
                get_string_stored s' (insert key value es) key value capacity fallback st.1 key_ok
                  (lookup-insert_self key value es) room
                ∙ read_text_fits (u8 (sub32 capacity 1)) value (omega arith)
            | inr full ↦ absurd (ground (arith, done, same, full.0))
          ])
    ]

-- In a larger buffer the capacity that is handed on has lost its upper bits: a text that fits is
-- refused as too long wherever it exceeds what is left of the capacity, and the buffer is emptied.
pub get_string_wraps :
    (s : Store) (es : List Entry) (key value : List ℕ) (capacity : ℕ) (fallback : Option (List ℕ))
    → Represents s es
    → IsKey key
    → lookup key es ≡ some value
    → length value < capacity
    → capacity < 2 ^ 32
    → u8 (capacity - 1) < length value
    → get_string s (some key) true capacity fallback ≡ (some [], ConfigResult.too_small)
unfolding read_text
get_string_wraps s es key value capacity fallback r key_ok there room small lost =
    let over : ltb (u8 (sub32 capacity 1)) (length value) ≡ true = ground arith in
    get_string_stored s es key value capacity fallback r key_ok there room ∙ rw over
