-- ===== src/ConfigStore/Examples.antt =====
-- config_store.c on small buffers.
use pico_framework.Base.{ℕ, ◌≡◌, refl, true, some, none, List, [], ◌∷◌, arith, replicate}
use pico_framework.ConfigStore.{
  Store, ConfigResult, set_at, config_set, find_record, find_from, check_key, store_free,
  same_bytes, store_load, walk,
}
use pico_framework.ConfigStore.Image.{Entry}
use pico_framework.ConfigStore.Entries.{Represents}
use pico_framework.ConfigStore.Load.{blank, Loads, store_load_lem}
use pico_framework.ConfigStore.Walks.{Walks, walk-Walks}
use pico_framework.ConfigStore.Values.{set_u32, get_u32, set_string, get_string}
use pico_framework.ConfigStore.Values.Typed.{
  get_u32-set_u32, get_string-set_string, get_string_wraps,
}
use pico_framework.ConfigStore.Values.Run.{Call, run, run_spec, store_refines}

abbrev small : Store
small = blank (replicate 16 0) 16

small-Represents : Represents small []
small-Represents = record {
  rest = replicate 16 0;
  holds = refl;
  counts = refl;
  whole = refl;
  small = omega arith;
  ready = refl;
  entries = tt;
}

-- The key "a", set twice, and a value that does not fit.
abbrev calls : List Call
calls =
    Call.set (some (b'a' ∷ [])) (1 ∷ 2 ∷ [])
    ∷ Call.set (some (b'a' ∷ [])) (3 ∷ [])
    ∷ Call.get (some (b'a' ∷ [])) true 4
    ∷ Call.set (some (b'b' ∷ [])) (replicate 10 7)
    ∷ Call.remove (some (b'a' ∷ []))
    ∷ Call.count
    ∷ []

store_refines_example : run small calls ≡ run_spec 16 [] calls
store_refines_example = store_refines calls small [] small-Represents (omega arith)

-- One record of the key "a", and a byte behind it.
abbrev loaded : List ℕ
loaded = 1 ∷ 1 ∷ b'a' ∷ 5 ∷ 9 ∷ []

store_load_lem_example : Loads loaded 5 4 (store_load (some loaded) 5 4)
store_load_lem_example = store_load_lem loaded 5 4 (omega arith) refl (omega arith) (omega arith)

walk-Walks_example : Walks loaded 5 0 (walk 5 loaded 5 0)
walk-Walks_example = walk-Walks 5 loaded 5 0 (omega arith) (omega arith)

get_u32-set_u32_example :
    get_u32 (set_u32 small (some (b'n' ∷ [])) 70000).0 (some (b'n' ∷ [])) 1
    ≡ (70000, ConfigResult.ok)
unfolding set_u32 config_set set_at find_record find_from check_key store_free
get_u32-set_u32_example =
    get_u32-set_u32 small [] (b'n' ∷ []) 70000 1 small-Represents (omega arith) (omega arith) refl

get_string-set_string_example :
    get_string
      (set_string small (some (b'n' ∷ [])) (some (b'h' ∷ b'i' ∷ []))).0
      (some (b'n' ∷ []))
      true
      3
      none
    ≡ (some (b'h' ∷ b'i' ∷ []), ConfigResult.ok)
unfolding set_string config_set set_at find_record find_from check_key store_free
get_string-set_string_example =
    get_string-set_string small [] (b'n' ∷ []) (b'h' ∷ b'i' ∷ []) 3 none small-Represents
      (omega arith) (omega arith) (omega arith) refl

abbrev one : Store
one = record { buffer = loaded; capacity = 5; used = 4; initialised = true }

abbrev one_entry : List Entry
one_entry = record { key = b'a' ∷ []; value = 5 ∷ [] } ∷ []

one-Represents : Represents one one_entry
one-Represents = record {
  rest = 9 ∷ [];
  holds = refl;
  counts = refl;
  whole = refl;
  small = omega arith;
  ready = refl;
  entries =
      (record { key_some = omega arith; key_short = omega arith; value_short = omega arith }, tt);
}

get_string_wraps_example :
    get_string one (some (b'a' ∷ [])) true 257 none ≡ (some [], ConfigResult.too_small)
unfolding same_bytes
get_string_wraps_example =
    get_string_wraps one one_entry (b'a' ∷ []) (5 ∷ []) 257 none one-Represents (omega arith) refl
      (omega arith) (omega arith) (omega arith)
