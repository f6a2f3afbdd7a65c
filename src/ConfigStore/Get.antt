-- ===== src/ConfigStore/Get.antt =====
-- config_store.c: config_get hands out the value of a key, and config_remove takes the key away.
use pico_framework.Base.{
  ℕ, ◌+◌, ◌≤◌, ◌≡◌, refl, sym, ap, ap₂, ◌∙◌, Bool, true, Option, some, none, List, ◌∷◌, ◌++◌,
  append_assoc, arith, length, length-append, drop, blit, add32, sub32, All, ◌&&◌, if◌then◌else◌,
  ltb, take-length-append, subst, length-blit,
}
use pico_framework.ConfigStore.{
  Store, ConfigResult, Got, record_size, get_at, remove_at, config_get, config_remove,
}
use pico_framework.ConfigStore.Image.{
  Entry, IsEntry, bytes_of, image, image-append, length-image-append, length-bytes_of,
}
use pico_framework.ConfigStore.Find.{missing, present}
use pico_framework.ConfigStore.Splice.{moved}
use pico_framework.ConfigStore.Set.{accepted_key}
use pico_framework.ConfigStore.Entries.{
  Represents, IsKey, lookup, lookup-missing, lookup-present, erase, erase-present, here, found,
  split-Around, used-le-capacity, All-drop_one,
}

-- The answer to a key that is stored, or is not.
abbrev pub answer : Bool → ℕ → Option (List ℕ) → Got
answer wanted capacity none = record {
  size = some 0;
  copied = none;
  result = ConfigResult.not_found;
}
answer wanted capacity (some value) =
    if ltb capacity (length value)
    then record { size = some (length value); copied = none; result = ConfigResult.too_small }
    else record {
      size = some (length value);
      copied = if wanted && ltb 0 (length value) then some value else none;
      result = ConfigResult.ok;
    }

get_at-present :
    (s : Store) (es before after : List Entry) (key value : List ℕ) (wanted : Bool) (capacity : ℕ)
    → Represents s es
    → es ≡ before ++ record { key = key; value = value } ∷ after
    → get_at s key wanted capacity (length (image before), true)
      ≡ answer wanted capacity (some value)
unfolding get_at
get_at-present s es before after key value wanted capacity r split =
    let reads = (split-Around s es before after (here key value after) r split).reads in
    rw (reads.value_length, reads.value_bytes)

-- A value is found under its key as it was stored; its length is reported whether it fits or not,
-- and it is copied only if it does.
pub config_get_lem :
    (s : Store) (es : List Entry) (key : List ℕ) (wanted : Bool) (capacity : ℕ)
    → Represents s es
    → IsKey key
    → config_get s (some key) wanted capacity ≡ answer wanted capacity (lookup key es)
unfolding config_get get_at
config_get_lem s es key wanted capacity r key_ok =
    rw (accepted_key s es key r key_ok) (elim (found s es key r) [
      | missing fresh same ↦ rw (same, lookup-missing key es fresh)
      | present before after value split fresh same ↦
          let start : 0 + length (image before) ≡ length (image before) = omega arith in
          let looked : lookup key es ≡ some value =
            ap (lookup key) split ∙ lookup-present key value after before fresh in
          ap (get_at s key wanted capacity) (same ∙ ap (λ n. (n, true)) start)
          ∙ get_at-present s es before after key value wanted capacity r split
          ∙ ap (answer wanted capacity) (sym looked)
    ])

-- The key was there and the store has lost it, or it was not and nothing has changed.
abbrev pub Removes : Store → List Entry → Option (List ℕ) → Store × ConfigResult → Type 0
Removes s left none (s', result) = (result ≡ ConfigResult.not_found) × (s' ≡ s)
Removes s left (some value) (s', result) =
    (result ≡ ConfigResult.ok) × Represents s' left × (s'.capacity ≡ s.capacity)

module _ (s : Store) (es before after : List Entry) (key value : List ℕ) (r : Represents s es)
    (split : es ≡ before ++ record { key = key; value = value } ∷ after) where
  abbrev closed_store : Store
  closed_store = record s {
    buffer = blit s.buffer (length (image before)) (image after);
    used = sub32 s.used (record_size (length key) (length value));
  }

  remove_at-present : remove_at s (length (image before), true) ≡ (closed_store, ConfigResult.ok)
  unfolding remove_at
  remove_at-present =
      let around = split-Around s es before after (here key value after) r split in
      let reads = around.reads in
      let size = length-bytes_of (here key value after) in
      let tail : sub32 (sub32 s.used (length (image before)))
            (record_size (length key) (length value))
          ≡ length (image after) =
        omega (arith, around.used_eq, size, used-le-capacity s es r, r.small) in
      rw (
        reads.key_length,
        reads.value_length,
        tail,
        reads.behind,
        take-length-append (image after) r.rest,
      )

  closed_store-Represents : Represents closed_store (before ++ after)
  closed_store-Represents =
      let e = here key value after in
      let around = split-Around s es before after e r split in
      let size = length-bytes_of e in
      let start = length (image before) in
      let ys = bytes_of e ++ (image after ++ r.rest) in
      let below = used-le-capacity s es r in
      let long : length (image after) ≤ length ys = omega (
        arith,
        length-append (bytes_of e) (image after ++ r.rest),
        length-append (image after) r.rest,
      ) in
      let kept = drop (0 + length (image after)) ys in
      let at : start ≡ add32 start 0 = omega (arith, around.used_eq, below, r.small) in
      record {
        rest = kept;
        holds =
            ap₂ (λ b (n : ℕ). blit b n (image after)) around.shape at
            ∙ moved (image before) ys (image after) 0 (omega (arith, long))
                (omega (arith, around.used_eq, below, r.small))
            ∙ sym (append_assoc (image before) (image after) kept)
            ∙ ap (λ l. l ++ kept) (sym (image-append before after));
        counts =
            omega (arith, length-image-append before after, around.used_eq, size, below, r.small);
        whole = length-blit s.buffer start (image after) ∙ r.whole;
        small = r.small;
        ready = r.ready;
        entries = All-drop_one IsEntry before after e (subst (All IsEntry) split r.entries);
      }

pub config_remove_lem :
    (s : Store) (es : List Entry) (key : List ℕ)
    → Represents s es
    → IsKey key
    → Removes s (erase key es) (lookup key es) (config_remove s (some key))
unfolding config_remove remove_at
config_remove_lem s es key r key_ok = rw (accepted_key s es key r key_ok) (elim (found s es key r) [
  | missing fresh same ↦ rw (same, lookup-missing key es fresh) (refl, refl)
  | present before after value split fresh same ↦
      let start : 0 + length (image before) ≡ length (image before) = omega arith in
      let looked : lookup key es ≡ some value =
        ap (lookup key) split ∙ lookup-present key value after before fresh in
      let left : erase key es ≡ before ++ after =
        ap (erase key) split ∙ erase-present key value after before fresh in
      let done =
        ap (remove_at s) (same ∙ ap (λ n. (n, true)) start)
        ∙ remove_at-present s es before after key value r split in
      rw (looked, done, left)
        (refl, closed_store-Represents s es before after key value r split, refl)
])
