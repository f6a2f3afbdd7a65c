-- ===== src/ConfigStore/Set.antt =====
-- config_store.c: config_set replaces the value of a key, or adds the key behind the others.
use pico_framework.Base.{
  ℕ, ◌+◌, ◌-◌, ◌^◌, ◌≤◌, ◌<◌, ◌≡◌, refl, sym, ap, ap₂, ◌∙◌, ◌⊎◌, inl, inr, true, false, some, List,
  [], ◌∷◌, ◌++◌, append_assoc, arith, length, length-append, take, drop, blit, add32, sub32, All,
  ◌&&◌, ◌||◌, if◌then◌else◌, not, ltb, Bool-cases, take-length-append, append-nil, All-append,
  subst, length-blit,
}
use pico_framework.ConfigStore.{
  Store, ConfigResult, record_size, set_at, write_record, config_set, check_key, refused, is_ok,
  store_free,
}
use pico_framework.ConfigStore.Image.{
  Entry, IsEntry, bytes_of, image, image-append, length-image, length-image-append, length-bytes_of,
}
use pico_framework.ConfigStore.Find.{missing, present}
use pico_framework.ConfigStore.Splice.{replaced, write_record_lem, length-write_record}
use pico_framework.ConfigStore.Entries.{
  Represents, IsKey, insert, insert-missing, insert-present, here, found, All-replace, split-Around,
  used-le-capacity,
}

-- The entries fit and the store holds them now, or they do not and nothing has changed.
abbrev pub Stores : Store → List Entry → Store × ConfigResult → Type 0
Stores s es (s', result) =
    ((result ≡ ConfigResult.ok)
      × Represents s' es
      × (s'.capacity ≡ s.capacity)
      × (length (image es) ≤ s.capacity))
    ⊎ ((result ≡ ConfigResult.full) × (s' ≡ s) × (s.capacity < length (image es)))

-- The test for room says whether the bytes used afterwards fit.
room_full :
    (capacity used old new : ℕ)
    → used ≤ capacity
    → capacity < 2 ^ 32
    → old ≤ used
    → new < 2 ^ 32
    → (ltb old new && ltb (sub32 capacity used) (sub32 new old)) ≡ true
    → capacity < used - old + new
room_full capacity used old new a b c d h = ground arith

room_fits :
    (capacity used old new : ℕ)
    → used ≤ capacity
    → capacity < 2 ^ 32
    → old ≤ used
    → new < 2 ^ 32
    → (ltb old new && ltb (sub32 capacity used) (sub32 new old)) ≡ false
    → used - old + new ≤ capacity
room_fits capacity used old new a b c d h = ground arith

module _ (s : Store) (es before after : List Entry) (key old value : List ℕ) (r : Represents s es)
    (split : es ≡ before ++ record { key = key; value = old } ∷ after) where
  -- `set_at` with what it reads and moves written out.
  set_at_present : set_at s key (length value) value (length (image before), true) ≡ (
      if ltb (record_size (length key) (length old)) (record_size (length key) (length value))
        && ltb (store_free s) (
            sub32 (record_size (length key) (length value)) (record_size (length key) (length old)))
      then (s, ConfigResult.full)
      else (
        record s {
          buffer =
              write_record
                (blit s.buffer
                  (add32 (length (image before)) (record_size (length key) (length value)))
                  (image after))
                (length (image before))
                key
                (length value)
                value;
          used =
              add32
                (sub32 s.used (record_size (length key) (length old)))
                (record_size (length key) (length value));
        },
        ConfigResult.ok,
      ))
  unfolding set_at
  set_at_present =
      let around = split-Around s es before after (here key old after) r split in
      let reads = around.reads in
      let size = length-bytes_of (here key old after) in
      let tail : sub32 s.used
            (add32 (length (image before)) (record_size (length key) (length old)))
          ≡ length (image after) =
        omega (arith, around.used_eq, size, used-le-capacity s es r, r.small) in
      rw (
        reads.key_length,
        reads.value_length,
        tail,
        reads.behind,
        take-length-append (image after) r.rest,
      )

  abbrev replaced_store : Store
  replaced_store = record s {
    buffer =
        write_record
          (blit s.buffer (add32 (length (image before)) (record_size (length key) (length value)))
            (image after))
          (length (image before)) key (length value) value;
    used =
        add32 (sub32 s.used (record_size (length key) (length old)))
          (record_size (length key) (length value));
  }

  replaced_store-Represents :
      IsKey key
      → length value ≤ 255
      → s.used - record_size (length key) (length old) + record_size (length key) (length value)
        ≤ s.capacity
      → Represents replaced_store (before ++ record { key = key; value = value } ∷ after)
  replaced_store-Represents key_ok value_ok fits =
      let e = here key old after in
      let new : Entry = record { key = key; value = value } in
      let around = split-Around s es before after e r split in
      let size = length-bytes_of e in
      let start = length (image before) in
      let W = record_size (length key) (length value) in
      let ys = bytes_of e ++ (image after ++ r.rest) in
      let whole : start + length ys ≡ s.capacity =
        omega (arith, r.whole, ap length around.shape, length-append (image before) ys) in
      let kept = drop (2 + length key + length value + length (image after)) ys in
      let room : W ≡ 2 + length key + length value = omega arith in
      record {
        rest = kept;
        holds =
            ap
              (λ n.
                write_record (blit s.buffer (add32 start n) (image after)) start key (length value)
                  value)
              room
            ∙ ap
                (λ l.
                  write_record (blit l (add32 start (2 + length key + length value)) (image after))
                    start key (length value) value)
                around.shape
            ∙ replaced (image before) ys (image after) key value
                (omega (arith, around.used_eq, size, fits, whole))
                (omega (arith, around.used_eq, size, fits, r.small))
            ∙ ap (λ l. image before ++ l) (sym (append_assoc (bytes_of new) (image after) kept))
            ∙ sym (append_assoc (image before) (image (new ∷ after)) kept)
            ∙ ap (λ l. l ++ kept) (sym (image-append before (new ∷ after)));
        counts = omega (
          arith,
          length-image-append before (new ∷ after),
          length-image new after,
          around.used_eq,
          size,
          fits,
          r.small,
        );
        whole =
            length-write_record (blit s.buffer (add32 start W) (image after)) start key
              (length value) value
            ∙ length-blit s.buffer (add32 start W) (image after)
            ∙ r.whole;
        small = r.small;
        ready = r.ready;
        entries =
            All-replace IsEntry before after e new (subst (All IsEntry) split r.entries)
              (record { key_some = key_ok.0; key_short = key_ok.1; value_short = value_ok });
      }

  set_at_present-Stores :
      IsKey key
      → length value ≤ 255
      → Stores s
          (before ++ record { key = key; value = value } ∷ after)
          (set_at s key (length value) value (length (image before), true))
  unfolding store_free
  set_at_present-Stores key_ok value_ok =
      let e = here key old after in
      let new : Entry = record { key = key; value = value } in
      let around = split-Around s es before after e r split in
      let size = length-bytes_of e in
      let E = record_size (length key) (length old) in
      let W = record_size (length key) (length value) in
      let below = used-le-capacity s es r in
      let new_size : length (image (before ++ new ∷ after)) ≡ s.used - E + W = omega (
        arith,
        length-image-append before (new ∷ after),
        length-image new after,
        around.used_eq,
        size,
      ) in
      let here_in : E ≤ s.used = omega (arith, around.used_eq, size) in
      rw set_at_present (elim (Bool-cases (ltb E W && ltb (store_free s) (sub32 W E))) [
        | inl full ↦ rw full (
            inr (
              refl,
              refl,
              omega (
                arith,
                new_size,
                room_full (s.capacity) (s.used) E W below (omega (arith, r.small)) here_in
                    (omega arith) full,
              ),
            ))
        | inr room ↦
            let fits : s.used - E + W ≤ s.capacity =
              room_fits (s.capacity) (s.used) E W below (omega (arith, r.small)) here_in
                (omega arith) room in
            rw room (
              inl (
                refl,
                replaced_store-Represents key_ok value_ok fits,
                refl,
                omega (arith, fits, new_size),
              ))
      ])

module _ (s : Store) (es : List Entry) (key value : List ℕ) (r : Represents s es) where
  abbrev extended_store : Store
  extended_store = record s {
    buffer = write_record (s.buffer) (s.used) key (length value) value;
    used = add32 s.used (record_size (length key) (length value));
  }

  extended_store-Represents :
      IsKey key
      → length value ≤ 255
      → s.used + record_size (length key) (length value) ≤ s.capacity
      → Represents extended_store (es ++ record { key = key; value = value } ∷ [])
  extended_store-Represents key_ok value_ok fits =
      let new : Entry = record { key = key; value = value } in
      let image_eq : image (es ++ new ∷ []) ≡ image es ++ bytes_of new =
        image-append es (new ∷ []) ∙ ap (λ l. image es ++ l) (append-nil (bytes_of new)) in
      let size = length-bytes_of new in
      let whole : length (image es) + length r.rest ≡ s.capacity =
        omega (arith, r.whole, ap length r.holds, length-append (image es) r.rest) in
      let kept = drop (2 + length key + length value) r.rest in
      record {
        rest = kept;
        holds =
            ap₂ (λ (b : List ℕ) (n : ℕ). write_record b n key (length value) value) r.holds r.counts
            ∙ write_record_lem (image es) r.rest key value (length value)
                (omega (arith, whole, r.counts, fits)) (omega (arith, fits, r.counts, r.small))
            ∙ sym (append_assoc (image es) (bytes_of new) kept)
            ∙ ap (λ l. l ++ kept) (sym image_eq);
        counts = omega (
          arith,
          ap length image_eq,
          length-append (image es) (bytes_of new),
          size,
          r.counts,
          fits,
          r.small,
        );
        whole = length-write_record s.buffer s.used key (length value) value ∙ r.whole;
        small = r.small;
        ready = r.ready;
        entries =
            All-append IsEntry es (new ∷ []) r.entries
              (record { key_some = key_ok.0; key_short = key_ok.1; value_short = value_ok }, tt);
      }

  set_at_missing-Stores :
      IsKey key
      → length value ≤ 255
      → Stores s
          (es ++ record { key = key; value = value } ∷ [])
          (set_at s key (length value) value (s.used, false))
  unfolding set_at store_free
  set_at_missing-Stores key_ok value_ok =
      let new : Entry = record { key = key; value = value } in
      let W = record_size (length key) (length value) in
      let below = used-le-capacity s es r in
      let new_size : length (image (es ++ new ∷ [])) ≡ s.used + W =
        omega (arith, length-image-append es (new ∷ []), length-image new [], r.counts) in
      elim (Bool-cases (ltb (store_free s) W)) [
        | inl full ↦ rw full (inr (refl, refl, ground (arith, new_size, full, below, r.small)))
        | inr room ↦
            let fits : s.used + W ≤ s.capacity = ground (arith, room, below, r.small) in
            rw room (
              inl (
                refl,
                extended_store-Represents key_ok value_ok fits,
                refl,
                omega (arith, fits, new_size),
              ))
      ]

-- A key of 1 to 31 bytes passes the check.
pub accepted_key :
    (s : Store) (es : List Entry) (key : List ℕ)
    → Represents s es
    → IsKey key
    → refused s (some key) ≡ false
unfolding check_key
accepted_key s es [] r k = absurd (omega (arith, k.0))
accepted_key s es (c ∷ key) r k =
    let short : ltb 31 (length (c ∷ key)) ≡ false = ground (arith, k.1) in
    ap (λ b. not b || not (is_ok (check_key (some (c ∷ key))))) r.ready
    ∙ ap (λ b. not (is_ok (if b then ConfigResult.key_too_long else ConfigResult.ok))) short

pub config_set_lem :
    (s : Store) (es : List Entry) (key value : List ℕ)
    → Represents s es
    → IsKey key
    → length value ≤ 255
    → Stores s (insert key value es) (config_set s (some key) (some value) (length value))
unfolding config_set
config_set_lem s es key value r key_ok value_ok =
    let all : take (length value) value ≡ value = take_all value in
    rw (accepted_key s es key r key_ok, all)
      (elim (found s es key r) [
        | missing fresh same ↦
            rw (same, insert-missing key value es fresh)
              (set_at_missing-Stores s es key value r key_ok value_ok)
        | present before after old split fresh same ↦
            let start : 0 + length (image before) ≡ length (image before) = omega arith in
            rw (same, start, split, insert-present key old after before value fresh)
              (set_at_present-Stores s es before after key old value r split key_ok value_ok)
      ])
  where
    take_all : (xs : List ℕ) → take (length xs) xs ≡ xs
    take_all [] = refl
    take_all (x ∷ xs) = ap (λ l. x ∷ l) (take_all xs)
