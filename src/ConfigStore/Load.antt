-- ===== src/ConfigStore/Load.antt =====
-- config_store.c: config_store_load takes exactly the buffers that hold whole records.
use pico_framework.Base.{
  ℕ, zero, suc, ◌+◌, ◌-◌, ◌^◌, ◌≤◌, ◌<◌, ◌≡◌, refl, sym, ap, ap₂, ◌∙◌, ◌⊎◌, inl, inr, ◌↔◌, true,
  false, Option, some, List, [], ◌∷◌, ◌++◌, append_assoc, arith, length, length-append, length-take,
  length-drop, get_or, take, drop, add32, sub32, All, ◌==◌, ltb, ltb→lt, Bool-cases,
  get_or-append_right, take-append-drop, subst, IsByte,
}
use pico_framework.ConfigStore.{
  Store, ConfigResult, record_size, walk, load_into, store_init, store_load,
}
use pico_framework.ConfigStore.Image.{
  Entry, IsEntry, bytes_of, image, length-image, length-bytes_of, Reads, bytes_of-Reads, seek_cell,
}
use pico_framework.ConfigStore.Entries.{Represents}

-- One round of the walk, at a byte before `used`.
walk_step :
    (fuel : ℕ) (buffer : List ℕ) (used at : ℕ)
    → at < used
    → let k = get_or buffer at 0 in
      let v = get_or buffer (add32 at 1) 0 in
      (walk (suc fuel) buffer used at ≡ true) ↔ (
        (2 ≤ sub32 used at)
        × (0 < k)
        × (k ≤ 31)
        × (record_size k v ≤ sub32 used at)
        × (walk fuel buffer used (add32 at (record_size k v)) ≡ true))
unfolding walk
walk_step fuel buffer used at h = (λ e. ground arith, λ p. ground arith)

-- A run of bytes, read as a record.
abbrev record_at : List ℕ → Entry
record_at ys = record {
  key = take (get_or ys 0 0) (drop 2 ys);
  value = take (get_or ys 1 0) (drop (get_or ys 0 0) (drop 2 ys));
}

-- The bytes behind it.
abbrev behind : List ℕ → List ℕ
behind ys = drop (get_or ys 1 0) (drop (get_or ys 0 0) (drop 2 ys))

length_take_le : (n : ℕ) (xs : List ℕ) → n ≤ length xs → length (take n xs) ≡ n
length_take_le n xs h = omega (arith, length-take n xs)

record_at_lem :
    (ys : List ℕ)
    → record_size (get_or ys 0 0) (get_or ys 1 0) ≤ length ys
    → (length (record_at ys).key ≡ get_or ys 0 0)
      × (length (record_at ys).value ≡ get_or ys 1 0)
      × (ys ≡ bytes_of (record_at ys) ++ behind ys)
record_at_lem [] h = absurd (omega arith)
record_at_lem (a ∷ []) h = absurd (omega arith)
record_at_lem (a ∷ b ∷ ys) h =
    let k = length_take_le a ys (omega arith) in
    let rest = drop a ys in
    let v : length (take b rest) ≡ b = length_take_le b rest (omega (arith, length-drop a ys)) in
    let tail : ys ≡ (take a ys ++ take b rest) ++ drop b rest =
      sym (take-append-drop a ys)
      ∙ ap (λ l. take a ys ++ l) (sym (take-append-drop b rest))
      ∙ sym (append_assoc (take a ys) (take b rest) (drop b rest)) in
    (
      k,
      v,
      ap₂ (λ (n m : ℕ). n ∷ m ∷ ys) (sym k) (sym v)
          ∙ ap (λ l. length (take a ys) ∷ length (take b rest) ∷ l) tail,
    )

-- Whole records, `n` bytes of them, in front of `rest`.
pub record Parsed (ys : List ℕ) (n : ℕ) : Type 0 where
  pub es : List Entry
  pub rest : List ℕ
  pub holds : ys ≡ image es ++ rest
  pub counts : n ≡ length (image es)
  pub entries : All IsEntry es

Parsed-cons :
    (ys tail : List ℕ) (e : Entry) (n m : ℕ)
    → IsEntry e
    → ys ≡ bytes_of e ++ tail
    → n ≡ length (bytes_of e) + m
    → Parsed tail m
    → Parsed ys n
Parsed-cons ys tail e n m ok shape size p = record {
  es = e ∷ p.es;
  rest = p.rest;
  holds =
      shape
      ∙ ap (λ l. bytes_of e ++ l) p.holds
      ∙ sym (append_assoc (bytes_of e) (image p.es) p.rest);
  counts = omega (arith, size, p.counts, length-append (bytes_of e) (image p.es));
  entries = (ok, p.entries);
}

All-drop : (n : ℕ) (xs : List ℕ) → All IsByte xs → All IsByte (drop n xs)
All-drop zero xs h = h
All-drop (suc n) [] h = tt
All-drop (suc n) (x ∷ xs) h = All-drop n xs h.1

byte_or : (xs : List ℕ) (i : ℕ) → All IsByte xs → get_or xs i 0 < 256
byte_or [] i h = omega arith
byte_or (x ∷ xs) zero h = h.0
byte_or (x ∷ xs) (suc i) h = byte_or xs i h.1

-- A walk that is not refused has met whole records.
walk_sound :
    (fuel : ℕ) (buffer : List ℕ) (used at : ℕ) (before ys : List ℕ)
    → buffer ≡ before ++ ys
    → at ≡ length before
    → at ≤ used
    → used ≤ length buffer
    → length buffer < 2 ^ 32 - 512
    → All IsByte ys
    → walk fuel buffer used at ≡ true
    → Parsed ys (used - at)
unfolding walk
walk_sound zero buffer used at before ys held here le within small bytes taken = record {
  es = [];
  rest = ys;
  holds = refl;
  counts = ground arith;
  entries = tt;
}
walk_sound (suc fuel) buffer used at before ys held here le within small bytes taken =
    elim (Bool-cases (ltb at used)) [
      | inr stop ↦ record {
        es = [];
        rest = ys;
        holds = refl;
        counts = ground (arith, stop);
        entries = tt;
      }
      | inl more ↦
          let below : at < used = ltb→lt at used more in
          let step = (walk_step fuel buffer used at below).0 taken in
          let zero_more : length before ≡ length before + 0 = omega arith in
          let k : get_or buffer at 0 ≡ get_or ys 0 0 =
            ap₂ (λ l (n : ℕ). get_or l n 0) held (here ∙ zero_more)
            ∙ get_or-append_right before ys 0 0 in
          let v : get_or buffer (add32 at 1) 0 ≡ get_or ys 1 0 =
            ap₂ (λ l (n : ℕ). get_or l (add32 n 1) 0) held here
            ∙ seek_cell before ys 1 (omega arith) in
          let long : length buffer ≡ length before + length ys =
            ap length held ∙ length-append before ys in
          let size : record_size (get_or ys 0 0) (get_or ys 1 0) ≤ length ys =
            omega (arith, step.3, k, v, long) in
          let e = record_at ys in
          let is = record_at_lem ys size in
          let next = add32 at (record_size (get_or buffer at 0) (get_or buffer (add32 at 1) 0)) in
          let moved : next ≡ at + length (bytes_of e) =
            omega (arith, step.3, k, v, is.0, is.1, length-bytes_of e) in
          let bound : next ≤ used = omega (arith, step.3, k, v) in
          Parsed-cons ys (behind ys) e (used - at) (used - next)
            (record {
              key_some = omega (arith, step.1, k, is.0);
              key_short = omega (arith, step.2, k, is.0);
              value_short = omega (arith, is.1, byte_or ys 1 bytes);
            })
            is.2 (omega (arith, moved, bound))
            (walk_sound fuel buffer used next (before ++ bytes_of e) (behind ys)
              (held
                ∙ ap (λ l. before ++ l) is.2
                ∙ sym (append_assoc before (bytes_of e) (behind ys)))
              (omega (arith, moved, length-append before (bytes_of e))) bound within small
              (All-drop (get_or ys 1 0) (drop (get_or ys 0 0) (drop 2 ys))
                (All-drop (get_or ys 0 0) (drop 2 ys) (All-drop 2 ys bytes)))
              step.4)
    ]

-- Whole records are walked to their end.
walk_complete :
    (es : List Entry) (fuel : ℕ) (buffer : List ℕ) (used at : ℕ) (before rest : List ℕ)
    → buffer ≡ before ++ (image es ++ rest)
    → at ≡ length before
    → used ≡ at + length (image es)
    → used < 2 ^ 32
    → length (image es) ≤ fuel
    → All IsEntry es
    → walk fuel buffer used at ≡ true
unfolding walk
walk_complete [] zero buffer used at before rest held here end small enough ok = ground arith
walk_complete [] (suc fuel) buffer used at before rest held here end small enough ok =
    let stop : ltb at used ≡ false = ground arith in rw stop
walk_complete (e ∷ es) zero buffer used at before rest held here end small enough ok =
    absurd (omega (arith, length-image e es))
walk_complete (e ∷ es) (suc fuel) buffer used at before rest held here end small enough ok =
    let size = length-bytes_of e in
    let both = length-append (bytes_of e) (image es) in
    let shape : buffer ≡ before ++ (bytes_of e ++ (image es ++ rest)) =
      held ∙ ap (λ l. before ++ l) (append_assoc (bytes_of e) (image es) rest) in
    let reads : Reads buffer at e (image es ++ rest) =
      rw (shape, here) (bytes_of-Reads before (image es ++ rest) e (omega (arith, both))) in
    let one : IsEntry e = ok.0 in
    let next = add32 at (record_size (length e.key) (length e.value)) in
    let moved : next ≡ at + length (bytes_of e) = omega (arith, size, both) in
    let rest_walked =
      walk_complete es fuel buffer used next (before ++ bytes_of e) rest
        (shape ∙ sym (append_assoc before (bytes_of e) (image es ++ rest)))
        (omega (arith, moved, length-append before (bytes_of e))) (omega (arith, moved, both)) small
        (omega (arith, both, size)) ok.1 in
    (walk_step fuel buffer used at (omega (arith, both, size))).1 (
      omega (arith, both, size),
      omega (arith, reads.key_length, one.key_some),
      omega (arith, reads.key_length, one.key_short),
      omega (arith, reads.key_length, reads.value_length, both, size),
      ap₂ (λ (n m : ℕ). walk fuel buffer used (add32 at (record_size n m))) reads.key_length
            reads.value_length
          ∙ rest_walked,
    )

-- The store that `config_store_init` sets up.
abbrev pub blank : List ℕ → ℕ → Store
blank buffer capacity = record {
  buffer = buffer;
  capacity = capacity;
  used = 0;
  initialised = true;
}

-- A load takes the whole run, or refuses it and leaves the store empty.
abbrev pub Loads : List ℕ → ℕ → ℕ → Option Store × ConfigResult → Type 0
Loads buffer capacity used r =
    ((r ≡ (some (record (blank buffer capacity) { used = used }), ConfigResult.ok))
      × ((es : List Entry) × Represents (record (blank buffer capacity) { used = used }) es))
    ⊎ ((r ≡ (some (blank buffer capacity), ConfigResult.corrupt))
        × ¬ ((used ≤ capacity) × Parsed buffer used))

module _ (buffer : List ℕ) (capacity used : ℕ) (small : capacity < 2 ^ 32 - 512)
    (whole : length buffer ≡ capacity) (bytes : All IsByte buffer) where
  walk_iff : used ≤ capacity → (walk used buffer used 0 ≡ true) ↔ Parsed buffer used
  walk_iff fits = (
    λ e. subst (Parsed buffer) (omega arith) (
        walk_sound used buffer used 0 [] buffer refl refl (omega arith) (omega (arith, whole))
          (omega (arith, whole)) bytes e),
    λ p.
        walk_complete p.es used buffer used 0 [] p.rest p.holds refl (omega (arith, p.counts))
          (omega arith) (omega (arith, p.counts)) p.entries,
  )

  Represents-load :
      (p : Parsed buffer used) → Represents (record (blank buffer capacity) { used = used }) p.es
  Represents-load p = record {
    rest = p.rest;
    holds = p.holds;
    counts = p.counts;
    whole = whole;
    small = small;
    ready = refl;
    entries = p.entries;
  }

  store_init-eq :
      0 < capacity
      → store_init (some buffer) capacity ≡ (some (blank buffer capacity), ConfigResult.ok)
  unfolding store_init
  store_init-eq pos = let some_room : (capacity == 0) ≡ false = ground arith in rw some_room

  store_load-eq :
      0 < capacity
      → store_load (some buffer) capacity used ≡ (
        some (load_into (blank buffer capacity) used).0,
        (load_into (blank buffer capacity) used).1,
      )
  unfolding store_load
  store_load-eq pos = rw (store_init-eq pos, store_load)

  -- A load adopts a run of bytes exactly when it is whole records, and otherwise calls it corrupt
  -- and leaves the store empty; the buffer has the size it is said to have, within 512 bytes of the
  -- address space.
  pub store_load_lem :
      0 < capacity → Loads buffer capacity used (store_load (some buffer) capacity used)
  unfolding load_into
  store_load_lem pos = rw (store_load-eq pos) (elim (Bool-cases (ltb capacity used)) [
    | inl over ↦ rw over (inr (refl, λ p. ground (arith, over, p.0)))
    | inr fits ↦
        let le : used ≤ capacity = ground arith in
        elim (Bool-cases (walk used buffer used 0)) [
          | inl taken ↦
              let p = (walk_iff le).0 taken in
              rw fits (rw taken (inl (refl, (p.es, Represents-load p))))
          | inr bad ↦ rw fits (rw bad (inr (refl, λ p. cc ((walk_iff le).1 p.1))))
        ]
  ])
