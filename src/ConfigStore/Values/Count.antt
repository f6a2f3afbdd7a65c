-- ===== src/ConfigStore/Values/Count.antt =====
-- config_store.c: the enumeration of a store's keys.
use pico_framework.Base.{
  ℕ, zero, suc, ◌+◌, ◌-◌, ◌^◌, ◌≤◌, ◌<◌, ◌≡◌, refl, sym, ap, ◌∙◌, true, false, Option, some, none,
  List, [], ◌∷◌, ◌++◌, append_assoc, arith, length, length-append, add32, ◌==◌, if◌then◌else◌, ltb,
  lt→ltb,
}
use pico_framework.ConfigStore.{Store, record_size}
use pico_framework.ConfigStore.Values.{count_from, config_count, key_from, config_key_at}
use pico_framework.ConfigStore.Image.{
  Entry, bytes_of, image, length-image, length-bytes_of, Reads, bytes_of-Reads,
}
use pico_framework.ConfigStore.Entries.{Represents, used-le-capacity}

-- `buffer` from `at` to `used` holds the records of the entries.
pub record Laid (buffer : List ℕ) (used at : ℕ) (es : List Entry) : Type 0 where
  pub before : List ℕ
  pub rest : List ℕ
  pub shape : buffer ≡ before ++ (image es ++ rest)
  pub here : at ≡ length before
  pub end : used ≡ at + length (image es)
  pub small : used < 2 ^ 32

Laid-Reads :
    (buffer : List ℕ) (used at : ℕ) (e : Entry) (es : List Entry) (l : Laid buffer used at (e ∷ es))
    → Reads buffer at e (image es ++ l.rest)
Laid-Reads buffer used at e es l =
    let shape : buffer ≡ l.before ++ (bytes_of e ++ (image es ++ l.rest)) =
      l.shape ∙ ap (λ r. l.before ++ r) (append_assoc (bytes_of e) (image es) l.rest) in
    rw (shape, l.here)
      (bytes_of-Reads l.before (image es ++ l.rest) e
        (omega (arith, l.here, l.end, l.small, length-append (bytes_of e) (image es))))

Laid-next :
    (buffer : List ℕ) (used at : ℕ) (e : Entry) (es : List Entry)
    → Laid buffer used at (e ∷ es)
    → Laid buffer used (add32 at (record_size (length e.key) (length e.value))) es
Laid-next buffer used at e es l =
    let size = length-bytes_of e in
    let both = length-append (bytes_of e) (image es) in
    let moved : add32 at (record_size (length e.key) (length e.value)) ≡ at + length (bytes_of e) =
      omega (arith, size, both, l.end, l.small) in
    record {
      before = l.before ++ bytes_of e;
      rest = l.rest;
      shape =
          l.shape
          ∙ ap (λ r. l.before ++ r) (append_assoc (bytes_of e) (image es) l.rest)
          ∙ sym (append_assoc l.before (bytes_of e) (image es ++ l.rest));
      here = omega (arith, moved, l.here, length-append l.before (bytes_of e));
      end = omega (arith, moved, l.end, both);
      small = l.small;
    }

count_from-Laid :
    (es : List Entry) (fuel : ℕ) (buffer : List ℕ) (used at : ℕ)
    → Laid buffer used at es
    → length (image es) ≤ fuel
    → count_from fuel buffer used at ≡ length es
unfolding count_from
count_from-Laid [] zero buffer used at l enough = refl
count_from-Laid [] (suc fuel) buffer used at l enough =
    let stop : ltb at used ≡ false = ground (arith, l.end) in rw stop
count_from-Laid (e ∷ es) zero buffer used at l enough = absurd (omega (arith, length-image e es))
count_from-Laid (e ∷ es) (suc fuel) buffer used at l enough =
    let reads = Laid-Reads buffer used at e es l in
    let more : ltb at used ≡ true = lt→ltb at used (omega (arith, l.end, length-image e es)) in
    let next = add32 at (record_size (length e.key) (length e.value)) in
    rw (more, reads.key_length, reads.value_length)
      (omega (
        arith,
        count_from-Laid es fuel buffer used next (Laid-next buffer used at e es l)
            (omega (arith, length-image e es)),
      ))

-- The key of the entry at an index, if it fits with its NUL.
abbrev pub nth_key : List Entry → ℕ → ℕ → Option (List ℕ)
nth_key [] index capacity = none
nth_key (e ∷ es) zero capacity = if ltb capacity (length e.key + 1) then none else some (e.key)
nth_key (e ∷ es) (suc index) capacity = nth_key es index capacity

key_from-Laid :
    (es : List Entry) (fuel : ℕ) (buffer : List ℕ) (used capacity left at : ℕ)
    → Laid buffer used at es
    → length (image es) ≤ fuel
    → key_from fuel buffer used capacity left at ≡ nth_key es left capacity
unfolding key_from
key_from-Laid [] zero buffer used capacity left at l enough = refl
key_from-Laid [] (suc fuel) buffer used capacity left at l enough =
    let stop : ltb at used ≡ false = ground (arith, l.end) in rw stop
key_from-Laid (e ∷ es) zero buffer used capacity left at l enough =
    absurd (omega (arith, length-image e es))
key_from-Laid (e ∷ es) (suc fuel) buffer used capacity zero at l enough =
    let reads = Laid-Reads buffer used at e es l in
    let more : ltb at used ≡ true = lt→ltb at used (omega (arith, l.end, length-image e es)) in
    rw (more, reads.key_length, reads.key_bytes)
key_from-Laid (e ∷ es) (suc fuel) buffer used capacity (suc left) at l enough =
    let reads = Laid-Reads buffer used at e es l in
    let more : ltb at used ≡ true = lt→ltb at used (omega (arith, l.end, length-image e es)) in
    let next = add32 at (record_size (length e.key) (length e.value)) in
    let later : (suc left == 0) ≡ false = ground arith in
    let one_less : suc left - 1 ≡ left = omega arith in
    rw (more, later, reads.key_length, reads.value_length, one_less)
      (key_from-Laid es fuel buffer used capacity left next (Laid-next buffer used at e es l)
        (omega (arith, length-image e es)))

module _ (s : Store) (es : List Entry) (r : Represents s es) where
  whole_store : Laid s.buffer s.used 0 es
  whole_store = record {
    before = [];
    rest = r.rest;
    shape = r.holds;
    here = refl;
    end = omega (arith, r.counts);
    small = omega (arith, used-le-capacity s es r, r.small);
  }

  pub config_count_lem : config_count s ≡ length es
  unfolding config_count
  config_count_lem =
      rw (r.ready)
        (count_from-Laid es (s.used) (s.buffer) (s.used) 0 whole_store (omega (arith, r.counts)))

  pub config_key_at_lem :
      (index capacity : ℕ)
      → 0 < capacity
      → config_key_at s index capacity ≡ nth_key es index capacity
  unfolding config_key_at
  config_key_at_lem index capacity pos =
      let some_room : (capacity == 0) ≡ false = ground arith in
      rw (r.ready, some_room)
        (key_from-Laid es (s.used) (s.buffer) (s.used) capacity index 0 whole_store
          (omega (arith, r.counts)))
