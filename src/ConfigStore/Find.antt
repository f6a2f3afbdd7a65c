-- ===== src/ConfigStore/Find.antt =====
-- config_store.c: find_record finds the first record of a key.
use pico_framework.Base.{
  ℕ, zero, suc, ◌+◌, ◌^◌, ◌≤◌, ◌<◌, ◌≡◌, refl, sym, ap, ap₂, ◌∙◌, Bool, true, false, List, [], ◌∷◌,
  ◌++◌, append_assoc, arith, length, length-append, get_or, take, drop, add32, All, ◌==◌, ◌&&◌,
  if◌then◌else◌, ltb, lt→ltb, Bool-cases, inl, inr,
}
use pico_framework.ConfigStore.{record_size, same_bytes, find_from}
use pico_framework.ConfigStore.Image.{
  Entry, bytes_of, image, length-image, length-bytes_of, same_bytes_iff, Reads, bytes_of-Reads,
}

-- No entry has the key.
abbrev pub Fresh : List ℕ → List Entry → Type 0
Fresh key es = All (λ e. same_bytes e.key key ≡ false) es

-- Where a search among `es` ended that started at `at`.
pub data Located (key : List ℕ) (es : List Entry) (used at : ℕ) (r : ℕ × Bool) : Type 0 where
  missing : Fresh key es → r ≡ (used, false) → Located key es used at r
  present :
      (before after : List Entry) (value : List ℕ)
      → es ≡ before ++ record { key = key; value = value } ∷ after
      → Fresh key before
      → r ≡ (at + length (image before), true)
      → Located key es used at r

-- One record further back.
Located-cons :
    (key : List ℕ) (e : Entry) (es : List Entry) (used at at' : ℕ) (r : ℕ × Bool)
    → same_bytes e.key key ≡ false
    → at' ≡ at + length (bytes_of e)
    → Located key es used at' r
    → Located key (e ∷ es) used at r
Located-cons key e es used at at' r other next (missing fresh same) = missing (other, fresh) same
Located-cons key e es used at at' r other next (present before after value split fresh same) =
    present (e ∷ before) after value (ap (λ l. e ∷ l) split) (other, fresh)
      (same ∙ ap (λ n. (n, true)) (omega (arith, next, length-append (bytes_of e) (image before))))

-- The test on one record.
key_test :
    (buffer : List ℕ) (at : ℕ) (e : Entry) (tail key : List ℕ)
    → Reads buffer at e tail
    → (get_or buffer at 0 == length key
        && same_bytes (take (length key) (drop (add32 at 2) buffer)) key)
      ≡ same_bytes e.key key
key_test buffer at e tail key reads = elim (Bool-cases (length e.key == length key)) [
  | inl equal ↦
      let size : length key ≡ length e.key = ground arith in
      let run : take (length key) (drop (add32 at 2) buffer) ≡ e.key =
        ap (λ n. take n (drop (add32 at 2) buffer)) size ∙ reads.key_bytes in
      ap₂ (λ (n : ℕ) (l : List ℕ). n == length key && same_bytes l key) reads.key_length run
      ∙ ap (λ b. b && same_bytes e.key key) equal
  | inr unequal ↦
      let other : same_bytes e.key key ≡ false = elim (Bool-cases (same_bytes e.key key)) [
        | inr no_match ↦ no_match
        | inl same ↦
            absurd (ground (arith, ap length ((same_bytes_iff (e.key) key).0 same), unequal))
      ] in
      ap
        (λ (n : ℕ).
          n == length key && same_bytes (take (length key) (drop (add32 at 2) buffer)) key)
        reads.key_length
      ∙ ap (λ b. b && same_bytes (take (length key) (drop (add32 at 2) buffer)) key) unequal
      ∙ sym other
]

-- One round of the search, at a record.
find_step :
    (fuel : ℕ) (buffer : List ℕ) (used at : ℕ) (key tail : List ℕ) (e : Entry)
    → Reads buffer at e tail
    → at < used
    → find_from (suc fuel) buffer used key at ≡ (
        if same_bytes e.key key
        then (at, true)
        else find_from fuel buffer used key
            (add32 at (record_size (length e.key) (length e.value))))
unfolding find_from
find_step fuel buffer used at key tail e reads h =
    rw (lt→ltb at used h, key_test buffer at e tail key reads, reads.key_length, reads.value_length)

pub find_from-Located :
    (es : List Entry) (fuel : ℕ) (buffer : List ℕ) (used at : ℕ) (before rest key : List ℕ)
    → buffer ≡ before ++ (image es ++ rest)
    → at ≡ length before
    → used ≡ at + length (image es)
    → used < 2 ^ 32
    → length (image es) ≤ fuel
    → Located key es used at (find_from fuel buffer used key at)
unfolding find_from
find_from-Located [] zero buffer used at before rest key held here end small enough =
    missing tt refl
find_from-Located [] (suc fuel) buffer used at before rest key held here end small enough =
    let stop : ltb at used ≡ false = ground arith in missing tt (rw stop)
find_from-Located (e ∷ es) zero buffer used at before rest key held here end small enough =
    absurd (omega (arith, length-image e es))
find_from-Located (e ∷ es) (suc fuel) buffer used at before rest key held here end small enough =
    let size = length-bytes_of e in
    let both = length-append (bytes_of e) (image es) in
    let shape : buffer ≡ before ++ (bytes_of e ++ (image es ++ rest)) =
      held ∙ ap (λ l. before ++ l) (append_assoc (bytes_of e) (image es) rest) in
    let reads : Reads buffer at e (image es ++ rest) =
      rw (shape, here) (bytes_of-Reads before (image es ++ rest) e (omega (arith, both))) in
    let next = add32 at (record_size (length e.key) (length e.value)) in
    let moved : next ≡ at + length (bytes_of e) = omega (arith, size, both) in
    let step = find_step fuel buffer used at key (image es ++ rest) e reads (omega (arith, both)) in
    elim (Bool-cases (same_bytes e.key key)) [
      | inl same ↦
          present [] es (e.value)
            (ap (λ k. record { key = k; value = e.value } ∷ es)
              ((same_bytes_iff (e.key) key).0 same))
            tt (step ∙ (rw same (ap (λ n. (n, true)) (omega arith))))
      | inr other ↦
          rw (step, other)
            (Located-cons key e es used at next (find_from fuel buffer used key next) other moved (
              find_from-Located es fuel buffer used next (before ++ bytes_of e) rest key
                (shape ∙ sym (append_assoc before (bytes_of e) (image es ++ rest)))
                (omega (arith, moved, length-append before (bytes_of e)))
                (omega (arith, moved, both)) small (omega (arith, both, size))))
    ]
