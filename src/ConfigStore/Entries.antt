-- ===== src/ConfigStore/Entries.antt =====
-- config_store.c: the entries that a store represents, and the operations on them.
use pico_framework.Base.{
  ℕ, ◌+◌, ◌-◌, ◌^◌, ◌≤◌, ◌<◌, ◌≡◌, refl, sym, ap, ◌∙◌, inl, inr, true, Option, some, none, List, [],
  ◌∷◌, ◌++◌, append_assoc, arith, length, length-append, All, if◌then◌else◌, Bool-cases,
}
use pico_framework.ConfigStore.{Store, same_bytes, find_record}
use pico_framework.ConfigStore.Image.{
  Entry, IsEntry, bytes_of, image, image-append, length-image-append, same_bytes_iff, Reads,
  bytes_of-Reads,
}
use pico_framework.ConfigStore.Find.{Fresh, Located, find_from-Located}

-- The buffer starts with the records of the entries, and `used` counts their bytes. A buffer within
-- 512 bytes of the address space leaves room for one more record.
pub record Represents (s : Store) (es : List Entry) : Type 0 where
  pub rest : List ℕ
  pub holds : s.buffer ≡ image es ++ rest
  pub counts : s.used ≡ length (image es)
  pub whole : length s.buffer ≡ s.capacity
  pub small : s.capacity < 2 ^ 32 - 512
  pub ready : s.initialised ≡ true
  pub entries : All IsEntry es

abbrev pub IsKey : List ℕ → Type 0
IsKey key = (0 < length key) × (length key ≤ 31)

-- The operations on entries.
abbrev pub lookup : List ℕ → List Entry → Option (List ℕ)
lookup key [] = none
lookup key (e ∷ es) = if same_bytes e.key key then some (e.value) else lookup key es

abbrev pub insert : List ℕ → List ℕ → List Entry → List Entry
insert key value [] = record { key = key; value = value } ∷ []
insert key value (e ∷ es) =
    if same_bytes e.key key
    then record { key = key; value = value } ∷ es
    else e ∷ insert key value es

abbrev pub erase : List ℕ → List Entry → List Entry
erase key [] = []
erase key (e ∷ es) = if same_bytes e.key key then es else e ∷ erase key es

pub same_self : (key : List ℕ) → same_bytes key key ≡ true
same_self key = (same_bytes_iff key key).1 refl

pub insert-missing :
    (key value : List ℕ) (es : List Entry)
    → Fresh key es
    → insert key value es ≡ es ++ record { key = key; value = value } ∷ []
insert-missing key value [] f = refl
insert-missing key value (e ∷ es) f = rw (f.0) (ap (λ l. e ∷ l) (insert-missing key value es f.1))

pub lookup-missing : (key : List ℕ) (es : List Entry) → Fresh key es → lookup key es ≡ none
lookup-missing key [] f = refl
lookup-missing key (e ∷ es) f = rw (f.0) (lookup-missing key es f.1)

pub erase-missing : (key : List ℕ) (es : List Entry) → Fresh key es → erase key es ≡ es
erase-missing key [] f = refl
erase-missing key (e ∷ es) f = rw (f.0) (ap (λ l. e ∷ l) (erase-missing key es f.1))

module _ (key old : List ℕ) (after : List Entry) where
  abbrev pub here : Entry
  here = record { key = key; value = old }

  pub insert-present :
      (before : List Entry) (value : List ℕ)
      → Fresh key before
      → insert key value (before ++ here ∷ after)
        ≡ before ++ record { key = key; value = value } ∷ after
  insert-present [] value f = rw (same_self key)
  insert-present (e ∷ before) value f = rw (f.0) (ap (λ l. e ∷ l) (insert-present before value f.1))

  pub lookup-present :
      (before : List Entry) → Fresh key before → lookup key (before ++ here ∷ after) ≡ some old
  lookup-present [] f = rw (same_self key)
  lookup-present (e ∷ before) f = rw (f.0) (lookup-present before f.1)

  pub erase-present :
      (before : List Entry)
      → Fresh key before
      → erase key (before ++ here ∷ after) ≡ before ++ after
  erase-present [] f = rw (same_self key)
  erase-present (e ∷ before) f = rw (f.0) (ap (λ l. e ∷ l) (erase-present before f.1))

pub erase_of_none : (key : List ℕ) (es : List Entry) → lookup key es ≡ none → erase key es ≡ es
erase_of_none key [] h = refl
erase_of_none key (e ∷ es) h = elim (Bool-cases (same_bytes e.key key)) [
  | inl match ↦ absurd (cc (h, ap (λ b. if b then some (e.value) else lookup key es) match))
  | inr other ↦ rw other (
      ap (λ l. e ∷ l)
        (erase_of_none key es
          (sym (ap (λ b. if b then some (e.value) else lookup key es) other) ∙ h)))
]

-- What is found after an insertion: the new value under its key, and the old ones elsewhere.
pub lookup-insert :
    (key other value : List ℕ) (es : List Entry)
    → lookup other (insert key value es)
      ≡ (if same_bytes key other then some value else lookup other es)
lookup-insert key other value [] = refl
lookup-insert key other value (e ∷ es) = ground (
  arith,
  same_bytes_iff (e.key) key,
  same_bytes_iff (e.key) other,
  same_bytes_iff key other,
  lookup-insert key other value es,
)

pub lookup-insert_self :
    (key value : List ℕ) (es : List Entry) → lookup key (insert key value es) ≡ some value
lookup-insert_self key value es = lookup-insert key key value es ∙ rw (same_self key)

module _ {A : Type 0} (P : A → Type 0) where
  pub All-replace : (xs ys : List A) (y z : A) → All P (xs ++ y ∷ ys) → P z → All P (xs ++ z ∷ ys)
  All-replace [] ys y z h p = (p, h.1)
  All-replace (x ∷ xs) ys y z h p = (h.0, All-replace xs ys y z h.1 p)

  pub All-drop_one : (xs ys : List A) (y : A) → All P (xs ++ y ∷ ys) → All P (xs ++ ys)
  All-drop_one [] ys y h = h.1
  All-drop_one (x ∷ xs) ys y h = (h.0, All-drop_one xs ys y h.1)

-- Where the key of a represented store is found.
pub found :
    (s : Store) (es : List Entry) (key : List ℕ)
    → Represents s es
    → Located key es (s.used) 0 (find_record s key)
unfolding find_record
found s es key r =
    find_from-Located es (s.used) (s.buffer) (s.used) 0 [] r.rest key r.holds refl
      (omega (arith, r.counts))
      (omega
        (arith, r.counts, r.small, r.whole, ap length r.holds, length-append (image es) r.rest))
      (omega (arith, r.counts))

-- The used bytes lie in the buffer.
pub used-le-capacity : (s : Store) (es : List Entry) → Represents s es → s.used ≤ s.capacity
used-le-capacity s es r =
    omega (arith, r.counts, r.whole, ap length r.holds, length-append (image es) r.rest)

-- The buffer around the record of a key that was found.
pub record Around (s : Store) (before after : List Entry) (e : Entry) (tail : List ℕ) : Type 0 where
  pub shape : s.buffer ≡ image before ++ (bytes_of e ++ (image after ++ tail))
  pub used_eq : s.used ≡ length (image before) + (length (bytes_of e) + length (image after))
  pub reads : Reads s.buffer (length (image before)) e (image after ++ tail)

pub split-Around :
    (s : Store) (es before after : List Entry) (e : Entry) (r : Represents s es)
    → es ≡ before ++ e ∷ after
    → Around s before after e r.rest
split-Around s es before after e r split =
    let shape : s.buffer ≡ image before ++ (bytes_of e ++ (image after ++ r.rest)) =
      r.holds
      ∙ ap (λ l. l ++ r.rest) (ap image split ∙ image-append before (e ∷ after))
      ∙ append_assoc (image before) (image (e ∷ after)) r.rest
      ∙ ap (λ l. image before ++ l) (append_assoc (bytes_of e) (image after) r.rest) in
    let used_eq : s.used ≡ length (image before) + (length (bytes_of e) + length (image after)) =
      omega (
        arith,
        r.counts,
        ap (λ l. length (image l)) split,
        length-image-append before (e ∷ after),
        length-append (bytes_of e) (image after),
      ) in
    record {
      shape = shape;
      used_eq = used_eq;
      reads = rw shape (
          bytes_of-Reads (image before) (image after ++ r.rest) e
            (omega (arith, used_eq, used-le-capacity s es r, r.small)));
    }
