-- ===== src/ConfigStore/Image.antt =====
-- config_store.c: the records that a buffer holds, and what the code reads of one.
use pico_framework.Base.{
  ℕ, suc, ◌+◌, ◌^◌, ◌≤◌, ◌<◌, ◌≡◌, refl, sym, ap, ◌∙◌, ◌↔◌, true, List, [], ◌∷◌, ◌++◌, append_assoc,
  arith, length, length-append, get_or, take, drop, take-length-append, drop-length-append,
  get_or-append_right, add32,
}
use pico_framework.ConfigStore.{record_size, max_key_length, max_value_length, same_bytes}

-- A key and its value.
pub record Entry : Type 0 where
  pub key : List ℕ
  pub value : List ℕ

-- What a record's two lengths can say.
pub record IsEntry (e : Entry) : Type 0 where
  pub key_some : 0 < length e.key
  pub key_short : length e.key ≤ max_key_length
  pub value_short : length e.value ≤ max_value_length

abbrev pub bytes_of : Entry → List ℕ
bytes_of e = length e.key ∷ length e.value ∷ (e.key ++ e.value)

abbrev pub image : List Entry → List ℕ
image [] = []
image (e ∷ es) = bytes_of e ++ image es

pub length-bytes_of :
    (e : Entry) → length (bytes_of e) ≡ record_size (length e.key) (length e.value)
length-bytes_of e = omega (arith, length-append e.key e.value)

pub length-image :
    (e : Entry) (es : List Entry)
    → length (image (e ∷ es)) ≡ record_size (length e.key) (length e.value) + length (image es)
length-image e es = omega (arith, length-append (bytes_of e) (image es), length-bytes_of e)

pub image-append : (xs ys : List Entry) → image (xs ++ ys) ≡ image xs ++ image ys
image-append [] ys = refl
image-append (e ∷ xs) ys =
    ap (λ l. bytes_of e ++ l) (image-append xs ys)
    ∙ sym (append_assoc (bytes_of e) (image xs) (image ys))

pub length-image-append :
    (xs ys : List Entry) → length (image (xs ++ ys)) ≡ length (image xs) + length (image ys)
length-image-append xs ys = ap length (image-append xs ys) ∙ length-append (image xs) (image ys)

pub same_bytes_iff : (xs ys : List ℕ) → (same_bytes xs ys ≡ true) ↔ (xs ≡ ys)
unfolding same_bytes
same_bytes_iff [] [] = (λ h. refl, λ h. refl)
same_bytes_iff [] (y ∷ ys) = (λ h. cc, λ h. cc)
same_bytes_iff (x ∷ xs) [] = (λ h. cc, λ h. cc)
same_bytes_iff (x ∷ xs) (y ∷ ys) =
    (λ h. ground (arith, same_bytes_iff xs ys), λ h. ground (arith, same_bytes_iff xs ys))

module _ {A : Type 0} where
  pub drop-append : (xs ys : List A) (n : ℕ) → drop (length xs + n) (xs ++ ys) ≡ drop n ys
  drop-append [] ys n = ap (λ k. drop k ys) (omega arith)
  drop-append (x ∷ xs) ys n =
      let e : suc (length xs) + n ≡ suc (length xs + n) = omega arith in rw e (drop-append xs ys n)

  -- Reading past a run of bytes, with offsets that do not wrap.
  pub seek :
      (xs ys : List A) (n : ℕ)
      → length xs + n < 2 ^ 32
      → drop (add32 (length xs) n) (xs ++ ys) ≡ drop n ys
  seek xs ys n h =
      let e : add32 (length xs) n ≡ length xs + n = omega arith in
      ap (λ k. drop k (xs ++ ys)) e ∙ drop-append xs ys n

pub seek_cell :
    (xs ys : List ℕ) (n : ℕ)
    → length xs + n < 2 ^ 32
    → get_or (xs ++ ys) (add32 (length xs) n) 0 ≡ get_or ys n 0
seek_cell xs ys n h =
    let e : add32 (length xs) n ≡ length xs + n = omega arith in
    ap (λ k. get_or (xs ++ ys) k 0) e ∙ get_or-append_right xs ys n 0

behind_lengths : (n a b : ℕ) (xs : List ℕ) → drop (2 + n) (a ∷ b ∷ xs) ≡ drop n xs
behind_lengths n a b xs =
    let e : 2 + n ≡ suc (suc n) = omega arith in ap (λ k. drop k (a ∷ b ∷ xs)) e

-- What the code reads of a record `e` that starts at `at`, before the bytes `tail`.
pub record Reads (buffer : List ℕ) (at : ℕ) (e : Entry) (tail : List ℕ) : Type 0 where
  pub key_length : get_or buffer at 0 ≡ length e.key
  pub value_length : get_or buffer (add32 at 1) 0 ≡ length e.value
  pub key_bytes : take (length e.key) (drop (add32 at 2) buffer) ≡ e.key
  pub value_bytes : take (length e.value) (drop (add32 at (2 + length e.key)) buffer) ≡ e.value
  pub behind : drop (add32 at (record_size (length e.key) (length e.value))) buffer ≡ tail

pub bytes_of-Reads :
    (before tail : List ℕ) (e : Entry)
    → length before + length (bytes_of e) < 2 ^ 32
    → Reads (before ++ (bytes_of e ++ tail)) (length before) e tail
bytes_of-Reads before tail e small =
    let size = length-bytes_of e in
    let kv = append_assoc (e.key) (e.value) tail in
    let ys = bytes_of e ++ tail in
    record {
      key_length =
          ap (λ k. get_or (before ++ ys) k 0) (omega arith) ∙ get_or-append_right before ys 0 0;
      value_length = seek_cell before ys 1 (omega (arith, size));
      key_bytes =
          ap (take (length e.key)) (seek before ys 2 (omega (arith, size)) ∙ kv)
          ∙ take-length-append (e.key) (e.value ++ tail);
      value_bytes =
          ap (take (length e.value)) (
            seek before ys (2 + length e.key) (omega (arith, size))
            ∙ behind_lengths (length e.key) (length e.key) (length e.value)
                ((e.key ++ e.value) ++ tail)
            ∙ ap (drop (length e.key)) kv
            ∙ drop-length-append (e.key) (e.value ++ tail))
          ∙ take-length-append (e.value) tail;
      behind =
          seek before ys (record_size (length e.key) (length e.value)) (omega (arith, size))
          ∙ ap (λ n. drop n ys) (sym size)
          ∙ drop-length-append (bytes_of e) tail;
    }
