-- ===== src/ConfigStore/Splice.antt =====
-- config_store.c: what moving the tail and writing a record leave in the buffer.
use pico_framework.Base.{
  blit-append, set-append, blit_lem, blit_two, ℕ, suc, ◌+◌, ◌^◌, ◌≤◌, ◌<◌, ◌≡◌, sym, ap, ◌∙◌, List,
  [], ◌∷◌, ◌++◌, append_assoc, arith, length, length-append, length-take, length-set, length-blit,
  take, drop, set, blit, add32, drop-length-append,
}
use pico_framework.ConfigStore.{write_record}

-- The four writes at the front of a buffer with room for them.
write_front :
    (ys key bytes : List ℕ) (size : ℕ)
    → 2 + length key + length bytes ≤ length ys
    → blit (blit (set (set ys 0 (length key)) 1 size) 2 key) (2 + length key) bytes
      ≡ (length key ∷ size ∷ (key ++ bytes)) ++ drop (2 + length key + length bytes) ys
write_front [] key bytes size h = absurd (omega arith)
write_front (a ∷ []) key bytes size h = absurd (omega arith)
write_front (a ∷ b ∷ ys) key bytes size h =
    let n : 2 + length key ≡ suc (suc (length key)) = omega arith in
    let m : 2 + length key + length bytes ≡ suc (suc (length key + length bytes)) = omega arith in
    rw (m, n)
      (ap (λ l. length key ∷ size ∷ l)
        (blit_two ys key bytes (omega arith)
          ∙ sym (append_assoc key bytes (drop (length key + length bytes) ys))))

module _ {A : Type 0} where
  set_behind :
      (before ys : List A) (n : ℕ) (v : A)
      → length before + n < 2 ^ 32
      → set (before ++ ys) (add32 (length before) n) v ≡ before ++ set ys n v
  set_behind before ys n v small =
      let e : add32 (length before) n ≡ length before + n = omega arith in
      ap (λ k. set (before ++ ys) k v) e ∙ set-append before ys n v

  blit_behind :
      (before ys : List A) (n : ℕ) (src : List A)
      → length before + n < 2 ^ 32
      → blit (before ++ ys) (add32 (length before) n) src ≡ before ++ blit ys n src
  blit_behind before ys n src small =
      let e : add32 (length before) n ≡ length before + n = omega arith in
      ap (λ k. blit (before ++ ys) k src) e ∙ blit-append before ys n src

-- The writes that end `config_set`, behind `before`.
pub write_record_lem :
    (before ys key bytes : List ℕ) (size : ℕ)
    → 2 + length key + length bytes ≤ length ys
    → length before + (2 + length key + length bytes) < 2 ^ 32
    → write_record (before ++ ys) (length before) key size bytes
      ≡ before ++ ((length key ∷ size ∷ (key ++ bytes)) ++ drop (2 + length key + length bytes) ys)
unfolding write_record
write_record_lem before ys key bytes size fits small =
    let n = length before in
    let named = 2 + length key in
    let first = set ys 0 (length key) in
    let header = set first 1 size in
    let here : n ≡ add32 n 0 = omega arith in
    ap
      (λ k.
        blit (blit (set (set (before ++ ys) k (length key)) (add32 n 1) size) (add32 n 2) key)
          (add32 n named) bytes)
      here
    ∙ ap (λ l. blit (blit (set l (add32 n 1) size) (add32 n 2) key) (add32 n named) bytes)
        (set_behind before ys 0 (length key) (omega arith))
    ∙ ap (λ l. blit (blit l (add32 n 2) key) (add32 n named) bytes)
        (set_behind before first 1 size (omega arith))
    ∙ ap (λ l. blit l (add32 n named) bytes) (blit_behind before header 2 key (omega arith))
    ∙ blit_behind before (blit header 2 key) named bytes (omega arith)
    ∙ ap (λ l. before ++ l) (write_front ys key bytes size fits)

pub length-write_record :
    (buffer : List ℕ) (offset : ℕ) (key : List ℕ) (size : ℕ) (bytes : List ℕ)
    → length (write_record buffer offset key size bytes) ≡ length buffer
unfolding write_record
length-write_record buffer offset key size bytes =
    let header = set (set buffer offset (length key)) (add32 offset 1) size in
    length-blit (blit header (add32 offset 2) key) (add32 offset (2 + length key)) bytes
    ∙ length-blit header (add32 offset 2) key
    ∙ length-set (set buffer offset (length key)) (add32 offset 1) size
    ∙ length-set buffer offset (length key)

-- A run copied behind `before`, with what it leaves behind itself.
pub moved :
    (before ys src : List ℕ) (n : ℕ)
    → n + length src ≤ length ys
    → length before + n < 2 ^ 32
    → blit (before ++ ys) (add32 (length before) n) src
      ≡ before ++ (take n ys ++ (src ++ drop (n + length src) ys))
moved before ys src n fits small =
    blit_behind before ys n src small ∙ ap (λ l. before ++ l) (blit_lem ys n src fits)

-- A record written before a tail that was moved to make its room.
pub replaced :
    (before ys tail key bytes : List ℕ)
    → 2 + length key + length bytes + length tail ≤ length ys
    → length before + (2 + length key + length bytes) < 2 ^ 32
    → let room = 2 + length key + length bytes in
      write_record
        (blit (before ++ ys) (add32 (length before) room) tail)
        (length before)
        key
        (length bytes)
        bytes
      ≡ before
        ++ ((length key ∷ length bytes ∷ (key ++ bytes)) ++ (tail ++ drop (room + length tail) ys))
replaced before ys tail key bytes fits small =
    let room = 2 + length key + length bytes in
    let behind = tail ++ drop (room + length tail) ys in
    let front : length (take room ys) ≡ room = omega (arith, length-take room ys) in
    ap (λ l. write_record l (length before) key (length bytes) bytes)
      (moved before ys tail room fits small)
    ∙ write_record_lem before (take room ys ++ behind) key bytes (length bytes)
        (omega (arith, front, length-append (take room ys) behind)) small
    ∙ ap (λ l. before ++ ((length key ∷ length bytes ∷ (key ++ bytes)) ++ l))
        (ap (λ n. drop n (take room ys ++ behind)) (sym front)
          ∙ drop-length-append (take room ys) behind)
