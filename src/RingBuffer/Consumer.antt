-- ===== src/RingBuffer/Consumer.antt =====
-- ring_buffer.c, the consumer's side: what peek, pop, peek_bytes, discard, read and clear do.
use native.Mathlib.Nat.{add-zero}
use pico_framework.Base.{
  ℕ, ◌+◌, ◌-◌, ◌≤◌, ◌<◌, ◌≡◌, refl, ap, ◌∙◌, sym, none, some, ◌++◌, arith, leb, ◌==◌, if◌then◌else◌,
  get_or, take, drop, Bool-cases, inl, inr, min, tabulate, tabulate_ext, tabulate_split,
  tabulate-get_or, take-tabulate, take-drop-eq-tabulate, leb→le, ap₂,
}
use pico_framework.RingBuffer.{Ring, is_empty, peek, pop, copy_out, peek_bytes, discard, read}
use pico_framework.RingBuffer.Inv.{
  IsValid, slot, used, advance-eq-slot, count-eq-used, used-lt-size,
}
use pico_framework.RingBuffer.Cell.{cell, contents, contents-drop}

-- The buffer after the tail has moved on by `n`.
abbrev pub moved : Ring → ℕ → Ring
moved rb n = record rb { tail = slot rb.size (rb.tail + n) }

pub moved-IsValid : {rb : Ring} (n : ℕ) → IsValid rb → n ≤ used rb → IsValid (moved rb n)
moved-IsValid n v h = ground arith

pub contents-moved :
    {rb : Ring} (n : ℕ) → IsValid rb → n ≤ used rb → contents (moved rb n) ≡ drop n (contents rb)
contents-moved {rb} n v h =
    contents-drop rb (moved rb n) n (ground arith)
      (λ i p. ap (λ k. get_or rb.storage k 0) (ground arith))

-- One run, or two where the bytes held go round the end.
copy_out_one :
    {rb : Ring} (n : ℕ)
    → IsValid rb
    → n ≤ rb.size - rb.tail
    → copy_out rb n ≡ take n (drop rb.tail rb.storage)
unfolding copy_out
copy_out_one n v h = ground arith

copy_out_two :
    {rb : Ring} (n : ℕ)
    → IsValid rb
    → n < rb.size
    → rb.size - rb.tail < n
    → copy_out rb n
      ≡ take (rb.size - rb.tail) (drop rb.tail rb.storage)
        ++ take (n - (rb.size - rb.tail)) rb.storage
unfolding copy_out
copy_out_two n v s h = ground arith

-- The bytes copied are the oldest `n`, in order.
copy_out-eq : {rb : Ring} (n : ℕ) → IsValid rb → n ≤ used rb → copy_out rb n ≡ take n (contents rb)
copy_out-eq {rb} n v h = elim (Bool-cases (leb n (rb.size - rb.tail))) [
  | inl one ↦
      copy_out_one n v (leb→le _ _ one)
      ∙ (take-drop-eq-tabulate rb.storage rb.tail n 0 (ground arith)
          ∙ (tabulate_ext n (λ i. get_or rb.storage (rb.tail + i) 0) (cell rb)
                (λ i p. ap (λ k. get_or rb.storage k 0) (ground arith))
              ∙ sym (take-tabulate n (used rb) (cell rb) h)))
  | inr two ↦
      copy_out_two n v (omega (arith, used-lt-size v)) (ground arith)
      ∙ (ap₂ ◌++◌ (take-drop-eq-tabulate rb.storage rb.tail (rb.size - rb.tail) 0 (ground arith)) (
            sym (
              tabulate-get_or rb.storage (n - (rb.size - rb.tail)) 0
                (omega (arith, used-lt-size v))))
          ∙ (ap₂ ◌++◌
                (tabulate_ext (rb.size - rb.tail) (λ i. get_or rb.storage (rb.tail + i) 0) (cell rb)
                  (λ i p. ap (λ k. get_or rb.storage k 0) (ground arith)))
                (tabulate_ext (n - (rb.size - rb.tail)) (λ i. get_or rb.storage i 0)
                  (λ i. cell rb (rb.size - rb.tail + i))
                  (λ i p. ap (λ k. get_or rb.storage k 0) (ground arith)))
              ∙ (sym (tabulate_split (rb.size - rb.tail) (n - (rb.size - rb.tail)) (cell rb))
                  ∙ (ap (λ k. tabulate k (cell rb)) (ground arith)
                      ∙ sym (take-tabulate n (used rb) (cell rb) h)))))
]

-- `peek_bytes` hands out the oldest bytes, as many as asked for and held, and says how many.
pub peek_bytes_lem :
    {rb : Ring}
    → IsValid rb
    → (len : ℕ)
    → let (bytes, n) = peek_bytes rb len in (n ≡ min len (used rb)) × (bytes ≡ take n (contents rb))
unfolding peek_bytes
peek_bytes_lem {rb} v len =
    ground (arith, count-eq-used v, copy_out-eq len v, copy_out-eq (used rb) v)

discard-eq :
    {rb : Ring}
    → IsValid rb
    → (len : ℕ) → discard rb len ≡ (moved rb (min len (used rb)), min len (used rb))
unfolding discard
discard-eq {rb} v len = ground (
  arith,
  count-eq-used v,
  used-lt-size v,
  advance-eq-slot v rb.tail len,
  advance-eq-slot v rb.tail (used rb),
)

-- A discard drops the oldest bytes, as many as asked for and held, and keeps the invariant.
pub discard_lem :
    {rb : Ring}
    → IsValid rb
    → (len : ℕ)
    → let (rb', n) = discard rb len in
      (n ≡ min len (used rb)) × (contents rb' ≡ drop n (contents rb)) × IsValid rb'
discard_lem {rb} v len =
    let n = min len (used rb) in
    let e : n ≤ used rb = omega arith in
    rw (discard-eq v len) (refl, contents-moved n v e, moved-IsValid n v e)

-- A read hands out the oldest bytes, as many as asked for and held, and leaves the others.
pub read_lem :
    {rb : Ring}
    → IsValid rb
    → (len : ℕ)
    → let (rb', bytes, n) = read rb len in
      (n ≡ min len (used rb))
      × (bytes ≡ take n (contents rb))
      × (contents rb' ≡ drop n (contents rb))
      × IsValid rb'
unfolding read
read_lem {rb} v len =
    let n = (peek_bytes rb len).1 in
    let p = peek_bytes_lem v len in
    let d = discard_lem v n in
    let same : (discard rb n).1 ≡ n = omega (arith, p.0, d.0) in
    (omega (arith, same, p.0), rw same (p.1), d.1, d.2)

pub pop-eq :
    {rb : Ring}
    → IsValid rb
    → pop rb ≡ (if used rb == 0 then (rb, none) else (moved rb 1, some (cell rb 0)))
unfolding pop is_empty
pop-eq {rb} v = ground (arith, advance-eq-slot v rb.tail 1, add-zero rb.tail)

pub peek-eq : {rb : Ring} → IsValid rb → peek rb ≡ (if used rb == 0 then none else some (cell rb 0))
unfolding peek is_empty
peek-eq {rb} v = ground (arith, add-zero rb.tail)
