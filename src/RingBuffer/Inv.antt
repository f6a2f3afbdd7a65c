-- ===== src/RingBuffer/Inv.antt =====
-- ring_buffer.c: the invariant of `ring_buffer_t`, and the arithmetic of its indices.
use native.Mathlib.Nat.{mod-eq_of_lt, mod-eq-sub-mod}
use pico_framework.Base.{
  ℕ, zero, suc, ◌+◌, ◌-◌, ◌%◌, ◌^◌, ◌≤◌, ◌<◌, ◌≡◌, ap, ◌∙◌, some, List, arith, leb, ◌==◌,
  if◌then◌else◌, length, Bool-cases, inl, inr,
}
use pico_framework.RingBuffer.{Ring, advance_loop, advance, init, capacity, count, free, is_empty}

-- One slot stays empty, so `head` and `tail` run over `size` positions. Storage of more than
-- 2 ^ 31 bytes is beyond the address space of the chip.
pub record IsValid (rb : Ring) : Type 0 where
  pub stored : length rb.storage ≡ rb.size
  pub room : 2 ≤ rb.size
  pub small : rb.size ≤ 2 ^ 31
  pub head_in : rb.head < rb.size
  pub tail_in : rb.tail < rb.size

-- The position `k`, at most one round past the end of the storage.
abbrev pub slot : ℕ → ℕ → ℕ
slot size k = if leb size k then k - size else k

-- How many bytes lie from `tail` up to `head`, going round.
abbrev pub used : Ring → ℕ
used rb = if leb rb.tail rb.head then rb.head - rb.tail else rb.size - rb.tail + rb.head

-- The loop of `advance` stops by its test, at the index modulo the size.
advance_loop_lem :
    (fuel size index : ℕ) → 0 < size → index < fuel → advance_loop fuel size index ≡ index % size
unfolding advance_loop
advance_loop_lem zero size index pos h = absurd (omega arith)
advance_loop_lem (suc fuel) size index pos h = elim (Bool-cases (leb size index)) [
  | inl over ↦ rw over (
      advance_loop_lem fuel size (index - size) pos (ground arith)
      ∙ (ground (arith, mod-eq-sub-mod {n = index} {m = size} (ground arith))))
  | inr under ↦ rw under (ground (arith, mod-eq_of_lt {n = index} {m = size} (ground arith)))
]

pub advance-eq-mod :
    (rb : Ring) (index by : ℕ) → 0 < rb.size → advance rb index by ≡ (index + by) % 2 ^ 32 % rb.size
unfolding advance
advance-eq-mod rb index by pos =
    advance_loop_lem ((index + by) % 2 ^ 32 + 1) rb.size ((index + by) % 2 ^ 32) pos (omega arith)

slot-eq-mod : (size k : ℕ) → k < size + size → k % size ≡ slot size k
slot-eq-mod size k h = elim (Bool-cases (leb size k)) [
  | inl over ↦ rw over (
      ground (arith, mod-eq-sub-mod {n = k} {m = size} (ground arith))
      ∙ mod-eq_of_lt {n = k - size} {m = size} (ground arith))
  | inr under ↦ rw under (mod-eq_of_lt {n = k} {m = size} (ground arith))
]

pub advance-eq-slot :
    {rb : Ring}
    → IsValid rb
    → (index by : ℕ) → index < rb.size
    → by < rb.size
    → advance rb index by ≡ slot rb.size (index + by)
advance-eq-slot {rb} v index by hi hb =
    advance-eq-mod rb index by (omega arith)
    ∙ (ap (λ k. k % rb.size) (omega arith) ∙ slot-eq-mod rb.size (index + by) (omega arith))

pub count-eq-used : {rb : Ring} → IsValid rb → count rb ≡ used rb
unfolding count
count-eq-used v = ground arith

pub capacity-eq : {rb : Ring} → IsValid rb → capacity rb + 1 ≡ rb.size
unfolding capacity
capacity-eq v = omega arith

pub used-lt-size : {rb : Ring} → IsValid rb → used rb < rb.size
used-lt-size v = ground arith

pub free-eq : {rb : Ring} → IsValid rb → free rb + used rb + 1 ≡ rb.size
unfolding free
free-eq {rb} v = omega (arith, count-eq-used v, capacity-eq v, used-lt-size v)

pub is_empty_iff : {rb : Ring} → IsValid rb → (is_empty rb ≡ (used rb == 0))
unfolding is_empty
is_empty_iff v = ground arith

-- `init` accepts storage of at least two bytes, and gives a valid and empty buffer.
pub init-IsValid :
    (storage : List ℕ) (size : ℕ) {rb : Ring}
    → length storage ≡ size
    → size ≤ 2 ^ 31
    → init (some storage) size ≡ some rb
    → IsValid rb × (used rb ≡ 0)
unfolding init
init-IsValid storage size h s e = ground arith
