-- ===== src/RingBuffer.antt =====
-- components/ring_buffer: the functions of ring_buffer.c. A function that changes `*rb` returns the
-- new buffer beside its result. The storage and the data given to a write may be NULL, which is
-- `none`; the handle and the out pointers are not, and their NULL tests stand for no branch here.
pub mod Cell
pub mod Inv
pub mod Producer
pub mod Consumer
pub mod Queue
pub mod Refine
pub mod Interleave
mod Examples
use pico_framework.Base.{
  ℕ, zero, suc, ◌+◌, ◌-◌, ◌%◌, ◌^◌, Bool, true, false, Option, none, some, List, [], ◌∷◌, ltb, leb,
  ◌==◌, if◌then◌else◌, get_or, set, take, drop, blit, ◌++◌, add32, sub32,
}

-- `ring_buffer_t`; the storage is the list of the bytes that the caller handed over.
pub record Ring : Type 0 where
  pub storage : List ℕ
  pub size : ℕ
  pub head : ℕ
  pub tail : ℕ

-- The loop of `advance`: `while (index >= rb->size) index -= rb->size`.
advance_loop : ℕ → ℕ → ℕ → ℕ
advance_loop zero size index = index
advance_loop (suc fuel) size index =
    let rest = advance_loop fuel size (index - size) in if leb size index then rest else index

-- Each round of the loop takes `size ≥ 1` away, so `index + 1` rounds are enough.
pub advance : Ring → ℕ → ℕ → ℕ
unfolding advance_loop
advance rb index by = let start = add32 index by in advance_loop (start + 1) rb.size start

pub init : Option (List ℕ) → ℕ → Option Ring
init none size = none
init (some storage) size =
    if ltb size 2
    then none
    else some (record { storage = storage; size = size; head = 0; tail = 0 })

pub capacity : Ring → ℕ
capacity rb = sub32 rb.size 1

pub count : Ring → ℕ
count rb =
    if leb rb.tail rb.head then sub32 rb.head rb.tail else add32 (sub32 rb.size rb.tail) rb.head

pub free : Ring → ℕ
free rb = sub32 (capacity rb) (count rb)

pub is_empty : Ring → Bool
is_empty rb = rb.head == rb.tail

pub is_full : Ring → Bool
is_full rb = free rb == 0

pub push : Ring → ℕ → Ring × Bool
push rb byte =
    let next = advance rb rb.head 1 in
    if next == rb.tail
    then (rb, false)
    else (record rb { storage = set rb.storage rb.head byte; head = next }, true)

-- The two runs of `ring_buffer_write`: to the end of the storage, then from its start.
pub copy_in : Ring → List ℕ → ℕ → List ℕ
copy_in rb bytes writable =
    let head = rb.head in
    let until_end = sub32 rb.size head in
    let first = if ltb writable until_end then writable else until_end in
    let run = blit rb.storage head (take first bytes) in
    if ltb first writable then blit run 0 (take (sub32 writable first) (drop first bytes)) else run

pub write_bytes : Ring → List ℕ → ℕ → Ring × ℕ
write_bytes rb bytes len =
    let writable = if ltb len (free rb) then len else free rb in
    if writable == 0 then (rb, 0) else (
      record rb { storage = copy_in rb bytes writable; head = advance rb rb.head writable },
      writable,
    )

pub write : Ring → Option (List ℕ) → ℕ → Ring × ℕ
write rb none len = (rb, 0)
write rb (some bytes) len = write_bytes rb bytes len

-- The byte that goes through the out pointer, where the result is `true`.
pub peek : Ring → Option ℕ
peek rb = if is_empty rb then none else some (get_or rb.storage rb.tail 0)

pub pop : Ring → Ring × Option ℕ
pop rb =
    if is_empty rb
    then (rb, none)
    else (record rb { tail = advance rb rb.tail 1 }, some (get_or rb.storage rb.tail 0))

-- The bytes copied out in the two runs of `ring_buffer_peek_bytes`.
pub copy_out : Ring → ℕ → List ℕ
copy_out rb readable =
    let tail = rb.tail in
    let until_end = sub32 rb.size tail in
    let first = if ltb readable until_end then readable else until_end in
    let run = take first (drop tail rb.storage) in
    if ltb first readable then run ++ take (sub32 readable first) rb.storage else run

-- The bytes written to `data`, and how many they are.
pub peek_bytes : Ring → ℕ → List ℕ × ℕ
peek_bytes rb len =
    let readable = if ltb len (count rb) then len else count rb in
    if readable == 0 then ([], 0) else (copy_out rb readable, readable)

pub discard : Ring → ℕ → Ring × ℕ
discard rb len =
    let dropped = if ltb len (count rb) then len else count rb in
    if dropped == 0 then (rb, 0) else (record rb { tail = advance rb rb.tail dropped }, dropped)

pub read : Ring → ℕ → Ring × List ℕ × ℕ
read rb len =
    let (bytes, taken) = peek_bytes rb len in
    let (rb', dropped) = discard rb taken in (rb', bytes, dropped)

pub clear : Ring → Ring
clear rb = record rb { tail = rb.head }
