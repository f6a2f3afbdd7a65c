-- ===== src/RingBuffer/Queue.antt =====
-- ring_buffer.c: the calls of a client, and the bounded FIFO that the component promises.
use pico_framework.Base.{
  ℕ, ◌-◌, Bool, true, false, Option, none, some, List, [], ◌∷◌, ◌++◌, ltb, if◌then◌else◌, length,
  take, drop, min,
}
use pico_framework.RingBuffer
use pico_framework.RingBuffer.{Ring}

pub data Op : Type 0 where
  push : ℕ → Op
  write : List ℕ → Op
  pop : Op
  peek : Op
  peek_bytes : ℕ → Op
  discard : ℕ → Op
  read : ℕ → Op
  clear : Op
  count : Op

-- What a call returns: a flag, a byte or none, bytes and their number, a number, nothing.
pub data Reply : Type 0 where
  flag : Bool → Reply
  byte : Option ℕ → Reply
  bytes : List ℕ → ℕ → Reply
  amount : ℕ → Reply
  done : Reply

-- One call on the buffer of ring_buffer.c. A write passes all of its data.
unfoldable pub call : Ring → Op → Ring × Reply
call rb (push x) = let (rb', stored) = RingBuffer.push rb x in (rb', flag stored)
call rb (write xs) = let (rb', n) = RingBuffer.write_bytes rb xs (length xs) in (rb', amount n)
call rb pop = let (rb', x) = RingBuffer.pop rb in (rb', byte x)
call rb peek = (rb, byte (RingBuffer.peek rb))
call rb (peek_bytes len) = let (xs, n) = RingBuffer.peek_bytes rb len in (rb, bytes xs n)
call rb (discard len) = let (rb', n) = RingBuffer.discard rb len in (rb', amount n)
call rb (read len) = let (rb', xs, n) = RingBuffer.read rb len in (rb', bytes xs n)
call rb clear = (RingBuffer.clear rb, done)
call rb count = (rb, amount (RingBuffer.count rb))

unfoldable pub run : Ring → List Op → List Reply
run rb [] = []
run rb (op ∷ ops) = let (rb', reply) = call rb op in reply ∷ run rb' ops

abbrev pub front : List ℕ → Option ℕ
front [] = none
front (x ∷ xs) = some x

-- A FIFO of at most `cap` bytes, oldest first.
module _ (cap : ℕ) where
  unfoldable pub fifo_call : List ℕ → Op → List ℕ × Reply
  fifo_call q (push x) = if ltb (length q) cap then (q ++ (x ∷ []), flag true) else (q, flag false)
  fifo_call q (write xs) = let n = min (length xs) (cap - length q) in (q ++ take n xs, amount n)
  fifo_call q pop = (drop 1 q, byte (front q))
  fifo_call q peek = (q, byte (front q))
  fifo_call q (peek_bytes len) = let n = min len (length q) in (q, bytes (take n q) n)
  fifo_call q (discard len) = let n = min len (length q) in (drop n q, amount n)
  fifo_call q (read len) = let n = min len (length q) in (drop n q, bytes (take n q) n)
  fifo_call q clear = ([], done)
  fifo_call q count = (q, amount (length q))

  unfoldable pub fifo_run : List ℕ → List Op → List Reply
  fifo_run q [] = []
  fifo_run q (op ∷ ops) = let (q', reply) = fifo_call q op in reply ∷ fifo_run q' ops
