-- ===== src/RingBuffer/Examples.antt =====
-- ring_buffer.c run on small inputs, and its theorems at them.
use pico_framework.Base.{
  ◌≡◌, refl, true, false, some, none, List, [], ◌∷◌, ◌++◌, arith, if◌then◌else◌,
}
use pico_framework.RingBuffer.{
  Ring, advance, capacity, count, free, is_empty, push, copy_in, write_bytes, pop, copy_out,
  peek_bytes, discard, read,
}
use pico_framework.RingBuffer.Inv.{IsValid}
use pico_framework.RingBuffer.Cell.{contents}
use pico_framework.RingBuffer.Queue.{Op, Reply, call, run, fifo_run}
use pico_framework.RingBuffer.Producer.{push_lem}
use pico_framework.RingBuffer.Refine.{run_refines}
use pico_framework.RingBuffer.Interleave.{
  Config, Producer, Consumer, Reach, here, next, check_full, store, start, Reach-in_order,
  push-eq-steps,
}

-- Four slots; 8 and 9 stand at the end of the storage and at its start.
abbrev wrapped : Ring
wrapped = record { storage = 9 ∷ 0 ∷ 0 ∷ 8 ∷ []; size = 4; head = 1; tail = 3 }

abbrev empty : Ring
empty = record { storage = 0 ∷ 0 ∷ 0 ∷ []; size = 3; head = 2; tail = 2 }

abbrev script : List Op
script =
    Op.write (1 ∷ 2 ∷ 3 ∷ [])
    ∷ Op.push 4
    ∷ Op.peek_bytes 2
    ∷ Op.read 2
    ∷ Op.pop
    ∷ Op.pop
    ∷ Op.count
    ∷ []

wrapped-IsValid : IsValid wrapped
wrapped-IsValid = omega arith

empty-IsValid : IsValid empty
empty-IsValid = omega arith

script_replies :
    run wrapped script
    ≡ Reply.amount 1
      ∷ Reply.flag false
      ∷ Reply.bytes (8 ∷ 9 ∷ []) 2
      ∷ Reply.bytes (8 ∷ 9 ∷ []) 2
      ∷ Reply.byte (some 1)
      ∷ Reply.byte none
      ∷ Reply.amount 0
      ∷ []
unfolding run call push write_bytes copy_in peek_bytes copy_out read discard pop count free capacity
    advance is_empty
script_replies = refl

push_lem_example :
    let (rb', done) = push wrapped 7 in
    (done ≡ true) × (contents rb' ≡ (if done then 8 ∷ 9 ∷ 7 ∷ [] else 8 ∷ 9 ∷ [])) × IsValid rb'
push_lem_example = push_lem wrapped-IsValid 7

run_refines_example : run wrapped script ≡ fifo_run 3 (8 ∷ 9 ∷ []) script
run_refines_example = run_refines script wrapped-IsValid

-- One byte written and published, with the consumer checking in between and taking it after.
abbrev middle : Config
middle = record {
  ring = record { storage = 0 ∷ 0 ∷ 7 ∷ []; size = 3; head = 2; tail = 2 };
  producer = Producer.stored 7;
  consumer = Consumer.idle;
  sent = [];
  received = [];
}

middle_reached : Reach (start empty) middle
unfolding advance
middle_reached = next (next here (check_full 7 refl refl)) (store 7 refl)

Reach-in_order_example : ([] ≡ [] ++ contents middle.ring) × IsValid middle.ring
Reach-in_order_example = Reach-in_order empty-IsValid refl middle_reached

push-eq-steps_example :
    Reach
      (start empty)
      (record (start empty) { ring = (push empty 7).0; producer = Producer.idle; sent = 7 ∷ [] })
unfolding push advance
push-eq-steps_example = push-eq-steps (start empty) 7 refl refl
