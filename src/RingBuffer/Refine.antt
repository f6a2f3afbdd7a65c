-- ===== src/RingBuffer/Refine.antt =====
-- ring_buffer.c: a valid buffer answers every call as the bounded FIFO of its bytes does.
use pico_framework.Base.{
  ℕ, zero, suc, ◌+◌, ◌-◌, ◌≤◌, ◌≡◌, refl, ap, ap₂, sym, ◌∙◌, none, some, List, [], ◌∷◌, arith, ltb,
  if◌then◌else◌, length, drop, Bool-cases, inl, inr, ◌==◌, tabulate, ==→ne,
}
use pico_framework.RingBuffer.{Ring, push, write_bytes, peek_bytes, discard, read, clear}
use pico_framework.RingBuffer.Inv.{IsValid, used, count-eq-used, used-lt-size}
use pico_framework.RingBuffer.Cell.{cell, contents, length-contents}
use pico_framework.RingBuffer.Producer.{push_lem, write_bytes_lem}
use pico_framework.RingBuffer.Consumer.{
  moved-IsValid, contents-moved, pop-eq, peek-eq, peek_bytes_lem, discard_lem, read_lem,
}
use pico_framework.RingBuffer.Queue.{Op, Reply, call, run, fifo_call, fifo_run, front}

-- The bytes that `rb` can hold: one slot is kept empty.
abbrev pub room : Ring → ℕ
room rb = rb.size - 1

-- What one call must do to match the FIFO.
abbrev pub Matches : Ring → Op → Type 0
Matches rb op =
    ((call rb op).1 ≡ (fifo_call (room rb) (contents rb) op).1)
    × (contents (call rb op).0 ≡ (fifo_call (room rb) (contents rb) op).0)
    × ((call rb op).0.size ≡ rb.size)
    × IsValid (call rb op).0

push-size : (rb : Ring) (x : ℕ) → (push rb x).0.size ≡ rb.size
unfolding push
push-size rb x = ground arith

write_bytes-size : (rb : Ring) (xs : List ℕ) (n : ℕ) → (write_bytes rb xs n).0.size ≡ rb.size
unfolding write_bytes
write_bytes-size rb xs n = ground arith

discard-size : (rb : Ring) (n : ℕ) → (discard rb n).0.size ≡ rb.size
unfolding discard
discard-size rb n = ground arith

read-size : (rb : Ring) (n : ℕ) → (read rb n).0.size ≡ rb.size
unfolding read
read-size rb n = discard-size rb (peek_bytes rb n).1

push-Matches : {rb : Ring} (x : ℕ) → IsValid rb → Matches rb (Op.push x)
unfolding call fifo_call
push-Matches {rb} x v =
    let p = push_lem v x in
    let small : ltb (length (contents rb)) (room rb) ≡ ltb (used rb + 1) rb.size =
      rw (length-contents rb) (ground (arith, used-lt-size v)) in
    elim (Bool-cases (ltb (used rb + 1) rb.size)) [
      | inl yes_room ↦
          rw (small, yes_room)
            (ap Reply.flag (p.0 ∙ yes_room), p.1 ∙ rw (p.0, yes_room), push-size rb x, p.2)
      | inr no_room ↦
          rw (small, no_room)
            (ap Reply.flag (p.0 ∙ no_room), p.1 ∙ rw (p.0, no_room), push-size rb x, p.2)
    ]

write-Matches : {rb : Ring} (xs : List ℕ) → IsValid rb → Matches rb (Op.write xs)
unfolding call fifo_call
write-Matches {rb} xs v =
    let p = write_bytes_lem v xs (length xs) (omega arith) in
    rw (length-contents rb)
      (ap Reply.amount p.0, p.1 ∙ rw p.0, write_bytes-size rb xs (length xs), p.2)

front-tabulate : (n : ℕ) (f : ℕ → ℕ) → front (tabulate n f) ≡ (if n == 0 then none else some (f 0))
front-tabulate zero f = refl
front-tabulate (suc n) f = ground arith

drop-empty : (n : ℕ) (f : ℕ → ℕ) → n ≡ 0 → drop 1 (tabulate n f) ≡ tabulate n f
drop-empty zero f e = refl
drop-empty (suc n) f e = absurd (omega arith)

pop-Matches : {rb : Ring} → IsValid rb → Matches rb Op.pop
unfolding call fifo_call
pop-Matches {rb} v = elim (Bool-cases (used rb == 0)) [
  | inl empty ↦
      rw (pop-eq v, front-tabulate (used rb) (cell rb), empty)
        (refl, sym (drop-empty (used rb) (cell rb) (ground arith)), refl, v)
  | inr more ↦
      let h : 1 ≤ used rb = omega (arith, ==→ne _ _ more) in
      rw (pop-eq v, front-tabulate (used rb) (cell rb), more)
        (refl, contents-moved 1 v h, refl, moved-IsValid 1 v h)
]

peek-Matches : {rb : Ring} → IsValid rb → Matches rb Op.peek
unfolding call fifo_call
peek-Matches {rb} v =
    (ap Reply.byte (peek-eq v ∙ sym (front-tabulate (used rb) (cell rb))), refl, refl, v)

clear-Matches : {rb : Ring} → IsValid rb → Matches rb Op.clear
unfolding call fifo_call clear
clear-Matches {rb} v =
    let nothing : used (clear rb) ≡ 0 = ground arith in
    (refl, ap (λ k. tabulate k (cell (clear rb))) nothing, refl, ground arith)

call-Matches : {rb : Ring} (op : Op) → IsValid rb → Matches rb op
unfolding call fifo_call
call-Matches {rb} (Op.push x) v = push-Matches x v
call-Matches {rb} (Op.write xs) v = write-Matches xs v
call-Matches {rb} Op.pop v = pop-Matches v
call-Matches {rb} Op.peek v = peek-Matches v
call-Matches {rb} (Op.peek_bytes len) v =
    let p = peek_bytes_lem v len in
    rw (length-contents rb) (ap₂ Reply.bytes (p.1 ∙ rw p.0) p.0, refl, refl, v)
call-Matches {rb} (Op.discard len) v =
    let p = discard_lem v len in
    rw (length-contents rb) (ap Reply.amount p.0, p.1 ∙ rw p.0, discard-size rb len, p.2)
call-Matches {rb} (Op.read len) v =
    let p = read_lem v len in
    rw (length-contents rb)
      (ap₂ Reply.bytes (p.1 ∙ rw p.0) p.0, p.2 ∙ rw p.0, read-size rb len, p.3)
call-Matches {rb} Op.clear v = clear-Matches v
call-Matches {rb} Op.count v =
    (ap Reply.amount (count-eq-used v ∙ sym (length-contents rb)), refl, refl, v)

-- Every sequence of calls on a valid buffer is answered as by a FIFO of `size - 1` bytes that
-- starts with the bytes in the buffer.
pub run_refines :
    (ops : List Op) {rb : Ring} → IsValid rb → run rb ops ≡ fifo_run (room rb) (contents rb) ops
unfolding run fifo_run
run_refines [] v = refl
run_refines (op ∷ ops) {rb} v =
    let m = call-Matches op v in
    ap₂ ◌∷◌ m.0 (run_refines ops m.3 ∙ ap₂ (λ k q. fifo_run k q ops) (ap (λ k. k - 1) m.2) m.1)
