-- ===== src/RingBuffer/Interleave.antt =====
-- ring_buffer.c with an interrupt handler on one side and the main loop on the other: `push` and
-- `pop` cut into their accesses to the shared buffer, and every order in which these may run.
use pico_framework.Base.{
  ℕ, zero, suc, ◌+◌, ◌<◌, ◌≡◌, refl, ap, ap₂, sym, ◌∙◌, true, false, some, List, [], ◌∷◌, ◌++◌,
  arith, drop, Bool-cases, inl, inr, ◌==◌, set, get_or, get_or-set_self, get_or-set_ne, length-set,
  append_assoc, tabulate, tabulate_ext, subst,
}
use native.Mathlib.Nat.{add-zero}
use pico_framework.RingBuffer.{Ring, push, pop, advance, is_empty}
use pico_framework.RingBuffer.Inv.{IsValid, used, slot, advance-eq-slot}
use pico_framework.RingBuffer.Cell.{cell, contents, contents_extend}
use pico_framework.RingBuffer.Producer.{slot-ne, slot-used}
use pico_framework.RingBuffer.Consumer.{moved, moved-IsValid, contents-moved}

-- Where the producer stands inside `ring_buffer_push`.
pub data Producer : Type 0 where
  idle : Producer
  checked : ℕ → Producer
  stored : ℕ → Producer

-- Where the consumer stands inside `ring_buffer_pop`.
pub data Consumer : Type 0 where
  idle : Consumer
  checked : Consumer
  loaded : ℕ → Consumer

-- The buffer, both sides, and the bytes published and delivered so far, first to last.
pub record Config : Type 0 where
  pub ring : Ring
  pub producer : Producer
  pub consumer : Consumer
  pub sent : List ℕ
  pub received : List ℕ

-- The producer finds the buffer not full, writes the byte into the slot at `head`, and then moves
-- `head`; the consumer finds it not empty, reads the byte at `tail`, and then moves `tail`.
pub data Step (c : Config) : Config → Type 0 where
  check_full :
      (byte : ℕ)
      → c.producer ≡ Producer.idle
      → (advance c.ring c.ring.head 1 == c.ring.tail) ≡ false
      → Step c (record c { producer = Producer.checked byte })
  store :
      (byte : ℕ)
      → c.producer ≡ Producer.checked byte
      → Step c (record c {
        ring = record (c.ring) { storage = set c.ring.storage c.ring.head byte };
        producer = Producer.stored byte;
      })
  publish_head :
      (byte : ℕ)
      → c.producer ≡ Producer.stored byte
      → Step c (record c {
        ring = record (c.ring) { head = advance c.ring c.ring.head 1 };
        producer = Producer.idle;
        sent = c.sent ++ (byte ∷ []);
      })
  check_empty :
      c.consumer ≡ Consumer.idle
      → is_empty c.ring ≡ false
      → Step c (record c { consumer = Consumer.checked })
  load :
      c.consumer ≡ Consumer.checked
      → Step c (record c { consumer = Consumer.loaded (get_or c.ring.storage c.ring.tail 0) })
  publish_tail :
      (byte : ℕ)
      → c.consumer ≡ Consumer.loaded byte
      → Step c (record c {
        ring = record (c.ring) { tail = advance c.ring c.ring.tail 1 };
        consumer = Consumer.idle;
        received = c.received ++ (byte ∷ []);
      })

pub data Reach (c : Config) : Config → Type 0 where
  here : Reach c c
  next : {d e : Config} → Reach c d → Step d e → Reach c e

-- What the producer may rely on between its accesses, whatever the consumer does.
abbrev ProducerHolds : Ring → Producer → Type 0
ProducerHolds rb Producer.idle = Unit {0}
ProducerHolds rb (Producer.checked byte) = used rb + 1 < rb.size
ProducerHolds rb (Producer.stored byte) =
    (used rb + 1 < rb.size) × (get_or rb.storage rb.head 0 ≡ byte)

-- What the consumer may rely on between its accesses, whatever the producer does.
abbrev ConsumerHolds : Ring → Consumer → Type 0
ConsumerHolds rb Consumer.idle = Unit {0}
ConsumerHolds rb Consumer.checked = 0 < used rb
ConsumerHolds rb (Consumer.loaded byte) = (0 < used rb) × (get_or rb.storage rb.tail 0 ≡ byte)

pub record IsCoherent (c : Config) : Type 0 where
  pub valid : IsValid c.ring
  pub in_order : c.sent ≡ c.received ++ contents c.ring
  pub producing : ProducerHolds c.ring c.producer
  pub consuming : ConsumerHolds c.ring c.consumer

-- The byte is written, and `head` has not moved.
module _ {rb : Ring} (byte : ℕ) (v : IsValid rb) (room : used rb + 1 < rb.size) where
  abbrev after_store : Ring
  after_store = record rb { storage = set rb.storage rb.head byte }

  after_store-IsValid : IsValid after_store
  after_store-IsValid = ground (arith, length-set rb.storage rb.head byte)

  contents-after_store : contents after_store ≡ contents rb
  contents-after_store =
      tabulate_ext (used rb) (cell after_store) (cell rb) (λ i p.
        get_or-set_ne rb.storage rb.head (slot rb.size (rb.tail + i)) byte 0 (slot-ne i v p))

  after_store-consuming : (side : Consumer) → ConsumerHolds rb side → ConsumerHolds after_store side
  after_store-consuming Consumer.idle h = tt
  after_store-consuming Consumer.checked h = h
  after_store-consuming (Consumer.loaded b) h =
      (h.0, get_or-set_ne rb.storage rb.head rb.tail byte 0 (ground arith) ∙ h.1)

-- `head` has moved past the byte written.
module _ {rb : Ring} (v : IsValid rb) (room : used rb + 1 < rb.size) where
  abbrev after_publish : Ring
  after_publish = record rb { head = advance rb rb.head 1 }

  after_publish-head : advance rb rb.head 1 ≡ slot rb.size (rb.head + 1)
  after_publish-head = advance-eq-slot v rb.head 1 (omega arith) (omega arith)

  after_publish-IsValid : IsValid after_publish
  after_publish-IsValid = ground (arith, after_publish-head)

  used-after_publish : used after_publish ≡ used rb + 1
  used-after_publish = ground (arith, after_publish-head)

  contents-after_publish :
      (byte : ℕ)
      → get_or rb.storage rb.head 0 ≡ byte
      → contents after_publish ≡ contents rb ++ (byte ∷ [])
  contents-after_publish byte e =
      contents_extend rb after_publish (byte ∷ []) 1 used-after_publish (omega arith) (λ i p. refl)
        new
    where
      new : (i : ℕ) → i < 1 → cell after_publish (used rb + i) ≡ get_or (byte ∷ []) i 0
      new zero p = rw (add-zero, slot-used v) e
      new (suc i) p = absurd (omega arith)

  after_publish-consuming :
      (side : Consumer) → ConsumerHolds rb side → ConsumerHolds after_publish side
  after_publish-consuming Consumer.idle h = tt
  after_publish-consuming Consumer.checked h = omega (arith, used-after_publish)
  after_publish-consuming (Consumer.loaded b) h = (omega (arith, used-after_publish), h.1)

tabulate_pos : (n : ℕ) (f : ℕ → ℕ) → 0 < n → tabulate n f ≡ f 0 ∷ drop 1 (tabulate n f)
tabulate_pos zero f h = absurd (omega arith)
tabulate_pos (suc n) f h = refl

-- `tail` has moved past the byte read.
module _ {rb : Ring} (v : IsValid rb) (some_held : 0 < used rb) where
  abbrev after_take : Ring
  after_take = record rb { tail = advance rb rb.tail 1 }

  after_take-eq : after_take ≡ moved rb 1
  after_take-eq =
      ap (λ t. record rb { tail = t }) (advance-eq-slot v rb.tail 1 (omega arith) (omega arith))

  after_take-IsValid : IsValid after_take
  after_take-IsValid = rw after_take-eq (moved-IsValid 1 v (omega arith))

  contents-after_take :
      (byte : ℕ) → get_or rb.storage rb.tail 0 ≡ byte → contents rb ≡ byte ∷ contents after_take
  contents-after_take byte e =
      tabulate_pos (used rb) (cell rb) some_held
      ∙ ap₂ ◌∷◌ (rw add-zero (ground arith))
          (sym (ap contents after_take-eq ∙ contents-moved 1 v (omega arith)))

  after_take-producing : (side : Producer) → ProducerHolds rb side → ProducerHolds after_take side
  after_take-producing Producer.idle h = tt
  after_take-producing (Producer.checked b) h = ground (arith, advance-eq-slot v rb.tail 1)
  after_take-producing (Producer.stored b) h = (ground (arith, advance-eq-slot v rb.tail 1), h.1)

Step-IsCoherent : {c d : Config} → Step c d → IsCoherent c → IsCoherent d
Step-IsCoherent {c} (check_full byte e free_slot) h = record {
  valid = h.valid;
  in_order = h.in_order;
  producing = ground (arith, advance-eq-slot h.valid c.ring.head 1);
  consuming = h.consuming;
}
Step-IsCoherent {c} (store byte e) h =
    let v : IsValid c.ring = h.valid in
    let room : used c.ring + 1 < c.ring.size = subst (ProducerHolds c.ring) e h.producing in
    record {
      valid = after_store-IsValid byte v room;
      in_order = h.in_order ∙ ap (λ l. c.received ++ l) (sym (contents-after_store byte v room));
      producing = (
        room,
        get_or-set_self c.ring.storage c.ring.head byte 0 (omega (arith, v.stored, v.head_in)),
      );
      consuming = after_store-consuming byte v room c.consumer h.consuming;
    }
Step-IsCoherent {c} (publish_head byte e) h =
    let p : ProducerHolds c.ring (Producer.stored byte) =
      subst (ProducerHolds c.ring) e h.producing in
    record {
      valid = after_publish-IsValid h.valid p.0;
      in_order =
          ap (λ l. l ++ (byte ∷ [])) h.in_order
          ∙ (append_assoc c.received (contents c.ring) (byte ∷ [])
              ∙ ap (λ l. c.received ++ l) (sym (contents-after_publish h.valid p.0 byte p.1)));
      producing = tt;
      consuming = after_publish-consuming h.valid p.0 c.consumer h.consuming;
    }
Step-IsCoherent {c} (check_empty e held) h = record {
  valid = h.valid;
  in_order = h.in_order;
  producing = h.producing;
  consuming = unfold is_empty in ground arith;
}
Step-IsCoherent {c} (load e) h = record {
  valid = h.valid;
  in_order = h.in_order;
  producing = h.producing;
  consuming = (subst (ConsumerHolds c.ring) e h.consuming, refl);
}
Step-IsCoherent {c} (publish_tail byte e) h =
    let p : ConsumerHolds c.ring (Consumer.loaded byte) =
      subst (ConsumerHolds c.ring) e h.consuming in
    record {
      valid = after_take-IsValid h.valid p.0;
      in_order =
          h.in_order
          ∙ (ap (λ l. c.received ++ l) (contents-after_take h.valid p.0 byte p.1)
              ∙ sym (append_assoc c.received (byte ∷ []) (contents (after_take h.valid p.0))));
      producing = after_take-producing h.valid p.0 c.producer h.producing;
      consuming = tt;
    }

Reach-IsCoherent : {c d : Config} → IsCoherent c → Reach c d → IsCoherent d
Reach-IsCoherent h here = h
Reach-IsCoherent h (next r st) = Step-IsCoherent st (Reach-IsCoherent h r)

-- Both sides are between calls, and nothing has been sent.
abbrev pub start : Ring → Config
start rb = record {
  ring = rb;
  producer = Producer.idle;
  consumer = Consumer.idle;
  sent = [];
  received = [];
}

-- From an empty valid buffer, in whatever order the accesses of one producer and one consumer run:
-- the buffer stays valid, and the bytes delivered, followed by the bytes in the buffer, are the
-- bytes published, in their order, none lost, doubled or torn.
pub Reach-in_order :
    {rb : Ring} {c : Config}
    → IsValid rb
    → used rb ≡ 0
    → Reach (start rb) c
    → (c.sent ≡ c.received ++ contents c.ring) × IsValid c.ring
Reach-in_order {rb} v empty r =
    let first : IsCoherent (start rb) = record {
      valid = v;
      in_order = ap (λ k. tabulate k (cell rb)) (sym empty);
      producing = tt;
      consuming = tt;
    } in
    let last = Reach-IsCoherent first r in (last.in_order, last.valid)

-- A call of `push` that stores its byte is the three accesses of the producer, uninterrupted.
pub push-eq-steps :
    (c : Config) (byte : ℕ)
    → c.producer ≡ Producer.idle
    → (push c.ring byte).1 ≡ true
    → Reach c (record c {
      ring = (push c.ring byte).0;
      producer = Producer.idle;
      sent = c.sent ++ (byte ∷ []);
    })
unfolding push advance
push-eq-steps c byte e ok = elim (Bool-cases (advance c.ring c.ring.head 1 == c.ring.tail)) [
  | inl full ↦ absurd (ground arith)
  | inr room ↦
      rw room (
        next (next (next here (check_full byte e room)) (store byte refl)) (publish_head byte refl))
]

-- A call of `pop` that returns a byte is the three accesses of the consumer, uninterrupted.
pub pop-eq-steps :
    (c : Config) {byte : ℕ}
    → c.consumer ≡ Consumer.idle
    → (pop c.ring).1 ≡ some byte
    → Reach c (record c {
      ring = (pop c.ring).0;
      consumer = Consumer.idle;
      received = c.received ++ (byte ∷ []);
    })
unfolding pop
pop-eq-steps c {byte} e ok = elim (Bool-cases (is_empty c.ring)) [
  | inl empty ↦ absurd (ground arith)
  | inr held ↦
      let same : get_or c.ring.storage c.ring.tail 0 ≡ byte = ground arith in
      rw (held, ← same)
        (next (next (next here (check_empty e held)) (load refl)) (publish_tail _ refl))
]
