-- ===== src/RingBuffer/Producer.antt =====
-- ring_buffer.c, the producer's side: what push and write do.
use pico_framework.Base.{
  ◌≢◌, get_or-blit, ◌&&◌, ltb→ge, ℕ, zero, suc, ◌+◌, ◌-◌, ◌≤◌, ◌<◌, ◌≡◌, refl, ap, ◌∙◌, sym, true,
  false, List, [], ◌∷◌, ◌++◌, arith, ltb, leb, if◌then◌else◌, length, get_or, set, take, drop,
  Bool-cases, inl, inr, sub32, min, length-take, length-drop, length-set, length-blit, blit,
  get_or-set_self, get_or-set_ne, get_or-take, get_or-drop, append-nil,
}
use native.Mathlib.Decide.{ℕ_discrete}
use native.Mathlib.Nat.{add-zero}
use pico_framework.RingBuffer.{Ring, free, push, copy_in, write_bytes}
use pico_framework.RingBuffer.Inv.{IsValid, slot, used, advance-eq-slot, used-lt-size, free-eq}
use pico_framework.RingBuffer.Cell.{cell, contents, contents_extend}

-- The buffer after `storage` was written and the head has moved on by `n`.
abbrev grown : Ring → List ℕ → ℕ → Ring
grown rb storage n = record rb { storage = storage; head = slot rb.size (rb.head + n) }

grown-IsValid :
    {rb : Ring} (storage : List ℕ) (n : ℕ)
    → IsValid rb
    → length storage ≡ length rb.storage
    → used rb + n < rb.size
    → IsValid (grown rb storage n)
grown-IsValid storage n v e h = ground arith

used-grown :
    {rb : Ring} (storage : List ℕ) (n : ℕ)
    → IsValid rb
    → used rb + n < rb.size
    → used (grown rb storage n) ≡ used rb + n
used-grown storage n v h = ground arith

-- The head stands where the next byte goes.
pub slot-used : {rb : Ring} → IsValid rb → slot rb.size (rb.tail + used rb) ≡ rb.head
slot-used v = ground arith

-- Two distances below the size are not at one place.
pub slot-ne :
    {rb : Ring} (i : ℕ) → IsValid rb → i < used rb → rb.head ≡ slot rb.size (rb.tail + i) → ⊥
slot-ne i v h e = ground arith

push-full : {rb : Ring} (byte : ℕ) → IsValid rb → used rb + 1 ≡ rb.size → push rb byte ≡ (rb, false)
unfolding push
push-full {rb} byte v h = ground (arith, advance-eq-slot v rb.head 1)

push-room :
    {rb : Ring} (byte : ℕ)
    → IsValid rb
    → used rb + 1 < rb.size
    → push rb byte ≡ (grown rb (set rb.storage rb.head byte) 1, true)
unfolding push
push-room {rb} byte v h = ground (arith, advance-eq-slot v rb.head 1)

contents-push :
    {rb : Ring} (byte : ℕ)
    → IsValid rb
    → used rb + 1 < rb.size
    → contents (grown rb (set rb.storage rb.head byte) 1) ≡ contents rb ++ (byte ∷ [])
contents-push {rb} byte v h =
    contents_extend rb (grown rb (set rb.storage rb.head byte) 1) (byte ∷ []) 1
      (used-grown (set rb.storage rb.head byte) 1 v h) (omega arith)
      (λ i p. get_or-set_ne rb.storage rb.head (slot rb.size (rb.tail + i)) byte 0 (slot-ne i v p))
      new
  where
    new :
        (i : ℕ)
        → i < 1
        → cell (grown rb (set rb.storage rb.head byte) 1) (used rb + i) ≡ get_or (byte ∷ []) i 0
    new zero p =
        rw (add-zero, slot-used v) (get_or-set_self rb.storage rb.head byte 0 (omega arith))
    new (suc i) p = absurd (omega arith)

-- A push stores the byte behind the others exactly when a slot besides the empty one is left, and
-- says so; otherwise it changes nothing. The invariant is kept.
pub push_lem :
    {rb : Ring}
    → IsValid rb
    → (byte : ℕ)
    → let (rb', done) = push rb byte in
      (done ≡ ltb (used rb + 1) rb.size)
      × (contents rb' ≡ (if done then contents rb ++ (byte ∷ []) else contents rb))
      × IsValid rb'
push_lem {rb} v byte = elim (Bool-cases (ltb (used rb + 1) rb.size)) [
  | inl room ↦
      let h : used rb + 1 < rb.size = ground arith in
      rw (push-room byte v h) (
        sym room,
        contents-push byte v h,
        grown-IsValid (set rb.storage rb.head byte) 1 v (length-set rb.storage rb.head byte) h,
      )
  | inr full ↦
      let h : used rb + 1 ≡ rb.size = omega (arith, used-lt-size v, ltb→ge _ _ full) in
      rw (push-full byte v h) (sym full, refl, v)
]

copy_in_one :
    {rb : Ring} (bytes : List ℕ) (n : ℕ)
    → IsValid rb
    → n ≤ rb.size - rb.head
    → copy_in rb bytes n ≡ blit rb.storage rb.head (take n bytes)
unfolding copy_in
copy_in_one bytes n v h = ground arith

copy_in_two :
    {rb : Ring} (bytes : List ℕ) (n : ℕ)
    → IsValid rb
    → n < rb.size
    → rb.size - rb.head < n
    → copy_in rb bytes n
      ≡ blit
          (blit rb.storage rb.head (take (rb.size - rb.head) bytes))
          0
          (take (n - (rb.size - rb.head)) (drop (rb.size - rb.head) bytes))
unfolding copy_in
copy_in_two bytes n v s h = ground arith

length-copy_in :
    (rb : Ring) (bytes : List ℕ) (n : ℕ) → length (copy_in rb bytes n) ≡ length rb.storage
unfolding copy_in
length-copy_in rb bytes n =
    let until_end = sub32 rb.size rb.head in
    let first = if ltb n until_end then n else until_end in
    let run = blit rb.storage rb.head (take first bytes) in
    let rest = take (sub32 n first) (drop first bytes) in
    ground (arith, length-blit rb.storage rb.head (take first bytes), length-blit run 0 rest)

-- The cells written hold the bytes, and those in use keep theirs.
module _ {rb : Ring} (bytes : List ℕ) (n : ℕ) (v : IsValid rb) (fits : n ≤ length bytes)
    (room : used rb + n < rb.size) where
  abbrev until_end : ℕ
  until_end = rb.size - rb.head

  abbrev first_run : List ℕ
  first_run = take until_end bytes

  abbrev last_run : List ℕ
  last_run = take (n - until_end) (drop until_end bytes)

  after_one :
      (j : ℕ)
      → j < rb.size
      → n ≤ until_end
      → get_or (copy_in rb bytes n) j 0 ≡ (
          if leb rb.head j && ltb j (rb.head + n)
          then get_or bytes (j - rb.head) 0
          else get_or rb.storage j 0)
  after_one j p h = rw (copy_in_one bytes n v h) (
      ground (
        arith,
        get_or-blit rb.storage rb.head (take n bytes) j 0,
        length-take n bytes,
        get_or-take n bytes (j - rb.head) 0,
      ))

  after_two :
      (j : ℕ)
      → j < rb.size
      → until_end < n
      → get_or (copy_in rb bytes n) j 0 ≡ (
          if ltb j (n - until_end)
          then get_or bytes (until_end + j) 0
          else if leb rb.head j
          then get_or bytes (j - rb.head) 0
          else get_or rb.storage j 0)
  after_two j p h = rw (copy_in_two bytes n v (omega arith) h) (
      ground (
        arith,
        get_or-blit (blit rb.storage rb.head first_run) 0 last_run j 0,
        get_or-blit rb.storage rb.head first_run j 0,
        length-blit rb.storage rb.head first_run,
        length-take until_end bytes,
        length-take (n - until_end) (drop until_end bytes),
        length-drop until_end bytes,
        get_or-take until_end bytes (j - rb.head) 0,
        get_or-take (n - until_end) (drop until_end bytes) j 0,
        get_or-drop until_end bytes j 0,
      ))

  copied :
      (j : ℕ)
      → j < n
      → get_or (copy_in rb bytes n) (slot rb.size (rb.head + j)) 0 ≡ get_or bytes j 0
  copied j p =
      ground (arith, after_one (slot rb.size (rb.head + j)), after_two (slot rb.size (rb.head + j)))

  kept :
      (i : ℕ) → i < used rb → get_or (copy_in rb bytes n) (slot rb.size (rb.tail + i)) 0 ≡ cell rb i
  kept i p =
      ground (arith, after_one (slot rb.size (rb.tail + i)), after_two (slot rb.size (rb.tail + i)))

abbrev written : Ring → List ℕ → ℕ → Ring
written rb bytes n = grown rb (copy_in rb bytes n) n

contents-written :
    {rb : Ring} (bytes : List ℕ) (n : ℕ)
    → IsValid rb
    → n ≤ length bytes
    → used rb + n < rb.size
    → contents (written rb bytes n) ≡ contents rb ++ take n bytes
contents-written {rb} bytes n v fits room =
    contents_extend rb (written rb bytes n) bytes n (used-grown (copy_in rb bytes n) n v room) fits
      (kept bytes n v fits room)
      (λ i p.
        ap (λ k. get_or (copy_in rb bytes n) k 0) (ground arith) ∙ copied bytes n v fits room i p)

-- How many bytes a write takes.
abbrev pub taken : Ring → ℕ → ℕ
taken rb len = min len (rb.size - 1 - used rb)

write_bytes-none :
    {rb : Ring} (bytes : List ℕ) (len : ℕ)
    → IsValid rb
    → taken rb len ≡ 0
    → write_bytes rb bytes len ≡ (rb, 0)
unfolding write_bytes
write_bytes-none {rb} bytes len v e = ground (arith, free-eq v)

write_bytes-some :
    {rb : Ring} (bytes : List ℕ) (len : ℕ)
    → IsValid rb
    → taken rb len ≢ 0
    → write_bytes rb bytes len ≡ (written rb bytes (taken rb len), taken rb len)
unfolding write_bytes
write_bytes-some {rb} bytes len v ne =
    let amount : (if ltb len (free rb) then len else free rb) ≡ taken rb len =
      ground (arith, free-eq v) in
    ground (arith, amount, free-eq v, advance-eq-slot v rb.head (taken rb len))

-- A write stores the first bytes given behind the others, as many as there is room for, and says
-- how many; the invariant is kept.
pub write_bytes_lem :
    {rb : Ring}
    → IsValid rb
    → (bytes : List ℕ) (len : ℕ) → len ≤ length bytes
    → let (rb', n) = write_bytes rb bytes len in
      (n ≡ taken rb len) × (contents rb' ≡ contents rb ++ take n bytes) × IsValid rb'
write_bytes_lem {rb} v bytes len h = elim (ℕ_discrete (taken rb len) 0) [
  | yes e ↦ rw (write_bytes-none bytes len v e) (sym e, sym (append-nil (contents rb)), v)
  | no ne ↦
      let n = taken rb len in
      let room : used rb + n < rb.size = omega (arith, used-lt-size v) in
      rw (write_bytes-some bytes len v ne) (
        refl,
        contents-written bytes n v (omega arith) room,
        grown-IsValid (copy_in rb bytes n) n v (length-copy_in rb bytes n) room,
      )
]
