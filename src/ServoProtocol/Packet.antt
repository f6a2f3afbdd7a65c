-- ===== src/ServoProtocol/Packet.antt =====
-- servo_protocol.c: the packet that servo_protocol_build writes.
use pico_framework.Base.{
  ℕ, suc, ◌+◌, ◌-◌, ◌%◌, ◌≤◌, ◌<◌, ◌≡◌, refl, sym, ap, ◌∙◌, true, false, some, List, [], ◌∷◌, ◌++◌,
  append_assoc, append-nil, arith, length, length-append, take, drop, set, blit, ltb, if◌then◌else◌,
  take-length-append, blit_front, u8,
}
use pico_framework.ServoProtocol.{ServoResult, checksum, sum_bytes, write_packet, build}

-- Everything between the header and the checksum.
abbrev pub body : ℕ → ℕ → List ℕ → List ℕ
body id instruction params = id ∷ (length params + 2) ∷ instruction ∷ params

-- The last byte of a packet: together with the sum of the body it comes to 255, modulo 256.
abbrev pub total : List ℕ → ℕ
total [] = 0
total (b ∷ bytes) = b + total bytes

pub inverted_sum : List ℕ → ℕ
inverted_sum bytes = 255 - total bytes % 256

abbrev pub packet : ℕ → ℕ → List ℕ → List ℕ
packet id instruction params =
    0xFF ∷ 0xFF ∷ (body id instruction params ++ inverted_sum (body id instruction params) ∷ [])

sum_bytes_lem :
    (sum : ℕ) (bytes : List ℕ) → sum < 256 → sum_bytes sum bytes ≡ (sum + total bytes) % 256
unfolding sum_bytes
sum_bytes_lem sum [] h = omega arith
sum_bytes_lem sum (b ∷ bytes) h = omega (arith, sum_bytes_lem (u8 (sum + b)) bytes (omega arith))

pub checksum_lem : (bytes : List ℕ) → checksum (some bytes) ≡ inverted_sum bytes
unfolding checksum inverted_sum
checksum_lem bytes =
    let sums : sum_bytes 0 bytes ≡ total bytes % 256 =
      omega (arith, sum_bytes_lem 0 bytes (omega arith)) in
    ap (λ (n : ℕ). 255 - n) sums

set_end :
    (ps os : List ℕ) (v : ℕ)
    → length ps < length os
    → set (ps ++ drop (length ps) os) (length ps) v ≡ ps ++ v ∷ drop (suc (length ps)) os
set_end [] [] v h = absurd (omega arith)
set_end [] (o ∷ os) v h = refl
set_end (p ∷ ps) [] v h = absurd (omega arith)
set_end (p ∷ ps) (o ∷ os) v h = ap (λ l. p ∷ l) (set_end ps os v (omega arith))

-- The parameters copied behind the five bytes in front of them.
filled_lem :
    (a b c d e : ℕ) (os params : List ℕ)
    → length params ≤ length os
    → (if ltb 0 (length params)
        then blit (a ∷ b ∷ c ∷ d ∷ e ∷ os) 5 (take (length params) params)
        else a ∷ b ∷ c ∷ d ∷ e ∷ os)
      ≡ a ∷ b ∷ c ∷ d ∷ e ∷ (params ++ drop (length params) os)
filled_lem a b c d e os [] h = refl
filled_lem a b c d e os (p ∷ params) h =
    let some_params : ltb 0 (length (p ∷ params)) ≡ true = ground arith in
    let all : take (length (p ∷ params)) (p ∷ params) ≡ p ∷ params =
      ap (take (length (p ∷ params))) (sym (append-nil (p ∷ params)))
      ∙ take-length-append (p ∷ params) [] in
    rw (some_params, all) (ap (λ l. a ∷ b ∷ c ∷ d ∷ e ∷ l) (blit_front os (p ∷ params) h))

-- The checksum written at the end of what stands before it.
abbrev seal : ℕ → List ℕ → List ℕ
seal n filled = set filled (n + 6 - 1) (checksum (some (take (n + 6 - 1 - 2) (drop 2 filled))))

seal_lem :
    (a b c d e : ℕ) (os params : List ℕ)
    → length params < length os
    → seal (length params) (a ∷ b ∷ c ∷ d ∷ e ∷ (params ++ drop (length params) os))
      ≡ a
        ∷ b
        ∷ c
        ∷ d
        ∷ e
        ∷ (params ++ checksum (some (c ∷ d ∷ e ∷ params)) ∷ drop (suc (length params)) os)
seal_lem a b c d e os params h =
    let n = length params in
    let last : n + 6 - 1 ≡ suc (suc (suc (suc (suc n)))) = omega arith in
    let count : n + 6 - 1 - 2 ≡ suc (suc (suc n)) = omega arith in
    rw (count, last, take-length-append params (drop n os))
      (ap (λ l. a ∷ b ∷ c ∷ d ∷ e ∷ l) (set_end params os (checksum (some (c ∷ d ∷ e ∷ params))) h))

write_packet_cells :
    (a b c d e : ℕ) (os : List ℕ) (id instruction : ℕ) (params : List ℕ)
    → length params ≤ 128
    → length params < length os
    → write_packet (a ∷ b ∷ c ∷ d ∷ e ∷ os) id instruction params (length params)
      ≡ packet id instruction params ++ drop (suc (length params)) os
unfolding write_packet
write_packet_cells a b c d e os id instruction params short room =
    let n = length params in
    let size : u8 (n + 2) ≡ n + 2 = omega arith in
    ap (seal n) (filled_lem 255 255 id (u8 (n + 2)) instruction os params (omega arith))
    ∙ seal_lem 255 255 id (u8 (n + 2)) instruction os params room
    ∙ ap
        (λ (m : ℕ).
          255
          ∷ 255
          ∷ id
          ∷ m
          ∷ instruction
          ∷ (params ++ checksum (some (id ∷ m ∷ instruction ∷ params)) ∷ drop (suc n) os))
        size
    ∙ ap (λ (sum : ℕ). 255 ∷ 255 ∷ id ∷ (n + 2) ∷ instruction ∷ (params ++ sum ∷ drop (suc n) os))
        (checksum_lem (body id instruction params))
    ∙ ap (λ l. 255 ∷ 255 ∷ id ∷ (n + 2) ∷ instruction ∷ l)
        (sym
          (append_assoc params (inverted_sum (body id instruction params) ∷ []) (drop (suc n) os)))

pub write_packet_lem :
    (out : List ℕ) (id instruction : ℕ) (params : List ℕ)
    → length params ≤ 128
    → length params + 6 ≤ length out
    → write_packet out id instruction params (length params)
      ≡ packet id instruction params ++ drop (length params + 6) out
write_packet_lem [] id instruction params short room = absurd (omega arith)
write_packet_lem (a ∷ []) id instruction params short room = absurd (omega arith)
write_packet_lem (a ∷ b ∷ []) id instruction params short room = absurd (omega arith)
write_packet_lem (a ∷ b ∷ c ∷ []) id instruction params short room = absurd (omega arith)
write_packet_lem (a ∷ b ∷ c ∷ d ∷ []) id instruction params short room = absurd (omega arith)
write_packet_lem (a ∷ b ∷ c ∷ d ∷ e ∷ os) id instruction params short room =
    let n : length params + 6 ≡ suc (suc (suc (suc (suc (suc (length params)))))) = omega arith in
    rw n (write_packet_cells a b c d e os id instruction params short (omega arith))

pub length-packet :
    (id instruction : ℕ) (params : List ℕ)
    → length (packet id instruction params) ≡ length params + 6
length-packet id instruction params =
    omega (arith, length-append params (inverted_sum (body id instruction params) ∷ []))

-- A buffer with room receives the packet, and the cells behind it are untouched.
pub build_lem :
    (out : List ℕ) (id instruction : ℕ) (params : List ℕ)
    → length params ≤ 128
    → length params + 6 ≤ length out
    → build (some out) (length out) id instruction (some params) (length params) ≡ record {
      out = some (packet id instruction params ++ drop (length params + 6) out);
      written = length params + 6;
      result = ServoResult.ok;
    }
unfolding build
build_lem out id instruction params short room =
    let few : ltb 128 (length params) ≡ false = ground arith in
    let fits : ltb (length out) (length params + 6) ≡ false = ground arith in
    rw (few, fits, write_packet_lem out id instruction params short room)
