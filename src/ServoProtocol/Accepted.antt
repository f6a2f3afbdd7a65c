-- ===== src/ServoProtocol/Accepted.antt =====
-- servo_protocol.c: what servo_protocol_parse_status takes is a packet, and the beginning of one is
-- reported as incomplete.
use pico_framework.Base.{
  ℕ, zero, suc, ◌+◌, ◌-◌, ◌≤◌, ◌<◌, ◌≡◌, ◌≢◌, ◌↔◌, refl, sym, ap, ap₂, ◌∙◌, false, some, none, List,
  [], ◌∷◌, ◌++◌, append_assoc, arith, length, get_or, take, drop, ltb, leb, if◌then◌else◌,
  take-append-drop, length-take, subst,
}
use pico_framework.ServoProtocol.{Status, ServoResult, checksum, parse_status, parse_body, blank}
use pico_framework.ServoProtocol.Packet.{packet, length-packet, inverted_sum, checksum_lem}
use pico_framework.ServoProtocol.Parse.{status_of, parse_status-packet}

-- Bytes that start with a packet, which the status reports.
pub record IsPacket (bytes : List ℕ) (status : Status) : Type 0 where
  pub id : ℕ
  pub error : ℕ
  pub params : List ℕ
  pub rest : List ℕ
  pub short : length params ≤ 128
  pub shape : bytes ≡ packet id error params ++ rest
  pub reported : status ≡ status_of id error params

-- The bytes from a place on are the byte there and the ones behind it.
drop-get_or :
    (n : ℕ) (bytes : List ℕ)
    → n < length bytes
    → drop n bytes ≡ get_or bytes n 0 ∷ drop (suc n) bytes
drop-get_or n [] h = absurd (omega arith)
drop-get_or zero (b ∷ bytes) h = refl
drop-get_or (suc n) (b ∷ bytes) h = drop-get_or n bytes (omega arith)

split_lem :
    (id error n : ℕ) (tail : List ℕ)
    → n < length tail
    → inverted_sum (id ∷ (n + 2) ∷ error ∷ take n tail) ≡ get_or tail n 0
    → 255 ∷ 255 ∷ id ∷ (n + 2) ∷ error ∷ tail ≡ packet id error (take n tail) ++ drop (suc n) tail
split_lem id error n tail fits sum =
    let count : length (take n tail) ≡ n = omega (arith, length-take n tail) in
    let parts : tail ≡ take n tail ++ get_or tail n 0 ∷ drop (suc n) tail =
      sym (take-append-drop n tail) ∙ ap (λ l. take n tail ++ l) (drop-get_or n tail fits) in
    rw (count, sum)
      (ap (λ l. 255 ∷ 255 ∷ id ∷ (n + 2) ∷ error ∷ l)
        (parts ∙ sym (append_assoc (take n tail) (get_or tail n 0 ∷ []) (drop (suc n) tail))))

-- The conditions of a body that is taken.
parse_body_taken :
    (bytes : List ℕ) (n : ℕ)
    → (parse_body bytes n).1 ≡ ServoResult.ok
    → (n ≤ 128)
      × (n + 6 ≤ length bytes)
      × (checksum (some (take (n + 6 - 1 - 2) (drop 2 bytes))) ≡ get_or bytes (n + 6 - 1) 0)
      × ((parse_body bytes n).0 ≡ record {
        id = get_or bytes 2 0;
        error = get_or bytes 4 0;
        params = if ltb 0 n then some (take n (drop 5 bytes)) else none;
        param_count = n;
        packet_size = n + 6;
      })
unfolding parse_body
parse_body_taken bytes n ok = ground arith

parse_body-IsPacket :
    (id error n : ℕ) (tail : List ℕ)
    → (parse_body (255 ∷ 255 ∷ id ∷ (n + 2) ∷ error ∷ tail) n).1 ≡ ServoResult.ok
    → IsPacket
        (255 ∷ 255 ∷ id ∷ (n + 2) ∷ error ∷ tail)
        (parse_body (255 ∷ 255 ∷ id ∷ (n + 2) ∷ error ∷ tail) n).0
parse_body-IsPacket id error n tail ok =
    let bytes = 255 ∷ 255 ∷ id ∷ (n + 2) ∷ error ∷ tail in
    let t = parse_body_taken bytes n ok in
    let last : n + 6 - 1 ≡ suc (suc (suc (suc (suc n)))) = omega arith in
    let count : n + 6 - 1 - 2 ≡ suc (suc (suc n)) = omega arith in
    let fits : n < length tail = omega (arith, t.1) in
    let size : length (take n tail) ≡ n = omega (arith, length-take n tail) in
    let sum : inverted_sum (id ∷ (n + 2) ∷ error ∷ take n tail) ≡ get_or tail n 0 =
      sym (checksum_lem (id ∷ (n + 2) ∷ error ∷ take n tail))
      ∙ sym (ap (λ k. checksum (some (take k (drop 2 bytes)))) count)
      ∙ t.2
      ∙ ap (λ k. get_or bytes k 0) last in
    record {
      id = id;
      error = error;
      params = take n tail;
      rest = drop (suc n) tail;
      short = omega (arith, t.0, size);
      shape = split_lem id error n tail fits sum;
      reported =
          t.3
          ∙ ap
              (λ m. record {
                id = id;
                error = error;
                params = if ltb 0 m then some (take n tail) else none;
                param_count = m;
                packet_size = m + 6;
              })
              (sym size);
    }

-- The checks in front of the body.
parse_status_taken :
    (a b id len : ℕ) (tail : List ℕ)
    → (parse_status (some (a ∷ b ∷ id ∷ len ∷ tail))).1 ≡ ServoResult.ok
    → (a ≡ 255)
      × (b ≡ 255)
      × (2 ≤ len)
      × (parse_status (some (a ∷ b ∷ id ∷ len ∷ tail))
          ≡ parse_body (a ∷ b ∷ id ∷ len ∷ tail) (len - 2))
unfolding parse_status
parse_status_taken a b id len tail ok = ground arith

-- Fewer than five bytes are never taken.
parse_status_few :
    (bytes : List ℕ) → length bytes < 5 → (parse_status (some bytes)).1 ≢ ServoResult.ok
unfolding parse_status parse_body
parse_status_few bytes few = ground arith

parse_status_ok-IsPacket :
    (bytes : List ℕ)
    → (parse_status (some bytes)).1 ≡ ServoResult.ok
    → IsPacket bytes (parse_status (some bytes)).0
parse_status_ok-IsPacket [] ok = absurd (parse_status_few [] (omega arith) ok)
parse_status_ok-IsPacket (a ∷ []) ok = absurd (parse_status_few (a ∷ []) (omega arith) ok)
parse_status_ok-IsPacket (a ∷ b ∷ []) ok = absurd (parse_status_few (a ∷ b ∷ []) (omega arith) ok)
parse_status_ok-IsPacket (a ∷ b ∷ id ∷ []) ok =
    absurd (parse_status_few (a ∷ b ∷ id ∷ []) (omega arith) ok)
parse_status_ok-IsPacket (a ∷ b ∷ id ∷ len ∷ []) ok =
    absurd (parse_status_few (a ∷ b ∷ id ∷ len ∷ []) (omega arith) ok)
parse_status_ok-IsPacket (a ∷ b ∷ id ∷ len ∷ error ∷ tail) ok =
    let t = parse_status_taken a b id len (error ∷ tail) ok in
    let n = len - 2 in
    let at : len ≡ n + 2 = omega (arith, t.2) in
    let bytes : a ∷ b ∷ id ∷ len ∷ error ∷ tail ≡ 255 ∷ 255 ∷ id ∷ (n + 2) ∷ error ∷ tail =
      ap₂ (λ (x y : ℕ). x ∷ y ∷ id ∷ len ∷ error ∷ tail) t.0 t.1
      ∙ ap (λ (m : ℕ). 255 ∷ 255 ∷ id ∷ m ∷ error ∷ tail) at in
    let body : parse_status (some (a ∷ b ∷ id ∷ len ∷ error ∷ tail))
        ≡ parse_body (255 ∷ 255 ∷ id ∷ (n + 2) ∷ error ∷ tail) n =
      t.3 ∙ ap (λ l. parse_body l n) bytes in
    subst (λ r. IsPacket (a ∷ b ∷ id ∷ len ∷ error ∷ tail) r.0) (sym body)
      (subst (λ l. IsPacket l (parse_body (255 ∷ 255 ∷ id ∷ (n + 2) ∷ error ∷ tail) n).0)
        (sym bytes) (parse_body-IsPacket id error n tail (sym (ap (λ r. r.1) body) ∙ ok)))

-- A status is reported exactly for bytes that start with its packet: two header bytes, the id, the
-- length, the error byte, at most 128 parameters, and a last byte that is what the sum of all but
-- the header lacks to 255, modulo 256.
pub parse_status_iff :
    (bytes : List ℕ) (status : Status)
    → (parse_status (some bytes) ≡ (status, ServoResult.ok)) ↔ IsPacket bytes status
parse_status_iff bytes status = (
  λ e. subst (IsPacket bytes) (ap (λ p. p.0) e) (parse_status_ok-IsPacket bytes (ap (λ p. p.1) e)),
  λ p.
      ap (λ l. parse_status (some l)) p.shape
      ∙ parse_status-packet p.id p.error p.params p.rest p.short
      ∙ ap (λ s. (s, ServoResult.ok)) (sym p.reported),
)

body_incomplete :
    (bytes : List ℕ) (n : ℕ)
    → n ≤ 128
    → length bytes < n + 6
    → parse_body bytes n ≡ (blank, ServoResult.incomplete)
unfolding parse_body
body_incomplete bytes n few short = ground arith

-- The beginning of a packet with at most 128 parameters, of any length short of the whole, is
-- reported as incomplete.
pub parse_status_incomplete :
    (id error : ℕ) (params : List ℕ) (k : ℕ)
    → length params ≤ 128
    → k < length params + 6
    → parse_status (some (take k (packet id error params))) ≡ (blank, ServoResult.incomplete)
unfolding parse_status
parse_status_incomplete id error params zero short part = refl
parse_status_incomplete id error params (suc zero) short part = refl
parse_status_incomplete id error params (suc (suc zero)) short part = refl
parse_status_incomplete id error params (suc (suc (suc zero))) short part = refl
parse_status_incomplete id error params (suc (suc (suc (suc k)))) short part =
    let bytes = take (suc (suc (suc (suc k)))) (packet id error params) in
    let two : ltb (length bytes) 2 ≡ false = ground arith in
    let four : leb (length bytes) 3 ≡ false = ground arith in
    let least : ltb (length params + 2) 2 ≡ false = ground arith in
    let same : length params + 2 - 2 ≡ length params = omega arith in
    rw (two, four, least, same)
      (body_incomplete bytes (length params) short (
        omega (
          arith,
          length-take (suc (suc (suc (suc k)))) (packet id error params),
          length-packet id error params,
        )))
