-- ===== src/ServoProtocol/Parse.antt =====
-- servo_protocol.c: servo_protocol_parse_status takes exactly what starts with a packet.
use pico_framework.Base.{
  ℕ, suc, ◌+◌, ◌-◌, ◌≤◌, ◌≡◌, ap, ◌∙◌, true, false, some, none, List, [], ◌∷◌, ◌++◌, append_assoc,
  arith, length, length-append, get_or, ltb, leb, ◌==◌, if◌then◌else◌, take-length-append,
  get_or-append_right,
}
use pico_framework.ServoProtocol.{Status, ServoResult, parse_status, parse_body}
use pico_framework.ServoProtocol.Packet.{packet, body, length-packet, inverted_sum, checksum_lem}

-- What is reported of a packet.
abbrev pub status_of : ℕ → ℕ → List ℕ → Status
status_of id error params = record {
  id = id;
  error = error;
  params = if ltb 0 (length params) then some params else none;
  param_count = length params;
  packet_size = length params + 6;
}

parse_body-packet :
    (id error : ℕ) (params rest : List ℕ)
    → length params ≤ 128
    → parse_body (packet id error params ++ rest) (length params)
      ≡ (status_of id error params, ServoResult.ok)
unfolding parse_body
parse_body-packet id error params rest short =
    let n = length params in
    let sum = inverted_sum (body id error params) in
    let tail : (params ++ sum ∷ []) ++ rest ≡ params ++ (sum ∷ rest) =
      append_assoc params (sum ∷ []) rest in
    let few : ltb 128 n ≡ false = ground arith in
    let whole : ltb (length (packet id error params ++ rest)) (n + 6) ≡ false =
      ground (arith, length-append (packet id error params) rest, length-packet id error params) in
    let count : n + 6 - 1 - 2 ≡ suc (suc (suc n)) = omega arith in
    let last : n + 6 - 1 ≡ suc (suc (suc (suc (suc n)))) = omega arith in
    let at_end : n ≡ n + 0 = omega arith in
    let read : get_or (params ++ (sum ∷ rest)) n 0 ≡ sum =
      ap (λ k. get_or (params ++ (sum ∷ rest)) k 0) at_end
      ∙ get_or-append_right params (sum ∷ rest) 0 0 in
    let equal : (sum == sum) ≡ true = ground arith in
    rw (
      few,
      whole,
      count,
      last,
      tail,
      take-length-append params (sum ∷ rest),
      read,
      checksum_lem (body id error params),
      equal,
    )

-- A packet is taken, whatever follows it.
pub parse_status-packet :
    (id error : ℕ) (params rest : List ℕ)
    → length params ≤ 128
    → parse_status (some (packet id error params ++ rest))
      ≡ (status_of id error params, ServoResult.ok)
unfolding parse_status
parse_status-packet id error params rest short =
    let n = length params in
    let two : ltb (length (packet id error params ++ rest)) 2 ≡ false = ground arith in
    let four : leb (length (packet id error params ++ rest)) 3 ≡ false = ground arith in
    let least : ltb (n + 2) 2 ≡ false = ground arith in
    let same : n + 2 - 2 ≡ n = omega arith in
    rw (two, four, least, same) (parse_body-packet id error params rest short)
