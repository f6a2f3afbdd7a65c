-- ===== src/ServoProtocol/Sent.antt =====
-- servo_protocol.c: what the packets of servo_protocol_build_write_value and
-- servo_protocol_build_sync_write say to a servo that reads them.
use pico_framework.Base.{
  ℕ, zero, suc, ◌+◌, ◌*◌, ◌^◌, ◌≤◌, ◌<◌, ◌≡◌, refl, sym, ap, ◌∙◌, true, false, some, List, [], ◌∷◌,
  ◌++◌, append-nil, arith, length, length-append, get_or, take, drop, ltb, ◌==◌, inl, inr,
  take-length-append, drop-length-append, u8, All,
}
use pico_framework.ServoProtocol.{
  Endianness, ServoResult, Target, is_width, encode_value, decode_value, build_write,
  build_write_value, sync_write_params, sync_params, build_sync_write, parse_status,
}
use pico_framework.ServoProtocol.Packet.{packet, build_lem}
use pico_framework.ServoProtocol.Parse.{status_of, parse_status-packet}
use pico_framework.ServoProtocol.Values.{
  length-encode_value, decode_value-encode_value, width_cases,
}

take_whole : (n : ℕ) (xs : List ℕ) → length xs ≡ n → take n xs ≡ xs
take_whole n xs h =
    ap (λ k. take k xs) (sym h)
    ∙ ap (take (length xs)) (sym (append-nil xs))
    ∙ take-length-append xs []

drop_front : (n : ℕ) (xs rest : List ℕ) → length xs ≡ n → drop n (xs ++ rest) ≡ rest
drop_front n xs rest h = ap (λ k. drop k (xs ++ rest)) (sym h) ∙ drop-length-append xs rest

width_small : (width : ℕ) → is_width width ≡ true → (width ≤ 4) × (0 < width)
width_small width ok = elim (width_cases width ok) [
  | inl a ↦ omega (arith, a)
  | inr (inl a) ↦ omega (arith, a)
  | inr (inr a) ↦ omega (arith, a)
]

pub build_write_value_lem :
    (out : List ℕ) (id reg value width : ℕ) (order : Endianness)
    → is_width width ≡ true
    → width + 7 ≤ length out
    → build_write_value (some out) (length out) id reg value width order ≡ record {
      out = some (packet id 3 (reg ∷ encode_value value width order) ++ drop (width + 7) out);
      written = width + 7;
      result = ServoResult.ok;
    }
unfolding build_write_value build_write
build_write_value_lem out id reg value width order ok room =
    let v = encode_value value width order in
    let size : length v ≡ width = length-encode_value value width order ok in
    let small = width_small width ok in
    let some_bytes : (width == 0) ≡ false = ground (arith, small.1) in
    let few : ltb 128 (width + 1) ≡ false = ground (arith, small.0) in
    let all : take width v ≡ v = take_whole width v size in
    let count : u8 (width + 1) ≡ length (reg ∷ v) = omega (arith, small.0, size) in
    let end : length (reg ∷ v) + 6 ≡ width + 7 = omega (arith, size) in
    rw (ok, some_bytes, few, all, count, sym end)
      (build_lem out id 3 (reg ∷ v) (omega (arith, small.0, size)) (omega (arith, end)))

-- A servo's reading of the parameters behind the register and the width.
abbrev pub read_targets : ℕ → ℕ → Endianness → List ℕ → List Target
read_targets zero width order params = []
read_targets (suc count) width order params =
    record { id = get_or params 0 0; value = decode_value (some (drop 1 params)) width order }
    ∷ read_targets count width order (drop (width + 1) params)

abbrev pub Fits : ℕ → Target → Type 0
Fits width t = t.value < 2 ^ (8 * width)

length-sync_params :
    (width : ℕ) (order : Endianness) (targets : List Target)
    → is_width width ≡ true
    → length (sync_params width order targets) ≡ (width + 1) * length targets
unfolding sync_params
length-sync_params width order [] ok = omega arith
length-sync_params width order (t ∷ targets) ok =
    let v = encode_value t.value width order in
    let step : (width + 1) * suc (length targets) ≡ (width + 1) * length targets + (width + 1) =
      omega arith in
    omega (
      arith,
      length-append v (sync_params width order targets),
      length-encode_value t.value width order ok,
      length-sync_params width order targets ok,
      step,
    )

read_targets_lem :
    (width : ℕ) (order : Endianness) (targets : List Target)
    → is_width width ≡ true
    → All (Fits width) targets
    → read_targets (length targets) width order (sync_params width order targets) ≡ targets
unfolding sync_params
read_targets_lem width order [] ok fit = refl
read_targets_lem width order (t ∷ targets) ok fit =
    let v = encode_value t.value width order in
    let rest = sync_params width order targets in
    let size : length v ≡ width = length-encode_value t.value width order ok in
    let one : width + 1 ≡ suc width = omega arith in
    let next : drop (width + 1) (t.id ∷ (v ++ rest)) ≡ rest =
      ap (λ n. drop n (t.id ∷ (v ++ rest))) one ∙ drop_front width v rest size in
    rw (
      decode_value-encode_value t.value width order rest ok fit.0,
      next,
      read_targets_lem width order targets ok fit.1,
    )

-- The packet of a value carries the register and `width` bytes that stand for the value, where the
-- width is 1, 2 or 4, the value fits it, and the buffer has room for the packet.
pub build_write_value_received :
    (out : List ℕ) (id reg value width : ℕ) (order : Endianness)
    → is_width width ≡ true
    → value < 2 ^ (8 * width)
    → width + 7 ≤ length out
    → (v : List ℕ) × (parse_status
          (build_write_value (some out) (length out) id reg value width order).out
        ≡ (status_of id 3 (reg ∷ v), ServoResult.ok))
      × (length v ≡ width)
      × (decode_value (some v) width order ≡ value)
build_write_value_received out id reg value width order ok small room =
    let v = encode_value value width order in
    let size = length-encode_value value width order ok in
    (
      v,
      ap (λ b. parse_status b.out) (build_write_value_lem out id reg value width order ok room)
          ∙ parse_status-packet id 3 (reg ∷ v) (drop (width + 7) out)
              (omega (arith, size, (width_small width ok).0)),
      size,
      ap (λ l. decode_value (some l) width order) (sym (append-nil v))
          ∙ decode_value-encode_value value width order [] ok small,
    )

-- One packet takes every target to the servo it names, where the width is 1, 2 or 4, every value
-- fits it, there is a target, the parameters are at most 128 and the buffer has room for the packet.
pub build_sync_write_received :
    (out : List ℕ) (reg width : ℕ) (targets : List Target) (order : Endianness)
    → is_width width ≡ true
    → 0 < length targets
    → sync_write_params width (length targets) ≤ 128
    → sync_write_params width (length targets) + 6 ≤ length out
    → All (Fits width) targets
    → (params : List ℕ) × (parse_status
          (build_sync_write (some out) (length out) reg width (some targets) order).out
        ≡ (status_of 0xFE 0x83 (reg ∷ width ∷ params), ServoResult.ok))
      × (length params ≡ (width + 1) * length targets)
      × (read_targets (length targets) width order params ≡ targets)
unfolding sync_write_params build_sync_write
build_sync_write_received out reg width targets order ok some_targets short room fit =
    let params = sync_params width order targets in
    let size = length-sync_params width order targets ok in
    let many : (length targets == 0) ≡ false = ground arith in
    let few : ltb 128 (2 + (width + 1) * length targets) ≡ false = ground arith in
    let count : u8 (2 + (width + 1) * length targets) ≡ length (reg ∷ width ∷ params) =
      omega (arith, size) in
    (
      params,
      rw (many, ok, few, count)
          (ap (λ b. parse_status b.out)
              (build_lem out 0xFE 0x83 (reg ∷ width ∷ params) (omega (arith, size))
                (omega (arith, size)))
            ∙ parse_status-packet 0xFE 0x83 (reg ∷ width ∷ params)
                (drop (length (reg ∷ width ∷ params) + 6) out) (omega (arith, size))),
      size,
      read_targets_lem width order targets ok fit,
    )
