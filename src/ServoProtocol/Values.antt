-- ===== src/ServoProtocol/Values.antt =====
-- servo_protocol.c: register values, encoded by servo_protocol_encode_value and read back by
-- servo_protocol_decode_value, alone and in the packets that carry them.
use pico_framework.Base.{
  ℕ, zero, suc, ◌+◌, ◌*◌, ◌%◌, ◌^◌, ◌<◌, ◌≡◌, refl, sym, ap, ap₂, ◌∙◌, true, some, List, [], ◌∷◌,
  ◌++◌, append-nil, arith, length, take, inl, inr, ◌⊎◌, take-length-append, shr, shl32, u8, bit_or,
}
use pico_framework.Base.Bits.Or.{word_assembled, bit_or-zero, bit_or_comm}
use pico_framework.ServoProtocol.{
  Endianness, is_width, low_bytes, backwards, encode_value, join_bytes, decode_value,
}

-- Reversal twice over.
backwards_twice : (xs ys zs : List ℕ) → backwards (backwards xs ys) zs ≡ backwards ys (xs ++ zs)
unfolding backwards
backwards_twice [] ys zs = refl
backwards_twice (x ∷ xs) ys zs = backwards_twice xs (x ∷ ys) zs

length-backwards : (xs ys : List ℕ) → length (backwards xs ys) ≡ length xs + length ys
unfolding backwards
length-backwards [] ys = omega arith
length-backwards (x ∷ xs) ys = omega (arith, length-backwards xs (x ∷ ys))

length-low_bytes : (n i value : ℕ) → length (low_bytes n i value) ≡ n
unfolding low_bytes
length-low_bytes zero i value = refl
length-low_bytes (suc n) i value = omega (arith, length-low_bytes n (i + 1) value)

first_byte : (value : ℕ) → bit_or 0 (shl32 (u8 (shr value 0)) 0) ≡ value % 2 ^ 8
first_byte value =
    bit_or_comm 0 (shl32 (u8 (shr value 0)) 0)
    ∙ bit_or-zero (shl32 (u8 (shr value 0)) 0)
    ∙ omega arith

join_four : (value : ℕ) → value < 2 ^ 32 → join_bytes 0 0 (low_bytes 4 0 value) ≡ value
unfolding join_bytes low_bytes
join_four value small =
    ap
      (λ t.
        bit_or (bit_or (bit_or t (shl32 (u8 (shr value 8)) 8)) (shl32 (u8 (shr value 16)) 16))
          (shl32 (u8 (shr value 24)) 24))
      (first_byte value)
    ∙ word_assembled value small

join_two : (value : ℕ) → value < 2 ^ 16 → join_bytes 0 0 (low_bytes 2 0 value) ≡ value
unfolding join_bytes low_bytes
join_two value small =
    let third : shl32 (u8 (shr value 16)) 16 ≡ 0 = omega arith in
    let fourth : shl32 (u8 (shr value 24)) 24 ≡ 0 = omega arith in
    let two = bit_or (value % 2 ^ 8) (shl32 (u8 (shr value 8)) 8) in
    ap (λ t. bit_or t (shl32 (u8 (shr value 8)) 8)) (first_byte value)
    ∙ sym (bit_or-zero two)
    ∙ ap₂ (λ x y. bit_or x y) (sym (bit_or-zero two) ∙ ap (bit_or two) (sym third)) (sym fourth)
    ∙ word_assembled value (omega arith)

join_one : (value : ℕ) → value < 2 ^ 8 → join_bytes 0 0 (low_bytes 1 0 value) ≡ value
unfolding join_bytes low_bytes
join_one value small = first_byte value ∙ omega arith

pub width_cases : (width : ℕ) → is_width width ≡ true → (width ≡ 1) ⊎ ((width ≡ 2) ⊎ (width ≡ 4))
width_cases width h = ground arith

join-low_bytes :
    (value width : ℕ)
    → is_width width ≡ true
    → value < 2 ^ (8 * width)
    → join_bytes 0 0 (low_bytes width 0 value) ≡ value
join-low_bytes value width ok small = elim (width_cases width ok) [
  | inl one ↦ rw one (join_one value (omega (arith, small, ap (λ w. 2 ^ (8 * w)) one)))
  | inr (inl two) ↦ rw two (join_two value (omega (arith, small, ap (λ w. 2 ^ (8 * w)) two)))
  | inr (inr four) ↦ rw four (join_four value (omega (arith, small, ap (λ w. 2 ^ (8 * w)) four)))
]

pub length-encode_value :
    (value width : ℕ) (order : Endianness)
    → is_width width ≡ true
    → length (encode_value value width order) ≡ width
unfolding encode_value
length-encode_value value width Endianness.little ok = rw ok (length-low_bytes width 0 value)
length-encode_value value width Endianness.big ok =
    rw ok
      (omega (arith, length-backwards (low_bytes width 0 value) [], length-low_bytes width 0 value))

take_all : (n : ℕ) (xs rest : List ℕ) → length xs ≡ n → take n (xs ++ rest) ≡ xs
take_all n xs rest h = rw (sym h) (take-length-append xs rest)

-- A value that fits its width is read back from its bytes, in either order, whatever follows them.
pub decode_value-encode_value :
    (value width : ℕ) (order : Endianness) (rest : List ℕ)
    → is_width width ≡ true
    → value < 2 ^ (8 * width)
    → decode_value (some (encode_value value width order ++ rest)) width order ≡ value
unfolding encode_value decode_value backwards
decode_value-encode_value value width Endianness.little rest ok small =
    rw (ok, take_all width (low_bytes width 0 value) rest (length-low_bytes width 0 value))
      (join-low_bytes value width ok small)
decode_value-encode_value value width Endianness.big rest ok small =
    let low = low_bytes width 0 value in
    let size : length (backwards low []) ≡ width =
      omega (arith, length-backwards low [], length-low_bytes width 0 value) in
    let twice : backwards (backwards low []) [] ≡ low =
      backwards_twice low [] [] ∙ append-nil low in
    rw (ok, take_all width (backwards low []) rest size)
      (ap (join_bytes 0 0) twice ∙ join-low_bytes value width ok small)
