-- ===== src/CanFrame/Examples.antt =====
-- can_frame.c: a data frame with an extended identifier.
use pico_framework.Base.{◌≡◌, refl, true, false, [], ◌∷◌, arith}
use pico_framework.CanFrame.{Message, encode, decode, message_is_valid, id_is_valid}
use pico_framework.CanFrame.Codec.{stored, decode-encode}

abbrev frame : Message
frame = record {
  id = 0x12345678;
  length = 3;
  extended = true;
  remote = false;
  payload = 1 ∷ 2 ∷ 3 ∷ 0 ∷ 0 ∷ 0 ∷ 0 ∷ 0 ∷ [];
}

decode-encode_example : decode (encode frame) ≡ stored frame
unfolding message_is_valid id_is_valid
decode-encode_example = decode-encode frame refl (omega arith)
