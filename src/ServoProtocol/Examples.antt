-- ===== src/ServoProtocol/Examples.antt =====
-- Packets built and taken at concrete values.
use pico_framework.Base.{ℕ, ◌≡◌, refl, ◌↔◌, some, List, [], ◌∷◌, arith, length, take}
use pico_framework.ServoProtocol.{
  Endianness, ServoResult, Target, parse_status, build_write_value, build_sync_write, blank,
  decode_value, checksum, sum_bytes, build_ping, build_read, build, write_packet, sync_write_params,
}
use pico_framework.ServoProtocol.Packet.{packet}
use pico_framework.ServoProtocol.Parse.{status_of}
use pico_framework.ServoProtocol.Accepted.{IsPacket, parse_status_iff, parse_status_incomplete}
use pico_framework.ServoProtocol.Sent.{
  read_targets, build_write_value_received, build_sync_write_received,
}

abbrev buffer : List ℕ
buffer = 0 ∷ 0 ∷ 0 ∷ 0 ∷ 0 ∷ 0 ∷ 0 ∷ 0 ∷ 0 ∷ 0 ∷ 0 ∷ 0 ∷ 0 ∷ 0 ∷ 0 ∷ 0 ∷ []

-- A ping to servo 1 is `FF FF 01 02 01 FB`.
ping_bytes :
    (build_ping (some buffer) 16 1).out
    ≡ some (255 ∷ 255 ∷ 1 ∷ 2 ∷ 1 ∷ 251 ∷ 0 ∷ 0 ∷ 0 ∷ 0 ∷ 0 ∷ 0 ∷ 0 ∷ 0 ∷ 0 ∷ 0 ∷ [])
unfolding build_ping build write_packet checksum sum_bytes
ping_bytes = refl

-- A read of no byte is refused.
read_none : (build_read (some buffer) 16 1 56 0).result ≡ ServoResult.invalid_arg
unfolding build_read
read_none = refl

-- The answer of servo 1 with position 512, followed by the first byte of another packet.
abbrev answer : List ℕ
answer = 255 ∷ 255 ∷ 1 ∷ 4 ∷ 0 ∷ 0 ∷ 2 ∷ 248 ∷ 255 ∷ []

parse_status_iff_example :
    (parse_status (some answer) ≡ (status_of 1 0 (0 ∷ 2 ∷ []), ServoResult.ok))
    ↔ IsPacket answer (status_of 1 0 (0 ∷ 2 ∷ []))
parse_status_iff_example = parse_status_iff answer (status_of 1 0 (0 ∷ 2 ∷ []))

parse_status_incomplete_example :
    parse_status (some (take 5 (packet 1 0 (0 ∷ 2 ∷ [])))) ≡ (blank, ServoResult.incomplete)
parse_status_incomplete_example =
    parse_status_incomplete 1 0 (0 ∷ 2 ∷ []) 5 (omega arith) (omega arith)

build_write_value_received_example :
    (v : List ℕ) × (parse_status (build_write_value (some buffer) 16 1 42 1000 2 Endianness.big).out
      ≡ (status_of 1 3 (42 ∷ v), ServoResult.ok))
    × (length v ≡ 2)
    × (decode_value (some v) 2 Endianness.big ≡ 1000)
build_write_value_received_example =
    build_write_value_received buffer 1 42 1000 2 Endianness.big refl (omega arith) (omega arith)

abbrev targets : List Target
targets = record { id = 1; value = 500 } ∷ record { id = 2; value = 600 } ∷ []

build_sync_write_received_example :
    (params : List ℕ) × (parse_status
        (build_sync_write (some buffer) 16 42 2 (some targets) Endianness.little).out
      ≡ (status_of 0xFE 0x83 (42 ∷ 2 ∷ params), ServoResult.ok))
    × (length params ≡ 6)
    × (read_targets 2 2 Endianness.little params ≡ targets)
unfolding sync_write_params
build_sync_write_received_example =
    build_sync_write_received buffer 42 2 targets Endianness.little refl (omega arith) (omega arith)
      (omega arith) (omega arith, (omega arith, tt))
