-- ===== src/HexParser/Frame.antt =====
-- hex_parser.c: the frame that a tool writes for a record, its checksum, and what the checks of
-- `hex_parser_feed` come to on the line of any bytes.
use pico_framework.Base.{
  ℕ, ◌+◌, ◌-◌, ◌*◌, ◌/◌, ◌%◌, ◌^◌, ◌≤◌, ◌<◌, ◌≡◌, refl, ◌∙◌, false, some, List, [], ◌∷◌, ◌++◌, ltb,
  ◌==◌, length, arith, All, length-append, IsByte, All-append, not, ◌||◌,
}
use pico_framework.HexParser.{
  Parser, feed, feed_record, feed_body, check_frame, accept, sum_bytes, is_space, trimmed_length,
  decode_bytes,
}
use pico_framework.HexParser.Line.{
  IsBlank, print_bytes, decode_bytes-print, skip_space-blank, trimmed_length-print,
}

abbrev pub total : List ℕ → ℕ
total [] = 0
total (b ∷ bytes) = b + total bytes

-- What makes the sum of the frame zero.
abbrev pub checksum : ℕ → ℕ
checksum sum = (256 - sum % 256) % 256

-- Count, address, type, data and checksum.
abbrev pub frame : ℕ → ℕ → List ℕ → List ℕ
frame type offset payload =
    length payload
    ∷ (offset / 256)
    ∷ (offset % 256)
    ∷ type
    ∷ (payload
        ++ checksum (length payload + offset / 256 + offset % 256 + type + total payload) ∷ [])

-- The line of a frame, with white space around it.
abbrev pub line_of : List ℕ → List ℕ → List ℕ → List ℕ
line_of leading bytes trailing = leading ++ b':' ∷ (print_bytes bytes ++ trailing)

pub total-append : (xs ys : List ℕ) → total (xs ++ ys) ≡ total xs + total ys
total-append [] ys = omega arith
total-append (x ∷ xs) ys = omega (arith, total-append xs ys)

pub sum_bytes-eq :
    (bytes : List ℕ) (sum : ℕ) → sum < 256 → sum_bytes sum bytes ≡ (sum + total bytes) % 256
unfolding sum_bytes
sum_bytes-eq [] sum h = omega arith
sum_bytes-eq (b ∷ bytes) sum h = omega (arith, sum_bytes-eq bytes ((sum + b) % 256) (omega arith))

pub length-frame :
    (type offset : ℕ) (payload : List ℕ) → length (frame type offset payload) ≡ length payload + 5
length-frame type offset payload = omega (
  arith,
  length-append {0} payload
      (checksum (length payload + offset / 256 + offset % 256 + type + total payload) ∷ []),
)

pub frame-IsByte :
    (type offset : ℕ) (payload : List ℕ)
    → type < 256
    → offset < 2 ^ 16
    → length payload < 256
    → All IsByte payload
    → All IsByte (frame type offset payload)
frame-IsByte type offset payload ht ho hl hp = (
  hl,
  (
    omega arith,
    (
      omega arith,
      (
        ht,
        All-append IsByte payload
            (checksum (length payload + offset / 256 + offset % 256 + type + total payload) ∷ []) hp
            (omega arith, tt),
      ),
    ),
  ),
)

pub total-frame : (type offset : ℕ) (payload : List ℕ) → total (frame type offset payload) % 256 ≡ 0
total-frame type offset payload = omega (
  arith,
  total-append payload
      (checksum (length payload + offset / 256 + offset % 256 + type + total payload) ∷ []),
)

feed_body-eq :
    (p : Parser) (body bytes : List ℕ) (n : ℕ)
    → trimmed_length body ≡ 2 * n
    → decode_bytes n body ≡ some bytes
    → 5 ≤ n
    → n ≤ 260
    → feed_body p body ≡ check_frame p n bytes
unfolding feed_body
feed_body-eq p body bytes n cut found low high =
    let half : trimmed_length body / 2 ≡ n = omega arith in
    let even : (ltb (trimmed_length body) 10 || not (trimmed_length body % 2 == 0)) ≡ false =
      ground arith in
    rw (even, half, found) (ground arith)

-- The line of any bytes that are enough for a frame and fit one reaches the checks on the frame.
pub feed-line :
    (p : Parser) (leading trailing bytes : List ℕ)
    → All IsBlank leading
    → All IsBlank trailing
    → All IsByte bytes
    → 5 ≤ length bytes
    → length bytes ≤ 260
    → feed p (some (line_of leading bytes trailing)) ≡ check_frame p (length bytes) bytes
unfolding feed feed_record is_space
feed-line p leading trailing bytes hl ht hb low high =
    let body = print_bytes bytes ++ trailing in
    rw (skip_space-blank leading body b':' hl refl) (
      feed_body-eq p body bytes (length bytes)
        (trimmed_length-print bytes trailing hb (omega arith) ht)
        (decode_bytes-print bytes trailing hb) low high)

-- A frame as a tool writes it passes every check.
pub feed-frame :
    (p : Parser) (leading trailing : List ℕ) (type offset : ℕ) (payload : List ℕ)
    → All IsBlank leading
    → All IsBlank trailing
    → type < 256
    → offset < 2 ^ 16
    → length payload < 256
    → All IsByte payload
    → p.seen_eof ≡ false
    → feed p (some (line_of leading (frame type offset payload) trailing))
      ≡ accept p (frame type offset payload)
unfolding check_frame
feed-frame p leading trailing type offset payload hl ht hy ho hs hp open_file =
    let bytes = frame type offset payload in
    let len = length-frame type offset payload in
    feed-line p leading trailing bytes hl ht (frame-IsByte type offset payload hy ho hs hp)
      (omega (arith, len)) (omega (arith, len))
    ∙ ground
        (arith, open_file, len, sum_bytes-eq bytes 0 (omega arith), total-frame type offset payload)
