-- ===== src/HexParser/Line.antt =====
-- hex_parser.c, the characters of a line: printing bytes as hex digits and reading them back, and
-- the white space around them.
use pico_framework.Base.{
  ℕ, zero, suc, ◌+◌, ◌-◌, ◌*◌, ◌/◌, ◌%◌, ◌≤◌, ◌<◌, ◌≡◌, refl, ap, ◌∙◌, true, false, some, List, [],
  ◌∷◌, ◌++◌, ltb, if◌then◌else◌, length, get_or, arith, All, get_or-append_left,
  get_or-append_right, All-get_or, length-append, IsByte,
}
use native.Mathlib.Decide.{ℕ_discrete}
use pico_framework.Base.Bits.Or.{bit_or_shifted}
use pico_framework.HexParser.{
  decode_nibble, decode_byte, decode_bytes, is_space, skip_space, trim_from, trimmed_length,
  string_length,
}

-- The digit that tools print, in upper case.
unfoldable pub hex_digit : ℕ → ℕ
hex_digit n = if ltb n 10 then b'0' + n else b'A' + (n - 10)

abbrev pub print_bytes : List ℕ → List ℕ
print_bytes [] = []
print_bytes (b ∷ bytes) = hex_digit (b / 16) ∷ hex_digit (b % 16) ∷ print_bytes bytes

abbrev pub IsBlank : ℕ → Type 0
IsBlank c = is_space c ≡ true

decode_nibble-hex_digit : (n : ℕ) → n < 16 → decode_nibble (hex_digit n) ≡ some n
unfolding decode_nibble hex_digit
decode_nibble-hex_digit n h = ground arith

decode_byte-print :
    (b : ℕ) → b < 256 → decode_byte (hex_digit (b / 16)) (hex_digit (b % 16)) ≡ some b
unfolding decode_byte
decode_byte-print b h = ground (
  arith,
  decode_nibble-hex_digit (b / 16),
  decode_nibble-hex_digit (b % 16),
  bit_or_shifted 4 (b / 16) (b % 16),
)

pub decode_bytes-print :
    (bytes rest : List ℕ)
    → All IsByte bytes
    → decode_bytes (length bytes) (print_bytes bytes ++ rest) ≡ some bytes
unfolding decode_bytes
decode_bytes-print [] rest h = refl
decode_bytes-print (b ∷ bytes) rest h =
    ground (arith, decode_byte-print b h.0, decode_bytes-print bytes rest h.1)

pub length-print_bytes : (bytes : List ℕ) → length (print_bytes bytes) ≡ 2 * length bytes
length-print_bytes [] = refl
length-print_bytes (b ∷ bytes) = omega (arith, length-print_bytes bytes)

pub hex_digit_not_space : (n : ℕ) → n < 16 → is_space (hex_digit n) ≡ false
unfolding is_space hex_digit
hex_digit_not_space n h = ground arith

All-print_bytes_not_space :
    (bytes : List ℕ) → All IsByte bytes → All (λ c. is_space c ≡ false) (print_bytes bytes)
All-print_bytes_not_space [] h = tt
All-print_bytes_not_space (b ∷ bytes) h = (
  hex_digit_not_space (b / 16) (omega (arith, h.0)),
  (hex_digit_not_space (b % 16) (omega arith), All-print_bytes_not_space bytes h.1),
)

pub skip_space-blank :
    (blank line : List ℕ) (c : ℕ)
    → All IsBlank blank
    → is_space c ≡ false
    → skip_space (blank ++ c ∷ line) ≡ c ∷ line
unfolding skip_space
skip_space-blank [] line c h p = rw p
skip_space-blank (b ∷ blank) line c h p = rw (h.0) (skip_space-blank blank line c h.1 p)

-- White space from `n` on is cut off.
trim_from_blank :
    (line : List ℕ) (n m : ℕ)
    → n ≤ m
    → ((i : ℕ) → n ≤ i → i < m → is_space (get_or line i 0) ≡ true)
    → trim_from line m ≡ trim_from line n
unfolding trim_from
trim_from_blank line n zero h p = let e : n ≡ 0 = omega arith in rw e
trim_from_blank line n (suc m) h p = elim (ℕ_discrete n (suc m)) [
  | yes e ↦ rw e
  | no ne ↦
      rw (p m (omega arith) (omega arith))
        (trim_from_blank line n m (omega arith) (λ i a b. p i a (omega arith)))
]

trim_from_stop :
    (line : List ℕ) (n : ℕ) → is_space (get_or line n 0) ≡ false → trim_from line (suc n) ≡ suc n
unfolding trim_from
trim_from_stop line n h = rw h

string_length-eq : (line : List ℕ) → string_length line ≡ length line
string_length-eq [] = refl
string_length-eq (c ∷ line) = ap suc (string_length-eq line)

-- Digits followed by white space have the length of the digits.
pub trimmed_length-print :
    (bytes blank : List ℕ)
    → All IsByte bytes
    → 0 < length bytes
    → All IsBlank blank
    → trimmed_length (print_bytes bytes ++ blank) ≡ 2 * length bytes
unfolding trimmed_length
trimmed_length-print bytes blank hb pos hs =
    let text = print_bytes bytes in
    let line = text ++ blank in
    let len : length line ≡ length text + length blank = length-append text blank in
    let size = length-print_bytes bytes in
    let spaces : (i : ℕ) → length text ≤ i → i < length line → is_space (get_or line i 0) ≡ true =
      λ i p q.
        let e : i ≡ length text + (i - length text) = omega arith in
        rw (e, get_or-append_right text blank (i - length text) 0)
          (All-get_or IsBlank blank (i - length text) 0 hs (omega arith)) in
    let last : length text ≡ suc (length text - 1) = omega arith in
    let stop : is_space (get_or line (length text - 1) 0) ≡ false =
      rw (get_or-append_left text blank (length text - 1) 0 (omega arith)) (
        All-get_or (λ c. is_space c ≡ false) text (length text - 1) 0
          (All-print_bytes_not_space bytes hb) (omega arith)) in
    rw (string_length-eq line) (
      trim_from_blank line (length text) (length line) (omega arith) spaces
      ∙ (ap (trim_from line) last
          ∙ (trim_from_stop line (length text - 1) stop ∙ omega (arith, size))))
