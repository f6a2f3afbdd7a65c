-- ===== src/HexParser/Errors.antt =====
-- hex_parser.c: what a refused line leaves behind, and that a damaged line is refused.
use pico_framework.Base.{
  subst, ℕ, suc, ◌+◌, ◌/◌, ◌%◌, ◌<◌, ◌≡◌, ◌≢◌, refl, ap, sym, ◌∙◌, true, Option, none, some, List,
  [], ◌∷◌, ◌++◌, length, arith, All, IsByte, Bool-cases, inl, inr, length-append, Option-cases, not,
  ◌||◌, ltb, ◌==◌,
}
use pico_framework.HexParser.{
  Parser, Outcome, HexResult, feed, feed_record, feed_body, check_frame, accept, reject,
  apply_extension, apply_start_address, decode_bytes, trimmed_length, skip_space,
}
use pico_framework.HexParser.Line.{IsBlank}
use pico_framework.HexParser.Frame.{
  frame, line_of, feed-line, sum_bytes-eq, total, length-frame, total-frame, total-append,
}

-- A line that is not accepted leaves the parser alone.
abbrev pub KeepsOnError : Parser → Outcome → Type 0
KeepsOnError p o = o.result ≢ HexResult.ok → o.parser ≡ p

accept-KeepsOnError : (p : Parser) (bytes : List ℕ) → KeepsOnError p (accept p bytes)
unfolding accept apply_extension apply_start_address
accept-KeepsOnError p bytes h = ground arith

check_frame-KeepsOnError :
    (p : Parser) (n : ℕ) (bytes : List ℕ) → KeepsOnError p (check_frame p n bytes)
unfolding check_frame
check_frame-KeepsOnError p n bytes h = ground (arith, accept-KeepsOnError p bytes)

-- Refused before the frame: neither the parser nor the record is touched.
abbrev Refused : Parser → Outcome → Type 0
Refused p o = (o.parser ≡ p) × (o.written ≡ none) × (o.result ≢ HexResult.ok)

-- Either the line never becomes a frame, or the outcome is that of its checks.
data Reaches (p : Parser) (o : Outcome) : Type 0 where
  refused : Refused p o → Reaches p o
  checked : (n : ℕ) (bytes : List ℕ) → o ≡ check_frame p n bytes → Reaches p o

reject-Reaches : (p : Parser) (e : HexResult) → e ≢ HexResult.ok → Reaches p (reject p e)
reject-Reaches p e h = refused (refl, refl, h)

feed_body-Reaches : (p : Parser) (body : List ℕ) → Reaches p (feed_body p body)
unfolding feed_body
feed_body-Reaches p body =
    let len = trimmed_length body in
    elim (Bool-cases (ltb len 10 || not (len % 2 == 0))) [
      | inl short ↦ rw short (reject-Reaches p HexResult.bad_length (λ e. cc))
      | inr shaped ↦ rw shaped (elim (Bool-cases (ltb 260 (len / 2))) [
        | inl long ↦ rw long (reject-Reaches p HexResult.bad_length (λ e. cc))
        | inr fits ↦ rw fits (elim (Option-cases (decode_bytes (len / 2) body)) [
          | inl bad ↦ rw bad (reject-Reaches p HexResult.bad_character (λ e. cc))
          | inr found ↦ rw (found.1) (checked (len / 2) (found.0) refl)
        ])
      ])
    ]

feed_record-Reaches : (p : Parser) (line : List ℕ) → Reaches p (feed_record p line)
unfolding feed_record
feed_record-Reaches p [] = reject-Reaches p HexResult.no_start_code (λ e. cc)
feed_record-Reaches p (c ∷ body) = elim (Bool-cases (c == b':')) [
  | inl colon ↦ rw colon (feed_body-Reaches p body)
  | inr other ↦ rw other (reject-Reaches p HexResult.no_start_code (λ e. cc))
]

feed-Reaches : (p : Parser) (line : Option (List ℕ)) → Reaches p (feed p line)
unfolding feed
feed-Reaches p none = reject-Reaches p HexResult.invalid_arg (λ e. cc)
feed-Reaches p (some line) = feed_record-Reaches p (skip_space line)

Reaches-KeepsOnError : {p : Parser} {o : Outcome} → Reaches p o → KeepsOnError p o
Reaches-KeepsOnError (refused r) h = r.0
Reaches-KeepsOnError {p} (checked n bytes e) h =
    ap (λ o. o.parser) e ∙ check_frame-KeepsOnError p n bytes (λ q. h (ap (λ o. o.result) e ∙ q))

-- Whatever the line, a result other than HEX_OK means that the parser is as it was.
pub feed_error_keeps :
    (p : Parser) (line : Option (List ℕ))
    → (feed p line).result ≢ HexResult.ok
    → (feed p line).parser ≡ p
feed_error_keeps p line = Reaches-KeepsOnError (feed-Reaches p line)

check_frame_after_eof :
    (p : Parser) (n : ℕ) (bytes : List ℕ) → p.seen_eof ≡ true → Refused p (check_frame p n bytes)
unfolding check_frame
check_frame_after_eof p n bytes h = ground arith

Reaches-after_eof : {p : Parser} {o : Outcome} → p.seen_eof ≡ true → Reaches p o → Refused p o
Reaches-after_eof h (refused r) = r
Reaches-after_eof {p} h (checked n bytes e) =
    subst (Refused p) (sym e) (check_frame_after_eof p n bytes h)

-- Once an end-of-file record was seen, no line is accepted, and none changes the parser or the
-- record.
pub feed_after_eof :
    (p : Parser) (line : Option (List ℕ))
    → p.seen_eof ≡ true
    → ((feed p line).parser ≡ p)
      × ((feed p line).written ≡ none)
      × ((feed p line).result ≢ HexResult.ok)
feed_after_eof p line h = Reaches-after_eof h (feed-Reaches p line)

bad_sum :
    (p : Parser) (n : ℕ) (bytes : List ℕ)
    → total bytes % 256 ≢ 0
    → Refused p (check_frame p n bytes)
unfolding check_frame
bad_sum p n bytes h = ground (arith, sum_bytes-eq bytes 0 (omega arith))

-- A line whose frame is right but for one byte is refused, and changes nothing.
pub feed_one_byte :
    (p : Parser) (leading trailing : List ℕ) (type offset : ℕ) (payload : List ℕ)
    (before after : List ℕ) (b c : ℕ)
    → All IsBlank leading
    → All IsBlank trailing
    → length payload < 256
    → frame type offset payload ≡ before ++ b ∷ after
    → All IsByte (before ++ b ∷ after)
    → All IsByte (before ++ c ∷ after)
    → b ≢ c
    → let o = feed p (some (line_of leading (before ++ c ∷ after) trailing)) in
      (o.parser ≡ p) × (o.written ≡ none) × (o.result ≢ HexResult.ok)
feed_one_byte p leading trailing type offset payload before after b c hl ht hs e hb hc ne =
    let right = total-frame type offset payload in
    let sum : (total before + (b + total after)) % 256 ≡ 0 =
      sym (ap (λ t. t % 256) (ap total e ∙ total-append before (b ∷ after))) ∙ right in
    let len : length before + suc (length after) ≡ length payload + 5 =
      sym (length-append before (b ∷ after))
      ∙ (sym (ap length e) ∙ length-frame type offset payload) in
    let bad : total (before ++ c ∷ after) % 256 ≢ 0 = omega (
      arith,
      total-append before (c ∷ after),
      byte_at before after b hb,
      byte_at before after c hc,
    ) in
    rw
      (feed-line p leading trailing (before ++ c ∷ after) hl ht hc
        (omega (arith, length-append {0} before (c ∷ after)))
        (omega (arith, length-append {0} before (c ∷ after))))
      (bad_sum p (length (before ++ c ∷ after)) (before ++ c ∷ after) bad)
  where
    byte_at : (xs ys : List ℕ) (d : ℕ) → All IsByte (xs ++ d ∷ ys) → d < 256
    byte_at [] ys d h = h.0
    byte_at (x ∷ xs) ys d h = byte_at xs ys d h.1
