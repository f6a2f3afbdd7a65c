-- ===== src/CanFrame/Codec.antt =====
-- can_frame.c: a message through the record that the queue holds.
use pico_framework.Base.{
  ℕ, zero, suc, ◌^◌, ◌≤◌, ◌<◌, ◌≡◌, refl, ap, ◌∙◌, Bool, true, false, List, [], ◌∷◌, arith, take,
  blit, replicate, length, bit_or, bit_and, if◌then◌else◌, not, ◌==◌, some,
}
use pico_framework.Base.Bits.Or.{word_assembled}
use pico_framework.CanFrame.{
  Message, encode, decode, max_data_length, dlc_to_length, message_is_valid, id_is_valid,
}

blit-zeros : (n k m : ℕ) → blit {A = ℕ} (replicate n 0) 0 (take k (replicate m 0)) ≡ replicate n 0
blit-zeros zero k m = refl
blit-zeros (suc n) zero m = refl
blit-zeros (suc n) (suc k) zero = refl
blit-zeros (suc n) (suc k) (suc m) = ap (λ (l : List ℕ). 0 ∷ l) (blit-zeros n k m)

take-blit-take :
    (k : ℕ) (dst src : List ℕ)
    → k ≤ length src
    → k ≤ length dst
    → take k (blit dst 0 (take k src)) ≡ take k src
take-blit-take zero dst src a b = refl
take-blit-take (suc k) [] src a b = absurd (omega arith)
take-blit-take (suc k) (x ∷ dst) [] a b = absurd (omega arith)
take-blit-take (suc k) (x ∷ dst) (y ∷ src) a b =
    ap (λ l. y ∷ l) (take-blit-take k dst src (omega arith) (omega arith))

-- What the queue keeps of a message: the bytes that its length covers, and none of a remote request.
abbrev pub stored : Message → Message
stored m = record m {
  payload =
      blit (replicate max_data_length 0) 0 (if not m.remote then take m.length m.payload else []);
}

flags :
    (extended remote : Bool)
    → let f = bit_or (if extended then 1 else 0) (if remote then 2 else 0) in
      ((not (bit_and f 1 == 0)) ≡ extended) × ((not (bit_and f 2 == 0)) ≡ remote)
flags true true = (refl, refl)
flags true false = (refl, refl)
flags false true = (refl, refl)
flags false false = (refl, refl)

covered :
    (k : ℕ) (remote : Bool) (payload : List ℕ)
    → k ≤ 8
    → k ≤ length payload
    → let kept = if not remote then take k payload else [] in
      blit {A = ℕ} (replicate 8 0) 0 (take k (blit (replicate 10 0) 0 kept))
      ≡ blit (replicate 8 0) 0 kept
covered k true payload h full = blit-zeros 8 k 10
covered k false payload h full =
    ap (λ l. blit {A = ℕ} (replicate 8 0) 0 l)
      (take-blit-take k (replicate 10 0) payload full (omega arith))

fits : (m : Message) → message_is_valid (some m) ≡ true → (m.length ≤ 8) × (m.id < 2 ^ 32)
unfolding message_is_valid id_is_valid
fits m valid = ground arith

-- A valid message whose array holds the bytes of its length comes back from its record as it was,
-- with those bytes; a remote request comes back with no bytes.
pub decode-encode :
    (m : Message)
    → message_is_valid (some m) ≡ true
    → m.length ≤ length m.payload
    → decode (encode m) ≡ stored m
unfolding decode encode dlc_to_length
decode-encode m valid full =
    let bound = fits m valid in
    let short : dlc_to_length m.length ≡ m.length = ground (arith, bound.0) in
    let f = flags (m.extended) (m.remote) in
    let bytes =
      blit {A = ℕ} (replicate 10 0) 0 (if not m.remote then take m.length m.payload else []) in
    let same =
      ap (λ k. blit {A = ℕ} (replicate 8 0) 0 (take k bytes)) short
      ∙ covered (m.length) (m.remote) (m.payload) bound.0 full in
    λ i. record {
      id = word_assembled (m.id) bound.1 i;
      length = short i;
      extended = f.0 i;
      remote = f.1 i;
      payload = same i;
    }
