-- ===== src/Base/Bits/Or.antt =====
-- `|` of fields that do not overlap is their sum.
use Prim.Native.Nat.{ℕ, zero, suc, ◌+◌, ◌*◌, ◌/◌, ◌%◌, ◌^◌, ◌≤◌, ◌<◌, bit_or}
use mathlib.Core.Path.{◌≡◌, ap, ◌∙◌}
use native.Mathlib.Nat.{pow-suc}
use native.Mathlib.Omega.{arith}
use pico_framework.Base.Word.{u8, shr, shl32}
use pico_framework.Base.Bits.Digits.{bit_or_digit}

bit_or-zero_fuel : (n a : ℕ) → a ≤ n → bit_or a 0 ≡ a
bit_or-zero_fuel zero a h = let e : a ≡ 0 = omega arith in rw e
bit_or-zero_fuel (suc n) a h =
    omega (arith, bit_or_digit a 0, bit_or-zero_fuel n (a / 2) (omega arith))

pub bit_or-zero : (a : ℕ) → bit_or a 0 ≡ a
bit_or-zero a = bit_or-zero_fuel a a (omega arith)

-- `(high << k) | low` for a low part of `k` bits.
pub bit_or_shifted : (k high low : ℕ) → low < 2 ^ k → bit_or (high * 2 ^ k) low ≡ high * 2 ^ k + low
bit_or_shifted zero high low h =
    let e : low ≡ 0 = omega arith in
    let one : high * 2 ^ 0 ≡ high = omega arith in rw (e, one) (bit_or-zero high ∙ omega arith)
bit_or_shifted (suc k) high low h =
    let double : high * 2 ^ suc k ≡ 2 * (high * 2 ^ k) =
      omega (arith, ap (λ (t : ℕ). high * t) (pow-suc 2 k)) in
    let half : high * 2 ^ suc k / 2 ≡ high * 2 ^ k = omega (arith, double) in
    let below : bit_or (high * 2 ^ suc k / 2) (low / 2) ≡ high * 2 ^ k + low / 2 =
      rw half (bit_or_shifted k high (low / 2) (omega (arith, pow-suc 2 k))) in
    omega (arith, bit_or_digit (high * 2 ^ suc k) low, below, double)

bit_or-comm_fuel : (n a b : ℕ) → a ≤ n → b ≤ n → bit_or a b ≡ bit_or b a
bit_or-comm_fuel zero a b h k =
    let e : a ≡ 0 = omega arith in let f : b ≡ 0 = omega arith in rw (e, f)
bit_or-comm_fuel (suc n) a b h k = omega (
  arith,
  bit_or_digit a b,
  bit_or_digit b a,
  bit_or-comm_fuel n (a / 2) (b / 2) (omega arith) (omega arith),
)

pub bit_or_comm : (a b : ℕ) → bit_or a b ≡ bit_or b a
bit_or_comm a b = bit_or-comm_fuel (a + b) a b (omega arith) (omega arith)

-- The four bytes of a word, put together again.
pub word_assembled :
    (id : ℕ)
    → id < 2 ^ 32
    → bit_or
        (bit_or (bit_or (id % 2 ^ 8) (shl32 (u8 (shr id 8)) 8)) (shl32 (u8 (shr id 16)) 16))
        (shl32 (u8 (shr id 24)) 24)
      ≡ id
word_assembled id h =
    let a = id % 2 ^ 8 in
    let b = shl32 (u8 (shr id 8)) 8 in
    let c = shl32 (u8 (shr id 16)) 16 in
    let d = shl32 (u8 (shr id 24)) 24 in
    let two : bit_or a b ≡ b + a =
      bit_or_comm a b
      ∙ (ap (λ t. bit_or t a) (omega arith)
          ∙ bit_or_shifted 8 (u8 (shr id 8)) a (omega arith)
          ∙ omega arith) in
    let three : bit_or (b + a) c ≡ c + (b + a) =
      bit_or_comm (b + a) c
      ∙ (ap (λ t. bit_or t (b + a)) (omega arith)
          ∙ bit_or_shifted 16 (u8 (shr id 16)) (b + a) (omega arith)
          ∙ omega arith) in
    let four : bit_or (c + (b + a)) d ≡ d + (c + (b + a)) =
      bit_or_comm (c + (b + a)) d
      ∙ (ap (λ t. bit_or t (c + (b + a))) (omega arith)
          ∙ bit_or_shifted 24 (u8 (shr id 24)) (c + (b + a)) (omega arith)
          ∙ omega arith) in
    ap (λ t. bit_or (bit_or t c) d) two ∙ (ap (λ t. bit_or t d) three ∙ (four ∙ omega arith))
