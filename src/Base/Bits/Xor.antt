-- ===== src/Base/Bits/Xor.antt =====
-- `^`: it undoes itself, keeps a width, and sets a top bit that only one side has.
use Prim.Native.Nat.{ℕ, zero, suc, ◌+◌, ◌/◌, ◌%◌, ◌^◌, ◌≤◌, ◌<◌, differ, bit_xor, bit_xor-bitwise}
use mathlib.Core.Path.{◌≡◌, refl, sym, ap, ◌∙◌}
use native.Mathlib.Nat.{pow-suc}
use native.Mathlib.Omega.{arith}
use pico_framework.Base.Bits.Digits.{bit_xor_digit}

differ-lt : (x y : ℕ) → x < 2 → y < 2 → differ x y < 2
differ-lt zero y p q = q
differ-lt (suc zero) zero p q = omega arith
differ-lt (suc zero) (suc y) p q = omega arith
differ-lt (suc (suc x)) y p q = absurd (omega arith)

differ-differ : (x y : ℕ) → x < 2 → y < 2 → differ (differ x y) y ≡ x
differ-differ zero zero p q = refl
differ-differ zero (suc zero) p q = refl
differ-differ zero (suc (suc y)) p q = absurd (omega arith)
differ-differ (suc zero) zero p q = refl
differ-differ (suc zero) (suc zero) p q = refl
differ-differ (suc zero) (suc (suc y)) p q = absurd (omega arith)
differ-differ (suc (suc x)) y p q = absurd (omega arith)

differ_comm : (x y : ℕ) → x < 2 → y < 2 → differ x y ≡ differ y x
differ_comm zero zero p q = refl
differ_comm zero (suc y) p q = refl
differ_comm (suc x) zero p q = refl
differ_comm (suc zero) (suc zero) p q = refl
differ_comm (suc zero) (suc (suc y)) p q = absurd (omega arith)
differ_comm (suc (suc x)) (suc y) p q = absurd (omega arith)

pub bit_xor-mod : (a b : ℕ) → bit_xor a b % 2 ≡ differ (a % 2) (b % 2)
bit_xor-mod a b =
    omega (arith, bit_xor_digit a b, differ-lt (a % 2) (b % 2) (omega arith) (omega arith))

pub bit_xor-div : (a b : ℕ) → bit_xor a b / 2 ≡ bit_xor (a / 2) (b / 2)
bit_xor-div a b =
    omega (arith, bit_xor_digit a b, differ-lt (a % 2) (b % 2) (omega arith) (omega arith))

-- Two numbers of which halves and lowest digits agree.
pub eq_of_halves : (a b : ℕ) → a / 2 ≡ b / 2 → a % 2 ≡ b % 2 → a ≡ b
eq_of_halves a b p q = omega arith

bit_xor_zeros : (a b : ℕ) → a ≡ 0 → b ≡ 0 → bit_xor a b ≡ 0
bit_xor_zeros a b p q = rw (p, q)

-- Induction over the digits of both numbers.
pub bit_xor-lt : (k a b : ℕ) → a < 2 ^ k → b < 2 ^ k → bit_xor a b < 2 ^ k
bit_xor-lt zero a b p q = omega (arith, bit_xor_zeros a b (omega arith) (omega arith))
bit_xor-lt (suc k) a b p q = omega (
  arith,
  bit_xor-div a b,
  pow-suc 2 k,
  bit_xor-lt k (a / 2) (b / 2) (omega (arith, pow-suc 2 k)) (omega (arith, pow-suc 2 k)),
)

bit_xor-bit_xor_fuel : (n a b : ℕ) → a ≤ n → b ≤ n → bit_xor (bit_xor a b) b ≡ a
bit_xor-bit_xor_fuel zero a b p q =
    let ea : a ≡ 0 = omega arith in let eb : b ≡ 0 = omega arith in rw (ea, eb)
bit_xor-bit_xor_fuel (suc n) a b p q =
    eq_of_halves (bit_xor (bit_xor a b) b) a
      (bit_xor-div (bit_xor a b) b
        ∙ (ap (λ t. bit_xor t (b / 2)) (bit_xor-div a b)
            ∙ bit_xor-bit_xor_fuel n (a / 2) (b / 2) (omega arith) (omega arith)))
      (bit_xor-mod (bit_xor a b) b
        ∙ (ap (λ t. differ t (b % 2)) (bit_xor-mod a b)
            ∙ differ-differ (a % 2) (b % 2) (omega arith) (omega arith)))

pub bit_xor-bit_xor : (a b : ℕ) → bit_xor (bit_xor a b) b ≡ a
bit_xor-bit_xor a b = bit_xor-bit_xor_fuel (a + b) a b (omega arith) (omega arith)

bit_xor_comm_fuel : (n a b : ℕ) → a ≤ n → b ≤ n → bit_xor a b ≡ bit_xor b a
bit_xor_comm_fuel zero a b p q =
    let ea : a ≡ 0 = omega arith in let eb : b ≡ 0 = omega arith in rw (ea, eb)
bit_xor_comm_fuel (suc n) a b p q =
    eq_of_halves (bit_xor a b) (bit_xor b a)
      (bit_xor-div a b
        ∙ (bit_xor_comm_fuel n (a / 2) (b / 2) (omega arith) (omega arith) ∙ sym (bit_xor-div b a)))
      (bit_xor-mod a b
        ∙ (differ_comm (a % 2) (b % 2) (omega arith) (omega arith) ∙ sym (bit_xor-mod b a)))

pub bit_xor_comm : (a b : ℕ) → bit_xor a b ≡ bit_xor b a
bit_xor_comm a b = bit_xor_comm_fuel (a + b) a b (omega arith) (omega arith)

-- Either side of `^` can be cancelled.
pub bit_xor_cancel_right : (a b c : ℕ) → bit_xor a c ≡ bit_xor b c → a ≡ b
bit_xor_cancel_right a b c e =
    sym (bit_xor-bit_xor a c) ∙ (ap (λ t. bit_xor t c) e ∙ bit_xor-bit_xor b c)

pub bit_xor_cancel_left : (a b c : ℕ) → bit_xor c a ≡ bit_xor c b → a ≡ b
bit_xor_cancel_left a b c e = bit_xor_cancel_right a b c (bit_xor_comm a c ∙ (e ∙ bit_xor_comm c b))

-- A top bit that only `b` has is in the result.
pub bit_xor_top : (k a b : ℕ) → a < 2 ^ k → 2 ^ k ≤ b → 2 ^ k ≤ bit_xor a b
bit_xor_top zero a b p q =
    let ea : a ≡ 0 = omega arith in
    let zeros : bit_xor 0 b ≡ b = bit_xor-bitwise 0 b in rw ea (rw zeros q)
bit_xor_top (suc k) a b p q = omega (
  arith,
  bit_xor-div a b,
  pow-suc 2 k,
  bit_xor_top k (a / 2) (b / 2) (omega (arith, pow-suc 2 k)) (omega (arith, pow-suc 2 k)),
)

-- A top bit that only the left side has stays, whatever is below it.
pub bit_xor_high : (k a b : ℕ) → a < 2 ^ k → b < 2 ^ k → bit_xor (2 ^ k + a) b ≡ 2 ^ k + bit_xor a b
bit_xor_high zero a b p q =
    let ea : a ≡ 0 = omega arith in let eb : b ≡ 0 = omega arith in rw (ea, eb)
bit_xor_high (suc k) a b p q =
    let half : (2 ^ suc k + a) / 2 ≡ 2 ^ k + a / 2 = omega (arith, pow-suc 2 k) in
    let low : (2 ^ suc k + a) % 2 ≡ a % 2 = omega (arith, pow-suc 2 k) in
    let below =
      bit_xor_high k (a / 2) (b / 2) (omega (arith, pow-suc 2 k)) (omega (arith, pow-suc 2 k)) in
    eq_of_halves (bit_xor (2 ^ suc k + a) b) (2 ^ suc k + bit_xor a b)
      (bit_xor-div (2 ^ suc k + a) b
        ∙ (ap (λ t. bit_xor t (b / 2)) half ∙ omega (arith, below, bit_xor-div a b, pow-suc 2 k)))
      (bit_xor-mod (2 ^ suc k + a) b
        ∙ (ap (λ t. differ t (b % 2)) low
            ∙ omega (arith, bit_xor-mod a b, bit_xor-div a b, pow-suc 2 k)))
