-- ===== src/Base/Bits/And.antt =====
-- `&` with a single bit.
use Prim.Native.Nat.{
  ℕ, zero, suc, ◌+◌, ◌-◌, ◌*◌, ◌/◌, ◌%◌, ◌^◌, ◌≤◌, ◌<◌, min, bit_and, bit_and-bitwise,
}
use mathlib.Core.Path.{◌≡◌, ap, ap₂, ◌∙◌}
use native.Mathlib.Nat.{pow-suc, one-le-pow}
use native.Mathlib.Omega.{arith}
use pico_framework.Base.Bits.Digits.{bit_and_digit}

bit_and-zero_fuel : (n a : ℕ) → a ≤ n → bit_and a 0 ≡ 0
bit_and-zero_fuel zero a h = let e : a ≡ 0 = omega arith in rw e
bit_and-zero_fuel (suc n) a h =
    omega (arith, bit_and_digit a 0, bit_and-zero_fuel n (a / 2) (omega arith))

pub bit_and-zero : (a : ℕ) → bit_and a 0 ≡ 0
bit_and-zero a = bit_and-zero_fuel a a (omega arith)

pub bit_and-one : (a : ℕ) → bit_and a 1 ≡ a % 2
bit_and-one a = omega (arith, bit_and_digit a 1, bit_and-zero (a / 2))

-- The top bit of a number of `k + 1` bits.
pub bit_and_top_clear : (k a : ℕ) → a < 2 ^ k → bit_and a (2 ^ k) ≡ 0
bit_and_top_clear zero a h = let e : a ≡ 0 = omega arith in rw e
bit_and_top_clear (suc k) a h =
    let half : 2 ^ suc k / 2 ≡ 2 ^ k = omega (arith, pow-suc 2 k) in
    let below = bit_and_top_clear k (a / 2) (omega (arith, pow-suc 2 k)) in
    let digit : bit_and a (2 ^ suc k) ≡ bit_and (a / 2) (2 ^ k) * 2 + min (a % 2) (2 ^ suc k % 2) =
      rw (← half) (bit_and_digit a (2 ^ suc k)) in
    omega (arith, digit, below, pow-suc 2 k)

pub bit_and_top_set : (k a : ℕ) → 2 ^ k ≤ a → a < 2 ^ suc k → bit_and a (2 ^ k) ≡ 2 ^ k
bit_and_top_set zero a h p = let e : a ≡ 1 = omega arith in rw e
bit_and_top_set (suc k) a h p =
    let half : 2 ^ suc k / 2 ≡ 2 ^ k = omega (arith, pow-suc 2 k) in
    let below =
      bit_and_top_set k (a / 2) (omega (arith, pow-suc 2 k))
        (omega (arith, pow-suc 2 k, pow-suc 2 (suc k))) in
    let digit : bit_and a (2 ^ suc k) ≡ bit_and (a / 2) (2 ^ k) * 2 + min (a % 2) (2 ^ suc k % 2) =
      rw (← half) (bit_and_digit a (2 ^ suc k)) in
    omega (arith, digit, below, pow-suc 2 k)

-- A mask of `n` ones keeps a number of `n` bits.
pub bit_and_ones : (n a : ℕ) → a < 2 ^ n → bit_and a (2 ^ n - 1) ≡ a
bit_and_ones zero a h = let e : a ≡ 0 = omega arith in rw e
bit_and_ones (suc n) a h =
    let half : (2 ^ suc n - 1) / 2 ≡ 2 ^ n - 1 = omega (arith, pow-suc 2 n) in
    let odd : (2 ^ suc n - 1) % 2 ≡ 1 = omega (arith, pow-suc 2 n, one-le-pow n 2) in
    let below = bit_and_ones n (a / 2) (omega (arith, pow-suc 2 n)) in
    let digit : bit_and a (2 ^ suc n - 1) ≡ bit_and (a / 2) (2 ^ n - 1) * 2 + min (a % 2) 1 =
      bit_and_digit a (2 ^ suc n - 1)
      ∙ ap₂ (λ (x y : ℕ). bit_and (a / 2) x * 2 + min (a % 2) y) half odd in
    omega (arith, digit, below)

-- A mask whose `k` low digits are clear clears those of the other side.
pub bit_and_shifted :
    (k q r m : ℕ) → r < 2 ^ k → bit_and (q * 2 ^ k + r) (m * 2 ^ k) ≡ bit_and q m * 2 ^ k
bit_and_shifted zero q r m h =
    let e : q * 2 ^ 0 + r ≡ q = omega arith in
    let f : m * 2 ^ 0 ≡ m = omega arith in rw (e, f) (omega arith)
bit_and_shifted (suc k) q r m h =
    let dq : q * 2 ^ suc k ≡ 2 * (q * 2 ^ k) = omega (arith, ap (λ (t : ℕ). q * t) (pow-suc 2 k)) in
    let dm : m * 2 ^ suc k ≡ 2 * (m * 2 ^ k) = omega (arith, ap (λ (t : ℕ). m * t) (pow-suc 2 k)) in
    let da : bit_and q m * 2 ^ suc k ≡ 2 * (bit_and q m * 2 ^ k) =
      omega (arith, ap (λ (t : ℕ). bit_and q m * t) (pow-suc 2 k)) in
    let hq : (q * 2 ^ suc k + r) / 2 ≡ q * 2 ^ k + r / 2 = omega (arith, dq) in
    let hm : m * 2 ^ suc k / 2 ≡ m * 2 ^ k = omega (arith, dm) in
    let even : m * 2 ^ suc k % 2 ≡ 0 = omega (arith, dm) in
    let below = bit_and_shifted k q (r / 2) m (omega (arith, pow-suc 2 k)) in
    let digit : bit_and (q * 2 ^ suc k + r) (m * 2 ^ suc k)
        ≡ bit_and (q * 2 ^ k + r / 2) (m * 2 ^ k) * 2 + min ((q * 2 ^ suc k + r) % 2) 0 =
      bit_and_digit (q * 2 ^ suc k + r) (m * 2 ^ suc k)
      ∙ (ap₂ (λ (x y : ℕ). bit_and x y * 2 + min ((q * 2 ^ suc k + r) % 2) (m * 2 ^ suc k % 2)) hq
            hm
          ∙ ap
              (λ (t : ℕ).
                bit_and (q * 2 ^ k + r / 2) (m * 2 ^ k) * 2 + min ((q * 2 ^ suc k + r) % 2) t)
              even) in
    omega (arith, digit, below, da)

bit_and-le_fuel : (n a b : ℕ) → a ≤ n → bit_and a b ≤ a
bit_and-le_fuel zero a b h =
    let e : a ≡ 0 = omega arith in omega (arith, ap (λ t. bit_and t b) e, bit_and-bitwise 0 b, e)
bit_and-le_fuel (suc n) a b h =
    omega (arith, bit_and_digit a b, bit_and-le_fuel n (a / 2) (b / 2) (omega arith))

pub bit_and-le : (a b : ℕ) → bit_and a b ≤ a
bit_and-le a b = bit_and-le_fuel a a b (omega arith)

-- All ones on the left keep a number of `n` bits.
pub ones_bit_and : (n a : ℕ) → a < 2 ^ n → bit_and (2 ^ n - 1) a ≡ a
ones_bit_and zero a h = let e : a ≡ 0 = omega arith in rw e
ones_bit_and (suc n) a h =
    let half : (2 ^ suc n - 1) / 2 ≡ 2 ^ n - 1 = omega (arith, pow-suc 2 n) in
    let odd : (2 ^ suc n - 1) % 2 ≡ 1 = omega (arith, pow-suc 2 n, one-le-pow n 2) in
    let below = ones_bit_and n (a / 2) (omega (arith, pow-suc 2 n)) in
    let digit : bit_and (2 ^ suc n - 1) a ≡ bit_and (2 ^ n - 1) (a / 2) * 2 + min 1 (a % 2) =
      bit_and_digit (2 ^ suc n - 1) a
      ∙ ap₂ (λ (x y : ℕ). bit_and x (a / 2) * 2 + min y (a % 2)) half odd in
    omega (arith, digit, below)
