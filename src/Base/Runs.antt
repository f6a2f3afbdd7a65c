-- ===== src/Base/Runs.antt =====
-- Writes into an array, seen from the run of cells that they change.
use Prim.Native.Nat.{ℕ, zero, suc, ◌+◌, ◌≤◌}
use mathlib.Core.Path.{◌≡◌, refl, sym, ap, ap₂, ◌∙◌}
use mathlib.Core.List.{List, [], ◌∷◌, ◌++◌}
use native.Mathlib.Omega.{arith}
use pico_framework.Base.Lists.{length, take, drop, set, length-drop}
use pico_framework.Base.Cells.{blit}

module _ {A : Type 0} where
  pub blit-append :
      (xs ys : List A) (n : ℕ) (src : List A)
      → blit (xs ++ ys) (length xs + n) src ≡ xs ++ blit ys n src
  blit-append [] ys n src = ap (λ k. blit ys k src) (omega arith)
  blit-append (x ∷ xs) ys n src =
      let e : suc (length xs) + n ≡ suc (length xs + n) = omega arith in
      rw e (ap (λ l. x ∷ l) (blit-append xs ys n src))

  pub set-append :
      (xs ys : List A) (n : ℕ) (v : A) → set (xs ++ ys) (length xs + n) v ≡ xs ++ set ys n v
  set-append [] ys n v = ap (λ k. set ys k v) (omega arith)
  set-append (x ∷ xs) ys n v =
      let e : suc (length xs) + n ≡ suc (length xs + n) = omega arith in
      rw e (ap (λ l. x ∷ l) (set-append xs ys n v))

  pub blit_front :
      (ys src : List A) → length src ≤ length ys → blit ys 0 src ≡ src ++ drop (length src) ys
  blit_front [] [] h = refl
  blit_front [] (s ∷ src) h = absurd (omega arith)
  blit_front (y ∷ ys) [] h = refl
  blit_front (y ∷ ys) (s ∷ src) h = ap (λ l. s ∷ l) (blit_front ys src (omega arith))

  pub drop-nil : (n : ℕ) → drop {A = A} n [] ≡ []
  drop-nil zero = refl
  drop-nil (suc n) = refl

  pub drop-drop : (m n : ℕ) (xs : List A) → drop n (drop m xs) ≡ drop (m + n) xs
  drop-drop zero n xs = ap (λ k. drop k xs) (omega arith)
  drop-drop (suc m) n [] = drop-nil n ∙ sym (drop-nil (suc m + n))
  drop-drop (suc m) n (x ∷ xs) =
      let e : suc m + n ≡ suc (m + n) = omega arith in rw e (drop-drop m n xs)

  -- A run copied anywhere.
  pub blit_lem :
      (ys : List A) (n : ℕ) (src : List A)
      → n + length src ≤ length ys
      → blit ys n src ≡ take n ys ++ (src ++ drop (n + length src) ys)
  blit_lem ys zero src h =
      blit_front ys src (omega arith) ∙ ap (λ k. src ++ drop k ys) (omega arith)
  blit_lem [] (suc n) src h = absurd (omega arith)
  blit_lem (y ∷ ys) (suc n) src h =
      let e : suc n + length src ≡ suc (n + length src) = omega arith in
      rw e (ap (λ l. y ∷ l) (blit_lem ys n src (omega arith)))

  pub blit_two :
      (ys a b : List A)
      → length a + length b ≤ length ys
      → blit (blit ys 0 a) (length a) b ≡ a ++ (b ++ drop (length a + length b) ys)
  blit_two ys a b h =
      let n : length a + 0 ≡ length a = omega arith in
      ap₂ (λ l (k : ℕ). blit l k b) (blit_front ys a (omega arith)) (sym n)
      ∙ blit-append a (drop (length a) ys) 0 b
      ∙ ap (λ l. a ++ l)
          (blit_front (drop (length a) ys) b (omega (arith, length-drop (length a) ys))
            ∙ ap (λ l. b ++ l) (drop-drop (length a) (length b) ys))
