-- ===== src/Base/Cells.antt =====
-- Arrays described cell by cell: reads after writes, copied runs, and lists tabulated from cells.
use mathlib.Core.Bool.{◌&&◌}
use pico_framework.Base.Tests.{leb, ltb, if◌then◌else◌}
use Prim.Native.Nat.{ℕ, zero, suc, ◌+◌, ◌-◌, ◌≤◌, ◌<◌}
use mathlib.Core.Path.{◌≡◌, refl, ap, ap₂, ◌∙◌, sym}
use mathlib.Core.Logic.{◌≢◌}
use mathlib.Core.List.{List, [], ◌∷◌, ◌++◌}
use native.Mathlib.Omega.{arith}
use pico_framework.Base.Lists.{All, length, get_or, set, take, drop, length-drop}

module _ {ℓ} {A : Type ℓ} where
  -- `memcpy` of all of `src` to `&dst[at]`; what falls outside `dst` is not written.
  abbrev pub blit : List A → ℕ → List A → List A
  blit [] at src = []
  blit (x ∷ dst) (suc at) src = x ∷ blit dst at src
  blit (x ∷ dst) zero [] = x ∷ dst
  blit (x ∷ dst) zero (y ∷ src) = y ∷ blit dst zero src

  -- The list of the `n` values `f 0 … f (n - 1)`.
  abbrev pub tabulate : ℕ → (ℕ → A) → List A
  tabulate zero f = []
  tabulate (suc n) f = f 0 ∷ tabulate n (λ i. f (suc i))

module _ {ℓ} {A : Type ℓ} where
  pub length-blit : (dst : List A) (at : ℕ) (src : List A) → length (blit dst at src) ≡ length dst
  length-blit [] at src = refl
  length-blit (x ∷ dst) (suc at) src = ap suc (length-blit dst at src)
  length-blit (x ∷ dst) zero [] = refl
  length-blit (x ∷ dst) zero (y ∷ src) = ap suc (length-blit dst zero src)

  pub get_or-set_self :
      (xs : List A) (i : ℕ) (v d : A) → i < length xs → get_or (set xs i v) i d ≡ v
  get_or-set_self [] i v d h = absurd (omega arith)
  get_or-set_self (x ∷ xs) zero v d h = refl
  get_or-set_self (x ∷ xs) (suc i) v d h = get_or-set_self xs i v d (omega arith)

  pub get_or-set_ne :
      (xs : List A) (i j : ℕ) (v d : A) → i ≢ j → get_or (set xs i v) j d ≡ get_or xs j d
  get_or-set_ne [] i j v d h = refl
  get_or-set_ne (x ∷ xs) zero zero v d h = absurd (h refl)
  get_or-set_ne (x ∷ xs) zero (suc j) v d h = refl
  get_or-set_ne (x ∷ xs) (suc i) zero v d h = refl
  get_or-set_ne (x ∷ xs) (suc i) (suc j) v d h = get_or-set_ne xs i j v d (λ e. h (ap suc e))

  pub get_or-blit_in :
      (dst : List A) (at : ℕ) (src : List A) (j : ℕ) (d : A)
      → at ≤ j
      → j < at + length src
      → j < length dst
      → get_or (blit dst at src) j d ≡ get_or src (j - at) d
  get_or-blit_in [] at src j d a b c = absurd (omega arith)
  get_or-blit_in (x ∷ dst) (suc at) src zero d a b c = absurd (omega arith)
  get_or-blit_in (x ∷ dst) (suc at) src (suc j) d a b c =
      get_or-blit_in dst at src j d (omega arith) (omega arith) (omega arith)
      ∙ ap (λ k. get_or src k d) (omega arith)
  get_or-blit_in (x ∷ dst) zero [] j d a b c = absurd (omega arith)
  get_or-blit_in (x ∷ dst) zero (y ∷ src) zero d a b c = refl
  get_or-blit_in (x ∷ dst) zero (y ∷ src) (suc j) d a b c =
      let e : suc j - 0 ≡ suc (j - 0) = omega arith in
      rw e (get_or-blit_in dst zero src j d (omega arith) (omega arith) (omega arith))

  pub get_or-blit_below :
      (dst : List A) (at : ℕ) (src : List A) (j : ℕ) (d : A)
      → j < at
      → get_or (blit dst at src) j d ≡ get_or dst j d
  get_or-blit_below [] at src j d a = refl
  get_or-blit_below (x ∷ dst) zero src j d a = absurd (omega arith)
  get_or-blit_below (x ∷ dst) (suc at) src zero d a = refl
  get_or-blit_below (x ∷ dst) (suc at) src (suc j) d a =
      get_or-blit_below dst at src j d (omega arith)

  pub get_or-blit_above :
      (dst : List A) (at : ℕ) (src : List A) (j : ℕ) (d : A)
      → at + length src ≤ j
      → get_or (blit dst at src) j d ≡ get_or dst j d
  get_or-blit_above [] at src j d a = refl
  get_or-blit_above (x ∷ dst) (suc at) src zero d a = absurd (omega arith)
  get_or-blit_above (x ∷ dst) (suc at) src (suc j) d a =
      get_or-blit_above dst at src j d (omega arith)
  get_or-blit_above (x ∷ dst) zero [] j d a = refl
  get_or-blit_above (x ∷ dst) zero (y ∷ src) zero d a = absurd (omega arith)
  get_or-blit_above (x ∷ dst) zero (y ∷ src) (suc j) d a =
      get_or-blit_above dst zero src j d (omega arith)

  pub get_or-take :
      (n : ℕ) (xs : List A) (i : ℕ) (d : A) → i < n → get_or (take n xs) i d ≡ get_or xs i d
  get_or-take zero xs i d h = absurd (omega arith)
  get_or-take (suc n) [] i d h = refl
  get_or-take (suc n) (x ∷ xs) zero d h = refl
  get_or-take (suc n) (x ∷ xs) (suc i) d h = get_or-take n xs i d (omega arith)

  pub get_or-drop :
      (n : ℕ) (xs : List A) (i : ℕ) (d : A) → get_or (drop n xs) i d ≡ get_or xs (n + i) d
  get_or-drop zero xs i d = ap (λ k. get_or xs k d) (omega arith)
  get_or-drop (suc n) [] i d = refl
  get_or-drop (suc n) (x ∷ xs) i d =
      let e : suc n + i ≡ suc (n + i) = omega arith in rw e (get_or-drop n xs i d)

  pub length-tabulate : (n : ℕ) (f : ℕ → A) → length (tabulate n f) ≡ n
  length-tabulate zero f = refl
  length-tabulate (suc n) f = ap suc (length-tabulate n (λ i. f (suc i)))

  pub tabulate_ext :
      (n : ℕ) (f g : ℕ → A) → ((i : ℕ) → i < n → f i ≡ g i) → tabulate n f ≡ tabulate n g
  tabulate_ext zero f g h = refl
  tabulate_ext (suc n) f g h =
      ap₂ ◌∷◌ (h 0 (omega arith))
        (tabulate_ext n (λ i. f (suc i)) (λ i. g (suc i)) (λ i p. h (suc i) (omega arith)))

  pub tabulate_split :
      (n m : ℕ) (f : ℕ → A) → tabulate (n + m) f ≡ tabulate n f ++ tabulate m (λ i. f (n + i))
  tabulate_split zero m f =
      let e : 0 + m ≡ m = omega arith in
      rw e (tabulate_ext m f (λ i. f (0 + i)) (λ i p. ap f (omega arith)))
  tabulate_split (suc n) m f =
      let e : suc n + m ≡ suc (n + m) = omega arith in
      rw e (
        ap (λ l. f 0 ∷ l)
          (tabulate_split n m (λ i. f (suc i))
            ∙ ap (λ l. tabulate n (λ i. f (suc i)) ++ l)
                (tabulate_ext m (λ i. f (suc (n + i))) (λ i. f (suc n + i))
                  (λ i p. ap f (omega arith)))))

  pub take-tabulate : (n m : ℕ) (f : ℕ → A) → n ≤ m → take n (tabulate m f) ≡ tabulate n f
  take-tabulate zero m f h = refl
  take-tabulate (suc n) zero f h = absurd (omega arith)
  take-tabulate (suc n) (suc m) f h =
      ap (λ l. f 0 ∷ l) (take-tabulate n m (λ i. f (suc i)) (omega arith))

  pub drop-tabulate :
      (n m : ℕ) (f : ℕ → A) → drop n (tabulate m f) ≡ tabulate (m - n) (λ i. f (n + i))
  drop-tabulate zero m f =
      let e : m - 0 ≡ m = omega arith in
      rw e (tabulate_ext m f (λ i. f (0 + i)) (λ i p. ap f (omega arith)))
  drop-tabulate (suc n) zero f = let e : 0 - suc n ≡ 0 = omega arith in rw e
  drop-tabulate (suc n) (suc m) f =
      let e : suc m - suc n ≡ m - n = omega arith in
      rw e (
        drop-tabulate n m (λ i. f (suc i))
        ∙ tabulate_ext (m - n) (λ i. f (suc (n + i))) (λ i. f (suc n + i))
            (λ i p. ap f (omega arith)))

  -- A list is the table of its cells.
  pub tabulate-get_or :
      (xs : List A) (n : ℕ) (d : A) → n ≤ length xs → tabulate n (λ i. get_or xs i d) ≡ take n xs
  tabulate-get_or xs zero d h = refl
  tabulate-get_or [] (suc n) d h = absurd (omega arith)
  tabulate-get_or (x ∷ xs) (suc n) d h = ap (λ l. x ∷ l) (tabulate-get_or xs n d (omega arith))

  -- A run copied out of an array is the table of its cells.
  pub take-drop-eq-tabulate :
      (xs : List A) (at n : ℕ) (d : A)
      → at + n ≤ length xs
      → take n (drop at xs) ≡ tabulate n (λ i. get_or xs (at + i) d)
  take-drop-eq-tabulate xs at n d h =
      sym (tabulate-get_or (drop at xs) n d (omega (arith, length-drop at xs)))
      ∙ tabulate_ext n (λ i. get_or (drop at xs) i d) (λ i. get_or xs (at + i) d)
          (λ i p. get_or-drop at xs i d)

module _ {A : Type 0} where
  -- What a cell holds after a run was copied in.
  pub get_or-blit :
      (dst : List A) (at : ℕ) (src : List A) (j : ℕ) (d : A)
      → j < length dst
      → get_or (blit dst at src) j d
        ≡ (if leb at j && ltb j (at + length src) then get_or src (j - at) d else get_or dst j d)
  get_or-blit dst at src j d h = ground (
    arith,
    get_or-blit_in dst at src j d,
    get_or-blit_below dst at src j d,
    get_or-blit_above dst at src j d,
  )

module _ {ℓ} {A : Type ℓ} where
  pub get_or-append_left :
      (xs ys : List A) (i : ℕ) (d : A) → i < length xs → get_or (xs ++ ys) i d ≡ get_or xs i d
  get_or-append_left [] ys i d h = absurd (omega arith)
  get_or-append_left (x ∷ xs) ys zero d h = refl
  get_or-append_left (x ∷ xs) ys (suc i) d h = get_or-append_left xs ys i d (omega arith)

  pub get_or-append_right :
      (xs ys : List A) (i : ℕ) (d : A) → get_or (xs ++ ys) (length xs + i) d ≡ get_or ys i d
  get_or-append_right [] ys i d = ap (λ k. get_or ys k d) (omega arith)
  get_or-append_right (x ∷ xs) ys i d =
      let e : suc (length xs) + i ≡ suc (length xs + i) = omega arith in
      rw e (get_or-append_right xs ys i d)

  pub All-get_or {κ} :
      (P : A → Type κ) (xs : List A) (i : ℕ) (d : A) → All P xs → i < length xs → P (get_or xs i d)
  All-get_or P [] i d h p = absurd (omega arith)
  All-get_or P (x ∷ xs) zero d h p = h.0
  All-get_or P (x ∷ xs) (suc i) d h p = All-get_or P xs i d h.1 (omega arith)
