-- ===== src/ConfigStore/Values/Run.antt =====
-- config_store.c: every sequence of calls is answered as by a list of entries of bounded size.
use pico_framework.Base.{
  ℕ, ◌≤◌, ◌≡◌, refl, sym, ap, ap₂, ◌∙◌, Bool, true, false, Option, some, none, List, [], ◌∷◌, arith,
  length, ◌&&◌, ◌==◌, if◌then◌else◌, ltb, leb, Bool-cases, Option-cases, inl, inr, All,
}
use pico_framework.ConfigStore.{
  Store, ConfigResult, Got, check_key, is_ok, text, config_get, config_set, config_remove,
  config_clear,
}
use pico_framework.ConfigStore.Values.{config_has, is_there, config_count, config_key_at}
use pico_framework.ConfigStore.Values.Count.{config_count_lem, config_key_at_lem, nth_key}
use pico_framework.ConfigStore.Image.{Entry, image}
use pico_framework.ConfigStore.Entries.{Represents, IsKey, lookup, insert, erase, erase_of_none}
use pico_framework.Base.{subst}
use pico_framework.ConfigStore.Set.{Stores, config_set_lem}
use pico_framework.ConfigStore.Get.{answer, Removes, config_get_lem, config_remove_lem}

-- A call with its arguments: a value has as many bytes as its length says.
pub data Call : Type 0 where
  set : Option (List ℕ) → List ℕ → Call
  get : Option (List ℕ) → Bool → ℕ → Call
  remove : Option (List ℕ) → Call
  has : Option (List ℕ) → Call
  count : Call
  key_at : ℕ → ℕ → Call
  clear : Call

-- What comes back.
pub data Reply : Type 0 where
  result : ConfigResult → Reply
  got : Got → Reply
  there : Bool → Reply
  number : ℕ → Reply
  named : Option (List ℕ) → Reply

abbrev pub answered {ℓ} : {A : Type ℓ} → (ConfigResult → Reply) → A × ConfigResult → A × Reply
answered f (a, r) = (a, f r)

pub call : Store → Call → Store × Reply
call s (set k value) = answered result (config_set s k (some value) (length value))
call s (get k wanted capacity) = (s, got (config_get s k wanted capacity))
call s (remove k) = answered result (config_remove s k)
call s (has k) = (s, there (config_has s k))
call s count = (s, number (config_count s))
call s (key_at index capacity) = (s, named (config_key_at s index capacity))
call s clear = (config_clear s, result ConfigResult.ok)

-- The same on entries, of which `capacity` bytes of records fit.
abbrev pub set_entry : ℕ → List Entry → List ℕ → List ℕ → List Entry × ConfigResult
set_entry capacity es k value =
    if leb (length (image (insert k value es))) capacity
    then (insert k value es, ConfigResult.ok)
    else (es, ConfigResult.full)

abbrev pub removed : Option (List ℕ) → ConfigResult
removed none = ConfigResult.not_found
removed (some value) = ConfigResult.ok

abbrev pub is_some : Option (List ℕ) → Bool
is_some none = false
is_some (some value) = true

pub spec : ℕ → List Entry → Call → List Entry × Reply
spec capacity es (set k value) =
    if is_ok (check_key k)
    then answered result (set_entry capacity es (text k) value)
    else (es, result (check_key k))
spec capacity es (get k wanted room) = (
  es,
  got (
      if is_ok (check_key k)
      then answer wanted room (lookup (text k) es)
      else record { size = none; copied = none; result = check_key k }),
)
spec capacity es (remove k) =
    if is_ok (check_key k)
    then (erase (text k) es, result (removed (lookup (text k) es)))
    else (es, result (check_key k))
spec capacity es (has k) = (es, there (is_ok (check_key k) && is_some (lookup (text k) es)))
spec capacity es count = (es, number (length es))
spec capacity es (key_at index room) =
    (es, named (if room == 0 then none else nth_key es index room))
spec capacity es clear = ([], result ConfigResult.ok)

-- The length of a value is one byte.
abbrev pub IsCall : Call → Type 0
IsCall (set k value) = length value ≤ 255
IsCall (get k wanted room) = Unit {0}
IsCall (remove k) = Unit {0}
IsCall (has k) = Unit {0}
IsCall count = Unit {0}
IsCall (key_at index room) = Unit {0}
IsCall clear = Unit {0}

-- A key that passes the check is a text of 1 to 31 bytes.
IsKey-of_check :
    (k : Option (List ℕ)) → is_ok (check_key k) ≡ true → (k ≡ some (text k)) × IsKey (text k)
unfolding check_key
IsKey-of_check none h = cc
IsKey-of_check (some []) h = cc
IsKey-of_check (some (c ∷ k)) h = (refl, (omega arith, ground (arith, h)))

check_key-not_there :
    (k : Option (List ℕ)) → is_ok (check_key k) ≡ false → is_there (check_key k) ≡ false
unfolding check_key
check_key-not_there none h = refl
check_key-not_there (some []) h = refl
check_key-not_there (some (c ∷ k)) h = elim (Bool-cases (ltb 31 (length (c ∷ k)))) [
  | inl long ↦ rw long
  | inr short ↦ absurd (ground (arith, h, short))
]

key_at-no_room :
    (s : Store) (index room : ℕ) → (room == 0) ≡ true → config_key_at s index room ≡ none
unfolding config_key_at
key_at-no_room s index room e = elim (Bool-cases (s.initialised)) [
  | inl ready ↦ rw (ready, e)
  | inr not_ready ↦ rw not_ready
]

-- The reply is the one of the entries, and the store still represents them.
abbrev pub Agrees : ℕ → Store × Reply → List Entry × Reply → Type 0
Agrees capacity (s, reply) (es, wanted) =
    (reply ≡ wanted) × Represents s es × (s.capacity ≡ capacity)

module _ (s : Store) (es : List Entry) (r : Represents s es) where
  module _ (k : Option (List ℕ)) where
    config_set-bad :
        (value : List ℕ)
        → is_ok (check_key k) ≡ false
        → config_set s k (some value) (length value) ≡ (s, check_key k)
    unfolding config_set
    config_set-bad value bad = rw (r.ready, bad)

    config_get-bad :
        (wanted : Bool) (room : ℕ)
        → is_ok (check_key k) ≡ false
        → config_get s k wanted room ≡ record { size = none; copied = none; result = check_key k }
    unfolding config_get
    config_get-bad wanted room bad = rw (r.ready, bad)

    config_remove-bad : is_ok (check_key k) ≡ false → config_remove s k ≡ (s, check_key k)
    unfolding config_remove
    config_remove-bad bad = rw (r.ready, bad)

    config_get-good :
        (wanted : Bool) (room : ℕ)
        → is_ok (check_key k) ≡ true
        → config_get s k wanted room ≡ answer wanted room (lookup (text k) es)
    config_get-good wanted room good =
        let is = IsKey-of_check k good in
        ap (λ q. config_get s q wanted room) is.0 ∙ config_get_lem s es (text k) wanted room r is.1

  Agrees-set :
      (k : Option (List ℕ)) (value : List ℕ)
      → length value ≤ 255
      → Agrees s.capacity (call s (set k value)) (spec s.capacity es (set k value))
  unfolding call spec
  Agrees-set k value short = elim (Bool-cases (is_ok (check_key k))) [
    | inr bad ↦ rw (bad, config_set-bad k value bad) (refl, r, refl)
    | inl good ↦
        let is = IsKey-of_check k good in
        let st = config_set_lem s es (text k) value r is.1 short in
        rw good (
          subst
            (λ q.
              Agrees s.capacity (answered result (config_set s q (some value) (length value)))
                (answered result (set_entry s.capacity es (text k) value)))
            (sym is.0) (good_set st))
  ]
    where
      good_set :
          Stores s
            (insert (text k) value es)
            (config_set s (some (text k)) (some value) (length value))
          → Agrees s.capacity
              (answered result (config_set s (some (text k)) (some value) (length value)))
              (answered result (set_entry s.capacity es (text k) value))
      good_set (inl st) =
          let fits : leb (length (image (insert (text k) value es))) s.capacity ≡ true =
            ground (arith, st.3) in
          rw fits (ap result st.0, st.1, st.2)
      good_set (inr full) =
          let over : leb (length (image (insert (text k) value es))) s.capacity ≡ false =
            ground (arith, full.2) in
          rw over (
            ap result full.0,
            subst (λ t. Represents t es) (sym full.1) r,
            ap (λ (t : Store). t.capacity) full.1,
          )

  Agrees-get :
      (k : Option (List ℕ)) (wanted : Bool) (room : ℕ)
      → Agrees s.capacity (call s (get k wanted room)) (spec s.capacity es (get k wanted room))
  unfolding call spec
  Agrees-get k wanted room = elim (Bool-cases (is_ok (check_key k))) [
    | inr bad ↦ rw bad (ap got (config_get-bad k wanted room bad), r, refl)
    | inl good ↦ rw good (ap got (config_get-good k wanted room good), r, refl)
  ]

  Agrees-remove :
      (k : Option (List ℕ)) → Agrees s.capacity (call s (remove k)) (spec s.capacity es (remove k))
  unfolding call spec
  Agrees-remove k = elim (Bool-cases (is_ok (check_key k))) [
    | inr bad ↦ rw (bad, config_remove-bad k bad) (refl, r, refl)
    | inl good ↦
        let is = IsKey-of_check k good in
        rw good (
          subst
            (λ q.
              Agrees s.capacity (answered result (config_remove s q))
                (erase (text k) es, result (removed (lookup (text k) es))))
            (sym is.0)
            (good_remove (text k) (config_remove s (some (text k)))
              (config_remove_lem s es (text k) r is.1)))
  ]
    where
      good_remove :
          (name : List ℕ) (t : Store × ConfigResult)
          → Removes s (erase name es) (lookup name es) t
          → Agrees s.capacity (answered result t) (erase name es, result (removed (lookup name es)))
      good_remove name t h = elim (Option-cases (lookup name es)) [
        | inl missing ↦
            let m = subst (λ o. Removes s (erase name es) o t) missing h in
            rw missing (
              ap result m.0,
              subst (λ l. Represents t.0 l) (sym (erase_of_none name es missing))
                  (subst (λ u. Represents u es) (sym m.1) r),
              ap (λ (u : Store). u.capacity) m.1,
            )
        | inr (value, found) ↦
            let m = subst (λ o. Removes s (erase name es) o t) found h in
            rw found (ap result m.0, m.1, m.2)
      ]

  there-answer : (o : Option (List ℕ)) → is_there (answer false 0 o).result ≡ is_some o
  there-answer none = refl
  there-answer (some value) = elim (Bool-cases (ltb 0 (length value))) [
    | inl over ↦ rw over
    | inr fits ↦ rw fits
  ]

  Agrees-has :
      (k : Option (List ℕ)) → Agrees s.capacity (call s (has k)) (spec s.capacity es (has k))
  unfolding call spec config_has
  Agrees-has k = elim (Bool-cases (is_ok (check_key k))) [
    | inr bad ↦ rw (config_get-bad k false 0 bad) (
      ap there (check_key-not_there k bad ∙ ap (λ b. b && is_some (lookup (text k) es)) (sym bad)),
      r,
      refl,
    )
    | inl good ↦ rw (config_get-good k false 0 good) (
      ap there (
          there-answer (lookup (text k) es)
          ∙ ap (λ b. b && is_some (lookup (text k) es)) (sym good)),
      r,
      refl,
    )
  ]

  clear-Represents : Represents (config_clear s) []
  unfolding config_clear
  clear-Represents = rw (r.ready) (record {
    rest = s.buffer;
    holds = refl;
    counts = refl;
    whole = r.whole;
    small = r.small;
    ready = refl;
    entries = tt;
  })

  clear-capacity : (config_clear s).capacity ≡ s.capacity
  unfolding config_clear
  clear-capacity = rw (r.ready)

  Agrees-key_at :
      (index room : ℕ)
      → Agrees s.capacity (call s (key_at index room)) (spec s.capacity es (key_at index room))
  unfolding call spec
  Agrees-key_at index room = elim (Bool-cases (room == 0)) [
    | inl no_room ↦ rw no_room (ap named (key_at-no_room s index room no_room), r, refl)
    | inr some_room ↦
        rw some_room (ap named (config_key_at_lem s es r index room (ground arith)), r, refl)
  ]

  call_lem : (c : Call) → IsCall c → Agrees s.capacity (call s c) (spec s.capacity es c)
  unfolding call spec
  call_lem (set k value) short = Agrees-set k value short
  call_lem (get k wanted room) h = Agrees-get k wanted room
  call_lem (remove k) h = Agrees-remove k
  call_lem (has k) h = Agrees-has k
  call_lem count h = (ap number (config_count_lem s es r), r, refl)
  call_lem (key_at index room) h = Agrees-key_at index room
  call_lem clear h = (refl, clear-Represents, clear-capacity)

pub run : Store → List Call → List Reply
run s [] = []
run s (c ∷ calls) = let (s', reply) = call s c in reply ∷ run s' calls

pub run_spec : ℕ → List Entry → List Call → List Reply
run_spec capacity es [] = []
run_spec capacity es (c ∷ calls) =
    let (es', reply) = spec capacity es c in reply ∷ run_spec capacity es' calls

-- Every sequence of calls on a store whose buffer holds whole records is answered as by a list of
-- entries: a value is stored under its key in place of an older one or behind the others, and read
-- back with its length; keys are counted and named in order and taken away; a value is refused
-- exactly where the records would exceed the capacity, and an unusable key by its own error.
pub store_refines :
    (calls : List Call) (s : Store) (es : List Entry)
    → Represents s es
    → All IsCall calls
    → run s calls ≡ run_spec (s.capacity) es calls
unfolding run run_spec
store_refines [] s es r h = refl
store_refines (c ∷ calls) s es r h =
    let a = call_lem s es r c h.0 in
    let s' = (call s c).0 in
    ap₂ ◌∷◌ a.0 (
      store_refines calls s' (spec (s.capacity) es c).0 a.1 h.1
      ∙ ap (λ n. run_spec n (spec (s.capacity) es c).0 calls) a.2)
