-- ===== src/ConfigStore/Walks.antt =====
-- config_store.c: the walk of config_store_load over the records ends.
use pico_framework.Base.{
  ℕ, zero, suc, ◌+◌, ◌^◌, ◌≤◌, ◌<◌, ◌≡◌, ◌⊎◌, inl, inr, Bool, true, false, List, arith, get_or,
  add32, sub32, ltb, ◌==◌, ◌||◌, Bool-cases,
}
use pico_framework.ConfigStore.{record_size, max_key_length, walk}

-- The run of the loop from byte `at` on, round by round, and its verdict: it leaves at the end of
-- the used bytes, or at the first test that fails, or goes one record further. A run is finite.
pub data Walks (buffer : List ℕ) (used : ℕ) : ℕ → Bool → Type 0 where
  ended : (at : ℕ) → used ≤ at → Walks buffer used at true
  cut_lengths : (at : ℕ) → at < used → sub32 used at < 2 → Walks buffer used at false
  bad_key :
      (at : ℕ)
      → at < used
      → 2 ≤ sub32 used at
      → (get_or buffer at 0 ≡ 0) ⊎ (31 < get_or buffer at 0)
      → Walks buffer used at false
  cut_record :
      (at : ℕ)
      → at < used
      → 2 ≤ sub32 used at
      → 0 < get_or buffer at 0
      → get_or buffer at 0 ≤ 31
      → sub32 used at < record_size (get_or buffer at 0) (get_or buffer (add32 at 1) 0)
      → Walks buffer used at false
  next :
      (at : ℕ) (verdict : Bool)
      → at < used
      → 2 ≤ sub32 used at
      → 0 < get_or buffer at 0
      → get_or buffer at 0 ≤ 31
      → record_size (get_or buffer at 0) (get_or buffer (add32 at 1) 0) ≤ sub32 used at
      → Walks buffer used
          (add32 at (record_size (get_or buffer at 0) (get_or buffer (add32 at 1) 0)))
          verdict
      → Walks buffer used at verdict

-- From every place in every buffer the loop runs to an end, and as many rounds as there are used
-- bytes left reach it: `walk` gives the verdict of that run. The used bytes are fewer than 2 ^ 32.
pub walk-Walks :
    (fuel : ℕ) (buffer : List ℕ) (used at : ℕ)
    → used < 2 ^ 32
    → used ≤ at + fuel
    → Walks buffer used at (walk fuel buffer used at)
unfolding walk
walk-Walks zero buffer used at small enough =
    let stop : ltb at used ≡ false = ground arith in rw stop (ended at (omega arith))
walk-Walks (suc fuel) buffer used at small enough =
    let k = get_or buffer at 0 in
    let v = get_or buffer (add32 at 1) 0 in
    elim (Bool-cases (ltb at used)) [
      | inr stop ↦ rw stop (ended at (ground (arith, stop)))
      | inl more ↦
          let below : at < used = ground (arith, more) in
          elim (Bool-cases (ltb (sub32 used at) 2)) [
            | inl cut ↦ rw more (rw cut (cut_lengths at below (ground (arith, cut))))
            | inr two ↦
                let room : 2 ≤ sub32 used at = ground (arith, two) in
                elim (Bool-cases (k == 0 || ltb max_key_length k)) [
                  | inl bad ↦
                      rw more (rw two (rw bad (bad_key at below room (ground (arith, bad)))))
                  | inr good ↦
                      let some_key : 0 < k = ground (arith, good) in
                      let short : k ≤ 31 = ground (arith, good) in
                      elim (Bool-cases (ltb (sub32 used at) (record_size k v))) [
                        | inl cut ↦ rw more (
                            rw two (
                              rw good (
                                rw cut
                                  (cut_record at below room some_key short (ground (arith, cut))))))
                        | inr whole ↦
                            let size : record_size k v ≤ sub32 used at = ground (arith, whole) in
                            let to = add32 at (record_size k v) in
                            rw more (
                              rw two (
                                rw good (
                                  rw whole (
                                    next at (walk fuel buffer used to) below room some_key short
                                      size (walk-Walks fuel buffer used to small (omega arith))))))
                      ]
                ]
          ]
    ]
