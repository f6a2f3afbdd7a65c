-- ===== src/RingBuffer/Cell.antt =====
-- ring_buffer.c: the bytes that a buffer holds, oldest first, read off its storage cell by cell.
use pico_framework.Base.{
  ℕ, ◌+◌, ◌-◌, ◌≤◌, ◌<◌, ◌≡◌, ap, ap₂, ◌∙◌, sym, List, ◌++◌, length, get_or, take, drop, tabulate,
  tabulate_ext, tabulate_split, tabulate-get_or, drop-tabulate, length-tabulate,
}
use pico_framework.RingBuffer.{Ring}
use pico_framework.RingBuffer.Inv.{slot, used}

-- The byte at distance `i` from the oldest one.
abbrev pub cell : Ring → ℕ → ℕ
cell rb i = get_or rb.storage (slot rb.size (rb.tail + i)) 0

abbrev pub contents : Ring → List ℕ
contents rb = tabulate (used rb) (cell rb)

pub length-contents : (rb : Ring) → length (contents rb) ≡ used rb
length-contents rb = length-tabulate (used rb) (cell rb)

-- A buffer whose head has moved on by `n`, with `bytes` in the cells passed.
pub contents_extend :
    (rb rb' : Ring) (bytes : List ℕ) (n : ℕ)
    → used rb' ≡ used rb + n
    → n ≤ length bytes
    → ((i : ℕ) → i < used rb → cell rb' i ≡ cell rb i)
    → ((i : ℕ) → i < n → cell rb' (used rb + i) ≡ get_or bytes i 0)
    → contents rb' ≡ contents rb ++ take n bytes
contents_extend rb rb' bytes n e fits old new = rw e (
    tabulate_split (used rb) n (cell rb')
    ∙ ap₂ ◌++◌ (tabulate_ext (used rb) (cell rb') (cell rb) old) (
        tabulate_ext n (λ i. cell rb' (used rb + i)) (λ i. get_or bytes i 0) new
        ∙ tabulate-get_or bytes n 0 fits))

-- A buffer whose tail has moved on by `n`.
pub contents-drop :
    (rb rb' : Ring) (n : ℕ)
    → used rb' ≡ used rb - n
    → ((i : ℕ) → i < used rb' → cell rb' i ≡ cell rb (n + i))
    → contents rb' ≡ drop n (contents rb)
contents-drop rb rb' n e moved =
    tabulate_ext (used rb') (cell rb') (λ i. cell rb (n + i)) moved
    ∙ (ap (λ k. tabulate k (λ i. cell rb (n + i))) e ∙ sym (drop-tabulate n (used rb) (cell rb)))
