-- ===== src/FirmwareReceive/Errors.antt =====
-- firmware_receive.c: a failed transfer stays failed, and only a whole one is complete.
use pico_framework.Base.{
  subst, ℕ, ◌+◌, ◌≡◌, ◌≢◌, refl, sym, ap, ◌∙◌, ◌⊎◌, inl, inr, Bool, true, false, some, List, [],
  ◌∷◌, take, arith, Bool-cases, Option-cases, add32, not,
}
use pico_framework.HexParser.{HexRecord, feed}
use pico_framework.FirmwareReceive.{
  Receive, ReceiveResult, Config, begin, failed, hex_ok, reset_page, put_byte, flush_page, place_at,
  place_byte, place_all, apply_record, take_line, receive_line,
}
use pico_framework.FirmwareReceive.Inv.{flush_page_ok-clean}

-- Accepted lines up to one that completed the transfer.
abbrev pub AcceptedToEnd : List ReceiveResult → Type 0
AcceptedToEnd [] = ⊥
AcceptedToEnd (ReceiveResult.ok ∷ results) = AcceptedToEnd results
AcceptedToEnd (ReceiveResult.complete ∷ results) = Unit {0}
AcceptedToEnd (_ ∷ results) = ⊥

module _ {Ctx : Type 0} where
  -- A transfer that begins is not complete.
  pub begin_open :
      (config : Config Ctx) (rx : Receive Ctx)
      → (begin (some config)).0 ≡ some rx
      → rx.is_complete ≡ false
  unfolding begin reset_page
  begin_open config rx made = ground (arith, made)

module _ {Ctx : Type 0} (write_page : Ctx → ℕ → List ℕ → Ctx × Bool) where
  -- What placing bytes and flushing leave alone.
  pub record SameStatus (rx rx' : Receive Ctx) : Type 0 where
    pub started : rx'.started ≡ rx.started
    pub is_complete : rx'.is_complete ≡ rx.is_complete
    pub error : rx'.error ≡ rx.error

  flush_page-SameStatus : (rx : Receive Ctx) → SameStatus rx (flush_page write_page rx).0
  unfolding flush_page
  flush_page-SameStatus rx = ground arith

  place_byte-SameStatus :
      (rx : Receive Ctx) (address value : ℕ)
      → SameStatus rx (place_byte write_page rx address value).0
  unfolding place_byte place_at put_byte reset_page
  place_byte-SameStatus rx address value = ground (arith, flush_page-SameStatus rx)

  -- How a step of a running transfer can end: it goes on; it is complete, with no byte waiting; or
  -- it failed, and the error is kept.
  abbrev Going : Receive Ctx → Receive Ctx × ReceiveResult → Type 0
  Going rx (rx', result) =
      (result ≡ ReceiveResult.ok)
      × (rx'.error ≡ rx.error)
      × (rx'.is_complete ≡ rx.is_complete)
      × (rx'.started ≡ rx.started)

  abbrev Completed : Receive Ctx → Receive Ctx × ReceiveResult → Type 0
  Completed rx (rx', result) =
      (result ≡ ReceiveResult.complete)
      × (rx'.error ≡ rx.error)
      × (rx'.is_complete ≡ true)
      × (rx'.page_dirty ≡ false)
      × (rx'.started ≡ rx.started)

  abbrev Dead : Receive Ctx → Receive Ctx × ReceiveResult → Type 0
  Dead rx (rx', result) =
      (result ≢ ReceiveResult.ok)
      × (result ≢ ReceiveResult.complete)
      × (failed rx'.error ≡ true)
      × (rx'.is_complete ≡ rx.is_complete)
      × (rx'.started ≡ rx.started)

  abbrev Ends : Receive Ctx → Receive Ctx × ReceiveResult → Type 0
  Ends rx r = Going rx r ⊎ (Completed rx r ⊎ Dead rx r)

  pub flush_page-ne-complete :
      (rx : Receive Ctx) → (flush_page write_page rx).1 ≢ ReceiveResult.complete
  unfolding flush_page
  flush_page-ne-complete rx = ground arith

  pub place_byte-ne-complete :
      (rx : Receive Ctx) (address value : ℕ)
      → (place_byte write_page rx address value).1 ≢ ReceiveResult.complete
  unfolding place_byte place_at
  place_byte-ne-complete rx address value = ground (arith, flush_page-ne-complete rx)

  place_all-Ends :
      (values : List ℕ) (rx : Receive Ctx) (address i : ℕ)
      → Ends rx (place_all write_page rx address i values)
  unfolding place_all
  place_all-Ends [] rx address i = inl (refl, refl, refl, refl)
  place_all-Ends (value ∷ values) rx address i = ground (
    arith,
    place_byte-SameStatus rx (add32 address i) value,
    place_byte-ne-complete rx (add32 address i) value,
    place_all-Ends values (place_byte write_page rx (add32 address i) value).0 address (i + 1),
  )

  apply_record-Ends : (rx : Receive Ctx) (r : HexRecord) → Ends rx (apply_record write_page rx r)
  unfolding apply_record
  apply_record-Ends rx r = ground (
    arith,
    place_all-Ends (take (r.length) (r.payload)) rx r.address 0,
    flush_page-SameStatus rx,
    flush_page-ne-complete rx,
    flush_page_ok-clean write_page rx,
  )

  take_line-Ends : (rx : Receive Ctx) (line : List ℕ) → Ends rx (take_line write_page rx line)
  unfolding take_line
  take_line-Ends rx line =
      let o = feed rx.parser (some line) in
      let fed = record rx { parser = o.parser } in
      let counted = record fed { records = add32 rx.records 1 } in
      elim (Bool-cases (hex_ok o.result)) [
        | inr bad ↦ rw bad (inr (inr ((λ e. cc), (λ e. cc), refl, refl, refl)))
        | inl good ↦ rw good (elim (Option-cases (o.written)) [
          | inl nothing ↦ rw nothing (inl (refl, refl, refl, refl))
          | inr r ↦ rw (r.1) (apply_record-Ends counted (r.0))
        ])
      ]

  -- A line after a failure, and a line of a running transfer.
  receive_line-dead :
      (rx : Receive Ctx) (line : List ℕ)
      → rx.started ≡ true
      → failed rx.error ≡ true
      → receive_line write_page rx (some line) ≡ (rx, ReceiveResult.aborted)
  unfolding receive_line
  receive_line-dead rx line s e = ground arith

  pub receive_line-running :
      (rx : Receive Ctx) (line : List ℕ)
      → rx.started ≡ true
      → failed rx.error ≡ false
      → receive_line write_page rx (some line) ≡ take_line write_page rx line
  unfolding receive_line
  receive_line-running rx line s e = ground arith

  Ends-open :
      (rx : Receive Ctx) (r : Receive Ctx × ReceiveResult)
      → Ends rx r
      → r.1 ≢ ReceiveResult.complete
      → r.0.is_complete ≡ rx.is_complete
  Ends-open rx r (inl going) h = going.2
  Ends-open rx r (inr (inl done)) h = absurd (h done.0)
  Ends-open rx r (inr (inr dead)) h = dead.3

  -- Only a line that completes the transfer marks it as complete.
  pub receive_line_open :
      (rx : Receive Ctx) (line : List ℕ)
      → (receive_line write_page rx (some line)).1 ≢ ReceiveResult.complete
      → (receive_line write_page rx (some line)).0.is_complete ≡ rx.is_complete
  unfolding receive_line
  receive_line_open rx line h = elim (Bool-cases (not rx.started)) [
    | inl stopped ↦ rw stopped refl
    | inr running ↦ elim (Bool-cases (failed rx.error)) [
      | inl dead ↦ rw running (rw dead refl)
      | inr alive ↦ rw running (
          rw alive (
            Ends-open rx (take_line write_page rx line) (take_line-Ends rx line)
              (ground (arith, h, running, alive))))
    ]
  ]

  -- Once a line of a started transfer fails, every later line is refused as aborted and changes
  -- nothing.
  pub receive_line_fails_for_good :
      (rx : Receive Ctx) (line later : List ℕ)
      → rx.started ≡ true
      → (receive_line write_page rx (some line)).1 ≢ ReceiveResult.ok
      → (receive_line write_page rx (some line)).1 ≢ ReceiveResult.complete
      → let rx' = (receive_line write_page rx (some line)).0 in
        receive_line write_page rx' (some later) ≡ (rx', ReceiveResult.aborted)
  receive_line_fails_for_good rx line later s not_ok not_complete =
      elim (Bool-cases (failed rx.error)) [
        | inl dead ↦
            let same = receive_line-dead rx line s dead in
            rw same (receive_line-dead rx later s dead)
        | inr alive ↦
            let same = receive_line-running rx line s alive in
            let t = take_line write_page rx line in
            let error_set : (failed t.0.error ≡ true) × (t.0.started ≡ true) =
              ground (arith, same, take_line-Ends rx line) in
            rw same (receive_line-dead (t.0) later error_set.1 error_set.0)
      ]

  -- The lines of a file, one after the other, and what each returned.
  unfoldable pub receive_all : Receive Ctx → List (List ℕ) → Receive Ctx × List ReceiveResult
  receive_all rx [] = (rx, [])
  receive_all rx (line ∷ lines) =
      let (rx', result) = receive_line write_page rx (some line) in
      let (last, results) = receive_all rx' lines in (last, result ∷ results)

  receive_all-dead :
      (lines : List (List ℕ)) (rx : Receive Ctx)
      → rx.started ≡ true
      → failed rx.error ≡ true
      → (receive_all rx lines).0.is_complete ≡ rx.is_complete
  unfolding receive_all
  receive_all-dead [] rx s e = refl
  receive_all-dead (line ∷ lines) rx s e =
      ap (λ r. (receive_all r.0 lines).0.is_complete) (receive_line-dead rx line s e)
      ∙ receive_all-dead lines rx s e

  -- One line of a file that ends complete, by how the line ended.
  accept_step :
      (rx rx' : Receive Ctx) (result : ReceiveResult) (results : List ReceiveResult) (last : Bool)
      → Ends rx (rx', result)
      → rx.started ≡ true
      → rx.is_complete ≡ false
      → (rx'.started ≡ true → rx'.is_complete ≡ false → AcceptedToEnd results)
      → (rx'.started ≡ true → failed rx'.error ≡ true → last ≡ rx'.is_complete)
      → last ≡ true
      → AcceptedToEnd (result ∷ results)
  accept_step rx rx' result results last (inl g) s open_file ih dead done =
      subst (λ r. AcceptedToEnd (r ∷ results)) (sym g.0) (ih (g.3 ∙ s) (g.2 ∙ open_file))
  accept_step rx rx' result results last (inr (inl c)) s open_file ih dead done =
      subst (λ r. AcceptedToEnd (r ∷ results)) (sym c.0) tt
  accept_step rx rx' result results last (inr (inr d)) s open_file ih dead done =
      absurd (cc (sym done ∙ (dead (d.4 ∙ s) d.2 ∙ (d.3 ∙ open_file))))

  -- A started transfer that was not complete and ends complete has accepted every line up to the
  -- one that completed it: no line before that failed.
  pub receive_all_complete :
      (lines : List (List ℕ)) (rx : Receive Ctx)
      → rx.started ≡ true
      → rx.is_complete ≡ false
      → (receive_all rx lines).0.is_complete ≡ true
      → AcceptedToEnd (receive_all rx lines).1
  unfolding receive_all
  receive_all_complete [] rx s open_file done = cc (sym done ∙ open_file)
  receive_all_complete (line ∷ lines) rx s open_file done = elim (Bool-cases (failed rx.error)) [
    | inl dead ↦ absurd (cc (receive_all-dead (line ∷ lines) rx s dead))
    | inr alive ↦
        let r = receive_line write_page rx (some line) in
        let ends : Ends rx r = rw (receive_line-running rx line s alive) (take_line-Ends rx line) in
        accept_step rx (r.0) (r.1) (receive_all (r.0) lines).1
          (receive_all (r.0) lines).0.is_complete ends s open_file
          (λ a b. receive_all_complete lines (r.0) a b done) (receive_all-dead lines (r.0)) done
  ]
