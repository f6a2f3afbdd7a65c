-- ===== src/FirmwareReceive/Inv.antt =====
-- firmware_receive.c: the invariant of a transfer, and what the writer is asked to store.
use pico_framework.Base.{
  subst, ℕ, ◌+◌, ◌%◌, ◌^◌, ◌≤◌, ◌<◌, ◌≡◌, refl, sym, ap, ◌∙◌, ◌⊎◌, inl, inr, Bool, true, false,
  Option, none, some, List, [], ◌∷◌, ltb, leb, ◌==◌, if◌then◌else◌, ◌&&◌, not, take, length,
  length-set, length-replicate, arith, Bool-cases, Option-cases, sub32, add32, leb→gt,
}
use pico_framework.HexParser.{HexRecord, feed, record_data, record_eof}
use pico_framework.FirmwareReceive.{
  Receive, ReceiveResult, failed, hex_ok, page_size, erased_byte, reset_page, put_byte, flush_page,
  place_at, place_byte, place_all, apply_record, take_line, receive_line, flush, begin, Config,
}

module _ {Ctx : Type 0} where
  pub record IsValid (rx : Receive Ctx) : Type 0 where
    pub page_full : length rx.page ≡ 256
    pub aligned : rx.page_offset % 256 ≡ 0
    pub in_region : (rx.page_dirty ≡ false) ⊎ (rx.page_offset < rx.capacity)
    pub size_in : rx.image_size ≤ rx.capacity
    pub small : rx.capacity < 2 ^ 32

  reset_page-IsValid :
      {rx : Receive Ctx} (offset : ℕ)
      → IsValid rx
      → offset % 256 ≡ 0
      → IsValid (reset_page rx offset)
  unfolding reset_page
  reset_page-IsValid offset v h = record {
    page_full = length-replicate 256 erased_byte;
    aligned = h;
    in_region = inl refl;
    size_in = v.size_in;
    small = v.small;
  }

  put_byte-IsValid :
      {rx : Receive Ctx} (offset value : ℕ)
      → IsValid rx
      → offset < rx.capacity
      → rx.page_offset < rx.capacity
      → IsValid (put_byte rx offset value)
  unfolding put_byte
  put_byte-IsValid {rx} offset value v h p = record {
    page_full = length-set rx.page (offset % 256) value ∙ v.page_full;
    aligned = v.aligned;
    in_region = inr p;
    size_in = ground arith;
    small = v.small;
  }

  -- The page that a byte at `offset` goes into, fetched anew if none is open.
  abbrev pub ready : Receive Ctx → ℕ → Receive Ctx
  ready rx offset =
      if not rx.page_dirty then reset_page rx (sub32 offset (offset % page_size)) else rx

-- Flushing, by its three outcomes.
module _ {Ctx : Type 0} (write_page : Ctx → ℕ → List ℕ → Ctx × Bool) (rx : Receive Ctx) where
  pub flush_page-clean : rx.page_dirty ≡ false → flush_page write_page rx ≡ (rx, ReceiveResult.ok)
  unfolding flush_page
  flush_page-clean e = ground arith

  pub flush_page-stored :
      rx.page_dirty ≡ true
      → (write_page rx.write_ctx rx.page_offset rx.page).1 ≡ true
      → flush_page write_page rx ≡ (
        record rx {
          write_ctx = (write_page rx.write_ctx rx.page_offset rx.page).0;
          pages_written = add32 rx.pages_written 1;
          page_dirty = false;
        },
        ReceiveResult.ok,
      )
  unfolding flush_page
  flush_page-stored e s = ground arith

  pub flush_page-refused :
      rx.page_dirty ≡ true
      → (write_page rx.write_ctx rx.page_offset rx.page).1 ≡ false
      → flush_page write_page rx ≡ (
        record rx { write_ctx = (write_page rx.write_ctx rx.page_offset rx.page).0 },
        ReceiveResult.write_failed,
      )
  unfolding flush_page
  flush_page-refused e s = ground arith

  -- A flush that does not fail leaves no byte waiting.
  pub flush_page_ok-clean :
      failed (flush_page write_page rx).1 ≡ false → (flush_page write_page rx).0.page_dirty ≡ false
  flush_page_ok-clean ok = elim (Bool-cases (rx.page_dirty)) [
    | inr clean ↦ ap (λ r. r.0.page_dirty) (flush_page-clean clean) ∙ clean
    | inl dirty ↦ elim (Bool-cases (write_page rx.write_ctx rx.page_offset rx.page).1) [
      | inl good ↦ ap (λ r. r.0.page_dirty) (flush_page-stored dirty good)
      | inr bad ↦ absurd (ground (arith, flush_page-refused dirty bad))
    ]
  ]

module _ {Ctx : Type 0} (write_page : Ctx → ℕ → List ℕ → Ctx × Bool) (capacity : ℕ)
    (P : Ctx → Type 0)
    (safe : (ctx : Ctx) (offset : ℕ) (page : List ℕ)
      → P ctx
      → offset % 256 ≡ 0
      → offset < capacity
      → length page ≡ 256
      → P (write_page ctx offset page).0) where
  -- The transfer is valid, and the writer's state has the property `P`.
  pub record Holds (rx : Receive Ctx) : Type 0 where
    pub valid : IsValid rx
    pub same_capacity : rx.capacity ≡ capacity
    pub writer : P rx.write_ctx

  flush_page-Holds : {rx : Receive Ctx} → Holds rx → Holds (flush_page write_page rx).0
  flush_page-Holds {rx} h = elim (Bool-cases (rx.page_dirty)) [
    | inr clean ↦ rw (flush_page-clean write_page rx clean) h
    | inl dirty ↦
        let v : IsValid rx = h.valid in
        let place : rx.page_offset < capacity = ground (arith, v.in_region, h.same_capacity) in
        let stored =
          safe (rx.write_ctx) (rx.page_offset) (rx.page) h.writer v.aligned place v.page_full in
        elim (Bool-cases (write_page rx.write_ctx rx.page_offset rx.page).1) [
          | inl good ↦ rw (flush_page-stored write_page rx dirty good) (record {
            valid = record {
              page_full = v.page_full;
              aligned = v.aligned;
              in_region = inl refl;
              size_in = v.size_in;
              small = v.small;
            };
            same_capacity = h.same_capacity;
            writer = stored;
          })
          | inr bad ↦ rw (flush_page-refused write_page rx dirty bad) (record {
            valid = record {
              page_full = v.page_full;
              aligned = v.aligned;
              in_region = v.in_region;
              size_in = v.size_in;
              small = v.small;
            };
            same_capacity = h.same_capacity;
            writer = stored;
          })
        ]
  ]

  reset_page-Holds :
      {rx : Receive Ctx} (offset : ℕ) → Holds rx → offset % 256 ≡ 0 → Holds (reset_page rx offset)
  unfolding reset_page
  reset_page-Holds offset h e = record {
    valid = reset_page-IsValid offset h.valid e;
    same_capacity = h.same_capacity;
    writer = h.writer;
  }

  put_byte-Holds :
      {rx : Receive Ctx} (offset value : ℕ)
      → Holds rx
      → offset < capacity
      → rx.page_offset < capacity
      → Holds (put_byte rx offset value)
  unfolding put_byte
  put_byte-Holds {rx} offset value h p q = record {
    valid =
        put_byte-IsValid offset value h.valid (omega (arith, h.same_capacity))
          (omega (arith, h.same_capacity));
    same_capacity = h.same_capacity;
    writer = h.writer;
  }

  put_ready-Holds :
      {rx : Receive Ctx} (offset value : ℕ)
      → Holds rx
      → offset < capacity
      → (rx.page_dirty ≡ false) ⊎ (sub32 offset (offset % page_size) ≡ rx.page_offset)
      → Holds (put_byte (ready rx offset) offset value)
  unfolding reset_page
  put_ready-Holds {rx} offset value h p same =
      let start = sub32 offset (offset % page_size) in
      let small : offset < 2 ^ 32 = omega (arith, h.valid.small, h.same_capacity) in
      elim (Bool-cases (rx.page_dirty)) [
        | inr clean ↦
            let e : ready rx offset ≡ reset_page rx start =
              ap (λ b. if not b then reset_page rx start else rx) clean in
            rw e
              (put_byte-Holds offset value (reset_page-Holds start h (omega arith)) p (omega arith))
        | inl dirty ↦
            let e : ready rx offset ≡ rx =
              ap (λ b. if not b then reset_page rx start else rx) dirty in
            let here : start ≡ rx.page_offset = ground (arith, same, dirty) in
            rw e (put_byte-Holds offset value h p (omega arith))
      ]

  place_at-Holds :
      {rx : Receive Ctx} (offset value : ℕ)
      → Holds rx
      → offset < capacity
      → Holds (place_at write_page rx offset value).0
  unfolding place_at
  place_at-Holds {rx} offset value h p =
      let start = sub32 offset (offset % page_size) in
      elim (Bool-cases (rx.page_dirty && not (start == rx.page_offset))) [
        | inr stays ↦ rw stays (put_ready-Holds offset value h p (ground (arith, stays)))
        | inl moves ↦
            let f = flush_page write_page rx in
            rw moves (elim (Bool-cases (failed f.1)) [
              | inl bad ↦ rw bad (flush_page-Holds h)
              | inr good ↦ rw good (
                  put_ready-Holds offset value (flush_page-Holds h) p
                    (inl (flush_page_ok-clean write_page rx good)))
            ])
      ]

  place_byte-Holds :
      {rx : Receive Ctx} (address value : ℕ)
      → Holds rx
      → Holds (place_byte write_page rx address value).0
  unfolding place_byte
  place_byte-Holds {rx} address value h = elim (Bool-cases (ltb address rx.base_address)) [
    | inl below ↦ rw below h
    | inr above ↦ rw above (elim (Bool-cases (leb rx.capacity (sub32 address rx.base_address))) [
      | inl large ↦ rw large h
      | inr fits ↦ rw fits (
          place_at-Holds (sub32 address rx.base_address) value h
            (omega (arith, leb→gt _ _ fits, h.same_capacity)))
    ])
  ]

  -- The invariant reads only the page, the capacity, the size and the writer's state.
  Holds-same :
      {rx : Receive Ctx} (rx' : Receive Ctx)
      → Holds rx
      → rx'.page ≡ rx.page
      → rx'.page_offset ≡ rx.page_offset
      → rx'.page_dirty ≡ rx.page_dirty
      → rx'.image_size ≡ rx.image_size
      → rx'.capacity ≡ rx.capacity
      → rx'.write_ctx ≡ rx.write_ctx
      → Holds rx'
  Holds-same {rx} rx' h e1 e2 e3 e4 e5 e6 = record {
    valid = record {
      page_full = ap length e1 ∙ h.valid.page_full;
      aligned = omega (arith, e2, h.valid.aligned);
      in_region = ground (arith, e2, e3, e5, h.valid.in_region);
      size_in = omega (arith, e4, e5, h.valid.size_in);
      small = omega (arith, e5, h.valid.small);
    };
    same_capacity = e5 ∙ h.same_capacity;
    writer = subst P (sym e6) h.writer;
  }

  place_all-Holds :
      {rx : Receive Ctx} (address i : ℕ) (values : List ℕ)
      → Holds rx
      → Holds (place_all write_page rx address i values).0
  unfolding place_all
  place_all-Holds address i [] h = h
  place_all-Holds {rx} address i (value ∷ values) h =
      let r = place_byte write_page rx (add32 address i) value in
      let one = place_byte-Holds (add32 address i) value h in
      elim (Bool-cases (failed r.1)) [
        | inl bad ↦
            rw bad (Holds-same (record (r.0) { error = r.1 }) one refl refl refl refl refl refl)
        | inr good ↦ rw good (place_all-Holds {rx = r.0} address (i + 1) values one)
      ]

  apply_record-Holds :
      {rx : Receive Ctx} (r : HexRecord) → Holds rx → Holds (apply_record write_page rx r).0
  unfolding apply_record
  apply_record-Holds {rx} r h = elim (Bool-cases (r.type == record_data)) [
    | inl is_data ↦ rw is_data (place_all-Holds (r.address) 0 (take (r.length) (r.payload)) h)
    | inr not_data ↦ rw not_data (elim (Bool-cases (r.type == record_eof)) [
      | inr other ↦ rw other h
      | inl eof ↦
          let f = flush_page write_page rx in
          rw eof (elim (Bool-cases (failed f.1)) [
            | inl bad ↦ rw bad (
                Holds-same (record (f.0) { error = f.1 }) (flush_page-Holds h) refl refl refl refl
                  refl refl)
            | inr good ↦ rw good (
                Holds-same (record (f.0) { is_complete = true }) (flush_page-Holds h) refl refl refl
                  refl refl refl)
          ])
    ])
  ]

  take_line-Holds :
      {rx : Receive Ctx} (line : List ℕ) → Holds rx → Holds (take_line write_page rx line).0
  unfolding take_line
  take_line-Holds {rx} line h =
      let o = feed rx.parser (some line) in
      let fed = record rx { parser = o.parser } in
      let counted = record fed { records = add32 rx.records 1 } in
      elim (Bool-cases (hex_ok o.result)) [
        | inr bad ↦ rw bad (
            Holds-same (record fed { error = ReceiveResult.bad_hex }) h refl refl refl refl refl
              refl)
        | inl good ↦
            let c : Holds counted = Holds-same counted h refl refl refl refl refl refl in
            rw good (elim (Option-cases (o.written)) [
              | inl nothing ↦ rw nothing c
              | inr r ↦ rw (r.1) (apply_record-Holds (r.0) c)
            ])
      ]

  -- Whatever the line, a transfer stays valid: its page has 256 bytes and starts at a multiple of
  -- 256, an open page starts below the capacity, and the image size is at most the capacity, which
  -- stays the same. And the writer is asked to store only pages of 256 bytes that start at a multiple
  -- of 256 below the capacity, so what those calls preserve of its state is preserved. The capacity
  -- is below 2 ^ 32.
  pub receive_line-Holds :
      {rx : Receive Ctx} (line : Option (List ℕ))
      → Holds rx
      → Holds (receive_line write_page rx line).0
  unfolding receive_line
  receive_line-Holds none h = h
  receive_line-Holds {rx} (some line) h = elim (Bool-cases (not rx.started)) [
    | inl stopped ↦ rw stopped h
    | inr running ↦ rw running (elim (Bool-cases (failed rx.error)) [
      | inl dead ↦ rw dead h
      | inr alive ↦ rw alive (take_line-Holds line h)
    ])
  ]

  -- Ending a transfer early keeps the same invariant.
  pub flush-Holds : {rx : Receive Ctx} → Holds rx → Holds (flush write_page rx).0
  unfolding flush
  flush-Holds {rx} h = elim (Bool-cases (not rx.started)) [
    | inl stopped ↦ rw stopped h
    | inr running ↦ rw running (elim (Bool-cases (failed rx.error)) [
      | inl dead ↦ rw dead h
      | inr alive ↦
          let f = flush_page write_page rx in
          rw alive (elim (Bool-cases (failed f.1)) [
            | inl bad ↦ rw bad (
                Holds-same (record (f.0) { error = f.1 }) (flush_page-Holds h) refl refl refl refl
                  refl refl)
            | inr good ↦ rw good (flush_page-Holds h)
          ])
    ])
  ]

-- A transfer that begins is valid.
pub begin-IsValid :
    {Ctx : Type 0} (config : Config Ctx) {rx : Receive Ctx}
    → config.capacity < 2 ^ 32
    → (begin (some config)).0 ≡ some rx
    → IsValid rx
unfolding begin reset_page
begin-IsValid config h e = ground (arith, length-replicate 256 erased_byte)
