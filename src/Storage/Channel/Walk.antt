-- ===== src/Storage/Channel/Walk.antt =====
-- src/libisa/components/storage/pubsub.tpp: the loops of `Channel` that follow the links between events.
use libsim.Prelude.{
  ℕ, zero, suc, ◌+◌, ◌-◌, ◌≤◌, ◌<◌, ◌≡◌, inl, inr, refl, sym, ap, ◌∙◌, subst, true, false, none,
  some, ◌==◌, ltb, if◌then◌else◌, get_elem?, length, arith, Bool-cases, ==_iff,
}
use libsim.Prelude.Exec.{ok}
use libsim.Storage.Channel.{
  Event, Channel, next_event, skip_forward, previous_event, skip_back, event_at, walk_to, find_back,
  step_back,
}
use libsim.Storage.Channel.Chain.{Chain, place_injective}

module _ {ℓ} {V : Type ℓ} (ch : Channel V) where
  -- The loops stop at an event that is not empty.
  skip_forward-live :
      (fuel p : ℕ) (e : Event V)
      → 0 < fuel
      → get_elem? ch.events p ≡ some e
      → e.empty ≡ false
      → skip_forward fuel p ch ≡ (ok p, ch)
  unfolding skip_forward
  skip_forward-live zero p e h found full = absurd (omega arith)
  skip_forward-live (suc fuel) p e h found full = rw (found, full) refl

  skip_back-live :
      (fuel p : ℕ) (e : Event V)
      → 0 < fuel
      → get_elem? ch.events p ≡ some e
      → e.empty ≡ false
      → skip_back fuel p ch ≡ (ok p, ch)
  unfolding skip_back
  skip_back-live zero p e h found full = absurd (omega arith)
  skip_back-live (suc fuel) p e h found full = rw (found, full) refl

  module _ (c : Chain ch) where
    pub next_event-chain :
        (k : ℕ) → k < c.last → next_event (c.place k) ch ≡ (ok (c.place (suc k)), ch)
    unfolding next_event
    next_event-chain k h =
        rw
          (
            c.stored k (omega arith),
            c.ahead k h,
            skip_forward-live (length ch.events) (c.place (suc k)) (c.event (suc k))
                (omega (arith, c.room)) (c.stored (suc k) h) (c.live (suc k) h),
          )
          refl

    pub next_event-last : next_event (c.place c.last) ch ≡ (ok (c.place c.last), ch)
    unfolding next_event
    next_event-last = rw (c.stored c.last (omega arith), c.final) refl

    pub previous_event-chain :
        (k : ℕ) → k < c.last → previous_event (c.place (suc k)) ch ≡ (ok (c.place k), ch)
    unfolding previous_event
    previous_event-chain k h =
        rw
          (
            c.stored (suc k) h,
            c.back k h,
            skip_back-live (length ch.events) (c.place k) (c.event k) (omega (arith, c.room))
                (c.stored k (omega arith)) (c.live k (omega arith)),
          )
          refl

    pub previous_event-head : previous_event (c.place 0) ch ≡ (ok (c.place 0), ch)
    unfolding previous_event
    previous_event-head = rw (c.stored 0 (omega arith), c.first) refl

    walk_to-chain :
        (fuel time k : ℕ)
        → k ≤ time
        → time ≤ c.last
        → time < fuel + k
        → walk_to fuel time (c.place k) ch ≡ (ok (c.place time), ch)
    unfolding walk_to
    walk_to-chain zero time k h p f = absurd (omega arith)
    walk_to-chain (suc fuel) time k h p f = elim (Bool-cases (k == time)) [
      | inl e ↦
          rw (c.stored k (omega arith), c.displaced k (omega arith), e, (==_iff k time).0 e) refl
      | inr e ↦
          let further : k < time = ground arith in
          rw (c.stored k (omega arith), c.displaced k (omega arith), e, c.ahead k (omega arith))
            (walk_to-chain fuel time (suc k) (omega arith) p (omega arith))
    ]

    tail_stored : get_elem? ch.events ch.tail ≡ some (c.event c.last)
    tail_stored = rw (← c.tail_at) (c.stored c.last (omega arith))

    walk_from_head :
        (time : ℕ)
        → time ≤ c.last
        → walk_to (length ch.events) time ch.head ch ≡ (ok (c.place time), ch)
    walk_from_head time h =
        subst (λ p. walk_to (length ch.events) time p ch ≡ (ok (c.place time), ch)) c.head_at
          (walk_to-chain (length ch.events) time 0 (omega arith) h (omega (arith, c.room)))

    -- In a chain, the event at a time is the one with this displacement, and there is none behind the tail.
    pub event_at-chain :
        (time : ℕ) → time ≤ c.last → event_at time ch ≡ (ok (some (c.place time)), ch)
    unfolding event_at
    event_at-chain time h =
        let within : ltb c.last time ≡ false = ground arith in
        rw (tail_stored, c.displaced c.last (omega arith), within, walk_from_head time h) refl

    pub event_at-beyond : (time : ℕ) → c.last < time → event_at time ch ≡ (ok none, ch)
    unfolding event_at
    event_at-beyond time h =
        let beyond : ltb c.last time ≡ true = ground arith in
        rw (tail_stored, c.displaced c.last (omega arith), beyond) refl

    -- The last event of the publisher up to the `k`th, or the first event.
    abbrev pub written_by : ℕ → ℕ → ℕ
    written_by publisher zero = zero
    written_by publisher (suc k) =
        if (c.event (suc k)).publisher == publisher then suc k else written_by publisher k

    pub find_back-chain :
        (fuel publisher k : ℕ)
        → k < fuel
        → k ≤ c.last
        → find_back fuel publisher (c.place k) ch ≡ (ok (c.place (written_by publisher k)), ch)
    unfolding find_back
    find_back-chain zero publisher k f h = absurd (omega arith)
    find_back-chain (suc fuel) publisher zero f h = rw (c.stored 0 h, c.first) refl
    find_back-chain (suc fuel) publisher (suc k) f h =
        elim (Bool-cases ((c.event (suc k)).publisher == publisher)) [
          | inl e ↦ rw (c.stored (suc k) h, c.back k h, e) refl
          | inr e ↦
              rw (c.stored (suc k) h, c.back k h, e)
                (find_back-chain fuel publisher k (omega arith) (omega arith))
        ]

    pub step_back-chain :
        (k : ℕ) → k ≤ c.last → step_back (c.place k) ch ≡ (ok (c.place (k - 1)), ch)
    unfolding step_back
    step_back-chain zero h =
        let here : (ch.head == ch.head) ≡ true = ground arith in
        rw (c.stored 0 h, c.head_at, here) refl
    step_back-chain (suc k) h =
        let apart : (c.place (suc k) == ch.head) ≡ false =
          elim (Bool-cases (c.place (suc k) == ch.head)) [
            | inl e ↦
                let same : suc k ≡ 0 =
                  place_injective ch c (suc k) 0 h (omega arith)
                    ((==_iff (c.place (suc k)) ch.head).0 e ∙ sym c.head_at) in
                absurd (omega arith)
            | inr e ↦ e
          ] in
        rw (c.stored (suc k) h, apart, c.back k h) (ap (λ n. (ok (c.place n), ch)) (omega arith))
