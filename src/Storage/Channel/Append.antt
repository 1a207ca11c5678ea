-- ===== src/Storage/Channel/Append.antt =====
-- `append_event` of src/libisa/components/storage/pubsub.tpp: a channel with one more event.
use libsim.Prelude.{
  ℕ, suc, ◌+◌, ◌≤◌, ◌≡◌, refl, ap, ◌∙◌, subst, false, some, [], ◌∷◌, ◌++◌, get_elem?, set, length,
  arith, length-set, get_elem?-append_last, get_elem?-append_some, length-append_one,
}
use native.Mathlib.Decide.{dec_le}
use libsim.Prelude.Exec.{ok}
use libsim.Storage.Channel.{Event, Channel, new_event, append_event}
use libsim.Storage.Channel.Chain.{
  Chain, extend, put, extend_old, extend_new, put_same, put_other, put_field, stored_put,
}

module _ {ℓ} {V : Type ℓ} where
  -- The channel with one more event.
  abbrev pub appended : ℕ → V → Event V → Channel V → Channel V
  appended publisher value old ch = record ch {
    events =
        set ch.events ch.tail (record old { next_node = some (length ch.events) })
        ++ new_event value publisher false (some ch.tail) (old.displacement + 1) ∷ [];
    tail = length ch.events;
  }

  append_event-eq :
      (publisher : ℕ) (v : V) (ch : Channel V) (c : Chain ch)
      → append_event publisher v ch
        ≡ (ok (length ch.events), appended publisher v (c.event c.last) ch)
  unfolding append_event
  append_event-eq publisher v ch c =
      let at_tail : get_elem? ch.events ch.tail ≡ some (c.event c.last) =
        subst (λ p. get_elem? ch.events p ≡ some (c.event c.last)) c.tail_at
          (c.stored c.last (omega arith)) in
      rw at_tail refl

  module _ (publisher : ℕ) (v : V) (ch : Channel V) (c : Chain ch) where
    abbrev old_last : Event V
    old_last = record (c.event c.last) { next_node = some (length ch.events) }

    abbrev newest : Event V
    newest = new_event v publisher false (some ch.tail) ((c.event c.last).displacement + 1)

    abbrev events_then : ℕ → Event V
    events_then = extend (put c.event c.last old_last) c.last newest

    appended_stored :
        (k : ℕ)
        → k ≤ suc c.last
        → get_elem?
            (appended publisher v (c.event c.last) ch).events
            (extend c.place c.last (length ch.events) k)
          ≡ some (events_then k)
    appended_stored k p = elim (dec_le k c.last) [
      | yes q ↦
          rw
            (
              extend_old c.place c.last (length ch.events) k q,
              extend_old (put c.event c.last old_last) c.last newest k q,
              ← c.tail_at,
            )
            (get_elem?-append_some (set ch.events (c.place c.last) old_last) _ _ (c.place k)
              (stored_put ch c c.last (omega arith) old_last k q))
      | no q ↦
          let new : k ≡ suc c.last = omega arith in
          rw
            (
              new,
              extend_new c.place c.last (length ch.events),
              extend_new (put c.event c.last old_last) c.last newest,
            )
            (subst (λ n. get_elem? (set ch.events ch.tail old_last ++ newest ∷ []) n ≡ some newest)
              (length-set ch.events ch.tail old_last)
              (get_elem?-append_last (set ch.events ch.tail old_last) newest))
    ]

    then_newest : events_then (suc c.last) ≡ newest
    then_newest = extend_new (put c.event c.last old_last) c.last newest

    then_last : events_then c.last ≡ old_last
    then_last =
        extend_old (put c.event c.last old_last) c.last newest c.last (omega arith)
        ∙ put_same c.event c.last old_last

    -- Only the link to the next event changes in what was there.
    pub then_field {κ} :
        {B : Type κ} (f : Event V → B)
        → f old_last ≡ f (c.event c.last)
        → (k : ℕ) → k ≤ c.last
        → f (events_then k) ≡ f (c.event k)
    then_field f same k p =
        ap f (extend_old (put c.event c.last old_last) c.last newest k p)
        ∙ put_field c.event f c.last old_last same k

    pub appended-Chain : Chain (appended publisher v (c.event c.last) ch)
    unfolding new_event
    appended-Chain = record {
      last = suc c.last;
      place = extend c.place c.last (length ch.events);
      event = events_then;
      head_at = extend_old c.place c.last (length ch.events) 0 (omega arith) ∙ c.head_at;
      tail_at = extend_new c.place c.last (length ch.events);
      room =
          rw
            (
              length-append_one (set ch.events ch.tail old_last) newest,
              length-set ch.events ch.tail old_last,
            )
            (omega (arith, c.room));
      stored = appended_stored;
      displaced = λ k p. elim (dec_le k c.last) [
        | yes q ↦ then_field (λ e. e.displacement) refl k q ∙ c.displaced k q
        | no q ↦
            let new : k ≡ suc c.last = omega arith in
            rw (new, then_newest) (omega (arith, c.displaced c.last (omega arith)))
      ];
      live = λ k p. elim (dec_le k c.last) [
        | yes q ↦ then_field (λ e. e.empty) refl k q ∙ c.live k q
        | no q ↦ let new : k ≡ suc c.last = omega arith in rw (new, then_newest) refl
      ];
      first = then_field (λ e. e.prev_node) refl 0 (omega arith) ∙ c.first;
      back = λ k p. elim (dec_le (suc k) c.last) [
        | yes q ↦
            rw (extend_old c.place c.last (length ch.events) k (omega arith))
              (then_field (λ e. e.prev_node) refl (suc k) q ∙ c.back k q)
        | no q ↦
            let new : k ≡ c.last = omega arith in
            rw
              (
                new,
                then_newest,
                extend_old c.place c.last (length ch.events) c.last (omega arith),
                c.tail_at,
              )
              refl
      ];
      ahead = λ k p. elim (dec_le (suc k) c.last) [
        | yes q ↦
            rw
              (
                extend_old (put c.event c.last old_last) c.last newest k (omega arith),
                put_other c.event c.last old_last k (λ e. absurd (omega arith)),
                extend_old c.place c.last (length ch.events) (suc k) q,
              )
              (c.ahead k q)
        | no q ↦
            let new : k ≡ c.last = omega arith in
            rw (new, then_last, extend_new c.place c.last (length ch.events)) refl
      ];
      final = ap (λ e. e.next_node) then_newest;
    }

  -- What `append_event` leaves: one event more, which is last, and the others as they were.
  pub record Appended (publisher : ℕ) (v : V) (ch : Channel V) (c : Chain ch) : Type ℓ where
    pub after : Channel V
    pub chain : Chain after
    pub last_is : chain.last ≡ suc c.last
    pub ran : append_event publisher v ch ≡ (ok (chain.place (suc c.last)), after)
    pub same_place : (k : ℕ) → k ≤ c.last → chain.place k ≡ c.place k
    pub same_value : (k : ℕ) → k ≤ c.last → (chain.event k).value ≡ (c.event k).value
    pub same_publisher : (k : ℕ) → k ≤ c.last → (chain.event k).publisher ≡ (c.event k).publisher
    pub new_value : (chain.event (suc c.last)).value ≡ v
    pub new_publisher : (chain.event (suc c.last)).publisher ≡ publisher

  pub append_event-Appended :
      (publisher : ℕ) (v : V) (ch : Channel V) (c : Chain ch) → Appended publisher v ch c
  unfolding appended-Chain new_event
  append_event-Appended publisher v ch c = record {
    after = appended publisher v (c.event c.last) ch;
    chain = appended-Chain publisher v ch c;
    last_is = refl;
    ran = rw (extend_new c.place c.last (length ch.events)) (append_event-eq publisher v ch c);
    same_place = λ k p. extend_old c.place c.last (length ch.events) k p;
    same_value = λ k p. then_field publisher v ch c (λ e. e.value) refl k p;
    same_publisher = λ k p. then_field publisher v ch c (λ e. e.publisher) refl k p;
    new_value = ap (λ e. e.value) (then_newest publisher v ch c);
    new_publisher = ap (λ e. e.publisher) (then_newest publisher v ch c);
  }
