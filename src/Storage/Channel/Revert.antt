-- ===== src/Storage/Channel/Revert.antt =====
-- src/libisa/components/storage/pubsub.tpp: what `revert_event` leaves of the events from the head to the tail.
use libsim.Prelude.{
  ℕ, zero, suc, ◌+◌, ◌-◌, ◌≤◌, ◌<◌, ◌≡◌, ◌≢◌, inl, inr, refl, ap, ◌∙◌, true, none, some, List, ◌==◌,
  get_elem?, set, length, arith, Bool-cases, ==_iff, length-set, get_elem?-set_self,
  get_elem?-set_ne, get_elem?-lt,
}
use native.Mathlib.Decide.{dec_le}
use libsim.Prelude.Exec.{ok}
use libsim.Storage.Channel.{Event, Channel, fixup, cut_after, revert_event}
use libsim.Storage.Channel.Chain.{Chain, place_injective, put, put_same, put_other, put_field}
use libsim.Storage.Channel.Walk.{event_at-chain, find_back-chain, step_back-chain, written_by}

module _ {ℓ} {V : Type ℓ} (ch : Channel V) (c : Chain ch) where
  place_ne : (j k : ℕ) → j ≤ c.last → k ≤ c.last → j ≢ k → c.place j ≢ c.place k
  place_ne j k p q h e = h (place_injective ch c j k p q e)

  -- The events of the chain from `k` on are stored.
  abbrev StoredFrom : ℕ → List (Event V) → Type ℓ
  StoredFrom k events =
      (j : ℕ) → k ≤ j → j ≤ c.last → get_elem? events (c.place j) ≡ some (c.event j)

  -- What the loop leaves if it starts with the `k`th event.
  record Fixed (fuel target k : ℕ) (now : Channel V) : Type ℓ where
    events : List (Event V)
    ran : fixup fuel target (some (c.place k)) now ≡ (ok tt, record now { events = events })
    size : length events ≡ length now.events
    before : (j : ℕ) → j < k → get_elem? events (c.place j) ≡ get_elem? now.events (c.place j)

  fixup-Fixed :
      (fuel target k : ℕ) (now : Channel V)
      → k ≤ c.last
      → c.last < fuel + k
      → StoredFrom k now.events
      → Fixed fuel target k now
  unfolding fixup
  fixup-Fixed zero target k now h f st = absurd (omega arith)
  fixup-Fixed (suc fuel) target k now h f st = elim (dec_le c.last k) [
    | yes q ↦
        let at_last : k ≡ c.last = omega arith in
        let no_next : (c.event k).next_node ≡ none = rw at_last c.final in
        record {
          events = set now.events (c.place k) emptied;
          ran = rw (st k (omega arith) h, no_next) refl;
          size = length-set now.events (c.place k) emptied;
          before = untouched;
        }
    | no q ↦
        let rest =
          fixup-Fixed fuel target (suc k)
            (record now { events = set now.events (c.place k) emptied }) (omega arith) (omega arith)
            still in
        record {
          events = rest.events;
          ran = rw (st k (omega arith) h, c.ahead k (omega arith)) rest.ran;
          size = rest.size ∙ length-set now.events (c.place k) emptied;
          before = λ j p. rest.before j (omega arith) ∙ untouched j p;
        }
  ]
    where
      emptied : Event V
      emptied = record (c.event k) {
        prev_node = some target;
        next_node = some target;
        empty = true;
      }

      untouched :
          (j : ℕ)
          → j < k
          → get_elem? (set now.events (c.place k) emptied) (c.place j)
            ≡ get_elem? now.events (c.place j)
      untouched j p =
          get_elem?-set_ne now.events (c.place k) (c.place j) emptied
            (place_ne k j h (omega arith) (λ e. absurd (omega arith)))

      still : StoredFrom (suc k) (set now.events (c.place k) emptied)
      still j p q =
          get_elem?-set_ne now.events (c.place k) (c.place j) emptied
            (place_ne k j h q (λ e. absurd (omega arith)))
          ∙ st j (omega arith) q

  -- The event with no other behind it.
  abbrev pub ended : ℕ → Event V
  ended t = record (c.event t) { next_node = none }

  -- The channel cut after the `t`th event.
  record Shortened (t : ℕ) : Type ℓ where
    events : List (Event V)
    ran : cut_after (c.place t) ch ≡ (ok tt, record ch { events = events; tail = c.place t })
    size : length events ≡ length ch.events
    kept : (k : ℕ) → k ≤ t → get_elem? events (c.place k) ≡ some (put c.event t (ended t) k)

  -- The last store, after the loop.
  finish :
      (t : ℕ) (now : List (Event V))
      → t ≤ c.last
      → ((k : ℕ) → k ≤ t → get_elem? now (c.place k) ≡ some (c.event k))
      → (k : ℕ) → k ≤ t
      → get_elem? (set now (c.place t) (ended t)) (c.place k) ≡ some (put c.event t (ended t) k)
  finish t now h st k p = elim (Bool-cases (k == t)) [
    | inl e ↦
        rw (e, (==_iff k t).0 e)
          (get_elem?-set_self now (c.place t) (ended t)
            (get_elem?-lt now (c.place t) (c.event t) (st t (omega arith))))
    | inr e ↦ rw e (
        get_elem?-set_ne now (c.place t) (c.place k) (ended t)
          (place_ne t k h (omega arith) (λ same. absurd (ground arith)))
        ∙ st k p)
  ]

  cut_after-Shortened : (t : ℕ) → t ≤ c.last → Shortened t
  unfolding cut_after
  cut_after-Shortened t h = elim (dec_le c.last t) [
    | yes q ↦
        let at_last : t ≡ c.last = omega arith in
        let no_next : (c.event t).next_node ≡ none = rw at_last c.final in
        record {
          events = set ch.events (c.place t) (ended t);
          ran = rw (c.stored t h, no_next, c.stored t h) refl;
          size = length-set ch.events (c.place t) (ended t);
          kept = finish t ch.events h (λ k p. c.stored k (omega arith));
        }
    | no q ↦
        let fixed =
          fixup-Fixed (length ch.events) (c.place t) (suc t) ch (omega arith)
            (omega (arith, c.room)) (λ j p r. c.stored j r) in
        let st = λ (k : ℕ) (p : k ≤ t). fixed.before k (omega arith) ∙ c.stored k (omega arith) in
        record {
          events = set fixed.events (c.place t) (ended t);
          ran = rw (c.stored t h, c.ahead t (omega arith), fixed.ran, st t (omega arith)) refl;
          size = length-set fixed.events (c.place t) (ended t) ∙ fixed.size;
          kept = finish t fixed.events h st;
        }
  ]

  module _ (t : ℕ) (h : t ≤ c.last) (cut : Shortened t) where
    field {κ} :
        {B : Type κ} (f : Event V → B)
        → f (ended t) ≡ f (c.event t)
        → (k : ℕ) → f (put c.event t (ended t) k) ≡ f (c.event k)
    field f same k = put_field c.event f t (ended t) same k

    cut-Chain : Chain (record ch { events = cut.events; tail = c.place t })
    cut-Chain = record {
      last = t;
      place = c.place;
      event = put c.event t (ended t);
      head_at = c.head_at;
      tail_at = refl;
      room = omega (arith, c.room, cut.size);
      stored = cut.kept;
      displaced = λ k p. field (λ e. e.displacement) refl k ∙ c.displaced k (omega arith);
      live = λ k p. field (λ e. e.empty) refl k ∙ c.live k (omega arith);
      first = field (λ e. e.prev_node) refl 0 ∙ c.first;
      back = λ k p. field (λ e. e.prev_node) refl (suc k) ∙ c.back k (omega arith);
      ahead = λ k p.
          rw (put_other c.event t (ended t) k (λ e. absurd (omega arith)))
            (c.ahead k (omega arith));
      final = ap (λ e. e.next_node) (put_same c.event t (ended t));
    }

  -- What `revert_event` leaves: the events before the last one of the publisher.
  pub record Reverted (publisher time : ℕ) : Type ℓ where
    pub after : Channel V
    pub ran :
        revert_event publisher time ch ≡ (ok (c.place (written_by ch c publisher time - 1)), after)
    pub chain : Chain after
    pub last_is : chain.last ≡ written_by ch c publisher time - 1
    pub same_place : chain.place ≡ c.place
    pub same_value : (k : ℕ) → (chain.event k).value ≡ (c.event k).value
    pub same_publisher : (k : ℕ) → (chain.event k).publisher ≡ (c.event k).publisher

  pub written_by-le : (publisher k : ℕ) → written_by ch c publisher k ≤ k
  written_by-le publisher zero = omega arith
  written_by-le publisher (suc k) = elim (Bool-cases ((c.event (suc k)).publisher == publisher)) [
    | inl e ↦ rw e (omega arith)
    | inr e ↦ rw e (omega (arith, written_by-le publisher k))
  ]

  pub revert_event-Reverted : (publisher time : ℕ) → time ≤ c.last → Reverted publisher time
  unfolding revert_event cut-Chain
  revert_event-Reverted publisher time h =
      let w = written_by ch c publisher time in
      let le : w ≤ time = written_by-le publisher time in
      let t_le : w - 1 ≤ c.last = omega arith in
      let cut = cut_after-Shortened (w - 1) t_le in
      record {
        after = record ch { events = cut.events; tail = c.place (w - 1) };
        ran =
            rw
              (
                event_at-chain ch c time h,
                find_back-chain ch c (length ch.events) publisher time (omega (arith, c.room)) h,
                step_back-chain ch c w (omega arith),
                cut.ran,
              )
              refl;
        chain = cut-Chain (w - 1) t_le cut;
        last_is = refl;
        same_place = refl;
        same_value = λ k. field (w - 1) t_le cut (λ e. e.value) refl k;
        same_publisher = λ k. field (w - 1) t_le cut (λ e. e.publisher) refl k;
      }
