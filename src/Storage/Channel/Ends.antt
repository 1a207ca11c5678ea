-- ===== src/Storage/Channel/Ends.antt =====
-- `Endpoint` of src/libisa/components/storage/pubsub.tpp: an endpoint that stands on an event between the head and
-- the tail.
use libsim.Prelude.{
  ℕ, suc, ◌-◌, ◌≤◌, ◌<◌, ◌≡◌, ◌≢◌, inl, inr, refl, sym, ap, ◌∙◌, true, false, Option, none, some,
  ◌==◌, get_elem?, arith, Bool-cases, ==_iff,
}
use libsim.Prelude.Exec.{ok}
use libsim.Storage.Channel.{
  Event, Channel, Attached, new_endpoint, clone, next_value, unread, unwrite, append_value, arrive,
  revert_event, next_publisher, set_to_head, current_value,
}
use libsim.Storage.Channel.Chain.{Chain, place_injective}
use libsim.Storage.Channel.Append.{append_event-Appended}
use libsim.Storage.Channel.Walk.{
  next_event-chain, next_event-last, previous_event-chain, previous_event-head, event_at-chain,
  written_by,
}
use libsim.Storage.Channel.Revert.{revert_event-Reverted}

-- The endpoint with this id on the `k`th event.
abbrev pub on {ℓ} : {V : Type ℓ} → (ch : Channel V) → Chain ch → ℕ → ℕ → Attached V
on ch c id k = record { channel = ch; endpoint = record { event = some (c.place k); id = id } }

module _ {ℓ} {V : Type ℓ} (ch : Channel V) (c : Chain ch) (id : ℕ) where
  place_differs : (j k : ℕ) → j ≤ c.last → k ≤ c.last → j ≢ k → (c.place j == c.place k) ≡ false
  place_differs j k p q h = elim (Bool-cases (c.place j == c.place k)) [
    | inl e ↦ absurd (h (place_injective ch c j k p q ((==_iff (c.place j) (c.place k)).0 e)))
    | inr e ↦ e
  ]

  arrive-moves :
      (j k : ℕ)
      → j ≤ c.last
      → k ≤ c.last
      → j ≢ k
      → arrive (c.place k) (on ch c id j) ≡ (ok (some (c.event k).value), on ch c id k)
  unfolding arrive
  arrive-moves j k p q h = rw (place_differs j k p q h, c.stored k q) refl

  arrive-stays : (k : ℕ) → arrive (c.place k) (on ch c id k) ≡ (ok none, on ch c id k)
  unfolding arrive
  arrive-stays k = let same : (c.place k == c.place k) ≡ true = ground arith in rw same refl

  -- Forward and back by one event, and no further than to the tail and to the head.
  pub next_value-on :
      (k : ℕ)
      → k < c.last
      → next_value (on ch c id k) ≡ (ok (some (c.event (suc k)).value), on ch c id (suc k))
  unfolding next_value
  next_value-on k h =
      rw (next_event-chain ch c k h)
        (arrive-moves k (suc k) (omega arith) h (λ e. absurd (omega arith)))

  pub next_value-last : next_value (on ch c id c.last) ≡ (ok none, on ch c id c.last)
  unfolding next_value
  next_value-last = rw (next_event-last ch c) (arrive-stays c.last)

  pub unread-on :
      (k : ℕ)
      → k < c.last
      → unread (on ch c id (suc k)) ≡ (ok (some (c.event k).value), on ch c id k)
  unfolding unread
  unread-on k h =
      rw (previous_event-chain ch c k h)
        (arrive-moves (suc k) k h (omega arith) (λ e. absurd (omega arith)))

  pub unread-head : unread (on ch c id 0) ≡ (ok none, on ch c id 0)
  unfolding unread
  unread-head = rw (previous_event-head ch c) (arrive-stays 0)

  -- A write appends an event, wherever the endpoint stands, and moves there.
  pub append_value-on :
      (k : ℕ) (v : V)
      → let more = append_event-Appended id v ch c in
        append_value v (on ch c id k) ≡ (ok tt, on more.after more.chain id (suc c.last))
  unfolding append_value
  append_value-on k v = let more = append_event-Appended id v ch c in rw more.ran refl

  -- A new endpoint stands on the tail, and its clone too.
  pub new_endpoint-last : new_endpoint ch ≡ (
    ok (record { event = some (c.place c.last); id = ch.next_id }),
    record ch { next_id = next_publisher ch.next_id },
  )
  unfolding new_endpoint
  new_endpoint-last = rw c.tail_at refl

  -- The ids play no part in a chain.
  abbrev pub renumbered-Chain : (n : ℕ) → Chain (record ch { next_id = n })
  renumbered-Chain n = record {
    last = c.last;
    place = c.place;
    event = c.event;
    head_at = c.head_at;
    tail_at = c.tail_at;
    room = c.room;
    stored = c.stored;
    displaced = c.displaced;
    live = c.live;
    first = c.first;
    back = c.back;
    ahead = c.ahead;
    final = c.final;
  }

module _ {ℓ} {V : Type ℓ} (ch : Channel V) (c : Chain ch) where
  pub clone-on :
      (id k : ℕ)
      → k ≤ c.last
      → clone (on ch c id k) ≡ (
        ok (record { event = some (c.place k); id = ch.next_id }),
        record (on ch c id k) { channel = record ch { next_id = next_publisher ch.next_id } },
      )
  unfolding clone new_endpoint
  clone-on id k h =
      let ch' : Channel V = record ch { next_id = next_publisher ch.next_id } in
      let c' : Chain ch' = renumbered-Chain ch c id (next_publisher ch.next_id) in
      rw (c.stored k h, c.displaced k h, event_at-chain ch' c' k h) refl

  pub set_to_head-on :
      (id : ℕ) (p : Option ℕ)
      → set_to_head (record { channel = ch; endpoint = record { event = p; id = id } })
        ≡ (ok (c.event 0).value, on ch c id 0)
  unfolding set_to_head
  set_to_head-on id p = rw (event_at-chain ch c 0 (omega arith), c.stored 0 (omega arith)) refl

  pub current_value-on :
      (id k : ℕ) → k ≤ c.last → current_value (on ch c id k) ≡ (ok (c.event k).value, on ch c id k)
  unfolding current_value
  current_value-on id k h = rw (c.stored k h) refl

module _ {ℓ} {V : Type ℓ} where
  abbrev at_event : Channel V → ℕ → ℕ → Attached V
  at_event ch id p = record { channel = ch; endpoint = record { event = some p; id = id } }

  -- A walk to an event that is stored ends there, whether the endpoint moves or not.
  arrive-stored :
      (ch : Channel V) (id old new : ℕ) (e : Event V)
      → get_elem? ch.events new ≡ some e
      → (v : Option V) × (arrive new (at_event ch id old) ≡ (ok v, at_event ch id new))
  unfolding arrive current_value
  arrive-stored ch id old new e found = elim (Bool-cases (old == new)) [
    | inl same ↦ (none, rw (same, (==_iff old new).0 same) refl)
    | inr other ↦ (some e.value, rw (other, found) refl)
  ]

  unwrite-to :
      (ch : Channel V) (c : Chain ch) (id : ℕ) (after : Channel V) (p : ℕ) (e : Event V)
      → revert_event id c.last ch ≡ (ok p, after)
      → get_elem? after.events p ≡ some e
      → (v : Option V) × (unwrite (on ch c id c.last) ≡ (ok v, at_event after id p))
  unfolding unwrite
  unwrite-to ch c id after p e reverted found =
      let (v, moved) = arrive-stored after id (c.place c.last) p e found in
      (v, rw (c.stored c.last (omega arith), c.displaced c.last (omega arith), reverted) moved)

  -- What `unwrite` leaves of a channel: its last event is gone, if it is not the only one.
  pub record Unwritten (ch : Channel V) (c : Chain ch) (id : ℕ) : Type ℓ where
    pub after : Channel V
    pub chain : Chain after
    pub result : Option V
    pub ran : unwrite (on ch c id c.last) ≡ (ok result, on after chain id chain.last)
    pub last_is : chain.last ≡ c.last - 1
    pub same_value : (k : ℕ) → (chain.event k).value ≡ (c.event k).value
    pub same_publisher : (k : ℕ) → (chain.event k).publisher ≡ (c.event k).publisher

  -- An endpoint on the tail that wrote the last event takes it back, and one on the head stays.
  pub unwrite-Unwritten :
      (ch : Channel V) (c : Chain ch) (id : ℕ)
      → written_by ch c id c.last ≡ c.last
      → Unwritten ch c id
  unwrite-Unwritten ch c id own =
      let r = revert_event-Reverted ch c id c.last (omega arith) in
      let target : r.chain.place r.chain.last ≡ c.place (written_by ch c id c.last - 1) =
        ap r.chain.place r.last_is ∙ ap (λ f. f (written_by ch c id c.last - 1)) r.same_place in
      let (v, ran) =
        unwrite-to ch c id r.after (r.chain.place r.chain.last) (r.chain.event r.chain.last)
          (r.ran ∙ ap (λ p. (ok p, r.after)) (sym target))
          (r.chain.stored r.chain.last (omega arith)) in
      record {
        after = r.after;
        chain = r.chain;
        result = v;
        ran = ran;
        last_is = r.last_is ∙ ap (λ w. w - 1) own;
        same_value = r.same_value;
        same_publisher = r.same_publisher;
      }
