-- ===== src/Storage/Channel.antt =====
-- src/libisa/components/storage/pubsub.hpp and pubsub.tpp: a channel, which is a doubly linked list of events, and
-- the endpoints that walk on it. An event lives on while an endpoint may stand on it, so that none is
-- removed from the store here.
pub mod Chain
pub mod Append
pub mod Walk
pub mod Revert
pub mod Ends
use libsim.Prelude.{
  ℕ, zero, suc, ◌+◌, ◌%◌, Bool, true, false, Option, none, some, List, [], ◌∷◌, ◌++◌, ltb, ◌==◌,
  if◌then◌else◌, get_elem?, set, length, not,
}
use libsim.Prelude.Exec.{Outcome, ok, crash, Exec, ◌>>=◌, ◌>>◌, pure, abort, gets, modify, zoom}

-- Pointers are places in the store, and null is `none`.
pub record Event {ℓ} (V : Type ℓ) : Type ℓ where
  pub value : V
  pub publisher : ℕ
  pub empty : Bool
  pub next_node : Option ℕ
  pub prev_node : Option ℕ
  pub displacement : ℕ

-- `next_id`, `head` and `tail`, with the store of all events that were made.
pub record Channel {ℓ} (V : Type ℓ) : Type ℓ where
  pub events : List (Event V)
  pub next_id : ℕ
  pub head : ℕ
  pub tail : ℕ

-- `Event::Event`.
unfoldable pub new_event {ℓ} : {V : Type ℓ} → V → ℕ → Bool → Option ℕ → ℕ → Event V
new_event value publisher empty prev_node displacement = record {
  value = value;
  publisher = publisher;
  empty = empty;
  next_node = none;
  prev_node = prev_node;
  displacement = displacement;
}

unfoldable pub new_channel {ℓ} : {V : Type ℓ} → V → Channel V
unfolding new_event
new_channel default_value = record {
  events = new_event default_value 0 false none 0 ∷ [];
  next_id = 1;
  head = 0;
  tail = 0;
}

abbrev deref {ℓ} : {A : Type ℓ} → Option A → Outcome A
deref none = crash
deref (some a) = ok a

-- `publisher_id_t` has 16 bits.
unfoldable pub next_publisher : ℕ → ℕ
next_publisher id = (id + 1) % 65536

-- `Endpoint`, without the pointer to its channel.
pub record Endpoint : Type 0 where
  pub event : Option ℕ
  pub id : ℕ

module _ {ℓ} {V : Type ℓ} where
  -- `*p`, and `p->...` of a pointer that may be null.
  abbrev pub load : ℕ → Exec (Channel V) (Event V)
  load p ch = (deref (get_elem? ch.events p), ch)

  abbrev pub pointee : Option ℕ → Exec (Channel V) ℕ
  pointee p ch = (deref p, ch)

  abbrev pub store : ℕ → Event V → Exec (Channel V) (Unit {0})
  store p e = modify (λ ch. record ch { events = set ch.events p e })

  unfoldable pub new_endpoint : Exec (Channel V) Endpoint
  unfolding next_publisher
  new_endpoint ch = (
    ok (record { event = some ch.tail; id = ch.next_id }),
    record ch { next_id = next_publisher ch.next_id },
  )

  unfoldable pub append_event : ℕ → V → Exec (Channel V) ℕ
  unfolding new_event
  append_event publisher value = do
    tail ← gets (λ ch. ch.tail)
    new ← gets (λ ch. length ch.events)
    last ← load tail
    modify λ ch. record ch {
      events =
          set ch.events tail (record last { next_node = some new })
          ++ new_event value publisher false (some tail) (last.displacement + 1) ∷ [];
      tail = new;
    }
    pure new

  -- The loop of `event_at`. Each loop has as much fuel as there are events.
  unfoldable pub walk_to : ℕ → ℕ → ℕ → Exec (Channel V) ℕ
  walk_to zero time p = abort
  walk_to (suc fuel) time p = do
    e ← load p
    (if e.displacement == time
        then pure p
        else (do next ← pointee e.next_node; walk_to fuel time next))

  -- `event_at` and `mutable_event_at`.
  unfoldable pub event_at : ℕ → Exec (Channel V) (Option ℕ)
  unfolding walk_to
  event_at time = do
    ch ← gets (λ ch. ch)
    last ← load ch.tail
    (if ltb last.displacement time
        then pure none
        else (do p ← walk_to (length ch.events) time ch.head; pure (some p)))

  -- The loops of `revert_event`: back to an event of the publisher, or to the first.
  unfoldable pub find_back : ℕ → ℕ → ℕ → Exec (Channel V) ℕ
  find_back zero publisher p = abort
  find_back (suc fuel) publisher p = do
    e ← load p
    elim e.prev_node [
      | none ↦ pure p
      | some prev ↦ if e.publisher == publisher then pure p else find_back fuel publisher prev
    ]

  unfoldable pub fixup : ℕ → ℕ → Option ℕ → Exec (Channel V) (Unit {0})
  fixup fuel target none = pure tt
  fixup zero target (some p) = abort
  fixup (suc fuel) target (some p) = do
    e ← load p
    store p (record e { prev_node = some target; next_node = some target; empty = true })
    fixup fuel target e.next_node

  -- What follows the event is made empty and forgotten.
  unfoldable pub cut_after : ℕ → Exec (Channel V) (Unit {0})
  unfolding fixup
  cut_after p = do
    fuel ← gets (λ ch. length ch.events)
    e ← load p
    fixup fuel p e.next_node
    last ← load p
    store p (record last { next_node = none })
    modify (λ ch. record ch { tail = p })

  unfoldable pub step_back : ℕ → Exec (Channel V) ℕ
  step_back p = do
    head ← gets (λ ch. ch.head)
    e ← load p
    if p == head then pure p else pointee e.prev_node

  unfoldable pub revert_event : ℕ → ℕ → Exec (Channel V) ℕ
  unfolding event_at find_back step_back cut_after
  revert_event publisher time = do
    fuel ← gets (λ ch. length ch.events)
    found ← event_at time
    start ← pointee found
    written ← find_back fuel publisher start
    target ← step_back written
    cut_after target
    pure target

  unfoldable pub skip_forward : ℕ → ℕ → Exec (Channel V) ℕ
  skip_forward zero p = abort
  skip_forward (suc fuel) p = do
    e ← load p
    elim e.empty [
      | false ↦ pure p
      | true ↦ elim e.next_node [ none ↦ pure p | some next ↦ skip_forward fuel next ]
    ]

  unfoldable pub next_event : ℕ → Exec (Channel V) ℕ
  unfolding skip_forward
  next_event p = do
    fuel ← gets (λ ch. length ch.events)
    e ← load p
    elim e.next_node [ none ↦ pure p | some next ↦ skip_forward fuel next ]

  unfoldable pub skip_back : ℕ → ℕ → Exec (Channel V) ℕ
  skip_back zero p = abort
  skip_back (suc fuel) p = do
    e ← load p
    elim e.empty [
      | false ↦ pure p
      | true ↦ elim e.prev_node [ none ↦ pure p | some prev ↦ skip_back fuel prev ]
    ]

  unfoldable pub previous_event : ℕ → Exec (Channel V) ℕ
  unfolding skip_back
  previous_event p = do
    fuel ← gets (λ ch. length ch.events)
    e ← load p
    elim e.prev_node [ none ↦ pure p | some prev ↦ skip_back fuel prev ]

  -- The events before stay in the store, and the old head leads to the new one.
  unfoldable pub clear : V → Exec (Channel V) ℕ
  unfolding revert_event new_event
  clear default_value = do
    revert_event 0 0
    old ← gets (λ ch. ch.head)
    first ← load old
    temp ← gets (λ ch. length ch.events)
    modify λ ch. record ch {
      events =
          set ch.events old (record first { next_node = some temp; prev_node = some temp })
          ++ new_event default_value 0 false none 0 ∷ [];
      head = temp;
      tail = temp;
    }
    pure temp

-- An endpoint with its channel, which it shares with others.
pub record Attached {ℓ} (V : Type ℓ) : Type ℓ where
  pub channel : Channel V
  pub endpoint : Endpoint

module _ {ℓ} {V : Type ℓ} where
  abbrev in_channel {κ} : {A : Type κ} → Exec (Channel V) A → Exec (Attached V) A
  in_channel = zoom (λ s. s.channel) (λ ch s. record s { channel = ch })

  abbrev move : ℕ → Exec (Attached V) (Unit {0})
  move p = modify (λ s. record s { endpoint = record s.endpoint { event = some p } })

  abbrev standing : Exec (Attached V) ℕ
  standing s = (deref s.endpoint.event, s)

  unfoldable pub current_value : Exec (Attached V) V
  current_value = do p ← standing; e ← in_channel (load p); pure e.value

  -- A walk to an event, whose value is returned unless the endpoint is there already.
  unfoldable pub arrive : ℕ → Exec (Attached V) (Option V)
  unfolding current_value
  arrive new = do
    old ← standing
    if old == new then pure none else (do move new; v ← current_value; pure (some v))

  unfoldable pub next_value : Exec (Attached V) (Option V)
  unfolding next_event arrive
  next_value = do p ← standing; new ← in_channel (next_event p); arrive new

  unfoldable pub unread : Exec (Attached V) (Option V)
  unfolding previous_event arrive
  unread = do p ← standing; old ← in_channel (previous_event p); arrive old

  unfoldable pub append_value : V → Exec (Attached V) (Unit {0})
  unfolding append_event
  append_value v = do id ← gets (λ s. s.endpoint.id); new ← in_channel (append_event id v); move new

  unfoldable pub unwrite : Exec (Attached V) (Option V)
  unfolding revert_event arrive
  unwrite = do
    id ← gets (λ s. s.endpoint.id)
    p ← standing
    e ← in_channel (load p)
    old ← in_channel (revert_event id e.displacement)
    arrive old

  unfoldable pub set_to_head : Exec (Attached V) V
  unfolding event_at current_value
  set_to_head = do
    found ← in_channel (event_at 0)
    new ← in_channel (pointee found)
    move new
    current_value

  unfoldable pub set_to_tail : Exec (Attached V) V
  unfolding current_value
  set_to_tail = do new ← gets (λ s. s.channel.tail); move new; current_value

  -- The clone stands on the same event, under its own id.
  unfoldable pub clone : Exec (Attached V) Endpoint
  unfolding new_endpoint event_at
  clone = do
    p ← standing
    ret ← in_channel new_endpoint
    e ← in_channel (load p)
    found ← in_channel (event_at e.displacement)
    pure (record ret { event = found })
