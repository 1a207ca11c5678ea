-- ===== src/Storage/Mmio/Input/Queue.antt =====
-- `Input` of src/libisa/components/storage/mmio.tpp: the device as a queue of the values that were buffered and
-- not read.
use libsim.Prelude.{
  ℕ, suc, ◌≤◌, ◌<◌, ◌≡◌, refl, sym, ap, ◌∙◌, subst, Bool, true, false, Option, none, some, List, [],
  ◌∷◌, ◌++◌, arith,
}
use libsim.Prelude.Exec.{Outcome, ok, err, storage, no_mm_input, Exec, ◌>>=◌, ◌>>◌, pure}
use libsim.Storage.Channel.{Channel, new_channel, next_publisher}
use libsim.Storage.Channel.Chain.{Chain, new_channel-Chain}
use libsim.Storage.Channel.Append.{append_event-Appended}
use libsim.Storage.Channel.Ends.{
  on, next_value-on, next_value-last, append_value-on, clone-on, renumbered-Chain,
}
use libsim.Storage.Mmio.{new_port, count_one}
use libsim.Storage.Mmio.Input.{
  Input, new_input, read, buffer_input, append_all, endpoint, take_value, add_delta,
}

-- The counter of a device with a history counts each read.
unfoldable pub counted : Bool → ℕ → ℕ
unfolding count_one
counted true count = count_one count
counted false count = count

-- Behind the `k`th event come those of the values, up to the tail.
abbrev pub Pending : {V : Type 0} → (ch : Channel V) → Chain ch → ℕ → List V → Type 0
Pending ch c k [] = k ≡ c.last
Pending ch c k (v ∷ vs) = (k < c.last) × ((c.event (suc k)).value ≡ v) × Pending ch c (suc k) vs

module _ {V : Type 0} where
  -- What writing the values leaves.
  pub record Buffered (ch : Channel V) (c : Chain ch) (id k : ℕ) (values : List V) : Type 0 where
    pub after : Channel V
    pub chain : Chain after
    pub end : ℕ
    pub ran : append_all values (on ch c id k) ≡ (ok tt, on after chain id end)
    pub more : c.last ≤ chain.last
    pub same_place : (j : ℕ) → j ≤ c.last → chain.place j ≡ c.place j
    pub same_value : (j : ℕ) → j ≤ c.last → (chain.event j).value ≡ (c.event j).value
    pub waits : Pending after chain c.last values

  pub append_all-Buffered :
      (values : List V) (ch : Channel V) (c : Chain ch) (id k : ℕ) → Buffered ch c id k values
  unfolding append_all
  append_all-Buffered [] ch c id k = record {
    after = ch;
    chain = c;
    end = k;
    ran = refl;
    more = omega arith;
    same_place = λ j p. refl;
    same_value = λ j p. refl;
    waits = refl;
  }
  append_all-Buffered (v ∷ values) ch c id k =
      let one = append_event-Appended id v ch c in
      let rest = append_all-Buffered values one.after one.chain id (suc c.last) in
      let within : suc c.last ≤ one.chain.last = omega (arith, one.last_is) in
      record {
        after = rest.after;
        chain = rest.chain;
        end = rest.end;
        ran = rw (append_value-on ch c id k v) rest.ran;
        more = omega (arith, rest.more, one.last_is);
        same_place = λ j p. rest.same_place j (omega (arith, one.last_is)) ∙ one.same_place j p;
        same_value = λ j p. rest.same_value j (omega (arith, one.last_is)) ∙ one.same_value j p;
        waits = (
          omega (arith, rest.more, one.last_is),
          rest.same_value (suc c.last) within ∙ one.new_value,
          subst (λ n. Pending rest.after rest.chain n values) one.last_is rest.waits,
        );
      }

  -- What was waiting goes on to wait, before the new values.
  pub Pending-append :
      (ch ch' : Channel V) (c : Chain ch) (c' : Chain ch') (k : ℕ) (queue values : List V)
      → c.last ≤ c'.last
      → ((j : ℕ) → j ≤ c.last → (c'.event j).value ≡ (c.event j).value)
      → Pending ch c k queue
      → Pending ch' c' c.last values
      → Pending ch' c' k (queue ++ values)
  Pending-append ch ch' c c' k [] values more same p q =
      subst (λ n. Pending ch' c' n values) (sym p) q
  Pending-append ch ch' c c' k (v ∷ queue) values more same p q = (
    omega (arith, p.0),
    same (suc k) p.0 ∙ p.1,
    Pending-append ch ch' c c' (suc k) queue values more same p.2 q,
  )

  -- The device with its endpoint on the `k`th event.
  abbrev pub input_at : (ch : Channel V) → Chain ch → ℕ → ℕ → Option V → ℕ → Input V
  input_at ch c id k cached count = record {
    port = on ch c id k;
    last_read_value = cached;
    read_count = count;
  }

  module _ (ch : Channel V) (c : Chain ch) (id k : ℕ) (cached : Option V) (count : ℕ) where
    pub read-waiting :
        (history : Bool)
        → k < c.last
        → read history 0 (input_at ch c id k cached count) ≡ (
          ok (c.event (suc k)).value,
          input_at ch c id (suc k) (some (c.event (suc k)).value) (counted history count),
        )
    unfolding read add_delta take_value counted
    read-waiting true h = rw (next_value-on ch c id k h) refl
    read-waiting false h = rw (next_value-on ch c id k h) refl

    read-last :
        (history : Bool)
        → read history 0 (input_at ch c id c.last cached count)
          ≡ (err (storage no_mm_input), input_at ch c id c.last cached (counted history count))
    unfolding read add_delta take_value counted
    read-last true = rw (next_value-last ch c id) refl
    read-last false = rw (next_value-last ch c id) refl

    pub read-empty :
        (history : Bool)
        → k ≡ c.last
        → read history 0 (input_at ch c id k cached count)
          ≡ (err (storage no_mm_input), input_at ch c id k cached (counted history count))
    read-empty history h =
        subst
          (λ n.
            read history 0 (input_at ch c id n cached count)
            ≡ (err (storage no_mm_input), input_at ch c id n cached (counted history count)))
          (sym h) (read-last history)

    endpoint-last : endpoint (input_at ch c id k cached count) ≡ (
      ok (record { event = some (c.place c.last); id = ch.next_id }),
      input_at
          (record ch { next_id = next_publisher ch.next_id })
          (renumbered-Chain ch c id (next_publisher ch.next_id))
          id
          k
          cached
          count,
    )
    unfolding endpoint
    endpoint-last = rw c.tail_at refl

    -- A new endpoint takes two ids, and writes from the tail on.
    pub buffer_input-Buffered :
        (values : List V)
        → let n = next_publisher ch.next_id in
          let ch' : Channel V = record ch { next_id = next_publisher n } in
          let b =
            append_all-Buffered values ch' (renumbered-Chain ch c id (next_publisher n)) n c.last in
          buffer_input values (input_at ch c id k cached count) ≡ (
            ok tt,
            record {
              port = record {
                channel = b.after;
                endpoint = record { event = some (c.place k); id = id };
              };
              last_read_value = cached;
              read_count = count;
            },
          )
    unfolding buffer_input
    buffer_input-Buffered values =
        let n = next_publisher ch.next_id in
        let ch1 : Channel V = record ch { next_id = n } in
        let c1 : Chain ch1 = renumbered-Chain ch c id n in
        let ch' : Channel V = record ch { next_id = next_publisher n } in
        let b =
          append_all-Buffered values ch' (renumbered-Chain ch c id (next_publisher n)) n c.last in
        rw (endpoint-last, clone-on ch1 c1 ch.next_id c.last (omega arith), b.ran) refl

-- What a client can do: buffer values, and read.
pub data Act (V : Type 0) : Type 0 where
  buffer : List V → Act V
  take : Act V

module _ {V : Type 0} where
  unfoldable pub act : Bool → Act V → Exec (Input V) (Option V)
  act history (buffer values) = do buffer_input values; pure none
  act history take = do v ← read history 0; pure (some v)

  unfoldable pub outputs : Bool → List (Act V) → Input V → List (Outcome (Option V))
  unfolding act
  outputs history [] s = []
  outputs history (a ∷ acts) s = let (r, s') = act history a s in r ∷ outputs history acts s'

  -- The same calls of a queue.
  unfoldable pub of_queue : List (Act V) → List V → List (Outcome (Option V))
  of_queue [] queue = []
  of_queue (buffer values ∷ acts) queue = ok none ∷ of_queue acts (queue ++ values)
  of_queue (take ∷ acts) [] = err (storage no_mm_input) ∷ of_queue acts []
  of_queue (take ∷ acts) (v ∷ queue) = ok (some v) ∷ of_queue acts queue

  outputs-Pending :
      (history : Bool) (acts : List (Act V)) (queue : List V) (ch : Channel V) (c : Chain ch)
      (id k : ℕ) (cached : Option V) (count : ℕ)
      → k ≤ c.last
      → Pending ch c k queue
      → outputs history acts (input_at ch c id k cached count) ≡ of_queue acts queue
  unfolding outputs of_queue
  outputs-Pending history [] queue ch c id k cached count h p = refl
  outputs-Pending history (buffer values ∷ acts) queue ch c id k cached count h p =
      let n = next_publisher ch.next_id in
      let ch' : Channel V = record ch { next_id = next_publisher n } in
      let c' : Chain ch' = renumbered-Chain ch c id (next_publisher n) in
      let b = append_all-Buffered values ch' c' n c.last in
      rw (buffer_input-Buffered ch c id k cached count values, ← b.same_place k h)
        (ap (λ t. ok none ∷ t)
          (outputs-Pending history acts (queue ++ values) b.after b.chain id k cached count
            (omega (arith, b.more))
            (Pending-append ch b.after c b.chain k queue values b.more b.same_value p b.waits)))
  outputs-Pending history (take ∷ acts) [] ch c id k cached count h p =
      rw (read-empty ch c id k cached count history p) (
        ap (λ t. err (storage no_mm_input) ∷ t)
          (outputs-Pending history acts [] ch c id k cached (counted history count) h p))
  outputs-Pending history (take ∷ acts) (v ∷ queue) ch c id k cached count h p =
      rw (read-waiting ch c id k cached count history p.0, p.1)
        (ap (λ t. ok (some v) ∷ t)
          (outputs-Pending history acts queue ch c id (suc k) (some v) (counted history count) p.0
            p.2))

  -- A new input device, with or without a history, answers any sequence of reads and of buffered values
  -- like an empty queue: each read gives the first value that was buffered and not read, and fails with
  -- `no_mm_input` if there is none.
  pub input-queue :
      (history : Bool) (default : V) (acts : List (Act V))
      → outputs history acts (new_input default) ≡ of_queue acts []
  unfolding new_input new_port new_channel new_channel-Chain
  input-queue history default acts =
      outputs-Pending history acts [] (record (new_channel default) { next_id = 2 })
        (renumbered-Chain (new_channel default) (new_channel-Chain default) 0 2) 1 0 none 0
        (omega arith) refl
