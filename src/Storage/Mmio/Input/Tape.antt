-- ===== src/Storage/Mmio/Input/Tape.antt =====
-- `Input` of src/libisa/components/storage/mmio.tpp with its history, from components/delta/delta_mmio.tpp: the
-- device as a tape that is read forward and wound back.
use libsim.Prelude.{
  ℕ, zero, suc, ◌-◌, ◌≤◌, ◌<◌, ◌≡◌, refl, ap, ◌∙◌, subst, true, Option, none, some, List, [], ◌∷◌,
  ◌++◌, arith,
}
use libsim.Prelude.Exec.{Outcome, ok, err, storage, no_mm_input, Exec, ◌>>=◌, ◌>>◌, pure}
use libsim.Storage.Channel.{Channel, unread, new_channel, next_publisher}
use libsim.Storage.Channel.Chain.{Chain, new_channel-Chain}
use libsim.Storage.Channel.Ends.{on, unread-on, unread-head, renumbered-Chain}
use libsim.Storage.Mmio.{new_port, count_one, times}
use libsim.Storage.Mmio.Input.{
  Input, new_input, read, buffer_input, take_delta, apply_backward, clear_delta,
}
use libsim.Storage.Mmio.Input.Queue.{
  Pending, input_at, counted, read-waiting, read-empty, buffer_input-Buffered, append_all-Buffered,
  Pending-append,
}

-- What a client and the machine can do: buffer values, read, forget the history, and undo it.
pub data Command (V : Type 0) : Type 0 where
  feed : List V → Command V
  take forget undo : Command V

-- The values that were read, the latest first, those that wait, and the count of the history.
pub record Tape (V : Type 0) : Type 0 where
  pub taken : List V
  pub waiting : List V
  pub count : ℕ

module _ {V : Type 0} where
  unfoldable pub command : Command V → Exec (Input V) (Option V)
  command (feed values) = do buffer_input values; pure none
  command take = do v ← read true 0; pure (some v)
  command forget = do clear_delta true; pure none
  command undo = do count ← take_delta true; apply_backward count; pure none

  unfoldable pub results : List (Command V) → Input V → List (Outcome (Option V))
  unfolding command
  results [] s = []
  results (c ∷ cs) s = let (r, s') = command c s in r ∷ results cs s'

  unfoldable pub wind_back : ℕ → Tape V → Tape V
  wind_back zero t = t
  wind_back (suc n) t = elim t.taken [
    | [] ↦ wind_back n t
    | v ∷ taken ↦ wind_back n (record t { taken = taken; waiting = v ∷ t.waiting })
  ]

  -- A read is counted whether there is a value or not.
  unfoldable pub of_tape : Command V → Tape V → Outcome (Option V) × Tape V
  unfolding wind_back count_one
  of_tape (feed values) t = (ok none, record t { waiting = t.waiting ++ values })
  of_tape take t = elim t.waiting [
    | [] ↦ (err (storage no_mm_input), record t { count = count_one t.count })
    | v ∷ waiting ↦
        (ok (some v), record { taken = v ∷ t.taken; waiting = waiting; count = count_one t.count })
  ]
  of_tape forget t = (ok none, record t { count = 0 })
  of_tape undo t = (ok none, wind_back t.count (record t { count = 0 }))

  unfoldable pub tape_results : List (Command V) → Tape V → List (Outcome (Option V))
  unfolding of_tape
  tape_results [] t = []
  tape_results (c ∷ cs) t = let (r, t') = of_tape c t in r ∷ tape_results cs t'

  -- The events before the `k`th and itself are those of the values, but for the first event.
  abbrev Behind : (ch : Channel V) → Chain ch → ℕ → List V → Type 0
  Behind ch c k [] = k ≡ 0
  Behind ch c k (v ∷ vs) = (0 < k) × ((c.event k).value ≡ v) × Behind ch c (k - 1) vs

  Behind-same :
      (ch ch' : Channel V) (c : Chain ch) (c' : Chain ch') (k : ℕ) (taken : List V)
      → k ≤ c.last
      → ((j : ℕ) → j ≤ c.last → (c'.event j).value ≡ (c.event j).value)
      → Behind ch c k taken
      → Behind ch' c' k taken
  Behind-same ch ch' c c' k [] h same b = b
  Behind-same ch ch' c c' k (v ∷ taken) h same b =
      (b.0, same k h ∙ b.1, Behind-same ch ch' c c' (k - 1) taken (omega arith) same b.2)

  -- Where the loop of `apply_backward` leads.
  record Wound (ch : Channel V) (c : Chain ch) (id n k : ℕ) (t : Tape V) : Type 0 where
    end : ℕ
    within : end ≤ c.last
    ran : times n unread (on ch c id k) ≡ (ok tt, on ch c id end)
    behind : Behind ch c end (wind_back n t).taken
    ahead : Pending ch c end (wind_back n t).waiting
    count : (wind_back n t).count ≡ t.count

  unread-Wound :
      (ch : Channel V) (c : Chain ch) (id n k : ℕ) (taken waiting : List V) (count : ℕ)
      → k ≤ c.last
      → Behind ch c k taken
      → Pending ch c k waiting
      → Wound ch c id n k (record { taken = taken; waiting = waiting; count = count })
  unfolding times wind_back
  unread-Wound ch c id zero k taken waiting count h b p = record {
    end = k;
    within = h;
    ran = refl;
    behind = b;
    ahead = p;
    count = refl;
  }
  unread-Wound ch c id (suc n) (suc k) [] waiting count h b p = absurd (omega arith)
  unread-Wound ch c id (suc n) zero [] waiting count h b p =
      let w = unread-Wound ch c id n zero [] waiting count h b p in
      record {
        end = w.end;
        within = w.within;
        ran = rw (unread-head ch c id) w.ran;
        behind = w.behind;
        ahead = w.ahead;
        count = w.count;
      }
  unread-Wound ch c id (suc n) zero (v ∷ taken) waiting count h b p = absurd (omega (arith, b.0))
  unread-Wound ch c id (suc n) (suc k) (v ∷ taken) waiting count h b p =
      let before : Behind ch c k taken = subst (λ j. Behind ch c j taken) (omega arith) b.2 in
      let w = unread-Wound ch c id n k taken (v ∷ waiting) count (omega arith) before (h, b.1, p) in
      record {
        end = w.end;
        within = w.within;
        ran = rw (unread-on ch c id k h) w.ran;
        behind = w.behind;
        ahead = w.ahead;
        count = w.count;
      }

  -- The device with its endpoint where the tape is.
  record Shows (ch : Channel V) (c : Chain ch) (k : ℕ) (t : Tape V) : Type 0 where
    within : k ≤ c.last
    behind : Behind ch c k t.taken
    ahead : Pending ch c k t.waiting

  results-Shows :
      (cs : List (Command V)) (ch : Channel V) (c : Chain ch) (id k : ℕ) (cached : Option V)
      (taken waiting : List V) (count : ℕ)
      → Shows ch c k (record { taken = taken; waiting = waiting; count = count })
      → results cs (input_at ch c id k cached count)
        ≡ tape_results cs (record { taken = taken; waiting = waiting; count = count })
  unfolding results tape_results clear_delta take_delta apply_backward counted
  results-Shows [] ch c id k cached taken waiting count h = refl
  results-Shows (feed values ∷ cs) ch c id k cached taken waiting count h =
      let n = next_publisher ch.next_id in
      let ch' : Channel V = record ch { next_id = next_publisher n } in
      let c' : Chain ch' = renumbered-Chain ch c id (next_publisher n) in
      let b = append_all-Buffered values ch' c' n c.last in
      rw (buffer_input-Buffered ch c id k cached count values, ← b.same_place k h.within)
        (ap (λ t. ok none ∷ t)
          (results-Shows cs b.after b.chain id k cached taken (waiting ++ values) count (record {
            within = omega (arith, b.more, h.within);
            behind = Behind-same ch b.after c b.chain k taken h.within b.same_value h.behind;
            ahead =
                Pending-append ch b.after c b.chain k waiting values b.more b.same_value h.ahead
                  b.waits;
          })))
  results-Shows (take ∷ cs) ch c id k cached taken [] count h =
      rw (read-empty ch c id k cached count true h.ahead) (
        ap (λ t. err (storage no_mm_input) ∷ t)
          (results-Shows cs ch c id k cached taken [] (count_one count)
            (record { within = h.within; behind = h.behind; ahead = h.ahead })))
  results-Shows (take ∷ cs) ch c id k cached taken (v ∷ waiting) count h =
      let (lt, value, rest) = h.ahead in
      rw (read-waiting ch c id k cached count true lt, value)
        (ap (λ t. ok (some v) ∷ t)
          (results-Shows cs ch c id (suc k) (some v) (v ∷ taken) waiting (count_one count) (record {
            within = lt;
            behind = (omega arith, value, subst (λ j. Behind ch c j taken) (omega arith) h.behind);
            ahead = rest;
          })))
  results-Shows (forget ∷ cs) ch c id k cached taken waiting count h =
      ap (λ t. ok none ∷ t)
        (results-Shows cs ch c id k cached taken waiting 0
          (record { within = h.within; behind = h.behind; ahead = h.ahead }))
  results-Shows (undo ∷ cs) ch c id k cached taken waiting count h =
      let w = unread-Wound ch c id count k taken waiting 0 h.within h.behind h.ahead in
      let t = wind_back count (record { taken = taken; waiting = waiting; count = 0 }) in
      rw w.ran (
        ap (λ rs. ok none ∷ rs)
          (subst (λ n. results cs (input_at ch c id w.end cached n) ≡ tape_results cs t) w.count
            (results-Shows cs ch c id w.end cached t.taken t.waiting t.count
              (record { within = w.within; behind = w.behind; ahead = w.ahead }))))

  -- A new input device with a history answers any sequence of calls like a tape: a read gives the next
  -- value that waits, or fails with `no_mm_input`, and an undo winds back as many values as there
  -- were reads since the last undo or the last time the history was forgotten, counted to 256, the
  -- failed ones included, but no further than to the start.
  pub input-tape :
      (default : V) (cs : List (Command V))
      → results cs (new_input default)
        ≡ tape_results cs (record { taken = []; waiting = []; count = 0 })
  unfolding new_input new_port new_channel new_channel-Chain
  input-tape default cs =
      results-Shows cs (record (new_channel default) { next_id = 2 })
        (renumbered-Chain (new_channel default) (new_channel-Chain default) 0 2) 1 0 none [] [] 0
        (record { within = omega arith; behind = refl; ahead = refl })
