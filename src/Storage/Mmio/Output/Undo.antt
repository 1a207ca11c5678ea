-- ===== src/Storage/Mmio/Output/Undo.antt =====
-- `Output` of src/libisa/components/storage/mmio.tpp with its history, from components/delta/delta_mmio.tpp: the
-- device as a log that undo shortens.
use libsim.Prelude.{
  ℕ, zero, suc, ◌≡◌, refl, ap, ◌∙◌, subst, Option, none, some, List, [], ◌∷◌, ◌++◌, length, arith,
}
use native.Mathlib.Decide.{dec_le}
use libsim.Prelude.Exec.{ok}
use libsim.Storage.Channel.{Channel, unwrite, new_channel, next_publisher}
use libsim.Storage.Channel.Chain.{Chain, new_channel-Chain}
use libsim.Storage.Channel.Append.{append_event-Appended}
use libsim.Storage.Channel.Ends.{
  on, append_value-on, set_to_head-on, current_value-on, renumbered-Chain, unwrite-Unwritten,
}
use libsim.Storage.Mmio.{new_port, count_one, times}
use libsim.Storage.Mmio.Output.{
  Output, new_output, write, get, endpoint, take_delta, apply_backward, clear_delta, latest,
}
use libsim.Storage.Mmio.Output.Log.{
  Command, put, peek, forget, undo, look, subscribe, results, drop_last, shorten, log_results,
}
use libsim.Storage.Mmio.Output.Follows.{
  Follows, Follows-append, Follows-drop_last, Follows-same, drain-Follows, written_by-own, Shows,
}

module _ {V : Type 0} where
  -- The device with its endpoint on the tail.
  abbrev output_at : (ch : Channel V) → Chain ch → ℕ → Option V → ℕ → Output V
  output_at ch c id cached count = record {
    port = on ch c id c.last;
    last_write_value = cached;
    write_count = count;
  }

  -- What the loop of `apply_backward` leaves.
  record Undone (default : V) (ch : Channel V) (c : Chain ch) (id n : ℕ) (written : List V)
      (cached : Option V) : Type 0 where
    after : Channel V
    chain : Chain after
    ran : times n unwrite (on ch c id c.last) ≡ (ok tt, on after chain id chain.last)
    shows : Shows default after chain id (shorten n written) cached

  unwrite-Undone :
      (default : V) (n : ℕ) (ch : Channel V) (c : Chain ch) (id : ℕ) (written : List V)
      (cached : Option V)
      → Shows default ch c id written cached
      → Undone default ch c id n written cached
  unfolding times shorten
  unwrite-Undone default zero ch c id written cached h = record {
    after = ch;
    chain = c;
    ran = refl;
    shows = h;
  }
  unwrite-Undone default (suc n) ch c id written cached h =
      let u = unwrite-Unwritten ch c id (written_by-own ch c id c.last (omega arith) h.own) in
      let rest = unwrite-Undone default n u.after u.chain id (drop_last written) cached (record {
        follows =
            Follows-drop_last ch u.after c u.chain 0 written u.last_is u.same_value (λ e. refl)
              h.follows;
        own = λ k p. u.same_publisher (suc k) ∙ h.own k (omega (arith, u.last_is));
        first_value = u.same_value 0 ∙ h.first_value;
        uncached = λ e. omega (arith, u.last_is, h.uncached e);
      }) in
      record { after = rest.after; chain = rest.chain; ran = rw u.ran rest.ran; shows = rest.shows }

  -- One more value of the endpoint's own.
  Shows-put :
      (default : V) (ch : Channel V) (c : Chain ch) (id : ℕ) (written : List V) (cached : Option V)
      (v : V)
      → Shows default ch c id written cached
      → let more = append_event-Appended id v ch c in
        Shows default more.after more.chain id (written ++ v ∷ []) (some v)
  Shows-put default ch c id written cached v h =
      let more = append_event-Appended id v ch c in
      record {
        follows =
            Follows-append ch more.after c more.chain 0 written v more.last_is more.same_value
              more.new_value h.follows;
        own = λ k p. elim (dec_le (suc k) c.last) [
          | yes q ↦ more.same_publisher (suc k) q ∙ h.own k q
          | no q ↦
              let new : k ≡ c.last = omega (arith, more.last_is) in
              ap (λ j. (more.chain.event (suc j)).publisher) new ∙ more.new_publisher
        ];
        first_value = more.same_value 0 (omega arith) ∙ h.first_value;
        uncached = λ e. cc;
      }

  subscribe-Follows :
      (ch : Channel V) (c : Chain ch) (id : ℕ) (written : List V) (cached : Option V) (count : ℕ)
      → Follows ch c 0 written
      → subscribe (output_at ch c id cached count) ≡ (
        ok written,
        output_at
            (record ch { next_id = next_publisher ch.next_id })
            (renumbered-Chain ch c id (next_publisher ch.next_id))
            id
            cached
            count,
      )
  unfolding subscribe endpoint
  subscribe-Follows ch c id written cached count f =
      let n = next_publisher ch.next_id in
      let ch' : Channel V = record ch { next_id = n } in
      let c' : Chain ch' = renumbered-Chain ch c id n in
      rw
        (
          set_to_head-on ch' c' ch.next_id (some ch.tail),
          drain-Follows ch' c' ch.next_id (length ch.events) 0 written (omega (arith, c.room))
              (Follows-same ch ch' c c' 0 written refl (λ j. refl) f),
        )
        refl

  results-Shows :
      (default : V) (cs : List (Command V)) (ch : Channel V) (c : Chain ch) (id : ℕ)
      (written : List V) (cached : Option V) (count : ℕ)
      → Shows default ch c id written cached
      → results cs (output_at ch c id cached count)
        ≡ log_results default cs (record { written = written; cached = cached; count = count })
  unfolding results log_results write get clear_delta take_delta apply_backward latest
  results-Shows default [] ch c id written cached count h = refl
  results-Shows default (put v ∷ cs) ch c id written cached count h =
      let more = append_event-Appended id v ch c in
      rw (append_value-on ch c id c.last v) (
        ap (λ rs. ok [] ∷ rs)
          (subst
            (λ n.
              results cs (record {
                port = on more.after more.chain id n;
                last_write_value = some v;
                write_count = count_one count;
              })
              ≡ log_results default cs (record {
                written = written ++ v ∷ [];
                cached = some v;
                count = count_one count;
              }))
            more.last_is
            (results-Shows default cs more.after more.chain id (written ++ v ∷ []) (some v)
              (count_one count) (Shows-put default ch c id written cached v h))))
  results-Shows default (peek ∷ cs) ch c id written none count h =
      let at_head : (c.event c.last).value ≡ default =
        ap (λ k. (c.event k).value) (h.uncached refl) ∙ h.first_value in
      rw (current_value-on ch c id c.last (omega arith), at_head)
        (ap (λ rs. ok (default ∷ []) ∷ rs)
          (results-Shows default cs ch c id written (some default) count (record {
            follows = h.follows;
            own = h.own;
            first_value = h.first_value;
            uncached = λ e. cc;
          })))
  results-Shows default (peek ∷ cs) ch c id written (some v) count h =
      ap (λ rs. ok (v ∷ []) ∷ rs) (results-Shows default cs ch c id written (some v) count h)
  results-Shows default (forget ∷ cs) ch c id written cached count h =
      ap (λ rs. ok [] ∷ rs) (results-Shows default cs ch c id written cached 0 h)
  results-Shows default (undo ∷ cs) ch c id written cached count h =
      let u = unwrite-Undone default count ch c id written cached h in
      rw u.ran (
        ap (λ rs. ok [] ∷ rs)
          (results-Shows default cs u.after u.chain id (shorten count written) cached 0 u.shows))
  results-Shows default (look ∷ cs) ch c id written cached count h =
      let n = next_publisher ch.next_id in
      rw (subscribe-Follows ch c id written cached count h.follows) (
        ap (λ rs. ok written ∷ rs)
          (results-Shows default cs (record ch { next_id = n }) (renumbered-Chain ch c id n) id
            written cached count
            (record {
              follows =
                  Follows-same ch (record ch { next_id = n }) c (renumbered-Chain ch c id n) 0
                    written refl (λ j. refl) h.follows;
              own = h.own;
              first_value = h.first_value;
              uncached = h.uncached;
            })))

  -- A new output device with a history answers any sequence of calls like a log: a subscriber sees the
  -- values that were written and not undone, in their order, and an undo takes back as many as there
  -- were writes since the last undo or the last time the history was forgotten, counted to 256.
  -- But once a value was written or asked for, the device itself goes on to give the last such value
  -- after an undo.
  pub output-log :
      (default : V) (cs : List (Command V))
      → results cs (new_output default)
        ≡ log_results default cs (record { written = []; cached = none; count = 0 })
  unfolding new_output new_port new_channel new_channel-Chain
  output-log default cs =
      results-Shows default cs (record (new_channel default) { next_id = 2 })
        (renumbered-Chain (new_channel default) (new_channel-Chain default) 0 2) 1 [] none 0
        (record {
          follows = refl;
          own = λ k p. absurd (omega arith);
          first_value = refl;
          uncached = λ e. refl;
        })

  -- On a new output device with a history, a value that was written is undone, and no subscriber sees
  -- it any more, but the device still gives it.
  undo-put :
      (default v : V) (cs : List (Command V))
      → results (put v ∷ undo ∷ look ∷ peek ∷ cs) (new_output default)
        ≡ ok []
          ∷ ok []
          ∷ ok []
          ∷ ok (v ∷ [])
          ∷ log_results default cs (record { written = []; cached = some v; count = 0 })
  unfolding log_results
  undo-put default v cs = output-log default (put v ∷ undo ∷ look ∷ peek ∷ cs)
