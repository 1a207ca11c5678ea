-- ===== src/Storage/Mmio/Input/Undo.antt =====
-- `Input` of src/libisa/components/storage/mmio.tpp with its history, from components/delta/delta_mmio.tpp: what an
-- undo takes back.
use libsim.Prelude.{
  ℕ, suc, ◌+◌, ◌<◌, ◌≡◌, refl, ap, ◌∙◌, Option, none, some, List, [], ◌∷◌, ◌++◌, length, map, arith,
  Bool, true, false,
}
use libsim.Prelude.Exec.{◌>>◌, Outcome, ok, err, storage, no_mm_input}
use libsim.Storage.Mmio.{count_one}
use libsim.Storage.Mmio.Input.{new_input, clear, read}
use libsim.Storage.Mmio.Input.Tape.{
  Command, feed, take, forget, undo, results, tape_results, wind_back, input-tape,
}

count_one-suc : (n : ℕ) → n < 255 → count_one n ≡ suc n
unfolding count_one
count_one-suc n h = omega arith

module _ {V : Type 0} where
  push : List V → List V → List V
  push [] taken = taken
  push (v ∷ values) taken = push values (v ∷ taken)

  wind_back-push :
      (values taken rest : List V) (n : ℕ)
      → wind_back
          (n + length values)
          (record { taken = push values taken; waiting = rest; count = 0 })
        ≡ wind_back n (record { taken = taken; waiting = values ++ rest; count = 0 })
  unfolding push wind_back
  wind_back-push [] taken rest n =
      ap (λ m. wind_back m (record { taken = taken; waiting = rest; count = 0 })) (omega arith)
  wind_back-push (v ∷ values) taken rest n =
      ap (λ m. wind_back m (record { taken = push values (v ∷ taken); waiting = rest; count = 0 }))
        (omega arith)
      ∙ wind_back-push values (v ∷ taken) rest (suc n)

  -- A read for each of the values, and an undo.
  unfoldable pub takes : List V → List (Command V) → List (Command V)
  takes [] cs = undo ∷ cs
  takes (v ∷ values) cs = take ∷ takes values cs

  abbrev pub found : V → Outcome (Option V)
  found v = ok (some v)

  tape_results-takes :
      (values taken rest : List V) (count : ℕ) (cs : List (Command V))
      → count + length values < 256
      → tape_results
          (takes values cs)
          (record { taken = taken; waiting = values ++ rest; count = count })
        ≡ map found values
          ++ ok none
            ∷ tape_results cs (
                wind_back
                  (count + length values)
                  (record { taken = push values taken; waiting = rest; count = 0 }))
  unfolding takes tape_results push
  tape_results-takes [] taken rest count cs h =
      ap
        (λ n.
          ok none
          ∷ tape_results cs (wind_back n (record { taken = taken; waiting = rest; count = 0 })))
        (omega arith)
  tape_results-takes (v ∷ values) taken rest count cs h =
      ap (λ rs. found v ∷ rs)
        (rw (count_one-suc count (omega arith)) (
          tape_results-takes values (v ∷ taken) rest (suc count) cs (omega arith)
          ∙ ap
              (λ n.
                map found values
                ++ ok none
                  ∷ tape_results cs (
                      wind_back n
                        (record { taken = push values (v ∷ taken); waiting = rest; count = 0 })))
              (omega arith)))

  -- Of the values with which a new device was fed, fewer than 256 are read, and this is undone. Then the
  -- reads give the values, and the device goes on like one that was only fed.
  pub undo-takes :
      (default : V) (values rest : List V) (cs : List (Command V))
      → length values < 256
      → results (feed (values ++ rest) ∷ takes values cs) (new_input default)
        ≡ ok none ∷ map found values ++ results (feed (values ++ rest) ∷ cs) (new_input default)
  unfolding tape_results wind_back
  undo-takes default values rest cs h =
      rw
        (
          input-tape default (feed (values ++ rest) ∷ takes values cs),
          input-tape default (feed (values ++ rest) ∷ cs),
        )
        (ap (λ rs. ok none ∷ rs)
          (tape_results-takes values [] rest 0 cs (omega arith)
            ∙ ap (λ t. map found values ++ ok none ∷ tape_results cs t)
                (wind_back-push values [] rest 0)))

  -- On any device, a read that fails is counted like one that does not. If a value was read before, the
  -- history was forgotten, and the next read fails, then an undo makes that value wait again.
  undo-failed_read :
      (default v : V) (cs : List (Command V))
      → results (feed (v ∷ []) ∷ take ∷ forget ∷ take ∷ undo ∷ cs) (new_input default)
        ≡ ok none
          ∷ ok (some v)
          ∷ ok none
          ∷ err (storage no_mm_input)
          ∷ ok none
          ∷ tape_results cs (record { taken = []; waiting = v ∷ []; count = 0 })
  unfolding tape_results
  undo-failed_read default v cs =
      input-tape default (feed (v ∷ []) ∷ take ∷ forget ∷ take ∷ undo ∷ cs)

  -- A new input device that is cleared gives the value that it was cleared with as input, though no
  -- value was buffered.
  clear-read :
      (history : Bool) (default fill_val : V)
      → ((clear history fill_val >> read history 0) (new_input default)).0 ≡ ok fill_val
  unfolding clear read new_input
  clear-read true default fill_val = refl
  clear-read false default fill_val = refl
