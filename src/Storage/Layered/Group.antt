-- ===== src/Storage/Layered/Group.antt =====
-- src/libisa/components/storage/layered.tpp and components/delta/grouped.tpp: the methods that go through all
-- layers.
use libsim.Prelude.{ℕ, ◌+◌, ◌≤◌, ◌≡◌, refl, Bool, true, false, List, [], ◌∷◌, ltb, arith, All}
use native.Mathlib.Decide.{dec_le}
use libsim.Prelude.Exec.{ok, err, storage, resize_too_small, ◌>>=◌, must}
use libsim.Storage.Device.{Device}
use libsim.Storage.Layered.{
  Layered, take_delta, take_each, play, apply_backward, in_layers, used, resize, clear,
}

module _ {D H : Type 0} (dev : Device D H ℕ) where
  -- The device can hand out its history, and playing it backward leads to `before`.
  pub record Undoes (after before : D) : Type 0 where
    pub history : H
    pub emptied : D
    pub taken : dev.take_delta after ≡ (ok history, emptied)
    pub played : dev.apply_backward history emptied ≡ (ok tt, before)

  -- This holds of each layer.
  pub data AllUndo : List (ℕ × D) → List (ℕ × D) → Type 0 where
    none_left : AllUndo [] []
    layer :
        {base : ℕ} {after before : D} {rest rest' : List (ℕ × D)}
        → Undoes after before
        → AllUndo rest rest'
        → AllUndo ((base, after) ∷ rest) ((base, before) ∷ rest')

  -- The histories that are taken, and the layers that this leaves.
  record Taken (after before : List (ℕ × D)) : Type 0 where
    histories : List H
    emptied : List (ℕ × D)
    taken : take_each dev after ≡ (ok histories, emptied)
    played : play dev dev.apply_backward histories emptied ≡ (ok tt, before)

  AllUndo-Taken : {after before : List (ℕ × D)} → AllUndo after before → Taken after before
  unfolding take_each play
  AllUndo-Taken none_left = record { histories = []; emptied = []; taken = refl; played = refl }
  AllUndo-Taken (layer {base = base} u us) =
      let t = AllUndo-Taken us in
      record {
        histories = u.history ∷ t.histories;
        emptied = (base, u.emptied) ∷ t.emptied;
        taken = rw (take_each, u.taken, t.taken, must, u.taken) refl;
        played = rw (play, u.played, t.played, u.played) refl;
      }

  -- If each layer goes back to a state by its own history, the layers go back to these states by the
  -- group of their histories.
  pub undo-layered :
      (s : Layered D) (before : List (ℕ × D))
      → AllUndo s.layers before
      → (take_delta dev true >>= apply_backward dev) s ≡ (ok tt, record s { layers = before })
  unfolding take_delta apply_backward in_layers
  undo-layered s before h = let t = AllUndo-Taken h in rw (t.taken, t.played) refl

  -- The layer ends within the bound.
  abbrev pub Fits : ℕ → ℕ × D → Type 0
  Fits bound (base, device) = base + dev.max_offset device ≤ bound

  used-Fits :
      (bound : ℕ) (layers : List (ℕ × D)) → All (Fits bound) layers → used dev layers ≤ bound
  unfolding used
  used-Fits bound [] h = omega arith
  used-Fits bound ((base, device) ∷ layers) h =
      let rest = used-Fits bound layers h.1 in omega (arith, rest, h.0)

  Fits-used :
      (bound : ℕ) (layers : List (ℕ × D)) → used dev layers ≤ bound → All (Fits bound) layers
  unfolding used
  Fits-used bound [] h = tt
  Fits-used bound ((base, device) ∷ layers) h = (omega arith, Fits-used bound layers (omega arith))

  -- A resize is refused, and changes nothing, if some layer ends beyond the new bound. Otherwise the
  -- storage has the new bound and is cleared to 0.
  pub resize-Fits :
      (history : Bool) (bound : ℕ) (s : Layered D)
      → ((All (Fits bound) s.layers → ⊥)
          → resize dev history bound s ≡ (err (storage resize_too_small), s))
        × (All (Fits bound) s.layers
            → resize dev history bound s ≡ clear dev history 0 (record s { max_offset = bound }))
  unfolding resize
  resize-Fits history bound s = (
    λ over. elim (dec_le (used dev s.layers) bound) [
      | yes p ↦ absurd (over (Fits-used bound s.layers p))
      | no p ↦ let beyond : ltb bound (used dev s.layers) ≡ true = ground arith in rw beyond refl
    ],
    λ fits.
        let p = used-Fits bound s.layers fits in
        let within : ltb bound (used dev s.layers) ≡ false = ground arith in rw within refl,
  )
