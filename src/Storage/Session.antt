-- ===== src/Storage/Session.antt =====
-- src/libisa/components/storage/base.hpp: what a client that holds a pointer to a `Base` can do with it and
-- see of it. Two devices that agree on the calls agree on any sequence of them.
use libsim.Prelude.{ℕ, ◌≡◌, refl, ap, List, [], ◌∷◌, Option, none, some}
use libsim.Prelude.Exec.{Outcome, Exec, ◌>>=◌, ◌>>◌, pure}
use libsim.Prelude.Relates.{Relates, Relates-bind, Relates-pure}
use libsim.Storage.Device.{Device}

-- A call of `Base`. `undo` and `redo` take the history and play it.
pub data Call (V : Type 0) : Type 0 where
  get_at read_at resize_to : ℕ → Call V
  set_at write_at : ℕ → V → Call V
  clear_to : V → Call V
  forget undo redo : Call V

module _ {D H V : Type 0} (dev : Device D H V) where
  unfoldable pub call : Call V → Exec D (Option V)
  call (get_at o) = do v ← (λ d. (dev.get d o, d)); pure (some v)
  call (read_at o) = do v ← dev.read o; pure (some v)
  call (resize_to n) = do dev.resize n; pure none
  call (set_at o v) = do dev.set o v; pure none
  call (write_at o v) = do dev.write o v; pure none
  call (clear_to v) = do dev.clear v; pure none
  call forget = do dev.clear_delta; pure none
  call undo = do h ← dev.take_delta; dev.apply_backward h; pure none
  call redo = do h ← dev.take_delta; dev.apply_forward h; pure none

  -- The results of the calls, failures included.
  unfoldable pub session : List (Call V) → D → List (Outcome (Option V))
  unfolding call
  session [] d = []
  session (c ∷ cs) d = let (r, d') = call c d in r ∷ session cs d'

-- The calls of two devices that share their histories agree on related states.
pub record Simulates {D E H V : Type 0} (dev : Device D H V) (dev' : Device E H V)
    (R : D → E → Type 0) : Type 0 where
  pub get_agrees : (o : ℕ) (d : D) (e : E) → R d e → dev.get d o ≡ dev'.get e o
  pub set_agrees : (o : ℕ) (v : V) → Relates R (dev.set o v) (dev'.set o v)
  pub read_agrees : (o : ℕ) → Relates R (dev.read o) (dev'.read o)
  pub write_agrees : (o : ℕ) (v : V) → Relates R (dev.write o v) (dev'.write o v)
  pub clear_agrees : (v : V) → Relates R (dev.clear v) (dev'.clear v)
  pub clear_delta_agrees : Relates R dev.clear_delta dev'.clear_delta
  pub take_delta_agrees : Relates R dev.take_delta dev'.take_delta
  pub resize_agrees : (n : ℕ) → Relates R (dev.resize n) (dev'.resize n)
  pub forward_agrees : (h : H) → Relates R (dev.apply_forward h) (dev'.apply_forward h)
  pub backward_agrees : (h : H) → Relates R (dev.apply_backward h) (dev'.apply_backward h)

module _ {D E H V : Type 0} {dev : Device D H V} {dev' : Device E H V} {R : D → E → Type 0}
    (sim : Simulates dev dev' R) where
  abbrev silent : {S : Type 0} → Exec S (Unit {0}) → Exec S (Option V)
  silent m = do m; pure none

  then_none :
      (m : Exec D (Unit {0})) (n : Exec E (Unit {0}))
      → Relates R m n
      → Relates R (silent m) (silent n)
  then_none m n k = Relates-bind m n _ _ k λ a. Relates-pure none

  call-Relates : (c : Call V) → Relates R (call dev c) (call dev' c)
  unfolding call
  call-Relates (get_at o) =
      Relates-bind (λ d. (dev.get d o, d)) (λ e. (dev'.get e o, e)) _ _
        (record { at = λ d e h. (sim.get_agrees o d e h, h) }) λ v. Relates-pure (some v)
  call-Relates (read_at o) =
      Relates-bind (dev.read o) (dev'.read o) _ _ (sim.read_agrees o) λ v. Relates-pure (some v)
  call-Relates (resize_to n) = then_none _ _ (sim.resize_agrees n)
  call-Relates (set_at o v) = then_none _ _ (sim.set_agrees o v)
  call-Relates (write_at o v) = then_none _ _ (sim.write_agrees o v)
  call-Relates (clear_to v) = then_none _ _ (sim.clear_agrees v)
  call-Relates forget = then_none _ _ sim.clear_delta_agrees
  call-Relates undo =
      Relates-bind dev.take_delta dev'.take_delta _ _ sim.take_delta_agrees
        λ h. then_none _ _ (sim.backward_agrees h)
  call-Relates redo =
      Relates-bind dev.take_delta dev'.take_delta _ _ sim.take_delta_agrees
        λ h. then_none _ _ (sim.forward_agrees h)

  pub session-Simulates :
      (cs : List (Call V)) (d : D) (e : E) → R d e → session dev cs d ≡ session dev' cs e
  unfolding session
  session-Simulates [] d e h = refl
  session-Simulates (c ∷ cs) d e h =
      let (same, r) = (call-Relates c).at d e h in
      ap (λ x. x) (rw (same, session-Simulates cs _ _ r))
