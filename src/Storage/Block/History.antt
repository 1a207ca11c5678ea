-- ===== src/Storage/Block/History.antt =====
-- src/libisa/components/delta/vector.tpp over components/storage/block.tpp: what a history records, and what
-- playing it forward and backward does to the block that it came from.
use mathlib.Core.List.{append-nil, append_assoc}
use libsim.Prelude.{
  ℕ, suc, ◌≤◌, ◌<◌, ◌≡◌, ◌≢◌, refl, sym, ◌∙◌, true, some, List, [], ◌∷◌, ◌++◌, arith, get_elem?,
  set, length, length-set, get_elem?-set_self, get_elem?-set_ne, set_self, set-set, set_comm, subst,
}
use libsim.Prelude.Exec.{ok, Exec, ◌>>=◌, ◌>>◌, pure}
use libsim.Storage.Delta.{Vector, apply_forward, apply_backward}
use libsim.Storage.Block.{Block, set_cell, write, take_delta}
use libsim.Storage.Block.Laws.{
  IsValid, get-in_range, set_cell-in_range, write-in_range, write-IsValid,
}

-- Writes one after the other.
pub write_all {ℓ} : {V : Type ℓ} → List (ℕ × V) → Exec (Block V) (Unit {0})
write_all [] = pure tt
write_all ((o, v) ∷ ws) = do write true o v; write_all ws

-- What `LocalMachine::unwind_active_instruction` does with each of its three storages.
unfoldable pub undo {ℓ} : {V : Type ℓ} → Exec (Block V) (Unit {0})
undo = do deltas ← take_delta true; apply_backward set_cell deltas

-- The offsets are in range, or pairwise different.
abbrev pub InRange {ℓ} : {V : Type ℓ} → ℕ → List (ℕ × V) → Type 0
InRange top [] = Unit
InRange top ((o, v) ∷ ws) = (o ≤ top) × InRange top ws

abbrev pub NotAmong {ℓ} : {V : Type ℓ} → ℕ → Vector V → Type 0
NotAmong o [] = Unit
NotAmong o (c ∷ ds) = (o ≢ c.offset) × NotAmong o ds

abbrev pub Unwritten {ℓ} : {V : Type ℓ} → ℕ → List (ℕ × V) → Type 0
Unwritten o [] = Unit
Unwritten o ((p, v) ∷ ws) = (o ≢ p) × Unwritten o ws

abbrev pub Distinct {ℓ} : {V : Type ℓ} → List (ℕ × V) → Type 0
Distinct [] = Unit
Distinct ((o, v) ∷ ws) = Unwritten o ws × Distinct ws

-- The history `ds` leads from the cells `xs` to the cells `ys`.
pub data Leads {ℓ} {V : Type ℓ} : List V → Vector V → List V → Type ℓ where
  stay : {xs : List V} → Leads xs [] xs
  change :
      {xs : List V} (o : ℕ) (old v : V) {ds : Vector V} {ys : List V}
      → get_elem? xs o ≡ some old
      → o < length xs
      → Leads (set xs o v) ds ys
      → Leads xs (record { offset = o; old_value = old; new_value = v } ∷ ds) ys

module _ {ℓ} {V : Type ℓ} where
  -- A cell that the history leaves alone may hold anything.
  Leads-frame :
      {xs ys : List V} {ds : Vector V} (o : ℕ) (w : V)
      → Leads xs ds ys
      → NotAmong o ds
      → Leads (set xs o w) ds (set ys o w)
  Leads-frame o w stay h = stay
  Leads-frame {xs = xs} {ys = ys} o w (change p old v {ds = ds} e lt rest) h =
      change p old v (get_elem?-set_ne xs o p w h.0 ∙ e) (rw length-set lt)
        (rw (set_comm xs o p w v h.0) (Leads-frame o w rest h.1))

  pub Leads-length : {xs ys : List V} {ds : Vector V} → Leads xs ds ys → length ys ≡ length xs
  Leads-length stay = refl
  Leads-length {xs = xs} (change o old v e lt rest) = Leads-length rest ∙ length-set xs o v

  module _ (b : Block V) where
    abbrev pub with_cells : List V → Block V
    with_cells xs = record b { cells = xs }

    -- Forward, a history leads to the newer cells, whatever it wrote and how often.
    pub apply_forward-Leads :
        {xs ys : List V} {ds : Vector V}
        → length xs ≡ suc b.max_offset
        → Leads xs ds ys
        → apply_forward set_cell ds (with_cells xs) ≡ (ok tt, with_cells ys)
    unfolding apply_forward
    apply_forward-Leads full stay = refl
    apply_forward-Leads {xs} full (change o old v {ds = ds} e lt rest) =
        rw (set_cell-in_range (with_cells xs) o v (omega arith))
          (apply_forward-Leads (length-set xs o v ∙ full) rest)

-- No offset is changed twice.
abbrev pub Once {ℓ} : {V : Type ℓ} → Vector V → Type 0
Once [] = Unit
Once (c ∷ ds) = NotAmong c.offset ds × Once ds

module _ {ℓ} {V : Type ℓ} (b : Block V) where
  -- Backward the loop starts with the oldest change too, which is right if no offset is changed
  -- twice.
  pub apply_backward-Leads :
      (ds : Vector V) {xs ys : List V}
      → length ys ≡ suc b.max_offset
      → Leads xs ds ys
      → Once ds
      → apply_backward set_cell ds (with_cells b ys) ≡ (ok tt, with_cells b xs)
  unfolding apply_backward
  apply_backward-Leads [] full stay once = refl
  apply_backward-Leads (c ∷ ds) {xs} {ys} full (change o old v e lt rest) once =
      rw
        (set_cell-in_range (with_cells b ys) o old
          (omega (arith, Leads-length rest, length-set xs o v)))
        (apply_backward-Leads ds (length-set ys o old ∙ full) restored once.1)
    where
      restored : Leads xs ds (set ys o old)
      restored =
          subst (λ zs. Leads zs ds (set ys o old)) (set-set xs o v old ∙ set_self xs o old e)
            (Leads-frame o old rest once.0)

  -- What a run of writes did: the history that it made, and the cells that it led to.
  pub record Written (ws : List (ℕ × V)) : Type ℓ where
    pub cells : List V
    pub made : Vector V
    pub ran : write_all ws b ≡ (ok tt, record b { cells = cells; deltas = b.deltas ++ made })
    pub leads : Leads b.cells made cells
    pub avoids : (o : ℕ) → Unwritten o ws → NotAmong o made
    pub once : Distinct ws → Once made

module _ {ℓ} {V : Type ℓ} where
  pub write_all-Written :
      (ws : List (ℕ × V)) (b : Block V) → IsValid b → InRange b.max_offset ws → Written b ws
  unfolding write_all
  write_all-Written [] b h r = record {
    cells = b.cells;
    made = [];
    ran = rw append-nil;
    leads = stay;
    avoids = λ o u. tt;
    once = λ d. tt;
  }
  write_all-Written ((o, v) ∷ ws) b h r =
      let (old, _, e) = get-in_range b o h r.0 in
      let made_first = write-in_range b o v old r.0 e in
      let b' : Block V = record b {
        cells = set b.cells o v;
        deltas = b.deltas ++ record { offset = o; old_value = old; new_value = v } ∷ [];
      } in
      let valid : IsValid b' = subst (λ r. IsValid r.1) made_first (write-IsValid true b o v h) in
      let rest : Written b' ws = write_all-Written ws b' valid r.1 in
      record {
        cells = rest.cells;
        made = record { offset = o; old_value = old; new_value = v } ∷ rest.made;
        ran = rw made_first (rest.ran ∙ rw append_assoc);
        leads = change o old v e (omega (arith, h.full)) rest.leads;
        avoids = λ p u. (u.0, rest.avoids p u.1);
        once = λ d. (rest.avoids o d.0, rest.once d.1);
      }

  abbrev fresh : Block V → Block V
  fresh b = record b { deltas = [] }

  fresh_of_empty : (b : Block V) → b.deltas ≡ [] → fresh b ≡ b
  fresh_of_empty b e = λ i. record { max_offset = b.max_offset; cells = b.cells; deltas = sym e i }

  undo-write_all-fresh :
      (ws : List (ℕ × V)) (b : Block V)
      → IsValid b
      → InRange b.max_offset ws
      → Distinct ws
      → (write_all ws >> undo) (fresh b) ≡ (ok tt, fresh b)
  unfolding undo take_delta
  undo-write_all-fresh ws b h r d =
      let w = write_all-Written ws (fresh b) (record { full = h.full; in_range = tt }) r in
      rw (w.ran)
        (apply_backward-Leads (fresh b) w.made (Leads-length w.leads ∙ h.full) w.leads (w.once d))

  apply_forward-write_all-fresh :
      (ws : List (ℕ × V)) (b : Block V)
      → IsValid b
      → InRange b.max_offset ws
      → let after = (write_all ws (fresh b)).1 in
        apply_forward set_cell after.deltas (fresh b)
        ≡ (ok tt, record b { cells = after.cells; deltas = [] })
  apply_forward-write_all-fresh ws b h r =
      let w = write_all-Written ws (fresh b) (record { full = h.full; in_range = tt }) r in
      rw w.ran (apply_forward-Leads (fresh b) h.full w.leads)

  -- From a valid block with an empty history, undoing writes in range to pairwise different offsets
  -- gives the block back as it was.
  pub undo-write_all :
      (ws : List (ℕ × V)) (b : Block V)
      → IsValid b
      → b.deltas ≡ []
      → InRange b.max_offset ws
      → Distinct ws
      → (write_all ws >> undo) b ≡ (ok tt, b)
  undo-write_all ws b h e r d =
      subst (λ c. (write_all ws >> undo) c ≡ (ok tt, c)) (fresh_of_empty b e)
        (undo-write_all-fresh ws b h r d)

  -- From a valid block with an empty history, the history of any writes in range, played forward on
  -- the block as it was, leads to the cells that the writes left.
  apply_forward-write_all :
      (ws : List (ℕ × V)) (b : Block V)
      → IsValid b
      → b.deltas ≡ []
      → InRange b.max_offset ws
      → let after = (write_all ws b).1 in
        apply_forward set_cell after.deltas b ≡ (ok tt, record b { cells = after.cells })
  apply_forward-write_all ws b h e r =
      subst
        (λ c.
          let after = (write_all ws c).1 in
          apply_forward set_cell after.deltas c ≡ (ok tt, record c { cells = after.cells }))
        (fresh_of_empty b e) (apply_forward-write_all-fresh ws b h r)

  undo-write_twice-fresh :
      (b : Block V) (o : ℕ) (v w : V)
      → IsValid b
      → o ≤ b.max_offset
      → (write_all ((o, v) ∷ (o, w) ∷ []) >> undo) (fresh b)
        ≡ (ok tt, record b { cells = set b.cells o v; deltas = [] })
  unfolding write_all undo take_delta apply_backward
  undo-write_twice-fresh b o v w h p =
      let (old, _, e) = get-in_range b o h p in
      let lt : o < length b.cells = omega (arith, h.full) in
      let last = λ (xs : List V). set_cell-in_range (record b { cells = xs; deltas = [] }) o in
      rw (
        write-in_range (fresh b) o v old p e,
        write-in_range (record b { cells = set b.cells o v; deltas = _ }) o w v p
            (get_elem?-set_self b.cells o v lt),
        last (set (set b.cells o v) o w) old p,
        last (set (set (set b.cells o v) o w) o old) v p,
        set-set (set (set b.cells o v) o w) o old v,
        set-set (set b.cells o v) o w v,
        set-set b.cells o v v,
      )

  -- From a valid block with an empty history, undoing two writes to one offset in range leaves the
  -- value of the first write in its cell.
  pub undo-write_twice :
      (b : Block V) (o : ℕ) (v w : V)
      → IsValid b
      → b.deltas ≡ []
      → o ≤ b.max_offset
      → (write_all ((o, v) ∷ (o, w) ∷ []) >> undo) b ≡ (ok tt, record b { cells = set b.cells o v })
  undo-write_twice b o v w h e p =
      subst
        (λ c.
          (write_all ((o, v) ∷ (o, w) ∷ []) >> undo) c
          ≡ (ok tt, record c { cells = set c.cells o v }))
        (fresh_of_empty b e) (undo-write_twice-fresh b o v w h p)
