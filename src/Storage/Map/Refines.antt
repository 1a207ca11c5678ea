-- ===== src/Storage/Map/Refines.antt =====
-- src/libisa/components/storage/map.tpp and block.tpp: a map as a block whose cells are spread out.
use libsim.Prelude.{
  ℕ, suc, ◌+◌, ◌≤◌, ◌<◌, ◌≡◌, refl, ap, ◌∙◌, Bool, true, false, List, [], ◌∷◌, ◌++◌, arith,
  length-replicate, get_elem?-replicate,
}
use native.Mathlib.Decide.{dec_le}
use libsim.Prelude.Exec.{ok, err, storage, oob_write}
use libsim.Prelude.Relates.{Relates, Relates-bind, Relates-pure, Relates-must}
use libsim.Storage.Delta.{Vector, apply_forward, apply_backward}
use libsim.Storage.Session.{Simulates, Call, session, session-Simulates}
use libsim.Storage.Block.{Block, block, block_device, resize_cells}
use libsim.Storage.Block
use libsim.Storage.Block.Laws.{
  length-resize_cells, set_cell-in_range, set_cell-out_of_range, write-in_range, write-out_of_range,
}
use libsim.Storage.Map.{
  Map, new_map, map_device, find, assign, set_entry, write, clear, resize, take_delta, clear_delta,
  read,
}
use libsim.Storage.Map.Spreads.{
  Spreads, Spreads-set, Spreads-fill, get-Spreads, set_entry-in_range, set_entry-out_of_range,
}

module _ {V : Type 0} where
  pub write-map_in_range :
      (m : Map V) (o : ℕ) (v : V)
      → o ≤ m.max_offset
      → write true o v m ≡ (
        ok tt,
        record m {
          entries = assign o v m.entries;
          deltas =
              m.deltas
              ++ record { offset = o; old_value = find m.default m.entries o; new_value = v } ∷ [];
        },
      )
  unfolding write
  write-map_in_range m o v p = ground arith

  write-map_out_of_range :
      (history : Bool) (m : Map V) (o : ℕ) (v : V)
      → m.max_offset < o
      → write history o v m ≡ (err (storage oob_write), m)
  unfolding write
  write-map_out_of_range true m o v p = ground arith
  write-map_out_of_range false m o v p = ground arith

  set-Relates : (o : ℕ) (v : V) → Relates Spreads (set_entry o v) (Block.set_cell o v)
  set-Relates o v = record {
    at = λ m b h. elim (dec_le o b.max_offset) [
      | yes p ↦
          rw (set_cell-in_range b o v p, set_entry-in_range m o v (omega (arith, h.bound)))
            (refl, Spreads-set m b o v m.deltas b.deltas h p h.history)
      | no p ↦
          rw
            (
              set_cell-out_of_range b o v (omega arith),
              set_entry-out_of_range m o v (omega (arith, h.bound)),
            )
            (refl, h)
    ];
  }

  write-Relates :
      (history : Bool) (o : ℕ) (v : V)
      → Relates Spreads (write history o v) (Block.write history o v)
  write-Relates false o v = unfold write Block.write in set-Relates o v
  write-Relates true o v = record {
    at = λ m b h. elim (dec_le o b.max_offset) [
      | yes p ↦
          rw
            (
              write-in_range b o v (find m.default m.entries o) p (h.holds o p),
              write-map_in_range m o v (omega (arith, h.bound)),
            )
            (refl, Spreads-set m b o v _ _ h p (rw h.history refl))
      | no p ↦
          rw
            (
              write-out_of_range true b o v (omega arith),
              write-map_out_of_range true m o v (omega (arith, h.bound)),
            )
            (refl, h)
    ];
  }

  clear-Relates :
      (history : Bool) (v : V) → Relates Spreads (clear history v) (Block.clear history v)
  unfolding clear Block.clear
  clear-Relates true v = record {
    at = λ m b h. (refl, rw h.bound (Spreads-fill b.max_offset v b.cells [] [] h.full refl));
  }
  clear-Relates false v = record {
    at = λ m b h.
        (refl, rw h.bound (Spreads-fill b.max_offset v b.cells m.deltas b.deltas h.full h.history));
  }

  clear_delta-Relates :
      (history : Bool) → Relates (Spreads {V = V}) (clear_delta history) (Block.clear_delta history)
  unfolding clear_delta Block.clear_delta
  clear_delta-Relates true = record {
    at =
        λ m b h. (refl, record { bound = h.bound; history = refl; full = h.full; holds = h.holds });
  }
  clear_delta-Relates false = record { at = λ m b h. (refl, h) }

  take_delta-Relates :
      (history : Bool) → Relates (Spreads {V = V}) (take_delta history) (Block.take_delta history)
  unfolding take_delta Block.take_delta
  take_delta-Relates true = record {
    at = λ m b h. (
      ap ok h.history,
      record { bound = h.bound; history = refl; full = h.full; holds = h.holds },
    );
  }
  take_delta-Relates false = record { at = λ m b h. (refl, h) }

  resize-Relates :
      (history : Bool) (v : V) (n : ℕ)
      → Relates Spreads (resize history v n) (Block.resize history v n)
  unfolding resize Block.resize clear Block.clear
  resize-Relates true v n = record {
    at = λ m b h. (
      refl,
      Spreads-fill n v (resize_cells (n + 1) v b.cells) [] []
          (length-resize_cells (n + 1) v b.cells ∙ omega arith) refl,
    );
  }
  resize-Relates false v n = record {
    at = λ m b h. (
      refl,
      Spreads-fill n v (resize_cells (n + 1) v b.cells) m.deltas b.deltas
          (length-resize_cells (n + 1) v b.cells ∙ omega arith) h.history,
    );
  }

  forward-Relates :
      (ds : Vector V)
      → Relates Spreads (apply_forward set_entry ds) (apply_forward Block.set_cell ds)
  unfolding apply_forward
  forward-Relates [] = Relates-pure tt
  forward-Relates (c ∷ ds) =
      Relates-bind _ _ _ _ (Relates-must _ _ (set-Relates c.offset c.new_value))
        λ u. forward-Relates ds

  backward-Relates :
      (ds : Vector V)
      → Relates Spreads (apply_backward set_entry ds) (apply_backward Block.set_cell ds)
  unfolding apply_backward
  backward-Relates [] = Relates-pure tt
  backward-Relates (c ∷ ds) =
      Relates-bind _ _ _ _ (Relates-must _ _ (set-Relates c.offset c.old_value))
        λ u. backward-Relates ds

map-Simulates : (history : Bool) → Simulates (map_device history) (block_device history) Spreads
map-Simulates history = record {
  get_agrees = get-Spreads;
  set_agrees = set-Relates;
  read_agrees = λ o. record { at = λ m b h. unfold read Block.read in (get-Spreads o m b h, h) };
  write_agrees = write-Relates history;
  clear_agrees = clear-Relates history;
  clear_delta_agrees = clear_delta-Relates history;
  take_delta_agrees = take_delta-Relates history;
  resize_agrees = resize-Relates history 0;
  forward_agrees = forward-Relates;
  backward_agrees = backward-Relates;
}

new-Spreads : (n v : ℕ) → Spreads (new_map n v) (block n v)
unfolding new_map block find
new-Spreads n v = record {
  bound = refl;
  history = refl;
  full = ap suc (length-replicate n v);
  holds = λ o h. get_elem?-replicate (suc n) v o (omega arith);
}

-- A new map and a new block of the same bound and default, both with or both without a history, give
-- the same results for any sequence of calls, failures included.
pub session-map_block :
    (history : Bool) (n v : ℕ) (calls : List (Call ℕ))
    → session (map_device history) calls (new_map n v)
      ≡ session (block_device history) calls (block n v)
session-map_block history n v calls =
    session-Simulates (map-Simulates history) calls (new_map n v) (block n v) (new-Spreads n v)
