-- ===== src/Storage/Block.antt =====
-- src/libisa/components/storage/block.tpp: a device that keeps its values in an array.
pub mod Laws
pub mod History
pub mod AsRam
use libsim.Prelude.{
  ℕ, zero, suc, ◌+◌, Bool, true, false, Option, none, some, List, [], ◌∷◌, ltb, if◌then◌else◌,
  get_elem?, set, replicate, map, length,
}
use libsim.Prelude.Exec.{
  Outcome, ok, err, crash, Exec, ◌>>=◌, ◌>>◌, pure, raise, abort, lift, gets, modify, on_failure,
  Errc, storage, oob_read, oob_write, delta_disabled, value,
}
use libsim.Storage.Device.{Device}
use libsim.Storage.Delta.{Vector, add_delta, apply_forward, apply_backward}

-- `_max_offset`, `_storage` and `_delta`. Without history the source has no `_delta`.
pub record Block {ℓ} (V : Type ℓ) : Type ℓ where
  pub max_offset : ℕ
  pub cells : List V
  pub deltas : Vector V

-- `std::vector::at`, which throws beyond the end.
unfoldable pub at {ℓ} : {V : Type ℓ} → Option V → Outcome V
at none = crash
at (some v) = ok v

-- `std::vector::resize`: what is new takes the default of its type.
unfoldable pub resize_cells {ℓ} : {V : Type ℓ} → ℕ → V → List V → List V
resize_cells zero default cells = []
resize_cells (suc n) default [] = replicate (suc n) default
resize_cells (suc n) default (v ∷ cells) = v ∷ resize_cells n default cells

is_delta_disabled : Errc → Bool
is_delta_disabled (storage delta_disabled) = true
is_delta_disabled _ = false

-- The constructors.
unfoldable pub block {ℓ} : {V : Type ℓ} → ℕ → V → Block V
block max_offset default_value = record {
  max_offset = max_offset;
  cells = replicate (suc max_offset) default_value;
  deltas = [];
}

module _ {ℓ} {V : Type ℓ} where
  unfoldable pub get : Block V → ℕ → Outcome V
  unfolding at
  get b offset =
      if ltb b.max_offset offset then err (storage oob_read) else at (get_elem? b.cells offset)

  -- `Block::set`. A store beyond the array, which a valid block does not meet, changes nothing.
  unfoldable pub set_cell : ℕ → V → Exec (Block V) (Unit {0})
  set_cell offset v b =
      if ltb b.max_offset offset
      then (err (storage oob_write), b)
      else (ok tt, record b { cells = set b.cells offset v })

  unfoldable pub read : ℕ → Exec (Block V) V
  unfolding get
  read offset b = (get b offset, b)

  unfoldable pub record_change : ℕ → V → Exec (Block V) (Unit {0})
  unfolding get add_delta
  record_change offset v = do
    old ← (λ b. (value (get b offset), b))
    modify (λ b. record b { deltas = add_delta offset old v b.deltas })

  unfoldable pub write : Bool → ℕ → V → Exec (Block V) (Unit {0})
  unfolding set_cell record_change
  write true offset v b =
      if ltb b.max_offset offset
      then (err (storage oob_write), b)
      else (record_change offset v >> set_cell offset v) b
  write false offset v b = set_cell offset v b

  unfoldable pub clear_delta : Bool → Exec (Block V) (Unit {0})
  clear_delta true b = (ok tt, record b { deltas = [] })
  clear_delta false b = (err (storage delta_disabled), b)

  -- A failure to clear the history ends the program, except where there is no history.
  unfoldable pub clear_history : Bool → Exec (Block V) (Unit {0})
  unfolding clear_delta is_delta_disabled
  clear_history true =
      on_failure (clear_delta true) (λ e. if is_delta_disabled e then pure tt else abort)
        λ _. pure tt
  clear_history false = pure tt

  unfoldable pub clear : Bool → V → Exec (Block V) (Unit {0})
  unfolding clear_history
  clear history fill_val = do
    modify (λ b. record b { cells = map (λ _. fill_val) b.cells })
    clear_history history

  unfoldable pub take_delta : Bool → Exec (Block V) (Vector V)
  take_delta true b = (ok b.deltas, record b { deltas = [] })
  take_delta false b = (err (storage delta_disabled), b)

  -- `default` is the value 0 with which `clear` is called.
  unfoldable pub resize : Bool → V → ℕ → Exec (Block V) (Unit {0})
  unfolding resize_cells clear
  resize history default new_offset = do
    modify λ b. record b {
      max_offset = new_offset;
      cells = resize_cells (new_offset + 1) default b.cells;
    }
    clear history default

-- A block as a device, with or without a history.
abbrev pub block_device : Bool → Device (Block ℕ) (Vector ℕ) ℕ
block_device history = record {
  enable_history = history;
  max_offset = λ b. b.max_offset;
  get = get;
  set = set_cell;
  read = read;
  write = write history;
  clear = clear history;
  clear_delta = clear_delta history;
  take_delta = take_delta history;
  resize = resize history 0;
  apply_forward = apply_forward set_cell;
  apply_backward = apply_backward set_cell;
}
