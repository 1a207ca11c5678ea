-- ===== src/Storage/Map.antt =====
-- src/libisa/components/storage/map.tpp: a device that keeps the values that were written, and has a
-- default for the others.
pub mod Spreads
pub mod Refines
use libsim.Prelude.{ℕ, Bool, true, false, List, [], ◌∷◌, ltb, ◌==◌, if◌then◌else◌}
use libsim.Prelude.Exec.{
  Outcome, ok, err, Exec, ◌>>=◌, ◌>>◌, pure, abort, modify, on_failure, Errc, storage, oob_read,
  oob_write, delta_disabled, value,
}
use libsim.Storage.Device.{Device}
use libsim.Storage.Delta.{Vector, add_delta, apply_forward, apply_backward}

-- `_max_offset`, `_default`, `_storage` and `_delta`.
pub record Map {ℓ} (V : Type ℓ) : Type ℓ where
  pub max_offset : ℕ
  pub default : V
  pub entries : List (ℕ × V)
  pub deltas : Vector V

-- `_storage.find(offset)`, with the default where there is no such key.
unfoldable pub find {ℓ} : {V : Type ℓ} → V → List (ℕ × V) → ℕ → V
find default [] offset = default
find default ((key, v) ∷ entries) offset = if key == offset then v else find default entries offset

-- `_storage[offset] = value`.
unfoldable pub assign {ℓ} : {V : Type ℓ} → ℕ → V → List (ℕ × V) → List (ℕ × V)
assign offset new [] = (offset, new) ∷ []
assign offset new ((key, v) ∷ entries) =
    if key == offset then (key, new) ∷ entries else (key, v) ∷ assign offset new entries

is_delta_disabled : Errc → Bool
is_delta_disabled (storage delta_disabled) = true
is_delta_disabled _ = false

-- The constructors.
unfoldable pub new_map {ℓ} : {V : Type ℓ} → ℕ → V → Map V
new_map max_offset default_value = record {
  max_offset = max_offset;
  default = default_value;
  entries = [];
  deltas = [];
}

module _ {ℓ} {V : Type ℓ} where
  unfoldable pub get : Map V → ℕ → Outcome V
  unfolding find
  get m offset =
      if ltb m.max_offset offset
      then err (storage oob_read)
      else ok (find m.default m.entries offset)

  -- `Map::set`.
  unfoldable pub set_entry : ℕ → V → Exec (Map V) (Unit {0})
  unfolding assign
  set_entry offset v m =
      if ltb m.max_offset offset
      then (err (storage oob_write), m)
      else (ok tt, record m { entries = assign offset v m.entries })

  unfoldable pub read : ℕ → Exec (Map V) V
  unfolding get
  read offset m = (get m offset, m)

  unfoldable pub record_change : ℕ → V → Exec (Map V) (Unit {0})
  unfolding get add_delta
  record_change offset v = do
    old ← (λ m. (value (get m offset), m))
    modify (λ m. record m { deltas = add_delta offset old v m.deltas })

  unfoldable pub write : Bool → ℕ → V → Exec (Map V) (Unit {0})
  unfolding set_entry record_change
  write true offset v m =
      if ltb m.max_offset offset
      then (err (storage oob_write), m)
      else (record_change offset v >> set_entry offset v) m
  write false offset v m = set_entry offset v m

  unfoldable pub clear_delta : Bool → Exec (Map V) (Unit {0})
  clear_delta true m = (ok tt, record m { deltas = [] })
  clear_delta false m = (err (storage delta_disabled), m)

  unfoldable pub clear_history : Bool → Exec (Map V) (Unit {0})
  unfolding clear_delta is_delta_disabled
  clear_history true =
      on_failure (clear_delta true) (λ e. if is_delta_disabled e then pure tt else abort)
        λ _. pure tt
  clear_history false = pure tt

  unfoldable pub clear : Bool → V → Exec (Map V) (Unit {0})
  unfolding clear_history
  clear history fill_val = do
    modify (λ m. record m { default = fill_val; entries = [] })
    clear_history history

  unfoldable pub take_delta : Bool → Exec (Map V) (Vector V)
  take_delta true m = (ok m.deltas, record m { deltas = [] })
  take_delta false m = (err (storage delta_disabled), m)

  -- `fill_val` is the value 0 with which `clear` is called.
  unfoldable pub resize : Bool → V → ℕ → Exec (Map V) (Unit {0})
  unfolding clear
  resize history fill_val new_offset = do
    modify (λ m. record m { max_offset = new_offset })
    clear history fill_val

-- A map as a device, with or without a history.
abbrev pub map_device : Bool → Device (Map ℕ) (Vector ℕ) ℕ
map_device history = record {
  enable_history = history;
  max_offset = λ m. m.max_offset;
  get = get;
  set = set_entry;
  read = read;
  write = write history;
  clear = clear history;
  clear_delta = clear_delta history;
  take_delta = take_delta history;
  resize = resize history 0;
  apply_forward = apply_forward set_entry;
  apply_backward = apply_backward set_entry;
}
