-- ===== src/Storage/Mmio/Output.antt =====
-- `Output` of src/libisa/components/storage/mmio.tpp and of components/delta/delta_mmio.tpp: a device that keeps
-- what was written to it.
pub mod Log
pub mod Follows
pub mod Undo
use libsim.Prelude.{
  ℕ, zero, suc, Bool, true, false, Option, none, some, List, [], ◌∷◌, ltb, if◌then◌else◌,
}
use libsim.Prelude.Exec.{
  Outcome, ok, err, Exec, ◌>>=◌, ◌>>◌, pure, raise, abort, gets, modify, zoom, when, on_failure,
  Errc, storage, oob_read, oob_write, resize_error, delta_disabled,
}
use libsim.Storage.Channel.{
  Channel, Endpoint, Attached, new_endpoint, current_value, next_value, unwrite, append_value,
}
use libsim.Storage.Channel
use libsim.Storage.Mmio.{max_offset, is_delta_disabled, new_port, times, count_one}

-- `_storage` and `_endpoint`, `_last_write_value`, and the `_write_count` of the history.
pub record Output {ℓ} (V : Type ℓ) : Type ℓ where
  pub port : Attached V
  pub last_write_value : Option V
  pub write_count : ℕ

unfoldable pub new_output {ℓ} : {V : Type ℓ} → V → Output V
unfolding new_port
new_output default_value = record {
  port = new_port default_value;
  last_write_value = none;
  write_count = 0;
}

module _ {ℓ} {V : Type ℓ} where
  abbrev at_port {κ} : {A : Type κ} → Exec (Attached V) A → Exec (Output V) A
  at_port = zoom (λ s. s.port) (λ port s. record s { port = port })

  abbrev remember : V → Exec (Output V) (Unit {0})
  remember v = modify (λ s. record s { last_write_value = some v })

  unfoldable pub endpoint : Exec (Output V) Endpoint
  unfolding new_endpoint
  endpoint =
      zoom (λ s. s.port.channel) (λ ch s. record s { port = record s.port { channel = ch } })
        new_endpoint

  -- The value that was written last, which is taken from the endpoint if there is none.
  unfoldable pub latest : Option V → Exec (Output V) V
  unfolding current_value
  latest (some v) = pure v
  latest none = do v ← at_port current_value; remember v; pure v

  -- `Output::get` and `Output::read`.
  unfoldable pub get : ℕ → Exec (Output V) V
  unfolding latest
  get offset =
      if ltb max_offset offset
      then raise (storage oob_read)
      else (do cached ← gets (λ s. s.last_write_value); latest cached)

  -- `Output::set`.
  unfoldable pub set_value : ℕ → V → Exec (Output V) (Unit {0})
  set_value offset v = if ltb max_offset offset then raise (storage oob_write) else remember v

  unfoldable pub add_delta : Exec (Output V) (Unit {0})
  unfolding count_one
  add_delta = modify (λ s. record s { write_count = count_one s.write_count })

  unfoldable pub write : Bool → ℕ → V → Exec (Output V) (Unit {0})
  unfolding add_delta append_value
  write history offset v =
      if ltb max_offset offset
      then raise (storage oob_write)
      else (do when history add_delta; at_port (append_value v); remember v)

  unfoldable pub clear_delta : Bool → Exec (Output V) (Unit {0})
  clear_delta true = modify (λ s. record s { write_count = 0 })
  clear_delta false = raise (storage delta_disabled)

  unfoldable pub clear_history : Bool → Exec (Output V) (Unit {0})
  unfolding clear_delta
  clear_history true =
      on_failure (clear_delta true) (λ e. if is_delta_disabled e then pure tt else abort)
        λ _. pure tt
  clear_history false = pure tt

  unfoldable pub clear : Bool → V → Exec (Output V) (Unit {0})
  unfolding Channel.clear clear_history
  clear history fill_val = do
    remember fill_val
    zoom (λ s. s.port.channel) (λ ch s. record s { port = record s.port { channel = ch } })
        (Channel.clear fill_val)
    clear_history history

  unfoldable pub resize : ℕ → Exec (Output V) (Unit {0})
  resize new_offset = raise (storage resize_error)

  -- The history is its count.
  unfoldable pub take_delta : Bool → Exec (Output V) ℕ
  take_delta true s = (ok s.write_count, record s { write_count = 0 })
  take_delta false s = (err (storage delta_disabled), s)

  unfoldable pub apply_forward : ℕ → Exec (Output V) (Unit {0})
  unfolding times next_value
  apply_forward write_count = at_port (times write_count next_value)

  unfoldable pub apply_backward : ℕ → Exec (Output V) (Unit {0})
  unfolding times unwrite
  apply_backward write_count = at_port (times write_count unwrite)
