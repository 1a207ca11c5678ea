-- ===== src/Storage/Mmio/Input.antt =====
-- `Input` of src/libisa/components/storage/mmio.tpp and of components/delta/delta_mmio.tpp: a device that is read
-- like a queue.
pub mod Queue
pub mod Tape
pub mod Undo
use libsim.Prelude.{
  ℕ, zero, suc, Bool, true, false, Option, none, some, List, [], ◌∷◌, ltb, if◌then◌else◌,
}
use libsim.Prelude.Exec.{
  Outcome, ok, err, Exec, ◌>>=◌, ◌>>◌, pure, raise, abort, modify, zoom, when, on_failure, Errc,
  storage, oob_read, unwritable, no_mm_input, resize_error, delta_disabled,
}
use libsim.Storage.Channel.{
  Channel, Endpoint, Attached, new_endpoint, current_value, next_value, unread, append_value, clone,
}
use libsim.Storage.Channel
use libsim.Storage.Mmio.{max_offset, is_delta_disabled, new_port, times, count_one}

-- `_storage` and `_endpoint`, `_last_read_value`, which has no value at first, and the `_read_count` of
-- the history.
pub record Input {ℓ} (V : Type ℓ) : Type ℓ where
  pub port : Attached V
  pub last_read_value : Option V
  pub read_count : ℕ

unfoldable pub new_input {ℓ} : {V : Type ℓ} → V → Input V
unfolding new_port
new_input default_value = record {
  port = new_port default_value;
  last_read_value = none;
  read_count = 0;
}

module _ {ℓ} {V : Type ℓ} where
  abbrev at_port {κ} : {A : Type κ} → Exec (Attached V) A → Exec (Input V) A
  at_port = zoom (λ s. s.port) (λ port s. record s { port = port })

  -- A call of another endpoint on the device's channel.
  abbrev with_endpoint {κ} : {A : Type κ} → Endpoint → Exec (Attached V) A → Exec (Input V) A
  with_endpoint e =
      zoom (λ s. record s.port { endpoint = e })
        λ other s. record s { port = record s.port { channel = other.channel } }

  unfoldable pub endpoint : Exec (Input V) Endpoint
  unfolding new_endpoint
  endpoint =
      zoom (λ s. s.port.channel) (λ ch s. record s { port = record s.port { channel = ch } })
        new_endpoint

  unfoldable pub get : ℕ → Exec (Input V) V
  unfolding current_value
  get offset = if ltb max_offset offset then raise (storage oob_read) else (do
    v ← at_port current_value
    modify (λ s. record s { last_read_value = some v })
    pure v)

  -- `Input::set` and `Input::write`.
  unfoldable pub refuse : ℕ → V → Exec (Input V) (Unit {0})
  refuse offset v = raise (storage unwritable)

  unfoldable pub add_delta : Exec (Input V) (Unit {0})
  unfolding count_one
  add_delta = modify (λ s. record s { read_count = count_one s.read_count })

  unfoldable pub take_value : Option V → Exec (Input V) V
  take_value none = raise (storage no_mm_input)
  take_value (some v) = do modify (λ s. record s { last_read_value = some v }); pure v

  unfoldable pub read : Bool → ℕ → Exec (Input V) V
  unfolding add_delta next_value take_value
  read history offset =
      if ltb max_offset offset
      then raise (storage oob_read)
      else (do when history add_delta; next ← at_port next_value; take_value next)

  unfoldable pub clear_delta : Bool → Exec (Input V) (Unit {0})
  clear_delta true = modify (λ s. record s { read_count = 0 })
  clear_delta false = raise (storage delta_disabled)

  unfoldable pub clear_history : Bool → Exec (Input V) (Unit {0})
  unfolding clear_delta
  clear_history true =
      on_failure (clear_delta true) (λ e. if is_delta_disabled e then pure tt else abort)
        λ _. pure tt
  clear_history false = pure tt

  -- The endpoint stays where it is.
  unfoldable pub clear : Bool → V → Exec (Input V) (Unit {0})
  unfolding Channel.clear clear_history
  clear history fill_val = do
    modify (λ s. record s { last_read_value = some fill_val })
    zoom (λ s. s.port.channel) (λ ch s. record s { port = record s.port { channel = ch } })
        (Channel.clear fill_val)
    clear_history history

  unfoldable pub resize : ℕ → Exec (Input V) (Unit {0})
  resize new_offset = raise (storage resize_error)

  unfoldable pub append_all : List V → Exec (Attached V) (Unit {0})
  unfolding append_value
  append_all [] = pure tt
  append_all (v ∷ values) = do append_value v; append_all values

  unfoldable pub buffer_input : List V → Exec (Input V) (Unit {0})
  buffer_input values = do
    e ← endpoint
    with_endpoint e (do e' ← clone; modify (λ a. record a { endpoint = e' }); append_all values)

  -- The history is its count.
  unfoldable pub take_delta : Bool → Exec (Input V) ℕ
  take_delta true s = (ok s.read_count, record s { read_count = 0 })
  take_delta false s = (err (storage delta_disabled), s)

  unfoldable pub apply_forward : ℕ → Exec (Input V) (Unit {0})
  unfolding times next_value
  apply_forward read_count = at_port (times read_count next_value)

  unfoldable pub apply_backward : ℕ → Exec (Input V) (Unit {0})
  unfolding times unread
  apply_backward read_count = at_port (times read_count unread)
