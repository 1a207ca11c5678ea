-- ===== src/Storage/Layered.antt =====
-- src/libisa/components/storage/layered.tpp and components/delta/grouped.tpp: devices at offsets of one space,
-- the first of which wins where they overlap.
pub mod Dispatch
pub mod Group
use libsim.Prelude.{
  ℕ, ◌+◌, ◌-◌, ◌*◌, ◌^◌, Bool, true, false, ◌&&◌, List, [], ◌∷◌, ◌++◌, ltb, leb, if◌then◌else◌, max,
}
use libsim.Prelude.Exec.{
  Outcome, ok, err, crash, Exec, ◌>>=◌, ◌>>◌, pure, raise, abort, lift, modify, must, zoom,
  on_failure, Errc, storage, oob_read, oob_write, delta_disabled, illegal_insert, resize_too_small,
}
use libsim.Storage.Device.{Device}

-- `ReadMiss` and `WriteMiss`.
pub data ReadMiss : Type 0 where
  default_value oob : ReadMiss

pub data WriteMiss : Type 0 where
  ignore oob : WriteMiss

-- `_max_offset`, `_storage`, `_default_value`, `_read_policy` and `_write_policy`. The devices are
-- distinct, and nothing else holds them.
pub record Layered {ℓ} (D : Type ℓ) : Type ℓ where
  pub max_offset : ℕ
  pub layers : List (ℕ × D)
  pub default : ℕ
  pub read_policy : ReadMiss
  pub write_policy : WriteMiss

unfoldable pub layered {ℓ} : {D : Type ℓ} → ℕ → ℕ → ReadMiss → WriteMiss → Layered D
layered max_offset value read_policy write_policy = record {
  max_offset = max_offset;
  layers = [];
  default = value;
  read_policy = read_policy;
  write_policy = write_policy;
}

is_delta_disabled : Errc → Bool
is_delta_disabled (storage delta_disabled) = true
is_delta_disabled _ = false

-- The switches behind the loops.
unfoldable pub read_miss : ReadMiss → ℕ → Outcome ℕ
read_miss oob default = err (storage oob_read)
read_miss default_value default = ok default

unfoldable pub write_miss : WriteMiss → Outcome (Unit {0})
write_miss oob = err (storage oob_write)
write_miss ignore = ok tt

module _ {D H : Type 0} (dev : Device D H ℕ) where
  -- The `if` in the loops: the layer has a value for the offset.
  unfoldable pub covers : ℕ → ℕ × D → Bool
  covers offset (base, device) = leb base offset && leb (offset - base) (dev.max_offset device)

  -- The loop that looks for the first such layer, for a method that changes nothing and for one that
  -- does. Behind the loop comes the policy, which is the argument `miss`.
  unfoldable pub first_const {κ} :
      {A : Type κ} → (D → ℕ → Outcome A) → ℕ → Outcome A → List (ℕ × D) → Outcome A
  unfolding covers
  first_const method offset miss [] = miss
  first_const method offset miss ((base, device) ∷ layers) =
      if covers offset (base, device)
      then method device (offset - base)
      else first_const method offset miss layers

  unfoldable pub first {κ} : {A : Type κ} → (ℕ → Exec D A) → ℕ → Outcome A → Exec (List (ℕ × D)) A
  unfolding covers
  first method offset miss [] = (miss, [])
  first method offset miss ((base, device) ∷ layers) =
      if covers offset (base, device)
      then (let (r, device') = method (offset - base) device in (r, (base, device') ∷ layers))
      else (let (r, layers') = first method offset miss layers in (r, (base, device) ∷ layers'))

  -- A loop over all layers, each of which calls a method without a result.
  unfoldable pub each : Exec D (Unit {0}) → Exec (List (ℕ × D)) (Unit {0})
  each method [] = (ok tt, [])
  each method ((base, device) ∷ layers) =
      let (r, device') = method device in
      let (q, layers') = each method layers in
      elim r [
        | ok u ↦ (q, (base, device') ∷ layers')
        | err e ↦ (err e, (base, device') ∷ layers)
        | crash ↦ (crash, (base, device') ∷ layers)
      ]

  unfoldable pub in_layers {κ} : {A : Type κ} → Exec (List (ℕ × D)) A → Exec (Layered D) A
  in_layers = zoom (λ s. s.layers) (λ layers s. record s { layers = layers })

  -- `address_bits` is `8*sizeof(offset_t)`, for the types of one or two bytes, whose sums are of
  -- type `int` and do not wrap.
  unfoldable pub append_storage : (address_bits : ℕ) → ℕ → D → Exec (Layered D) (Unit {0})
  append_storage address_bits offset device s =
      if ltb (2 * 2 ^ address_bits) (offset + dev.max_offset device)
      then (err (storage illegal_insert), s)
      else (ok tt, record s { layers = s.layers ++ (offset, device) ∷ [] })

  unfoldable pub get : Layered D → ℕ → Outcome ℕ
  unfolding first_const read_miss
  get s offset =
      if ltb s.max_offset offset
      then err (storage oob_read)
      else first_const dev.get offset (read_miss s.read_policy s.default) s.layers

  -- `Layered::set`.
  unfoldable pub set_layer : ℕ → ℕ → Exec (Layered D) (Unit {0})
  unfolding first write_miss in_layers
  set_layer offset v s =
      if ltb s.max_offset offset
      then (err (storage oob_write), s)
      else in_layers (first (λ o. dev.set o v) offset (write_miss s.write_policy)) s

  unfoldable pub read : ℕ → Exec (Layered D) ℕ
  unfolding first read_miss in_layers
  read offset s =
      if ltb s.max_offset offset
      then (err (storage oob_read), s)
      else in_layers (first dev.read offset (read_miss s.read_policy s.default)) s

  unfoldable pub write : ℕ → ℕ → Exec (Layered D) (Unit {0})
  unfolding first write_miss in_layers
  write offset v s =
      if ltb s.max_offset offset
      then (err (storage oob_write), s)
      else in_layers (first (λ o. dev.write o v) offset (write_miss s.write_policy)) s

  unfoldable pub clear_delta : Bool → Exec (Layered D) (Unit {0})
  unfolding each in_layers
  clear_delta true = in_layers (each (must dev.clear_delta))
  clear_delta false = raise (storage delta_disabled)

  unfoldable pub clear_history : Bool → Exec (Layered D) (Unit {0})
  unfolding clear_delta is_delta_disabled
  clear_history true =
      on_failure (clear_delta true) (λ e. if is_delta_disabled e then pure tt else abort)
        λ _. pure tt
  clear_history false = pure tt

  -- `clear` returns nothing, so that a layer cannot fail to be cleared.
  unfoldable pub clear : Bool → ℕ → Exec (Layered D) (Unit {0})
  unfolding each in_layers clear_history
  clear history fill_val = do in_layers (each (dev.clear fill_val)); clear_history history

  -- The group of the layers' histories, in the order of the layers.
  unfoldable pub take_each : Exec (List (ℕ × D)) (List H)
  take_each [] = (ok [], [])
  take_each ((base, device) ∷ layers) =
      let (r, device') = must dev.take_delta device in
      let (q, layers') = take_each layers in
      elim r [
        | ok h ↦ (
          elim q [ ok hs ↦ ok (h ∷ hs) | err e ↦ err e | crash ↦ crash ],
          (base, device') ∷ layers',
        )
        | err e ↦ (err e, (base, device') ∷ layers)
        | crash ↦ (crash, (base, device') ∷ layers)
      ]

  unfoldable pub take_delta : Bool → Exec (Layered D) (List H)
  unfolding take_each in_layers
  take_delta true = in_layers take_each
  take_delta false = raise (storage delta_disabled)

  -- The end of the highest layer.
  unfoldable pub used : List (ℕ × D) → ℕ
  used [] = 0
  used ((base, device) ∷ layers) = max (base + dev.max_offset device) (used layers)

  unfoldable pub resize : Bool → ℕ → Exec (Layered D) (Unit {0})
  unfolding used clear
  resize history new_offset s =
      if ltb new_offset (used s.layers)
      then (err (storage resize_too_small), s)
      else (do modify (λ s. record s { max_offset = new_offset }); clear history 0) s

  -- `Grouped::apply_*`: each history is played on the device that it was taken from, which is the
  -- layer of the same place.
  unfoldable pub play : (H → Exec D (Unit {0})) → List H → Exec (List (ℕ × D)) (Unit {0})
  play apply [] layers = (ok tt, layers)
  play apply (h ∷ hs) [] = (ok tt, [])
  play apply (h ∷ hs) ((base, device) ∷ layers) =
      let (r, device') = apply h device in
      let (q, layers') = play apply hs layers in
      elim r [
        | ok u ↦ (q, (base, device') ∷ layers')
        | err e ↦ (err e, (base, device') ∷ layers)
        | crash ↦ (crash, (base, device') ∷ layers)
      ]

  unfoldable pub apply_forward : List H → Exec (Layered D) (Unit {0})
  unfolding play in_layers
  apply_forward deltas = in_layers (play dev.apply_forward deltas)

  unfoldable pub apply_backward : List H → Exec (Layered D) (Unit {0})
  unfolding play in_layers
  apply_backward deltas = in_layers (play dev.apply_backward deltas)

-- Layered storage as a device.
abbrev pub layered_device : {D H : Type 0} → Bool → Device D H ℕ → Device (Layered D) (List H) ℕ
layered_device history dev = record {
  enable_history = history;
  max_offset = λ s. s.max_offset;
  get = get dev;
  set = set_layer dev;
  read = read dev;
  write = write dev;
  clear = clear dev history;
  clear_delta = clear_delta dev history;
  take_delta = take_delta dev history;
  resize = resize dev history;
  apply_forward = apply_forward dev;
  apply_backward = apply_backward dev;
}
