-- ===== src/Storage/ReadOnly.antt =====
-- src/libisa/components/storage/read_only.tpp: storage that is read like the device behind it, and that a
-- program cannot write.
pub mod Protects
use libsim.Prelude.{ℕ, Bool, true, false, ltb, if◌then◌else◌}
use libsim.Prelude.Exec.{
  Outcome, ok, err, crash, Exec, ◌>>=◌, ◌>>◌, pure, raise, modify, zoom, Errc, storage,
  illegal_write,
}
use libsim.Storage.Device.{Device}

-- `WriteAttemptPolicy`.
pub data WriteAttemptPolicy : Type 0 where
  ignore fail : WriteAttemptPolicy

-- `_max_offset`, `_storage` and `_policy`. Nothing else holds the device behind.
pub record ReadOnly {ℓ} (D : Type ℓ) : Type ℓ where
  pub max_offset : ℕ
  pub device : D
  pub policy : WriteAttemptPolicy

-- The switch of `write`.
unfoldable pub attempt : WriteAttemptPolicy → Outcome (Unit {0})
attempt ignore = ok tt
attempt fail = err (storage illegal_write)

module _ {D H : Type 0} (dev : Device D H ℕ) where
  -- The constructor.
  unfoldable pub read_only : D → WriteAttemptPolicy → ReadOnly D
  read_only device policy = record {
    max_offset = dev.max_offset device;
    device = device;
    policy = policy;
  }

  -- A method of the device behind.
  unfoldable pub behind {κ} : {A : Type κ} → Exec D A → Exec (ReadOnly D) A
  behind = zoom (λ s. s.device) (λ d s. record s { device = d })

  -- The device behind is always filled with 0, the default of its parameter.
  unfoldable pub clear : ℕ → Exec (ReadOnly D) (Unit {0})
  unfolding behind
  clear fill_val = behind (dev.clear 0)

  unfoldable pub get : ReadOnly D → ℕ → Outcome ℕ
  get s offset = dev.get s.device offset

  -- `ReadOnly::set`, with which a program is loaded.
  unfoldable pub set_behind : ℕ → ℕ → Exec (ReadOnly D) (Unit {0})
  unfolding behind
  set_behind offset v = behind (dev.set offset v)

  unfoldable pub read : ℕ → Exec (ReadOnly D) ℕ
  unfolding behind
  read offset = behind (dev.read offset)

  unfoldable pub write : ℕ → ℕ → Exec (ReadOnly D) (Unit {0})
  unfolding attempt
  write offset v s = (attempt s.policy, s)

  unfoldable pub deltas_enabled : Bool
  deltas_enabled = dev.enable_history

  unfoldable pub clear_delta : Exec (ReadOnly D) (Unit {0})
  unfolding behind
  clear_delta = behind dev.clear_delta

  unfoldable pub take_delta : Exec (ReadOnly D) H
  unfolding behind
  take_delta = behind dev.take_delta

  -- The own bound follows the bound behind, unless that was refused.
  unfoldable pub resize : ℕ → Exec (ReadOnly D) (Unit {0})
  unfolding behind
  resize new_offset = do
    behind (dev.resize new_offset)
    modify (λ s. record s { max_offset = new_offset })

-- Read-only storage as a device. Its history is that of the device behind.
abbrev pub read_only_device : {D H : Type 0} → Device D H ℕ → Device (ReadOnly D) H ℕ
unfolding behind deltas_enabled
read_only_device dev = record {
  enable_history = deltas_enabled dev;
  max_offset = λ s. s.max_offset;
  get = get dev;
  set = set_behind dev;
  read = read dev;
  write = write dev;
  clear = clear dev;
  clear_delta = clear_delta dev;
  take_delta = take_delta dev;
  resize = resize dev;
  apply_forward = λ h. behind dev (dev.apply_forward h);
  apply_backward = λ h. behind dev (dev.apply_backward h);
}
