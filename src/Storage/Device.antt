-- ===== src/Storage/Device.antt =====
-- src/libisa/components/storage/base.hpp: the interface of a storage device, and `load_bytes` over it.
-- `D` is the device's state, `H` the history that `take_delta` hands out, and `V` its values.
use libsim.Prelude.{ℕ, suc, ◌+◌, ◌%◌, Bool, List, [], ◌∷◌}
use libsim.Prelude.Exec.{Outcome, Exec, ◌>>◌, pure}

pub record Device (D H V : Type 0) : Type 0 where
  -- The template parameter `enable_history`, which is also what `deltas_enabled` returns.
  pub enable_history : Bool
  pub max_offset : D → ℕ
  pub get : D → ℕ → Outcome V
  pub set : ℕ → V → Exec D (Unit {0})
  -- A read is `const` in the source, but a memory-mapped device may change as it is read.
  pub read : ℕ → Exec D V
  pub write : ℕ → V → Exec D (Unit {0})
  pub clear : V → Exec D (Unit {0})
  pub clear_delta : Exec D (Unit {0})
  pub take_delta : Exec D H
  pub resize : ℕ → Exec D (Unit {0})
  -- A taken history is played on the device that it came from.
  pub apply_forward : H → Exec D (Unit {0})
  pub apply_backward : H → Exec D (Unit {0})

module _ {D H V : Type 0} (dev : Device D H V) where
  -- The loop from the given index on; `modulo` is the number of offsets, so that addresses wrap.
  unfoldable pub load_from : ℕ → ℕ → ℕ → List V → Exec D (Unit {0})
  load_from modulo offset index [] = pure tt
  load_from modulo offset index (byte ∷ bytes) = do
    dev.set ((offset + index) % modulo) byte
    load_from modulo offset (suc index) bytes

  unfoldable pub load_bytes : List V → ℕ → Exec D (Unit {0})
  unfolding load_from
  load_bytes bytes offset d = load_from (dev.max_offset d + 1) offset 0 bytes d
