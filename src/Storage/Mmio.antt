-- ===== src/Storage/Mmio.antt =====
-- src/libisa/components/storage/mmio.tpp and components/delta/delta_mmio.tpp: memory-mapped input and output, at
-- offset 0, each with a channel and an endpoint on it.
pub mod Input
pub mod Output
use libsim.Prelude.{ℕ, zero, suc, ◌+◌, ◌%◌, Bool, true, false, some}
use libsim.Prelude.Exec.{Exec, ◌>>◌, pure, Errc, storage, delta_disabled}
use libsim.Storage.Channel.{Channel, Endpoint, Attached, new_channel}

-- The bound of both devices, and a test for the error that their `clear` lets pass.
abbrev pub max_offset : ℕ
max_offset = 0

abbrev pub is_delta_disabled : Errc → Bool
is_delta_disabled (storage delta_disabled) = true
is_delta_disabled _ = false

-- The counters of the histories are of the type of the values, which are bytes.
unfoldable pub count_one : ℕ → ℕ
count_one n = (n + 1) % 256

-- A channel with the first endpoint on it, which has the id 1.
unfoldable pub new_port {ℓ} : {V : Type ℓ} → V → Attached V
unfolding new_channel
new_port default_value = record {
  channel = record (new_channel default_value) { next_id = 2 };
  endpoint = record { event = some 0; id = 1 };
}

-- `n` calls, whose results are dropped.
unfoldable pub times {ℓ κ} : {S : Type ℓ} {A : Type κ} → ℕ → Exec S A → Exec S (Unit {0})
times zero m = pure tt
times (suc n) m = do m; times n m
