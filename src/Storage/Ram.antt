-- ===== src/Storage/Ram.antt =====
-- src/libisa/components/storage/base.hpp: what the processor relies on where its memory is plain storage: a write
-- stores one byte, and a read gives the byte that was stored last and changes nothing.
use libsim.Prelude.{ℕ, ◌≤◌, ◌≡◌, ◌==◌, if◌then◌else◌}
use libsim.Prelude.Exec.{ok}
use libsim.Storage.Device.{Device}

pub record Ram {M H : Type 0} (dev : Device M H ℕ) : Type 1 where
  pub IsGood : M → Type 0
  pub read_in_range :
      (p : ℕ) (d : M) → IsGood d → p ≤ dev.max_offset d → (v : ℕ) × (dev.read p d ≡ (ok v, d))
  pub write_in_range :
      (a v : ℕ) (d : M)
      → IsGood d
      → a ≤ dev.max_offset d
      → (d' : M) × (dev.write a v d ≡ (ok tt, d'))
        × IsGood d'
        × (dev.max_offset d' ≡ dev.max_offset d)
        × ((p : ℕ) → (dev.read p d').0 ≡ (if a == p then ok v else (dev.read p d).0))
