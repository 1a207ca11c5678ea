-- ===== src/Storage/ReadOnly/Protects.antt =====
-- src/libisa/components/storage/read_only.tpp: what a running program can do to read-only storage.
use libsim.Prelude.{ℕ, ◌≤◌, ◌≡◌, refl, ap, List, [], ◌∷◌, Option, none, some, map}
use libsim.Prelude.Exec.{Outcome, ok, err, crash}
use libsim.Storage.Device.{Device}
use libsim.Storage.Ram.{Ram}
use libsim.Storage.Session.{Call, read_at, write_at, call, session}
use libsim.Storage.ReadOnly.{
  WriteAttemptPolicy, ignore, fail, read_only, read_only_device, read, write, attempt, behind,
}

-- The accesses of a running program, and the calls that they are.
pub data Access : Type 0 where
  reads : ℕ → Access
  writes : ℕ → ℕ → Access

abbrev pub to_call : Access → Call ℕ
to_call (reads o) = read_at o
to_call (writes o v) = write_at o v

abbrev pub InRange : ℕ → List Access → Type 0
InRange top [] = Unit
InRange top (reads o ∷ accesses) = (o ≤ top) × InRange top accesses
InRange top (writes o v ∷ accesses) = InRange top accesses

abbrev pub and_value {ℓ κ} :
    {A : Type ℓ} {B : Type κ} → Outcome A → (A → Option B) → Outcome (Option B)
and_value (ok a) f = ok (f a)
and_value (err e) f = err e
and_value crash f = crash

-- What each access gives if the values never change.
abbrev pub frozen : WriteAttemptPolicy → (ℕ → Outcome ℕ) → Access → Outcome (Option ℕ)
frozen policy values (reads o) = and_value (values o) some
frozen policy values (writes o v) = and_value (attempt policy) (λ u. none)

module _ {D H : Type 0} (dev : Device D H ℕ) (ram : Ram dev) where
  call-to_call :
      (a : Access) (policy : WriteAttemptPolicy) (d : D)
      → ram.IsGood d
      → InRange (dev.max_offset d) (a ∷ [])
      → call (read_only_device dev) (to_call a) (read_only dev d policy)
        ≡ (frozen policy (λ p. (dev.read p d).0) a, read_only dev d policy)
  unfolding call read_only read behind write attempt read_only_device
  call-to_call (reads o) policy d good h = let (v, e) = ram.read_in_range o d good h.0 in rw e refl
  call-to_call (writes o v) ignore d good h = refl
  call-to_call (writes o v) fail d good h = refl

  -- Over plain storage, each read in range of a running program gives what the storage held at
  -- first, whatever the program tries to write, and each write gives what the policy says.
  pub session-read_only :
      (accesses : List Access) (policy : WriteAttemptPolicy) (d : D)
      → ram.IsGood d
      → InRange (dev.max_offset d) accesses
      → session (read_only_device dev) (map to_call accesses) (read_only dev d policy)
        ≡ map (frozen policy (λ p. (dev.read p d).0)) accesses
  unfolding session
  session-read_only [] policy d good h = refl
  session-read_only (reads o ∷ rest) policy d good h =
      rw (call-to_call (reads o) policy d good (h.0, tt)) (
        ap (λ t. frozen policy (λ p. (dev.read p d).0) (reads o) ∷ t)
          (session-read_only rest policy d good h.1))
  session-read_only (writes o v ∷ rest) policy d good h =
      rw (call-to_call (writes o v) policy d good tt) (
        ap (λ t. frozen policy (λ p. (dev.read p d).0) (writes o v) ∷ t)
          (session-read_only rest policy d good h))
