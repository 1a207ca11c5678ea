-- ===== src/Storage/Range/Descending.antt =====
-- src/libisa/components/storage/range.tpp: a value that is set just below another.
use libsim.Prelude.{ℕ, suc, ◌≤◌, ◌≡◌, [], ◌∷◌, arith}
use libsim.Prelude.Exec.{ok, ◌>>◌}
use libsim.Storage.Range.{Range, new_range, set_span, get, find}

module _ {V : Type 0} where
  -- Of two values that are set in a new range at neighbouring offsets within its bound, the upper one first,
  -- only the lower is kept: the merge erases the upper span. Its offset reads as the default.
  pub get-set_below :
      (n o : ℕ) (d v w : V)
      → suc o ≤ n
      → (r : Range V) × ((set_span (suc o) v >> set_span o w) (new_range n d) ≡ (ok tt, r))
        × (get r o ≡ ok w)
        × (get r (suc o) ≡ ok d)
  unfolding set_span new_range get find
  get-set_below n o d v w h = (
    record {
      max_offset = n;
      default = d;
      spans = record { lo = o; hi = o; values = w ∷ [] } ∷ [];
      deltas = [];
    },
    ground arith,
    ground arith,
    ground arith,
  )
