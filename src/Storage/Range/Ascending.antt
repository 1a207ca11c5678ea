-- ===== src/Storage/Range/Ascending.antt =====
-- src/libisa/components/storage/range.tpp: values that are set at neighbouring offsets from below.
use libsim.Prelude.{
  ℕ, suc, ◌+◌, ◌-◌, ◌≤◌, ◌<◌, ◌≡◌, refl, sym, ap, ◌∙◌, some, List, [], ◌∷◌, ◌++◌, arith, length,
  get_elem?, get_elem?-lt,
}
use mathlib.Core.List.{append_assoc, append-nil}
use libsim.Prelude.Exec.{ok, err, crash, Exec, ◌>>◌, pure, storage, oob_read}
use libsim.Storage.Range.{Range, new_range, set_span, get, find, value_at}

module _ {V : Type 0} where
  -- `set` at the offset, the next one, and so on.
  unfoldable pub set_run : ℕ → List V → Exec (Range V) (Unit {0})
  set_run offset [] = pure tt
  set_run offset (v ∷ vs) = do set_span offset v; set_run (suc offset) vs

  abbrev one_span : ℕ → V → ℕ → ℕ → List V → Range V
  one_span max_offset default lo hi vs = record {
    max_offset = max_offset;
    default = default;
    spans = record { lo = lo; hi = hi; values = vs } ∷ [];
    deltas = [];
  }

  set-first :
      (n : ℕ) (d v : V) (o : ℕ)
      → o ≤ n
      → set_span o v (new_range n d) ≡ (ok tt, one_span n d o o (v ∷ []))
  unfolding set_span new_range
  set-first n d v o h = ground arith

  set-next :
      (n : ℕ) (d v : V) (lo hi : ℕ) (vs : List V)
      → lo ≤ hi
      → suc hi ≤ n
      → set_span (suc hi) v (one_span n d lo hi vs)
        ≡ (ok tt, one_span n d lo (suc hi) (vs ++ v ∷ []))
  unfolding set_span
  set-next n d v lo hi vs le h = ground arith

  one_span-eq :
      (n : ℕ) (d : V) (lo : ℕ) {hi hi' : ℕ} {us us' : List V}
      → hi ≡ hi'
      → us ≡ us'
      → one_span n d lo hi us ≡ one_span n d lo hi' us'
  one_span-eq n d lo p q = rw (p, q) refl

  set_run-next :
      (n : ℕ) (d : V) (lo hi : ℕ) (us vs : List V)
      → lo ≤ hi
      → hi + length vs ≤ n
      → set_run (suc hi) vs (one_span n d lo hi us)
        ≡ (ok tt, one_span n d lo (hi + length vs) (us ++ vs))
  unfolding set_run
  set_run-next n d lo hi us [] le h =
      ap (λ r. (ok tt, r)) (one_span-eq n d lo (omega arith) (sym (append-nil us)))
  set_run-next n d lo hi us (v ∷ vs) le h =
      rw
        (
          set-next n d v lo hi us le (omega arith),
          set_run-next n d lo (suc hi) (us ++ v ∷ []) vs (omega arith) (omega arith),
        )
        (ap (λ r. (ok tt, r)) (one_span-eq n d lo (omega arith) (append_assoc us (v ∷ []) vs)))

  get-one_span :
      (n : ℕ) (d v : V) (lo hi i : ℕ) (vs : List V)
      → hi ≤ n
      → lo + i ≤ hi
      → get_elem? vs i ≡ some v
      → get (one_span n d lo hi vs) (lo + i) ≡ ok v
  unfolding get find value_at
  get-one_span n d v lo hi i vs le h e =
      let same : lo + i - lo ≡ i = omega arith in
      let found = ap (λ j. value_at (get_elem? vs j)) same ∙ ap value_at e in ground (arith, found)

  -- Values that are set in a new range one after the other, from an offset on and within its bound, are all
  -- read back. The offsets behind them have the default, an offset before them makes the read undefined, and one
  -- out of range gives an error.
  pub get-set_run :
      (n o : ℕ) (d v : V) (vs : List V)
      → o + length vs ≤ n
      → (r : Range V) × (set_run o (v ∷ vs) (new_range n d) ≡ (ok tt, r))
        × ((i : ℕ) (w : V) → get_elem? (v ∷ vs) i ≡ some w → get r (o + i) ≡ ok w)
        × ((p : ℕ) → o + length vs < p → p ≤ n → get r p ≡ ok d)
        × ((p : ℕ) → p < o → get r p ≡ crash)
        × ((p : ℕ) → n < p → get r p ≡ err (storage oob_read))
  unfolding set_run get find
  get-set_run n o d v vs h = (
    one_span n d o (o + length vs) (v ∷ vs),
    rw (set-first n d v o (omega arith)) (set_run-next n d o o (v ∷ []) vs (omega arith) h),
    λ i w e.
        get-one_span n d w o (o + length vs) i (v ∷ vs) h
          (omega (arith, get_elem?-lt (v ∷ vs) i w e)) e,
    λ p q le. ground arith,
    λ p q. ground arith,
    λ p q. ground arith,
  )
