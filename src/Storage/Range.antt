-- ===== src/Storage/Range.antt =====
-- src/libisa/components/storage/range.tpp: a device that keeps runs of neighbouring offsets with their values, and
-- has a default for the others. Offsets have at most 16 bits, so that a difference of two is an `int`.
pub mod Ascending
pub mod Descending
use libsim.Prelude.{
  ℕ, suc, ◌+◌, ◌-◌, Bool, true, false, ◌&&◌, ◌||◌, Option, none, some, List, [], ◌∷◌, ◌++◌, ltb,
  leb, ◌==◌, if◌then◌else◌, get_elem?, set,
}
use libsim.Prelude.Exec.{
  Outcome, ok, err, crash, Exec, ◌>>=◌, ◌>>◌, pure, abort, modify, on_failure, Errc, storage,
  oob_read, oob_write, delta_disabled, value,
}
use libsim.Storage.Device.{Device}
use libsim.Storage.Delta.{Vector, add_delta, apply_forward, apply_backward}

-- `storage_span`: the first and the last offset, and the values between.
pub record Span {ℓ} (V : Type ℓ) : Type ℓ where
  pub lo : ℕ
  pub hi : ℕ
  pub values : List V

-- `_max_offset`, `_default`, `_storage` and `_delta`.
pub record Range {ℓ} (V : Type ℓ) : Type ℓ where
  pub max_offset : ℕ
  pub default : V
  pub spans : List (Span V)
  pub deltas : Vector V

-- What the loop of `set` leaves: the spans, `inserted` and `check_merge`.
record Modified {ℓ} (V : Type ℓ) : Type ℓ where
  pub spans : List (Span V)
  pub inserted : Bool
  pub check_merge : Bool

unfoldable pub new_range {ℓ} : {V : Type ℓ} → ℕ → V → Range V
new_range max_offset default_value = record {
  max_offset = max_offset;
  default = default_value;
  spans = [];
  deltas = [];
}

unfoldable pub is_delta_disabled : Errc → Bool
is_delta_disabled (storage delta_disabled) = true
is_delta_disabled _ = false

module _ {ℓ} {V : Type ℓ} where
  -- `span.value[i]`, which is undefined out of range.
  unfoldable pub value_at : Option V → Outcome V
  value_at none = crash
  value_at (some v) = ok v

  -- The loop of `get`. The distance of an offset below the span is negative, and passes the test.
  unfoldable pub find : V → List (Span V) → ℕ → Outcome V
  unfolding value_at
  find default [] offset = ok default
  find default (s ∷ spans) offset =
      let rest = find default spans offset in
      if ltb offset s.lo
      then crash
      else if leb (offset - s.lo) (s.hi - s.lo)
      then value_at (get_elem? s.values (offset - s.lo))
      else rest

  unfoldable pub get : Range V → ℕ → Outcome V
  unfolding find
  get r offset =
      if ltb r.max_offset offset then err (storage oob_read) else find r.default r.spans offset

  -- The loop of `set`: a span that has the offset is changed, and one that ends before it is extended.
  unfoldable modify_spans : ℕ → V → List (Span V) → Modified V
  modify_spans offset v [] = record { spans = []; inserted = false; check_merge = false }
  modify_spans offset v (s ∷ spans) =
      let rest = modify_spans offset v spans in
      if leb s.lo offset && leb (offset - s.lo) (s.hi - s.lo)
      then record rest {
        spans = record s { values = set s.values (offset - s.lo) v } ∷ rest.spans;
        inserted = true;
      }
      else if offset == s.hi + 1
      then record {
        spans = record s { hi = offset; values = s.values ++ v ∷ [] } ∷ rest.spans;
        inserted = true;
        check_merge = true;
      }
      else record rest { spans = s ∷ rest.spans }

  -- `std::sort` by the first offset, and by the pair of offsets.
  unfoldable insert_span : (Span V → Span V → Bool) → Span V → List (Span V) → List (Span V)
  insert_span less s [] = s ∷ []
  insert_span less s (t ∷ spans) =
      let rest = t ∷ insert_span less s spans in if less t s then rest else s ∷ t ∷ spans

  unfoldable sort : (Span V → Span V → Bool) → List (Span V) → List (Span V)
  unfolding insert_span
  sort less [] = []
  sort less (s ∷ spans) = insert_span less s (sort less spans)

  unfoldable pub lower : Span V → Span V → Bool
  lower s t = ltb s.lo t.lo

  unfoldable compare_spans : Span V → Span V → Bool
  compare_spans s t = ltb s.lo t.lo || ((s.lo == t.lo) && ltb s.hi t.hi)

  -- The loop that merges. `cur` and `next` are copies: the first, which takes in the second, is not
  -- written back, and the second is erased. The loop goes on behind both.
  unfoldable pub merge : List (Span V) → List (Span V)
  merge [] = []
  merge (cur ∷ []) = cur ∷ []
  merge (cur ∷ next ∷ spans) =
      let kept = merge (next ∷ spans) in
      let erased = merge spans in if cur.hi + 1 == next.lo then cur ∷ erased else cur ∷ kept

  -- What `set` does behind the first loop.
  unfoldable insert_new : ℕ → V → Modified V → Modified V
  unfolding sort lower
  insert_new offset v m = if m.inserted then m else record {
    spans = sort lower (m.spans ++ record { lo = offset; hi = offset; values = v ∷ [] } ∷ []);
    inserted = true;
    check_merge = true;
  }

  unfoldable merged : Modified V → List (Span V)
  unfolding sort compare_spans merge
  merged m = if m.check_merge then merge (sort compare_spans m.spans) else m.spans

  unfoldable pub set_span : ℕ → V → Exec (Range V) (Unit {0})
  unfolding modify_spans insert_new merged
  set_span offset v r = if ltb r.max_offset offset then (err (storage oob_write), r) else (
    ok tt,
    record r { spans = merged (insert_new offset v (modify_spans offset v r.spans)) },
  )

  unfoldable pub read : ℕ → Exec (Range V) V
  unfolding get
  read offset r = (get r offset, r)

  unfoldable pub record_change : ℕ → V → Exec (Range V) (Unit {0})
  unfolding get add_delta
  record_change offset v = do
    old ← (λ r. (value (get r offset), r))
    modify (λ r. record r { deltas = add_delta offset old v r.deltas })

  unfoldable pub write : Bool → ℕ → V → Exec (Range V) (Unit {0})
  unfolding set_span record_change
  write true offset v r =
      if ltb r.max_offset offset
      then (err (storage oob_write), r)
      else (record_change offset v >> set_span offset v) r
  write false offset v r = set_span offset v r

  unfoldable pub clear_delta : Bool → Exec (Range V) (Unit {0})
  clear_delta true r = (ok tt, record r { deltas = [] })
  clear_delta false r = (err (storage delta_disabled), r)

  unfoldable pub clear_history : Bool → Exec (Range V) (Unit {0})
  unfolding clear_delta is_delta_disabled
  clear_history true =
      on_failure (clear_delta true) (λ e. if is_delta_disabled e then pure tt else abort)
        λ _. pure tt
  clear_history false = pure tt

  unfoldable pub clear : Bool → V → Exec (Range V) (Unit {0})
  unfolding clear_history
  clear history fill_val = do
    modify (λ r. record r { spans = []; default = fill_val })
    clear_history history

  unfoldable pub take_delta : Bool → Exec (Range V) (Vector V)
  take_delta true r = (ok r.deltas, record r { deltas = [] })
  take_delta false r = (err (storage delta_disabled), r)

  unfoldable pub resize : Bool → V → ℕ → Exec (Range V) (Unit {0})
  unfolding clear
  resize history fill_val new_offset = do
    modify (λ r. record r { max_offset = new_offset })
    clear history fill_val

abbrev range_device : Bool → Device (Range ℕ) (Vector ℕ) ℕ
range_device history = record {
  enable_history = history;
  max_offset = λ r. r.max_offset;
  get = get;
  set = set_span;
  read = read;
  write = write history;
  clear = clear history;
  clear_delta = clear_delta history;
  take_delta = take_delta history;
  resize = resize history 0;
  apply_forward = apply_forward set_span;
  apply_backward = apply_backward set_span;
}
