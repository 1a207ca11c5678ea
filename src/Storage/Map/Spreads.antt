-- ===== src/Storage/Map/Spreads.antt =====
-- src/libisa/components/storage/map.tpp and block.tpp: a block that holds what a map holds.
use libsim.Prelude.{
  ℕ, zero, suc, ◌≤◌, ◌<◌, ◌≡◌, inl, inr, refl, ◌∙◌, some, List, [], ◌∷◌, ◌==◌, if◌then◌else◌, arith,
  get_elem?, set, map, length, length-set, Bool-cases, ==_iff, get_elem?-set_self, get_elem?-set_ne,
}
use native.Mathlib.Decide.{dec_le}
use libsim.Prelude.Exec.{ok, err, storage, oob_write}
use libsim.Storage.Delta.{Vector}
use libsim.Storage.Block.{Block, block, block_device, resize_cells}
use libsim.Storage.Block
use libsim.Storage.Block.Laws.{length-map_const}
use libsim.Storage.Map.{Map, find, assign, get, set_entry}

pub find-assign {ℓ} :
    {V : Type ℓ} (default v : V) (entries : List (ℕ × V)) (o p : ℕ)
    → find default (assign o v entries) p ≡ (if o == p then v else find default entries p)
unfolding find assign
find-assign default v [] o p = refl
find-assign default v ((key, w) ∷ entries) o p = ground (arith, find-assign default v entries o p)

-- A block holds in each cell what the map has for its offset.
pub record Spreads {V : Type 0} (m : Map V) (b : Block V) : Type 0 where
  pub bound : m.max_offset ≡ b.max_offset
  pub history : m.deltas ≡ b.deltas
  pub full : length b.cells ≡ suc b.max_offset
  pub holds : (o : ℕ) → o ≤ b.max_offset → get_elem? b.cells o ≡ some (find m.default m.entries o)

get_elem?-map_const {ℓ} :
    {V : Type ℓ} (v : V) (xs : List V) (i : ℕ)
    → i < length xs
    → get_elem? (map (λ _. v) xs) i ≡ some v
get_elem?-map_const v [] i h = absurd (omega arith)
get_elem?-map_const v (x ∷ xs) zero h = refl
get_elem?-map_const v (x ∷ xs) (suc i) h = get_elem?-map_const v xs i (omega arith)

module _ {V : Type 0} where
  -- Both take a value at an offset in range, and a change in their histories.
  pub Spreads-set :
      (m : Map V) (b : Block V) (o : ℕ) (v : V) (ds es : Vector V)
      → Spreads m b
      → o ≤ b.max_offset
      → ds ≡ es
      → Spreads
          (record m { entries = assign o v m.entries; deltas = ds })
          (record b { cells = set b.cells o v; deltas = es })
  Spreads-set m b o v ds es h q e = record {
    bound = h.bound;
    history = e;
    full = length-set b.cells o v ∙ h.full;
    holds = λ p r. elim (Bool-cases (o == p)) [
      | inl same ↦
          rw (find-assign m.default v m.entries o p, same, ← (==_iff o p).0 same)
            (get_elem?-set_self b.cells o v (omega (arith, h.full)))
      | inr other ↦
          rw (find-assign m.default v m.entries o p, other)
            (get_elem?-set_ne b.cells o p v (ground arith) ∙ h.holds p r)
    ];
  }

  -- Both are filled with one value.
  pub Spreads-fill :
      (n : ℕ) (v : V) (xs : List V) (ds es : Vector V)
      → length xs ≡ suc n
      → ds ≡ es
      → Spreads
          (record { max_offset = n; default = v; entries = []; deltas = ds })
          (record { max_offset = n; cells = map (λ _. v) xs; deltas = es })
  unfolding find
  Spreads-fill n v xs ds es full e = record {
    bound = refl;
    history = e;
    full = length-map_const v xs ∙ full;
    holds = λ o h. get_elem?-map_const v xs o (omega arith);
  }

  pub get-Spreads : (o : ℕ) (m : Map V) (b : Block V) → Spreads m b → get m o ≡ Block.get b o
  unfolding get Block.get Block.at
  get-Spreads o m b h = elim (dec_le o b.max_offset) [
    | yes p ↦ ground (arith, h.bound, h.holds o p)
    | no p ↦ ground (arith, h.bound)
  ]

  pub set_entry-in_range :
      (m : Map V) (o : ℕ) (v : V)
      → o ≤ m.max_offset
      → set_entry o v m ≡ (ok tt, record m { entries = assign o v m.entries })
  unfolding set_entry
  set_entry-in_range m o v p = ground arith

  pub set_entry-out_of_range :
      (m : Map V) (o : ℕ) (v : V)
      → m.max_offset < o
      → set_entry o v m ≡ (err (storage oob_write), m)
  unfolding set_entry
  set_entry-out_of_range m o v p = ground arith
