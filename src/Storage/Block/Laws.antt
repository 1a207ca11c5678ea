-- ===== src/Storage/Block/Laws.antt =====
-- src/libisa/components/storage/block.tpp: validity of blocks, and the block as a map from offsets.
use libsim.Prelude.{
  ℕ, zero, suc, ◌+◌, ◌≤◌, ◌<◌, ◌≡◌, inl, inr, refl, ap, ◌∙◌, Bool, true, false, some, List, [], ◌∷◌,
  ◌++◌, ltb, ◌==◌, if◌then◌else◌, arith, get_elem?, set, map, length, All, length-set,
  length-replicate, Bool-cases, lt→ltb, ==_iff, get_elem?-set_self, get_elem?-set_ne,
  get_elem?-eq_some,
}
use native.Mathlib.Decide.{dec_le}
use libsim.Prelude.Exec.{ok, err, storage, oob_read, oob_write}
use libsim.Storage.Block.{
  Block, block, get, set_cell, write, clear, take_delta, resize, resize_cells,
}

-- The array has a cell for each offset, and the history names none beyond the end.
pub record IsValid {ℓ} {V : Type ℓ} (b : Block V) : Type ℓ where
  pub full : length b.cells ≡ suc b.max_offset
  pub in_range : All (λ c. c.offset ≤ b.max_offset) b.deltas

pub All-append {ℓ κ} :
    {A : Type ℓ} (P : A → Type κ) (xs ys : List A) → All P xs → All P ys → All P (xs ++ ys)
All-append P [] ys h k = k
All-append P (x ∷ xs) ys h k = (h.0, All-append P xs ys h.1 k)

pub length-map_const {ℓ} : {V : Type ℓ} (v : V) (xs : List V) → length (map (λ _. v) xs) ≡ length xs
length-map_const v [] = refl
length-map_const v (x ∷ xs) = ap suc (length-map_const v xs)

pub length-resize_cells {ℓ} :
    {V : Type ℓ} (n : ℕ) (d : V) (xs : List V) → length (resize_cells n d xs) ≡ n
unfolding resize_cells
length-resize_cells zero d xs = refl
length-resize_cells (suc n) d [] = ap suc (length-replicate n d)
length-resize_cells (suc n) d (x ∷ xs) = ap suc (length-resize_cells n d xs)

module _ {ℓ} {V : Type ℓ} where
  pub block-IsValid : (n : ℕ) (v : V) → IsValid (block n v)
  unfolding block
  block-IsValid n v = record { full = ap suc (length-replicate n v); in_range = tt }

  -- In range a valid block has a value, and nothing throws.
  pub get-in_range :
      (b : Block V) (o : ℕ)
      → IsValid b
      → o ≤ b.max_offset
      → (v : V) × (get b o ≡ ok v) × (get_elem? b.cells o ≡ some v)
  unfolding get
  get-in_range b o h p =
      let (v, e) = get_elem?-eq_some b.cells o (omega (arith, h.full)) in (v, ground arith, e)

  pub get-out_of_range : (b : Block V) (o : ℕ) → b.max_offset < o → get b o ≡ err (storage oob_read)
  unfolding get
  get-out_of_range b o p = ground arith

  pub set_cell-in_range :
      (b : Block V) (o : ℕ) (v : V)
      → o ≤ b.max_offset
      → set_cell o v b ≡ (ok tt, record b { cells = set b.cells o v })
  unfolding set_cell
  set_cell-in_range b o v p = ground arith

  pub set_cell-out_of_range :
      (b : Block V) (o : ℕ) (v : V)
      → b.max_offset < o
      → set_cell o v b ≡ (err (storage oob_write), b)
  unfolding set_cell
  set_cell-out_of_range b o v p = ground arith

  pub set_cell-IsValid : (b : Block V) (o : ℕ) (v : V) → IsValid b → IsValid (set_cell o v b).1
  unfolding set_cell
  set_cell-IsValid b o v h = elim (Bool-cases (ltb b.max_offset o)) [
    | inl e ↦ rw e h
    | inr e ↦ rw e (record { full = length-set b.cells o v ∙ h.full; in_range = h.in_range })
  ]

  -- A write in range stores the value, and notes the old and the new one.
  pub write-in_range :
      (b : Block V) (o : ℕ) (v old : V)
      → o ≤ b.max_offset
      → get_elem? b.cells o ≡ some old
      → write true o v b ≡ (
        ok tt,
        record b {
          cells = set b.cells o v;
          deltas = b.deltas ++ record { offset = o; old_value = old; new_value = v } ∷ [];
        },
      )
  unfolding write
  write-in_range b o v old p e = ground arith

  pub write-out_of_range :
      (history : Bool) (b : Block V) (o : ℕ) (v : V)
      → b.max_offset < o
      → write history o v b ≡ (err (storage oob_write), b)
  unfolding write
  write-out_of_range true b o v p = ground arith
  write-out_of_range false b o v p = ground arith

  -- A write keeps a valid block valid: in range or not, with a history or without.
  pub write-IsValid :
      (history : Bool) (b : Block V) (o : ℕ) (v : V) → IsValid b → IsValid (write history o v b).1
  write-IsValid false b o v h = unfold write in set_cell-IsValid b o v h
  write-IsValid true b o v h = elim (dec_le o b.max_offset) [
    | yes p ↦
        let (old, _, e) = get-in_range b o h p in
        rw (write-in_range b o v old p e) (record {
          full = length-set b.cells o v ∙ h.full;
          in_range = All-append (λ c. c.offset ≤ b.max_offset) b.deltas _ h.in_range (p, tt);
        })
    | no p ↦ rw (write-out_of_range true b o v (omega arith)) h
  ]

  pub clear-IsValid :
      (history : Bool) (v : V) (b : Block V) → IsValid b → IsValid (clear history v b).1
  unfolding clear
  clear-IsValid true v b h = record { full = length-map_const v b.cells ∙ h.full; in_range = tt }
  clear-IsValid false v b h = record {
    full = length-map_const v b.cells ∙ h.full;
    in_range = h.in_range;
  }

  pub take_delta-IsValid :
      (history : Bool) (b : Block V) → IsValid b → IsValid (take_delta history b).1
  unfolding take_delta
  take_delta-IsValid true b h = record { full = h.full; in_range = tt }
  take_delta-IsValid false b h = h

  -- A block with a history, valid or not, is valid and of the size asked for once it is resized.
  resize-IsValid :
      (d : V) (n : ℕ) (b : Block V)
      → IsValid (resize true d n b).1 × ((resize true d n b).1.max_offset ≡ n)
  unfolding resize
  resize-IsValid d n b = (
    record {
      full =
          length-map_const d (resize_cells (n + 1) d b.cells)
          ∙ length-resize_cells (n + 1) d b.cells
          ∙ omega arith;
      in_range = tt;
    },
    refl,
  )

  -- A valid block as a map: after a write in range, its offset holds the value and every other offset
  -- what it held; a write beyond the end changes nothing that can be read.
  pub get-write :
      (history : Bool) (b : Block V) (o p : ℕ) (v : V)
      → IsValid b
      → get (write history o v b).1 p
        ≡ (if ltb b.max_offset o then get b p else if o == p then ok v else get b p)
  get-write history b o p v h = elim (dec_le o b.max_offset) [
    | yes q ↦ written history q
    | no q ↦
        rw (write-out_of_range history b o v (omega arith), lt→ltb b.max_offset o (omega arith))
  ]
    where
      cells :
          o ≤ b.max_offset
          → get_elem? (set b.cells o v) p ≡ (if o == p then some v else get_elem? b.cells p)
      cells q = elim (Bool-cases (o == p)) [
        | inl e ↦
            rw (e, ← (==_iff o p).0 e) (get_elem?-set_self b.cells o v (omega (arith, h.full)))
        | inr e ↦ rw e (get_elem?-set_ne b.cells o p v (ground arith))
      ]

      written :
          (history : Bool)
          → o ≤ b.max_offset
          → get (write history o v b).1 p
            ≡ (if ltb b.max_offset o then get b p else if o == p then ok v else get b p)
      written true q =
          let (old, _, e) = get-in_range b o h q in
          rw (write-in_range b o v old q e) (unfold get in ground (arith, cells q))
      written false q = unfold write get in ground (arith, cells q)
