-- ===== src/Storage/Block/AsRam.antt =====
-- src/libisa/components/storage/block.tpp: a block as plain storage, in the sense of Storage/Ram.
use libsim.Prelude.{ℕ, ◌≤◌, ◌≡◌, refl, ap, subst, Bool, true, false, ◌==◌, if◌then◌else◌, arith}
use libsim.Prelude.Exec.{ok}
use libsim.Storage.Ram.{Ram}
use libsim.Storage.Block.{Block, block_device, read, get, write}
use libsim.Storage.Block.Laws.{
  IsValid, get-in_range, write-in_range, set_cell-in_range, write-IsValid, get-write,
}

-- A write in range succeeds and moves no bound.
write-ok :
    (history : Bool) (o v : ℕ) (b : Block ℕ)
    → IsValid b
    → o ≤ b.max_offset
    → (b' : Block ℕ) × (write history o v b ≡ (ok tt, b')) × (b'.max_offset ≡ b.max_offset)
unfolding write
write-ok true o v b h p =
    let (old, _, e) = get-in_range b o h p in (_, write-in_range b o v old p e, refl)
write-ok false o v b h p = (_, set_cell-in_range b o v p, refl)

-- `Block` keeps the promises of plain storage.
pub block-Ram : (history : Bool) → Ram (block_device history)
unfolding read
block-Ram history = record {
  IsGood = IsValid;
  read_in_range = λ p d h le. let (v, e, _) = get-in_range d p h le in (v, ap (λ r. (r, d)) e);
  write_in_range = λ a v d h le.
      let (d', e, top) = write-ok history a v d h le in
      (
        d',
        e,
        subst (λ r. IsValid r.1) e (write-IsValid history d a v h),
        top,
        λ p. subst (λ r. get r.1 p ≡ (if a == p then ok v else get d p)) e (written a v d h le p),
      );
}
  where
    written :
        (a v : ℕ) (d : Block ℕ)
        → IsValid d
        → a ≤ d.max_offset
        → (p : ℕ) → get (write history a v d).1 p ≡ (if a == p then ok v else get d p)
    written a v d h le p = ground (arith, get-write history d a p v h)

pub block-Ram-IsGood : (history : Bool) (b : Block ℕ) → IsValid b → (block-Ram history).IsGood b
unfolding block-Ram
block-Ram-IsGood history b h = h
