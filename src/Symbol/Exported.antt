-- ===== src/Symbol/Exported.antt =====
-- src/libisa/symbol/table.tpp: what `mark_global` leaves of the symbols of other tables.
use libsim.Prelude.{
  ℕ, zero, suc, ◌≡◌, ◌≢◌, ◌⊎◌, refl, sym, ap, subst, Option, none, some, List, [], ◌∷◌, get_elem?,
}
use libsim.Symbol.{Entry, local, update}

-- A change of one place leaves the others, and changes what is there.
pub get_elem?-update :
    (i j : ℕ) (f : Entry → Entry) (xs : List Entry) (P : Entry → Type 0)
    → ((e : Entry) → P e → P (f e))
    → (e : Entry) → get_elem? xs j ≡ some e
    → P e
    → (e' : Entry) × (get_elem? (update i f xs) j ≡ some e') × P e'
unfolding update
get_elem?-update i j f [] P keep e h p = cc
get_elem?-update zero zero f (x ∷ xs) P keep e h p = (
  f x,
  refl,
  keep x (subst P (sym (ap (λ (o : Option Entry). elim o [ none ↦ x | some y ↦ y ]) h)) p),
)
get_elem?-update zero (suc j) f (x ∷ xs) P keep e h p = (e, h, p)
get_elem?-update (suc i) zero f (x ∷ xs) P keep e h p = (e, h, p)
get_elem?-update (suc i) (suc j) f (x ∷ xs) P keep e h p = get_elem?-update i j f xs P keep e h p

-- The symbol belongs to the table, or is not local.
abbrev pub IsExported : ℕ → Option Entry → Type 0
IsExported table none = Unit
IsExported table (some e) = (e.parent ≡ table) ⊎ (e.binding ≢ local)

module _ (table i : ℕ) where
  -- Every change that the loop makes keeps this.
  record Steady (f : Entry → Entry) : Type 0 where
    same_parent : (e : Entry) → (f e).parent ≡ e.parent
    still : (e : Entry) → e.binding ≢ local → (f e).binding ≢ local
