-- ===== src/Symbol/Values.antt =====
-- src/libisa/symbol/value.tpp and the visitor `AdjustOffsetVisitor` of visit.tpp: the values of symbols, and the
-- relocation of those that are locations. A value belongs to one symbol, and `value_t` has 16 bits.
use libsim.Prelude.{
  ℕ, zero, suc, ◌+◌, ◌≤◌, ◌<◌, ◌≡◌, refl, Bool, true, false, none, some, List, [], ◌∷◌, ltb, ◌==◌,
  if◌then◌else◌, get_elem?, u16, arith,
}
use libsim.Prelude.Exec.{Outcome, ok, crash}
use libsim.Symbol.{
  SymbolType, Value, Entry, Program, Node, Children, leaf, branch, no_children, child, const,
  location, pointer, change,
}

-- `value()` and `type()`. A pointer is followed as often as there is fuel; one that leads back to itself is
-- never evaluated in the source.
unfoldable pub value_of : ℕ → List Entry → Value → Outcome ℕ
value_of fuel entries Value.empty = ok 0
value_of fuel entries Value.deleted = ok 0
value_of fuel entries (const v) = ok v
value_of fuel entries (location base offset type) = ok (u16 (base + offset))
value_of zero entries (pointer i) = crash
value_of (suc fuel) entries (pointer i) = elim (get_elem? entries i) [
  | none ↦ crash
  | some e ↦ value_of fuel entries e.value
]

unfoldable pub type_of : Value → SymbolType
type_of Value.empty = SymbolType.empty
type_of Value.deleted = SymbolType.deleted
type_of (const v) = SymbolType.constant
type_of (location base offset type) = type
type_of (pointer i) = SymbolType.ptr_to_sym

unfoldable pub relocatable : Value → Bool
relocatable (location base offset type) = true
relocatable Value.empty = false
relocatable Value.deleted = false
relocatable (const v) = false
relocatable (pointer i) = false

-- `set_value`, `set_offset` and `add_to_offset`.
unfoldable pub set_value : ℕ → Value → Value
set_value v (const w) = const v
set_value v other = other

unfoldable pub set_offset : ℕ → Value → Value
set_offset offset (location base old type) = location base offset type
set_offset offset other = other

unfoldable pub add_to_offset : ℕ → Value → Value
add_to_offset n (location base old type) = location base (u16 (old + n)) type
add_to_offset n other = other

-- The body of the visitor's loop over the symbols of a leaf: only locations are moved, and their values
-- need no other symbol.
unfoldable pub adjust_value : ℕ → ℕ → Value → Value
unfolding set_offset
adjust_value offset threshold (location base old type) =
    if ltb (u16 (base + old)) threshold
    then location base old type
    else set_offset offset (location base old type)
adjust_value offset threshold Value.empty = Value.empty
adjust_value offset threshold Value.deleted = Value.deleted
adjust_value offset threshold (const v) = const v
adjust_value offset threshold (pointer i) = pointer i

unfoldable pub adjust_entry : ℕ → ℕ → Entry → Entry
unfolding adjust_value
adjust_entry offset threshold e = record e { value = adjust_value offset threshold e.value }

-- `AdjustOffsetVisitor`, over the symbols of a leaf and over the tables of a tree.
unfoldable pub adjust_table : ℕ → ℕ → ℕ → List (ℕ × ℕ × ℕ) → Program → Program
unfolding change adjust_entry
adjust_table offset threshold table [] p = p
adjust_table offset threshold table ((t, name, i) ∷ names) p =
    let q = adjust_table offset threshold table names p in
    if t == table then change i (adjust_entry offset threshold) q else q

unfoldable mutual
  unfolding adjust_table

  pub adjust : ℕ → ℕ → Node → Program → Program
  adjust offset threshold (leaf table) p = adjust_table offset threshold table p.names p
  adjust offset threshold (branch children) p = adjust_children offset threshold children p

  pub adjust_children : ℕ → ℕ → Children → Program → Program
  adjust_children offset threshold no_children p = p
  adjust_children offset threshold (child node children) p =
      adjust_children offset threshold children (adjust offset threshold node p)

-- `adjust_offset` with the policies for a table and its children, and for the whole tree.
unfoldable pub adjust_offset : Node → ℕ → ℕ → Program → Program
unfolding adjust
adjust_offset node offset threshold p = adjust offset threshold node p

-- A value below the threshold stays, and one that is moved has the new offset, whatever the old one was.
adjust_value-location :
    (offset threshold base old : ℕ) (type : SymbolType)
    → ((u16 (base + old) < threshold)
        → adjust_value offset threshold (location base old type) ≡ location base old type)
      × ((threshold ≤ u16 (base + old))
          → adjust_value offset threshold (location base old type) ≡ location base offset type)
unfolding adjust_value
adjust_value-location offset threshold base old type = (
  λ h. (let below : ltb (u16 (base + old)) threshold ≡ true = ground arith in rw below refl),
  λ h. (let above : ltb (u16 (base + old)) threshold ≡ false = ground arith in rw above refl),
)
