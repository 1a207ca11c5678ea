-- ===== src/Masm/Assign/Labels.antt =====
-- src/libisa/masm/backend/assign_addr.tpp: the values of the symbols that stand on the lines of a section.
use libsim.Prelude.{
  ℕ, zero, suc, ◌≡◌, ◌≢◌, inl, inr, refl, sym, ap, ◌∙◌, Bool, false, Option, none, some, List, [],
  ◌∷◌, Bool-cases, get_elem?,
}
use libsim.Symbol.{
  Entry, DefinitionState, undefined, single, multiple, external_multiple, SymbolType, Value,
  location, update, state_of,
}
use libsim.Masm.Ir.{Common}
use libsim.Masm.Assign.{
  Pass, Site, operand_in_state, check_operand, symbol_in_state, place_symbol, site_of, visit,
  with_value,
}

get_elem?-update_ne :
    (i j : ℕ) (f : Entry → Entry) (es : List Entry)
    → i ≢ j
    → get_elem? (update i f es) j ≡ get_elem? es j
unfolding update
get_elem?-update_ne i j f [] h = refl
get_elem?-update_ne zero zero f (e ∷ es) h = absurd (h refl)
get_elem?-update_ne zero (suc j) f (e ∷ es) h = refl
get_elem?-update_ne (suc i) zero f (e ∷ es) h = refl
get_elem?-update_ne (suc i) (suc j) f (e ∷ es) h =
    get_elem?-update_ne i j f es (λ same. h (ap suc same))

-- The symbol holds the address, if it is defined once.
abbrev Holds : List Entry → ℕ → ℕ → SymbolType → Type 0
Holds es i address type =
    (e : Entry) → get_elem? es i ≡ some e → e.state ≡ single → e.value ≡ location address 0 type

abbrev value_in : Option Entry → Value
value_in none = Value.empty
value_in (some e) = e.value

Holds-update :
    (i address : ℕ) (type : SymbolType) (es : List Entry)
    → Holds (update i (with_value (location address 0 type)) es) i address type
unfolding update with_value
Holds-update i address type [] e h s = absurd (cc h)
Holds-update zero address type (x ∷ es) e h s = sym (ap value_in h)
Holds-update (suc i) address type (x ∷ es) e h s = Holds-update i address type es e h s

operand_entries :
    (at i : ℕ) (state : DefinitionState) (p : Pass)
    → (operand_in_state at i state p).1.entries ≡ p.entries
unfolding operand_in_state
operand_entries at i undefined p = refl
operand_entries at i single p = refl
operand_entries at i multiple p = refl
operand_entries at i external_multiple p = refl

check_entries :
    (at : ℕ) (operand : Option ℕ) (p : Pass) → (check_operand at operand p).1.entries ≡ p.entries
unfolding check_operand
check_entries at none p = refl
check_entries at (some i) p = operand_entries at i (state_of (get_elem? p.entries i)) p

symbol_frame :
    (site : Site) (i j : ℕ) (state : DefinitionState) (p : Pass)
    → i ≢ j
    → get_elem? (symbol_in_state site i state p).1.entries j ≡ get_elem? p.entries j
unfolding symbol_in_state
symbol_frame site i j undefined p h = refl
symbol_frame site i j multiple p h = refl
symbol_frame site i j external_multiple p h = refl
symbol_frame site i j single p h = elim (Bool-cases site.equates) [
  | inl on ↦ rw on refl
  | inr off ↦ rw off (get_elem?-update_ne i j _ p.entries h)
]

-- The symbol of a line is not the given one.
abbrev pub Apart : ℕ → Option ℕ → Type 0
Apart j none = Unit
Apart j (some i) = i ≢ j

place_frame :
    (site : Site) (j : ℕ) (symbol : Option ℕ) (p : Pass)
    → Apart j symbol
    → get_elem? (place_symbol site symbol p).1.entries j ≡ get_elem? p.entries j
unfolding place_symbol
place_frame site j none p h = refl
place_frame site j (some i) p h = symbol_frame site i j (state_of (get_elem? p.entries i)) p h

pub visit_frame :
    (c : Common) (operand : Option ℕ) (type : SymbolType) (equates : Bool) (p : Pass) (j : ℕ)
    → Apart j c.symbol_entry
    → get_elem? (visit c operand type equates p).1.entries j ≡ get_elem? p.entries j
unfolding visit
visit_frame c operand type equates p j h =
    place_frame (site_of c type equates) j c.symbol_entry (check_operand c.source_line operand p).1
      h
    ∙ ap (λ es. get_elem? es j) (check_entries c.source_line operand p)

not_single :
    (es : List Entry) (i address : ℕ) (type : SymbolType) (state : DefinitionState)
    → state_of (get_elem? es i) ≡ state
    → state ≢ single
    → Holds es i address type
unfolding state_of
not_single es i address type state h other e g s = absurd (other (sym h ∙ ap state_of g ∙ s))

symbol_Holds :
    (site : Site) (i : ℕ) (p : Pass) (state : DefinitionState)
    → site.equates ≡ false
    → state_of (get_elem? p.entries i) ≡ state
    → Holds (symbol_in_state site i state p).1.entries i site.address site.type
unfolding symbol_in_state
symbol_Holds site i p single off h = rw off (Holds-update i site.address site.type p.entries)
symbol_Holds site i p undefined off h =
    not_single p.entries i site.address site.type undefined h (λ e. cc e)
symbol_Holds site i p multiple off h =
    not_single p.entries i site.address site.type multiple h (λ e. cc e)
symbol_Holds site i p external_multiple off h =
    not_single p.entries i site.address site.type external_multiple h (λ e. cc e)

-- What the symbol of a line holds afterwards, if the line is no `.EQUATE`.
abbrev pub Labels : List Entry → ℕ → SymbolType → Option ℕ → Type 0
Labels es address type none = Unit
Labels es address type (some i) = Holds es i address type

place_Labels :
    (site : Site) (symbol : Option ℕ) (p : Pass)
    → site.equates ≡ false
    → Labels (place_symbol site symbol p).1.entries site.address site.type symbol
unfolding place_symbol
place_Labels site none p off = tt
place_Labels site (some i) p off = symbol_Holds site i p (state_of (get_elem? p.entries i)) off refl

pub visit-Labels :
    (c : Common) (operand : Option ℕ) (type : SymbolType) (equates : Bool) (p : Pass)
    → equates ≡ false
    → Labels (visit c operand type equates p).1.entries c.begin_address type c.symbol_entry
unfolding visit site_of
visit-Labels c operand type equates p off =
    place_Labels (site_of c type equates) c.symbol_entry (check_operand c.source_line operand p).1
      off
