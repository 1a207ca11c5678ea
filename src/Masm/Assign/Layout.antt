-- ===== src/Masm/Assign/Layout.antt =====
-- src/libisa/masm/backend/assign_addr.tpp: lines at consecutive addresses, and the parts of the loops that
-- leave the address alone.
use libsim.Prelude.{
  ℕ, ◌+◌, ◌≤◌, ◌≡◌, inl, inr, refl, ◌∙◌, Bool, Option, none, some, List, [], ◌∷◌, ◌++◌, Bool-cases,
  get_elem?, sub16,
}
use libsim.Prelude.Exec.{ok}
use libsim.Symbol.{
  Entry, DefinitionState, undefined, single, multiple, external_multiple, SymbolType, state_of,
}
use libsim.Masm.Ir.{
  Common, Kind, Lines, simple, macro_invocation, end_of_lines, line, object_code_bytes, dot_align,
}
use libsim.Masm.Assign.{
  Pass, Site, operand_in_state, check_operand, symbol_in_state, place_symbol, visit,
}

abbrev pub IsUnaligned : Kind → Type 0
IsUnaligned (dot_align argument direction) = ⊥
IsUnaligned _ = Unit

abbrev pub NoAlign : Lines → Type 0
NoAlign end_of_lines = Unit
NoAlign (line (simple c kind) ls) = IsUnaligned kind × NoAlign ls
NoAlign (line (macro_invocation c body) ls) = NoAlign body × NoAlign ls

-- The size of a line does not depend on its addresses.
pub size-IsUnaligned :
    (es : List Entry) (c c' : Common) (kind : Kind)
    → IsUnaligned kind
    → object_code_bytes es c kind ≡ object_code_bytes es c' kind
unfolding object_code_bytes
size-IsUnaligned es c c' (dot_align argument direction) h = absurd h
size-IsUnaligned es c c' _ h = refl

-- The end of a line, which is its last byte, and for `.ALIGN` the address behind it.
abbrev pub last_address : Kind → ℕ → ℕ → ℕ
last_address (dot_align argument direction) b n = b + n
last_address _ b n = sub16 (b + n) 1

-- Lines that hold no others stand one after the other from an address on, and end before another.
abbrev pub Consecutive : List Entry → ℕ → List (Common × Kind) → ℕ → Type 0
Consecutive es b [] e = b ≡ e
Consecutive es b ((c, kind) ∷ items) e =
    (n : ℕ) × (object_code_bytes es c kind ≡ ok n)
    × (c.begin_address ≡ b)
    × (b + n ≤ 65535)
    × (c.end_address ≡ last_address kind b n)
    × Consecutive es (b + n) items e

pub Consecutive-append :
    (es : List Entry) (b m e : ℕ) (xs ys : List (Common × Kind))
    → Consecutive es b xs m
    → Consecutive es m ys e
    → Consecutive es b (xs ++ ys) e
Consecutive-append es b m e [] ys h k = rw h k
Consecutive-append es b m e ((c, kind) ∷ xs) ys (n, size, start, fits, ends, h) k =
    (n, size, start, fits, ends, Consecutive-append es (b + n) m e xs ys h k)

-- Looking at symbols leaves the address alone.
operand_base :
    (at : ℕ) (i : ℕ) (state : DefinitionState) (p : Pass)
    → (operand_in_state at i state p).1.base_address ≡ p.base_address
unfolding operand_in_state
operand_base at i undefined p = refl
operand_base at i single p = refl
operand_base at i multiple p = refl
operand_base at i external_multiple p = refl

check_base :
    (at : ℕ) (operand : Option ℕ) (p : Pass)
    → (check_operand at operand p).1.base_address ≡ p.base_address
unfolding check_operand
check_base at none p = refl
check_base at (some i) p = operand_base at i (state_of (get_elem? p.entries i)) p

symbol_base :
    (site : Site) (i : ℕ) (state : DefinitionState) (p : Pass)
    → (symbol_in_state site i state p).1.base_address ≡ p.base_address
unfolding symbol_in_state
symbol_base site i undefined p = refl
symbol_base site i single p = elim (Bool-cases site.equates) [
  | inl on ↦ rw on refl
  | inr off ↦ rw off refl
]
symbol_base site i multiple p = refl
symbol_base site i external_multiple p = refl

place_base :
    (site : Site) (symbol : Option ℕ) (p : Pass)
    → (place_symbol site symbol p).1.base_address ≡ p.base_address
unfolding place_symbol
place_base site none p = refl
place_base site (some i) p = symbol_base site i (state_of (get_elem? p.entries i)) p

pub visit-base_address :
    (c : Common) (operand : Option ℕ) (type : SymbolType) (equates : Bool) (p : Pass)
    → (visit c operand type equates p).1.base_address ≡ p.base_address
unfolding visit
visit-base_address c operand type equates p =
    place_base _ c.symbol_entry (check_operand c.source_line operand p).1
    ∙ check_base c.source_line operand p
