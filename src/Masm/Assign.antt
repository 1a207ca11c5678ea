-- ===== src/Masm/Assign.antt =====
-- src/libisa/masm/backend/assign_addr.tpp: the addresses of the lines of a section, forwards from its first
-- address or backwards from its last, and the values of the symbols that stand on lines.

pub mod Layout
pub mod Begin
pub mod Forward
pub mod Bytes
pub mod Burned
pub mod Backward
pub mod BackwardBytes
pub mod Image
pub mod Numbers
pub mod Labels
pub mod Labelled
pub mod Values
pub mod Align
use libsim.Prelude.{
  ℕ, zero, suc, ◌+◌, ◌-◌, Bool, true, false, Option, none, some, List, [], ◌∷◌, ◌++◌, ltb,
  if◌then◌else◌, not, ◌&&◌, get_elem?, sub16,
}
use libsim.Prelude.Exec.{Outcome, ok, err, crash}
use libsim.Pep10.Isa.{then_ok}
use libsim.Symbol.{
  Entry, DefinitionState, undefined, single, multiple, external_multiple, SymbolType, Value,
  location, update, state_of,
}
use libsim.Masm.Ir.{
  Common, Kind, Line, Lines, simple, macro_invocation, end_of_lines, line, ByteType, data_bytes,
  code_bytes, no_bytes, bytes_type, symbolic_operand, object_code_bytes, macro_bytes, span_from,
  span_to, set_begin_address, set_end_address, AlignDirection, dot_align, dot_equate,
}

-- The messages that are logged, with the symbol and the line.
pub data Message : Type 0 where
  undefined_operand multiply_defined conflicting_definition : ℕ → ℕ → Message
  positive_overflow negative_overflow : ℕ → Message

-- What the loops change besides the lines: `base_address`, the symbols, and the messages.
pub record Pass : Type 0 where
  pub base_address : ℕ
  pub entries : List Entry
  pub messages : List Message

-- What a loop returns. `stopped` says that it was left by `break`.
pub record Assigned : Type 0 where
  pub success : Bool
  pub stopped : Bool
  pub lines : Lines
  pub pass : Pass

unfoldable log_message : Message → Pass → Pass
log_message message p = record p { messages = p.messages ++ message ∷ [] }

-- "If an operand is undefined, raise an error."
unfoldable pub operand_in_state : ℕ → ℕ → DefinitionState → Pass → Bool × Pass
unfolding log_message
operand_in_state source_line i undefined p =
    (false, log_message (undefined_operand i source_line) p)
operand_in_state source_line i _ p = (true, p)

unfoldable pub check_operand : ℕ → Option ℕ → Pass → Bool × Pass
unfolding operand_in_state state_of
check_operand source_line none p = (true, p)
check_operand source_line (some i) p =
    operand_in_state source_line i (state_of (get_elem? p.entries i)) p

-- The value that a symbol on a line gets, unless the line is an `.EQUATE`.
unfoldable pub location_type : ByteType → SymbolType
location_type data_bytes = SymbolType.object
location_type code_bytes = SymbolType.code
location_type no_bytes = SymbolType.empty

unfoldable pub with_value : Value → Entry → Entry
with_value v e = record e { value = v }

unfoldable pub is_equate : Kind → Bool
is_equate (dot_equate argument) = true
is_equate _ = false

-- The fields of a line that the symbol's part of the loop looks at.
pub record Site : Type 0 where
  pub address : ℕ
  pub at_line : ℕ
  pub type : SymbolType
  pub equates : Bool

unfoldable pub symbol_in_state : Site → ℕ → DefinitionState → Pass → Bool × Pass
unfolding update with_value log_message
symbol_in_state site i single p = (
  true,
  if site.equates then p else record p {
    entries = update i (with_value (location site.address 0 site.type)) p.entries;
  },
)
symbol_in_state site i multiple p = (false, log_message (multiply_defined i site.at_line) p)
symbol_in_state site i external_multiple p =
    (false, log_message (conflicting_definition i site.at_line) p)
symbol_in_state site i undefined p = (true, p)

unfoldable pub place_symbol : Site → Option ℕ → Pass → Bool × Pass
unfolding symbol_in_state state_of
place_symbol site none p = (true, p)
place_symbol site (some i) p = symbol_in_state site i (state_of (get_elem? p.entries i)) p

unfoldable pub site_of : Common → SymbolType → Bool → Site
site_of c type equates = record {
  address = c.begin_address;
  at_line = c.source_line;
  type = type;
  equates = equates;
}

-- The parts of both loops that look at symbols.
unfoldable pub visit : Common → Option ℕ → SymbolType → Bool → Pass → Bool × Pass
unfolding check_operand place_symbol site_of
visit c operand type equates p =
    let (defined, q) = check_operand c.source_line operand p in
    let (placed, r) = place_symbol (site_of c type equates) c.symbol_entry q in
    (defined && placed, r)

unfoldable pub visit_line : Common → Kind → Pass → Bool × Pass
unfolding visit symbolic_operand location_type bytes_type is_equate
visit_line c kind p =
    visit c (symbolic_operand kind) (location_type (bytes_type kind)) (is_equate kind) p

unfoldable pub visit_macro : Common → Pass → Bool × Pass
unfolding visit
visit_macro c p = visit c none SymbolType.object false p

unfoldable pub point_next : Kind → Kind
point_next (dot_align argument direction) = dot_align argument AlignDirection.next
point_next kind = kind

unfoldable pub move_to : ℕ → Pass → Pass
move_to address p = record p { base_address = address }

-- A line in front of what the rest of the loop returns, with the success of the line.
unfoldable pub before : Bool → Line → Assigned → Assigned
before good l d = record d { success = good && d.success; lines = line l d.lines }

-- The loop stops at a line that does not fit, and leaves the lines that it has not come to alone.
unfoldable pub stop_at : Line → Lines → Message → Pass → Assigned
unfolding log_message
stop_at l ls message p = record {
  success = false;
  stopped = true;
  lines = line l ls;
  pass = log_message message p;
}

unfoldable pub assign_section_forward : Lines → Pass → Outcome Assigned
assign_section_forward end_of_lines p =
    ok (record { success = true; stopped = false; lines = end_of_lines; pass = p })
assign_section_forward (line (simple c kind) ls) p =
    then_ok (set_begin_address p.entries c kind p.base_address) λ c'.
      let (good, q) = visit_line c' kind p in
      then_ok (object_code_bytes q.entries c' kind) λ n.
        if ltb (65535 - q.base_address) n
        then ok (stop_at (simple c' (point_next kind)) ls (positive_overflow c.source_line) q)
        else (then_ok (assign_section_forward ls (move_to (q.base_address + n) q))
            λ d. ok (before good (simple c' (point_next kind)) d))
assign_section_forward (line (macro_invocation c body) ls) p =
    then_ok (macro_bytes p.entries body) λ n.
      let c' = span_from p.base_address n c in
      let (good, q) = visit_macro c' p in
      then_ok (assign_section_forward body q) λ inner.
        then_ok (assign_section_forward ls inner.pass)
          λ d. ok (before (good && inner.success) (macro_invocation c' inner.lines) d)

-- Backwards, the lines that follow come first.
unfoldable pub assign_section_backward : Lines → Pass → Outcome Assigned
assign_section_backward end_of_lines p =
    ok (record { success = true; stopped = false; lines = end_of_lines; pass = p })
assign_section_backward (line (simple c kind) ls) p = then_ok (assign_section_backward ls p) λ d.
    if d.stopped
    then ok (record d { lines = line (simple c kind) d.lines })
    else (then_ok (set_end_address d.pass.entries c kind d.pass.base_address) λ c'.
        let (good, q) = visit_line c' kind d.pass in
        then_ok (object_code_bytes q.entries c' kind) λ n.
          if ltb (q.base_address + 1) n
          then ok (stop_at (simple c' kind) d.lines (negative_overflow c.source_line) q)
          else ok (
              before good (simple c' kind)
                (record d { pass = move_to (sub16 q.base_address n) q })))
assign_section_backward (line (macro_invocation c body) ls) p =
    then_ok (assign_section_backward ls p) λ d.
      if d.stopped
      then ok (record d { lines = line (macro_invocation c body) d.lines })
      else (then_ok (macro_bytes d.pass.entries body) λ n.
          let c' = span_to d.pass.base_address n c in
          let (good, q) = visit_macro c' d.pass in
          then_ok (assign_section_backward body q) λ inner. ok (
            before (good && inner.success) (macro_invocation c' inner.lines)
              (record d { pass = inner.pass })))
