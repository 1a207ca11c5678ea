-- ===== src/Masm/Ir.antt =====
-- src/libisa/masm/ir (base, directives, macro, empty) and asmb/pep10/ir.cpp, directives.tpp: the lines of an
-- assembled section. Comments and break points are left out, and so are the texts of listings.
pub mod Emit
use libsim.Prelude.{
  ℕ, zero, suc, ◌+◌, ◌-◌, ◌%◌, Bool, true, false, Option, none, some, List, [], ◌∷◌, ◌++◌, leb,
  ◌==◌, if◌then◌else◌, not, ◌&&◌, ◌||◌, length, u8, u16, sub16, ◌>>>◌, replicate,
}
use libsim.Prelude.Exec.{Outcome, ok, err, crash}
use libsim.Pep10.Types.{Mnemonic, AddressingMode}
use libsim.Pep10.Isa.{then_ok, opcode, opcode_with}
use libsim.Symbol.{Entry}
use libsim.Masm.Args.{Argument, symbol_ref, value, bytes}
use libsim.Masm.Conversion.{byte_string_length}

-- `ByteType`, and `align_direction` of `.ALIGN`.
pub data ByteType : Type 0 where
  data_bytes code_bytes no_bytes : ByteType

pub data AlignDirection : Type 0 where
  next previous : AlignDirection

-- What `linear_line` holds. A symbol is its place among all symbols.
pub record Common : Type 0 where
  pub emits_object_code : Bool
  pub begin_address : ℕ
  pub end_address : ℕ
  pub source_line : ℕ
  pub listing_line : ℕ
  pub symbol_entry : Option ℕ

-- The classes of lines that contain no other lines.
pub data Kind : Type 0 where
  dot_address : ℕ → Kind
  dot_align : Argument → AlignDirection → Kind
  dot_ascii : List ℕ → Kind
  dot_block dot_burn dot_byte dot_equate dot_word : Argument → Kind
  dot_input dot_output dot_export dot_scall dot_uscall : ℕ → Kind
  dot_end comment_line blank_line : Kind
  unary_instruction : Mnemonic → Kind
  nonunary_instruction : Mnemonic → AddressingMode → Argument → Kind

-- The lines of a section; a macro invocation holds the lines of its macro.
mutual
  pub data Line : Type 0 where
    simple : Common → Kind → Line
    macro_invocation : Common → Lines → Line

  pub data Lines : Type 0 where
    end_of_lines : Lines
    line : Line → Lines → Lines

-- The constructors of the lines that generate code set `emits_object_code`, and that of
-- `.ADDRSS` does not.
unfoldable emits_by_default : Kind → Bool
emits_by_default (dot_align argument direction) = true
emits_by_default (dot_ascii text) = true
emits_by_default (dot_block argument) = true
emits_by_default (dot_byte argument) = true
emits_by_default (dot_word argument) = true
emits_by_default (unary_instruction mnemonic) = true
emits_by_default (nonunary_instruction mnemonic mode argument) = true
emits_by_default _ = false

unfoldable pub new_common : Bool → Common
new_common emits = record {
  emits_object_code = emits;
  begin_address = 0;
  end_address = 0;
  source_line = 0;
  listing_line = 0;
  symbol_entry = none;
}

unfoldable new_line : Kind → Line
unfolding new_common emits_by_default
new_line kind = simple (new_common (emits_by_default kind)) kind

unfoldable pub bytes_type : Kind → ByteType
bytes_type (dot_address i) = data_bytes
bytes_type (dot_align argument direction) = data_bytes
bytes_type (dot_ascii text) = data_bytes
bytes_type (dot_block argument) = data_bytes
bytes_type (dot_byte argument) = data_bytes
bytes_type (dot_word argument) = data_bytes
bytes_type (unary_instruction mnemonic) = code_bytes
bytes_type (nonunary_instruction mnemonic mode argument) = code_bytes
bytes_type _ = no_bytes

-- `symbolic_operand`: the symbol that an argument refers to.
unfoldable symbol_of : Argument → Option ℕ
symbol_of (symbol_ref i) = some i
symbol_of _ = none

unfoldable pub symbolic_operand : Kind → Option ℕ
unfolding symbol_of
symbolic_operand (dot_address i) = some i
symbolic_operand (dot_word argument) = symbol_of argument
symbolic_operand (nonunary_instruction mnemonic mode argument) = symbol_of argument
symbolic_operand _ = none

-- `dot_align::num_bytes_generated`.
unfoldable pub num_bytes_generated : Common → ℕ
num_bytes_generated c = sub16 c.end_address c.begin_address

unfoldable pub object_code_bytes : List Entry → Common → Kind → Outcome ℕ
unfolding num_bytes_generated byte_string_length value
object_code_bytes entries c (dot_address i) = ok 2
object_code_bytes entries c (dot_align argument direction) = ok (num_bytes_generated c)
object_code_bytes entries c (dot_ascii text) = then_ok (byte_string_length text) λ len. ok (u16 len)
object_code_bytes entries c (dot_block argument) = value entries argument
object_code_bytes entries c (dot_byte argument) = ok 1
object_code_bytes entries c (dot_word argument) = ok 2
object_code_bytes entries c (unary_instruction mnemonic) = ok 1
object_code_bytes entries c (nonunary_instruction mnemonic mode argument) = ok 3
object_code_bytes entries c _ = ok 0

-- `macro_invocation::object_code_bytes`, the sum over the lines of the macro.
unfoldable pub macro_bytes : List Entry → Lines → Outcome ℕ
unfolding object_code_bytes
macro_bytes entries end_of_lines = ok 0
macro_bytes entries (line (simple c kind) ls) =
    then_ok (object_code_bytes entries c kind)
      λ n. then_ok (macro_bytes entries ls) λ rest. ok (u16 (n + rest))
macro_bytes entries (line (macro_invocation c body) ls) =
    then_ok (macro_bytes entries body)
      λ n. then_ok (macro_bytes entries ls) λ rest. ok (u16 (n + rest))

-- The addresses that a line with the given number of bytes spans.
unfoldable pub span_from : ℕ → ℕ → Common → Common
span_from address n c = record c { begin_address = address; end_address = sub16 (address + n) 1 }

unfoldable pub span_to : ℕ → ℕ → Common → Common
span_to address n c = record c { begin_address = u16 (sub16 address n + 1); end_address = address }

-- `dot_align::set_begin_address` and `dot_align::set_end_address`; the remainder by 0 is undefined.
unfoldable pub align_from : ℕ → ℕ → Common → Outcome Common
align_from address zero c = crash
align_from address (suc v) c = ok (record c {
  begin_address = address;
  end_address = u16 (address + (suc v - address % suc v) % suc v);
})

unfoldable align_to : ℕ → ℕ → Common → Outcome Common
align_to address zero c = crash
align_to address (suc v) c =
    ok (record c { begin_address = sub16 address (address % suc v); end_address = address })

unfoldable pub set_begin_address : List Entry → Common → Kind → ℕ → Outcome Common
unfolding value align_from object_code_bytes span_from
set_begin_address entries c (dot_align argument direction) address =
    then_ok (value entries argument) λ v. align_from address v c
set_begin_address entries c kind address =
    then_ok (object_code_bytes entries c kind) λ n. ok (span_from address n c)

unfoldable pub set_end_address : List Entry → Common → Kind → ℕ → Outcome Common
unfolding value align_to object_code_bytes span_to
set_end_address entries c (dot_align argument direction) address =
    then_ok (value entries argument) λ v. align_to address v c
set_end_address entries c kind address =
    then_ok (object_code_bytes entries c kind) λ n. ok (span_to address n c)

-- Two bytes, the high one first.
unfoldable pub word_bytes : ℕ → List ℕ
word_bytes v = u8 (v >>> 8) ∷ u8 v ∷ []

-- `append_object_code`: what it appends, once `emits_object_code` is known to be set.
unfoldable pub code_of : List Entry → Common → Kind → Outcome (List ℕ)
unfolding value bytes word_bytes num_bytes_generated opcode opcode_with
code_of entries c (dot_address i) = then_ok (value entries (symbol_ref i)) λ v. ok (word_bytes v)
code_of entries c (dot_align argument direction) = ok (replicate (num_bytes_generated c) 0)
code_of entries c (dot_ascii text) = bytes text
code_of entries c (dot_block argument) = then_ok (value entries argument) λ n. ok (replicate n 0)
code_of entries c (dot_byte argument) = then_ok (value entries argument) λ v. ok (u8 v ∷ [])
code_of entries c (dot_word argument) = then_ok (value entries argument) λ v. ok (word_bytes v)
code_of entries c (unary_instruction mnemonic) = then_ok (opcode mnemonic) λ op. ok (op ∷ [])
code_of entries c (nonunary_instruction mnemonic mode argument) =
    then_ok (opcode_with mnemonic mode)
      λ op. then_ok (value entries argument) λ v. ok (op ∷ word_bytes v)
code_of entries c _ = ok []

unfoldable pub append_object_code : List Entry → Common → Kind → Outcome (List ℕ)
unfolding code_of
append_object_code entries c kind = if c.emits_object_code then code_of entries c kind else ok []

-- `to_bytes`, and what a macro invocation appends.
unfoldable pub to_bytes : List Entry → Lines → Outcome (List ℕ)
unfolding append_object_code
to_bytes entries end_of_lines = ok []
to_bytes entries (line (simple c kind) ls) =
    then_ok (append_object_code entries c kind)
      λ front. then_ok (to_bytes entries ls) λ back. ok (front ++ back)
to_bytes entries (line (macro_invocation c body) ls) =
    let inside = to_bytes entries body in
    then_ok (if c.emits_object_code then inside else ok [])
      λ front. then_ok (to_bytes entries ls) λ back. ok (front ++ back)
