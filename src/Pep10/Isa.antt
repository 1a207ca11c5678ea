-- ===== src/Pep10/Isa.antt =====
-- src/libisa/isa/pep10/pep10.cpp: the two tables of the instruction set, and the questions put to them.
pub mod Tables
use libsim.Prelude.{
  ℕ, zero, suc, ◌+◌, ◌-◌, Bool, true, false, Option, none, some, List, [], ◌∷◌, ltb, leb, ◌==◌,
  if◌then◌else◌, u8,
}
use libsim.Prelude.Exec.{Outcome, ok, err, crash}
use libsim.Pep10.Types.{
  Mnemonic, mnemonic_number, AddressingMode, AddressingClass, stwa, stwx, stba, stbx,
}
use libsim.Pep10.InstrList.{InstructionDefinition, AddrMap, instr_list}

-- `ret[v.mnemonic] = v` for a map that is kept in the order of its keys.
unfoldable pub insert_instr :
    InstructionDefinition → List InstructionDefinition → List InstructionDefinition
insert_instr v [] = v ∷ []
insert_instr v (w ∷ m) =
    let rest = w ∷ insert_instr v m in
    if mnemonic_number v.mnemonic == mnemonic_number w.mnemonic
    then v ∷ m
    else if ltb (mnemonic_number v.mnemonic) (mnemonic_number w.mnemonic)
    then v ∷ w ∷ m
    else rest

unfoldable pub insert_all :
    List InstructionDefinition → List InstructionDefinition → List InstructionDefinition
unfolding insert_instr mnemonic_number
insert_all [] m = m
insert_all (v ∷ vs) m = insert_all vs (insert_instr v m)

unfoldable pub init_isa : List InstructionDefinition
unfolding insert_all instr_list
init_isa = insert_all instr_list []

-- `std::upper_bound` and one step back: the last definition before the first with a larger bit
-- pattern. `std::upper_bound` asks for a map in which no pattern follows a larger one.
unfoldable pub before_upper_bound :
    ℕ → Option InstructionDefinition → List InstructionDefinition → Option InstructionDefinition
before_upper_bound it last [] = last
before_upper_bound it last (v ∷ m) =
    let rest = before_upper_bound it (some v) m in if ltb it v.bit_pattern then last else rest

-- The offsets of the eight addressing modes.
unfoldable pub all_modes : ℕ → Outcome AddressingMode
all_modes offset =
    if offset == 0
    then ok AddressingMode.i
    else if offset == 1
    then ok AddressingMode.d
    else if offset == 2
    then ok AddressingMode.n
    else if offset == 3
    then ok AddressingMode.s
    else if offset == 4
    then ok AddressingMode.sf
    else if offset == 5
    then ok AddressingMode.x
    else if offset == 6
    then ok AddressingMode.sx
    else if offset == 7
    then ok AddressingMode.sfx
    else crash

-- The `switch` of `init_mmap` on the class; a class without a case keeps the initial mode.
unfoldable pub mode_at : AddressingClass → ℕ → Outcome AddressingMode
unfolding all_modes
mode_at AddressingClass.r_none offset = ok AddressingMode.none
mode_at AddressingClass.u_none offset = ok AddressingMode.none
mode_at AddressingClass.a_ix offset =
    if offset == 0 then ok AddressingMode.i else if offset == 1 then ok AddressingMode.x else crash
mode_at AddressingClass.aaa_i offset =
    if offset == 0
    then ok AddressingMode.i
    else if leb offset 7
    then ok AddressingMode.invalid
    else crash
mode_at AddressingClass.aaa_all offset = all_modes offset
mode_at AddressingClass.raaa_all offset = all_modes offset
mode_at AddressingClass.raaa_noi offset =
    if offset == 0 then ok AddressingMode.invalid else all_modes offset
mode_at AddressingClass.invalid offset = ok AddressingMode.invalid

unfoldable pub mmap_entry : ℕ → Option InstructionDefinition → Outcome AddrMap
unfolding mode_at
mmap_entry it none = crash
mmap_entry it (some inst) = elim (mode_at inst.iformat (it - inst.bit_pattern)) [
  | ok mode ↦ ok (record { inst = inst; addr = mode })
  | err e ↦ err e
  | crash ↦ crash
]

-- The entry of `riproll` for a byte, as the loop of `init_mmap` computes it.
unfoldable pub riproll : ℕ → Outcome AddrMap
unfolding mmap_entry before_upper_bound init_isa
riproll it = mmap_entry it (before_upper_bound it none init_isa)

-- `definition.isa.at(mnemon)`, which throws if the key is missing.
unfoldable pub find_instr : Mnemonic → List InstructionDefinition → Outcome InstructionDefinition
find_instr name [] = crash
find_instr name (v ∷ m) =
    if mnemonic_number v.mnemonic == mnemonic_number name then ok v else find_instr name m

unfoldable pub definition_of : Mnemonic → Outcome InstructionDefinition
unfolding find_instr init_isa
definition_of name = find_instr name init_isa

abbrev pub then_ok {ℓ} : {A B : Type ℓ} → Outcome A → (A → Outcome B) → Outcome B
then_ok (ok v) f = f v
then_ok (err e) f = err e
then_ok crash f = crash

unfoldable pub class_unary : AddressingClass → Outcome Bool
class_unary AddressingClass.a_ix = ok false
class_unary AddressingClass.aaa_all = ok false
class_unary AddressingClass.aaa_i = ok false
class_unary AddressingClass.raaa_all = ok false
class_unary AddressingClass.raaa_noi = ok false
class_unary AddressingClass.u_none = ok true
class_unary AddressingClass.r_none = ok true
class_unary AddressingClass.invalid = crash

unfoldable pub is_mnemonic_unary : Mnemonic → Outcome Bool
unfolding definition_of class_unary
is_mnemonic_unary name = then_ok (definition_of name) λ inst. class_unary inst.iformat

unfoldable pub is_mnemonic_unary_byte : ℕ → Outcome Bool
unfolding riproll is_mnemonic_unary
is_mnemonic_unary_byte byte = then_ok (riproll byte) λ m. is_mnemonic_unary m.inst.mnemonic

unfoldable pub is_opcode_unary : Mnemonic → Outcome Bool
unfolding definition_of
is_opcode_unary name = then_ok (definition_of name) λ inst. ok inst.is_unary

unfoldable pub is_opcode_unary_byte : ℕ → Outcome Bool
unfolding riproll is_opcode_unary
is_opcode_unary_byte byte = then_ok (riproll byte) λ m. is_opcode_unary m.inst.mnemonic

unfoldable pub is_store : Mnemonic → Bool
is_store stba = true
is_store stwa = true
is_store stbx = true
is_store stwx = true
is_store _ = false

unfoldable pub is_store_byte : ℕ → Outcome Bool
unfolding riproll is_store
is_store_byte byte = then_ok (riproll byte) λ m. ok (is_store m.inst.mnemonic)

-- The two overloads of `opcode`, without and with an addressing mode.
unfoldable pub opcode : Mnemonic → Outcome ℕ
unfolding definition_of
opcode name = then_ok (definition_of name) λ inst. ok inst.bit_pattern

unfoldable pub mode_offset : AddressingMode → Outcome ℕ
mode_offset AddressingMode.i = ok 0
mode_offset AddressingMode.d = ok 1
mode_offset AddressingMode.n = ok 2
mode_offset AddressingMode.s = ok 3
mode_offset AddressingMode.sf = ok 4
mode_offset AddressingMode.x = ok 5
mode_offset AddressingMode.sx = ok 6
mode_offset AddressingMode.sfx = ok 7
mode_offset AddressingMode.none = crash
mode_offset AddressingMode.invalid = crash

unfoldable pub offset_in : AddressingClass → AddressingMode → Outcome ℕ
unfolding mode_offset
offset_in AddressingClass.a_ix AddressingMode.x = ok 1
offset_in class mode = mode_offset mode

unfoldable pub opcode_with : Mnemonic → AddressingMode → Outcome ℕ
unfolding definition_of offset_in
opcode_with name mode =
    then_ok (definition_of name)
      λ inst. then_ok (offset_in inst.iformat mode) λ offset. ok (u8 (inst.bit_pattern + offset))
