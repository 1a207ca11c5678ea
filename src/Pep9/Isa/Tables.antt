-- ===== src/Pep9/Isa/Tables.antt =====
-- src/libisa/isa/pep9/pep9.cpp: what the two tables of the Pep/9 instruction set hold. Each fact about the bytes is a
-- test that is evaluated at all of them.
use libsim.Prelude.{
  ℕ, ◌+◌, ◌<◌, ◌≡◌, refl, Bool, true, false, not, ◌&&◌, ◌||◌, List, [], ◌∷◌, ltb, leb, ◌==◌, arith,
  holds_below, holds_below_at, both_true,
}
use libsim.Prelude.Exec.{Outcome, ok, err, crash}
use libsim.Pep10.Types.{AddressingMode, AddressingClass}
use libsim.Pep9.InstrList.{InstructionDefinition, AddrMap, instr_list, mnemonic_number}
use libsim.Pep9.Isa.{riproll, is_store_byte, is_opcode_unary_byte, is_mnemonic_unary_byte}

-- The byte of an instruction of a class in a mode, from the bit pattern of the instruction on.
abbrev mode_bits : AddressingClass → AddressingMode → ℕ
mode_bits AddressingClass.a_ix AddressingMode.x = 1
mode_bits class AddressingMode.d = 1
mode_bits class AddressingMode.n = 2
mode_bits class AddressingMode.s = 3
mode_bits class AddressingMode.sf = 4
mode_bits class AddressingMode.x = 5
mode_bits class AddressingMode.sx = 6
mode_bits class AddressingMode.sfx = 7
mode_bits class mode = 0

-- The row is one of the table's.
abbrev is_row : InstructionDefinition → List InstructionDefinition → Bool
is_row v [] = false
is_row v (w ∷ ws) =
    ((mnemonic_number v.mnemonic == mnemonic_number w.mnemonic) && (v.bit_pattern == w.bit_pattern))
    || is_row v ws

abbrev decodes : ℕ → Outcome AddrMap → Bool
decodes byte (ok m) =
    (byte == m.inst.bit_pattern + mode_bits m.inst.iformat m.addr) && is_row m.inst instr_list
decodes byte (err e) = false
decodes byte crash = false

-- The decoded row is in the table, and its bit pattern and mode make up the byte.
abbrev Decodes : ℕ → Outcome AddrMap → Type 0
Decodes byte (ok m) =
    (byte ≡ m.inst.bit_pattern + mode_bits m.inst.iformat m.addr)
    × (is_row m.inst instr_list ≡ true)
Decodes byte (err e) = ⊥
Decodes byte crash = ⊥

decode_test : ℕ → Bool
decode_test byte = decodes byte (riproll byte)

decode_table : holds_below 256 decode_test ≡ true
unfolding holds_below decode_test riproll instr_list
decode_table = refl

decodes-Decodes : (byte : ℕ) (r : Outcome AddrMap) → decodes byte r ≡ true → Decodes byte r
decodes-Decodes byte (ok m) h = ground arith
decodes-Decodes byte (err e) h = absurd (cc h)
decodes-Decodes byte crash h = absurd (cc h)

-- Every byte below 256 decodes, and to a row of the table whose bit pattern, with the bits of the decoded
-- addressing mode, makes up the byte.
riproll-Decodes : (byte : ℕ) → byte < 256 → Decodes byte (riproll byte)
unfolding decode_test
riproll-Decodes byte h =
    decodes-Decodes byte (riproll byte) (holds_below_at 256 decode_test byte decode_table h)

-- The answers to the questions about a byte.
abbrev is_answer : Bool → Outcome Bool → Bool
is_answer b (ok true) = b
is_answer b (ok false) = not b
is_answer b _ = false

is_answer_sound : (b : Bool) (r : Outcome Bool) → is_answer b r ≡ true → r ≡ ok b
is_answer_sound true (ok true) h = refl
is_answer_sound true (ok false) h = absurd (cc h)
is_answer_sound false (ok true) h = absurd (cc h)
is_answer_sound false (ok false) h = refl
is_answer_sound b (err e) h = absurd (cc h)
is_answer_sound b crash h = absurd (cc h)

-- The bytes of STWA and STBA, of STWX and STBX, and of NOP, DECI, DECO, HEXO and STRO.
abbrev pub stores_a : ℕ → Bool
stores_a byte = (leb 0xe0 byte && leb byte 0xe7) || (leb 0xf0 byte && leb byte 0xf7)

abbrev traps : ℕ → Bool
traps byte = leb 0x28 byte && leb byte 0x4f

question_test : ℕ → Bool
question_test byte =
    is_answer (stores_a byte) (is_store_byte byte)
    && (is_answer (ltb byte 0x12 || leb 0x26 byte && leb byte 0x4f) (is_opcode_unary_byte byte)
        && is_answer (ltb byte 0x12 || leb 0x26 byte && leb byte 0x27)
            (is_mnemonic_unary_byte byte))

question_table : holds_below 256 question_test ≡ true
unfolding holds_below question_test is_store_byte is_opcode_unary_byte is_mnemonic_unary_byte
question_table = refl

-- Below 256, the bytes that store are said to be those of STWA and STBA alone, and not those of STWX and STBX. The
-- row's answer and the class's answer to whether a byte is unary differ exactly at the bytes of NOP, DECI, DECO,
-- HEXO and STRO, which are unary by their rows.
pub is_store-is_unary :
    (byte : ℕ)
    → byte < 256
    → (is_store_byte byte ≡ ok (stores_a byte))
      × (is_opcode_unary_byte byte ≡ ok (ltb byte 0x12 || leb 0x26 byte && leb byte 0x4f))
      × (is_mnemonic_unary_byte byte ≡ ok (ltb byte 0x12 || leb 0x26 byte && leb byte 0x27))
unfolding question_test
is_store-is_unary byte h =
    let t = both_true _ _ (holds_below_at 256 question_test byte question_table h) in
    let u = both_true _ _ t.1 in
    (
      is_answer_sound (stores_a byte) (is_store_byte byte) t.0,
      is_answer_sound _ (is_opcode_unary_byte byte) u.0,
      is_answer_sound _ (is_mnemonic_unary_byte byte) u.1,
    )
