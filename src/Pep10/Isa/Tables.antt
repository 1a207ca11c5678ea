-- ===== src/Pep10/Isa/Tables.antt =====
-- src/libisa/isa/pep10/pep10.cpp: what the two tables of the instruction set hold. Each fact about the bytes is
-- a test that is evaluated at all of them.
use libsim.Prelude.{
  ℕ, ◌≤◌, ◌<◌, ◌≡◌, ◌≢◌, ◌⊎◌, subst, refl, Bool, true, false, not, ◌&&◌, ◌||◌, List, [], ◌∷◌, ltb,
  leb, ◌==◌, if◌then◌else◌, arith, All, holds_below, holds_below_at,
}
use libsim.Prelude.Exec.{Outcome, ok, err, crash}
use libsim.Pep10.Types.{AddressingMode}
use libsim.Pep10.InstrList.{InstructionDefinition, AddrMap, instr_list}
use libsim.Pep10.Isa.{riproll, opcode, opcode_with, is_opcode_unary_byte, is_mnemonic_unary_byte}

abbrev pattern_at_most : ℕ → ℕ → List InstructionDefinition → Bool
pattern_at_most bound byte [] = true
pattern_at_most bound byte (v ∷ vs) =
    (ltb byte v.bit_pattern || leb v.bit_pattern bound) && pattern_at_most bound byte vs

-- The definition has the largest bit pattern that does not pass the byte.
abbrev pub Nearest : ℕ → InstructionDefinition → Type 0
Nearest byte inst =
    (inst.bit_pattern ≤ byte)
    × All (λ v. v.bit_pattern ≤ byte → v.bit_pattern ≤ inst.bit_pattern) instr_list

-- The answer is an instruction whose definition is the nearest.
abbrev pub DecodesToNearest : ℕ → Outcome AddrMap → Type 0
DecodesToNearest byte (ok m) = Nearest byte m.inst
DecodesToNearest byte (err e) = ⊥
DecodesToNearest byte crash = ⊥

nearest_test : ℕ → Bool
nearest_test byte = elim (riproll byte) [
  | ok m ↦ leb m.inst.bit_pattern byte && pattern_at_most m.inst.bit_pattern byte instr_list
  | err e ↦ false
  | crash ↦ false
]

nearest_table : holds_below 256 nearest_test ≡ true
unfolding holds_below nearest_test riproll
nearest_table = refl

pattern_at_most_sound :
    (bound byte : ℕ) (vs : List InstructionDefinition)
    → pattern_at_most bound byte vs ≡ true
    → All (λ v. v.bit_pattern ≤ byte → v.bit_pattern ≤ bound) vs
pattern_at_most_sound bound byte [] h = tt
pattern_at_most_sound bound byte (v ∷ vs) h =
    (λ le. ground arith, pattern_at_most_sound bound byte vs (ground arith))

nearest_of_test :
    (byte : ℕ) (r : Outcome AddrMap)
    → elim r [
      | ok m ↦ leb m.inst.bit_pattern byte && pattern_at_most m.inst.bit_pattern byte instr_list
      | err e ↦ false
      | crash ↦ false
    ]
      ≡ true
    → DecodesToNearest byte r
nearest_of_test byte (ok m) h =
    (ground arith, pattern_at_most_sound m.inst.bit_pattern byte instr_list (ground arith))
nearest_of_test byte (err e) h = absurd (cc h)
nearest_of_test byte crash h = absurd (cc h)

-- Every byte below 256 decodes, and to an instruction whose bit pattern is the largest of the table's that does
-- not exceed the byte.
pub riproll-Nearest : (byte : ℕ) → byte < 256 → DecodesToNearest byte (riproll byte)
unfolding nearest_test
riproll-Nearest byte h =
    nearest_of_test byte (riproll byte) (holds_below_at 256 nearest_test byte nearest_table h)

-- The byte that `opcode` gives for a decoded instruction; the addressing mode counts if it has one.
abbrev pub encode : AddrMap → Outcome ℕ
encode m = elim m.addr [
  | AddressingMode.none ↦ opcode m.inst.mnemonic
  | mode ↦ opcode_with m.inst.mnemonic mode
]

abbrev is_byte : ℕ → Outcome ℕ → Bool
is_byte byte (ok b) = b == byte
is_byte byte (err e) = false
is_byte byte crash = false

abbrev is_answer : Bool → Outcome Bool → Bool
is_answer b (ok true) = b
is_answer b (ok false) = not b
is_answer b (err e) = false
is_answer b crash = false

abbrev is_crash : Outcome Bool → Bool
is_crash (ok b) = false
is_crash (err e) = false
is_crash crash = true

abbrev is_valid : AddressingMode → Bool
is_valid AddressingMode.invalid = false
is_valid _ = true

abbrev encodes_back : ℕ → Outcome AddrMap → Bool
encodes_back byte (ok m) = if is_valid m.addr then is_byte byte (encode m) else true
encodes_back byte (err e) = false
encodes_back byte crash = false

encode_test : ℕ → Bool
encode_test byte = encodes_back byte (riproll byte)

encode_table : holds_below 256 encode_test ≡ true
unfolding holds_below encode_test riproll opcode opcode_with
encode_table = refl

is_byte_sound : (byte : ℕ) (r : Outcome ℕ) → is_byte byte r ≡ true → r ≡ ok byte
is_byte_sound byte (ok b) h = ground arith
is_byte_sound byte (err e) h = absurd (cc h)
is_byte_sound byte crash h = absurd (cc h)

is_valid_complete : (mode : AddressingMode) → mode ≢ AddressingMode.invalid → is_valid mode ≡ true
is_valid_complete AddressingMode.invalid h = absurd (h refl)
is_valid_complete _ h = refl

encode_of_test :
    (byte : ℕ) (m : AddrMap)
    → encode_test byte ≡ true
    → riproll byte ≡ ok m
    → is_valid m.addr ≡ true
    → is_byte byte (encode m) ≡ true
unfolding encode_test
encode_of_test byte m h e v =
    let t = subst (λ r. encodes_back byte r ≡ true) e h in
    subst (λ b. (if b then is_byte byte (encode m) else true) ≡ true) v t

-- A byte below 256 that decodes to an instruction whose addressing mode is legal is what the
-- instruction encodes to.
pub opcode-riproll :
    (byte : ℕ) (m : AddrMap)
    → byte < 256
    → riproll byte ≡ ok m
    → m.addr ≢ AddressingMode.invalid
    → encode m ≡ ok byte
opcode-riproll byte m h e v = is_byte_sound byte (encode m) (
    encode_of_test byte m (holds_below_at 256 encode_test byte encode_table h) e
      (is_valid_complete m.addr v))

-- How the row's `is_unary` and the addressing class compare, byte by byte.
unary_test : ℕ → Bool
unary_test byte =
    if leb 0x30 byte && leb byte 0x37
    then is_answer true (is_opcode_unary_byte byte) && is_answer false (is_mnemonic_unary_byte byte)
    else if leb 0x09 byte && leb byte 0x0f
    then is_answer true (is_opcode_unary_byte byte) && is_crash (is_mnemonic_unary_byte byte)
    else (is_answer true (is_opcode_unary_byte byte)
        && is_answer true (is_mnemonic_unary_byte byte))
      || (is_answer false (is_opcode_unary_byte byte)
          && is_answer false (is_mnemonic_unary_byte byte))

unary_table : holds_below 256 unary_test ≡ true
unfolding holds_below unary_test is_opcode_unary_byte is_mnemonic_unary_byte
unary_table = refl

is_answer_sound : (b : Bool) (r : Outcome Bool) → is_answer b r ≡ true → r ≡ ok b
is_answer_sound true (ok true) h = refl
is_answer_sound true (ok false) h = absurd (cc h)
is_answer_sound false (ok true) h = absurd (cc h)
is_answer_sound false (ok false) h = refl
is_answer_sound b (err e) h = absurd (cc h)
is_answer_sound b crash h = absurd (cc h)

-- The bytes of SCALL are unary by their row and not by their class. At every other byte outside
-- 0x09 to 0x0f, where the class has no answer, the two agree.
is_opcode_unary_lem :
    (byte : ℕ)
    → byte < 256
    → (byte < 0x09) ⊎ (0x0f < byte)
    → ((0x30 ≤ byte)
        × (byte ≤ 0x37)
        × (is_opcode_unary_byte byte ≡ ok true)
        × (is_mnemonic_unary_byte byte ≡ ok false))
      ⊎ ((byte < 0x30) ⊎ (0x37 < byte)) × (is_opcode_unary_byte byte ≡ is_mnemonic_unary_byte byte)
unfolding unary_test
is_opcode_unary_lem byte h k = ground (
  arith,
  holds_below_at 256 unary_test byte unary_table h,
  is_answer_sound true (is_opcode_unary_byte byte),
  is_answer_sound false (is_opcode_unary_byte byte),
  is_answer_sound true (is_mnemonic_unary_byte byte),
  is_answer_sound false (is_mnemonic_unary_byte byte),
)
