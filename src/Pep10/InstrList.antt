-- ===== src/Pep10/InstrList.antt =====
-- src/libisa/isa/pep10/pep10.hpp and pep10.cpp: the rows of the instruction set. `comment` is left out: it is
-- empty in every row.
use libsim.Prelude.{ℕ, Bool, true, false, List, [], ◌∷◌}
use libsim.Pep10.Types.{Mnemonic, AddressingClass, AddressingMode}
use libsim.Pep10.Types.{
  ret, sret, movspa, movasp, movflga, movaflg, movta, uscall, nop, unimpl, nota, notx, nega, negx,
  asla, aslx, asra, asrx, rola, rolx, rora, rorx, br, brle, brlt, breq, brne, brge, brgt, brv, brc,
  call, scall, ldwt, ldwa, ldwx, ldba, ldbx, stwa, stwx, stba, stbx, cpwa, cpwx, cpba, cpbx, adda,
  addx, suba, subx, anda, andx, ora, orx, xora, xorx, addsp, subsp,
}

pub record InstructionDefinition : Type 0 where
  pub bit_pattern : ℕ
  pub iformat : AddressingClass
  pub csr_modified : List Bool
  pub mnemonic : Mnemonic
  pub is_unary : Bool

pub record AddrMap : Type 0 where
  pub inst : InstructionDefinition
  pub addr : AddressingMode

abbrev pub instr :
    ℕ → AddressingClass → Bool → Bool → Bool → Bool → Mnemonic → Bool → InstructionDefinition
instr pattern format sets_n sets_z sets_v sets_c name unary = record {
  bit_pattern = pattern;
  iformat = format;
  csr_modified = sets_n ∷ sets_z ∷ sets_v ∷ sets_c ∷ [];
  mnemonic = name;
  is_unary = unary;
}

unfoldable pub instr_list : List InstructionDefinition
instr_list =
    instr 0x00 AddressingClass.u_none false false false false ret true
    ∷ instr 0x01 AddressingClass.u_none false false false false sret true
    ∷ instr 0x02 AddressingClass.u_none false false false false movspa true
    ∷ instr 0x03 AddressingClass.u_none false false false false movasp true
    ∷ instr 0x04 AddressingClass.u_none false false false false movflga true
    ∷ instr 0x05 AddressingClass.u_none true true true true movaflg true
    ∷ instr 0x06 AddressingClass.u_none false false false false movta true
    ∷ instr 0x07 AddressingClass.u_none false false false false uscall true
    ∷ instr 0x08 AddressingClass.u_none false false false false nop true
    ∷ instr 0x09 AddressingClass.invalid false false false false unimpl true
    ∷ instr 0x10 AddressingClass.r_none true true false false nota true
    ∷ instr 0x11 AddressingClass.r_none true true false false notx true
    ∷ instr 0x12 AddressingClass.r_none true true true false nega true
    ∷ instr 0x13 AddressingClass.r_none true true true false negx true
    ∷ instr 0x14 AddressingClass.r_none true true true true asla true
    ∷ instr 0x15 AddressingClass.r_none true true true true aslx true
    ∷ instr 0x16 AddressingClass.r_none true true false true asra true
    ∷ instr 0x17 AddressingClass.r_none true true false true asrx true
    ∷ instr 0x18 AddressingClass.r_none false false false true rola true
    ∷ instr 0x19 AddressingClass.r_none false false false true rolx true
    ∷ instr 0x1a AddressingClass.r_none false false false true rora true
    ∷ instr 0x1b AddressingClass.r_none false false false true rorx true
    ∷ instr 0x1c AddressingClass.a_ix false false false false br false
    ∷ instr 0x1e AddressingClass.a_ix false false false false brle false
    ∷ instr 0x20 AddressingClass.a_ix false false false false brlt false
    ∷ instr 0x22 AddressingClass.a_ix false false false false breq false
    ∷ instr 0x24 AddressingClass.a_ix false false false false brne false
    ∷ instr 0x26 AddressingClass.a_ix false false false false brge false
    ∷ instr 0x28 AddressingClass.a_ix false false false false brgt false
    ∷ instr 0x2a AddressingClass.a_ix false false false false brv false
    ∷ instr 0x2c AddressingClass.a_ix false false false false brc false
    ∷ instr 0x2e AddressingClass.a_ix false false false false call false
    ∷ instr 0x30 AddressingClass.aaa_all false false false false scall true
    ∷ instr 0x38 AddressingClass.aaa_i false false false false ldwt false
    ∷ instr 0x40 AddressingClass.raaa_all true true false false ldwa false
    ∷ instr 0x48 AddressingClass.raaa_all true true false false ldwx false
    ∷ instr 0x50 AddressingClass.raaa_all true true false false ldba false
    ∷ instr 0x58 AddressingClass.raaa_all true true false false ldbx false
    ∷ instr 0x60 AddressingClass.raaa_noi false false false false stwa false
    ∷ instr 0x68 AddressingClass.raaa_noi false false false false stwx false
    ∷ instr 0x70 AddressingClass.raaa_noi false false false false stba false
    ∷ instr 0x78 AddressingClass.raaa_noi false false false false stbx false
    ∷ instr 0x80 AddressingClass.raaa_all true true true true cpwa false
    ∷ instr 0x88 AddressingClass.raaa_all true true true true cpwx false
    ∷ instr 0x90 AddressingClass.raaa_all true true true true cpba false
    ∷ instr 0x98 AddressingClass.raaa_all true true true true cpbx false
    ∷ instr 0xa0 AddressingClass.raaa_all true true true true adda false
    ∷ instr 0xa8 AddressingClass.raaa_all true true true true addx false
    ∷ instr 0xb0 AddressingClass.raaa_all true true true true suba false
    ∷ instr 0xb8 AddressingClass.raaa_all true true true true subx false
    ∷ instr 0xc0 AddressingClass.raaa_all true true false false anda false
    ∷ instr 0xc8 AddressingClass.raaa_all true true false false andx false
    ∷ instr 0xd0 AddressingClass.raaa_all true true false false ora false
    ∷ instr 0xd8 AddressingClass.raaa_all true true false false orx false
    ∷ instr 0xe0 AddressingClass.raaa_all true true false false xora false
    ∷ instr 0xe8 AddressingClass.raaa_all true true false false xorx false
    ∷ instr 0xf0 AddressingClass.aaa_all true true true true addsp false
    ∷ instr 0xf8 AddressingClass.aaa_all true true true true subsp false
    ∷ []
