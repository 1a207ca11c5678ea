-- ===== src/Pep9/InstrList.antt =====
-- src/libisa/isa/pep9/pep9.hpp and pep9.cpp: the rows of the Pep/9 instruction set, in the order of the source.
-- `comment` is left out: it is empty in every row. The addressing modes and classes have the names that they
-- have for Pep/10.
use libsim.Prelude.{ℕ, Bool, true, false, List, [], ◌∷◌}
use libsim.Pep10.Types.{AddressingClass, AddressingMode}

pub data Mnemonic : Type 0 where
  stop ret rettr movspa movflga movaflg nota notx nega negx asla aslx asra asrx rola rolx rora rorx
        br brle brlt breq brne brge brgt brv brc call nop0 nop1 nop deci deco hexo stro addsp subsp
        adda addx suba subx anda andx ora orx cpwa cpwx cpba cpbx ldwa ldwx ldba ldbx stwa stwx stba
        stbx :
      Mnemonic

unfoldable pub mnemonic_number : Mnemonic → ℕ
mnemonic_number stop = 0
mnemonic_number ret = 1
mnemonic_number rettr = 2
mnemonic_number movspa = 3
mnemonic_number movflga = 4
mnemonic_number movaflg = 5
mnemonic_number nota = 6
mnemonic_number notx = 7
mnemonic_number nega = 8
mnemonic_number negx = 9
mnemonic_number asla = 10
mnemonic_number aslx = 11
mnemonic_number asra = 12
mnemonic_number asrx = 13
mnemonic_number rola = 14
mnemonic_number rolx = 15
mnemonic_number rora = 16
mnemonic_number rorx = 17
mnemonic_number br = 18
mnemonic_number brle = 19
mnemonic_number brlt = 20
mnemonic_number breq = 21
mnemonic_number brne = 22
mnemonic_number brge = 23
mnemonic_number brgt = 24
mnemonic_number brv = 25
mnemonic_number brc = 26
mnemonic_number call = 27
mnemonic_number nop0 = 28
mnemonic_number nop1 = 29
mnemonic_number nop = 30
mnemonic_number deci = 31
mnemonic_number deco = 32
mnemonic_number hexo = 33
mnemonic_number stro = 34
mnemonic_number addsp = 35
mnemonic_number subsp = 36
mnemonic_number adda = 37
mnemonic_number addx = 38
mnemonic_number suba = 39
mnemonic_number subx = 40
mnemonic_number anda = 41
mnemonic_number andx = 42
mnemonic_number ora = 43
mnemonic_number orx = 44
mnemonic_number cpwa = 45
mnemonic_number cpwx = 46
mnemonic_number cpba = 47
mnemonic_number cpbx = 48
mnemonic_number ldwa = 49
mnemonic_number ldwx = 50
mnemonic_number ldba = 51
mnemonic_number ldbx = 52
mnemonic_number stwa = 53
mnemonic_number stwx = 54
mnemonic_number stba = 55
mnemonic_number stbx = 56

pub record InstructionDefinition : Type 0 where
  pub bit_pattern : ℕ
  pub iformat : AddressingClass
  pub csr_modified : List Bool
  pub mnemonic : Mnemonic
  pub is_unary : Bool

pub record AddrMap : Type 0 where
  pub inst : InstructionDefinition
  pub addr : AddressingMode

abbrev instr :
    ℕ → AddressingClass → Bool → Bool → Bool → Bool → Mnemonic → Bool → InstructionDefinition
instr pattern format sets_n sets_z sets_v sets_c name unary = record {
  bit_pattern = pattern;
  iformat = format;
  csr_modified = sets_n ∷ sets_z ∷ sets_v ∷ sets_c ∷ [];
  mnemonic = name;
  is_unary = unary;
}

unfoldable pub instr_list : List InstructionDefinition
instr_list =
    instr 0x00 AddressingClass.u_none false false false false stop true
    ∷ instr 0x01 AddressingClass.u_none false false false false ret true
    ∷ instr 0x02 AddressingClass.u_none false false false false rettr true
    ∷ instr 0x03 AddressingClass.u_none false false false false movspa true
    ∷ instr 0x04 AddressingClass.u_none false false false false movflga true
    ∷ instr 0x05 AddressingClass.u_none true true true true movaflg true
    ∷ instr 0x06 AddressingClass.r_none true true false false nota true
    ∷ instr 0x07 AddressingClass.r_none true true false false notx true
    ∷ instr 0x08 AddressingClass.r_none true true true false nega true
    ∷ instr 0x09 AddressingClass.r_none true true true false negx true
    ∷ instr 0x0a AddressingClass.r_none true true true true asla true
    ∷ instr 0x0b AddressingClass.r_none true true true true aslx true
    ∷ instr 0x0c AddressingClass.r_none true true false true asra true
    ∷ instr 0x0d AddressingClass.r_none true true false true asrx true
    ∷ instr 0x0e AddressingClass.r_none false false false true rola true
    ∷ instr 0x0f AddressingClass.r_none false false false true rolx true
    ∷ instr 0x10 AddressingClass.r_none false false false true rora true
    ∷ instr 0x11 AddressingClass.r_none false false false true rorx true
    ∷ instr 0x12 AddressingClass.a_ix false false false false br false
    ∷ instr 0x14 AddressingClass.a_ix false false false false brle false
    ∷ instr 0x16 AddressingClass.a_ix false false false false brlt false
    ∷ instr 0x18 AddressingClass.a_ix false false false false breq false
    ∷ instr 0x1a AddressingClass.a_ix false false false false brne false
    ∷ instr 0x1c AddressingClass.a_ix false false false false brge false
    ∷ instr 0x1e AddressingClass.a_ix false false false false brgt false
    ∷ instr 0x20 AddressingClass.a_ix false false false false brv false
    ∷ instr 0x22 AddressingClass.a_ix false false false false brc false
    ∷ instr 0x24 AddressingClass.a_ix false false false false call false
    ∷ instr 0x26 AddressingClass.u_none false false false false nop0 true
    ∷ instr 0x27 AddressingClass.u_none false false false false nop1 true
    ∷ instr 0x28 AddressingClass.aaa_all false false false false nop true
    ∷ instr 0x30 AddressingClass.aaa_all true true true false deci true
    ∷ instr 0x38 AddressingClass.aaa_all false false false false deco true
    ∷ instr 0x40 AddressingClass.aaa_all false false false false hexo true
    ∷ instr 0x48 AddressingClass.aaa_all false false false false stro true
    ∷ instr 0x50 AddressingClass.aaa_all true true true true addsp false
    ∷ instr 0x58 AddressingClass.aaa_all true true true true subsp false
    ∷ instr 0x60 AddressingClass.raaa_all true true true true adda false
    ∷ instr 0x68 AddressingClass.raaa_all true true true true addx false
    ∷ instr 0x70 AddressingClass.raaa_all true true true true suba false
    ∷ instr 0x78 AddressingClass.raaa_all true true true true subx false
    ∷ instr 0x80 AddressingClass.raaa_all true true false false anda false
    ∷ instr 0x88 AddressingClass.raaa_all true true false false andx false
    ∷ instr 0x90 AddressingClass.raaa_all true true false false ora false
    ∷ instr 0x98 AddressingClass.raaa_all true true false false orx false
    ∷ instr 0xa0 AddressingClass.raaa_all true true true true cpwa false
    ∷ instr 0xa8 AddressingClass.raaa_all true true true true cpwx false
    ∷ instr 0xb0 AddressingClass.raaa_all true true true true cpba false
    ∷ instr 0xb8 AddressingClass.raaa_all true true true true cpbx false
    ∷ instr 0xc0 AddressingClass.raaa_all true true false false ldwa false
    ∷ instr 0xc8 AddressingClass.raaa_all true true false false ldwx false
    ∷ instr 0xd0 AddressingClass.raaa_all true true false false ldba false
    ∷ instr 0xd8 AddressingClass.raaa_all true true false false ldbx false
    ∷ instr 0xe0 AddressingClass.raaa_noi false false false false stwa false
    ∷ instr 0xe8 AddressingClass.raaa_noi false false false false stwx false
    ∷ instr 0xf0 AddressingClass.raaa_noi false false false false stba false
    ∷ instr 0xf8 AddressingClass.raaa_noi false false false false stbx false
    ∷ []
