-- ===== src/Pep10/Types.antt =====
-- src/libisa/isa/pep10/pep10.hpp: the enumerations, in the order of the source.
use libsim.Prelude.{ℕ}

pub data Mnemonic : Type 0 where
  ret sret movspa movasp movflga movaflg movta uscall nop unimpl nota notx nega negx asla aslx asra
        asrx rola rolx rora rorx br brle brlt breq brne brge brgt brv brc call scall ldwt ldwa ldwx
        ldba ldbx stwa stwx stba stbx cpwa cpwx cpba cpbx adda addx suba subx anda andx ora orx xora
        xorx addsp subsp :
      Mnemonic

pub data Register : Type 0 where
  a x sp pc is os tr : Register

-- `ALL`, which no code that is modelled uses, is left out.
pub data AddressingMode : Type 0 where
  none i d n s sf x sx sfx invalid : AddressingMode

pub data AddressingClass : Type 0 where
  invalid u_none r_none a_ix aaa_all aaa_i raaa_all raaa_noi : AddressingClass

pub data MemoryVector : Type 0 where
  user_stack system_stack power_off_port dispatcher loader trap_handler : MemoryVector

pub data Csr : Type 0 where
  n z v c : Csr

-- The values of the enumerators.
unfoldable pub register_number : Register → ℕ
register_number Register.a = 0
register_number Register.x = 1
register_number Register.sp = 2
register_number Register.pc = 3
register_number Register.is = 4
register_number Register.os = 5
register_number Register.tr = 6

unfoldable pub csr_number : Csr → ℕ
csr_number Csr.n = 0
csr_number Csr.z = 1
csr_number Csr.v = 2
csr_number Csr.c = 3

unfoldable pub mnemonic_number : Mnemonic → ℕ
mnemonic_number ret = 0
mnemonic_number sret = 1
mnemonic_number movspa = 2
mnemonic_number movasp = 3
mnemonic_number movflga = 4
mnemonic_number movaflg = 5
mnemonic_number movta = 6
mnemonic_number uscall = 7
mnemonic_number nop = 8
mnemonic_number unimpl = 9
mnemonic_number nota = 10
mnemonic_number notx = 11
mnemonic_number nega = 12
mnemonic_number negx = 13
mnemonic_number asla = 14
mnemonic_number aslx = 15
mnemonic_number asra = 16
mnemonic_number asrx = 17
mnemonic_number rola = 18
mnemonic_number rolx = 19
mnemonic_number rora = 20
mnemonic_number rorx = 21
mnemonic_number br = 22
mnemonic_number brle = 23
mnemonic_number brlt = 24
mnemonic_number breq = 25
mnemonic_number brne = 26
mnemonic_number brge = 27
mnemonic_number brgt = 28
mnemonic_number brv = 29
mnemonic_number brc = 30
mnemonic_number call = 31
mnemonic_number scall = 32
mnemonic_number ldwt = 33
mnemonic_number ldwa = 34
mnemonic_number ldwx = 35
mnemonic_number ldba = 36
mnemonic_number ldbx = 37
mnemonic_number stwa = 38
mnemonic_number stwx = 39
mnemonic_number stba = 40
mnemonic_number stbx = 41
mnemonic_number cpwa = 42
mnemonic_number cpwx = 43
mnemonic_number cpba = 44
mnemonic_number cpbx = 45
mnemonic_number adda = 46
mnemonic_number addx = 47
mnemonic_number suba = 48
mnemonic_number subx = 49
mnemonic_number anda = 50
mnemonic_number andx = 51
mnemonic_number ora = 52
mnemonic_number orx = 53
mnemonic_number xora = 54
mnemonic_number xorx = 55
mnemonic_number addsp = 56
mnemonic_number subsp = 57
