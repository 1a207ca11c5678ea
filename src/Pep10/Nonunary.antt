-- ===== src/Pep10/Nonunary.antt =====
-- src/libisa/isa/pep10/local_processor.tpp: `nonunary_dispatch`.
use libsim.Prelude.{ℕ, ◌+◌, Bool, true, false, not, bit_and, bit_or, bit_xor, sub16, if◌then◌else◌}
use libsim.Prelude.Exec.{
  Exec, ◌>>=◌, ◌>>◌, pure, raise, lift, when, processor, illegal_nonunary_instruction,
  illegal_addressing_mode,
}
use libsim.Storage.Device.{Device}
use libsim.Pep10.Types.{Mnemonic, AddressingMode, Csr, Register}
use libsim.Pep10.Types.{
  br, brle, brlt, breq, brne, brge, brgt, brv, brc, call, ldwt, ldwa, ldwx, ldba, ldbx, stwa, stwx,
  stba, stbx, cpwa, cpwx, cpba, cpbx, adda, addx, suba, subx, anda, andx, ora, orx, xora, xorx,
  addsp, subsp,
}
use libsim.Pep10.Isa.{riproll, is_store}
use libsim.Pep10.State.{Machine}
use libsim.Pep10.Access.{read_register, write_register, read_nzvc, write_byte, write_word}
use libsim.Pep10.Operand.{decode_load_operand, decode_store_operand}
use libsim.Pep10.Unary.{enter_call}
use libsim.Pep10.Alu.{
  exec_add, exec_sub, exec_bitwise, exec_compare_word, exec_compare_byte, exec_load_word,
  exec_load_byte,
}

module _ {M H : Type 0} ⦃dev : Device M H ℕ⦄ where
  unfoldable pub branch_if : Bool → ℕ → Exec (Machine M H) (Unit {0})
  unfolding write_register
  branch_if taken target = when taken (write_register Register.pc target)

  -- `N || Z` and `!N && !Z`: Z is read only if N does not decide.
  unfoldable pub exec_branch : Mnemonic → ℕ → Exec (Machine M H) (Unit {0})
  unfolding branch_if read_nzvc
  exec_branch brle target = do
    n ← read_nzvc Csr.n
    taken ← if n then pure true else read_nzvc Csr.z
    branch_if taken target
  exec_branch brlt target = do n ← read_nzvc Csr.n; branch_if n target
  exec_branch breq target = do z ← read_nzvc Csr.z; branch_if z target
  exec_branch brne target = do z ← read_nzvc Csr.z; branch_if (not z) target
  exec_branch brge target = do n ← read_nzvc Csr.n; branch_if (not n) target
  exec_branch brgt target = do
    n ← read_nzvc Csr.n
    taken ← if not n then (do z ← read_nzvc Csr.z; pure (not z)) else pure false
    branch_if taken target
  exec_branch brv target = do v ← read_nzvc Csr.v; branch_if v target
  exec_branch brc target = do c ← read_nzvc Csr.c; branch_if c target
  exec_branch _ target = branch_if true target

  unfoldable pub exec_call : ℕ → ℕ → Exec (Machine M H) (Unit {0})
  unfolding read_register write_register write_word enter_call
  exec_call sp target = do
    pc ← read_register Register.pc
    write_word (sub16 sp 2) pc
    write_register Register.pc target
    write_register Register.sp (sub16 sp 2)
    enter_call

  unfoldable pub exec_ldwt : AddressingMode → ℕ → Exec (Machine M H) (Unit {0})
  unfolding write_register
  exec_ldwt AddressingMode.i operand = write_register Register.tr operand
  exec_ldwt mode operand = raise (processor illegal_addressing_mode)

  unfoldable pub exec_store_word : Register → ℕ → Exec (Machine M H) (Unit {0})
  unfolding read_register write_word
  exec_store_word reg target = do word ← read_register reg; write_word target word

  unfoldable pub exec_store_byte : Register → ℕ → Exec (Machine M H) (Unit {0})
  unfolding read_register write_byte
  exec_store_byte reg target = do word ← read_register reg; write_byte target word

  -- The `switch`, on the mnemonic, the mode, the decoded operand, and the registers SP, A and X.
  unfoldable pub exec_nonunary :
      Mnemonic → AddressingMode → ℕ → ℕ → ℕ → ℕ → Exec (Machine M H) (Unit {0})
  unfolding exec_branch exec_call exec_ldwt exec_store_word exec_store_byte exec_add exec_sub
      exec_bitwise exec_compare_word exec_compare_byte exec_load_word exec_load_byte write_register
  exec_nonunary br mode operand sp acc idx = exec_branch br operand
  exec_nonunary brle mode operand sp acc idx = exec_branch brle operand
  exec_nonunary brlt mode operand sp acc idx = exec_branch brlt operand
  exec_nonunary breq mode operand sp acc idx = exec_branch breq operand
  exec_nonunary brne mode operand sp acc idx = exec_branch brne operand
  exec_nonunary brge mode operand sp acc idx = exec_branch brge operand
  exec_nonunary brgt mode operand sp acc idx = exec_branch brgt operand
  exec_nonunary brv mode operand sp acc idx = exec_branch brv operand
  exec_nonunary brc mode operand sp acc idx = exec_branch brc operand
  exec_nonunary call mode operand sp acc idx = exec_call sp operand
  exec_nonunary addsp mode operand sp acc idx = write_register Register.sp (sp + operand)
  exec_nonunary subsp mode operand sp acc idx = write_register Register.sp (sub16 sp operand)
  exec_nonunary adda mode operand sp acc idx = exec_add Register.a acc operand
  exec_nonunary addx mode operand sp acc idx = exec_add Register.x idx operand
  exec_nonunary suba mode operand sp acc idx = exec_sub Register.a acc operand
  exec_nonunary subx mode operand sp acc idx = exec_sub Register.x idx operand
  exec_nonunary anda mode operand sp acc idx = exec_bitwise bit_and Register.a acc operand
  exec_nonunary andx mode operand sp acc idx = exec_bitwise bit_and Register.x idx operand
  exec_nonunary ora mode operand sp acc idx = exec_bitwise bit_or Register.a acc operand
  exec_nonunary orx mode operand sp acc idx = exec_bitwise bit_or Register.x idx operand
  exec_nonunary xora mode operand sp acc idx = exec_bitwise bit_xor Register.a acc operand
  exec_nonunary xorx mode operand sp acc idx = exec_bitwise bit_xor Register.x idx operand
  exec_nonunary cpwa mode operand sp acc idx = exec_compare_word acc operand
  exec_nonunary cpwx mode operand sp acc idx = exec_compare_word idx operand
  exec_nonunary cpba mode operand sp acc idx = exec_compare_byte acc operand
  exec_nonunary cpbx mode operand sp acc idx = exec_compare_byte idx operand
  exec_nonunary ldwt mode operand sp acc idx = exec_ldwt mode operand
  exec_nonunary ldwa mode operand sp acc idx = exec_load_word Register.a operand
  exec_nonunary ldwx mode operand sp acc idx = exec_load_word Register.x operand
  exec_nonunary ldba mode operand sp acc idx = exec_load_byte Register.a operand
  exec_nonunary ldbx mode operand sp acc idx = exec_load_byte Register.x operand
  exec_nonunary stwa mode operand sp acc idx = exec_store_word Register.a operand
  exec_nonunary stwx mode operand sp acc idx = exec_store_word Register.x operand
  exec_nonunary stba mode operand sp acc idx = exec_store_byte Register.a operand
  exec_nonunary stbx mode operand sp acc idx = exec_store_byte Register.x operand
  exec_nonunary _ mode operand sp acc idx = raise (processor illegal_nonunary_instruction)

  unfoldable pub decode_operand : Mnemonic → AddressingMode → ℕ → Exec (Machine M H) ℕ
  unfolding is_store decode_store_operand decode_load_operand
  decode_operand name mode os =
      if is_store name then decode_store_operand mode os else decode_load_operand name mode os

  unfoldable pub nonunary_dispatch : ℕ → ℕ → Exec (Machine M H) (Unit {0})
  unfolding decode_operand exec_nonunary
  nonunary_dispatch is os = do
    m ← lift (riproll is)
    sp ← read_register Register.sp
    acc ← read_register Register.a
    idx ← read_register Register.x
    operand ← decode_operand m.inst.mnemonic m.addr os
    exec_nonunary m.inst.mnemonic m.addr operand sp acc idx
