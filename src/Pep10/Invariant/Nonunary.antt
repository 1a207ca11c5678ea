-- ===== src/Pep10/Invariant/Nonunary.antt =====
-- src/libisa/isa/pep10/local_processor.tpp: the nonunary instructions keep what the accesses keep.
use libsim.Prelude.{ℕ, Bool}
use libsim.Prelude.Exec.{Exec}
use libsim.Prelude.Keeps.{Keeps}
use libsim.Storage.Device.{Device}
use libsim.Pep10.Types.{Mnemonic, AddressingMode, Register, brle, adda}
use libsim.Pep10.State.{Machine}
use libsim.Pep10.Operand.{load_at, decode_load_operand, decode_store_operand}
use libsim.Pep10.Alu.{
  exec_add, exec_sub, exec_bitwise, exec_compare_word, exec_compare_byte, exec_load_word,
  exec_load_byte,
}
use libsim.Pep10.Nonunary.{
  branch_if, exec_branch, exec_call, exec_ldwt, exec_store_word, exec_store_byte, exec_nonunary,
  decode_operand, nonunary_dispatch,
}
use libsim.Pep10.Invariant.{Accesses}
use libsim.Pep10.Invariant.Unary.{part_rules}

module _ {M H : Type 0} ⦃dev : Device M H ℕ⦄ {P : Machine M H → Type 0} (kept : Accesses P) where
  pub exec_add-Keeps : (reg : Register) (word operand : ℕ) → Keeps P (exec_add reg word operand)
  unfolding exec_add
  exec_add-Keeps reg word operand = search part_rules depth 12

  pub exec_sub-Keeps : (reg : Register) (word operand : ℕ) → Keeps P (exec_sub reg word operand)
  unfolding exec_sub
  exec_sub-Keeps reg word operand = search part_rules depth 12

  pub exec_bitwise-Keeps :
      (op : ℕ → ℕ → ℕ) (reg : Register) (word operand : ℕ)
      → Keeps P (exec_bitwise op reg word operand)
  unfolding exec_bitwise
  exec_bitwise-Keeps op reg word operand = search part_rules depth 8

  pub exec_compare_word-Keeps : (word operand : ℕ) → Keeps P (exec_compare_word word operand)
  unfolding exec_compare_word
  exec_compare_word-Keeps word operand = search part_rules depth 12

  pub exec_compare_byte-Keeps : (word operand : ℕ) → Keeps P (exec_compare_byte word operand)
  unfolding exec_compare_byte
  exec_compare_byte-Keeps word operand = search part_rules depth 12

  pub exec_load_word-Keeps : (reg : Register) (operand : ℕ) → Keeps P (exec_load_word reg operand)
  unfolding exec_load_word
  exec_load_word-Keeps reg operand = search part_rules depth 8

  pub exec_load_byte-Keeps : (reg : Register) (operand : ℕ) → Keeps P (exec_load_byte reg operand)
  unfolding exec_load_byte
  exec_load_byte-Keeps reg operand = search part_rules depth 8

  pub branch_if-Keeps : (taken : Bool) (target : ℕ) → Keeps P (branch_if taken target)
  unfolding branch_if
  branch_if-Keeps taken target = search part_rules depth 8

  pub exec_call-Keeps : (sp target : ℕ) → Keeps P (exec_call sp target)
  unfolding exec_call
  exec_call-Keeps sp target = search part_rules depth 16

  pub exec_ldwt-Keeps : (mode : AddressingMode) (operand : ℕ) → Keeps P (exec_ldwt mode operand)
  unfolding exec_ldwt
  exec_ldwt-Keeps AddressingMode.i operand = search part_rules
  exec_ldwt-Keeps _ operand = search part_rules

  pub exec_store_word-Keeps : (reg : Register) (target : ℕ) → Keeps P (exec_store_word reg target)
  unfolding exec_store_word
  exec_store_word-Keeps reg target = search part_rules depth 8

  pub exec_store_byte-Keeps : (reg : Register) (target : ℕ) → Keeps P (exec_store_byte reg target)
  unfolding exec_store_byte
  exec_store_byte-Keeps reg target = search part_rules depth 8

  pub load_at-Keeps :
      (load : ℕ → Exec (Machine M H) ℕ) (mode : AddressingMode) (addr : ℕ)
      → ((address : ℕ) → Keeps P (load address))
      → Keeps P (load_at load mode addr)
  unfolding load_at
  load_at-Keeps load AddressingMode.d addr k = search part_rules
  load_at-Keeps load _ addr k = search part_rules depth 8

  decode_store_operand-Keeps :
      (mode : AddressingMode) (addr : ℕ) → Keeps P (decode_store_operand mode addr)
  unfolding decode_store_operand
  decode_store_operand-Keeps AddressingMode.d addr = search part_rules
  decode_store_operand-Keeps _ addr = search part_rules depth 8

ruleset nonunary_rules = (
  part_rules, exec_add-Keeps, exec_sub-Keeps, exec_bitwise-Keeps, exec_compare_word-Keeps,
  exec_compare_byte-Keeps, exec_load_word-Keeps, exec_load_byte-Keeps, branch_if-Keeps,
  exec_call-Keeps, exec_ldwt-Keeps, exec_store_word-Keeps, exec_store_byte-Keeps,
)

module _ {M H : Type 0} ⦃dev : Device M H ℕ⦄ {P : Machine M H → Type 0} (kept : Accesses P) where
  decode_load_operand-Keeps :
      (name : Mnemonic) (mode : AddressingMode) (addr : ℕ)
      → Keeps P (decode_load_operand name mode addr)
  unfolding decode_load_operand
  decode_load_operand-Keeps name AddressingMode.i addr = search part_rules
  decode_load_operand-Keeps name _ addr = search (part_rules, load_at-Keeps) depth 8

  exec_branch-Keeps : (name : Mnemonic) (target : ℕ) → Keeps P (exec_branch name target)
  unfolding exec_branch
  exec_branch-Keeps brle target = search nonunary_rules depth 8
  exec_branch-Keeps _ target = search nonunary_rules depth 8

  pub exec_nonunary-Keeps :
      (name : Mnemonic) (mode : AddressingMode) (operand sp acc idx : ℕ)
      → Keeps P (exec_nonunary name mode operand sp acc idx)
  unfolding exec_nonunary
  exec_nonunary-Keeps adda mode operand sp acc idx =
      search (nonunary_rules, exec_branch-Keeps) depth 12
  exec_nonunary-Keeps _ mode operand sp acc idx =
      search (nonunary_rules, exec_branch-Keeps) depth 12

  pub decode_operand-Keeps :
      (name : Mnemonic) (mode : AddressingMode) (os : ℕ) → Keeps P (decode_operand name mode os)
  unfolding decode_operand
  decode_operand-Keeps name mode os =
      search (part_rules, decode_load_operand-Keeps, decode_store_operand-Keeps)

  pub nonunary_dispatch-Keeps : (is os : ℕ) → Keeps P (nonunary_dispatch is os)
  unfolding nonunary_dispatch
  nonunary_dispatch-Keeps is os =
      search (part_rules, exec_nonunary-Keeps, decode_operand-Keeps) depth 12
