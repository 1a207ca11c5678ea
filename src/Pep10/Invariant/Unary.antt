-- ===== src/Pep10/Invariant/Unary.antt =====
-- src/libisa/isa/pep10/local_processor.tpp: the unary instructions keep what the accesses keep.
use libsim.Prelude.{ℕ}
use libsim.Prelude.Keeps.{Keeps}
use libsim.Storage.Device.{Device}
use libsim.Pep10.Types.{Mnemonic, MemoryVector, Register, ret}
use libsim.Pep10.State.{Machine}
use libsim.Pep10.Access.{read_packed_nzvc, write_packed_nzvc}
use libsim.Pep10.Unary.{
  address_from_vector, read_vector, write_nz, exec_ret, exec_sret, exec_not, exec_neg, exec_asl,
  exec_asr, exec_rol, exec_ror, exec_scall, exec_unary, unary_dispatch,
}
use libsim.Pep10.Invariant.{Accesses, access_rules}

module _ {M H : Type 0} ⦃dev : Device M H ℕ⦄ {P : Machine M H → Type 0} (kept : Accesses P) where
  pub read_packed_nzvc-Keeps : Keeps P read_packed_nzvc
  unfolding read_packed_nzvc
  read_packed_nzvc-Keeps = search access_rules

  pub write_packed_nzvc-Keeps : (packed : ℕ) → Keeps P (write_packed_nzvc packed)
  unfolding write_packed_nzvc
  write_packed_nzvc-Keeps packed = search access_rules depth 8

  pub write_nz-Keeps : (word : ℕ) → Keeps P (write_nz word)
  unfolding write_nz
  write_nz-Keeps word = search access_rules

  pub read_vector-Keeps : (vector : MemoryVector) → Keeps P (read_vector vector)
  unfolding read_vector
  read_vector-Keeps vector = record {
    at = λ s h. (kept.on_read_word (address_from_vector vector s)).at s h;
  }

pub ruleset part_rules = (
  access_rules, read_packed_nzvc-Keeps, write_packed_nzvc-Keeps, write_nz-Keeps, read_vector-Keeps,
)

module _ {M H : Type 0} ⦃dev : Device M H ℕ⦄ {P : Machine M H → Type 0} (kept : Accesses P) where
  pub exec_ret-Keeps : (sp : ℕ) → Keeps P (exec_ret sp)
  unfolding exec_ret
  exec_ret-Keeps sp = search part_rules depth 8

  pub exec_sret-Keeps : (sp : ℕ) → Keeps P (exec_sret sp)
  unfolding exec_sret
  exec_sret-Keeps sp = search part_rules depth 16

  pub exec_not-Keeps : (reg : Register) (word : ℕ) → Keeps P (exec_not reg word)
  unfolding exec_not
  exec_not-Keeps reg word = search part_rules depth 8

  pub exec_neg-Keeps : (reg : Register) (word : ℕ) → Keeps P (exec_neg reg word)
  unfolding exec_neg
  exec_neg-Keeps reg word = search part_rules depth 8

  pub exec_asl-Keeps : (reg : Register) (word : ℕ) → Keeps P (exec_asl reg word)
  unfolding exec_asl
  exec_asl-Keeps reg word = search part_rules depth 8

  pub exec_asr-Keeps : (reg : Register) (word : ℕ) → Keeps P (exec_asr reg word)
  unfolding exec_asr
  exec_asr-Keeps reg word = search part_rules depth 8

  pub exec_rol-Keeps : (reg : Register) (word : ℕ) → Keeps P (exec_rol reg word)
  unfolding exec_rol
  exec_rol-Keeps reg word = search part_rules depth 8

  pub exec_ror-Keeps : (reg : Register) (word : ℕ) → Keeps P (exec_ror reg word)
  unfolding exec_ror
  exec_ror-Keeps reg word = search part_rules depth 8

  pub exec_scall-Keeps : (is sp acc idx : ℕ) → Keeps P (exec_scall is sp acc idx)
  unfolding exec_scall
  exec_scall-Keeps is sp acc idx = search part_rules depth 40

ruleset unary_rules = (
  part_rules, exec_ret-Keeps, exec_sret-Keeps, exec_not-Keeps, exec_neg-Keeps, exec_asl-Keeps,
  exec_asr-Keeps, exec_rol-Keeps, exec_ror-Keeps, exec_scall-Keeps,
)

module _ {M H : Type 0} ⦃dev : Device M H ℕ⦄ {P : Machine M H → Type 0} (kept : Accesses P) where
  pub exec_unary-Keeps :
      (name : Mnemonic) (is sp acc idx : ℕ) → Keeps P (exec_unary name is sp acc idx)
  unfolding exec_unary
  exec_unary-Keeps ret is sp acc idx = search unary_rules depth 12
  exec_unary-Keeps _ is sp acc idx = search unary_rules depth 12

  pub unary_dispatch-Keeps : (is : ℕ) → Keeps P (unary_dispatch is)
  unfolding unary_dispatch
  unary_dispatch-Keeps is = search (part_rules, exec_unary-Keeps) depth 10
