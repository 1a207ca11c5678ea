-- ===== src/Pep10/Cycles.antt =====
-- src/libisa/isa/pep10/local_processor.tpp and local_machine.tpp: the cycle count, and the accesses.
pub mod Run
use libsim.Prelude.{ℕ, ◌+◌, ◌%◌, ◌≡◌, ◌≢◌, refl, Bool, true, false, if◌then◌else◌, u64}
use libsim.Prelude.Exec.{
  Errc, Outcome, ok, err, crash, Exec, ◌>>=◌, ◌>>◌, lift, abort, modify, on_failure, branch,
  continue,
}
use libsim.Prelude.Keeps.{Keeps, keeps_rules}
use libsim.Storage.Device.{Device}
use libsim.Pep10.State.{Machine}
use libsim.Pep10.Access.{
  in_memory, in_registers, in_csrs, read_register, write_register, read_nzvc, write_nzvc, read_byte,
  read_word, write_byte, write_word,
}
use libsim.Storage.Block
use libsim.Storage.Block.{Block}
use libsim.Pep10.Unary.{leave_call, enter_call}
use libsim.Pep10.Machine.{unwind_registers, unwind_csrs, unwind_active_instruction, save_deltas}
use libsim.Pep10.Invariant.{Accesses, access_rules}
use libsim.Pep10.Invariant.Unary.{unary_dispatch-Keeps}
use libsim.Pep10.Invariant.Nonunary.{nonunary_dispatch-Keeps}
use libsim.Pep10.Step.{
  StepResult, nominal, failure_result, ret_helper, finish_step, lost_operand, step_unary,
  step_nonunary, step,
}

module _ {M H : Type 0} where
  abbrev pub HasCycles : ℕ → Machine M H → Type 0
  HasCycles k m = m.processor.cycle_count ≡ k

  in_memory-Keeps : {A : Type 0} {k : ℕ} (x : Exec M A) → Keeps (HasCycles k) (in_memory x)
  in_memory-Keeps x = record { at = λ s h. h }

  pub in_registers-Keeps :
      {A : Type 0} {k : ℕ} (x : Exec (Block ℕ) A) → Keeps (HasCycles k) (in_registers x)
  in_registers-Keeps x = record { at = λ s h. h }

  in_csrs-Keeps : {A : Type 0} {k : ℕ} (x : Exec (Block Bool) A) → Keeps (HasCycles k) (in_csrs x)
  in_csrs-Keeps x = record { at = λ s h. h }

ruleset part_rules = (keeps_rules, in_memory-Keeps, in_registers-Keeps, in_csrs-Keeps)

module _ {M H : Type 0} ⦃dev : Device M H ℕ⦄ (k : ℕ) where
  pub HasCycles-Accesses : Accesses (HasCycles {M = M} {H = H} k)
  unfolding read_register write_register read_nzvc write_nzvc read_byte write_byte read_word
      write_word leave_call enter_call
  HasCycles-Accesses = record {
    on_read_register = λ r. record { at = λ s h. h };
    on_write_register = λ r v. record { at = λ s h. h };
    on_read_nzvc = λ bit. record { at = λ s h. h };
    on_write_nzvc = λ bit v. record { at = λ s h. h };
    on_read_byte = λ address. record { at = λ s h. h };
    on_write_byte = λ address v. record { at = λ s h. h };
    on_read_word = λ address. search part_rules;
    on_write_word = λ address v. search part_rules;
    on_leave_call = record { at = λ s h. h };
    on_enter_call = record { at = λ s h. h };
  }

  unwind_registers-Cycles : Keeps (HasCycles {M = M} {H = H} k) unwind_registers
  unfolding unwind_registers
  unwind_registers-Cycles = search part_rules

  unwind_csrs-Cycles : Keeps (HasCycles {M = M} {H = H} k) unwind_csrs
  unfolding unwind_csrs
  unwind_csrs-Cycles = search part_rules

  pub unwind_active_instruction-Cycles :
      Keeps (HasCycles {M = M} {H = H} k) unwind_active_instruction
  unfolding unwind_active_instruction
  unwind_active_instruction-Cycles =
      search (part_rules, unwind_registers-Cycles, unwind_csrs-Cycles) depth 8

  pub save_deltas-Cycles : Keeps (HasCycles {M = M} {H = H} k) save_deltas
  unfolding save_deltas
  save_deltas-Cycles = search part_rules depth 12
