-- ===== src/Pep10/Step.antt =====
-- src/libisa/isa/pep10/local_processor.tpp and local_machine.tpp: `step`, `can_step_into` and `run`.
use libsim.Prelude.{
  ℕ, zero, suc, ◌+◌, Bool, true, false, Option, none, some, leb, if◌then◌else◌, u16, u64,
}
use libsim.Prelude.Exec.{
  Outcome, ok, err, crash, Exec, ◌>>=◌, ◌>>◌, pure, abort, lift, gets, modify, must, observe, when,
  on_failure, Errc, storage, no_mm_input,
}
use libsim.Storage.Device.{Device}
use libsim.Pep10.Types.{Mnemonic, Register, call, scall, uscall}
use libsim.Pep10.Isa.{riproll, is_opcode_unary_byte}
use libsim.Pep10.State.{Machine}
use libsim.Pep10.Access.{read_register, write_register, get_byte, read_byte, read_word}
use libsim.Pep10.Unary.{unary_dispatch}
use libsim.Pep10.Nonunary.{nonunary_dispatch}
use libsim.Pep10.Machine.{unwind_active_instruction, save_deltas, halted, contains}

-- `step::Result`
pub data StepResult : Type 0 where
  halted_port at_breakpoint needs_mmi nominal : StepResult

unfoldable pub failure_result : Errc → Outcome StepResult
failure_result (storage no_mm_input) = ok needs_mmi
failure_result e = err e

unfoldable pub enters_call : Mnemonic → Bool
enters_call uscall = true
enters_call call = true
enters_call scall = true
enters_call _ = false

abbrev ok_or : Outcome Bool → Bool → Bool
ok_or (ok b) d = b
ok_or (err e) d = d
ok_or crash d = d

module _ {M H : Type 0} ⦃dev : Device M H ℕ⦄ where
  -- `ret_helper`: undo what the instruction did, and tell a missing input from other errors.
  unfoldable pub ret_helper : Errc → Exec (Machine M H) StepResult
  unfolding unwind_active_instruction failure_result
  ret_helper e = do
    when dev.enable_history (must unwind_active_instruction)
    lift (failure_result e)

  -- What follows an instruction that succeeded.
  unfoldable pub finish_step : Exec (Machine M H) StepResult
  unfolding save_deltas halted contains read_register
  finish_step = do
    when dev.enable_history (must save_deltas)
    modify λ m. record m {
      processor = record m.processor { cycle_count = u64 (m.processor.cycle_count + 1) };
    }
    stopped ← must (observe halted)
    pc ← read_register Register.pc
    found ← gets (λ m. contains pc m.processor.breakpoints)
    pure (if stopped then halted_port else if found then at_breakpoint else nominal)

  -- The operand specifier could not be read. The source then asks the opcode's result, which holds
  -- a value, for its error: that is undefined.
  unfoldable pub lost_operand : Exec (Machine M H) StepResult
  unfolding unwind_active_instruction
  lost_operand = do when dev.enable_history (must unwind_active_instruction); abort

  unfoldable pub step_unary : ℕ → Exec (Machine M H) StepResult
  unfolding unary_dispatch ret_helper finish_step
  step_unary is = on_failure (unary_dispatch is) ret_helper λ _. finish_step

  unfoldable pub step_nonunary : ℕ → ℕ → Exec (Machine M H) StepResult
  unfolding read_word write_register nonunary_dispatch ret_helper finish_step lost_operand
  step_nonunary is pc =
      on_failure (read_word pc) (λ _. lost_operand)
        λ os. do
          write_register Register.os os
          write_register Register.pc (pc + 2)
          on_failure (nonunary_dispatch is os) ret_helper λ _. finish_step

  unfoldable pub step : Exec (Machine M H) StepResult
  unfolding read_register read_byte write_register step_unary step_nonunary ret_helper
  step = do
    pc ← read_register Register.pc
    on_failure (read_byte pc) ret_helper λ is. do
      write_register Register.is is
      write_register Register.pc (u16 (pc + 1))
      unary ← lift (is_opcode_unary_byte is)
      if unary then step_unary is else step_nonunary is (u16 (pc + 1))

  unfoldable pub can_step_into : Exec (Machine M H) Bool
  unfolding read_register get_byte enters_call
  can_step_into = do
    pc ← read_register Register.pc
    on_failure (get_byte pc) (λ _. pure false)
        λ is. do entry ← lift (riproll is); pure (enters_call entry.inst.mnemonic)

  -- `run` with a largest number of cycles. `none` means that the fuel ran out.
  unfoldable pub run : ℕ → ℕ → Exec (Machine M H) (Option StepResult)
  unfolding step
  run zero max_timesteps = pure none
  run (suc fuel) max_timesteps = do
    res ← step
    now ← gets (λ m. m.processor.cycle_count)
    elim (leb max_timesteps now) [
      | true ↦ pure (some res)
      | false ↦ elim res [ nominal ↦ run fuel max_timesteps | other ↦ pure (some other) ]
    ]
