-- ===== src/Pep10/StepDelta.antt =====
-- src/libisa/components/machine/delta.tpp: the history of one step, played on the three parts of a machine.
use libsim.Prelude.{ℕ, suc, ◌≡◌, refl, Bool, List, length}
use libsim.Prelude.Exec.{ok, Exec, ◌>>◌}
use libsim.Storage.Device.{Device}
use libsim.Storage.Delta.{Vector, apply_forward, apply_backward}
use libsim.Storage.Block
use libsim.Storage.Block.{Block, block_device}
use libsim.Storage.Block.History.{Leads, Once, apply_forward-Leads, apply_backward-Leads}
use libsim.Pep10.State.{Machine, StepDelta}
use libsim.Pep10.Access.{in_memory, in_registers, in_csrs}

module _ {M H : Type 0} ⦃dev : Device M H ℕ⦄ where
  -- `StepDelta::apply_forward` and `StepDelta::apply_backward`.
  unfoldable pub step_forward : StepDelta H → Exec (Machine M H) (Unit {0})
  unfolding Block.set_cell apply_forward
  step_forward step = do
    in_memory (dev.apply_forward step.delta_memory)
    in_registers (apply_forward Block.set_cell step.delta_reg)
    in_csrs (apply_forward Block.set_cell step.delta_csr)

  unfoldable pub step_backward : StepDelta H → Exec (Machine M H) (Unit {0})
  unfolding Block.set_cell apply_backward
  step_backward step = do
    in_memory (dev.apply_backward step.delta_memory)
    in_registers (apply_backward Block.set_cell step.delta_reg)
    in_csrs (apply_backward Block.set_cell step.delta_csr)

-- A machine whose memory is a block, with the cells of its three storages.
abbrev pub with_cells :
    Machine (Block ℕ) (Vector ℕ) → List ℕ → List ℕ → List Bool → Machine (Block ℕ) (Vector ℕ)
with_cells m memory registers csrs = record m {
  memory = record m.memory { cells = memory };
  processor = record m.processor {
    registers = record m.processor.registers { cells = registers };
    csrs = record m.processor.csrs { cells = csrs };
  };
}

abbrev IsFull {ℓ} : {V : Type ℓ} → Block V → List V → Type 0
IsFull b xs = length xs ≡ suc b.max_offset

-- The parts of the step lead from older cells to newer ones, and there are as many cells as offsets. Played
-- forward on the older cells, the step makes them the newer ones. Played backward on the newer cells, it makes
-- them the older ones, if it changes no offset twice.
pub step_forward-step_backward :
    (history : Bool) (m : Machine (Block ℕ) (Vector ℕ)) (step : StepDelta (Vector ℕ))
    (ms ns rs qs : List ℕ) (cs ds : List Bool)
    → IsFull m.memory ms × IsFull m.memory ns
    → IsFull m.processor.registers rs × IsFull m.processor.registers qs
    → IsFull m.processor.csrs cs × IsFull m.processor.csrs ds
    → Leads ms step.delta_memory ns
    → Leads rs step.delta_reg qs
    → Leads cs step.delta_csr ds
    → (step_forward ⦃dev = block_device history⦄ step (with_cells m ms rs cs)
        ≡ (ok tt, with_cells m ns qs ds))
      × (Once step.delta_memory
          → Once step.delta_reg
          → Once step.delta_csr
          → step_backward ⦃dev = block_device history⦄ step (with_cells m ns qs ds)
            ≡ (ok tt, with_cells m ms rs cs))
unfolding step_forward step_backward
step_forward-step_backward history m step ms ns rs qs cs ds fm fr fc lm lr lc = (
  rw
      (
        apply_forward-Leads m.memory fm.0 lm,
        apply_forward-Leads m.processor.registers fr.0 lr,
        apply_forward-Leads m.processor.csrs fc.0 lc,
      )
      refl,
  λ om or oc.
      rw
        (
          apply_backward-Leads m.memory step.delta_memory fm.1 lm om,
          apply_backward-Leads m.processor.registers step.delta_reg fr.1 lr or,
          apply_backward-Leads m.processor.csrs step.delta_csr fc.1 lc oc,
        )
        refl,
)
