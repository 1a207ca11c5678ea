-- ===== src/Pep10/State.antt =====
-- src/libisa/isa/pep10/local_machine.hpp and local_processor.hpp: the state of a machine with its processor.
-- The two objects refer to each other, so one record holds both. `M` is the memory device, `H` its
-- history.
use Prim.Native.String.{String}
use libsim.Prelude.{ℕ, Bool, false, Option, none, List, []}
use libsim.Storage.Delta.{Vector}
use libsim.Storage.Block.{Block, block}

pub record Cpu : Type 0 where
  pub registers : Block ℕ
  pub csrs : Block Bool
  pub cycle_count : ℕ
  pub last_step_time : ℕ
  pub call_depth : ℕ
  pub breakpoints : List ℕ

-- src/libisa/components/machine/delta.hpp
pub record StepDelta (H : Type 0) : Type 0 where
  pub delta_memory : H
  pub delta_reg : Vector ℕ
  pub delta_csr : Vector Bool

pub record Machine (M H : Type 0) : Type 0 where
  pub memory : M
  pub processor : Cpu
  pub pwr_off_address : Option ℕ
  pub deltas : List (ℕ × StepDelta H)
  pub mmio_mapping : List (String × ℕ)

-- The constructors. `enum_count` gives the processor's storages their largest offset, so each has
-- one cell more than the program has names for.
unfoldable pub new_cpu : Cpu
unfolding block
new_cpu = record {
  registers = block 7 0;
  csrs = block 4 false;
  cycle_count = 0;
  last_step_time = 0;
  call_depth = 0;
  breakpoints = [];
}

unfoldable pub new_machine : {M H : Type 0} → M → Machine M H
unfolding new_cpu
new_machine memory = record {
  memory = memory;
  processor = new_cpu;
  pwr_off_address = none;
  deltas = [];
  mmio_mapping = [];
}
