-- ===== src/Pep10/Machine.antt =====
-- src/libisa/isa/pep10/local_machine.tpp: memory, histories and devices of the machine.
use Prim.Native.String.{String}
use text.Mathlib.Text.{◌==◌ as str_eq}
use libsim.Prelude.{
  ℕ, Bool, true, false, Option, none, some, List, [], ◌∷◌, ◌==◌, if◌then◌else◌, nonzero, u16,
}
use libsim.Prelude.Exec.{
  Outcome, ok, err, crash, Exec, ◌>>=◌, ◌>>◌, pure, raise, gets, modify, must, when, storage,
  delta_disabled, machine, MachineErrc,
}
use libsim.Storage.Device.{Device, load_bytes}
use libsim.Storage.Delta.{apply_backward}
use libsim.Storage.Block
use libsim.Storage.Block.{Block}
use libsim.Pep10.Types.{MemoryVector, Register}
use libsim.Pep10.State.{Machine}
use libsim.Pep10.Access.{in_memory, in_registers, in_csrs, get_memory, write_register}
use libsim.Pep10.Unary.{read_vector}

-- `_deltas.emplace`, which keeps what a key holds already.
unfoldable pub emplace {ℓ} : {A : Type ℓ} → ℕ → A → List (ℕ × A) → List (ℕ × A)
emplace k v [] = (k, v) ∷ []
emplace k v ((j, w) ∷ m) = if j == k then (j, w) ∷ m else (j, w) ∷ emplace k v m

unfoldable pub find_device : String → List (String × ℕ) → Outcome ℕ
find_device name [] = err (machine MachineErrc.no_such_device)
find_device name ((other, address) ∷ mapping) =
    if str_eq other name then ok address else find_device name mapping

unfoldable pub assign_device : String → ℕ → List (String × ℕ) → List (String × ℕ)
assign_device name address [] = (name, address) ∷ []
assign_device name address ((other, old) ∷ mapping) =
    if str_eq other name
    then (name, address) ∷ mapping
    else (other, old) ∷ assign_device name address mapping

-- `std::set<uint16_t>` of the breakpoints.
unfoldable pub contains : ℕ → List ℕ → Bool
contains k [] = false
contains k (j ∷ js) = if j == k then true else contains k js

unfoldable pub erase : ℕ → List ℕ → List ℕ
erase k [] = []
erase k (j ∷ js) = if j == k then erase k js else j ∷ erase k js

abbrev value_or_none : Outcome ℕ → Option ℕ
value_or_none (ok v) = some v
value_or_none (err e) = none
value_or_none crash = none

abbrev is_nonzero_value : Outcome ℕ → Outcome Bool
is_nonzero_value (ok v) = ok (nonzero v)
is_nonzero_value (err e) = ok false
is_nonzero_value crash = crash

module _ {M H : Type 0} where
  unfoldable pub add_breakpoint : ℕ → Exec (Machine M H) (Unit {0})
  unfolding contains
  add_breakpoint address = modify λ m. record m {
    processor = record m.processor {
      breakpoints =
          if contains (u16 address) m.processor.breakpoints
          then m.processor.breakpoints
          else u16 address ∷ m.processor.breakpoints;
    };
  }

  unfoldable pub remove_breakpoint : ℕ → Exec (Machine M H) Bool
  unfolding contains erase
  remove_breakpoint address = do
    contained ← gets (λ m. contains (u16 address) m.processor.breakpoints)
    modify λ m. record m {
      processor = record m.processor { breakpoints = erase (u16 address) m.processor.breakpoints };
    }
    pure contained

  unfoldable pub remove_all_breakpoints : Exec (Machine M H) (Unit {0})
  remove_all_breakpoints =
      modify λ m. record m { processor = record m.processor { breakpoints = [] } }

  unfoldable pub clear_mmio_addresses : Exec (Machine M H) (Unit {0})
  clear_mmio_addresses = modify λ m. record m { mmio_mapping = [] }

  unfoldable pub register_mmio_address : String → ℕ → Exec (Machine M H) (Unit {0})
  unfolding assign_device
  register_mmio_address name address =
      modify λ m. record m { mmio_mapping = assign_device name (u16 address) m.mmio_mapping }

  unfoldable pub device_address : String → Machine M H → Outcome ℕ
  unfolding find_device
  device_address name m = find_device name m.mmio_mapping

module _ {M H : Type 0} ⦃dev : Device M H ℕ⦄ where
  -- Halted once a nonzero value can be read at the power off port.
  unfoldable pub halted : Machine M H → Outcome Bool
  unfolding get_memory
  halted m = elim m.pwr_off_address [
    | none ↦ ok false
    | some address ↦ is_nonzero_value (get_memory address m)
  ]

  unfoldable pub clear_memory : ℕ → Exec (Machine M H) (Unit {0})
  clear_memory mem_fill = in_memory (dev.clear mem_fill)

  unfoldable pub clear_processor : ℕ → Bool → Exec (Machine M H) (Unit {0})
  unfolding Block.clear
  clear_processor reg_fill csr_fill = do
    in_registers (Block.clear dev.enable_history reg_fill)
    in_csrs (Block.clear dev.enable_history csr_fill)

  unfoldable pub clear_deltas : Exec (Machine M H) (Unit {0})
  clear_deltas m =
      if dev.enable_history
      then (ok tt, record m { deltas = [] })
      else (err (storage delta_disabled), m)

  unfoldable pub clear_all : ℕ → ℕ → Bool → Exec (Machine M H) (Unit {0})
  unfolding clear_memory clear_processor clear_deltas
  clear_all mem_fill reg_fill csr_fill = do
    clear_memory mem_fill
    clear_processor reg_fill csr_fill
    when dev.enable_history (must clear_deltas)

  -- The histories of memory, registers and status bits are taken and played backward in turn.
  unfoldable pub unwind_registers : Exec (Machine M H) (Unit {0})
  unfolding Block.take_delta Block.set_cell apply_backward
  unwind_registers = do
    registers ← in_registers (Block.take_delta dev.enable_history)
    in_registers (apply_backward Block.set_cell registers)

  unfoldable pub unwind_csrs : Exec (Machine M H) (Unit {0})
  unfolding Block.take_delta Block.set_cell apply_backward
  unwind_csrs = do
    csrs ← in_csrs (Block.take_delta dev.enable_history)
    in_csrs (apply_backward Block.set_cell csrs)

  unfoldable pub unwind_active_instruction : Exec (Machine M H) (Unit {0})
  unfolding unwind_registers unwind_csrs
  unwind_active_instruction =
      if dev.enable_history
      then (do
        memory ← in_memory dev.take_delta
        in_memory (dev.apply_backward memory)
        unwind_registers
        unwind_csrs)
      else raise (storage delta_disabled)

  unfoldable pub save_deltas : Exec (Machine M H) (Unit {0})
  unfolding Block.take_delta emplace
  save_deltas =
      if dev.enable_history
      then (do
        memory ← in_memory dev.take_delta
        registers ← in_registers (Block.take_delta dev.enable_history)
        csrs ← in_csrs (Block.take_delta dev.enable_history)
        modify λ m. record m {
          deltas =
              emplace m.processor.cycle_count
                (record { delta_memory = memory; delta_reg = registers; delta_csr = csrs })
                m.deltas;
        })
      else raise (storage delta_disabled)

  -- `LocalProcessor::init`
  unfoldable pub init : Exec (Machine M H) (Unit {0})
  unfolding clear_processor read_vector write_register
  init = do
    modify λ m. record m {
      processor = record m.processor { cycle_count = 0; last_step_time = 0; call_depth = 0 };
    }
    clear_processor 0 false
    sp ← must (read_vector MemoryVector.system_stack)
    write_register Register.sp sp
    pc ← must (read_vector MemoryVector.dispatcher)
    write_register Register.pc pc

  unfoldable pub begin_simulation : Exec (Machine M H) (Unit {0})
  unfolding device_address init
  begin_simulation = do
    modify (λ m. record m { pwr_off_address = value_or_none (device_address "pwrOff" m) })
    init

  -- `isa::pep10::load_bytes`, which wraps around at the end of memory.
  unfoldable pub load_program : List ℕ → ℕ → Exec (Machine M H) (Unit {0})
  unfolding load_bytes
  load_program bytes offset = in_memory (load_bytes dev bytes (u16 offset))
