-- ===== src/Tests.antt =====
-- Runs of the machine on a small program.
mod Assembler
pub mod Claims
pub mod Devices
pub mod Symbols
use libsim.Prelude.{ℕ, ◌≡◌, refl, Bool, true, false, List, [], ◌∷◌, some, none}
use libsim.Prelude.Exec.{ok, ◌>>=◌, ◌>>◌, Exec, pure}
use libsim.Storage.Device.{Device}
use libsim.Storage.Delta.{Vector}
use libsim.Storage.Block.{Block, block, block_device}
use libsim.Pep10.Types.{Register}
use libsim.Pep10.Isa.{is_opcode_unary_byte}
use libsim.Pep10.State.{Machine, new_machine}
use libsim.Pep10.Access.{read_register}
use libsim.Pep10.Machine.{load_program}
use libsim.Pep10.Step.{step, StepResult, nominal}

instance abbrev pub recording : Device (Block ℕ) (Vector ℕ) ℕ
recording = block_device true

abbrev pub Board : Type 0
Board = Machine (Block ℕ) (Vector ℕ)

-- LDWA 0x1234,i; ADDA 0x0002,i
abbrev small : Exec Board ℕ
small = do
  load_program (0x40 ∷ 0x12 ∷ 0x34 ∷ 0xa0 ∷ 0x00 ∷ 0x02 ∷ []) 0
  step
  step
  read_register Register.a

machine : Board
unfolding new_machine block
machine = new_machine (block 31 0)

small_run : (small machine).0 ≡ ok 0x1236
unfolding machine load_program step is_opcode_unary_byte
small_run = refl
