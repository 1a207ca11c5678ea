-- ===== src/Tests/Claims.antt =====
-- The results at concrete inputs.
use libsim.Prelude.{
  none, ℕ, ◌≡◌, ◌≢◌, inl, refl, true, false, List, [], ◌∷◌, arith, set, if◌then◌else◌, ltb, Bool,
  replicate, ◌==◌,
}
use libsim.Prelude.Exec.{ok, err, crash, ◌>>=◌, ◌>>◌}
use libsim.Storage.Delta.{Vector}
use libsim.Storage.Block
use libsim.Storage.Block.{Block, block, block_device}
use libsim.Storage.Block.Laws.{IsValid, block-IsValid, get-write}
use libsim.Storage.Block.History.{
  write_all, undo, undo-write_all, Once, change, stay, undo-write_twice,
}
use libsim.Storage.Block.AsRam.{block-Ram}
use libsim.Pep10.Types.{Register, Csr, AddressingMode, AddressingClass, Mnemonic}
use libsim.Pep10.InstrList.{AddrMap, instr}
use libsim.Pep10.Isa.{riproll, is_opcode_unary_byte}
use libsim.Pep10.State.{new_machine, StepDelta}
use libsim.Pep10.Access.{read_register}
use libsim.Pep10.Unary.{exec_scall, exec_sret, exec_ret}
use libsim.Pep10.Nonunary.{exec_call}
use libsim.Pep10.Alu.{sub_word, overflow_bit, exec_add, exec_sub, exec_compare_word}
use libsim.Pep10.Alu.Flags.{sub-overflow_bit_misses}
use libsim.Pep10.StepDelta.{step_forward, step_backward, with_cells, step_forward-step_backward}
use libsim.Pep10.Step.{step, run, nominal}
use libsim.Pep10.Cycles.Run.{Counted, step-cycle_count, run-ends}
use libsim.Pep10.Isa.Tables.{DecodesToNearest, encode, riproll-Nearest, opcode-riproll}
use libsim.Pep10.Wellformed.{IsWf}
use libsim.Pep10.Wellformed.Steps.{step-IsWf}
use libsim.Pep10.View.{View, Runs}
use libsim.Pep10.View.Arith.{
  added, subtracted, compared, exec_add-Runs, exec_sub-Runs, exec_compare_word-Runs,
}
use libsim.Pep10.View.Fresh.{new_machine-IsWf}
use libsim.Pep10.View.Calls.{called_back, exec_call-exec_ret}
use libsim.Pep10.View.Traps.{restored, exec_scall-exec_sret}
use libsim.Tests.{Board, recording}

abbrev sample : View
sample = record {
  register = λ r. elim r [
    | Register.a ↦ 5
    | Register.x ↦ 7
    | Register.sp ↦ 0xf000
    | Register.pc ↦ 0x0123
    | _ ↦ 0
  ];
  flag = λ bit. elim bit [ Csr.z ↦ true | _ ↦ false ];
  byte = λ p. if p == 65526 then 0xfb else 0;
  depth = 3;
}

exec_scall-exec_sret_example :
    Runs
      (block-Ram true)
      (exec_scall 0x30 0xf000 5 7 >> (read_register Register.sp >>= exec_sret))
      sample
      tt
      (restored 0x30 sample)
    × ((r : Register) → (restored 0x30 sample).register r ≡ sample.register r)
    × ((bit : Csr) → (restored 0x30 sample).flag bit ≡ sample.flag bit)
    × ((restored 0x30 sample).depth ≡ 0)
exec_scall-exec_sret_example =
    exec_scall-exec_sret (block-Ram true) 0x30 sample (omega arith) (omega arith) (omega arith)
      (omega arith)

exec_call-exec_ret_example :
    Runs
      (block-Ram true)
      (exec_call 0xf000 0x40 >> (read_register Register.sp >>= exec_ret))
      sample
      tt
      (called_back 0x40 sample)
    × ((r : Register) → (called_back 0x40 sample).register r ≡ sample.register r)
    × ((bit : Csr) → (called_back 0x40 sample).flag bit ≡ sample.flag bit)
    × ((p : ℕ) → p ≢ 0xeffe → p ≢ 0xefff → (called_back 0x40 sample).byte p ≡ sample.byte p)
    × ((called_back 0x40 sample).depth ≡ 0)
exec_call-exec_ret_example =
    exec_call-exec_ret (block-Ram true) 0x40 sample (omega arith) (omega arith)

abbrev machine : Board
machine = new_machine (block 31 0)

step-IsWf_example : IsWf (step machine).1
step-IsWf_example = step-IsWf machine (new_machine-IsWf (block 31 0))

exec_add-Runs_example :
    Runs
      (block-Ram true)
      (exec_add Register.a 0x7fff 1)
      sample
      tt
      (added Register.a 0x7fff 1 sample)
exec_add-Runs_example =
    exec_add-Runs (block-Ram true) Register.a 0x7fff 1 sample (omega arith) (omega arith)

exec_sub-Runs_example :
    Runs (block-Ram true) (exec_sub Register.x 7 9) sample tt (subtracted Register.x 7 9 sample)
exec_sub-Runs_example =
    exec_sub-Runs (block-Ram true) Register.x 7 9 sample (omega arith) (omega arith)

exec_compare_word-Runs_example :
    Runs (block-Ram true) (exec_compare_word 5 5) sample tt (compared 5 5 sample)
exec_compare_word-Runs_example =
    exec_compare_word-Runs (block-Ram true) 5 5 sample (omega arith) (omega arith)

riproll-Nearest_example : DecodesToNearest 0x1d (riproll 0x1d)
riproll-Nearest_example = riproll-Nearest 0x1d (omega arith)

decoded : AddrMap
unfolding riproll
decoded = elim (riproll 0x1d) [ ok m ↦ m | err e ↦ default | crash ↦ default ]
  where
    default : AddrMap
    default = record {
      inst = instr 0 AddressingClass.invalid false false false false Mnemonic.ret false;
      addr = AddressingMode.none;
    }

opcode-riproll_example : encode decoded ≡ ok 0x1d
unfolding decoded riproll
opcode-riproll_example = opcode-riproll 0x1d decoded (omega arith) refl (λ e. cc)

sub-overflow_bit_misses_example : overflow_bit 0x8000 1 (sub_word 0x8000 1) ≡ false
sub-overflow_bit_misses_example =
    sub-overflow_bit_misses 0x8000 1 (omega arith) (omega arith) (inl (omega arith))

abbrev seven : ℕ
seven = 7

abbrev eight : ℕ
eight = 8

abbrev nine : ℕ
nine = 9

abbrev four : Block ℕ
four = block 3 0

four-IsValid : IsValid four
four-IsValid = block-IsValid 3 0

abbrev apart : List (ℕ × ℕ)
apart = (1, 7) ∷ (3, 8) ∷ []

get-write_example : Block.get (Block.write true 2 nine four).1 2 ≡ (
    if ltb four.max_offset 2
    then Block.get four 2
    else if 2 == 2
    then ok nine
    else Block.get four 2)
get-write_example = get-write true four 2 2 nine four-IsValid

undo-write_all_example : (write_all apart >> undo) four ≡ (ok tt, four)
unfolding block
undo-write_all_example =
    undo-write_all apart four four-IsValid refl (omega arith, (omega arith, tt))
      ((λ e. omega arith, tt), (tt, tt))

undo-write_twice_example :
    (write_all ((1, seven) ∷ (1, eight) ∷ []) >> undo) four
    ≡ (ok tt, record four { cells = set four.cells 1 seven })
unfolding block
undo-write_twice_example = undo-write_twice four 1 seven eight four-IsValid refl (omega arith)

machine-step : (step machine).0 ≡ ok nominal
unfolding step is_opcode_unary_byte new_machine block
machine-step = refl

step-cycle_count_example :
    Counted machine.processor.cycle_count (step machine).0 (step machine).1.processor.cycle_count
step-cycle_count_example = step-cycle_count machine

run-ends_example : (run 3 3 machine).0 ≢ ok none
unfolding new_machine
run-ends_example = run-ends 3 3 machine (omega arith) (omega arith) (omega arith) (omega arith)

-- A step that changed one byte, one register and one status bit of a small machine.
abbrev one_step : StepDelta (Vector ℕ)
one_step = record {
  delta_memory = record { offset = 2; old_value = 0; new_value = 8 } ∷ [];
  delta_reg = record { offset = 1; old_value = 0; new_value = 9 } ∷ [];
  delta_csr = record { offset = 0; old_value = false; new_value = true } ∷ [];
}

abbrev bytes_after : List ℕ
bytes_after = set (replicate 32 0) 2 8

abbrev words_after : List ℕ
words_after = set (replicate 8 0) 1 9

abbrev bits_after : List Bool
bits_after = set (replicate 5 false) 0 true

step_forward-step_backward_example :
    (step_forward ⦃dev = block_device true⦄ one_step
        (with_cells machine (replicate 32 0) (replicate 8 0) (replicate 5 false))
      ≡ (ok tt, with_cells machine bytes_after words_after bits_after))
    × (Once one_step.delta_memory
        → Once one_step.delta_reg
        → Once one_step.delta_csr
        → step_backward ⦃dev = block_device true⦄ one_step
            (with_cells machine bytes_after words_after bits_after)
          ≡ (ok tt, with_cells machine (replicate 32 0) (replicate 8 0) (replicate 5 false)))
unfolding block new_machine
step_forward-step_backward_example =
    step_forward-step_backward true machine one_step (replicate 32 0) bytes_after (replicate 8 0)
      words_after (replicate 5 false) bits_after (refl, refl) (refl, refl) (refl, refl)
      (change 2 0 8 refl (omega arith) stay) (change 1 0 9 refl (omega arith) stay)
      (change 0 false true refl (omega arith) stay)
