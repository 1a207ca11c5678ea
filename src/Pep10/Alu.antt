-- ===== src/Pep10/Alu.antt =====
-- src/libisa/isa/pep10/local_processor.tpp: the arithmetic, comparison and load cases of `nonunary_dispatch`.
-- The cases for the two registers differ in the register alone. `word` is what it held.
pub mod Flags
use libsim.Prelude.{
  ℕ, ◌+◌, ◌-◌, ◌*◌, ◌/◌, ◌%◌, ◌^◌, Bool, true, false, ◌||◌, bit_and, bit_or, bit_xor, u16, ◌>>>◌,
  nonzero, ltb, ◌==◌,
}
use mathlib.Core.Bool.{xor}
use libsim.Prelude.Exec.{Exec, ◌>>=◌, ◌>>◌, pure}
use libsim.Storage.Device.{Device}
use libsim.Pep10.Types.{Csr, Register}
use libsim.Pep10.State.{Machine}
use libsim.Pep10.Access.{write_register, read_nzvc, write_nzvc}
use libsim.Pep10.Unary.{complement, write_nz}

-- `(~(word ^ operand) & (word ^ result)) >> 15`, as a `bool`. The bits of `~` above the sixteenth
-- meet zeros.
unfoldable pub overflow_bit : ℕ → ℕ → ℕ → Bool
unfolding complement
overflow_bit word operand result =
    nonzero (bit_and (complement (bit_xor word operand)) (bit_xor word result) >>> 15)

unfoldable pub add_word : ℕ → ℕ → ℕ
add_word word operand = u16 (word + operand)

unfoldable pub add_carry : ℕ → ℕ → ℕ → Bool
add_carry word operand result = ltb result word || ltb result operand

-- `word + ~operand + 1`
unfoldable pub sub_word : ℕ → ℕ → ℕ
unfolding complement
sub_word word operand = u16 (word + complement operand + 1)

unfoldable pub sub_carry : ℕ → ℕ → ℕ → Bool
unfolding complement
sub_carry word operand result = ltb result word || ltb result (u16 (1 + complement operand))

module _ {M H : Type 0} ⦃dev : Device M H ℕ⦄ where
  unfoldable pub exec_add : Register → ℕ → ℕ → Exec (Machine M H) (Unit {0})
  unfolding write_register write_nz write_nzvc add_word add_carry overflow_bit
  exec_add reg word operand = do
    let result = add_word word operand
    write_register reg result
    write_nz result
    write_nzvc Csr.v (overflow_bit word operand result)
    write_nzvc Csr.c (add_carry word operand result)

  unfoldable pub exec_sub : Register → ℕ → ℕ → Exec (Machine M H) (Unit {0})
  unfolding write_register write_nz write_nzvc sub_word sub_carry overflow_bit
  exec_sub reg word operand = do
    let result = sub_word word operand
    write_register reg result
    write_nz result
    write_nzvc Csr.v (overflow_bit word operand result)
    write_nzvc Csr.c (sub_carry word operand result)

  -- ANDr, ORr and XORr, which differ in the operator.
  unfoldable pub exec_bitwise : (ℕ → ℕ → ℕ) → Register → ℕ → ℕ → Exec (Machine M H) (Unit {0})
  unfolding write_register write_nz
  exec_bitwise op reg word operand = do
    write_register reg (op word operand)
    write_nz (op word operand)

  unfoldable pub exec_compare_word : ℕ → ℕ → Exec (Machine M H) (Unit {0})
  unfolding write_nz read_nzvc write_nzvc sub_word sub_carry overflow_bit
  exec_compare_word word operand = do
    let result = sub_word word operand
    write_nz result
    write_nzvc Csr.v (overflow_bit word operand result)
    write_nzvc Csr.c (sub_carry word operand result)
    n ← read_nzvc Csr.n
    v ← read_nzvc Csr.v
    write_nzvc Csr.n (xor n v)

  unfoldable pub exec_compare_byte : ℕ → ℕ → Exec (Machine M H) (Unit {0})
  unfolding write_nzvc sub_word
  exec_compare_byte word operand = do
    let result = bit_and (sub_word word operand) 0xff
    write_nzvc Csr.n (nonzero (bit_and result 0x80))
    write_nzvc Csr.z (result == 0)
    write_nzvc Csr.v false
    write_nzvc Csr.c false

  unfoldable pub exec_load_word : Register → ℕ → Exec (Machine M H) (Unit {0})
  unfolding write_register write_nz
  exec_load_word reg operand = do write_register reg operand; write_nz operand

  unfoldable pub exec_load_byte : Register → ℕ → Exec (Machine M H) (Unit {0})
  unfolding write_register write_nzvc
  exec_load_byte reg operand = do
    write_register reg operand
    write_nzvc Csr.n false
    write_nzvc Csr.z (operand == 0)
