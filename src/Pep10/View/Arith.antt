-- ===== src/Pep10/View/Arith.antt =====
-- src/libisa/isa/pep10/local_processor.tpp: ADDr, SUBr and CPWr as the program sees them.
use libsim.Prelude.{
  ℕ, ◌+◌, ◌-◌, ◌%◌, ◌<◌, ◌≡◌, subst, Bool, ◌||◌, ◌&&◌, ◌==◌, if◌then◌else◌, arith, ltb, leb,
  bit_and, nonzero,
}
use mathlib.Core.Bool.{xor}
use libsim.Prelude.Bits.{bit_and_sign}
use libsim.Prelude.Exec.{Exec, ◌>>=◌}
use libsim.Storage.Device.{Device}
use libsim.Storage.Ram.{Ram}
use libsim.Pep10.Types.{Register, Csr, csr_number}
use libsim.Pep10.State.{Machine}
use libsim.Pep10.Unary.{write_nz}
use libsim.Pep10.Alu.{
  overflow_bit, add_word, add_carry, sub_word, sub_carry, exec_add, exec_sub, exec_compare_word,
}
use libsim.Pep10.Alu.Flags.{
  biased, add_carry_iff, add-overflow_bit_iff, sub_word_lem, sub_carry_iff, sub-overflow_bit_iff,
}
use libsim.Pep10.View.{View, set_register, set_flag, Runs}
use libsim.Pep10.View.Rules.{run_rules, Runs-bind}

abbrev set_nz : ℕ → View → View
set_nz word w = set_flag Csr.z (word == 0) (set_flag Csr.n (leb 32768 word) w)

abbrev outcome : (result : ℕ) (v c : Bool) → View → View
outcome result v c w = set_flag Csr.c c (set_flag Csr.v v (set_nz result w))

-- The sum as 16 bits, with the carry out of them and the overflow of the two's complement sum.
abbrev pub added : Register → ℕ → ℕ → View → View
added reg word operand w =
    outcome ((word + operand) % 65536)
      (ltb (biased word + biased operand) 32768 || leb 98304 (biased word + biased operand))
      (leb 65536 (word + operand)) (set_register reg ((word + operand) % 65536) w)

-- The difference, with the carry and the overflow bit that the code computes.
abbrev difference : ℕ → ℕ → ℕ
difference word operand = if leb operand word then word - operand else word + 65536 - operand

abbrev difference_carry : ℕ → ℕ → Bool
difference_carry word operand = ltb 0 operand && leb operand word

abbrev difference_overflow : ℕ → ℕ → Bool
difference_overflow word operand =
    (ltb operand 32768 && ltb word operand) || (leb 32768 operand && leb operand word)

abbrev pub subtracted : Register → ℕ → ℕ → View → View
subtracted reg word operand w =
    outcome (difference word operand) (difference_overflow word operand)
      (difference_carry word operand) (set_register reg (difference word operand) w)

-- CPWr changes no register; N is then combined with V.
abbrev pub compared : ℕ → ℕ → View → View
compared word operand w =
    set_flag Csr.n (xor (leb 32768 (difference word operand)) (difference_overflow word operand)) (
      outcome (difference word operand) (difference_overflow word operand)
        (difference_carry word operand) w)

sign : (word : ℕ) → word < 65536 → nonzero (bit_and word 0x8000) ≡ leb 32768 word
sign word p = ground (arith, bit_and_sign word p)

carry :
    (word operand : ℕ)
    → word < 65536
    → operand < 65536
    → add_carry word operand (add_word word operand) ≡ leb 65536 (word + operand)
carry word operand p q = ground (arith, add_carry_iff word operand p q)

overflow :
    (word operand : ℕ)
    → word < 65536
    → operand < 65536
    → overflow_bit word operand (add_word word operand)
      ≡ (ltb (biased word + biased operand) 32768 || leb 98304 (biased word + biased operand))
overflow word operand p q = ground (arith, add-overflow_bit_iff word operand p q)

add_word-small : (word operand : ℕ) → add_word word operand < 65536
unfolding add_word
add_word-small word operand = omega arith

sub_word-small : (word operand : ℕ) → sub_word word operand < 65536
unfolding sub_word
sub_word-small word operand = omega arith

less :
    (word operand : ℕ)
    → word < 65536
    → operand < 65536
    → sub_word word operand ≡ difference word operand
less word operand p q = ground (arith, sub_word_lem word operand p q)

borrow :
    (word operand : ℕ)
    → word < 65536
    → operand < 65536
    → sub_carry word operand (sub_word word operand) ≡ difference_carry word operand
borrow word operand p q = ground (arith, sub_carry_iff word operand p q)

sub_overflow :
    (word operand : ℕ)
    → word < 65536
    → operand < 65536
    → overflow_bit word operand (sub_word word operand) ≡ difference_overflow word operand
sub_overflow word operand p q = ground (arith, sub-overflow_bit_iff word operand p q)

module _ {M H : Type 0} ⦃dev : Device M H ℕ⦄ (ram : Ram dev) where
  write_nz-Runs :
      (word : ℕ) (w : View) → word < 65536 → Runs ram (write_nz word) w tt (set_nz word w)
  unfolding write_nz
  write_nz-Runs word w p =
      subst (λ b. Runs ram (write_nz word) w tt (set_flag Csr.z (word == 0) (set_flag Csr.n b w)))
        (sign word p) (search run_rules)

  after_write_nz :
      {B : Type 0} {b : B} {w w' : View} (word : ℕ) (f : Unit {0} → Exec (Machine M H) B)
      → word < 65536
      → Runs ram (f tt) (set_nz word w) b w'
      → Runs ram (write_nz word >>= f) w b w'
  after_write_nz {w = w} word f p = Runs-bind ram _ f (write_nz-Runs word w p)

  -- ADDr on 16-bit words, whatever the rest of the view: the register holds the sum modulo 2^16, C is
  -- the carry, V the overflow of the sum as two's complement numbers, N and Z the sign and zero of
  -- the result; nothing else changes.
  pub exec_add-Runs :
      (reg : Register) (word operand : ℕ) (w : View)
      → word < 65536
      → operand < 65536
      → Runs ram (exec_add reg word operand) w tt (added reg word operand w)
  unfolding exec_add
  exec_add-Runs reg word operand w p q =
      subst (λ w'. Runs ram (exec_add reg word operand) w tt w')
        (λ i.
          outcome (add_word word operand) (overflow word operand p q i) (carry word operand p q i)
            (set_register reg (add_word word operand) w))
        (search (run_rules, after_write_nz, add_word-small word operand))

  -- SUBr on 16-bit words, whatever the rest of the view: the register holds the difference modulo
  -- 2^16, N and Z are the sign and zero of it, C is set when the operand is not 0 and does not exceed
  -- the word, and V when the word is below the operand and the operand below 2^15, or the operand is
  -- at least 2^15 and does not exceed the word; nothing else changes.
  pub exec_sub-Runs :
      (reg : Register) (word operand : ℕ) (w : View)
      → word < 65536
      → operand < 65536
      → Runs ram (exec_sub reg word operand) w tt (subtracted reg word operand w)
  unfolding exec_sub
  exec_sub-Runs reg word operand w p q =
      subst (λ w'. Runs ram (exec_sub reg word operand) w tt w')
        (λ i.
          outcome (less word operand p q i) (sub_overflow word operand p q i)
            (borrow word operand p q i) (set_register reg (less word operand p q i) w))
        (search (run_rules, after_write_nz, sub_word-small word operand))

  -- CPWr on 16-bit words, whatever the rest of the view: Z is set exactly when the words are equal,
  -- C and V are those of SUBr, N is the sign of the difference exclusive-or V; no register changes.
  pub exec_compare_word-Runs :
      (word operand : ℕ) (w : View)
      → word < 65536
      → operand < 65536
      → Runs ram (exec_compare_word word operand) w tt (compared word operand w)
  unfolding exec_compare_word csr_number
  exec_compare_word-Runs word operand w p q =
      subst (λ w'. Runs ram (exec_compare_word word operand) w tt w')
        (λ i.
          set_flag Csr.n
            (xor (leb 32768 (less word operand p q i)) (sub_overflow word operand p q i))
            (outcome (less word operand p q i) (sub_overflow word operand p q i)
              (borrow word operand p q i) w))
        (search (run_rules, after_write_nz, sub_word-small word operand) depth 12)
