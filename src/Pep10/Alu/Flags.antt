-- ===== src/Pep10/Alu/Flags.antt =====
-- src/libisa/isa/pep10/local_processor.tpp: the carry and overflow bits of ADDr, SUBr and CPWr, against what the
-- sum and the difference of the words are.
use libsim.Prelude.{
  ℕ, zero, suc, ◌+◌, ◌-◌, ◌*◌, ◌/◌, ◌%◌, ◌≤◌, ◌<◌, ◌≡◌, ◌↔◌, ◌⊎◌, refl, sym, ◌∙◌, true, false,
  bit_and, bit_xor, arith,
}
use libsim.Prelude.Bits.{halve, halve-bit_and, halve-bit_xor}
use libsim.Pep10.Unary.{complement}
use libsim.Pep10.Alu.{overflow_bit, add_word, add_carry, sub_word, sub_carry}

-- The signed value of a word, plus 2 ^ 15.
abbrev pub biased : ℕ → ℕ
biased word = (word + 32768) % 65536

halve_15 : (a : ℕ) → halve 15 a ≡ a / 32768
halve_15 a = omega arith

halve_16 : (a : ℕ) → halve 16 a ≡ a / 65536
halve_16 a = omega arith

xor_digit : (a b : ℕ) → a < 2 → b < 2 → bit_xor a b ≡ (a + b) % 2
xor_digit zero zero p q = refl
xor_digit zero (suc zero) p q = refl
xor_digit (suc zero) zero p q = refl
xor_digit (suc zero) (suc zero) p q = refl
xor_digit zero (suc (suc b)) p q = absurd (omega arith)
xor_digit (suc zero) (suc (suc b)) p q = absurd (omega arith)
xor_digit (suc (suc a)) b p q = absurd (omega arith)

and_digit : (a b : ℕ) → a < 2 → b < 2 → bit_and a b ≡ a * b
and_digit zero zero p q = refl
and_digit zero (suc zero) p q = refl
and_digit (suc zero) zero p q = refl
and_digit (suc zero) (suc zero) p q = refl
and_digit zero (suc (suc b)) p q = absurd (omega arith)
and_digit (suc zero) (suc (suc b)) p q = absurd (omega arith)
and_digit (suc (suc a)) b p q = absurd (omega arith)

sign-xor : (a b : ℕ) → a < 65536 → b < 65536 → bit_xor a b / 32768 ≡ (a / 32768 + b / 32768) % 2
sign-xor a b p q =
    sym (halve_15 (bit_xor a b))
    ∙ halve-bit_xor 15 a b
    ∙ rw (halve_15 a, halve_15 b) (xor_digit (a / 32768) (b / 32768) (omega arith) (omega arith))

xor-lt : (a b : ℕ) → a < 65536 → b < 65536 → bit_xor a b < 65536
xor-lt a b p q =
    let e : bit_xor a b / 65536 ≡ 0 =
      sym (halve_16 (bit_xor a b))
      ∙ halve-bit_xor 16 a b
      ∙ rw (
        halve_16 a,
        halve_16 b,
        let z : a / 65536 ≡ 0 = omega arith in z,
        let z : b / 65536 ≡ 0 = omega arith in z,
      ) in
    omega (arith, e)

sign-and : (a b : ℕ) → a < 65536 → b < 65536 → bit_and a b / 32768 ≡ a / 32768 * (b / 32768)
sign-and a b p q =
    sym (halve_15 (bit_and a b))
    ∙ halve-bit_and 15 a b
    ∙ rw (halve_15 a, halve_15 b) (and_digit (a / 32768) (b / 32768) (omega arith) (omega arith))

sign-product : (s t : ℕ) → s < 2 → t < 2 → (s * t ≡ 1) ↔ ((s ≡ 1) × (t ≡ 1))
sign-product zero t p q = ground arith
sign-product (suc zero) t p q = ground arith
sign-product (suc (suc s)) t p q = absurd (omega arith)

-- The bit is set when the two inputs have one sign and the result has the other.
pub overflow_bit_iff :
    (word operand result : ℕ)
    → word < 65536
    → operand < 65536
    → result < 65536
    → (overflow_bit word operand result ≡ true)
      ↔ ((word / 32768 ≡ operand / 32768) × (word / 32768 + result / 32768 ≡ 1))
unfolding overflow_bit
overflow_bit_iff word operand result p q r = ground (
  arith,
  sign-xor word operand p q,
  sign-xor word result p r,
  xor-lt word operand p q,
  xor-lt word result p r,
  sign-and (complement (bit_xor word operand)) (bit_xor word result),
  sign-product (complement (bit_xor word operand) / 32768) (bit_xor word result / 32768),
)

-- On 16-bit words, the carry bit of ADDr is set exactly when their sum does not fit 16 bits.
pub add_carry_iff :
    (word operand : ℕ)
    → word < 65536
    → operand < 65536
    → (add_carry word operand (add_word word operand) ≡ true) ↔ (65536 ≤ word + operand)
unfolding add_carry add_word
add_carry_iff word operand p q = ground arith

-- On 16-bit words, the overflow bit of ADDr is set exactly when the sum of the words' signed values
-- is no signed word.
pub add-overflow_bit_iff :
    (word operand : ℕ)
    → word < 65536
    → operand < 65536
    → (overflow_bit word operand (add_word word operand) ≡ true)
      ↔ ((biased word + biased operand < 32768) ⊎ (98304 ≤ biased word + biased operand))
unfolding add_word
add-overflow_bit_iff word operand p q =
    ground (arith, overflow_bit_iff word operand ((word + operand) % 65536) p q (omega arith))

-- On 16-bit words, SUBr and CPWr compute the difference of the words modulo 2 ^ 16.
pub sub_word_lem :
    (word operand : ℕ)
    → word < 65536
    → operand < 65536
    → ((operand ≤ word) × (sub_word word operand ≡ word - operand))
      ⊎ ((word < operand) × (sub_word word operand ≡ word + 65536 - operand))
unfolding sub_word
sub_word_lem word operand p q = ground arith

-- On 16-bit words, the carry bit of SUBr and CPWr is set exactly when the operand is not zero and
-- does not exceed the first word.
pub sub_carry_iff :
    (word operand : ℕ)
    → word < 65536
    → operand < 65536
    → (sub_carry word operand (sub_word word operand) ≡ true) ↔ ((0 < operand) × (operand ≤ word))
unfolding sub_carry sub_word
sub_carry_iff word operand p q = ground arith

-- Their overflow bit is set exactly when neither word is negative and the first is the smaller, or
-- both are negative and the first is not the smaller.
pub sub-overflow_bit_iff :
    (word operand : ℕ)
    → word < 65536
    → operand < 65536
    → (overflow_bit word operand (sub_word word operand) ≡ true)
      ↔ ((operand < 32768) × (word < operand)) ⊎ ((32768 ≤ operand) × (operand ≤ word))
unfolding sub_word
sub-overflow_bit_iff word operand p q = ground (
  arith,
  overflow_bit_iff word operand ((word + (65535 - operand % 65536) + 1) % 65536) p q (omega arith),
)

-- On 16-bit words, the overflow bit of SUBr and CPWr is clear whenever the difference of the words'
-- signed values is no signed word.
pub sub-overflow_bit_misses :
    (word operand : ℕ)
    → word < 65536
    → operand < 65536
    → (biased word + 32768 < biased operand) ⊎ (biased operand + 32768 ≤ biased word)
    → overflow_bit word operand (sub_word word operand) ≡ false
sub-overflow_bit_misses word operand p q out = ground (arith, sub-overflow_bit_iff word operand p q)
