-- ===== src/Prelude/Bits.antt =====
-- Bit operations at variables: each commutes with a right shift, so that the top bit of a word
-- is found by shifting first.
use Prim.Native.Nat.{
  ℕ, zero, suc, ◌+◌, ◌*◌, ◌/◌, ◌%◌, ◌^◌, ◌≤◌, ◌<◌, min, max, bit_and, bit_or, bit_xor, digits,
  bitwise, differ, bit_and-bitwise, bit_or-bitwise, bit_xor-bitwise,
}
use mathlib.Core.Path.{◌≡◌, refl, ◌∙◌, ap}
use native.Mathlib.Omega.{arith}

module _ (other : ℕ → ℕ) (digit : ℕ → ℕ → ℕ) where
  -- More fuel than the first number has digits changes nothing.
  digits-fuel : (x y k l : ℕ) → x ≤ l → x ≤ k → digits other digit k x y ≡ digits other digit l x y
  digits-fuel zero y zero zero hl hk = refl
  digits-fuel zero y zero (suc l) hl hk = refl
  digits-fuel zero y (suc k) zero hl hk = refl
  digits-fuel zero y (suc k) (suc l) hl hk = refl
  digits-fuel (suc x) y zero l hl hk = absurd (omega arith)
  digits-fuel (suc x) y (suc k) zero hl hk = absurd (omega arith)
  digits-fuel (suc x) y (suc k) (suc l) hl hk =
      let halves = digits-fuel (suc x / 2) (y / 2) k l (omega arith) (omega arith) in rw halves

  -- The lowest digit, and the digits above it.
  bitwise-suc :
      (x y : ℕ)
      → bitwise other digit (suc x) y
        ≡ digit (suc x % 2) (y % 2) + 2 * bitwise other digit (suc x / 2) (y / 2)
  bitwise-suc x y =
      let halves = digits-fuel (suc x / 2) (y / 2) x (suc x / 2) (omega arith) (omega arith) in
      omega (arith, halves)

pub bit_and_step : (x y : ℕ) → bit_and x y ≡ bit_and (x / 2) (y / 2) * 2 + min (x % 2) (y % 2)
bit_and_step zero y = simp bit_and-bitwise (omega arith)
bit_and_step (suc x) y = simp bit_and-bitwise (omega (arith, bitwise-suc (λ _. 0) min x y))

pub bit_or_step : (x y : ℕ) → bit_or x y ≡ bit_or (x / 2) (y / 2) * 2 + max (x % 2) (y % 2)
bit_or_step zero y = simp bit_or-bitwise (omega arith)
bit_or_step (suc x) y = simp bit_or-bitwise (omega (arith, bitwise-suc (λ v. v) max x y))

-- The native xor of digits, on the two digits.
differ-bit : (x y : ℕ) → x < 2 → y < 2 → differ x y ≡ (x + y) % 2
differ-bit zero y hx hy = omega arith
differ-bit (suc zero) zero hx hy = refl
differ-bit (suc zero) (suc zero) hx hy = refl
differ-bit (suc zero) (suc (suc y)) hx hy = absurd (omega arith)
differ-bit (suc (suc x)) y hx hy = absurd (omega arith)

pub bit_xor_step : (a b : ℕ) → bit_xor a b ≡ bit_xor (a / 2) (b / 2) * 2 + (a + b) % 2
bit_xor_step zero b = simp bit_xor-bitwise (omega arith)
bit_xor_step (suc a) b = simp bit_xor-bitwise (
    omega (
      arith,
      bitwise-suc (λ y. y) differ a b,
      differ-bit (suc a % 2) (b % 2) (omega arith) (omega arith),
    ))

bit_and-zero_below : (n a : ℕ) → a ≤ n → bit_and a 0 ≡ 0
bit_and-zero_below n zero h = refl
bit_and-zero_below zero (suc a) h = absurd (omega arith)
bit_and-zero_below (suc n) (suc a) h =
    omega (arith, bit_and_step (suc a) 0, bit_and-zero_below n (suc a / 2) (omega arith))

bit_and-zero : (a : ℕ) → bit_and a 0 ≡ 0
bit_and-zero a = bit_and-zero_below a a (omega arith)

bit_or-zero_below : (n a : ℕ) → a ≤ n → bit_or a 0 ≡ a
bit_or-zero_below n zero h = refl
bit_or-zero_below zero (suc a) h = absurd (omega arith)
bit_or-zero_below (suc n) (suc a) h =
    omega (arith, bit_or_step (suc a) 0, bit_or-zero_below n (suc a / 2) (omega arith))

bit_or-zero : (a : ℕ) → bit_or a 0 ≡ a
bit_or-zero a = bit_or-zero_below a a (omega arith)

-- `x >> k`, one place at a time.
abbrev pub halve : ℕ → ℕ → ℕ
halve zero x = x
halve (suc k) x = halve k (x / 2)

pub halve-bit_and : (k a b : ℕ) → halve k (bit_and a b) ≡ bit_and (halve k a) (halve k b)
halve-bit_and zero a b = refl
halve-bit_and (suc k) a b =
    ap (halve k) (omega (arith, bit_and_step a b)) ∙ halve-bit_and k (a / 2) (b / 2)

pub halve-bit_xor : (k a b : ℕ) → halve k (bit_xor a b) ≡ bit_xor (halve k a) (halve k b)
halve-bit_xor zero a b = refl
halve-bit_xor (suc k) a b =
    ap (halve k) (omega (arith, bit_xor_step a b)) ∙ halve-bit_xor k (a / 2) (b / 2)

-- Masks by the number of their digits: `ones k` has `k` ones, and `one_at k` a one above `k` zeros.
abbrev pub ones : ℕ → ℕ
ones zero = 0
ones (suc k) = 2 * ones k + 1

abbrev pub one_at : ℕ → ℕ
one_at zero = 1
one_at (suc k) = 2 * one_at k

abbrev pub low_digits : ℕ → ℕ → ℕ
low_digits zero a = 0
low_digits (suc k) a = 2 * low_digits k (a / 2) + a % 2

abbrev pub double : ℕ → ℕ → ℕ
double zero q = q
double (suc k) q = 2 * double k q

pub bit_and-ones : (k a : ℕ) → bit_and a (ones k) ≡ low_digits k a
bit_and-ones zero a = bit_and-zero a
bit_and-ones (suc k) a = omega (
  arith,
  bit_and_step a (2 * ones k + 1),
  ap (bit_and (a / 2)) (let e : (2 * ones k + 1) / 2 ≡ ones k = omega arith in e),
  bit_and-ones k (a / 2),
)

pub bit_and-one_at : (k a : ℕ) → bit_and a (one_at k) ≡ double k (halve k a % 2)
bit_and-one_at zero a = omega (arith, bit_and_step a 1, bit_and-zero (a / 2))
bit_and-one_at (suc k) a = omega (
  arith,
  bit_and_step a (2 * one_at k),
  ap (bit_and (a / 2)) (let e : 2 * one_at k / 2 ≡ one_at k = omega arith in e),
  bit_and-one_at k (a / 2),
)

-- `(q << k) | r` is a sum when `r` fits `k` bits.
pub bit_or-double : (k q r : ℕ) → halve k r ≡ 0 → bit_or (double k q) r ≡ double k q + r
bit_or-double zero q r h = ap (bit_or q) h ∙ omega (arith, bit_or-zero q)
bit_or-double (suc k) q r h = omega (
  arith,
  bit_or_step (2 * double k q) r,
  ap (λ (t : ℕ). bit_or t (r / 2)) (let e : 2 * double k q / 2 ≡ double k q = omega arith in e),
  bit_or-double k q (r / 2) h,
)

pub bit_and_byte : (a : ℕ) → bit_and a 0xff ≡ a % 256
bit_and_byte a = bit_and-ones 8 a ∙ omega arith

-- The sign bit of a word.
pub bit_and_sign : (a : ℕ) → a < 2 ^ 16 → bit_and a 0x8000 ≡ a / 32768 * 32768
bit_and_sign a h = bit_and-one_at 15 a ∙ omega arith

-- A word from its two bytes.
pub bit_or_bytes : (q r : ℕ) → r < 256 → bit_or (q * 2 ^ 8) r ≡ q * 256 + r
bit_or_bytes q r h =
    ap (λ t. bit_or t r) (let e : q * 2 ^ 8 ≡ double 8 q = omega arith in e)
    ∙ bit_or-double 8 q r (omega arith)
    ∙ omega arith
