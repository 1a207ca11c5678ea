-- ===== src/Masm/Conversion/Escape.antt =====
-- src/libisa/masm/conversion.cpp: the two loops over a text, and texts of escapes.
use libsim.Prelude.{
  ℕ, zero, suc, ◌+◌, ◌/◌, ◌%◌, ◌<◌, ◌≤◌, ◌≡◌, refl, Bool, true, false, ◌&&◌, List, [], ◌∷◌, ltb,
  ◌==◌, if◌then◌else◌, length, arith, All, holds_below, holds_below_at,
}
use libsim.Prelude.Exec.{Outcome, ok, err, crash}
use libsim.Pep10.Isa.{then_ok}
use libsim.Masm.Conversion.{
  Parsed, parse_byte_character, parse_escape, parse_letter, parse_hex, escape_value, strtol,
  collect, valid_bytes, byte_vector, count, valid_length, byte_string_length,
}

abbrev counted : Outcome (Bool × List ℕ) → Outcome (Bool × ℕ)
counted r = then_ok r λ p. ok (p.0, length p.1)

counted-cons :
    (p : Parsed) (x : Outcome (Bool × List ℕ))
    → then_ok (counted x) (λ r. ok (p.okay && r.0, suc r.1))
      ≡ counted (then_ok x λ r. ok (p.okay && r.0, p.value ∷ r.1))
counted-cons p (ok r) = refl
counted-cons p (err e) = refl
counted-cons p crash = refl

-- A step of both loops, for any outcome of the parser.
counted-step :
    (x : Outcome Parsed) (f : Parsed → Outcome (Bool × List ℕ)) (g : Parsed → Outcome (Bool × ℕ))
    → ((p : Parsed) → g p ≡ counted (f p))
    → then_ok x (λ p. then_ok (g p) λ r. ok (p.okay && r.0, suc r.1))
      ≡ counted (then_ok x λ p. then_ok (f p) λ r. ok (p.okay && r.0, p.value ∷ r.1))
counted-step (ok p) f g h = rw (h p) (counted-cons p (f p))
counted-step (err e) f g h = refl
counted-step crash f g h = refl

count-collect :
    (fuel temp : ℕ) (text : List ℕ) → count fuel temp text ≡ counted (collect fuel temp text)
unfolding count collect
count-collect fuel temp [] = refl
count-collect zero temp (head ∷ text) = refl
count-collect (suc fuel) temp (head ∷ text) =
    counted-step (parse_byte_character temp (head ∷ text)) (λ p. collect fuel p.value p.rest)
      (λ p. count fuel p.value p.rest) λ p. count-collect fuel p.value p.rest

valid-counted :
    (r : Outcome (Bool × List ℕ))
    → then_ok (counted r) valid_length ≡ then_ok (then_ok r valid_bytes) λ bytes. ok (length bytes)
unfolding valid_length valid_bytes
valid-counted (ok (true, bytes)) = refl
valid-counted (ok (false, bytes)) = refl
valid-counted (err e) = refl
valid-counted crash = refl

-- `byte_string_length` is the length of what `byte_vector` returns, and throws on the texts on which
-- `byte_vector` throws.
pub byte_string_length-byte_vector :
    (text : List ℕ)
    → byte_string_length text ≡ then_ok (byte_vector text) λ bytes. ok (length bytes)
unfolding byte_string_length byte_vector
byte_string_length-byte_vector text =
    rw (count-collect (length text) 0 text) (valid-counted (collect (length text) 0 text))

-- The character of a digit, and a byte written as `\x` and two digits.
abbrev hex_digit : ℕ → ℕ
hex_digit digit = if ltb digit 10 then digit + 48 else digit + 55

abbrev pub escape : List ℕ → List ℕ
escape [] = []
escape (byte ∷ bytes) = 92 ∷ 120 ∷ hex_digit (byte / 16) ∷ hex_digit (byte % 16) ∷ escape bytes

abbrev reads_byte : ℕ → Bool
reads_byte byte =
    let (value, all) = strtol (hex_digit (byte / 16)) (hex_digit (byte % 16)) in
    all && value == byte

strtol_test : ℕ → Bool
strtol_test byte = reads_byte byte

strtol_table : holds_below 256 strtol_test ≡ true
unfolding holds_below strtol_test strtol
strtol_table = refl

of_test :
    (byte : ℕ) (r : ℕ × Bool)
    → (let (value, all) = r in all && value == byte) ≡ true
    → r ≡ (byte, true)
of_test byte (value, true) h = ground arith
of_test byte (value, false) h = absurd (cc h)

strtol-hex_digit :
    (byte : ℕ) → byte < 256 → strtol (hex_digit (byte / 16)) (hex_digit (byte % 16)) ≡ (byte, true)
unfolding strtol_test
strtol-hex_digit byte h =
    of_test byte (strtol (hex_digit (byte / 16)) (hex_digit (byte % 16)))
      (holds_below_at 256 strtol_test byte strtol_table h)

parse-escape :
    (temp byte : ℕ) (text : List ℕ)
    → byte < 256
    → parse_byte_character temp (92 ∷ 120 ∷ hex_digit (byte / 16) ∷ hex_digit (byte % 16) ∷ text)
      ≡ ok (record { okay = true; value = byte; rest = text })
unfolding parse_byte_character parse_escape escape_value parse_letter parse_hex
parse-escape temp byte text h = rw (strtol-hex_digit byte h) refl

-- Any fuel that is at least the length of the escaped text is enough.
collect-escape :
    (fuel temp : ℕ) (bytes : List ℕ)
    → All (λ b. b < 256) bytes
    → length (escape bytes) ≤ fuel
    → collect fuel temp (escape bytes) ≡ ok (true, bytes)
unfolding collect
collect-escape fuel temp [] h le = refl
collect-escape zero temp (byte ∷ bytes) h le = absurd (omega arith)
collect-escape (suc fuel) temp (byte ∷ bytes) h le =
    rw (parse-escape temp byte (escape bytes) h.0, collect-escape fuel byte bytes h.1 (omega arith))
      refl

-- The text that writes each of some bytes below 256 as `\x` and two digits to base 16 is read as
-- these bytes.
pub byte_vector-escape :
    (bytes : List ℕ) → All (λ b. b < 256) bytes → byte_vector (escape bytes) ≡ ok bytes
unfolding byte_vector valid_bytes
byte_vector-escape bytes h =
    rw (collect-escape (length (escape bytes)) 0 bytes h (omega arith)) refl
