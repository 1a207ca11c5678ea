-- ===== src/Masm/Conversion.antt =====
-- src/libisa/masm/conversion.hpp and conversion.cpp: the bytes of the text of an argument, with its escapes. A
-- character stands as its number, and a text as a list of characters.
pub mod Escape
use libsim.Prelude.{
  ℕ, zero, suc, ◌+◌, ◌-◌, ◌*◌, Bool, true, false, ◌&&◌, ◌||◌, not, Option, none, some, List, [],
  ◌∷◌, ltb, leb, ◌==◌, if◌then◌else◌, length, bit_or, u8, u16, ◌<<<◌,
}
use libsim.Prelude.Exec.{Outcome, ok, err, crash}
use libsim.Pep10.Isa.{then_ok}

-- The value of a digit to base 16, for `strtol`.
unfoldable hex_value : ℕ → Option ℕ
hex_value ch =
    if leb 48 ch && leb ch 57
    then some (ch - 48)
    else if leb 65 ch && leb ch 70
    then some (ch - 55)
    else if leb 97 ch && leb ch 102
    then some (ch - 87)
    else none

unfoldable is_space : ℕ → Bool
is_space ch = (ch == 32) || (leb 9 ch && leb ch 13)

-- `strtol` to base 16 on two characters, cast to a byte, and whether all of them were read. Spaces
-- and a sign may stand before the first digit, and a character 0 ends the text.
unfoldable strtol_second : ℕ → Option ℕ → ℕ × Bool
strtol_second low (some digit) = (low * 16 + digit, true)
strtol_second low none = (low, false)

unfoldable strtol_signed : ℕ → Option ℕ → ℕ × Bool
unfolding is_space
strtol_signed first none = (0, false)
strtol_signed first (some digit) =
    if (first == 43) || is_space first
    then (digit, true)
    else if first == 45
    then (u8 (256 - digit), true)
    else (0, false)

unfoldable strtol_from : ℕ → ℕ → Option ℕ → ℕ × Bool
unfolding hex_value strtol_second strtol_signed
strtol_from first second (some digit) =
    if second == 0 then (digit, true) else strtol_second digit (hex_value second)
strtol_from first second none =
    if first == 0 then (0, true) else strtol_signed first (hex_value second)

unfoldable pub strtol : ℕ → ℕ → ℕ × Bool
unfolding strtol_from hex_value
strtol first second = strtol_from first second (hex_value first)

-- What `parse_byte_character` returns, the `value` it leaves, and the text from `start` on.
pub record Parsed : Type 0 where
  pub okay : Bool
  pub value : ℕ
  pub rest : List ℕ

-- The number of a letter after a backslash that stands for one byte.
unfoldable pub escape_value : ℕ → Option ℕ
escape_value head =
    if head == 98
    then some 8
    else if head == 102
    then some 12
    else if head == 110
    then some 10
    else if head == 114
    then some 13
    else if head == 116
    then some 9
    else if head == 118
    then some 11
    else none

unfoldable pub parse_hex : ℕ → List ℕ → Parsed
unfolding strtol
parse_hex old (first ∷ second ∷ text) =
    let (value, all) = strtol first second in record { okay = all; value = value; rest = text }
parse_hex old text = record { okay = false; value = old; rest = text }

unfoldable pub parse_letter : ℕ → ℕ → Option ℕ → List ℕ → Outcome Parsed
unfolding parse_hex
parse_letter old head (some value) text = ok (record { okay = true; value = value; rest = text })
parse_letter old head none text =
    if (head == 120) || (head == 88) then ok (parse_hex old text) else crash

unfoldable pub parse_escape : ℕ → List ℕ → Outcome Parsed
unfolding escape_value parse_letter
parse_escape old [] = ok (record { okay = false; value = old; rest = [] })
parse_escape old (head ∷ text) = parse_letter old head (escape_value head) text

unfoldable pub parse_byte_character : ℕ → List ℕ → Outcome Parsed
unfolding parse_escape
parse_byte_character old [] = ok (record { okay = false; value = old; rest = [] })
parse_byte_character old (head ∷ text) =
    if head == 92
    then parse_escape old text
    else ok (record { okay = true; value = u8 head; rest = text })

-- The loop of `byte_vector`. Each turn takes at least one character, so that the length of the text is
-- enough fuel.
unfoldable pub collect : ℕ → ℕ → List ℕ → Outcome (Bool × List ℕ)
collect fuel temp [] = ok (true, [])
collect zero temp (head ∷ text) = crash
collect (suc fuel) temp (head ∷ text) =
    then_ok (parse_byte_character temp (head ∷ text))
      λ p. then_ok (collect fuel p.value p.rest) λ r. ok (p.okay && r.0, p.value ∷ r.1)

unfoldable pub valid_bytes : Bool × List ℕ → Outcome (List ℕ)
valid_bytes (true, bytes) = ok bytes
valid_bytes (false, bytes) = crash

unfoldable pub byte_vector : List ℕ → Outcome (List ℕ)
unfolding collect valid_bytes
byte_vector text = then_ok (collect (length text) 0 text) valid_bytes

-- The loop of `byte_string_length`.
unfoldable pub count : ℕ → ℕ → List ℕ → Outcome (Bool × ℕ)
count fuel temp [] = ok (true, 0)
count zero temp (head ∷ text) = crash
count (suc fuel) temp (head ∷ text) =
    then_ok (parse_byte_character temp (head ∷ text))
      λ p. then_ok (count fuel p.value p.rest) λ r. ok (p.okay && r.0, suc r.1)

unfoldable pub valid_length : Bool × ℕ → Outcome ℕ
valid_length (true, n) = ok n
valid_length (false, n) = crash

unfoldable pub byte_string_length : List ℕ → Outcome ℕ
unfolding count valid_length
byte_string_length text = then_ok (count (length text) 0 text) valid_length

-- `str[i]`, which is 0 just behind the end.
unfoldable char_at : ℕ → List ℕ → ℕ
char_at i [] = 0
char_at zero (head ∷ text) = head
char_at (suc i) (head ∷ text) = char_at i text

unfoldable starts_with_hex_prefix : List ℕ → Bool
unfolding char_at
starts_with_hex_prefix text =
    ltb (length text) 2
    && (char_at 0 text == 48)
    && ((char_at 1 text == 120) || (char_at 1 text == 88))

unfoldable drop_two : List ℕ → List ℕ
drop_two (a ∷ b ∷ text) = text
drop_two text = text

-- The loop of `unqouted_string_to_integral`, which stops at the first character that is not valid. The
-- third number counts the characters.
unfoldable integral : ℕ → ℕ → ℕ → ℕ → List ℕ → Outcome (Bool × ℕ × ℕ)
integral fuel temp value seen [] = ok (true, value, seen)
integral zero temp value seen (head ∷ text) = crash
integral (suc fuel) temp value seen (head ∷ text) =
    then_ok (parse_byte_character temp (head ∷ text)) λ p.
      let value' = bit_or (u16 (value <<< 8)) p.value in
      let rest = integral fuel p.value value' (suc seen) p.rest in
      if p.okay then rest else ok (false, value', suc seen)

-- With `value_size_t` of 16 bits: whether it went well, and the value.
unfoldable pub unquoted_string_to_integral : List ℕ → ℕ → Outcome (Bool × ℕ)
unfolding starts_with_hex_prefix drop_two integral
unquoted_string_to_integral str byte_length =
    let text = if starts_with_hex_prefix str then drop_two str else str in
    then_ok (integral (length text) 0 0 0 text) λ r. ok (r.0 && not (ltb byte_length r.2), r.1)
