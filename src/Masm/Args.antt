-- ===== src/Masm/Args.antt =====
-- src/libisa/masm/ir/args.tpp: the arguments of instructions and directives, for addresses of 16 bits. A
-- reference to a symbol holds the symbol's place among all symbols.
pub mod Fits
use libsim.Prelude.{
  ℕ, zero, suc, ◌+◌, ◌-◌, ◌*◌, ◌^◌, Bool, true, false, Option, none, some, List, [], ◌∷◌, ltb, leb,
  ◌==◌, if◌then◌else◌, not, length, get_elem?,
}
use libsim.Prelude.Exec.{Outcome, ok, err, crash}
use libsim.Pep10.Isa.{then_ok}
use libsim.Symbol.{Entry}
use libsim.Symbol.Values.{value_of}
use libsim.Masm.Conversion.{unquoted_string_to_integral, byte_string_length, byte_vector}

pub data Argument : Type 0 where
  char string ascii : List ℕ → Argument
  dec unsigned_dec hex : ℕ → Argument
  symbol_ref : ℕ → Argument

-- The constructors that refuse a text, by an exception.
unfoldable char_argument : List ℕ → Outcome Argument
unfolding byte_string_length unquoted_string_to_integral
char_argument text = then_ok (byte_string_length text) λ len.
    if len == 1
    then then_ok (unquoted_string_to_integral text 1) (λ r. if r.0 then ok (char text) else crash)
    else crash

unfoldable string_argument : List ℕ → Outcome Argument
unfolding byte_string_length unquoted_string_to_integral
string_argument text = then_ok (byte_string_length text) λ len.
    if ltb 2 len
    then crash
    else then_ok (unquoted_string_to_integral text 2) (λ r. if r.0 then ok (string text) else crash)

unfoldable pub ascii_argument : List ℕ → ℕ → Outcome Argument
unfolding byte_string_length
ascii_argument text max_size =
    then_ok (byte_string_length text) λ len. if ltb max_size len then crash else ok (ascii text)

unfoldable symbol_value : List Entry → Option Entry → Outcome ℕ
unfolding value_of
symbol_value entries none = crash
symbol_value entries (some e) = value_of (length entries) entries e.value

-- The result of a conversion is not looked at: its value counts.
unfoldable pub value : List Entry → Argument → Outcome ℕ
unfolding unquoted_string_to_integral symbol_value
value entries (char text) = then_ok (unquoted_string_to_integral text 1) λ r. ok r.1
value entries (string text) = then_ok (unquoted_string_to_integral text 2) λ r. ok r.1
value entries (ascii text) = crash
value entries (dec v) = ok v
value entries (unsigned_dec v) = ok v
value entries (hex v) = ok v
value entries (symbol_ref i) = symbol_value entries (get_elem? entries i)

-- `fits_in` of a signed and of an unsigned number.
unfoldable pub dec_fits_in : ℕ → ℕ → Bool
dec_fits_in v num_bytes =
    if leb 2 num_bytes
    then true
    else if num_bytes == 0
    then false
    else if leb (2 ^ 15) v
    then leb (2 ^ 16 - v) (2 ^ (8 * num_bytes - 1) + 1)
    else ltb v (2 ^ (8 * num_bytes - 1))

unfoldable unsigned_fits_in : ℕ → ℕ → Bool
unsigned_fits_in v num_bytes =
    if leb 2 num_bytes then true else if num_bytes == 0 then false else ltb v (2 ^ (8 * num_bytes))

unfoldable pub fits_in : ℕ → Argument → Outcome Bool
unfolding dec_fits_in unsigned_fits_in byte_string_length
fits_in num_bytes (char text) = ok (ltb 0 num_bytes)
fits_in num_bytes (dec v) = ok (dec_fits_in v num_bytes)
fits_in num_bytes (unsigned_dec v) = ok (unsigned_fits_in v num_bytes)
fits_in num_bytes (hex v) = ok (unsigned_fits_in v num_bytes)
fits_in num_bytes (string text) = then_ok (byte_string_length text) λ len. ok (leb len num_bytes)
fits_in num_bytes (ascii text) =
    if num_bytes == 0
    then ok false
    else then_ok (byte_string_length text) (λ len. ok (leb len num_bytes))
fits_in num_bytes (symbol_ref i) = ok (if num_bytes == 0 then false else leb 2 num_bytes)

-- The bytes of the argument of `.ASCII`.
unfoldable pub bytes : List ℕ → Outcome (List ℕ)
unfolding byte_vector
bytes text = byte_vector text
