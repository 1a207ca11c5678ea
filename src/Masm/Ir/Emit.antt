-- ===== src/Masm/Ir/Emit.antt =====
-- src/libisa/masm/ir and asmb/pep10/ir.cpp: the code of a line and its size, and the code of a section.
use libsim.Prelude.{
  ℕ, ◌<◌, ◌≡◌, ◌⊎◌, inl, inr, refl, sym, ap, ◌∙◌, true, List, [], ◌∷◌, ◌++◌, ltb, length,
  length-replicate, replicate, arith, u16, u8, Bool-cases,
}
use mathlib.Core.List.{append_assoc}
use libsim.Prelude.Exec.{Outcome, ok, err, crash}
use libsim.Pep10.Isa.{then_ok, opcode, opcode_with}
use libsim.Symbol.{Entry}
use libsim.Masm.Args.{
  Argument, symbol_ref, char, string, ascii, dec, unsigned_dec, hex, value, bytes, ascii_argument,
}
use libsim.Masm.Conversion.{byte_string_length, byte_vector}
use libsim.Masm.Conversion.Escape.{byte_string_length-byte_vector}
use libsim.Masm.Ir.{
  Common, Kind, Lines, simple, macro_invocation, end_of_lines, line, no_bytes, bytes_type,
  object_code_bytes, num_bytes_generated, word_bytes, code_of, append_object_code, to_bytes,
  dot_address, dot_align, dot_ascii, dot_block, dot_byte, dot_word, unary_instruction,
  nonunary_instruction,
}

-- A result that goes on with a value has that value.
pub then_ok-ok {ℓ} :
    {A B : Type ℓ} (x : Outcome A) (f : A → Outcome B) (b : B)
    → then_ok x f ≡ ok b
    → (a : A) × (x ≡ ok a) × (f a ≡ ok b)
then_ok-ok (ok a) f b h = (a, refl, h)
then_ok-ok (err e) f b h = absurd (cc h)
then_ok-ok crash f b h = absurd (cc h)

pub ok-injective {ℓ} : {A : Type ℓ} {a b : A} → ok a ≡ ok b → a ≡ b
ok-injective h = cc h

-- The lines that hold no others, in the order of their code.
abbrev pub flatten : Lines → List (Common × Kind)
flatten end_of_lines = []
flatten (line (simple c kind) ls) = (c, kind) ∷ flatten ls
flatten (line (macro_invocation c body) ls) = flatten body ++ flatten ls

-- An argument that is not a symbol has one value, whatever the symbols are.
abbrev IsFixed : Argument → Type 0
IsFixed (symbol_ref i) = ⊥
IsFixed _ = Unit

-- The arguments that the parser gives the lines whose sizes depend on them.
abbrev pub IsParsed : Kind → Type 0
IsParsed (dot_align argument direction) = IsFixed argument
IsParsed (dot_ascii text) = ascii_argument text 65535 ≡ ok (ascii text)
IsParsed (dot_block argument) = IsFixed argument
IsParsed _ = Unit

value-IsFixed :
    (es fs : List Entry) (argument : Argument)
    → IsFixed argument
    → value es argument ≡ value fs argument
unfolding value
value-IsFixed es fs (char text) h = refl
value-IsFixed es fs (string text) h = refl
value-IsFixed es fs (ascii text) h = refl
value-IsFixed es fs (dec v) h = refl
value-IsFixed es fs (unsigned_dec v) h = refl
value-IsFixed es fs (hex v) h = refl
value-IsFixed es fs (symbol_ref i) h = absurd h

-- Sizes do not depend on the symbols.
pub object_code_bytes-IsParsed :
    (es fs : List Entry) (c : Common) (kind : Kind)
    → IsParsed kind
    → object_code_bytes es c kind ≡ object_code_bytes fs c kind
unfolding object_code_bytes
object_code_bytes-IsParsed es fs c (dot_block argument) h = value-IsFixed es fs argument h
object_code_bytes-IsParsed es fs c (dot_align argument direction) h = refl
object_code_bytes-IsParsed es fs c (dot_ascii text) h = refl
object_code_bytes-IsParsed es fs c _ h = refl

-- The constructor throws on a longer text.
too_long :
    (text : List ℕ) (len : ℕ)
    → byte_string_length text ≡ ok len
    → ltb 65535 len ≡ true
    → ascii_argument text 65535 ≡ crash
unfolding ascii_argument
too_long text len e h = rw (e, h) refl

-- A text that the constructor of `ascii_argument` took has at most 65535 bytes.
ascii_length :
    (text code : List ℕ)
    → ascii_argument text 65535 ≡ ok (ascii text)
    → byte_vector text ≡ ok code
    → length code < 65536
ascii_length text code h e =
    let len = byte_string_length-byte_vector text ∙ ap (λ r. then_ok r λ b. ok (length b)) e in
    elim (Bool-cases (ltb 65535 (length code))) [
      | inl long ↦ absurd (cc (h, too_long text (length code) len long))
      | inr fits ↦ ground arith
    ]

-- A list of a known length that is made from a value.
length-made :
    (x : Outcome ℕ) (f : ℕ → List ℕ) (n : ℕ) (code : List ℕ)
    → ((v : ℕ) → length (f v) ≡ n)
    → then_ok x (λ v. ok (f v)) ≡ ok code
    → length code ≡ n
length-made (ok v) f n code h e = ap length (sym (ok-injective e)) ∙ h v
length-made (err e) f n code h q = absurd (cc q)
length-made crash f n code h e = absurd (cc e)

-- The code of a line has as many bytes as the line says, if neither fails.
pub length-code_of :
    (es : List Entry) (c : Common) (kind : Kind) (n : ℕ) (code : List ℕ)
    → IsParsed kind
    → object_code_bytes es c kind ≡ ok n
    → code_of es c kind ≡ ok code
    → length code ≡ n
unfolding object_code_bytes code_of word_bytes bytes
length-code_of es c (dot_address i) n code p h e =
    length-made (value es (symbol_ref i)) word_bytes 2 code (λ v. refl) e ∙ ok-injective h
length-code_of es c (dot_align argument direction) n code p h e =
    ap length (sym (ok-injective e)) ∙ length-replicate (num_bytes_generated c) 0 ∙ ok-injective h
length-code_of es c (dot_ascii text) n code p h e =
    let len = byte_string_length-byte_vector text ∙ ap (λ r. then_ok r λ b. ok (length b)) e in
    let size = ap (λ r. then_ok r λ k. ok (u16 k)) len in
    let small = ascii_length text code p e in omega (arith, ok-injective (sym size ∙ h))
length-code_of es c (dot_block argument) n code p h e =
    let size = ap (λ r. then_ok r λ k. ok (replicate k 0)) h in
    ap length (ok-injective (sym e ∙ size)) ∙ length-replicate n 0
length-code_of es c (dot_byte argument) n code p h e =
    length-made (value es argument) (λ v. u8 v ∷ []) 1 code (λ v. refl) e ∙ ok-injective h
length-code_of es c (dot_word argument) n code p h e =
    length-made (value es argument) word_bytes 2 code (λ v. refl) e ∙ ok-injective h
length-code_of es c (unary_instruction mnemonic) n code p h e =
    length-made (opcode mnemonic) (λ op. op ∷ []) 1 code (λ op. refl) e ∙ ok-injective h
length-code_of es c (nonunary_instruction mnemonic mode argument) n code p h e =
    let (op, decoded, rest) =
      then_ok-ok (opcode_with mnemonic mode)
        (λ op. then_ok (value es argument) λ v. ok (op ∷ word_bytes v)) code e in
    length-made (value es argument) (λ v. op ∷ word_bytes v) 3 code (λ v. refl) rest
    ∙ ok-injective h
length-code_of es c _ n code p h e = ap length (sym (ok-injective e)) ∙ ok-injective h

-- A line that generates bytes is one that emits object code.
abbrev pub IsEmitting : Lines → Type 0
IsEmitting end_of_lines = Unit
IsEmitting (line (simple c kind) ls) =
    ((bytes_type kind ≡ no_bytes) ⊎ (c.emits_object_code ≡ true)) × IsEmitting ls
IsEmitting (line (macro_invocation c body) ls) =
    (c.emits_object_code ≡ true) × IsEmitting body × IsEmitting ls

-- The code of lines that hold no others.
abbrev pub codes : List Entry → List (Common × Kind) → Outcome (List ℕ)
codes es [] = ok []
codes es ((c, kind) ∷ items) =
    then_ok (code_of es c kind) λ front. then_ok (codes es items) λ back. ok (front ++ back)

no_code :
    (es : List Entry) (c : Common) (kind : Kind)
    → bytes_type kind ≡ no_bytes
    → code_of es c kind ≡ ok []
unfolding bytes_type code_of
no_code es c (dot_address i) h = absurd (cc h)
no_code es c (dot_align argument direction) h = absurd (cc h)
no_code es c (dot_ascii text) h = absurd (cc h)
no_code es c (dot_block argument) h = absurd (cc h)
no_code es c (dot_byte argument) h = absurd (cc h)
no_code es c (dot_word argument) h = absurd (cc h)
no_code es c (unary_instruction mnemonic) h = absurd (cc h)
no_code es c (nonunary_instruction mnemonic mode argument) h = absurd (cc h)
no_code es c _ h = refl

append_object_code-IsEmitting :
    (es : List Entry) (c : Common) (kind : Kind)
    → (bytes_type kind ≡ no_bytes) ⊎ (c.emits_object_code ≡ true)
    → append_object_code es c kind ≡ code_of es c kind
unfolding append_object_code
append_object_code-IsEmitting es c kind (inr h) = rw h refl
append_object_code-IsEmitting es c kind (inl h) = elim (Bool-cases c.emits_object_code) [
  | inl on ↦ rw on refl
  | inr off ↦ rw off (sym (no_code es c kind h))
]

-- Two codes, one after the other.
abbrev pub joined : Outcome (List ℕ) → Outcome (List ℕ) → Outcome (List ℕ)
joined x y = then_ok x λ front. then_ok y λ back. ok (front ++ back)

pub joined-nil : (y : Outcome (List ℕ)) → y ≡ joined (ok []) y
joined-nil (ok b) = refl
joined-nil (err e) = refl
joined-nil crash = refl

joined_assoc : (x y w : Outcome (List ℕ)) → joined x (joined y w) ≡ joined (joined x y) w
joined_assoc (err e) y w = refl
joined_assoc crash y w = refl
joined_assoc (ok a) (err e) w = refl
joined_assoc (ok a) crash w = refl
joined_assoc (ok a) (ok b) (err e) = refl
joined_assoc (ok a) (ok b) crash = refl
joined_assoc (ok a) (ok b) (ok q) = ap ok (sym (append_assoc a b q))

codes-append :
    (es : List Entry) (xs ys : List (Common × Kind))
    → codes es (xs ++ ys)
      ≡ then_ok (codes es xs) λ front. then_ok (codes es ys) λ back. ok (front ++ back)
codes-append es [] ys = joined-nil (codes es ys)
codes-append es ((c, kind) ∷ xs) ys =
    rw (codes-append es xs ys) (joined_assoc (code_of es c kind) (codes es xs) (codes es ys))

-- The code of a section is that of its lines, those of macros in their places.
pub to_bytes-flatten :
    (es : List Entry) (ls : Lines) → IsEmitting ls → to_bytes es ls ≡ codes es (flatten ls)
unfolding to_bytes
to_bytes-flatten es end_of_lines h = refl
to_bytes-flatten es (line (simple c kind) ls) h =
    rw (append_object_code-IsEmitting es c kind h.0, to_bytes-flatten es ls h.1) refl
to_bytes-flatten es (line (macro_invocation c body) ls) h =
    rw (h.0, to_bytes-flatten es body h.1, to_bytes-flatten es ls h.2)
      (sym (codes-append es (flatten body) (flatten ls)))
