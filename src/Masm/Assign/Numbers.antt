-- ===== src/Masm/Assign/Numbers.antt =====
-- src/libisa/masm/backend/assign_addr.tpp: the listing numbers of the lines of a section.
use libsim.Prelude.{ℕ, ◌+◌, ◌≡◌, refl, ap, List, [], ◌∷◌, ◌++◌, u16}
use libsim.Masm.Ir.{Common, Kind, Lines, simple, macro_invocation, end_of_lines, line}
use libsim.Masm.Ir.Emit.{flatten}
use libsim.Masm.Assign.Image.{number, number_lines, assign_section_line_numbers}

-- The lines that hold no others are numbered one after the other.
abbrev Numbered : ℕ → List (Common × Kind) → ℕ → Type 0
Numbered first [] last = first ≡ last
Numbered first ((c, kind) ∷ items) last =
    (c.listing_line ≡ first) × Numbered (u16 (first + 1)) items last

Numbered-append :
    (first middle last : ℕ) (xs ys : List (Common × Kind))
    → Numbered first xs middle
    → Numbered middle ys last
    → Numbered first (xs ++ ys) last
Numbered-append first middle last [] ys h k = rw h k
Numbered-append first middle last (x ∷ xs) ys h k =
    (h.0, Numbered-append (u16 (first + 1)) middle last xs ys h.1 k)

number_lines-Numbered :
    (source listing : ℕ) (ls : Lines)
    → Numbered listing
        (flatten (number_lines source listing ls).0)
        (number_lines source listing ls).1
unfolding number_lines number
number_lines-Numbered source listing end_of_lines = refl
number_lines-Numbered source listing (line (simple c kind) ls) =
    (refl, number_lines-Numbered (u16 (source + 1)) (u16 (listing + 1)) ls)
number_lines-Numbered source listing (line (macro_invocation c body) ls) =
    let inside = number_lines 0 listing body in
    let rest = number_lines (u16 (source + 1)) inside.1 ls in
    Numbered-append listing inside.1 rest.1 (flatten inside.0) (flatten rest.0)
      (number_lines-Numbered 0 listing body) (number_lines-Numbered (u16 (source + 1)) inside.1 ls)

abbrev kinds : List (Common × Kind) → List Kind
kinds [] = []
kinds ((c, kind) ∷ items) = kind ∷ kinds items

kinds-append : (xs ys : List (Common × Kind)) → kinds (xs ++ ys) ≡ kinds xs ++ kinds ys
kinds-append [] ys = refl
kinds-append ((c, kind) ∷ xs) ys = ap (λ l. kind ∷ l) (kinds-append xs ys)

number_lines-kinds :
    (source listing : ℕ) (ls : Lines)
    → kinds (flatten (number_lines source listing ls).0) ≡ kinds (flatten ls)
unfolding number_lines number
number_lines-kinds source listing end_of_lines = refl
number_lines-kinds source listing (line (simple c kind) ls) =
    ap (λ l. kind ∷ l) (number_lines-kinds (u16 (source + 1)) (u16 (listing + 1)) ls)
number_lines-kinds source listing (line (macro_invocation c body) ls) =
    let inside = number_lines 0 listing body in
    let rest = number_lines (u16 (source + 1)) inside.1 ls in
    rw
      (
        kinds-append (flatten inside.0) (flatten rest.0),
        kinds-append (flatten body) (flatten ls),
        number_lines-kinds 0 listing body,
        number_lines-kinds (u16 (source + 1)) inside.1 ls,
      )
      refl

-- Numbering a section changes no line's kind, and gives the lines that hold no others, those of macros in their
-- places, consecutive listing numbers modulo 2 ^ 16, from the given one to the one that is left.
line_numbers-Numbered :
    (listing : ℕ) (ls : Lines)
    → (kinds (flatten (assign_section_line_numbers listing ls).0) ≡ kinds (flatten ls))
      × Numbered listing
          (flatten (assign_section_line_numbers listing ls).0)
          (assign_section_line_numbers listing ls).1
unfolding assign_section_line_numbers
line_numbers-Numbered listing ls =
    (number_lines-kinds 0 listing ls, number_lines-Numbered 0 listing ls)
