-- ===== src/Masm/Sanity/Laws.antt =====
-- src/libisa/masm/backend/sanity.tpp: which sections pass, and what the lines above the `.BURN` emit.
use libsim.Prelude.{
  ℕ, ◌≡◌, ◌↔◌, refl, true, List, [], ◌++◌, ltb, if◌then◌else◌, arith, inl, inr, Bool-cases,
}
use libsim.Prelude.Exec.{Outcome, ok, err, crash}
use libsim.Pep10.Isa.{then_ok}
use libsim.Symbol.{Entry}
use libsim.Masm.Ir.{
  Lines, simple, macro_invocation, end_of_lines, line, append_object_code, to_bytes,
}
use libsim.Masm.Sanity.{
  ProgramType, user_program, operating_system, is_burn, is_end, count_lines, check_burns,
  check_section, suppress,
}

-- How many `.BURN` a section of the type has.
abbrev pub burns_of : ProgramType → ℕ
burns_of user_program = 0
burns_of operating_system = 1

check_burns_iff :
    (type : ProgramType) (burns : ℕ) (ls : Lines)
    → ((check_burns type burns ls).0 ≡ true) ↔ (burns ≡ burns_of type)
unfolding check_burns
check_burns_iff user_program burns ls = ground arith
check_burns_iff operating_system burns ls = ground arith

-- The check passes exactly if the section has one `.END` at its top level, and as many `.BURN` as its type asks
-- for: none in a user program, one in an operating system.
pub check_section_iff :
    (type : ProgramType) (last : ℕ) (ls : Lines)
    → ((check_section type last ls).0 ≡ true)
      ↔ ((count_lines is_end ls ≡ 1) × (count_lines is_burn ls ≡ burns_of type))
unfolding check_section
check_section_iff type last ls = ground (arith, check_burns_iff type (count_lines is_burn ls) ls)

-- The lines that are left if those above the given one are taken away.
abbrev pub from_line : ℕ → Lines → Lines
from_line index end_of_lines = end_of_lines
from_line index (line (simple c kind) ls) =
    if ltb c.source_line index
    then from_line index ls
    else line (simple c kind) (from_line index ls)
from_line index (line (macro_invocation c body) ls) =
    if ltb c.source_line index
    then from_line index ls
    else line (macro_invocation c body) (from_line index ls)

nothing_before : (x : Outcome (List ℕ)) → then_ok x (λ back. ok ([] ++ back)) ≡ x
nothing_before (ok bytes) = refl
nothing_before (err e) = refl
nothing_before crash = refl

-- The code of a section whose lines above the given one are turned off is that of the section without these
-- lines.
pub to_bytes-suppress :
    (es : List Entry) (index : ℕ) (ls : Lines)
    → to_bytes es (suppress index ls) ≡ to_bytes es (from_line index ls)
unfolding to_bytes suppress append_object_code
to_bytes-suppress es index end_of_lines = refl
to_bytes-suppress es index (line (simple c kind) ls) = elim (Bool-cases (ltb c.source_line index)) [
  | inl above ↦
      rw (above, to_bytes-suppress es index ls) (nothing_before (to_bytes es (from_line index ls)))
  | inr below ↦ rw (below, to_bytes-suppress es index ls) refl
]
to_bytes-suppress es index (line (macro_invocation c body) ls) =
    elim (Bool-cases (ltb c.source_line index)) [
      | inl above ↦
          rw (above, to_bytes-suppress es index ls)
            (nothing_before (to_bytes es (from_line index ls)))
      | inr below ↦ rw (below, to_bytes-suppress es index ls) refl
    ]
