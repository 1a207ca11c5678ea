-- ===== src/Masm/Sanity.antt =====
-- src/libisa/masm/backend/sanity.tpp: the check of a whole section before its addresses are assigned, which also finds
-- the `.BURN` and turns off the code of the lines above it.
pub mod Laws
use libsim.Prelude.{
  ℕ, zero, suc, ◌+◌, Bool, true, false, Option, none, some, List, [], ◌∷◌, ◌++◌, ltb, ◌==◌,
  if◌then◌else◌,
}
use libsim.Prelude.Exec.{Outcome, ok, crash}
use libsim.Pep10.Isa.{then_ok}
use libsim.Symbol.{Entry}
use libsim.Masm.Args.{Argument, value}
use libsim.Masm.Ir.{
  Common, Kind, Line, Lines, simple, macro_invocation, end_of_lines, line, dot_burn, dot_end,
  dot_input, dot_output,
}

-- `program_type`.
pub data ProgramType : Type 0 where
  user_program operating_system : ProgramType

-- The messages; all but the last stand at a line.
pub data Complaint : Type 0 where
  no_end duplicate_end illegal_burn illegal_input illegal_output : ℕ → Complaint
  no_burn : Complaint

unfoldable pub is_burn : Kind → Bool
is_burn (dot_burn argument) = true
is_burn _ = false

unfoldable pub is_end : Kind → Bool
is_end dot_end = true
is_end _ = false

-- The loop that counts; it does not go into macros.
unfoldable pub count_lines : (Kind → Bool) → Lines → ℕ
count_lines wanted end_of_lines = 0
count_lines wanted (line (simple c kind) ls) =
    if wanted kind then suc (count_lines wanted ls) else count_lines wanted ls
count_lines wanted (line (macro_invocation c body) ls) = count_lines wanted ls

-- `ir_lines.back()->source_line`, which is undefined if there is no line.
unfoldable pub line_number : Line → ℕ
line_number (simple c kind) = c.source_line
line_number (macro_invocation c body) = c.source_line

unfoldable last_line : Lines → Outcome ℕ
unfolding line_number
last_line end_of_lines = crash
last_line (line l end_of_lines) = ok (line_number l)
last_line (line l (line k ls)) = last_line (line k ls)

-- The loops that complain about lines of one kind.
unfoldable complain : (ℕ → Kind → List Complaint) → Lines → List Complaint
complain about end_of_lines = []
complain about (line (simple c kind) ls) = about c.source_line kind ++ complain about ls
complain about (line (macro_invocation c body) ls) = complain about ls

unfoldable about_end : ℕ → Kind → List Complaint
about_end at dot_end = duplicate_end at ∷ []
about_end at _ = []

unfoldable about_user : ℕ → Kind → List Complaint
about_user at (dot_burn argument) = illegal_burn at ∷ []
about_user at (dot_input i) = illegal_input at ∷ []
about_user at (dot_output i) = illegal_output at ∷ []
about_user at _ = []

unfoldable about_burn : ℕ → Kind → List Complaint
about_burn at (dot_burn argument) = illegal_burn at ∷ []
about_burn at _ = []

-- The tests after those on `.END`, for a section of the given type with the given number of `.BURN`.
unfoldable pub check_burns : ProgramType → ℕ → Lines → Bool × List Complaint
unfolding complain about_user about_burn
check_burns user_program burns ls =
    if ltb 0 burns then (false, complain about_user ls) else (true, [])
check_burns operating_system burns ls =
    if burns == 0
    then (false, no_burn ∷ [])
    else if ltb 1 burns
    then (false, complain about_burn ls)
    else (true, [])

unfoldable pub check_section : ProgramType → ℕ → Lines → Bool × List Complaint
unfolding count_lines is_end is_burn complain about_end check_burns
check_section type last ls =
    if count_lines is_end ls == 0
    then (false, no_end last ∷ [])
    else if ltb 1 (count_lines is_end ls)
    then (false, complain about_end ls)
    else check_burns type (count_lines is_burn ls) ls

-- The first `.BURN`: the value of its argument and its line.
unfoldable burn_here : List Entry → ℕ → Kind → Outcome (Option (ℕ × ℕ))
unfolding value
burn_here es at (dot_burn argument) = then_ok (value es argument) λ v. ok (some (v, at))
burn_here es at _ = ok none

unfoldable or_later : Option (ℕ × ℕ) → Outcome (Option (ℕ × ℕ)) → Outcome (Option (ℕ × ℕ))
or_later (some found) later = ok (some found)
or_later none later = later

unfoldable find_burn : List Entry → Lines → Outcome (Option (ℕ × ℕ))
unfolding burn_here or_later
find_burn es end_of_lines = ok none
find_burn es (line (simple c kind) ls) =
    let later = find_burn es ls in
    then_ok (burn_here es c.source_line kind) λ found. or_later found later
find_burn es (line (macro_invocation c body) ls) = find_burn es ls

unfoldable pub silent : Common → Common
silent c = record c { emits_object_code = false }

-- The queue of macros whose lines are all turned off, those of macros in them too.
unfoldable silence : Lines → Lines
unfolding silent
silence end_of_lines = end_of_lines
silence (line (simple c kind) ls) = line (simple (silent c) kind) (silence ls)
silence (line (macro_invocation c body) ls) =
    line (macro_invocation (silent c) (silence body)) (silence ls)

-- The loop over the lines above the given one.
unfoldable pub suppress : ℕ → Lines → Lines
unfolding silent silence
suppress index end_of_lines = end_of_lines
suppress index (line (simple c kind) ls) =
    line (simple (if ltb c.source_line index then silent c else c) kind) (suppress index ls)
suppress index (line (macro_invocation c body) ls) =
    line
      (if ltb c.source_line index
        then macro_invocation (silent c) (silence body)
        else macro_invocation c body)
      (suppress index ls)

unfoldable burn_index : Option (ℕ × ℕ) → ℕ
burn_index none = 0
burn_index (some (address, at)) = at

unfoldable pub burn_address : Option (ℕ × ℕ) → Option ℕ → Option ℕ
burn_address none old = old
burn_address (some (address, at)) old = some address

-- What the second half sets: `BURN_address` and the lines.
unfoldable fix_up : ProgramType → List Entry → Option ℕ → Lines → Outcome (Option ℕ × Lines)
unfolding find_burn suppress burn_index burn_address
fix_up user_program es old ls = ok (old, ls)
fix_up operating_system es old ls =
    then_ok (find_burn es ls) λ found. ok (burn_address found old, suppress (burn_index found) ls)

-- What the function returns, logs and leaves in the section.
record Checked : Type 0 where
  pub success : Bool
  pub complaints : List Complaint
  pub burn : Option ℕ
  pub lines : Lines

unfoldable sanity_fixup : ProgramType → List Entry → Option ℕ → Lines → Outcome Checked
unfolding last_line check_section fix_up
sanity_fixup type es old ls = then_ok (last_line ls) λ last.
    then_ok (fix_up type es old ls) λ fixed. ok (record {
      success = (check_section type last ls).0;
      complaints = (check_section type last ls).1;
      burn = fixed.0;
      lines = fixed.1;
    })
