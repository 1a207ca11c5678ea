-- ===== src/Masm/Assign/Image.antt =====
-- src/libisa/masm/backend/assign_addr.tpp: the line numbers of a section, and the sections of an image.
use libsim.Prelude.{ℕ, ◌+◌, Bool, ◌&&◌, Option, none, some, u16}
use libsim.Prelude.Exec.{Outcome, ok}
use libsim.Pep10.Isa.{then_ok}
use libsim.Masm.Ir.{Common, Lines, simple, macro_invocation, end_of_lines, line}
use libsim.Masm.Assign.{Pass, Assigned, move_to, assign_section_forward, assign_section_backward}

-- `body_ir` of a section.
pub record Section : Type 0 where
  pub burn_address : Option ℕ
  pub ir_lines : Lines

unfoldable pub number : ℕ → ℕ → Common → Common
number source listing c = record c { source_line = source; listing_line = listing }

-- The loop from the given source line on; the number is the listing line that it leaves. The lines of a
-- macro are counted from 0 in the source, and go on in the listing.
unfoldable pub number_lines : ℕ → ℕ → Lines → Lines × ℕ
unfolding number
number_lines source listing end_of_lines = (end_of_lines, listing)
number_lines source listing (line (simple c kind) ls) =
    let (rest, last) = number_lines (u16 (source + 1)) (u16 (listing + 1)) ls in
    (line (simple (number source listing c) kind) rest, last)
number_lines source listing (line (macro_invocation c body) ls) =
    let (inside, next) = number_lines 0 listing body in
    let (rest, last) = number_lines (u16 (source + 1)) next ls in
    (line (macro_invocation (number source listing c) inside) rest, last)

unfoldable pub assign_section_line_numbers : ℕ → Lines → Lines × ℕ
unfolding number_lines
assign_section_line_numbers listing ls = number_lines 0 listing ls

-- The body of the loop of `assign_image`.
unfoldable assign_from : Option ℕ → Lines → Pass → Outcome Assigned
unfolding assign_section_forward assign_section_backward move_to
assign_from none ls p = assign_section_forward ls (move_to 0 p)
assign_from (some b) ls p = assign_section_backward ls (move_to b p)

unfoldable assign_section : Section → Pass → Outcome (Bool × Section × Pass)
unfolding assign_from assign_section_line_numbers
assign_section section p = then_ok (assign_from section.burn_address section.ir_lines p) λ d.
    ok (d.success, record section { ir_lines = (assign_section_line_numbers 0 d.lines).0 }, d.pass)

-- What the image holds after it: the operating system, and the user program if there is one.
unfoldable assign_user :
    Bool → Section → Option Section → Pass → Outcome (Bool × Section × Option Section × Pass)
unfolding assign_section
assign_user good os none p = ok (good, os, none, p)
assign_user good os (some user) p =
    then_ok (assign_section user p) λ r. ok (good && r.0, os, some r.1, r.2)

unfoldable assign_image :
    Section → Option Section → Pass → Outcome (Bool × Section × Option Section × Pass)
unfolding assign_section assign_user
assign_image os user p = then_ok (assign_section os p) λ r. assign_user r.0 r.1 user r.2
