-- ===== src/Masm/Regions.antt =====
-- src/libisa/masm/elf/addr_line_mapping.hpp and pack.tpp: the table that leads from addresses to listing lines and
-- back. Its serialization is left out.
pub mod Lookup
pub mod Section
use libsim.Prelude.{
  ℕ, suc, ◌+◌, Bool, true, false, ◌&&◌, Option, none, some, List, [], ◌∷◌, ◌++◌, leb, ◌==◌,
  if◌then◌else◌,
}
use libsim.Prelude.Exec.{Outcome, ok}
use libsim.Pep10.Isa.{then_ok}
use libsim.Symbol.{Entry}
use libsim.Masm.Ir.{
  Common, Kind, Lines, simple, macro_invocation, end_of_lines, line, object_code_bytes, macro_bytes,
}

-- `AddressLineRegion`.
pub record Region : Type 0 where
  pub start_address : ℕ
  pub end_address : ℕ
  pub line_number : ℕ

unfoldable pub region_contains : Region → ℕ → Bool
region_contains r address = leb r.start_address address && leb address r.end_address

-- `AddressLineRegionVector`: the first region counts.
unfoldable contains_address : List Region → ℕ → Bool
unfolding region_contains
contains_address [] address = false
contains_address (r ∷ regions) address =
    if region_contains r address then true else contains_address regions address

unfoldable contains_line : List Region → ℕ → Bool
contains_line [] number = false
contains_line (r ∷ regions) number =
    if r.line_number == number then true else contains_line regions number

unfoldable pub line_at : List Region → ℕ → Option ℕ
unfolding region_contains
line_at [] address = none
line_at (r ∷ regions) address =
    if region_contains r address then some r.line_number else line_at regions address

unfoldable address_of : List Region → ℕ → Option ℕ
address_of [] number = none
address_of (r ∷ regions) number =
    if r.line_number == number then some r.start_address else address_of regions number

unfoldable pub region_of : Common → Region
region_of c = record {
  start_address = c.begin_address;
  end_address = c.end_address;
  line_number = c.listing_line;
}

-- The recursive function of `addr_line_mapping`. Lines and macros without bytes are passed over.
unfoldable pub addr_line_mapping : List Entry → Lines → Outcome (List Region)
unfolding region_of
addr_line_mapping es end_of_lines = ok []
addr_line_mapping es (line (simple c kind) ls) =
    then_ok (object_code_bytes es c kind) λ n.
      then_ok (addr_line_mapping es ls) λ rest. ok (if n == 0 then rest else region_of c ∷ rest)
addr_line_mapping es (line (macro_invocation c body) ls) =
    let inside = addr_line_mapping es body in
    then_ok (macro_bytes es body) λ n.
      then_ok (if n == 0 then ok [] else inside)
        λ front. then_ok (addr_line_mapping es ls) λ rest. ok (front ++ rest)
