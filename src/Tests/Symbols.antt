-- ===== src/Tests/Symbols.antt =====
-- The results on symbol tables at concrete inputs.
use libsim.Prelude.{◌≡◌, true, [], get_elem?}
use libsim.Symbol.{Program, leaf, branch, no_children, child, define, find_name}
use libsim.Symbol.Defined.{IsWf, reports_definition, reports_redefinition, define-define}

-- Two tables under one root, without symbols.
abbrev two_tables : Program
two_tables = record {
  tree = branch (child (leaf 1) (child (leaf 2) no_children));
  names = [];
  entries = [];
}

two_tables-IsWf : IsWf two_tables
unfolding find_name
two_tables-IsWf = record { leads = λ table name i e. cc }

define-define_example :
    (reports_definition (get_elem? (define 1 7 two_tables).1.entries (define 1 7 two_tables).0)
      ≡ true)
    × ((define 1 7 (define 1 7 two_tables).1).0 ≡ (define 1 7 two_tables).0)
    × (reports_redefinition (
          get_elem?
            (define 1 7 (define 1 7 two_tables).1).1.entries
            (define 1 7 (define 1 7 two_tables).1).0)
        ≡ true)
define-define_example = define-define 1 7 two_tables two_tables-IsWf
