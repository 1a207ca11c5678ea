-- ===== src/Symbol/Defined.antt =====
-- src/libisa/symbol/table.tpp: the state that `define` gives a symbol.
use libsim.Prelude.{
  ℕ, ◌<◌, ◌≡◌, inl, inr, refl, sym, ap, ◌∙◌, subst, Bool, true, false, Option, none, some, List,
  ◌==◌, ◌&&◌, get_elem?, length, arith, get_elem?-eq_some, get_elem?-append_last,
}
use libsim.Symbol.{
  Entry, Program, Binding, DefinitionState, local, imported, global, undefined, single, multiple,
  external_multiple, change, with_state, define_again, one_more, define_binding, define_entry,
  define, reference, local_definition, find_name, get, new_entry, count_global, select_by_name,
  link, own_symbol,
}
use libsim.Symbol.Loops.{
  At, At-change_self, Referenced, link-At, link-names, refresh-found, refresh-names,
}

-- Every name leads to a symbol.
pub record IsWf (p : Program) : Type 0 where
  pub leads : (table name i : ℕ) → find_name table name p.names ≡ some i → i < length p.entries

-- The state that the switch of `define` gives.
abbrev redefined : Binding → DefinitionState → DefinitionState
redefined imported s = external_multiple
redefined local s = one_more s
redefined global s = one_more s

abbrev InState : DefinitionState → Entry → Type 0
InState s e = e.state ≡ s

define_binding-At :
    (table name i : ℕ) (b : Binding) (e : Entry) (p : Program)
    → e.binding ≡ b
    → get_elem? p.entries i ≡ some e
    → (At (define_binding table name i e b p) i (InState (redefined b e.state)))
      × ((define_binding table name i e b p).names ≡ p.names)
unfolding define_binding change define_again with_state
define_binding-At table name i imported e p is found = (
  record {
    entry = with_state external_multiple e;
    found = At-change_self i (with_state external_multiple) p.entries e found;
    holds = refl;
  },
  refl,
)
define_binding-At table name i local e p is found = (
  record {
    entry = define_again e;
    found = At-change_self i define_again p.entries e found;
    holds = refl;
  },
  refl,
)
define_binding-At table name i global e p is found =
    let q = change i define_again p in
    (
      record {
        entry = define_again e;
        found =
            refresh-found table i (one_more e.state) (define_again e) is (select_by_name name p) q
              (At-change_self i define_again p.entries e found);
        holds = refl;
      },
      refresh-names table i (one_more e.state) (select_by_name name p) q,
    )

-- The rest of `define` once the symbol of the table is there.
abbrev define_at : ℕ → ℕ → ℕ → List ℕ → ℕ → Program → Program
define_at table name i symbols count p =
    let q = link i symbols count p in define_entry table name i (get_elem? q.entries i) q

-- The states after one definition, and after more than one.
abbrev pub IsDefined : DefinitionState → Type 0
IsDefined undefined = ⊥
IsDefined single = Unit
IsDefined multiple = Unit
IsDefined external_multiple = Unit

abbrev pub IsRedefined : DefinitionState → Type 0
IsRedefined undefined = ⊥
IsRedefined single = ⊥
IsRedefined multiple = Unit
IsRedefined external_multiple = Unit

redefined-IsDefined : (b : Binding) (s : DefinitionState) → IsDefined (redefined b s)
unfolding one_more
redefined-IsDefined imported s = tt
redefined-IsDefined local undefined = tt
redefined-IsDefined local single = tt
redefined-IsDefined local multiple = tt
redefined-IsDefined local external_multiple = tt
redefined-IsDefined global undefined = tt
redefined-IsDefined global single = tt
redefined-IsDefined global multiple = tt
redefined-IsDefined global external_multiple = tt

redefined-IsRedefined :
    (b : Binding) (s : DefinitionState) → IsDefined s → IsRedefined (redefined b s)
unfolding one_more
redefined-IsRedefined imported s h = tt
redefined-IsRedefined local undefined h = h
redefined-IsRedefined local single h = tt
redefined-IsRedefined local multiple h = tt
redefined-IsRedefined local external_multiple h = tt
redefined-IsRedefined global undefined h = h
redefined-IsRedefined global single h = tt
redefined-IsRedefined global multiple h = tt
redefined-IsRedefined global external_multiple h = tt

-- What one definition leaves of a symbol that is there.
record Definition (table name i : ℕ) (old : Entry) (r : Program) : Type 0 where
  entry : Entry
  found : get_elem? r.entries i ≡ some entry
  named : get table name r ≡ some i
  is_defined : IsDefined entry.state
  is_redefined : IsDefined old.state → IsRedefined entry.state

module _ (table name i : ℕ) (symbols : List ℕ) (count : ℕ) (p : Program) (old : Entry)
    (found : get_elem? p.entries i ≡ some old) where
  abbrev linked : Program
  linked = link i symbols count p

  define_at-linked :
      (a : At linked i (Referenced old))
      → (At
          (define_at table name i symbols count p)
          i
          (InState (redefined a.entry.binding a.entry.state)))
        × ((define_at table name i symbols count p).names ≡ p.names)
  unfolding define_entry
  define_at-linked a =
      let (state, names) =
        define_binding-At table name i a.entry.binding a.entry linked refl a.found in
      rw a.found (state, names ∙ link-names i symbols count p)

  define_at-Definition :
      get table name p ≡ some i
      → Definition table name i old (define_at table name i symbols count p)
  unfolding get
  define_at-Definition named =
      let a = link-At old i symbols count p found in
      let (d, names) = define_at-linked a in
      record {
        entry = d.entry;
        found = d.found;
        named = ap (find_name table name) names ∙ named;
        is_defined =
            subst IsDefined (sym d.holds) (redefined-IsDefined a.entry.binding a.entry.state);
        is_redefined = λ h. subst IsRedefined (sym d.holds) (again h a.entry a.holds);
      }
    where
      again :
          IsDefined old.state
          → (e : Entry) → Referenced old e
          → IsRedefined (redefined e.binding e.state)
      again h e r = elim r [
        | inl same ↦
            redefined-IsRedefined e.binding e.state
              (subst (λ (x : Entry). IsDefined x.state) (sym same) h)
        | inr (inl import) ↦ rw import tt
        | inr (inr more) ↦ rw more (redefined-IsRedefined e.binding external_multiple tt)
      ]

own_symbol-At :
    (table name : ℕ) (m : Option ℕ) (p : Program)
    → IsWf p
    → get table name p ≡ m
    → let (i, q) = own_symbol table name m p in
      (get table name q ≡ some i) × ((e : Entry) × (get_elem? q.entries i ≡ some e))
unfolding own_symbol get find_name
own_symbol-At table name none p wf e =
    let here : ((table == table) && (name == name)) ≡ true = ground arith in
    (rw here refl, (new_entry table name, get_elem?-append_last p.entries (new_entry table name)))
own_symbol-At table name (some i) p wf e =
    (e, get_elem?-eq_some p.entries i (wf.leads table name i e))

local_definition-again :
    (table name i : ℕ) (p : Program)
    → get table name p ≡ some i
    → local_definition table name p ≡ (i, p)
unfolding local_definition own_symbol
local_definition-again table name i p e = rw e refl

-- The state says that the symbol is defined, or that it is defined more than once.
abbrev pub reports_definition : Option Entry → Bool
reports_definition none = false
reports_definition (some e) = elim e.state [
  | undefined ↦ false
  | single ↦ true
  | multiple ↦ true
  | external_multiple ↦ true
]

abbrev pub reports_redefinition : Option Entry → Bool
reports_redefinition none = false
reports_redefinition (some e) = elim e.state [
  | undefined ↦ false
  | single ↦ false
  | multiple ↦ true
  | external_multiple ↦ true
]

reports_definition-IsDefined :
    (s : DefinitionState) (e : Entry)
    → e.state ≡ s
    → IsDefined s
    → reports_definition (some e) ≡ true
reports_definition-IsDefined undefined e q h = absurd h
reports_definition-IsDefined single e q h = rw q refl
reports_definition-IsDefined multiple e q h = rw q refl
reports_definition-IsDefined external_multiple e q h = rw q refl

reports_redefinition-IsRedefined :
    (s : DefinitionState) (e : Entry)
    → e.state ≡ s
    → IsRedefined s
    → reports_redefinition (some e) ≡ true
reports_redefinition-IsRedefined undefined e q h = absurd h
reports_redefinition-IsRedefined single e q h = absurd h
reports_redefinition-IsRedefined multiple e q h = rw q refl
reports_redefinition-IsRedefined external_multiple e q h = rw q refl

-- `define` where the table has the symbol, and where it is made.
define-Definition :
    (table name i : ℕ) (p : Program) (old : Entry)
    → get table name p ≡ some i
    → get_elem? p.entries i ≡ some old
    → ((define table name p).0 ≡ i) × Definition table name i old (define table name p).1
unfolding define reference
define-Definition table name i p old named found =
    rw (local_definition-again table name i p named) (
      refl,
      define_at-Definition table name i (select_by_name name p)
          (count_global table (select_by_name name p) p.entries) p old found named,
    )

define-first :
    (table name : ℕ) (p : Program)
    → IsWf p
    → let (i, q) = define table name p in (old : Entry) × Definition table name i old q
unfolding define reference local_definition
define-first table name p wf =
    let (i, q) = own_symbol table name (get table name p) p in
    let (named, (old, found)) = own_symbol-At table name (get table name p) p wf refl in
    (
      old,
      define_at-Definition table name i (select_by_name name q)
          (count_global table (select_by_name name q) q.entries) q old found named,
    )

-- Where every name leads to a symbol, `define` never leaves the symbol undefined, and a second `define`
-- of the name in the same table, directly behind the first, gives the same symbol and never passes for
-- the first: its state then says that it is defined more than once, whatever the other tables hold.
pub define-define :
    (table name : ℕ) (p : Program)
    → IsWf p
    → let (i, q) = define table name p in
      let (j, r) = define table name q in
      (reports_definition (get_elem? q.entries i) ≡ true)
      × (j ≡ i)
      × (reports_redefinition (get_elem? r.entries j) ≡ true)
define-define table name p wf =
    let (old, d) = define-first table name p wf in
    let (same, e) =
      define-Definition table name (define table name p).0 (define table name p).1 d.entry d.named
        d.found in
    (
      rw d.found (reports_definition-IsDefined d.entry.state d.entry refl d.is_defined),
      same,
      rw (same, e.found)
          (reports_redefinition-IsRedefined e.entry.state e.entry refl
            (e.is_redefined d.is_defined)),
    )
