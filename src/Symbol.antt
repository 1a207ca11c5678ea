-- ===== src/Symbol.antt =====
-- src/libisa/symbol: symbol tables. The leaves of a tree of tables hold symbols, and a symbol that is global in
-- one of them is imported by the others. Names are only compared, and stand here as numbers.
pub mod Exported
pub mod Loops
pub mod Defined
pub mod Values
use libsim.Prelude.{
  ℕ, zero, suc, ◌+◌, Bool, true, false, Option, none, some, List, [], ◌∷◌, ◌++◌, ltb, ◌==◌,
  if◌then◌else◌, get_elem?, set, length, ◌&&◌,
}

-- `definition_state` and `binding_t`.
pub data DefinitionState : Type 0 where
  undefined single multiple external_multiple : DefinitionState

pub data Binding : Type 0 where
  local imported global : Binding

-- `Type` in types.hpp.
pub data SymbolType : Type 0 where
  empty object code constant ptr_to_sym deleted : SymbolType

-- The classes of `abstract_value`. A location has a base, an offset and a type, and a pointer leads to a
-- symbol.
pub data Value : Type 0 where
  empty deleted : Value
  const : ℕ → Value
  location : ℕ → ℕ → SymbolType → Value
  pointer : ℕ → Value

-- `entry`. The parent is the number of a leaf.
pub record Entry : Type 0 where
  pub parent : ℕ
  pub name : ℕ
  pub state : DefinitionState
  pub binding : Binding
  pub value : Value

-- `NodeType`, `BranchTable` and its `children_`. A leaf is given by its number.
mutual
  pub data Node : Type 0 where
    leaf : ℕ → Node
    branch : Children → Node

  pub data Children : Type 0 where
    no_children : Children
    child : Node → Children → Children

-- The tree that all tables belong to, the maps `name_to_entry_` of all leaves in one list, and the symbols
-- that were made. A symbol is shared by pointer, which is its place here.
pub record Program : Type 0 where
  pub tree : Node
  pub names : List (ℕ × ℕ × ℕ)
  pub entries : List Entry

-- `name_to_entry_.find`.
unfoldable pub find_name : ℕ → ℕ → List (ℕ × ℕ × ℕ) → Option ℕ
find_name table name [] = none
find_name table name ((t, n, i) ∷ names) =
    if (t == table) && (n == name) then some i else find_name table name names

-- `LeafTable::get` and `LeafTable::exists`.
unfoldable pub get : ℕ → ℕ → Program → Option ℕ
unfolding find_name
get table name p = find_name table name p.names

unfoldable pub is_some : Option ℕ → Bool
is_some none = false
is_some (some i) = true

unfoldable pub exists : ℕ → ℕ → Program → Bool
unfolding get is_some
exists table name p = is_some (get table name p)

-- `SelectByNameVisitor`.
unfoldable pub select_leaf : Option ℕ → List ℕ
select_leaf none = []
select_leaf (some i) = i ∷ []

unfoldable mutual
  unfolding find_name select_leaf

  pub select : ℕ → List (ℕ × ℕ × ℕ) → Node → List ℕ
  select name names (leaf table) = select_leaf (find_name table name names)
  select name names (branch children) = select_children name names children

  pub select_children : ℕ → List (ℕ × ℕ × ℕ) → Children → List ℕ
  select_children name names no_children = []
  select_children name names (child node children) =
      select name names node ++ select_children name names children

-- `select_by_name` with the policy `kWholeTree`, which starts at the root.
unfoldable pub select_by_name : ℕ → Program → List ℕ
unfolding select
select_by_name name p = select name p.names p.tree

-- A change of one symbol.
unfoldable pub update : ℕ → (Entry → Entry) → List Entry → List Entry
update i f [] = []
update zero f (e ∷ entries) = f e ∷ entries
update (suc i) f (e ∷ entries) = e ∷ update i f entries

unfoldable pub change : ℕ → (Entry → Entry) → Program → Program
unfolding update
change i f p = record p { entries = update i f p.entries }

-- The fields that the loops set.
unfoldable pub with_state : DefinitionState → Entry → Entry
with_state state e = record e { state = state }

-- A symbol that takes its value and its state from another.
unfoldable pub import_from : ℕ → DefinitionState → Entry → Entry
import_from other state e = record e { value = pointer other; binding = imported; state = state }

unfoldable pub is_global : Binding → Bool
is_global global = true
is_global local = false
is_global imported = false

-- The constructor of `entry`.
unfoldable pub new_entry : ℕ → ℕ → Entry
new_entry table name = record {
  parent = table;
  name = name;
  state = undefined;
  binding = local;
  value = Value.empty;
}

-- The first part of `reference`: the symbol of the table, which is made if there is none.
unfoldable pub own_symbol : ℕ → ℕ → Option ℕ → Program → ℕ × Program
unfolding new_entry
own_symbol table name (some i) p = (i, p)
own_symbol table name none p = (
  length p.entries,
  record p {
    names = (table, name, length p.entries) ∷ p.names;
    entries = p.entries ++ new_entry table name ∷ [];
  },
)

unfoldable pub local_definition : ℕ → ℕ → Program → ℕ × Program
unfolding get own_symbol
local_definition table name p = own_symbol table name (get table name p) p

-- The loops of `reference`: the global symbols of other tables are counted, and imported from.
unfoldable pub one_if_foreign : ℕ → Option Entry → ℕ
unfolding is_global
one_if_foreign table none = 0
one_if_foreign table (some e) =
    if e.parent == table then 0 else if is_global e.binding then 1 else 0

unfoldable pub count_global : ℕ → List ℕ → List Entry → ℕ
unfolding one_if_foreign
count_global table [] entries = 0
count_global table (o ∷ symbols) entries =
    one_if_foreign table (get_elem? entries o) + count_global table symbols entries

unfoldable pub adopt_from : ℕ → ℕ → Option Entry → Program → Program
unfolding is_global change import_from
adopt_from i o none p = p
adopt_from i o (some other) p =
    if is_global other.binding then change i (import_from o other.state) p else p

unfoldable pub adopt : ℕ → List ℕ → Program → Program
unfolding adopt_from
adopt i [] p = p
adopt i (o ∷ symbols) p = adopt i symbols (adopt_from i o (get_elem? p.entries o) p)

-- The second part of `reference`, for the given number of global symbols of other tables.
unfoldable pub link : ℕ → List ℕ → ℕ → Program → Program
unfolding change with_state adopt
link i symbols count p =
    if ltb 1 count
    then change i (with_state external_multiple) p
    else if count == 1
    then adopt i symbols p
    else p

unfoldable pub reference : ℕ → ℕ → Program → ℕ × Program
unfolding local_definition select_by_name count_global link
reference table name p =
    let (i, q) = local_definition table name p in
    let symbols = select_by_name name q in
    (i, link i symbols (count_global table symbols q.entries) q)

-- What one more definition makes of the state of a symbol that is not imported.
unfoldable pub one_more : DefinitionState → DefinitionState
one_more undefined = single
one_more single = multiple
one_more multiple = multiple
one_more external_multiple = external_multiple

unfoldable pub define_again : Entry → Entry
unfolding one_more
define_again e = record e { state = one_more e.state }

-- The loop of `define` over the symbols that import this one.
unfoldable pub refresh_binding : ℕ → ℕ → DefinitionState → Binding → Program → Program
unfolding change import_from
refresh_binding i o state imported p = change o (import_from i state) p
refresh_binding i o state local p = p
refresh_binding i o state global p = p

unfoldable pub refresh_one : ℕ → ℕ → DefinitionState → Option Entry → ℕ → Program → Program
unfolding refresh_binding
refresh_one table i state none o p = p
refresh_one table i state (some other) o p =
    if other.parent == table then p else refresh_binding i o state other.binding p

unfoldable pub refresh : ℕ → ℕ → DefinitionState → List ℕ → Program → Program
unfolding refresh_one
refresh table i state [] p = p
refresh table i state (o ∷ symbols) p =
    refresh table i state symbols (refresh_one table i state (get_elem? p.entries o) o p)

-- The switch of `define`.
unfoldable pub define_binding : ℕ → ℕ → ℕ → Entry → Binding → Program → Program
unfolding change with_state define_again refresh select_by_name one_more
define_binding table name i e imported p = change i (with_state external_multiple) p
define_binding table name i e global p =
    refresh table i (one_more e.state) (select_by_name name p) (change i define_again p)
define_binding table name i e local p = change i define_again p

unfoldable pub define_entry : ℕ → ℕ → ℕ → Option Entry → Program → Program
unfolding define_binding
define_entry table name i none p = p
define_entry table name i (some e) p = define_binding table name i e e.binding p

unfoldable pub define : ℕ → ℕ → Program → ℕ × Program
unfolding reference define_entry
define table name p =
    let (i, q) = reference table name p in (i, define_entry table name i (get_elem? q.entries i) q)

-- The loop of `mark_global`. The state of the symbol may change on the way.
unfoldable pub state_of : Option Entry → DefinitionState
state_of none = undefined
state_of (some e) = e.state

unfoldable pub claim_binding : ℕ → ℕ → Binding → Program → Program
unfolding change with_state import_from state_of
claim_binding i o global p =
    change i (with_state external_multiple) (change o (with_state external_multiple) p)
claim_binding i o local p = change o (import_from i (state_of (get_elem? p.entries i))) p
claim_binding i o imported p = p

unfoldable pub claim_one : ℕ → ℕ → Option Entry → ℕ → Program → Program
unfolding claim_binding
claim_one table i none o p = p
claim_one table i (some other) o p =
    if other.parent == table then p else claim_binding i o other.binding p

unfoldable pub claim : ℕ → ℕ → List ℕ → Program → Program
unfolding claim_one
claim table i [] p = p
claim table i (o ∷ symbols) p =
    claim table i symbols (claim_one table i (get_elem? p.entries o) o p)

unfoldable pub make_global : Entry → Entry
make_global e = record e { binding = global }

unfoldable pub mark_global : ℕ → ℕ → Program → Program
unfolding reference change make_global select_by_name claim
mark_global table name p =
    let (i, q) = reference table name p in
    claim table i (select_by_name name q) (change i make_global q)
