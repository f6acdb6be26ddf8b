-- ===== src/Set/Scope.antt =====
-- Variables and parameters by name: `getParameter` to `fillTablesWithVars` in src/set/set.c. `scope`
-- is the array `Scope`, the module's table first.
pub mod Tables
pub mod Names
pub mod Lookup
use gemstone.Prelude.{
  ℕ, ◌+◌, String, Bool, true, false, Option, none, some, List, [], ◌∷◌, ltb, Table, contains,
  lookup, insert, if◌then◌else◌,
}
use gemstone.Set.Types.{Parameter, VariablePtr}
use gemstone.Set.Monad.{
  M, on_option, ◌>>=◌, ok, pure, fail, abort, status, gets, ◌>>◌, or_fail, reject, print_diagnostic,
  warning, error_message, bad_pointer, load_variable,
}

unfoldable pub get_parameter : String → M Parameter
get_parameter name = do
  parameters ← gets (λ s. s.function_parameter)
  on_option parameters fail (λ table. or_fail (lookup table name))

-- The loop: the first find is kept, the finds are counted.
unfoldable pub find_in_scope : String → List (Table VariablePtr) → Option VariablePtr × ℕ
find_in_scope name [] = (none, 0)
find_in_scope name (table ∷ rest) =
    let (later, found) = find_in_scope name rest in
    elim (lookup table name) [ none ↦ (later, found) | some v ↦ (some v, found + 1) ]

-- The warning for a name that several tables hold.
unfoldable pub note_shadowing : ℕ → M (Unit {0})
note_shadowing found =
    if ltb 1 found
    then print_diagnostic warning "Parameter shadows variable of same name: %s"
    else pure tt

unfoldable pub found_variable : Option VariablePtr → ℕ → M VariablePtr
found_variable none found = fail
found_variable (some v) found = do load_variable v; note_shadowing found; pure v

-- `getVariableFromScope`.
unfoldable pub get_variable_from_scope : String → M VariablePtr
get_variable_from_scope name s =
    let (first, found) = find_in_scope name s.scope in found_variable first found s

-- Inserts into the last table of the array; there is one.
unfoldable pub insert_last :
    String → VariablePtr → List (Table VariablePtr) → Option (List (Table VariablePtr))
insert_last name v [] = none
insert_last name v (table ∷ []) = some (insert table name v ∷ [])
insert_last name v (table ∷ t ∷ rest) = elim (insert_last name v (t ∷ rest)) [
  | none ↦ none
  | some rest' ↦ some (table ∷ rest')
]

abbrev pub set_scope : Option (List (Table VariablePtr)) → M (Unit {0})
set_scope none = abort bad_pointer
set_scope (some scope) = λ s. ok tt (record s { scope = scope })

-- `addVarToScope`.
unfoldable pub add_unless : String → VariablePtr → Option VariablePtr → M (Unit {0})
add_unless name v (some earlier) = reject "Variable already exist: "
add_unless name v none = do scope ← gets (λ s. s.scope); set_scope (insert_last name v scope)

unfoldable pub add_var_to_scope : String → VariablePtr → M (Unit {0})
add_var_to_scope name v = do found ← status (get_variable_from_scope name); add_unless name v found

-- `fillTablesWithVars`, over the names and addresses of the variables: the table, and whether no name
-- was there before. What was inserted before a name that is there stays.
unfoldable pub fill_tables_with_vars :
    Table VariablePtr → List (String × VariablePtr) → M (Table VariablePtr × Bool)
fill_tables_with_vars table [] = pure (table, true)
fill_tables_with_vars table ((name, v) ∷ rest) =
    if contains table name
    then (do print_diagnostic error_message "Variable already exists"; pure (table, false))
    else fill_tables_with_vars (insert table name v) rest
