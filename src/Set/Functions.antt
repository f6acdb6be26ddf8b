-- ===== src/Set/Functions.antt =====
-- The tables of functions: `compareParameter`, `addFunction`, `getFunction`, `get_param_from_func` of
-- src/set/set.c and `SET_function_get_return_type` of src/set/types.c.
pub mod Tables
use gemstone.Prelude.{
  ℕ, String, Bool, true, false, not, List, [], ◌∷◌, ◌==◌, length, lookup, contains, insert, str_eq,
  if◌then◌else◌,
}
use gemstone.Set.Types.{
  IoQualifier, in_only, out_only, in_out, ParameterKind, parameter_declaration_kind,
  parameter_definition_kind, Parameter, Function, FunctionPtr,
}
use gemstone.Set.Monad.{M, on_option, ok, pure, ◌>>=◌, gets, or_fail, reject, load_function}
use gemstone.Set.Compare.{compare_types}

-- The values of the enumerators.
abbrev pub qualifier_code : IoQualifier → ℕ
qualifier_code in_only = 0
qualifier_code out_only = 1
qualifier_code in_out = 2

abbrev pub parameter_kind_code : ParameterKind → ℕ
parameter_kind_code parameter_declaration_kind = 0
parameter_kind_code parameter_definition_kind = 1

-- One round of the loop of `compareParameter`. Both variables of the source read the left array, so
-- the parameter is compared with itself.
unfoldable pub compare_one : Parameter → Parameter → M Bool
compare_one l r =
    if not (str_eq l.name r.name)
    then pure false
    else if not (parameter_kind_code l.kind == parameter_kind_code r.kind)
    then pure false
    else if parameter_kind_code l.kind == parameter_kind_code parameter_declaration_kind
    then if not (qualifier_code l.qualifier == qualifier_code r.qualifier)
      then pure false
      else compare_types l.type r.type
    else pure true

unfoldable pub compare_each : List Parameter → M Bool
compare_each [] = pure true
compare_each (p ∷ ps) = do same ← compare_one p p; if same then compare_each ps else pure false

-- `compareParameter`.
unfoldable pub compare_parameter : List Parameter → List Parameter → M Bool
compare_parameter left right =
    if not (length left == length right) then pure false else compare_each left

abbrev pub insert_declared : String → FunctionPtr → M (Unit {0})
insert_declared name f s =
    ok tt (record s { declared_functions = insert s.declared_functions name f })

-- `addFunction`. A definition is looked for among the defined functions and put among the declared.
unfoldable pub add_definition : String → FunctionPtr → M (Unit {0})
add_definition name f s =
    if contains s.defined_functions name
    then reject "Multiple definition of function: `%s`" s
    else insert_declared name f s

unfoldable pub add_redeclaration : String → FunctionPtr → Function → FunctionPtr → M (Unit {0})
add_redeclaration name f function g = do
  earlier ← load_function g
  same ← compare_parameter earlier.parameters function.parameters
  if same then insert_declared name f else reject "Divergent declaration of function: `%s`"

unfoldable pub add_function : String → FunctionPtr → M (Unit {0})
add_function name f = do
  function ← load_function f
  declared ← gets (λ s. lookup s.declared_functions name)
  if function.is_definition
      then add_definition name f
      else on_option declared (insert_declared name f) (add_redeclaration name f function)

-- `getFunction`.
unfoldable pub get_function : String → M FunctionPtr
get_function name = do
  defined ← gets (λ s. lookup s.defined_functions name)
  declared ← gets (λ s. lookup s.declared_functions name)
  on_option defined (or_fail declared) pure
