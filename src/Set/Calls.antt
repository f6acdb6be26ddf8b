-- ===== src/Set/Calls.antt =====
-- Calls: `createfuncall` of src/set/set.c. The node of a call has the name and the list of argument
-- lists for children; a list is read from its end.
use Prim.Native.String.{◌++◌ as str_append}
use gemstone.Prelude.{
  ℕ, ◌+◌, ◌-◌, Option, none, some, List, [], ◌∷◌, ◌++◌, ◌==◌, ltb, length, get_elem?, if◌then◌else◌,
}
use gemstone.Ast.{ast_ident, ast_ident_list, ◌is◌, Tree, label, value, kind, children}
use gemstone.Set.Types.{
  Parameter, Function, FunctionPtr, TypePtr, Expression, function_call, result, of_list,
}
use gemstone.Set.Monad.{
  M, pure, abort, status, ◌>>=◌, ◌>>◌, or_fault, reject, assertion, null_pointer, bad_pointer,
  get_node, load_function,
}
use gemstone.Set.Compare.{compare_types, types_to_string}
use gemstone.Set.Functions.{get_function}

abbrev pub Nodes : Type 0
Nodes = List (Tree (M Expression))

unfoldable pub count_arguments : Nodes → ℕ
count_arguments [] = 0
count_arguments (list ∷ lists) = length (children list) + count_arguments lists

abbrev pub require_function : Option FunctionPtr → M FunctionPtr
require_function none = reject "Unknown function: `%s`"
require_function (some f) = pure f

-- A qualified name is that of the last box and the function, joined by a dot. A name of another kind
-- leaves the function `NULL`.
unfoldable pub qualified_function : Nodes → M FunctionPtr
qualified_function names =
    if ltb 1 (length names)
    then (do
      box_node ← get_node names (length names - 2)
      fun_node ← get_node names (length names - 1)
      let name = str_append (value box_node) (str_append "." (value fun_node))
      found ← status (get_function name)
      require_function found)
    else abort assertion

unfoldable pub called_function : Tree (M Expression) → M FunctionPtr
called_function name_node =
    if kind name_node is ast_ident
    then (do found ← status (get_function (value name_node)); require_function found)
    else if kind name_node is ast_ident_list
    then qualified_function (children name_node)
    else abort null_pointer

-- One argument, against the parameter at an index that is not looked at.
unfoldable pub create_argument : List Parameter → ℕ → Tree (M Expression) → M Expression
create_argument params index node = do
  e ← label node
  p ← or_fault bad_pointer (get_elem? params index)
  same ← compare_types (result e) p.type
  if same then pure e else (do
    types_to_string p.type (result e)
    reject "parameter and argument `%s` type mismatch, expected `%s` got `%s`")

-- The arguments of one list, the last child first; a child is checked against the parameter whose
-- index is `base`, the number of the list, plus the number of children behind it.
unfoldable pub create_arguments : List Parameter → ℕ → Nodes → M (List Expression)
create_arguments params base [] = pure []
create_arguments params base (node ∷ nodes) = do
  later ← create_arguments params base nodes
  e ← create_argument params (base + length nodes) node
  pure (later ++ e ∷ [])

unfoldable pub create_argument_lists : List Parameter → ℕ → Nodes → M (List Expression)
create_argument_lists params i [] = pure []
create_argument_lists params i (list ∷ lists) = do
  es ← create_arguments params i (children list)
  rest ← create_argument_lists params (i + 1) lists
  pure (es ++ rest)

abbrev pub check_count : ℕ → ℕ → M (Unit {0})
check_count count param_count =
    if count == param_count then pure tt else reject "Expected %d arguments instead of %d"

-- `createfuncall`: the function and its arguments.
unfoldable pub createfuncall : Nodes → M (FunctionPtr × List Expression)
createfuncall nodes =
    if length nodes == 2
    then (do
      name_node ← get_node nodes 0
      args_list_node ← get_node nodes 1
      f ← called_function name_node
      function ← load_function f
      check_count (count_arguments (children args_list_node)) (length function.parameters)
      es ← create_argument_lists function.parameters 0 (children args_list_node)
      pure (f, es))
    else abort assertion

-- `expression->result` is `NULL`, address 0, for the call of a procedure.
abbrev pub return_type : Function → TypePtr
return_type function = elim function.return_value [ none ↦ 0 | some p ↦ p ]

unfoldable pub create_call_expression : Nodes → M Expression
create_call_expression nodes = do
  (f, es) ← createfuncall nodes
  function ← load_function f
  pure (function_call (return_type function) f (of_list es))
