-- ===== src/Set/FunctionDefs.antt =====
-- Functions and procedures: `createParam`, `createFunDef`, `createProcDef`, `createFunDecl`,
-- `createProcDecl` and `createFunction` of src/set/set.c.
use gemstone.Prelude.{
  String, true, false, Option, none, some, List, [], ◌∷◌, ◌++◌, length, insert, contains, str_eq,
  if◌then◌else◌, Table,
}
use gemstone.Ast.{
  SyntaxElement, ast_parameter, ast_fun_decl, ast_fun_def, ast_proc_decl, ast_proc_def, ◌is◌, Tree,
  value, kind, children,
}
use gemstone.Set.Types.{
  TypePtr, IoQualifier, in_only, out_only, in_out, parameter_declaration_kind, Parameter, Function,
  FunctionPtr, Expression,
}
use gemstone.Set.Monad.{
  M, ok, fault, pure, fail, abort, status, on_option, ◌>>=◌, ◌>>◌, reject, gets, assertion, panic,
  null_pointer, get_node,
}
use gemstone.Set.TypeImpl.{set_get_type_impl}
use gemstone.Set.Functions.{add_function}
use gemstone.Set.Statements.{create_block}
use gemstone.Set.Declarations.{Nodes}

-- The qualifiers written, one or two.
unfoldable pub io_qualifier : Nodes → M IoQualifier
io_qualifier (node ∷ []) =
    if str_eq (value node) "in"
    then pure in_only
    else if str_eq (value node) "out"
    then pure out_only
    else abort panic
io_qualifier (first ∷ second ∷ []) = pure in_out
io_qualifier nodes = abort panic

abbrev pub insert_parameter : Parameter → Option (Table Parameter) → M (Unit {0})
insert_parameter param none s = fault null_pointer
insert_parameter param (some table) s =
    if contains table param.name
    then reject "Names of function parameters must be unique: %s" s
    else ok tt (record s { function_parameter = some (insert table param.name param) })

-- `createParam`: the parameter, which is also put into the table of the function's parameters.
unfoldable pub create_param : Tree (M Expression) → M Parameter
create_param node =
    if kind node is ast_parameter
    then (do
      paramdecl ← get_node (children node) 1
      io_qualifier_list ← get_node (children node) 0
      qualifier ← io_qualifier (children io_qualifier_list)
      type_node ← get_node (children paramdecl) 0
      type ← set_get_type_impl type_node
      name_node ← get_node (children paramdecl) 1
      let param : Parameter = record {
        name = value name_node;
        kind = parameter_declaration_kind;
        qualifier = qualifier;
        type = type;
      }
      table ← gets (λ s. s.function_parameter)
      insert_parameter param table
      pure param)
    else abort assertion

-- A list of parameters is read from its end.
unfoldable pub create_params : Nodes → M (List Parameter)
create_params [] = pure []
create_params (node ∷ nodes) = do
  later ← create_params nodes
  param ← create_param node
  pure (later ++ param ∷ [])

unfoldable pub create_param_lists : Nodes → M (List Parameter)
create_param_lists [] = pure []
create_param_lists (list ∷ lists) = do
  params ← create_params (children list)
  rest ← create_param_lists lists
  pure (params ++ rest)

-- The return value of a function, whose failure is reported again.
unfoldable pub create_return_value : Tree (M Expression) → M TypePtr
create_return_value node = do
  p ← status (set_get_type_impl node)
  on_option p (reject "Unknown return value type") pure

unfoldable pub create_fun_def : Nodes → M Function
create_fun_def nodes = do
  name_node ← get_node nodes 0
  return_value_node ← get_node nodes 1
  paramlistlist ← get_node nodes 2
  statementlist ← get_node nodes 3
  return_value ← create_return_value return_value_node
  params ← create_param_lists (children paramlistlist)
  create_block statementlist
  pure (record {
    name = value name_node;
    is_definition = true;
    parameters = params;
    return_value = some return_value;
  })

unfoldable pub create_proc_def : Nodes → M Function
create_proc_def nodes = do
  name_node ← get_node nodes 0
  paramlistlist ← get_node nodes 1
  statementlist ← get_node nodes 2
  params ← create_param_lists (children paramlistlist)
  create_block statementlist
  pure (record {
    name = value name_node;
    is_definition = true;
    parameters = params;
    return_value = none;
  })

unfoldable pub create_proc_decl : Nodes → M Function
create_proc_decl nodes = do
  name_node ← get_node nodes 0
  paramlistlist ← get_node nodes 1
  params ← create_param_lists (children paramlistlist)
  pure (record {
    name = value name_node;
    is_definition = false;
    parameters = params;
    return_value = none;
  })

unfoldable pub create_fun_decl : Nodes → M Function
create_fun_decl nodes = do
  name_node ← get_node nodes 0
  return_value_node ← get_node nodes 1
  paramlistlist ← get_node nodes 2
  return_value ← create_return_value return_value_node
  params ← create_param_lists (children paramlistlist)
  pure (record {
    name = value name_node;
    is_definition = false;
    parameters = params;
    return_value = some return_value;
  })

unfoldable pub create_function_by_kind : SyntaxElement → Nodes → M Function
create_function_by_kind ast_fun_decl nodes = create_fun_decl nodes
create_function_by_kind ast_fun_def nodes = create_fun_def nodes
create_function_by_kind ast_proc_decl nodes = create_proc_decl nodes
create_function_by_kind ast_proc_def nodes = create_proc_def nodes
create_function_by_kind k nodes = fail

abbrev pub set_function_parameter : Option (Table Parameter) → M (Unit {0})
set_function_parameter table s = ok tt (record s { function_parameter = table })

abbrev pub new_function : Function → M FunctionPtr
new_function f s = ok (length s.functions) (record s { functions = s.functions ++ f ∷ [] })

-- `createFunction`: the function's address, and the name that it was added under.
unfoldable pub create_function : Tree (M Expression) → M (FunctionPtr × String)
create_function node = do
  set_function_parameter (some [])
  function ← create_function_by_kind (kind node) (children node)
  set_function_parameter none
  f ← new_function function
  add_function function.name f
  pure (f, function.name)
