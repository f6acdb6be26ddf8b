-- ===== src/Set/Module.antt =====
-- Modules: `createDeclMember`, `createBoxFunction`, `createBox`, `createTypeDef` and `create_set` of
-- src/set/set.c.
pub mod Boxes
pub mod Names
use Prim.Native.String.{◌++◌ as str_append}
use gemstone.Prelude.{
  ℕ, String, none, List, [], ◌∷◌, ◌++◌, set, insert, contains, if◌then◌else◌, Table,
}
use gemstone.Ast.{
  SyntaxElement, ast_decl, ast_def, ast_box, ast_fun_def, ast_fun_decl, ast_proc_def, ast_proc_decl,
  ast_typedef, ast_import, ast_include, Tree, annotate, value, kind, children,
}
use gemstone.Set.Types.{
  PrimitiveType, unsigned, GemType, composite, TypePtr, in_only, Parameter,
  parameter_declaration_kind, Function, FunctionPtr, VariablePtr, Expression,
}
use gemstone.Set.Scale.{quarter}
use gemstone.Set.Monad.{
  SetState, M, ok, pure, fail, abort, status, ◌>>=◌, ◌>>◌, reject, gets, assertion, uninitialised,
  get_node, new_type, load_function,
}
use gemstone.Set.TypeImpl.{set_get_type_impl}
use gemstone.Set.Functions.{add_function}
use gemstone.Set.Expression.{Node, create_label}
use gemstone.Set.Scope.{fill_tables_with_vars}
use gemstone.Set.Declarations.{Nodes, create_decl, create_def}
use gemstone.Set.FunctionDefs.{create_function}

-- `createDeclMember`. The table of members, where the first name is looked for, was never made.
unfoldable pub create_decl_member : Nodes → M (Unit {0})
create_decl_member nodes = do
  type_node ← get_node nodes 0
  set_get_type_impl type_node
  name_list ← get_node nodes 1
  elim (children name_list) [ [] ↦ pure tt | name ∷ names ↦ abort uninitialised ]

-- The parameter `self` comes first in a declaration and last in a definition.
abbrev pub with_self : String → TypePtr → Function → Function
with_self box_name box_type f =
    let self : Parameter = record {
      name = "self";
      kind = parameter_declaration_kind;
      qualifier = in_only;
      type = box_type;
    } in
    record f {
      name = str_append box_name (str_append "." f.name);
      parameters = if f.is_definition then f.parameters ++ self ∷ [] else self ∷ f.parameters;
    }

abbrev pub store_function : FunctionPtr → Function → M (Unit {0})
store_function p f s = ok tt (record s { functions = set s.functions p f })

-- `createBoxFunction`; the status of the second `addFunction` is dropped.
unfoldable pub create_box_function : String → TypePtr → Tree (M Expression) → M (Unit {0})
create_box_function box_name box_type node = do
  (f, name) ← create_function node
  function ← load_function f
  store_function f (with_self box_name box_type function)
  status (add_function (str_append box_name (str_append "." name)) f)
  pure tt

unfoldable pub create_box_member :
    String → TypePtr → SyntaxElement → Tree (M Expression) → M (Unit {0})
create_box_member box_name box_type ast_decl node = create_decl_member (children node)
create_box_member box_name box_type ast_def node = create_decl_member (children node)
create_box_member box_name box_type ast_fun_def node = create_box_function box_name box_type node
create_box_member box_name box_type k node = pure tt

-- The loop of `createBox`, whose condition is the number of members: it goes on behind the last one,
-- where `AST_get_node` asserts.
unfoldable pub create_box_members : String → TypePtr → Nodes → M (Unit {0})
create_box_members box_name box_type [] = abort assertion
create_box_members box_name box_type (node ∷ nodes) = do
  create_box_member box_name box_type (kind node) node
  create_box_members box_name box_type nodes

-- `createBox`. The kind of the box's type is never written.
unfoldable pub create_box : Table TypePtr → Nodes → M (Table TypePtr)
create_box boxes nodes = do
  name_node ← get_node nodes 0
  box_member_list ← get_node nodes 1
  garbage ← gets (λ s. s.garbage)
  box_type ← new_type garbage
  (elim (children box_member_list) [
    | [] ↦ pure tt
    | member ∷ members ↦ create_box_members (value name_node) box_type (member ∷ members)
  ])
  if contains boxes (value name_node) then fail else pure (insert boxes (value name_node) box_type)

abbrev pub declare_composite : String → TypePtr → M (Unit {0})
declare_composite name p s =
    if contains s.declared_composites name
    then reject "Multiple definition of type: `%s`" s
    else ok tt (record s { declared_composites = insert s.declared_composites name p })

-- `createTypeDef`, with the module's table of types.
unfoldable pub create_type_def : Table TypePtr → Nodes → M (Table TypePtr)
create_type_def types nodes = do
  type_node ← get_node nodes 0
  name_node ← get_node nodes 1
  p ← set_get_type_impl type_node
  if contains types (value name_node)
      then reject "Multiple definition of type: `%s`"
      else (do declare_composite (value name_node) p; pure (insert types (value name_node) p))

pub record Module : Type 0 where
  pub boxes : Table TypePtr
  pub types : Table TypePtr
  pub functions : Table FunctionPtr
  pub variables : Table VariablePtr
  pub imports : List String
  pub includes : List String

abbrev pub empty_module : Module
empty_module = record {
  boxes = [];
  types = [];
  functions = [];
  variables = [];
  imports = [];
  includes = [];
}

unfoldable pub add_to_functions : Module → FunctionPtr × String → M Module
add_to_functions m (f, name) =
    if contains m.functions name
    then reject "Multiple definition of function: `%s`"
    else pure (record m { functions = insert m.functions name f })

abbrev pub add_variables_to : Module → List (String × VariablePtr) → M Module
add_variables_to m vars = do
  (table, fresh) ← fill_tables_with_vars m.variables vars
  pure (record m { variables = table })

-- The switch of `create_set` over a child of the root.
unfoldable pub create_module_entry : SyntaxElement → Tree (M Expression) → Module → M Module
create_module_entry ast_decl node m = do vars ← create_decl (children node); add_variables_to m vars
create_module_entry ast_def node m = do vars ← create_def (children node); add_variables_to m vars
create_module_entry ast_box node m = do
  boxes ← create_box m.boxes (children node)
  pure (record m { boxes = boxes })
create_module_entry ast_fun_def node m = do f ← create_function node; add_to_functions m f
create_module_entry ast_fun_decl node m = do f ← create_function node; add_to_functions m f
create_module_entry ast_proc_def node m = do f ← create_function node; add_to_functions m f
create_module_entry ast_proc_decl node m = do f ← create_function node; add_to_functions m f
create_module_entry ast_typedef node m = do
  types ← create_type_def m.types (children node)
  pure (record m { types = types })
create_module_entry ast_import node m = pure (record m { imports = m.imports ++ value node ∷ [] })
create_module_entry ast_include node m =
    pure (record m { includes = m.includes ++ value node ∷ [] })
create_module_entry k node m = pure m

unfoldable pub create_module_entries : Nodes → Module → M Module
create_module_entries [] m = pure m
create_module_entries (node ∷ nodes) m = do
  m' ← create_module_entry (kind node) node m
  create_module_entries nodes m'

-- The state before the first module, with a scope: the cells 0 (`NULL`) and 1
-- (`ShortShortUnsingedIntType`), and a heap whose fresh cells hold `garbage`.
abbrev pub initial_state : GemType → SetState
initial_state garbage = record {
  types =
      garbage
      ∷ composite (record { sign = unsigned; scale = quarter; primitive = PrimitiveType.int })
      ∷ [];
  variables = [];
  functions = [];
  garbage = garbage;
  declared_composites = [];
  declared_boxes = [];
  function_parameter = none;
  defined_functions = [];
  declared_functions = [];
  scope = [] ∷ [];
  diagnostics = [];
}

-- The tables and the scope that `create_set` makes for its module; the table of a function's parameters
-- is that of an earlier function.
abbrev pub create_tables : M (Unit {0})
create_tables s = ok tt (record s {
  declared_composites = [];
  declared_boxes = [];
  declared_functions = [];
  defined_functions = [];
  scope = [] ∷ [];
})

-- `create_set` on the tree of a root module.
unfoldable pub create_set : (String → ℕ → ℕ) → Node → M Module
create_set utf8_strlen root = do
  create_tables
  create_module_entries (children (annotate (create_label utf8_strlen) root)) empty_module
