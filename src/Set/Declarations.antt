-- ===== src/Set/Declarations.antt =====
-- Declarations and definitions of variables: `Qualifier_from_string`, `createRef`, `createDecl` and
-- `createDef` of src/set/set.c.
use gemstone.Prelude.{
  String, Bool, true, false, Option, none, some, List, [], ◌∷◌, ◌==◌, length, str_eq, if◌then◌else◌,
}
use gemstone.Ast.{
  SyntaxElement, ast_storage, ast_type, ast_reference, ast_ident_list, Tree, label, value, kind,
  children,
}
use gemstone.Set.Types.{
  reference, TypePtr, StorageQualifier, local, static, global, Variable, VariablePtr,
  declaration_kind, definition_kind, Expression, result,
}
use gemstone.Set.Monad.{
  M, pure, fail, abort, unchecked, status, ◌>>=◌, ◌>>◌, or_fault, print_diagnostic, warning,
  assertion, panic, uninitialised, get_node, get_last_node, new_type, new_variable,
}
use gemstone.Set.TypeImpl.{set_get_type_impl}
use gemstone.Set.Compare.{compare_types, types_to_string}
use gemstone.Set.Scope.{add_var_to_scope}
use gemstone.Set.Operands.{create_type_cast_from_expression}

unfoldable pub qualifier_from_string : String → M StorageQualifier
qualifier_from_string string =
    if str_eq string "local"
    then pure local
    else if str_eq string "static"
    then pure static
    else if str_eq string "global"
    then pure global
    else abort panic

-- `decl` while the children are read: the qualifier, the type once it is set, and the status.
pub record Declaration : Type 0 where
  pub qualifier : StorageQualifier
  pub type : Option TypePtr
  pub valid : Bool

abbrev pub no_declaration : Declaration
no_declaration = record { qualifier = static; type = none; valid = true }

abbrev pub set_type : Declaration → Option TypePtr → Declaration
set_type decl none = record decl { type = none; valid = false }
set_type decl (some p) = record decl { type = some p; valid = true }

abbrev pub Nodes : Type 0
Nodes = List (Tree (M Expression))

-- `createRef`.
unfoldable pub create_ref : Nodes → M TypePtr
create_ref nodes =
    if length nodes == 1
    then (do node ← get_node nodes 0; p ← set_get_type_impl node; new_type (reference p))
    else abort assertion

-- One child of a declaration; the status of a type is only kept.
unfoldable pub declare_child : SyntaxElement → Tree (M Expression) → Declaration → M Declaration
declare_child ast_storage node decl = do
  q ← qualifier_from_string (value node)
  pure (record decl { qualifier = q })
declare_child ast_type node decl = do p ← status (set_get_type_impl node); pure (set_type decl p)
declare_child ast_ident_list node decl = pure decl
declare_child ast_reference node decl = do
  p ← status (create_ref (children node))
  pure (set_type decl p)
declare_child k node decl = abort panic

unfoldable pub declare_children : Nodes → Declaration → M Declaration
declare_children [] decl = pure decl
declare_children (node ∷ nodes) decl = do
  decl' ← declare_child (kind node) node decl
  declare_children nodes decl'

-- The variables of the names, each added to the scope.
unfoldable pub add_variables : Nodes → (String → Variable) → M (List (String × VariablePtr))
add_variables [] make = pure []
add_variables (ident ∷ idents) make = do
  v ← new_variable (make (value ident))
  add_var_to_scope (value ident) v
  rest ← add_variables idents make
  pure ((value ident, v) ∷ rest)

-- A type that could not be made is left unset; 0 stands for it, and the status is an error.
abbrev pub declared_variable : Declaration → String → Variable
declared_variable decl name = record {
  name = name;
  kind = declaration_kind;
  qualifier = decl.qualifier;
  type = elim decl.type [ none ↦ 0 | some p ↦ p ];
  initializer = none;
}

-- `createDecl`, from the children of the node.
unfoldable pub create_decl : Nodes → M (List (String × VariablePtr))
create_decl nodes = do
  ident_list ← get_last_node nodes
  decl ← declare_children nodes no_declaration
  variables ← add_variables (children ident_list) (declared_variable decl)
  if decl.valid then pure variables else fail

-- One child of the declaration in a definition; a type that cannot be made ends the routine.
unfoldable pub define_child : SyntaxElement → Tree (M Expression) → Declaration → M Declaration
define_child ast_storage node decl = do
  q ← qualifier_from_string (value node)
  pure (record decl { qualifier = q })
define_child ast_type node decl = do p ← set_get_type_impl node; pure (set_type decl (some p))
define_child ast_reference node decl = do p ← set_get_type_impl node; pure (set_type decl (some p))
define_child ast_ident_list node decl = pure decl
define_child k node decl = abort panic

unfoldable pub define_children : Nodes → Declaration → M Declaration
define_children [] decl = pure decl
define_children (node ∷ nodes) decl = do
  decl' ← define_child (kind node) node decl
  define_children nodes decl'

-- The initializer at the declared type: a cast with a warning where the types differ.
unfoldable pub initializer_at : TypePtr → Expression → M Expression
initializer_at type e = do
  same ← compare_types type (result e)
  if same then pure e else (do
    types_to_string type (result e)
    print_diagnostic warning "expected `%s` got `%s`"
    create_type_cast_from_expression e type)

abbrev pub defined_variable : StorageQualifier → TypePtr → Expression → String → Variable
defined_variable qualifier type e name = record {
  name = name;
  kind = definition_kind;
  qualifier = qualifier;
  type = type;
  initializer = some e;
}

-- `createDef`, from the children of the node. A failed initializer is read through `NULL`.
unfoldable pub create_def : Nodes → M (List (String × VariablePtr))
create_def nodes = do
  declaration ← get_node nodes 0
  expression ← get_node nodes 1
  ident_list ← get_last_node (children declaration)
  decl ← define_children (children declaration) no_declaration
  e ← unchecked (label expression)
  type ← or_fault uninitialised decl.type
  e' ← initializer_at type e
  add_variables (children ident_list) (defined_variable decl.qualifier type e')
