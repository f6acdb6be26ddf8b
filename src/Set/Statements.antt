-- ===== src/Set/Statements.antt =====
-- Statements: `createStorageExpr`, `createAssign`, `fillBlock`, `createWhile`, `createIf`,
-- `createElse`, `createElseIf`, `createBranch` and `createStatement` of src/set/set.c.
use gemstone.Prelude.{String, Option, List, [], ◌∷◌, ◌++◌, ◌==◌, map, if◌then◌else◌}
use gemstone.Ast.{
  SyntaxElement, ast_ident, ast_dereference, ast_parameter, ast_decl, ast_def, ast_while, ast_stmt,
  ast_assign, ast_call, ast_return, ast_if, ast_if_else, ast_else, ◌is◌, Tree, tree, Forest, nil,
  cons, label, kind, to_list,
}
use gemstone.Set.Types.{
  GemType, reference, TypePtr, in_only, Parameter, VariablePtr, FunctionPtr, Expression,
  Expressions, result, of_list,
}
use gemstone.Set.Monad.{
  M, ok, pure, abort, status, on_option, ◌>>=◌, ◌>>◌, reject, assertion, panic, uninitialised,
  get_node, load_type, load_variable,
}
use gemstone.Set.Compare.{compare_types, types_to_string}
use gemstone.Set.Scope.{get_parameter, get_variable_from_scope}
use gemstone.Set.Functions.{qualifier_code}
use gemstone.Set.Declarations.{create_decl, create_def, Nodes}
use gemstone.Set.Calls.{createfuncall}

-- The target of an assignment. The index of a dereference may be `NULL`.
pub data StorageExpr : Type 0 where
  storage_variable : TypePtr → VariablePtr → StorageExpr
  storage_parameter : TypePtr → Parameter → StorageExpr
  storage_dereference : TypePtr → Option Expression → StorageExpr → StorageExpr

abbrev pub target_type : StorageExpr → TypePtr
target_type (storage_variable p v) = p
target_type (storage_parameter p q) = p
target_type (storage_dereference p i e) = p

mutual
  pub data Statement : Type 0 where
    call_statement : FunctionPtr → Expressions → Statement
    while_loop : Expression → Statements → Statement
    branch : If → ElseIfs → Else → Statement
    assignment : StorageExpr → Expression → Statement
    declaration : VariablePtr → Statement
    definition : VariablePtr → Statement
    return_stmt : Expression → Statement

  pub data Statements : Type 0 where
    end : Statements
    then_do : Statement → Statements → Statements

  pub data If : Type 0 where
    no_if : If
    if_branch : Expression → Statements → If

  pub data ElseIfs : Type 0 where
    no_else_ifs : ElseIfs
    else_if_branch : ElseIfs → Expression → Statements → ElseIfs

  pub data Else : Type 0 where
    no_else : Else
    else_branch : Statements → Else

-- `Branch` while its parts are read.
pub record Branch : Type 0 where
  pub if_part : If
  pub else_if_part : ElseIfs
  pub else_part : Else

unfoldable pub of_statements : List Statement → Statements
of_statements [] = end
of_statements (s ∷ ss) = then_do s (of_statements ss)

-- A variable of the name, or else a parameter.
unfoldable pub storage_identifier : String → M StorageExpr
storage_identifier name = do
  found ← status (get_variable_from_scope name)
  on_option found
      (do
        found_parameter ← status (get_parameter name)
        on_option found_parameter (reject "Unknown token: `%s`")
            (λ p. pure (storage_parameter p.type p)))
      (λ v. do x ← load_variable v; pure (storage_variable x.type v))

abbrev pub array_element : GemType → M TypePtr
array_element (reference p) = pure p
array_element t = reject "Cannot dereference non reference type: %s"

-- `createStorageExpr`; the status of the index is not looked at.
unfoldable pub storage_dereference_of : M Expression → M StorageExpr → M StorageExpr
storage_dereference_of create_index create_array = do
  index ← status create_index
  array ← create_array
  t ← load_type (target_type array)
  p ← array_element t
  pure (storage_dereference p index array)

unfoldable pub create_storage_expr : Tree (M Expression) → M StorageExpr
create_storage_expr (tree k v a (cons array (cons index rest))) =
    let create_array = create_storage_expr array in
    if k is ast_dereference
    then storage_dereference_of (label index) create_array
    else if k is ast_ident
    then storage_identifier v
    else reject "Unimplemented"
create_storage_expr (tree k v a cs) =
    if k is ast_dereference
    then abort assertion
    else if k is ast_ident
    then storage_identifier v
    else reject "Unimplemented"

-- The member `impl.parameter` of the target.
abbrev pub require_writable : StorageExpr → M (Unit {0})
require_writable (storage_parameter t p) =
    if qualifier_code p.qualifier == qualifier_code in_only
    then reject "Parameter is read-only: `%s`"
    else pure tt
require_writable e = abort uninitialised

-- `createAssign`. The test for a read-only parameter looks at the kind of the node.
unfoldable pub create_assign : Nodes → M Statement
create_assign nodes = do
  strg_expr ← get_node nodes 0
  destination ← create_storage_expr strg_expr
  (if kind strg_expr is ast_parameter then require_writable destination else pure tt)
  value_node ← get_node nodes 1
  e ← label value_node
  same ← compare_types (target_type destination) (result e)
  if same then pure (assignment destination e) else (do
    types_to_string (target_type destination) (result e)
    reject "assignment requires `%s` but got `%s`")

-- The table of a block is the last of the array, and is removed when the block is filled.
abbrev pub push_scope : M (Unit {0})
push_scope s = ok tt (record s { scope = s.scope ++ [] ∷ [] })

unfoldable pub remove_last {ℓ} : {A : Type ℓ} → List A → List A
remove_last [] = []
remove_last (x ∷ []) = []
remove_last (x ∷ y ∷ xs) = x ∷ remove_last (y ∷ xs)

abbrev pub pop_scope : M (Unit {0})
pop_scope s = ok tt (record s { scope = remove_last s.scope })

unfoldable pub fill_block : M (List Statement) → M Statements
fill_block create_statements = do
  push_scope
  statements ← create_statements
  pop_scope
  pure (of_statements statements)

unfoldable pub create_while : Nodes → List (M Statements) → M Statement
create_while nodes blocks = do
  condition_node ← get_node nodes 0
  condition ← label condition_node
  create_block ← get_node blocks 1
  block ← create_block
  pure (while_loop condition block)

-- `createIf`, `createElseIf` and `createElse`, each given the blocks of its children.
unfoldable pub create_branch_part : SyntaxElement → Nodes → List (M Statements) → Branch → M Branch
create_branch_part ast_if nodes blocks b = do
  condition_node ← get_node nodes 0
  condition ← label condition_node
  create_block ← get_node blocks 1
  block ← create_block
  pure (record b { if_part = if_branch condition block })
create_branch_part ast_if_else nodes blocks b = do
  condition_node ← get_node nodes 0
  condition ← label condition_node
  create_block ← get_node blocks 1
  block ← create_block
  pure (record b { else_if_part = else_if_branch b.else_if_part condition block })
create_branch_part ast_else nodes blocks b = do
  create_block ← get_node blocks 0
  block ← create_block
  pure (record b { else_part = else_branch block })
create_branch_part k nodes blocks b = abort panic

abbrev pub no_branch : Branch
no_branch = record { if_part = no_if; else_if_part = no_else_ifs; else_part = no_else }

abbrev pub declarations : List (String × VariablePtr) → List Statement
declarations = map (λ x. declaration x.1)

abbrev pub definitions : List (String × VariablePtr) → List Statement
definitions = map (λ x. definition x.1)

-- The switch of `createStatement`, given the blocks and the branch parts of the children.
unfoldable pub create_statement_by_kind :
    SyntaxElement → Nodes → List (M Statements) → (Branch → M Branch) → M (List Statement)
create_statement_by_kind ast_decl nodes blocks parts = do
  variables ← create_decl nodes
  pure (declarations variables)
create_statement_by_kind ast_def nodes blocks parts = do
  variables ← create_def nodes
  pure (definitions variables)
create_statement_by_kind ast_while nodes blocks parts = do
  s ← create_while nodes blocks
  pure (s ∷ [])
create_statement_by_kind ast_stmt nodes blocks parts = do
  b ← parts no_branch
  pure (branch b.if_part b.else_if_part b.else_part ∷ [])
create_statement_by_kind ast_assign nodes blocks parts = do s ← create_assign nodes; pure (s ∷ [])
create_statement_by_kind ast_call nodes blocks parts = do
  (f, es) ← createfuncall nodes
  pure (call_statement f (of_list es) ∷ [])
create_statement_by_kind ast_return nodes blocks parts = do
  node ← get_node nodes 0
  e ← label node
  pure (return_stmt e ∷ [])
create_statement_by_kind k nodes blocks parts = abort panic

-- `createStatement` over the tree; `create_blocks` is `fillBlock` at each child.
unfoldable mutual
  pub create_statement : Tree (M Expression) → M (List Statement)
  create_statement (tree k v a cs) =
      create_statement_by_kind k (to_list cs) (create_blocks cs) (create_branch_parts cs)

  pub create_statements : Forest (M Expression) → M (List Statement)
  create_statements nil = pure []
  create_statements (cons t ts) = do
    here ← create_statement t
    rest ← create_statements ts
    pure (here ++ rest)

  pub create_block : Tree (M Expression) → M Statements
  create_block (tree k v a cs) = fill_block (create_statements cs)

  pub create_blocks : Forest (M Expression) → List (M Statements)
  create_blocks nil = []
  create_blocks (cons t ts) = create_block t ∷ create_blocks ts

  pub create_branch_child : Tree (M Expression) → Branch → M Branch
  create_branch_child (tree k v a cs) = create_branch_part k (to_list cs) (create_blocks cs)

  pub create_branch_parts : Forest (M Expression) → Branch → M Branch
  create_branch_parts nil b = pure b
  create_branch_parts (cons t ts) b = do b' ← create_branch_child t b; create_branch_parts ts b'
