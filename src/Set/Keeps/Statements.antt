-- ===== src/Set/Keeps/Statements.antt =====
-- Declarations, definitions and statements keep every relation that the writes of variables and scopes
-- keep too.
use gemstone.Prelude.{◌++◌, ℕ, zero, suc, String, Option, none, some, List, [], ◌∷◌, Table, last?}
use gemstone.Ast.{
  label, SyntaxElement, ast_decl, ast_def, ast_while, ast_stmt, ast_assign, ast_call, ast_return,
  ast_if, ast_if_else, ast_else, Tree, tree, Forest, nil, cons, to_list, children, value,
}
use gemstone.Set.Types.{
  Variable, VariablePtr, Expression, Function, FunctionPtr, Parameter, TypePtr,
}
use gemstone.Set.Monad.{
  bad_pointer, uninitialised, SetState, M, pure, new_variable, ◌>>=◌, get_node,
}
use gemstone.Set.Scope.{add_unless, add_var_to_scope, set_scope, insert_last}
use gemstone.Set.Declarations.{no_declaration, Nodes, add_variables, create_decl, create_def}
use gemstone.Set.Functions.{insert_declared}
use gemstone.Set.FunctionDefs.{set_function_parameter, new_function}
use gemstone.Set.Module.{store_function}
use gemstone.Set.Statements.{
  push_scope, pop_scope, remove_last, of_statements, Statement, Statements, Branch, fill_block,
  create_while, create_branch_part, create_statement_by_kind, create_statement, create_statements,
  create_block, create_blocks, create_branch_parts,
}
use gemstone.Set.Keeps.{
  Relation, Keeps, IsFrame, keeps_rules, Keeps-abort, Keeps-or_fault, Keeps-bind, Keeps-pure,
  Keeps-gets, Keeps-unchecked, Keeps-reject, Keeps-status,
}
use gemstone.Set.Keeps.Types.{get_variable_from_scope-Keeps}
use gemstone.Set.Keeps.Nodes.{
  KeepsTree, KeepsForest, KeepsAll, label-Keeps, to_list-Keeps, Keeps-get_node,
}
use gemstone.Set.Keeps.Access.{createfuncall-Keeps}
use gemstone.Set.Keeps.Declarations.{
  declare_children-Keeps, define_children-Keeps, initializer_at-Keeps, create_assign-Keeps,
}

-- A frame that the other writes of the analysis keep as well.
pub record IsStoreFrame (R : Relation) : Type 0 where
  pub frame : IsFrame R
  pub scopes : (scope : List (Table VariablePtr)) (s : SetState) → R s (record s { scope = scope })
  pub variables : (v : Variable) → Keeps R (new_variable v)
  pub parameters : (table : Option (Table Parameter)) → Keeps R (set_function_parameter table)
  pub functions : (f : Function) → Keeps R (new_function f)
  pub renames : (p : FunctionPtr) (f : Function) → Keeps R (store_function p f)
  pub declares : (name : String) (f : FunctionPtr) → Keeps R (insert_declared name f)
  pub composites :
      (table : Table TypePtr) (s : SetState) → R s (record s { declared_composites = table })

pub KeepsEach : {A : Type 0} → Relation → List (M A) → Type 0
KeepsEach R [] = Unit
KeepsEach R (m ∷ ms) = Keeps R m × KeepsEach R ms

module _ {R : Relation} (store : IsStoreFrame R) where
  open store use {frame, scopes, variables}

  set_scope-Keeps : (o : Option (List (Table VariablePtr))) → Keeps R (set_scope o)
  set_scope-Keeps none = Keeps-abort frame _
  set_scope-Keeps (some scope) = record { at = scopes scope }

  add_unless-Keeps :
      (name : String) (v : VariablePtr) (o : Option VariablePtr) → Keeps R (add_unless name v o)
  unfolding add_unless
  add_unless-Keeps name v none =
      Keeps-bind frame _ _ (Keeps-gets frame (λ s. s.scope))
        (λ scope. set_scope-Keeps (insert_last name v scope))
  add_unless-Keeps name v (some w) = Keeps-reject frame _

  add_var_to_scope-Keeps : (name : String) (v : VariablePtr) → Keeps R (add_var_to_scope name v)
  unfolding add_var_to_scope
  add_var_to_scope-Keeps name v =
      Keeps-bind frame _ _ (Keeps-status frame _ (get_variable_from_scope-Keeps frame name))
        (add_unless-Keeps name v)

  add_variables-Keeps :
      (nodes : Nodes) (make : String → Variable) → Keeps R (add_variables nodes make)
  unfolding add_variables
  add_variables-Keeps [] make = Keeps-pure frame []
  add_variables-Keeps (ident ∷ idents) make =
      Keeps-bind frame _ _ (variables (make (value ident))) (λ v.
        Keeps-bind frame _ _ (add_var_to_scope-Keeps (value ident) v) (λ u.
          Keeps-bind frame _ _ (add_variables-Keeps idents make)
            (λ rest. Keeps-pure frame ((value ident, v) ∷ rest))))

  pub create_decl-Keeps : (nodes : Nodes) → Keeps R (create_decl nodes)
  unfolding create_decl
  create_decl-Keeps nodes =
      search (keeps_rules, frame, declare_children-Keeps, add_variables-Keeps) depth 10

  pub create_def-Keeps : (nodes : Nodes) → KeepsAll R nodes → Keeps R (create_def nodes)
  unfolding create_def
  create_def-Keeps nodes h = Keeps-get_node frame nodes 0 _ h (λ d hd.
      Keeps-get_node frame nodes 1 _ h (λ x hx.
        Keeps-bind frame _ _ (Keeps-or_fault frame bad_pointer (last? (children d))) (λ ident_list.
          Keeps-bind frame _ _ (define_children-Keeps frame (children d) no_declaration) (λ decl.
            Keeps-bind frame _ _ (Keeps-unchecked frame _ (label-Keeps frame x hx)) (λ e.
              Keeps-bind frame _ _ (Keeps-or_fault frame uninitialised decl.type) (λ type.
                Keeps-bind frame _ _ (initializer_at-Keeps frame type e)
                  (λ e'. add_variables-Keeps _ _)))))))

  pub fill_block-Keeps : (m : M (List Statement)) → Keeps R m → Keeps R (fill_block m)
  unfolding fill_block
  fill_block-Keeps m h =
      Keeps-bind frame push_scope _ (record { at = λ s. scopes (s.scope ++ [] ∷ []) s })
        (λ u. Keeps-bind frame _ _ h (λ ss.
          Keeps-bind frame pop_scope _ (record { at = λ s. scopes (remove_last s.scope) s })
            (λ u'. Keeps-pure frame (of_statements ss))))

  -- A block among those of the children.
  Keeps-get_block :
      {A B : Type 0} (ms : List (M A)) (i : ℕ) (k : M A → M B)
      → KeepsEach R ms
      → ((m : M A) → Keeps R m → Keeps R (k m))
      → Keeps R (get_node ms i >>= k)
  unfolding KeepsEach
  Keeps-get_block [] i k h hk = record { at = λ s. tt }
  Keeps-get_block (m ∷ ms) zero k h hk = record { at = λ s. (hk m h.0).at s }
  Keeps-get_block (m ∷ ms) (suc i) k h hk = Keeps-get_block ms i k h.1 hk

  -- A condition and a block, as `createWhile`, `createIf` and `createElseIf` read them.
  condition-Keeps :
      {B : Type 0} (nodes : Nodes) (blocks : List (M Statements)) (k : Expression → Statements → B)
      → KeepsAll R nodes
      → KeepsEach R blocks
      → Keeps R (
          get_node nodes 0 >>= λ node. label node >>= λ condition.
          get_node blocks 1 >>= λ create. create >>= λ block. pure (k condition block))
  condition-Keeps nodes blocks k h hb = Keeps-get_node frame nodes 0 _ h (λ t ht.
      Keeps-bind frame _ _ (label-Keeps frame t ht) (λ e.
        Keeps-get_block blocks 1 _ hb (λ m hm. Keeps-bind frame _ _ hm (λ b. Keeps-pure frame _))))

  module _ (nodes : Nodes) (blocks : List (M Statements)) (h : KeepsAll R nodes)
      (hb : KeepsEach R blocks) where
    create_branch_part-Keeps :
        (k : SyntaxElement) (b : Branch) → Keeps R (create_branch_part k nodes blocks b)
    unfolding create_branch_part
    create_branch_part-Keeps ast_if b = condition-Keeps nodes blocks _ h hb
    create_branch_part-Keeps ast_if_else b = condition-Keeps nodes blocks _ h hb
    create_branch_part-Keeps ast_else b =
        Keeps-get_block blocks 0 _ hb (λ m hm. Keeps-bind frame _ _ hm (λ b'. Keeps-pure frame _))
    create_branch_part-Keeps _ b = Keeps-abort frame _

    create_statement_by_kind-Keeps :
        (k : SyntaxElement) (parts : Branch → M Branch)
        → ((b : Branch) → Keeps R (parts b))
        → Keeps R (create_statement_by_kind k nodes blocks parts)
    unfolding create_statement_by_kind create_while
    create_statement_by_kind-Keeps ast_decl parts hp =
        Keeps-bind frame _ _ (create_decl-Keeps nodes) (λ vs. Keeps-pure frame _)
    create_statement_by_kind-Keeps ast_def parts hp =
        Keeps-bind frame _ _ (create_def-Keeps nodes h) (λ vs. Keeps-pure frame _)
    create_statement_by_kind-Keeps ast_while parts hp =
        Keeps-bind frame _ _ (condition-Keeps nodes blocks _ h hb) (λ s. Keeps-pure frame _)
    create_statement_by_kind-Keeps ast_stmt parts hp =
        Keeps-bind frame _ _ (hp _) (λ b. Keeps-pure frame _)
    create_statement_by_kind-Keeps ast_assign parts hp =
        Keeps-bind frame _ _ (create_assign-Keeps frame nodes h) (λ s. Keeps-pure frame _)
    create_statement_by_kind-Keeps ast_call parts hp =
        Keeps-bind frame _ _ (createfuncall-Keeps frame nodes h) (λ s. Keeps-pure frame _)
    create_statement_by_kind-Keeps ast_return parts hp =
        Keeps-get_node frame nodes 0 _ h
          (λ t ht. Keeps-bind frame _ _ (label-Keeps frame t ht) (λ e. Keeps-pure frame _))
    create_statement_by_kind-Keeps _ parts hp = Keeps-abort frame _

  mutual
    unfolding create_statement KeepsEach

    create_statement-Keeps :
        (t : Tree (M Expression)) → KeepsTree R t → Keeps R (create_statement t)
    create_statement-Keeps (tree k v a cs) h =
        create_statement_by_kind-Keeps (to_list cs) (create_blocks cs) (to_list-Keeps frame cs h.1)
          (create_blocks-KeepsEach cs h.1) k (create_branch_parts cs)
          (create_branch_parts-Keeps cs h.1)

    create_statements-Keeps :
        (ts : Forest (M Expression)) → KeepsForest R ts → Keeps R (create_statements ts)
    create_statements-Keeps nil h = Keeps-pure frame []
    create_statements-Keeps (cons t ts) h =
        Keeps-bind frame _ _ (create_statement-Keeps t h.0) (λ here.
          Keeps-bind frame _ _ (create_statements-Keeps ts h.1) (λ rest. Keeps-pure frame _))

    create_blocks-KeepsEach :
        (ts : Forest (M Expression)) → KeepsForest R ts → KeepsEach R (create_blocks ts)
    create_blocks-KeepsEach nil h = tt
    create_blocks-KeepsEach (cons (tree k v a cs) ts) h =
        (fill_block-Keeps _ (create_statements-Keeps cs h.0.1), create_blocks-KeepsEach ts h.1)

    create_branch_parts-Keeps :
        (ts : Forest (M Expression))
        → KeepsForest R ts
        → (b : Branch) → Keeps R (create_branch_parts ts b)
    create_branch_parts-Keeps nil h b = Keeps-pure frame b
    create_branch_parts-Keeps (cons (tree k v a cs) ts) h b =
        Keeps-bind frame _ _
          (create_branch_part-Keeps (to_list cs) (create_blocks cs) (to_list-Keeps frame cs h.0.1)
            (create_blocks-KeepsEach cs h.0.1) k b)
          (create_branch_parts-Keeps ts h.1)

  pub create_block-Keeps : (t : Tree (M Expression)) → KeepsTree R t → Keeps R (create_block t)
  unfolding create_block
  create_block-Keeps (tree k v a cs) h = fill_block-Keeps _ (create_statements-Keeps cs h.1)
