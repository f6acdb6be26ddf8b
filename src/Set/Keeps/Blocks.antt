-- ===== src/Set/Keeps/Blocks.antt =====
-- The scope of a block is gone when the block is filled: `fillBlock` and the statements below it.
use gemstone.Prelude.{last?, ℕ, zero, suc, ◌≡◌, String, List, [], ◌∷◌, Option}
use gemstone.Ast.{
  value, label, SyntaxElement, ast_decl, ast_def, ast_while, ast_stmt, ast_assign, ast_call,
  ast_return, ast_if, ast_if_else, ast_else, Tree, tree, Forest, nil, cons, to_list, children,
  annotate,
}
use gemstone.Set.Types.{Variable, Expression}
use gemstone.Set.Monad.{SetState, M, pure, abort, or_fault, bad_pointer, ◌>>=◌, get_node}
use gemstone.Set.Expression.{Node, create_label}
use gemstone.Set.Operands.Agree.{OnOk}
use gemstone.Set.Declarations.{Nodes, add_variables, create_decl, create_def}
use gemstone.Set.Statements.{
  Statements, Branch, create_while, create_branch_part, create_statement_by_kind, create_statement,
  create_statements, create_block, create_blocks, create_branch_parts,
}
use gemstone.Set.Keeps.{Fault, Keeps-abort, Keeps-or_fault, Keeps-unchecked}
use gemstone.Set.Keeps.Nodes.{KeepsTree, KeepsForest, KeepsAll, label-Keeps, to_list-Keeps}
use gemstone.Set.Keeps.Access.{createfuncall-Keeps}
use gemstone.Set.Keeps.Expression.{annotated-KeepsTree}
use gemstone.Set.Keeps.Declarations.{
  declare_children-Keeps, define_children-Keeps, initializer_at-Keeps, create_assign-Keeps,
}
use gemstone.Set.Keeps.Scopes.{
  SameOuter, SameOuter-IsFrame, Leaves, Leaves-Keeps, Leaves-bind, Leaves-pure, Leaves-if,
  Leaves-new_variable, Leaves-fail, add_var_to_scope-Leaves, fill_block-scope, fill_block-Leaves,
}

abbrev LeavesAll : {A : Type 0} → List (M A) → Type 0
LeavesAll [] = Unit
LeavesAll (m ∷ ms) = Leaves m × LeavesAll ms

Leaves-abort : {A : Type 0} (f : Fault) → Leaves (abort {A = A} f)
Leaves-abort f = Leaves-Keeps _ (Keeps-abort SameOuter-IsFrame f)

Leaves-or_fault : {A : Type 0} (f : Fault) (o : Option A) → Leaves (or_fault f o)
Leaves-or_fault f o = Leaves-Keeps _ (Keeps-or_fault SameOuter-IsFrame f o)

-- A child that `AST_get_node` gives.
Leaves-get_node :
    {B : Type 0} (ts : Nodes) (i : ℕ) (k : Tree (M Expression) → M B)
    → KeepsAll SameOuter ts
    → ((t : Tree (M Expression)) → KeepsTree SameOuter t → Leaves (k t))
    → Leaves (get_node ts i >>= k)
Leaves-get_node [] i k h hk = record { at = λ s. tt }
Leaves-get_node (t ∷ ts) zero k h hk = record { at = λ s. (hk t h.0).at s }
Leaves-get_node (t ∷ ts) (suc i) k h hk = Leaves-get_node ts i k h.1 hk

Leaves-get_block :
    {A B : Type 0} (ms : List (M A)) (i : ℕ) (k : M A → M B)
    → LeavesAll ms
    → ((m : M A) → Leaves m → Leaves (k m))
    → Leaves (get_node ms i >>= k)
Leaves-get_block [] i k h hk = record { at = λ s. tt }
Leaves-get_block (m ∷ ms) zero k h hk = record { at = λ s. (hk m h.0).at s }
Leaves-get_block (m ∷ ms) (suc i) k h hk = Leaves-get_block ms i k h.1 hk

Leaves-label : (t : Tree (M Expression)) → KeepsTree SameOuter t → Leaves (label t)
Leaves-label t h = Leaves-Keeps _ (label-Keeps SameOuter-IsFrame t h)

add_variables-Leaves :
    (nodes : Nodes) (make : String → Variable) → Leaves (add_variables nodes make)
unfolding add_variables
add_variables-Leaves [] make = Leaves-pure []
add_variables-Leaves (ident ∷ idents) make =
    Leaves-bind _ _ (Leaves-new_variable (make (value ident))) (λ v.
      Leaves-bind _ _ (add_var_to_scope-Leaves (value ident) v) (λ u.
        Leaves-bind _ _ (add_variables-Leaves idents make)
          (λ rest. Leaves-pure ((value ident, v) ∷ rest))))

create_decl-Leaves : (nodes : Nodes) → Leaves (create_decl nodes)
unfolding create_decl
create_decl-Leaves nodes =
    Leaves-bind _ _ (Leaves-or_fault bad_pointer (last? nodes)) (λ ident_list.
      Leaves-bind _ _ (Leaves-Keeps _ (declare_children-Keeps SameOuter-IsFrame nodes _)) (λ d.
        Leaves-bind _ _ (add_variables-Leaves _ _)
          (λ vs. Leaves-if _ _ _ (Leaves-pure vs) Leaves-fail)))

create_def-Leaves : (nodes : Nodes) → KeepsAll SameOuter nodes → Leaves (create_def nodes)
unfolding create_def
create_def-Leaves nodes h = Leaves-get_node nodes 0 _ h (λ d hd.
    Leaves-get_node nodes 1 _ h (λ x hx.
      Leaves-bind _ _ (Leaves-or_fault bad_pointer (last? (children d))) (λ ident_list.
        Leaves-bind _ _ (Leaves-Keeps _ (define_children-Keeps SameOuter-IsFrame (children d) _))
          (λ decl.
            Leaves-bind _ _
              (Leaves-Keeps _
                (Keeps-unchecked SameOuter-IsFrame _ (label-Keeps SameOuter-IsFrame x hx)))
              (λ e. Leaves-bind _ _ (Leaves-or_fault _ decl.type) (λ type.
                Leaves-bind _ _ (Leaves-Keeps _ (initializer_at-Keeps SameOuter-IsFrame type e))
                  (λ e'. add_variables-Leaves _ _)))))))

-- A condition and a block, as `createWhile`, `createIf` and `createElseIf` read them.
condition-Leaves :
    {B : Type 0} (nodes : Nodes) (blocks : List (M Statements)) (k : Expression → Statements → B)
    → KeepsAll SameOuter nodes
    → LeavesAll blocks
    → Leaves (
        get_node nodes 0 >>= λ node. label node >>= λ condition.
        get_node blocks 1 >>= λ create. create >>= λ block. pure (k condition block))
condition-Leaves nodes blocks k h hb = Leaves-get_node nodes 0 _ h (λ t ht.
    Leaves-bind _ _ (Leaves-label t ht)
      (λ e. Leaves-get_block blocks 1 _ hb (λ m hm. Leaves-bind _ _ hm (λ b. Leaves-pure _))))

module _ (nodes : Nodes) (blocks : List (M Statements)) (h : KeepsAll SameOuter nodes)
    (hb : LeavesAll blocks) where
  create_branch_part-Leaves :
      (k : SyntaxElement) (b : Branch) → Leaves (create_branch_part k nodes blocks b)
  unfolding create_branch_part
  create_branch_part-Leaves ast_if b = condition-Leaves nodes blocks _ h hb
  create_branch_part-Leaves ast_if_else b = condition-Leaves nodes blocks _ h hb
  create_branch_part-Leaves ast_else b =
      Leaves-get_block blocks 0 _ hb (λ m hm. Leaves-bind _ _ hm (λ b'. Leaves-pure _))
  create_branch_part-Leaves _ b = Leaves-abort _

  create_statement_by_kind-Leaves :
      (k : SyntaxElement) (parts : Branch → M Branch)
      → ((b : Branch) → Leaves (parts b))
      → Leaves (create_statement_by_kind k nodes blocks parts)
  unfolding create_statement_by_kind create_while
  create_statement_by_kind-Leaves ast_decl parts hp =
      Leaves-bind _ _ (create_decl-Leaves nodes) (λ vs. Leaves-pure _)
  create_statement_by_kind-Leaves ast_def parts hp =
      Leaves-bind _ _ (create_def-Leaves nodes h) (λ vs. Leaves-pure _)
  create_statement_by_kind-Leaves ast_while parts hp =
      Leaves-bind _ _ (condition-Leaves nodes blocks _ h hb) (λ s. Leaves-pure _)
  create_statement_by_kind-Leaves ast_stmt parts hp = Leaves-bind _ _ (hp _) (λ b. Leaves-pure _)
  create_statement_by_kind-Leaves ast_assign parts hp =
      Leaves-bind _ _ (Leaves-Keeps _ (create_assign-Keeps SameOuter-IsFrame nodes h))
        (λ s. Leaves-pure _)
  create_statement_by_kind-Leaves ast_call parts hp =
      Leaves-bind _ _ (Leaves-Keeps _ (createfuncall-Keeps SameOuter-IsFrame nodes h))
        (λ s. Leaves-pure _)
  create_statement_by_kind-Leaves ast_return parts hp =
      Leaves-get_node nodes 0 _ h (λ t ht. Leaves-bind _ _ (Leaves-label t ht) (λ e. Leaves-pure _))
  create_statement_by_kind-Leaves _ parts hp = Leaves-abort _

mutual
  unfolding create_statement

  statement-Leaves : (t : Tree (M Expression)) → KeepsTree SameOuter t → Leaves (create_statement t)
  statement-Leaves (tree k v a cs) h =
      create_statement_by_kind-Leaves (to_list cs) (create_blocks cs)
        (to_list-Keeps SameOuter-IsFrame cs h.1) (blocks-Leaves cs h.1) k (create_branch_parts cs)
        (parts-Leaves cs h.1)

  statements-Leaves :
      (ts : Forest (M Expression)) → KeepsForest SameOuter ts → Leaves (create_statements ts)
  statements-Leaves nil h = Leaves-pure []
  statements-Leaves (cons t ts) h =
      Leaves-bind _ _ (statement-Leaves t h.0)
        (λ here. Leaves-bind _ _ (statements-Leaves ts h.1) (λ rest. Leaves-pure _))

  blocks-Leaves :
      (ts : Forest (M Expression)) → KeepsForest SameOuter ts → LeavesAll (create_blocks ts)
  blocks-Leaves nil h = tt
  blocks-Leaves (cons (tree k v a cs) ts) h =
      (fill_block-Leaves _ (statements-Leaves cs h.0.1), blocks-Leaves ts h.1)

  parts-Leaves :
      (ts : Forest (M Expression))
      → KeepsForest SameOuter ts
      → (b : Branch) → Leaves (create_branch_parts ts b)
  parts-Leaves nil h b = Leaves-pure b
  parts-Leaves (cons (tree k v a cs) ts) h b =
      Leaves-bind _ _
        (create_branch_part-Leaves (to_list cs) (create_blocks cs)
          (to_list-Keeps SameOuter-IsFrame cs h.0.1) (blocks-Leaves cs h.0.1) k b)
        (parts-Leaves ts h.1)

-- Where the block at a node is filled, whatever it declares and however deep its blocks are nested, the
-- scope afterwards is the scope before.
pub create_block-scope :
    (len : String → ℕ → ℕ) (t : Node) (s : SetState)
    → OnOk (λ b s'. s'.scope ≡ s.scope) (create_block (annotate (create_label len) t) s)
unfolding create_block
create_block-scope len t s =
    go (annotate (create_label len) t) (annotated-KeepsTree SameOuter-IsFrame len t)
  where
    go :
        (t : Tree (M Expression))
        → KeepsTree SameOuter t
        → OnOk (λ b s'. s'.scope ≡ s.scope) (create_block t s)
    go (tree k v a cs) h = fill_block-scope _ s (statements-Leaves cs h.1)
