-- ===== src/Set/Keeps/Expression.antt =====
-- `createExpression` keeps every frame, whatever the tree.
use gemstone.Prelude.{ℕ, String, List}
use gemstone.Ast.{SyntaxElement, Tree, annotate}
use gemstone.Set.Types.{Expression}
use gemstone.Set.Monad.{M, SetState}
use gemstone.Set.Expression.{Node, create_by_kind, create_label, create_expression}
use gemstone.Set.Keeps.{Relation, Keeps, IsFrame, Keeps-abort, Ends}
use gemstone.Set.Keeps.Nodes.{KeepsTree, KeepsAll, label-Keeps, annotate-KeepsTree}
use gemstone.Set.Keeps.Expressions.{
  create_arith_operation-Keeps, create_relational_operation-Keeps, create_bool_operation-Keeps,
  create_bool_not_operation-Keeps, create_bit_operation-Keeps, create_bit_not_operation-Keeps,
}
use gemstone.Set.Keeps.Access.{
  create_type_value-Keeps, create_string-Keeps, create_identifier-Keeps, create_type_cast-Keeps,
  create_transmute-Keeps, create_deref-Keeps, create_address_of-Keeps, create_box_access-Keeps,
  create_call_expression-Keeps,
}
use gemstone.Set.Keeps.Untouched.{Untouched, Untouched-IsFrame}

ruleset handler_rules = (
  create_arith_operation-Keeps, create_relational_operation-Keeps, create_bool_operation-Keeps,
  create_bool_not_operation-Keeps, create_bit_operation-Keeps, create_bit_not_operation-Keeps,
  create_type_value-Keeps, create_string-Keeps, create_identifier-Keeps, create_type_cast-Keeps,
  create_transmute-Keeps, create_deref-Keeps, create_address_of-Keeps, create_box_access-Keeps,
  create_call_expression-Keeps, Keeps-abort,
)

module _ {R : Relation} (frame : IsFrame R) (len : String → ℕ → ℕ) where
  create_by_kind-Keeps :
      (k : SyntaxElement) (v : String) (ts : List (Tree (M Expression)))
      → KeepsAll R ts
      → Keeps R (create_by_kind len k v ts)
  unfolding create_by_kind
  create_by_kind-Keeps SyntaxElement.ast_add v ts h =
      create_arith_operation-Keeps frame ts h SyntaxElement.ast_add 2
  create_by_kind-Keeps _ v ts h = search (handler_rules, frame)

  pub annotated-KeepsTree : (t : Node) → KeepsTree R (annotate (create_label len) t)
  annotated-KeepsTree =
      annotate-KeepsTree frame (create_label len) (λ k v a ts h. create_by_kind-Keeps k v ts h)

  pub create_expression-Keeps : (t : Node) → Keeps R (create_expression len t)
  unfolding create_expression
  create_expression-Keeps t = label-Keeps frame _ (annotated-KeepsTree t)

-- Whatever the tree of an expression and the state, its analysis ends in a fault or, with a result or
-- an error, in a state with the same variables, functions, tables and scope, where every type that
-- was there is what it was, up to the sign of a composite.
pub create_expression-Untouched :
    (len : String → ℕ → ℕ) (t : Node) (s : SetState) → Ends Untouched s (create_expression len t s)
create_expression-Untouched len t s = (create_expression-Keeps Untouched-IsFrame len t).at s
