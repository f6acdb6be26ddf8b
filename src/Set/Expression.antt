-- ===== src/Set/Expression.antt =====
-- `createExpression` of src/set/set.c. Each node of the tree is labelled with its analysis, and the
-- routines run the labels of the children; so the analysis is total, with no bound on the depth.
use gemstone.Prelude.{ℕ, String, List}
use gemstone.Ast.{
  SyntaxElement, ast_int, ast_float, ast_char, ast_string, ast_ident, ast_add, ast_sub, ast_mul,
  ast_div, ast_negate, ast_eq, ast_less, ast_greater, ast_bool_and, ast_bool_or, ast_bool_xor,
  ast_bool_not, ast_bit_and, ast_bit_or, ast_bit_xor, ast_bit_not, ast_ident_list, ast_list,
  ast_typecast, ast_transmute, ast_dereference, ast_address_of, ast_call, Tree, label, annotate,
}
use gemstone.Set.Types.{Expression}
use gemstone.Set.Monad.{M, abort, panic}
use gemstone.Set.Arithmetic.{create_arith_operation, create_relational_operation}
use gemstone.Set.Logic.{create_bool_operation, create_bool_not_operation}
use gemstone.Set.Bitwise.{create_bit_operation, create_bit_not_operation}
use gemstone.Set.Access.{
  create_type_value, create_string, create_identifier, create_type_cast, create_transmute,
  create_deref, create_address_of, create_box_access,
}
use gemstone.Set.Calls.{create_call_expression}

-- A source tree: the label of a node is not read.
abbrev pub Node : Type 0
Node = Tree (Unit {0})

module _ (utf8_strlen : String → ℕ → ℕ) where
  -- The switch over the kind of the node.
  unfoldable pub create_by_kind : SyntaxElement → String → List (Tree (M Expression)) → M Expression
  create_by_kind ast_int value nodes = create_type_value utf8_strlen ast_int value
  create_by_kind ast_float value nodes = create_type_value utf8_strlen ast_float value
  create_by_kind ast_char value nodes = create_type_value utf8_strlen ast_char value
  create_by_kind ast_string value nodes = create_string value
  create_by_kind ast_ident value nodes = create_identifier value
  create_by_kind ast_add value nodes = create_arith_operation ast_add nodes 2
  create_by_kind ast_sub value nodes = create_arith_operation ast_sub nodes 2
  create_by_kind ast_mul value nodes = create_arith_operation ast_mul nodes 2
  create_by_kind ast_div value nodes = create_arith_operation ast_div nodes 2
  create_by_kind ast_negate value nodes = create_arith_operation ast_negate nodes 1
  create_by_kind ast_eq value nodes = create_relational_operation ast_eq nodes
  create_by_kind ast_less value nodes = create_relational_operation ast_less nodes
  create_by_kind ast_greater value nodes = create_relational_operation ast_greater nodes
  create_by_kind ast_bool_and value nodes = create_bool_operation ast_bool_and nodes
  create_by_kind ast_bool_or value nodes = create_bool_operation ast_bool_or nodes
  create_by_kind ast_bool_xor value nodes = create_bool_operation ast_bool_xor nodes
  create_by_kind ast_bool_not value nodes = create_bool_not_operation nodes
  create_by_kind ast_bit_and value nodes = create_bit_operation ast_bit_and nodes
  create_by_kind ast_bit_or value nodes = create_bit_operation ast_bit_or nodes
  create_by_kind ast_bit_xor value nodes = create_bit_operation ast_bit_xor nodes
  create_by_kind ast_bit_not value nodes = create_bit_not_operation nodes
  create_by_kind ast_ident_list value nodes = create_box_access nodes
  create_by_kind ast_list value nodes = create_box_access nodes
  create_by_kind ast_typecast value nodes = create_type_cast nodes
  create_by_kind ast_transmute value nodes = create_transmute nodes
  create_by_kind ast_dereference value nodes = create_deref nodes
  create_by_kind ast_address_of value nodes = create_address_of nodes
  create_by_kind ast_call value nodes = create_call_expression nodes
  create_by_kind kind value nodes = abort panic

  abbrev pub create_label :
      SyntaxElement → String → Unit {0} → List (Tree (M Expression)) → M Expression
  create_label kind value _ nodes = create_by_kind kind value nodes

  unfoldable pub create_expression : Node → M Expression
  create_expression node = label (annotate create_label node)
