-- ===== src/Set/Keeps/Expressions.antt =====
-- The routines on expressions keep every frame: `createExpression` does, whatever the tree.
use gemstone.Prelude.{ℕ, Option, none, some, List, [], ◌∷◌}
use gemstone.Ast.{SyntaxElement, Tree}
use gemstone.Set.Types.{result, ArithmeticOperator, GemType, TypePtr, Expression}
use gemstone.Set.Monad.{M}
use gemstone.Set.Operands.{
  operand, create_type_from_operands, create_type_cast_from_expression, cast_operand, cast_operands,
  create_operands, incompatible,
}
use gemstone.Set.Arithmetic.{
  arithmetic_operator, arithmetic_type, create_arith_operation, relational_operator,
  create_relational_operation,
}
use gemstone.Set.Logic.{
  check_no_float, boolean_type, boolean_not_type, create_bool_operation, create_bool_not_operation,
  boolean_operator,
}
use gemstone.Set.Bitwise.{
  bitwise_type, bitwise_not_type, create_bit_operation, create_bit_not_operation, bitwise_operator,
}
use gemstone.Ast.{ast_add, ast_eq, ast_bool_and, ast_bit_and}
use gemstone.Set.Keeps.{
  Keeps-bind, Keeps-pure, Relation, Keeps, IsFrame, keeps_rules, Keeps-negation,
}
use gemstone.Set.Keeps.Types.{compare_types-Keeps}
use gemstone.Set.Keeps.Nodes.{KeepsAll, label-Keeps, Keeps-get_node}

module _ {R : Relation} (frame : IsFrame R) where
  incompatible-Keeps : (o : Option GemType) → Keeps R (incompatible o)
  incompatible-Keeps none = search (keeps_rules, frame)
  incompatible-Keeps (some t) = search (keeps_rules, frame)

  create_type_from_operands-Keeps : (l r : TypePtr) → Keeps R (create_type_from_operands l r)
  unfolding create_type_from_operands
  create_type_from_operands-Keeps l r = search (keeps_rules, frame, incompatible-Keeps) depth 8

  pub create_type_cast_from_expression-Keeps :
      (e : Expression) (p : TypePtr) → Keeps R (create_type_cast_from_expression e p)
  unfolding create_type_cast_from_expression
  create_type_cast_from_expression-Keeps e p = search (keeps_rules, frame) depth 8

  cast_operand-Keeps : (p : TypePtr) (e : Expression) → Keeps R (cast_operand p e)
  unfolding cast_operand
  cast_operand-Keeps p e =
      search (keeps_rules, frame, compare_types-Keeps, create_type_cast_from_expression-Keeps) depth
        8

  cast_operands-Keeps : (p : TypePtr) (es : List Expression) → Keeps R (cast_operands p es)
  unfolding cast_operands
  cast_operands-Keeps p [] = search (keeps_rules, frame)
  cast_operands-Keeps p (e ∷ es) =
      Keeps-bind frame (cast_operand p e) _ (cast_operand-Keeps p e) (λ e'.
        Keeps-bind frame (cast_operands p es) _ (cast_operands-Keeps p es)
          (λ es'. Keeps-pure frame _))

  create_operands-Keeps :
      (ts : List (Tree (M Expression))) → KeepsAll R ts → Keeps R (create_operands ts)
  unfolding create_operands
  create_operands-Keeps [] h = search (keeps_rules, frame)
  create_operands-Keeps (t ∷ ts) h =
      search (keeps_rules, frame, label-Keeps frame t h.0, create_operands-Keeps ts h.1) depth 8

  arithmetic_operator-Keeps : (k : SyntaxElement) → Keeps R (arithmetic_operator k)
  arithmetic_operator-Keeps ast_add = Keeps-pure frame _
  arithmetic_operator-Keeps _ = search (keeps_rules, frame)

  relational_operator-Keeps : (k : SyntaxElement) → Keeps R (relational_operator k)
  relational_operator-Keeps ast_eq = Keeps-pure frame _
  relational_operator-Keeps _ = search (keeps_rules, frame)

  boolean_operator-Keeps : (k : SyntaxElement) → Keeps R (boolean_operator k)
  boolean_operator-Keeps ast_bool_and = Keeps-pure frame _
  boolean_operator-Keeps _ = search (keeps_rules, frame)

  bitwise_operator-Keeps : (k : SyntaxElement) → Keeps R (bitwise_operator k)
  bitwise_operator-Keeps ast_bit_and = Keeps-pure frame _
  bitwise_operator-Keeps _ = search (keeps_rules, frame)

  operand-Keeps : (es : List Expression) (i : ℕ) → Keeps R (operand es i)
  operand-Keeps es i = search (keeps_rules, frame)

  arithmetic_type-Keeps :
      (op : ArithmeticOperator) (es : List Expression) → Keeps R (arithmetic_type op es)
  unfolding arithmetic_type
  arithmetic_type-Keeps ArithmeticOperator.negate es =
      Keeps-bind frame (operand es 0) _ (operand-Keeps es 0) (λ e. Keeps-negation frame (result e))
  arithmetic_type-Keeps _ es = search (keeps_rules, frame, create_type_from_operands-Keeps) depth 8

  module _ (ts : List (Tree (M Expression))) (h : KeepsAll R ts) where
    pub create_arith_operation-Keeps :
        (k : SyntaxElement) (n : ℕ) → Keeps R (create_arith_operation k ts n)
    unfolding create_arith_operation
    create_arith_operation-Keeps k n =
        search
          (
            keeps_rules, frame, h, create_operands-Keeps, arithmetic_operator-Keeps,
            arithmetic_type-Keeps, cast_operands-Keeps,
          )
          depth 12

    pub create_relational_operation-Keeps :
        (k : SyntaxElement) → Keeps R (create_relational_operation k ts)
    unfolding create_relational_operation
    create_relational_operation-Keeps k =
        search
          (
            keeps_rules, frame, h, create_operands-Keeps, relational_operator-Keeps,
            cast_operands-Keeps,
          )
          depth 12

  check_no_float-Keeps : (l r : GemType) → Keeps R (check_no_float l r)
  unfolding check_no_float
  check_no_float-Keeps (GemType.composite c) r = search (keeps_rules, frame)
  check_no_float-Keeps (GemType.primitive p) r = search (keeps_rules, frame)
  check_no_float-Keeps (GemType.box b) (GemType.composite c) = search (keeps_rules, frame)
  check_no_float-Keeps (GemType.box b) _ = search (keeps_rules, frame)
  check_no_float-Keeps (GemType.reference p) (GemType.composite c) = search (keeps_rules, frame)
  check_no_float-Keeps (GemType.reference p) _ = search (keeps_rules, frame)

  boolean_type-Keeps : (l r : TypePtr) → Keeps R (boolean_type l r)
  unfolding boolean_type
  boolean_type-Keeps l r =
      search (keeps_rules, frame, check_no_float-Keeps, create_type_from_operands-Keeps) depth 14

  boolean_not_type-Keeps : (t : GemType) → Keeps R (boolean_not_type t)
  unfolding boolean_not_type
  boolean_not_type-Keeps (GemType.primitive p) = search (keeps_rules, frame)
  boolean_not_type-Keeps _ = search (keeps_rules, frame)

  bitwise_type-Keeps : (l r : GemType) → Keeps R (bitwise_type l r)
  unfolding bitwise_type
  bitwise_type-Keeps (GemType.primitive p) (GemType.primitive q) =
      search (keeps_rules, frame) depth 8
  bitwise_type-Keeps (GemType.primitive p) _ = search (keeps_rules, frame) depth 8
  bitwise_type-Keeps (GemType.composite c) (GemType.primitive q) =
      search (keeps_rules, frame) depth 8
  bitwise_type-Keeps (GemType.composite c) _ = search (keeps_rules, frame) depth 10
  bitwise_type-Keeps (GemType.box b) r = search (keeps_rules, frame)
  bitwise_type-Keeps (GemType.reference b) r = search (keeps_rules, frame)

  bitwise_not_type-Keeps : (t : GemType) → Keeps R (bitwise_not_type t)
  unfolding bitwise_not_type
  bitwise_not_type-Keeps (GemType.primitive p) = search (keeps_rules, frame)
  bitwise_not_type-Keeps _ = search (keeps_rules, frame)

  module _ (ts : List (Tree (M Expression))) (h : KeepsAll R ts) where
    pub create_bool_operation-Keeps : (k : SyntaxElement) → Keeps R (create_bool_operation k ts)
    unfolding create_bool_operation
    create_bool_operation-Keeps k =
        search
          (
            keeps_rules, frame, h, create_operands-Keeps, boolean_operator-Keeps,
            boolean_type-Keeps, cast_operands-Keeps,
          )
          depth 14

    pub create_bool_not_operation-Keeps : Keeps R (create_bool_not_operation ts)
    unfolding create_bool_not_operation
    create_bool_not_operation-Keeps =
        search
          (
            Keeps-get_node, keeps_rules, frame, h, label-Keeps, boolean_not_type-Keeps,
            cast_operands-Keeps,
          )
          depth 14

    pub create_bit_operation-Keeps : (k : SyntaxElement) → Keeps R (create_bit_operation k ts)
    unfolding create_bit_operation
    create_bit_operation-Keeps k =
        search
          (
            keeps_rules, frame, h, create_operands-Keeps, bitwise_operator-Keeps,
            bitwise_type-Keeps, cast_operands-Keeps,
          )
          depth 16

    pub create_bit_not_operation-Keeps : Keeps R (create_bit_not_operation ts)
    unfolding create_bit_not_operation
    create_bit_not_operation-Keeps =
        search
          (
            Keeps-get_node, keeps_rules, frame, h, label-Keeps, bitwise_not_type-Keeps,
            cast_operands-Keeps,
          )
          depth 14
