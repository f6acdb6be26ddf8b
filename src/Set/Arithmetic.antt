-- ===== src/Set/Arithmetic.antt =====
-- Arithmetic and relational operations: `createArithOperation` and `createRelationalOperation` of
-- src/set/set.c.
pub mod Negation
use gemstone.Prelude.{ℕ, List, ◌==◌, length, if◌then◌else◌}
use gemstone.Ast.{
  SyntaxElement, ast_add, ast_sub, ast_mul, ast_div, ast_negate, ast_eq, ast_less, ast_greater,
  Tree,
}
use gemstone.Set.Types.{
  PrimitiveType, signed, GemType, primitive, composite, TypePtr, ArithmeticOperator, add, sub, mul,
  div, negate, RelationalOperator, equal, greater, less, arithmetic_kind, relational_kind,
  arithmetic, relational, Expression, operation, result, of_list,
}
use gemstone.Set.Monad.{
  M, pure, abort, ◌>>=◌, ◌>>◌, reject, assertion, panic, new_type, load_type, store_type,
}
use gemstone.Set.Operands.{create_type_from_operands, cast_operands, create_operands, operand}

abbrev pub arithmetic_operator : SyntaxElement → M ArithmeticOperator
arithmetic_operator ast_add = pure add
arithmetic_operator ast_sub = pure sub
arithmetic_operator ast_mul = pure mul
arithmetic_operator ast_div = pure div
arithmetic_operator ast_negate = pure negate
arithmetic_operator kind = abort panic

-- Negation takes the type of its operand for its own and writes the sign into it.
unfoldable pub negated_type : TypePtr → GemType → M TypePtr
negated_type p (composite c) = do store_type p (composite (record c { sign = signed })); pure p
negated_type p (primitive q) = pure p
negated_type p t = reject "Invalid type for arithmetic operation"

unfoldable pub arithmetic_type : ArithmeticOperator → List Expression → M TypePtr
arithmetic_type negate operands = do
  e ← operand operands 0
  t ← load_type (result e)
  negated_type (result e) t
arithmetic_type op operands = do
  l ← operand operands 0
  r ← operand operands 1
  create_type_from_operands (result l) (result r)

unfoldable pub create_arith_operation :
    SyntaxElement → List (Tree (M Expression)) → ℕ → M Expression
create_arith_operation kind nodes expected_child_count =
    if expected_child_count == length nodes
    then (do
      operands ← create_operands nodes
      op ← arithmetic_operator kind
      type ← arithmetic_type op operands
      operands' ← cast_operands type operands
      pure (operation type arithmetic_kind (arithmetic op) (of_list operands')))
    else abort assertion

abbrev pub relational_operator : SyntaxElement → M RelationalOperator
relational_operator ast_eq = pure equal
relational_operator ast_less = pure less
relational_operator ast_greater = pure greater
relational_operator kind = abort panic

-- The operands are cast to the result type, the primitive `int`.
unfoldable pub create_relational_operation :
    SyntaxElement → List (Tree (M Expression)) → M Expression
create_relational_operation kind nodes = do
  operands ← create_operands nodes
  op ← relational_operator kind
  type ← new_type (primitive PrimitiveType.int)
  operands' ← cast_operands type operands
  pure (operation type relational_kind (relational op) (of_list operands'))
