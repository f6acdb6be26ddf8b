-- ===== src/Set/Logic.antt =====
-- Boolean operations: `createBoolOperation` and `createBoolNotOperation` of src/set/set.c.
pub mod Floats
use gemstone.Prelude.{String, List, [], ◌∷◌, if◌then◌else◌}
use gemstone.Ast.{SyntaxElement, ast_bool_and, ast_bool_or, ast_bool_xor, Tree, label}
use gemstone.Set.Types.{
  PrimitiveType, float, GemType, primitive, composite, TypePtr, BooleanOperator, boolean_and,
  boolean_or, boolean_not, boolean_xor, boolean_kind, boolean, Expression, operation, result,
  of_list, ◌is_primitive◌,
}
use gemstone.Set.Monad.{
  M, pure, abort, unchecked, ◌>>=◌, ◌>>◌, reject, panic, get_node, new_type, load_type,
}
use gemstone.Set.Operands.{
  create_type_from_operands, is_scalar, cast_operands, create_operands, operand,
}

abbrev pub boolean_operator : SyntaxElement → M BooleanOperator
boolean_operator ast_bool_and = pure boolean_and
boolean_operator ast_bool_or = pure boolean_or
boolean_operator ast_bool_xor = pure boolean_xor
boolean_operator kind = abort panic

abbrev pub require_scalar : String → GemType → M (Unit {0})
require_scalar message t = if is_scalar t then pure tt else reject message

abbrev pub require_no_float : String → PrimitiveType → M (Unit {0})
require_no_float message p = if p is_primitive float then reject message else pure tt

-- The ladder of tests for `float`: the right operand is looked at only if the left one is neither
-- composite nor primitive.
unfoldable pub check_no_float : GemType → GemType → M (Unit {0})
check_no_float (composite c) r = require_no_float "operand must not be a float" c.primitive
check_no_float (primitive p) r = require_no_float "operand must not be a float" p
check_no_float l (composite c) = require_no_float "operand must not be a float" c.primitive
check_no_float l (primitive p) = require_no_float "operand must not be a float" p
check_no_float l r = pure tt

unfoldable pub boolean_type : TypePtr → TypePtr → M TypePtr
boolean_type left right = do
  l ← load_type left
  r ← load_type right
  require_scalar "invalid type for boolean operation" l
  require_scalar "invalid type for boolean operation" r
  check_no_float l r
  unchecked (create_type_from_operands left right)

unfoldable pub create_bool_operation : SyntaxElement → List (Tree (M Expression)) → M Expression
create_bool_operation kind nodes = do
  operands ← create_operands nodes
  op ← boolean_operator kind
  l ← operand operands 0
  r ← operand operands 1
  type ← boolean_type (result l) (result r)
  operands' ← cast_operands type operands
  pure (operation type boolean_kind (boolean op) (of_list operands'))

-- The result of a negation: a copy of the operand's type.
unfoldable pub boolean_not_type : GemType → M GemType
boolean_not_type (primitive p) = do
  require_no_float "Operand must be a variant of primitive type int" p
  pure (primitive p)
boolean_not_type (composite c) = do
  require_no_float "Operand must be a variant of primitive type int" c.primitive
  pure (composite c)
boolean_not_type t = reject "Operand must be a variant of primitive type int"

unfoldable pub create_bool_not_operation : List (Tree (M Expression)) → M Expression
create_bool_not_operation nodes = do
  node ← get_node nodes 0
  e ← label node
  t ← load_type (result e)
  t' ← boolean_not_type t
  type ← new_type t'
  operands' ← cast_operands type (e ∷ [])
  pure (operation type boolean_kind (boolean boolean_not) (of_list operands'))
