-- ===== src/Set/Bitwise.antt =====
-- Bitwise operations: `createBitOperation` and `createBitNotOperation` of src/set/set.c. Parts of a
-- result type that the source never writes hold what `garbage` holds.
use gemstone.Prelude.{not, List, [], ◌∷◌, if◌then◌else◌}
use gemstone.Ast.{SyntaxElement, ast_bit_and, ast_bit_or, ast_bit_xor, Tree, label}
use gemstone.Set.Types.{
  PrimitiveType, int, float, GemType, primitive, composite, BitwiseOperator, bitwise_and,
  bitwise_or, bitwise_not, bitwise_xor, boolean_kind, bitwise_kind, bitwise, Expression, operation,
  result, of_list, ◌is_primitive◌,
}
use gemstone.Set.Scale.{is_scale_equal}
use gemstone.Set.Monad.{
  M, pure, abort, ◌>>=◌, ◌>>◌, gets, reject, panic, get_node, new_type, load_type,
}
use gemstone.Set.Operands.{max_sign, cast_operands, create_operands, operand}

abbrev pub bitwise_operator : SyntaxElement → M BitwiseOperator
bitwise_operator ast_bit_and = pure bitwise_and
bitwise_operator ast_bit_or = pure bitwise_or
bitwise_operator ast_bit_xor = pure bitwise_xor
bitwise_operator kind = abort panic

abbrev pub require_int_variant : PrimitiveType → M (Unit {0})
require_int_variant p =
    if p is_primitive float then reject "Must be a type variant of int" else pure tt

-- The primitive of a composite that is never written.
abbrev pub stale_primitive : GemType → PrimitiveType
stale_primitive (primitive p) = p
stale_primitive (composite c) = c.primitive
stale_primitive t = int

-- The result for two scalar operand types.
unfoldable pub bitwise_type : GemType → GemType → M GemType
bitwise_type (primitive p) (primitive q) = do
  require_int_variant p
  require_int_variant q
  pure (primitive int)
bitwise_type (primitive p) (composite d) = do
  require_int_variant p
  require_int_variant d.primitive
  pure (primitive int)
bitwise_type (composite c) (primitive q) = do
  require_int_variant c.primitive
  require_int_variant q
  pure (primitive int)
bitwise_type (composite c) (composite d) = do
  require_int_variant d.primitive
  require_int_variant c.primitive
  garbage ← gets (λ s. s.garbage)
  if not (is_scale_equal c.scale d.scale)
      then reject "Operands must be of equal size"
      else pure (
          composite (record {
            sign = max_sign c.sign d.sign;
            scale = c.scale;
            primitive = stale_primitive garbage;
          }))
bitwise_type l r = reject "Must be a type variant of int"

unfoldable pub create_bit_operation : SyntaxElement → List (Tree (M Expression)) → M Expression
create_bit_operation kind nodes = do
  operands ← create_operands nodes
  op ← bitwise_operator kind
  l ← operand operands 0
  r ← operand operands 1
  left ← load_type (result l)
  right ← load_type (result r)
  t ← bitwise_type left right
  type ← new_type t
  operands' ← cast_operands type operands
  pure (operation type boolean_kind (bitwise op) (of_list operands'))

-- The result for an operand that is a reference or a box is never written.
unfoldable pub bitwise_not_type : GemType → M GemType
bitwise_not_type (primitive p) =
    if p is_primitive float
    then reject "Operand type must be a variant of int"
    else pure (primitive int)
bitwise_not_type (composite c) =
    if c.primitive is_primitive float
    then reject "Operand type must be a variant of int"
    else pure (composite (record c { primitive = int }))
bitwise_not_type t = gets (λ s. s.garbage)

unfoldable pub create_bit_not_operation : List (Tree (M Expression)) → M Expression
create_bit_not_operation nodes = do
  node ← get_node nodes 0
  e ← label node
  t ← load_type (result e)
  t' ← bitwise_not_type t
  type ← new_type t'
  operands' ← cast_operands type (e ∷ [])
  pure (operation type bitwise_kind (bitwise bitwise_not) (of_list operands'))
