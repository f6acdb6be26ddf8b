-- ===== src/Set/Operands.antt =====
-- The result types of binary operations and the casts of operands: `createTypeFromOperands`,
-- `createTypeCastFromExpression` and the loops that the operations share in src/set/set.c.
pub mod Symmetric
pub mod Agree
use gemstone.Prelude.{
  ℕ, Bool, true, false, Option, none, some, List, [], ◌∷◌, ltb, get_elem?, max, if◌then◌else◌,
}
use gemstone.Ast.{Tree, label}
use gemstone.Set.Types.{
  PrimitiveType, int, Sign, signed, CompositeType, GemType, primitive, composite, TypePtr,
  Expression, type_cast, result, primitive_code, sign_code,
}
use gemstone.Set.Scale.{one}
use gemstone.Set.Monad.{M, pure, ◌>>=◌, or_fault, reject, bad_pointer, new_type, load_type}
use gemstone.Set.Compare.{compare_types}

-- `MAX` on enumerators.
abbrev pub max_primitive : PrimitiveType → PrimitiveType → PrimitiveType
max_primitive p q = if ltb (primitive_code q) (primitive_code p) then p else q

abbrev pub max_sign : Sign → Sign → Sign
max_sign s t = if ltb (sign_code t) (sign_code s) then s else t

-- The type of an operation on a primitive and a composite.
abbrev pub widen : CompositeType → CompositeType
widen c = record {
  sign = signed;
  scale = max one c.scale;
  primitive = max_primitive int c.primitive;
}

unfoldable pub operand_type : GemType → GemType → Option GemType
operand_type (composite c) (composite d) = some (
    composite (record {
      sign = max_sign c.sign d.sign;
      scale = max c.scale d.scale;
      primitive = max_primitive c.primitive d.primitive;
    }))
operand_type (primitive p) (primitive q) = some (primitive (max_primitive p q))
operand_type (primitive p) (composite d) = some (composite (widen d))
operand_type (composite c) (primitive q) = some (composite (widen c))
operand_type l r = none

abbrev pub incompatible : Option GemType → M TypePtr
incompatible none = reject "Incompatible types in expression"
incompatible (some t) = new_type t

unfoldable pub create_type_from_operands : TypePtr → TypePtr → M TypePtr
create_type_from_operands left right = do
  l ← load_type left
  r ← load_type right
  incompatible (operand_type l r)

abbrev pub is_scalar : GemType → Bool
is_scalar (primitive p) = true
is_scalar (composite c) = true
is_scalar t = false

unfoldable pub create_type_cast_from_expression : Expression → TypePtr → M Expression
create_type_cast_from_expression expression target = do
  t ← load_type (result expression)
  if is_scalar t
      then pure (type_cast target expression)
      else reject "Expected either primitive or composite type"

unfoldable pub cast_operand : TypePtr → Expression → M Expression
cast_operand target operand = do
  same ← compare_types (result operand) target
  if same then pure operand else create_type_cast_from_expression operand target

-- The loop that casts the operands which differ from the type of the operation.
unfoldable pub cast_operands : TypePtr → List Expression → M (List Expression)
cast_operands target [] = pure []
cast_operands target (e ∷ es) = do
  e' ← cast_operand target e
  es' ← cast_operands target es
  pure (e' ∷ es')

-- The loop that analyses the children; at a child's node stands its `createExpression`.
unfoldable pub create_operands : List (Tree (M Expression)) → M (List Expression)
create_operands [] = pure []
create_operands (node ∷ nodes) = do e ← label node; es ← create_operands nodes; pure (e ∷ es)

-- `g_array_index`, which does not look at the length.
abbrev pub operand : List Expression → ℕ → M Expression
operand operands i = or_fault bad_pointer (get_elem? operands i)
