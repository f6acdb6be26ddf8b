-- ===== src/Set/Operands/Symmetric.antt =====
-- `createTypeFromOperands` does not see the order of its operands.
use gemstone.Prelude.{arith, ℕ, ◌≡◌, refl, ap, max, Option, none, some}
use gemstone.Set.Types.{PrimitiveType, Sign, GemType, primitive, composite, box, reference, TypePtr}
use gemstone.Set.Monad.{SetState, cell}
use gemstone.Set.Operands.{
  max_primitive, max_sign, operand_type, create_type_from_operands, incompatible,
}

max_primitive_comm : (p q : PrimitiveType) → max_primitive p q ≡ max_primitive q p
max_primitive_comm PrimitiveType.int PrimitiveType.int = refl
max_primitive_comm PrimitiveType.int PrimitiveType.float = refl
max_primitive_comm PrimitiveType.int PrimitiveType.char = refl
max_primitive_comm PrimitiveType.float PrimitiveType.int = refl
max_primitive_comm PrimitiveType.float PrimitiveType.float = refl
max_primitive_comm PrimitiveType.float PrimitiveType.char = refl
max_primitive_comm PrimitiveType.char PrimitiveType.int = refl
max_primitive_comm PrimitiveType.char PrimitiveType.float = refl
max_primitive_comm PrimitiveType.char PrimitiveType.char = refl

max_sign_comm : (s t : Sign) → max_sign s t ≡ max_sign t s
max_sign_comm Sign.unsigned Sign.unsigned = refl
max_sign_comm Sign.unsigned Sign.signed = refl
max_sign_comm Sign.signed Sign.unsigned = refl
max_sign_comm Sign.signed Sign.signed = refl

max_scale_comm : (a b : ℕ) → max a b ≡ max b a
max_scale_comm a b = omega arith

operand_type_comm : (t u : GemType) → operand_type t u ≡ operand_type u t
unfolding operand_type
operand_type_comm (composite c) (composite d) =
    rw
      (
        max_primitive_comm c.primitive d.primitive,
        max_sign_comm c.sign d.sign,
        max_scale_comm c.scale d.scale,
      )
      refl
operand_type_comm (primitive p) (primitive q) = rw (max_primitive_comm p q) refl
operand_type_comm (primitive p) (composite d) = refl
operand_type_comm (composite c) (primitive q) = refl
operand_type_comm (composite c) (box b) = refl
operand_type_comm (composite c) (reference b) = refl
operand_type_comm (primitive c) (box b) = refl
operand_type_comm (primitive c) (reference b) = refl
operand_type_comm (box c) (primitive b) = refl
operand_type_comm (box c) (composite b) = refl
operand_type_comm (box c) (box b) = refl
operand_type_comm (box c) (reference b) = refl
operand_type_comm (reference c) (primitive b) = refl
operand_type_comm (reference c) (composite b) = refl
operand_type_comm (reference c) (box b) = refl
operand_type_comm (reference c) (reference b) = refl

-- The type of an operation on two operands is the same in either order: `createTypeFromOperands` ends
-- the same way, with the same type at the same address, the same error message or the same fault.
pub create_type_from_operands_comm :
    (left right : TypePtr) (s : SetState)
    → create_type_from_operands left right s ≡ create_type_from_operands right left s
unfolding create_type_from_operands
create_type_from_operands_comm left right s = go (cell s.types left) (cell s.types right) refl refl
  where
    go :
        (l r : Option GemType)
        → cell s.types left ≡ l
        → cell s.types right ≡ r
        → create_type_from_operands left right s ≡ create_type_from_operands right left s
    go none none e f = rw e (rw f refl)
    go none (some u) e f = rw e (rw f (rw e refl))
    go (some t) none e f = rw e (rw f refl)
    go (some t) (some u) e f =
        rw e (rw f (rw e (ap (λ o. incompatible o s) (operand_type_comm t u))))
