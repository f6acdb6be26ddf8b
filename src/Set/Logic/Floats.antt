-- ===== src/Set/Logic/Floats.antt =====
-- The test of `createBoolOperation` for operands that are floats.
use gemstone.Prelude.{◌≡◌, refl, some, [], ◌∷◌, ◌++◌, length}
use gemstone.Set.Types.{primitive, PrimitiveType, TypePtr}
use gemstone.Set.Monad.{SetState, ok, cell, reject}
use gemstone.Set.Operands.{operand_type, create_type_from_operands}
use gemstone.Set.Logic.{check_no_float, boolean_type}

-- A float is refused on the left of a Boolean operation and accepted on the right: with `int` on the left
-- and `float` on the right the operation gets a new type, which is `float`; the other way round it is an
-- error.
boolean_type-float :
    (left right : TypePtr) (s : SetState)
    → cell s.types left ≡ some (primitive PrimitiveType.int)
    → cell s.types right ≡ some (primitive PrimitiveType.float)
    → (boolean_type left right s
        ≡ ok (length s.types) (record s { types = s.types ++ primitive PrimitiveType.float ∷ [] }))
      × (boolean_type right left s ≡ reject "operand must not be a float" s)
unfolding boolean_type check_no_float create_type_from_operands operand_type
boolean_type-float left right s e f = (rw e (rw f (rw e (rw f refl))), rw f (rw e refl))
