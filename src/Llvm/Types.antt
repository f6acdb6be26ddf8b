-- ===== src/Llvm/Types.antt =====
-- The LLVM types of Gemstone's, and the default values: src/llvm/llvm-ir/types.c. What the LLVM library
-- makes is a parameter.
use gemstone.Prelude.{
  ℕ, zero, suc, ◌*◌, String, Option, none, some, List, [], ◌∷◌, ◌==◌, if◌then◌else◌,
}
use gemstone.Set.Types.{
  GemType, primitive, composite, box, reference, TypePtr, PrimitiveType, int, float, char, Scale,
  CompositeType, signed, ◌is_sign◌,
}
use gemstone.Set.Scale.{int_scale}
use gemstone.Set.Monad.{cell}

-- `LLVMIntTypeInContext` to `LLVMPointerType`, of the context of the compile unit, and constants.
pub record Llvm (L V : Type 0) : Type 0 where
  pub int_type : ℕ → L
  pub int32_type : L
  pub half_type : L
  pub float_type : L
  pub double_type : L
  pub fp128_type : L
  pub pointer_type : L → L
  pub const_int_of_string : L → String → V
  pub const_real_of_string : L → String → V
  pub const_pointer_null : L → V

-- A `BackendError` with its message, or `SUCCESS` and what was written through the pointer. What is
-- undefined, or a `PANIC`, is `none`.
pub data Outcome (A : Type 0) : Type 0 where
  failed : String → Outcome A
  success : A → Outcome A

module _ {L V : Type 0} (llvm : Llvm L V) where
  -- `impl_primtive_type`.
  unfoldable pub impl_primitive_type : PrimitiveType → L
  impl_primitive_type int = llvm.int32_type
  impl_primitive_type float = llvm.float_type
  impl_primitive_type char = llvm.int32_type

  -- `impl_integral_type`.
  unfoldable pub impl_integral_type : Scale → L
  impl_integral_type scale = llvm.int_type (int_scale scale * 8)

  -- `impl_float_type`.
  unfoldable pub impl_float_type : Scale → Outcome L
  impl_float_type scale =
      let bytes = int_scale scale in
      if bytes == 2
      then success llvm.half_type
      else if bytes == 4
      then success llvm.float_type
      else if bytes == 8
      then success llvm.double_type
      else if bytes == 16
      then success llvm.fp128_type
      else failed "floating point with scale not supported"

  -- `impl_composite_type`.
  unfoldable pub impl_composite_type : CompositeType → Option (Outcome L)
  impl_composite_type c = elim c.primitive [
    | int ↦ some (success (impl_integral_type c.scale))
    | float ↦ some (
        if c.sign is_sign signed
        then impl_float_type c.scale
        else failed "unsigned floating-point not supported")
    | char ↦ none
  ]

  -- The loop of `impl_box_type` over the members, by the implementation of their types. An error ends it. What is
  -- appended for a member is the place for the result, not the type of the member, so to make a structure of the members is undefined,
  -- and so is the error that is returned where there are none.
  unfoldable pub impl_members : (TypePtr → Option (Outcome L)) → List TypePtr → Option (Outcome L)
  impl_members implement [] = none
  impl_members implement (p ∷ ps) = elim (implement p) [
    | none ↦ none
    | some (failed e) ↦ some (failed e)
    | some (success l) ↦ impl_members implement ps
  ]

  -- The rest of `impl_reference_type`.
  abbrev pub point_to : Option (Outcome L) → Option (Outcome L)
  point_to none = none
  point_to (some (failed e)) = some (failed e)
  point_to (some (success l)) = some (success (llvm.pointer_type l))

  -- The members of a box, in the order of the iteration over its table.
  module _ (members : ℕ → List TypePtr) (types : List GemType) where
    -- `get_type_impl` of a type that was read, given what it does to other types.
    unfoldable pub impl_loaded : (TypePtr → Option (Outcome L)) → GemType → Option (Outcome L)
    impl_loaded implement (primitive p) = some (success (impl_primitive_type p))
    impl_loaded implement (composite c) = impl_composite_type c
    impl_loaded implement (reference p) = point_to (implement p)
    impl_loaded implement (box b) = impl_members implement (members b)

    -- `get_type_impl` of the type at an address, down to a depth.
    unfoldable pub get_type_impl : ℕ → TypePtr → Option (Outcome L)
    get_type_impl zero p = none
    get_type_impl (suc depth) p = elim (cell types p) [
      | none ↦ none
      | some t ↦ impl_loaded (get_type_impl depth) t
    ]

  -- `get_primitive_default_value`.
  unfoldable pub get_primitive_default_value : PrimitiveType → L → Outcome V
  get_primitive_default_value int l = success (llvm.const_int_of_string l "0")
  get_primitive_default_value float l = success (llvm.const_real_of_string l "0")
  get_primitive_default_value char l = failed "unknown primitive type"

  -- `get_composite_default_value`. For characters nothing is written.
  unfoldable pub get_composite_default_value : CompositeType → L → Option (Outcome V)
  get_composite_default_value c l = elim c.primitive [
    | int ↦ some (get_primitive_default_value int l)
    | float ↦ some (
        if c.sign is_sign signed
        then get_primitive_default_value float l
        else failed "unsigned floating-point not supported")
    | char ↦ none
  ]

  -- The default value of a type that was read, with its implementation. That of a box is made of no constants, whatever
  -- its members are; no box is implemented, so it is left out.
  unfoldable pub default_loaded : GemType → L → Option (Outcome V)
  default_loaded (primitive p) l = some (get_primitive_default_value p l)
  default_loaded (composite c) l = get_composite_default_value c l
  default_loaded (reference p) l = some (success (llvm.const_pointer_null l))
  default_loaded (box b) l = none

  -- `get_type_default_value`.
  unfoldable pub get_type_default_value :
      (ℕ → List TypePtr) → List GemType → ℕ → TypePtr → Option (Outcome V)
  get_type_default_value members types depth p = elim (get_type_impl members types depth p) [
    | none ↦ none
    | some (failed e) ↦ some (failed e)
    | some (success l) ↦ elim (cell types p) [ none ↦ none | some t ↦ default_loaded t l ]
  ]
