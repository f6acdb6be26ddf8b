-- ===== src/Llvm/Examples.antt =====
-- The theorems on src/llvm/llvm-ir/types.c at a small heap of types.
use gemstone.Prelude.{
  ℕ, zero, suc, ◌≡◌, ◌≢◌, ◌<◌, ◌&&◌, ◌||◌, not, refl, true, some, List, [], ◌∷◌, ltb, leb, arith,
}
use gemstone.Set.Types.{
  GemType, box, primitive, composite, reference, TypePtr, PrimitiveType, CompositeType, signed,
  ◌is_sign◌, ◌is_primitive◌,
}
use gemstone.Set.Scale.{half, one, quarter, eight}
use gemstone.Set.Monad.{cell}
use gemstone.Set.Compare.{compare_in, compare_loaded}
use gemstone.Set.Compare.Grounded.{Grounded}
use gemstone.Llvm.Types.{Llvm, impl_composite_type, get_type_impl, get_type_default_value}
use gemstone.Llvm.Equal.{get_type_impl-compare_in}
use gemstone.Llvm.Accepted.{
  NoBox, is_success, impl_composite_type-scales, Answers, get_type_impl-Answers,
}
use gemstone.Llvm.Defaults.{holds_char, get_type_default_value-success}

data Shape : Type 0 where
  integer bytes : ℕ → Shape
  pointer : Shape → Shape

abbrev shapes : Llvm Shape Shape
shapes = record {
  int_type = integer;
  int32_type = integer 32;
  half_type = bytes 2;
  float_type = bytes 4;
  double_type = bytes 8;
  fp128_type = bytes 16;
  pointer_type = pointer;
  const_int_of_string = λ l s. l;
  const_real_of_string = λ l s. l;
  const_pointer_null = λ l. l;
}

abbrev plain_int : CompositeType
plain_int = record { sign = signed; scale = one; primitive = PrimitiveType.int }

abbrev quarter_float : CompositeType
quarter_float = record { sign = signed; scale = quarter; primitive = PrimitiveType.float }

-- `int`, a composite that is equal to it, and references to both.
abbrev heap : List GemType
heap =
    primitive PrimitiveType.float
    ∷ primitive PrimitiveType.int
    ∷ composite plain_int
    ∷ reference 1
    ∷ reference 2
    ∷ []

abbrev members : ℕ → List TypePtr
members b = []

equal_references : compare_in 3 heap 4 3 ≡ some true
unfolding compare_in compare_loaded
equal_references = refl

heap-Grounded : Grounded heap
heap-Grounded = record { at = go }
  where
    go : (p q : ℕ) → cell heap p ≡ some (reference q) → (0 < q) × (q < p)
    go zero q e = ground (arith, e)
    go (suc zero) q e = ground (arith, e)
    go (suc (suc zero)) q e = ground (arith, e)
    go (suc (suc (suc zero))) q e = ground (arith, e)
    go (suc (suc (suc (suc zero)))) q e = ground (arith, e)
    go (suc (suc (suc (suc (suc n))))) q e = ground (arith, e)

heap_boxes : (p : ℕ) (t : GemType) → cell heap p ≡ some t → NoBox shapes members heap t
heap_boxes p (box b) e = no_box p e
  where
    no_box : (p : ℕ) → cell heap p ≡ some (box b) → ⊥
    no_box zero e = ground (arith, e)
    no_box (suc zero) e = ground (arith, e)
    no_box (suc (suc zero)) e = ground (arith, e)
    no_box (suc (suc (suc zero))) e = ground (arith, e)
    no_box (suc (suc (suc (suc zero)))) e = ground (arith, e)
    no_box (suc (suc (suc (suc (suc n))))) e = ground (arith, e)
heap_boxes p (primitive q) e = tt
heap_boxes p (composite c) e = tt
heap_boxes p (reference q) e = tt

heap_plain :
    (p : ℕ) (c : CompositeType)
    → cell heap p ≡ some (composite c)
    → c.primitive ≢ PrimitiveType.char
heap_plain zero c e h = ground (arith, e)
heap_plain (suc zero) c e h = ground (arith, e)
heap_plain (suc (suc zero)) c e h = ground (arith, e, h)
heap_plain (suc (suc (suc zero))) c e h = ground (arith, e)
heap_plain (suc (suc (suc (suc zero)))) c e h = ground (arith, e)
heap_plain (suc (suc (suc (suc (suc n))))) c e h = ground (arith, e)

get_type_impl-compare_in_example :
    get_type_impl shapes members heap 3 4 ≡ get_type_impl shapes members heap 3 3
get_type_impl-compare_in_example =
    get_type_impl-compare_in shapes refl members heap heap_plain 3 3 4 3 equal_references

get_type_impl-Answers_example : Answers shapes (get_type_impl shapes members heap 5 4)
get_type_impl-Answers_example =
    get_type_impl-Answers shapes members heap heap-Grounded heap_boxes heap_plain 5 4 (omega arith)
      (omega arith) (omega arith)

impl_composite_type-scales_example : is_success (impl_composite_type shapes quarter_float) ≡ (
    PrimitiveType.float is_primitive PrimitiveType.int
    || PrimitiveType.float is_primitive PrimitiveType.float
      && (signed is_sign signed && (leb half quarter && ltb quarter eight)))
impl_composite_type-scales_example =
    impl_composite_type-scales shapes quarter_float (omega arith) (omega arith)

get_type_default_value-success_example :
    is_success (get_type_default_value shapes members heap 3 4)
    ≡ (is_success (get_type_impl shapes members heap 3 4) && not (holds_char (cell heap 4)))
get_type_default_value-success_example = get_type_default_value-success shapes members heap 3 4
