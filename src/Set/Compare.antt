-- ===== src/Set/Compare.antt =====
-- `compareTypes` and `type_to_string` of src/set/set.c. Both follow references through the heap: the
-- fuel is the number of cells, `none` a dangling pointer or a cycle of references.
pub mod Asymmetric
pub mod Grounded
use Prim.Native.String.{◌++◌ as str_append}
use gemstone.Prelude.{
  ℕ, zero, suc, ◌/◌, String, Bool, false, ◌&&◌, Option, none, some, List, ◌==◌, ltb, length,
  if◌then◌else◌,
}
use gemstone.Set.Types.{
  PrimitiveType, int, float, char, unsigned, signed, CompositeType, GemType, primitive, composite,
  box, reference, TypePtr, Scale, ◌is_primitive◌, ◌is_sign◌,
}
use gemstone.Set.Scale.{one, int_scale}
use gemstone.Set.Monad.{◌>>=◌, ◌>>◌, pure, cell, M, or_fault, bad_pointer}

unfoldable pub compare_composites : CompositeType → CompositeType → Bool
compare_composites l r =
    if l.primitive is_primitive r.primitive
    then if l.sign is_sign r.sign then l.scale == r.scale else false
    else false

-- The ladder of `compareTypes`, given the comparison of what two references point to.
unfoldable pub compare_loaded : (TypePtr → TypePtr → Option Bool) → GemType → GemType → Option Bool
compare_loaded rec (primitive p) (primitive q) = some (p is_primitive q)
compare_loaded rec (composite c) (primitive q) =
    some (if c.scale == one && c.sign is_sign signed then c.primitive is_primitive q else false)
compare_loaded rec (composite c) (composite d) = some (compare_composites c d)
compare_loaded rec (box b) (box c) = some (b == c)
compare_loaded rec (reference p) (reference q) = rec p q
compare_loaded rec l r = some false

unfoldable pub compare_in : ℕ → List GemType → TypePtr → TypePtr → Option Bool
compare_in zero types l r = none
compare_in (suc fuel) types l r = elim (cell types l) [
  | none ↦ none
  | some t ↦ elim (cell types r) [
    | none ↦ none
    | some u ↦ compare_loaded (compare_in fuel types) t u
  ]
]

unfoldable pub compare_types : TypePtr → TypePtr → M Bool
compare_types l r s = or_fault bad_pointer (compare_in (length s.types) s.types l r) s

-- `word` put `n` times in front.
unfoldable pub repeat : String → ℕ → String → String
repeat word zero string = string
repeat word (suc n) string = str_append word (repeat word n string)

abbrev pub primitive_name : PrimitiveType → String
primitive_name int = "int"
primitive_name float = "float"
primitive_name char = "codepoint"

-- `(int) (scale * 4)` times "half " below one, `(int) scale` times "long " above.
unfoldable pub scale_to_string : Scale → String → String
scale_to_string scale string =
    if ltb scale one
    then repeat "half " (int_scale scale) string
    else if ltb one scale
    then repeat "long " (int_scale scale / 4) string
    else string

unfoldable pub composite_to_string : CompositeType → String
composite_to_string c =
    let base : String = if c.primitive is_primitive int then "int" else "float" in
    let scaled = scale_to_string c.scale base in
    if c.sign is_sign unsigned then str_append "unsigned " scaled else scaled

unfoldable pub string_in : ℕ → List GemType → TypePtr → Option String
string_in zero types p = none
string_in (suc fuel) types p = elim (cell types p) [
  | none ↦ none
  | some (primitive k) ↦ some (primitive_name k)
  | some (composite c) ↦ some (composite_to_string c)
  | some (reference q) ↦ elim (string_in fuel types q) [
    | none ↦ none
    | some string ↦ some (str_append "ref " string)
  ]
  | some (box b) ↦ some "box"
]

unfoldable pub type_to_string : TypePtr → M String
type_to_string p s = or_fault bad_pointer (string_in (length s.types) s.types p) s

-- The names of two types, for a message.
unfoldable pub types_to_string : TypePtr → TypePtr → M (Unit {0})
types_to_string l r = do type_to_string l; type_to_string r; pure tt
