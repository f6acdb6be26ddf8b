-- ===== src/Set/Functions/Tables.antt =====
-- What `compareParameter` and `addFunction` do to the tables of functions.
use gemstone.Prelude.{
  ◌≡◌, refl, String, List, [], ◌∷◌, some, true, false, length, ◌==◌, get_elem?, contains, insert,
  str_eq, eq_iff, Bool-cases, inl, inr,
}
use gemstone.Set.Types.{
  Parameter, Function, FunctionPtr, IoQualifier, in_only, out_only, in_out, ParameterKind,
  parameter_declaration_kind, parameter_definition_kind,
}
use gemstone.Set.Monad.{SetState, ok, ◌>>◌}
use gemstone.Set.Compare.Grounded.{Grounded, IsAddress, compare_types_refl}
use gemstone.Set.Functions.{
  qualifier_code, compare_one, compare_each, compare_parameter, add_definition, add_function,
}

-- The types of the parameters are there.
abbrev pub AreTyped : SetState → List Parameter → Type 0
AreTyped s [] = Unit
AreTyped s (p ∷ ps) = IsAddress s.types p.type × AreTyped s ps

qualifier_refl : (q : IoQualifier) → qualifier_code q == qualifier_code q ≡ true
qualifier_refl in_only = refl
qualifier_refl out_only = refl
qualifier_refl in_out = refl

name_refl : (name : String) → str_eq name name ≡ true
name_refl name = (eq_iff name name).1 refl

compare_one_refl :
    (p : Parameter) (s : SetState)
    → Grounded s.types
    → IsAddress s.types p.type
    → compare_one p p s ≡ ok true s
unfolding compare_one
compare_one_refl p s g h = go p.kind refl
  where
    go : (k : ParameterKind) → p.kind ≡ k → compare_one p p s ≡ ok true s
    go parameter_declaration_kind e =
        rw (name_refl p.name, e, qualifier_refl p.qualifier) (compare_types_refl p.type s g h)
    go parameter_definition_kind e = rw (name_refl p.name, e) refl

compare_each_refl :
    (ps : List Parameter) (s : SetState)
    → Grounded s.types
    → AreTyped s ps
    → compare_each ps s ≡ ok true s
unfolding compare_each
compare_each_refl [] s g h = refl
compare_each_refl (p ∷ ps) s g h = rw (compare_one_refl p s g h.0) (compare_each_refl ps s g h.1)

-- `compareParameter` is a test for lists of the same length: on parameters whose types are there, in a
-- heap where every reference points to an earlier type, it compares nothing of the right list but its
-- length.
pub compare_parameter-length :
    (left right : List Parameter) (s : SetState)
    → Grounded s.types
    → AreTyped s left
    → compare_parameter left right s ≡ ok (length left == length right) s
unfolding compare_parameter
compare_parameter-length left right s g h = elim (Bool-cases (length left == length right)) [
  | inl e ↦ rw e (compare_each_refl left s g h)
  | inr e ↦ rw e refl
]

-- A second definition of a function is accepted: where the name is not among the defined functions,
-- `addFunction` of one definition and then of another both succeed, and the later one is what the table
-- of declared functions holds; the table of defined functions is left as it was.
pub add_function_twice :
    (name : String) (f g : FunctionPtr) (s : SetState) (first second : Function)
    → get_elem? s.functions f ≡ some first
    → get_elem? s.functions g ≡ some second
    → first.is_definition ≡ true
    → second.is_definition ≡ true
    → contains s.defined_functions name ≡ false
    → (add_function name f >> add_function name g) s
      ≡ ok tt (record s { declared_functions = insert (insert s.declared_functions name f) name g })
unfolding add_function add_definition
add_function_twice name f g s first second e h d k c = rw (e, d, c) (rw (h, k, c) refl)
