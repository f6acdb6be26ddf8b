-- ===== src/Set/Keeps/Types.antt =====
-- The routines on types, scopes and functions that keep every frame.
use gemstone.Prelude.{◌∷◌, ℕ, String, Bool, Option, none, some, List}
use gemstone.Ast.{to_list, ast_type, ast_reference, ◌is◌, Tree, tree, nil, cons}
use gemstone.Set.Types.{GemType, composite, TypePtr, Scale, CompositeType}
use gemstone.Set.TypeImpl.{
  set_impl_reference_type, check_scale_factor, get_type_decl, named_composite, resolve_composite,
  find_primitive, read_sign, read_scale, set_impl_composite_type, new_named_type, get_named_type,
  set_get_type_impl,
}
use gemstone.Set.Compare.{compare_types, type_to_string, types_to_string}
use gemstone.Set.Scope.{get_parameter, note_shadowing, found_variable, get_variable_from_scope}
use gemstone.Set.Functions.{get_function}
use gemstone.Set.Keeps.{
  Keeps-bind, Keeps-pure, Fault, M, Relation, Keeps, IsFrame, keeps_rules, Keeps-or_fault, Keeps-if,
  Keeps-abort,
}

module _ {R : Relation} (frame : IsFrame R) where
  check_scale_factor-Keeps : (scale : Scale) → Keeps R (check_scale_factor scale)
  unfolding check_scale_factor
  check_scale_factor-Keeps scale = search (keeps_rules, frame)

  get_type_decl-Keeps : (name : String) → Keeps R (get_type_decl name)
  unfolding get_type_decl
  get_type_decl-Keeps name = search (keeps_rules, frame)

  named_composite-Keeps :
      (b : Bool) (c : CompositeType) (t : GemType) → Keeps R (named_composite b c t)
  unfolding named_composite
  named_composite-Keeps b c (composite d) = search (keeps_rules, frame)
  named_composite-Keeps b c t = search (keeps_rules, frame)

  resolve_composite-Keeps :
      (b : Bool) (c : CompositeType) (o : Option TypePtr) → Keeps R (resolve_composite b c o)
  unfolding resolve_composite
  resolve_composite-Keeps b c none = search (keeps_rules, frame)
  resolve_composite-Keeps b c (some p) = search (keeps_rules, frame, named_composite-Keeps)

  find_primitive-Keeps :
      (b : Bool) (c : CompositeType) (name : String) → Keeps R (find_primitive b c name)
  unfolding find_primitive
  find_primitive-Keeps b c name =
      search (keeps_rules, frame, get_type_decl-Keeps, resolve_composite-Keeps)

  set_impl_reference_type-Keeps : (m : M TypePtr) → Keeps R m → Keeps R (set_impl_reference_type m)
  unfolding set_impl_reference_type
  set_impl_reference_type-Keeps m h = search (keeps_rules, frame)

  module _ {A : Type 0} where
    read_sign-Keeps : (t : Tree A) → Keeps R (read_sign t)
    unfolding read_sign
    read_sign-Keeps t = search (keeps_rules, frame)

    read_scale-Keeps : (t : Tree A) → Keeps R (read_scale t)
    unfolding read_scale
    read_scale-Keeps t = search (keeps_rules, frame)

    set_impl_composite_type-Keeps : (ts : List (Tree A)) → Keeps R (set_impl_composite_type ts)
    unfolding set_impl_composite_type
    set_impl_composite_type-Keeps ts =
        search
          (
            keeps_rules, frame, read_sign-Keeps, read_scale-Keeps, find_primitive-Keeps,
            check_scale_factor-Keeps,
          )
          depth 12

    new_named_type-Keeps : (ts : List (Tree A)) (name : String) → Keeps R (new_named_type ts name)
    unfolding new_named_type
    new_named_type-Keeps ts name =
        search (keeps_rules, frame, set_impl_composite_type-Keeps) depth 8

    get_named_type-Keeps : (ts : List (Tree A)) → Keeps R (get_named_type ts)
    unfolding get_named_type
    get_named_type-Keeps ts = search (keeps_rules, frame, new_named_type-Keeps) depth 10

    pub set_get_type_impl-Keeps : (t : Tree A) → Keeps R (set_get_type_impl t)
    unfolding set_get_type_impl
    set_get_type_impl-Keeps (tree k v a nil) = search (keeps_rules, frame)
    set_get_type_impl-Keeps (tree k v a (cons c cs)) =
        Keeps-if frame (k is ast_reference) _ _
          (set_impl_reference_type-Keeps (set_get_type_impl c) (set_get_type_impl-Keeps c))
          (Keeps-if frame (k is ast_type) _ _ (get_named_type-Keeps (c ∷ to_list cs))
            (Keeps-abort frame Fault.assertion))

  pub compare_types-Keeps : (l r : TypePtr) → Keeps R (compare_types l r)
  unfolding compare_types
  compare_types-Keeps l r = record { at = λ s. (Keeps-or_fault frame _ _).at s }

  type_to_string-Keeps : (p : TypePtr) → Keeps R (type_to_string p)
  unfolding type_to_string
  type_to_string-Keeps p = record { at = λ s. (Keeps-or_fault frame _ _).at s }

  pub types_to_string-Keeps : (l r : TypePtr) → Keeps R (types_to_string l r)
  unfolding types_to_string
  types_to_string-Keeps l r = Keeps-bind frame (type_to_string l) _ (type_to_string-Keeps l) (λ t.
      Keeps-bind frame (type_to_string r) _ (type_to_string-Keeps r) (λ u. Keeps-pure frame tt))

  pub get_parameter-Keeps : (name : String) → Keeps R (get_parameter name)
  unfolding get_parameter
  get_parameter-Keeps name = search (keeps_rules, frame) depth 8

  note_shadowing-Keeps : (n : ℕ) → Keeps R (note_shadowing n)
  unfolding note_shadowing
  note_shadowing-Keeps n = search (keeps_rules, frame)

  found_variable-Keeps : (o : Option ℕ) (n : ℕ) → Keeps R (found_variable o n)
  unfolding found_variable
  found_variable-Keeps none n = search (keeps_rules, frame)
  found_variable-Keeps (some v) n = search (keeps_rules, frame, note_shadowing-Keeps) depth 8

  pub get_variable_from_scope-Keeps : (name : String) → Keeps R (get_variable_from_scope name)
  unfolding get_variable_from_scope
  get_variable_from_scope-Keeps name = record { at = λ s. (found_variable-Keeps _ _).at s }

  pub get_function-Keeps : (name : String) → Keeps R (get_function name)
  unfolding get_function
  get_function-Keeps name = search (keeps_rules, frame) depth 8
