-- ===== src/Set/TypeImpl.antt =====
-- From the syntax of a type to a `Type` (`merge_scale_list` to `createRef` in src/set/set.c).
pub mod Bounds
pub mod Scales
use gemstone.Prelude.{
  String, Bool, true, false, ◌||◌, Option, none, some, List, [], ◌∷◌, length, ltb, ◌==◌, lookup,
  if◌then◌else◌,
}
use gemstone.Ast.{
  ast_sign, ast_list, ast_type, ast_reference, ◌is◌, Tree, tree, nil, cons, to_list, kind, value,
  children,
}
use gemstone.Set.Types.{
  PrimitiveType, Sign, signed, Scale, CompositeType, GemType, primitive, composite, reference,
  TypePtr,
}
use gemstone.Set.Scale.{
  quarter, one, eight, mul_scale, sign_from_string, primitive_from_string, scale_factor_from,
}
use gemstone.Set.Monad.{
  M, on_option, status, pure, abort, ◌>>=◌, ◌>>◌, assertion, gets, or_fail, reject, get_node,
  get_last_node, new_type, load_type,
}

unfoldable pub check_scale_factor : Scale → M (Unit {0})
check_scale_factor scale =
    if ltb eight scale
    then reject "Composite scale overflow"
    else if ltb scale quarter
    then reject "Composite scale underflow"
    else pure tt

module _ {A : Type 0} where
  -- The loop over the factors, from the scale so far.
  unfoldable pub merge_scale_list : List (Tree A) → Scale → Option Scale
  merge_scale_list [] scale = some scale
  merge_scale_list (factor ∷ rest) scale = elim (scale_factor_from (value factor)) [
    | none ↦ none
    | some f ↦ merge_scale_list rest (mul_scale scale f)
  ]

-- `get_type_decl`.
unfoldable pub get_type_decl : String → M TypePtr
get_type_decl name = do found ← gets (λ s. lookup s.declared_composites name); or_fail found

-- The composite that a name gives: the branch of `set_impl_composite_type` for a kind that is no
-- primitive.
unfoldable pub named_composite : Bool → CompositeType → GemType → M CompositeType
named_composite has_sign c (composite nested) =
    let scale = mul_scale c.scale nested.scale in
    if ltb eight scale || ltb scale quarter
    then reject "Invalid type scale of composite type: %lf"
    else pure (record {
      sign = if has_sign then c.sign else nested.sign;
      scale = scale;
      primitive = nested.primitive;
    })
named_composite has_sign c other = reject "Type must be either composite or primitive"

unfoldable pub resolve_composite : Bool → CompositeType → Option TypePtr → M CompositeType
resolve_composite has_sign c none = reject "Unknown composite type in declaration"
resolve_composite has_sign c (some nested) = do t ← load_type nested; named_composite has_sign c t

unfoldable pub find_primitive : Bool → CompositeType → String → M CompositeType
find_primitive has_sign c name =
    on_option (primitive_from_string name)
      (do nested ← status (get_type_decl name); resolve_composite has_sign c nested)
      (λ p. pure (record c { primitive = p }))

-- A failed part leaves a reference to nothing, and its status.
unfoldable pub set_impl_reference_type : M TypePtr → M TypePtr
set_impl_reference_type nested = do p ← nested; new_type (reference p)

module _ {A : Type 0} where
  -- The sign, and whether one is written; `scaleNodeOffset` is 1 where one is.
  unfoldable pub read_sign : Tree A → M (Sign × Bool)
  read_sign node =
      if kind node is ast_sign
      then (do sign ← or_fail (sign_from_string (value node)); pure (sign, true))
      else pure (signed, false)

  unfoldable pub read_scale : Tree A → M Scale
  read_scale node =
      if kind node is ast_list then or_fail (merge_scale_list (children node) one) else pure one

  -- The children are those of the type's node.
  unfoldable pub set_impl_composite_type : List (Tree A) → M CompositeType
  set_impl_composite_type nodes = do
    first ← get_node nodes 0
    (sign, has_sign) ← read_sign first
    second ← get_node nodes (if has_sign then 1 else 0)
    scale ← read_scale second
    type_kind ← get_last_node nodes
    let c : CompositeType = record { sign = sign; scale = scale; primitive = PrimitiveType.int }
    c' ← find_primitive has_sign c (value type_kind)
    check_scale_factor c'.scale
    pure c'

  -- The end of `set_get_type_impl`: a type that is not declared yet.
  unfoldable pub new_named_type : List (Tree A) → String → M TypePtr
  new_named_type nodes type_kind =
      if length nodes == 1
      then on_option (primitive_from_string type_kind)
          (reject "Expected either primitive or composite type: `%s`") (λ p. new_type (primitive p))
      else do c ← set_impl_composite_type nodes; new_type (composite c)

  unfoldable pub get_named_type : List (Tree A) → M TypePtr
  get_named_type nodes = do
    last ← get_last_node nodes
    let type_kind = value last
    found ← gets (λ s. lookup s.declared_composites type_kind)
    found_box ← gets (λ s. lookup s.declared_boxes type_kind)
    on_option found
        (on_option found_box (new_named_type nodes type_kind)
          (λ p. if ltb 1 (length nodes) then reject "Box type cannot modified" else pure p))
        pure

  unfoldable pub set_get_type_impl : Tree A → M TypePtr
  set_get_type_impl (tree k v a nil) = abort assertion
  set_get_type_impl (tree k v a (cons c cs)) =
      let nested = set_get_type_impl c in
      if k is ast_reference
      then set_impl_reference_type nested
      else if k is ast_type
      then get_named_type (c ∷ to_list cs)
      else abort assertion
