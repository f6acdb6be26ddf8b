-- ===== src/Set/TypeImpl/Bounds.antt =====
-- The scales that a type in the source can get.
use gemstone.Prelude.{
  ◌≤◌, ◌≡◌, refl, List, [], ◌∷◌, ◌++◌, some, ltb, ltb→ge, Bool-cases, inl, inr, last?,
  if◌then◌else◌,
}
use gemstone.Ast.{Tree, value}
use gemstone.Set.Types.{Scale}
use gemstone.Set.Scale.{quarter, eight}
use gemstone.Set.Monad.{get_last_node, SetState, get_node}
use gemstone.Set.Operands.Agree.{OnOk, OnOk-then, OnOk-bind}
use gemstone.Set.TypeImpl.{
  PrimitiveType, check_scale_factor, read_sign, read_scale, find_primitive, set_impl_composite_type,
}

check_scale_factor-bounds :
    (scale : Scale) (s : SetState)
    → OnOk (λ u s'. (quarter ≤ scale) × (scale ≤ eight)) (check_scale_factor scale s)
unfolding check_scale_factor
check_scale_factor-bounds scale s = elim (Bool-cases (ltb eight scale)) [
  | inl e ↦ rw e tt
  | inr e ↦ elim (Bool-cases (ltb scale quarter)) [
    | inl f ↦ rw (e, f) tt
    | inr f ↦ rw (e, f) (ltb→ge scale quarter f, ltb→ge eight scale e)
  ]
]

module _ {A : Type 0} where
  -- Whatever sign, factors and name a composite type is written with, where it is accepted its scale is
  -- between a quarter and eight.
  pub set_impl_composite_type-bounds :
      (nodes : List (Tree A)) (s : SetState)
      → OnOk (λ c s'. (quarter ≤ c.scale) × (c.scale ≤ eight)) (set_impl_composite_type nodes s)
  unfolding set_impl_composite_type
  set_impl_composite_type-bounds nodes s = OnOk-then _ (get_node nodes 0 s) _ (λ first t.
      OnOk-then _ (read_sign first t) _ (λ sign t'.
        OnOk-then _ (get_node nodes (if sign.1 then 1 else 0) t') _ (λ second u.
          OnOk-then _ (read_scale second u) _ (λ scale u'.
            OnOk-then _ (get_last_node nodes u') _ (λ type_kind v.
              OnOk-then _
                (find_primitive sign.1
                  (record { sign = sign.0; scale = scale; primitive = PrimitiveType.int })
                  (value type_kind) v)
                _
                (λ c w.
                  OnOk-bind (λ x s'. (quarter ≤ c.scale) × (c.scale ≤ eight)) _
                    (check_scale_factor c.scale w) _ (check_scale_factor-bounds c.scale w)
                    (λ x s' h. h)))))))

  pub last?-append : (xs : List (Tree A)) (x : Tree A) → last? (xs ++ x ∷ []) ≡ some x
  last?-append [] x = refl
  last?-append (y ∷ []) x = refl
  last?-append (y ∷ z ∷ xs) x = last?-append (z ∷ xs) x
