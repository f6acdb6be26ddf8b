-- ===== src/Llvm/Defaults.antt =====
-- Which types have a default value.
use gemstone.Prelude.{
  ℕ, zero, suc, ◌≡◌, refl, Bool, true, false, ◌&&◌, not, Option, none, some, List, [], ◌∷◌,
}
use gemstone.Set.Types.{
  GemType, primitive, composite, box, reference, TypePtr, PrimitiveType, int, float, char, Sign,
  unsigned, signed,
}
use gemstone.Set.Monad.{cell}
use gemstone.Llvm.Types.{
  impl_float_type, Llvm, Outcome, failed, success, impl_composite_type, impl_members, point_to,
  impl_loaded, get_type_impl, get_primitive_default_value, get_composite_default_value,
  default_loaded, get_type_default_value,
}
use gemstone.Llvm.Accepted.{is_success}

abbrev pub holds_char : Option GemType → Bool
holds_char (some (primitive char)) = true
holds_char o = false

module _ {L V : Type 0} (llvm : Llvm L V) where
  -- No box with members, and none without, is implemented.
  impl_members-fails :
      (implement : TypePtr → Option (Outcome L)) (ps : List TypePtr)
      → is_success (impl_members llvm implement ps) ≡ false
  unfolding impl_members
  impl_members-fails implement [] = refl
  impl_members-fails implement (p ∷ ps) = go (implement p) (impl_members-fails implement ps)
    where
      go :
          (o : Option (Outcome L))
          → is_success (impl_members llvm implement ps) ≡ false
          → is_success (elim o [
            | none ↦ none
            | some (failed e) ↦ some (failed e)
            | some (success l) ↦ impl_members llvm implement ps
          ])
            ≡ false
      go none h = refl
      go (some (failed e)) h = refl
      go (some (success l)) h = h

  abbrev defaulted : GemType → Option (Outcome L) → Option (Outcome V)
  defaulted t none = none
  defaulted t (some (failed e)) = some (failed e)
  defaulted t (some (success l)) = default_loaded llvm t l

  module _ (implement : TypePtr → Option (Outcome L)) (members : ℕ → List TypePtr)
      (types : List GemType) where
    defaulted_lem :
        (t : GemType)
        → is_success (defaulted t (impl_loaded llvm members types implement t))
          ≡ (is_success (impl_loaded llvm members types implement t) && not (holds_char (some t)))
    unfolding impl_loaded default_loaded get_primitive_default_value get_composite_default_value
        impl_composite_type
    defaulted_lem (primitive int) = refl
    defaulted_lem (primitive float) = refl
    defaulted_lem (primitive char) = refl
    defaulted_lem (reference p) = go (implement p)
      where
        go :
            (o : Option (Outcome L))
            → is_success (defaulted (reference p) (point_to llvm o))
              ≡ (is_success (point_to llvm o) && true)
        go none = refl
        go (some (failed e)) = refl
        go (some (success l)) = refl
    defaulted_lem (box b) =
        go (impl_members llvm implement (members b)) (impl_members-fails implement (members b))
      where
        go :
            (o : Option (Outcome L))
            → is_success o ≡ false
            → is_success (defaulted (box b) o) ≡ (is_success o && true)
        go none h = refl
        go (some (failed e)) h = refl
        go (some (success l)) h = rw h refl
    defaulted_lem (composite c) = composites c.sign c.primitive
      where
        floats :
            (o : Outcome L)
            → is_success (elim (some o) as (λ x. Option (Outcome V)) [
              | none ↦ none
              | some (failed e) ↦ some (failed e)
              | some (success l) ↦ some (success (llvm.const_real_of_string l "0"))
            ])
              ≡ (is_success (some o) && true)
        floats (failed e) = refl
        floats (success l) = refl

        composites :
            (s : Sign) (p : PrimitiveType)
            → is_success (
                defaulted
                  (composite (record { sign = s; scale = c.scale; primitive = p }))
                  (impl_composite_type llvm (record { sign = s; scale = c.scale; primitive = p })))
              ≡ (is_success
                    (impl_composite_type llvm (record { sign = s; scale = c.scale; primitive = p }))
                  && true)
        composites s int = refl
        composites s char = refl
        composites unsigned float = refl
        composites signed float = floats (impl_float_type llvm c.scale)

  module _ (members : ℕ → List TypePtr) (types : List GemType) where
    -- A type has a default value just when it is implemented and is not the primitive type of characters.
    pub get_type_default_value-success :
        (depth : ℕ) (p : TypePtr)
        → is_success (get_type_default_value llvm members types depth p) ≡ (
            is_success (get_type_impl llvm members types depth p)
            && not (holds_char (cell types p)))
    unfolding get_type_default_value get_type_impl
    get_type_default_value-success zero p = refl
    get_type_default_value-success (suc depth) p = go (cell types p)
      where
        by_outcome :
            (t : GemType) (r : Option (Outcome L))
            → is_success (defaulted t r) ≡ (is_success r && not (holds_char (some t)))
            → is_success (elim r as (λ x. Option (Outcome V)) [
              | none ↦ none
              | some (failed e) ↦ some (failed e)
              | some (success l) ↦ default_loaded llvm t l
            ])
              ≡ (is_success r && not (holds_char (some t)))
        by_outcome t none h = h
        by_outcome t (some (failed e)) h = h
        by_outcome t (some (success l)) h = h

        go :
            (o : Option GemType)
            → is_success
                (elim (elim o as (λ x. Option (Outcome L)) [
                  | none ↦ none
                  | some t ↦
                      impl_loaded llvm members types (get_type_impl llvm members types depth) t
                ])
                  as (λ x. Option (Outcome V)) [
                    | none ↦ none
                    | some (failed e) ↦ some (failed e)
                    | some (success l) ↦ elim o as (λ x. Option (Outcome V)) [
                      | none ↦ none
                      | some t ↦ default_loaded llvm t l
                    ]
                  ])
              ≡ (is_success (elim o as (λ x. Option (Outcome L)) [
                | none ↦ none
                | some t ↦ impl_loaded llvm members types (get_type_impl llvm members types depth) t
              ])
                  && not (holds_char o))
        go none = refl
        go (some t) =
            by_outcome t _ (defaulted_lem (get_type_impl llvm members types depth) members types t)
