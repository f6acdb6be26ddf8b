-- ===== src/Llvm/Accepted.antt =====
-- Which types of the analysis the back end implements.
use mathlib.Core.Path.{subst}
use gemstone.Prelude.{
  ℕ, zero, suc, ◌≤◌, ◌<◌, ◌≡◌, ◌≢◌, refl, Bool, true, false, ◌&&◌, ◌||◌, ◌⊎◌, inl, inr, Bool-cases,
  Option, none, some, List, ltb, leb, length, arith,
}
use gemstone.Set.Types.{
  GemType, primitive, composite, box, reference, TypePtr, PrimitiveType, int, float, char, signed,
  Scale, CompositeType, ◌is_sign◌, ◌is_primitive◌,
}
use gemstone.Set.Scale.{int_scale, quarter, half, eight}
use gemstone.Set.Monad.{cell}
use gemstone.Set.Compare.Grounded.{Grounded, loaded}
use gemstone.Llvm.Types.{
  Llvm, Outcome, failed, success, impl_float_type, impl_composite_type, point_to, impl_loaded,
  get_type_impl,
}

abbrev pub is_success : {A : Type 0} → Option (Outcome A) → Bool
is_success none = false
is_success (some (failed e)) = false
is_success (some (success x)) = true

-- The scales from a quarter to eight.
abbrev Cases : Scale → Type 0
Cases s = (s ≡ 1073) ⊎ ((s ≡ 1074) ⊎ ((s ≡ 1075) ⊎ ((s ≡ 1076) ⊎ ((s ≡ 1077) ⊎ (s ≡ 1078)))))

scales : (s : Scale) → quarter ≤ s → s ≤ eight → Cases s
scales s h k = ground (arith, h, k)

module _ {L V : Type 0} (llvm : Llvm L V) where
  float_sizes :
      (scale : Scale)
      → quarter ≤ scale
      → scale ≤ eight
      → is_success (some (impl_float_type llvm scale)) ≡ (leb half scale && ltb scale eight)
  unfolding impl_float_type int_scale
  float_sizes scale h k = go (scales scale h k)
    where
      go :
          Cases scale
          → is_success (some (impl_float_type llvm scale)) ≡ (leb half scale && ltb scale eight)
      go (inl e) = rw e refl
      go (inr (inl e)) = rw e refl
      go (inr (inr (inl e))) = rw e refl
      go (inr (inr (inr (inl e)))) = rw e refl
      go (inr (inr (inr (inr (inl e))))) = rw e refl
      go (inr (inr (inr (inr (inr e))))) = rw e refl

  -- Of the composite types with a scale that the analysis accepts, those of integers are implemented, and those of
  -- floats that are signed and of a scale from a half to four: a float of a quarter and one of eight are accepted by the analysis and
  -- refused by the back end, like every unsigned float.
  pub impl_composite_type-scales :
      (c : CompositeType)
      → quarter ≤ c.scale
      → c.scale ≤ eight
      → is_success (impl_composite_type llvm c) ≡ (
          c.primitive is_primitive int
          || c.primitive is_primitive float
            && (c.sign is_sign signed && (leb half c.scale && ltb c.scale eight)))
  unfolding impl_composite_type
  impl_composite_type-scales c h k = go c.primitive
    where
      go :
          (p : PrimitiveType)
          → is_success (impl_composite_type llvm (record c { primitive = p })) ≡ (
              p is_primitive int
              || p is_primitive float
                && (c.sign is_sign signed && (leb half c.scale && ltb c.scale eight)))
      go int = refl
      go char = refl
      go float = elim (Bool-cases (c.sign is_sign signed)) [
        | inl e ↦ rw e (float_sizes c.scale h k)
        | inr e ↦ rw e refl
      ]

  -- It has an answer, a type or an error.
  abbrev pub Answers : Option (Outcome L) → Type 0
  Answers none = ⊥
  Answers (some o) = Unit

  point_to-Answers : (o : Option (Outcome L)) → Answers o → Answers (point_to llvm o)
  point_to-Answers none h = h
  point_to-Answers (some (failed e)) h = tt
  point_to-Answers (some (success l)) h = tt

  impl_composite_type-Answers :
      (c : CompositeType) → c.primitive ≢ char → Answers (impl_composite_type llvm c)
  unfolding impl_composite_type
  impl_composite_type-Answers c n = go c.primitive n
    where
      go :
          (p : PrimitiveType)
          → p ≢ char
          → Answers (impl_composite_type llvm (record c { primitive = p }))
      go int m = tt
      go float m = tt
      go char m = absurd (m refl)

  module _ (members : ℕ → List TypePtr) (types : List GemType) where
    abbrev pub NoBox : GemType → Type 0
    NoBox (box b) = ⊥
    NoBox t = Unit

    -- In a heap without boxes and without composites of characters, where every reference points to an
    -- earlier type, `get_type_impl` has an answer at every address: the depth of the address is enough.
    pub get_type_impl-Answers :
        Grounded types
        → ((p : TypePtr) (t : GemType) → cell types p ≡ some t → NoBox t)
        → ((p : TypePtr) (c : CompositeType)
            → cell types p ≡ some (composite c)
            → c.primitive ≢ char)
        → (depth : ℕ) (p : TypePtr) → 0 < p
        → p < length types
        → p < depth
        → Answers (get_type_impl llvm members types depth p)
    unfolding get_type_impl impl_loaded
    get_type_impl-Answers grounded boxes plain zero p a b c = absurd (omega (arith, c))
    get_type_impl-Answers grounded boxes plain (suc depth) p a b c =
        go (cell types p) (loaded types p (record { positive = a; bounded = b })) (boxes p)
          (plain p) (grounded.at p) (get_type_impl-Answers grounded boxes plain depth)
      where
        go :
            (o : Option GemType)
            → (t : GemType) × (o ≡ some t)
            → ((t : GemType) → o ≡ some t → NoBox t)
            → ((c : CompositeType) → o ≡ some (composite c) → c.primitive ≢ char)
            → ((q : TypePtr) → o ≡ some (reference q) → (0 < q) × (q < p))
            → ((q : TypePtr)
                → 0 < q
                → q < length types
                → q < depth
                → Answers (get_type_impl llvm members types depth q))
            → Answers (elim o [
              | none ↦ none
              | some t ↦ impl_loaded llvm members types (get_type_impl llvm members types depth) t
            ])
        go none (t, e) nb np g rec = absurd (subst (λ o. elim o [ none ↦ Unit | some x ↦ ⊥ ]) e tt)
        go (some (primitive q)) l nb np g rec = tt
        go (some (composite d)) l nb np g rec = impl_composite_type-Answers d (np d refl)
        go (some (box d)) l nb np g rec = absurd (nb (box d) refl)
        go (some (reference q)) l nb np g rec =
            point_to-Answers _
              (rec q (g q refl).0 (omega (arith, b, (g q refl).1)) (omega (arith, c, (g q refl).1)))
