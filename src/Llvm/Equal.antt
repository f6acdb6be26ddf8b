-- ===== src/Llvm/Equal.antt =====
-- Types that the analysis takes for equal are the same in the back end.
use mathlib.Core.Path.{subst}
use gemstone.Prelude.{
  ℕ, zero, suc, ◌≡◌, ◌≢◌, refl, sym, ◌∙◌, ap, Bool, true, false, ◌&&◌, Option, none, some, List,
  ◌==◌, if◌then◌else◌, arith,
}
use gemstone.Set.Types.{
  GemType, primitive, composite, box, reference, TypePtr, PrimitiveType, int, float, char, Sign,
  signed, unsigned, Scale, CompositeType, ◌is_sign◌, ◌is_primitive◌,
}
use gemstone.Set.Scale.{int_scale, one}
use gemstone.Set.Monad.{cell}
use gemstone.Set.Compare.{compare_composites, compare_loaded, compare_in}
use gemstone.Llvm.Types.{
  get_type_impl, impl_members, Llvm, Outcome, success, impl_primitive_type, impl_integral_type,
  impl_float_type, impl_composite_type, point_to, impl_loaded, get_type_impl,
}

eq_of_primitives : (p q : PrimitiveType) → p is_primitive q ≡ true → p ≡ q
eq_of_primitives int int h = refl
eq_of_primitives float float h = refl
eq_of_primitives char char h = refl
eq_of_primitives int float h = ground (arith, h)
eq_of_primitives int char h = ground (arith, h)
eq_of_primitives float int h = ground (arith, h)
eq_of_primitives float char h = ground (arith, h)
eq_of_primitives char int h = ground (arith, h)
eq_of_primitives char float h = ground (arith, h)

eq_of_signs : (s t : Sign) → s is_sign t ≡ true → s ≡ t
eq_of_signs unsigned unsigned h = refl
eq_of_signs signed signed h = refl
eq_of_signs unsigned signed h = ground (arith, h)
eq_of_signs signed unsigned h = ground (arith, h)

same_composite :
    {s s' : Sign} {x x' : Scale} {p p' : PrimitiveType}
    → s ≡ s'
    → x ≡ x'
    → p ≡ p'
    → ◌≡◌ {A = CompositeType}
        (record { sign = s; scale = x; primitive = p })
        (record { sign = s'; scale = x'; primitive = p' })
same_composite a b c = rw a (rw b (rw c refl))

if_all :
    (a b c : Bool)
    → (if a then (if b then c else false) else false) ≡ true
    → (a ≡ true) × (b ≡ true) × (c ≡ true)
if_all true true true h = (refl, refl, refl)
if_all true true false h = ground (arith, h)
if_all true false c h = ground (arith, h)
if_all false b c h = ground (arith, h)

and_both : (a b : Bool) → a && b ≡ true → (a ≡ true) × (b ≡ true)
and_both true true h = (refl, refl)
and_both true false h = ground (arith, h)
and_both false b h = ground (arith, h)

if_both : (a b : Bool) → (if a then b else false) ≡ true → (a ≡ true) × (b ≡ true)
if_both true true h = (refl, refl)
if_both true false h = ground (arith, h)
if_both false b h = ground (arith, h)

eq_of_numbers : (m n : ℕ) → m == n ≡ true → m ≡ n
eq_of_numbers m n h = ground (arith, h)

composites_eq : (c d : CompositeType) → compare_composites c d ≡ true → c ≡ d
unfolding compare_composites
composites_eq c d h = go (if_all _ _ _ h)
  where
    go :
        (c.primitive is_primitive d.primitive ≡ true)
          × (c.sign is_sign d.sign ≡ true)
          × (c.scale == d.scale ≡ true)
        → c ≡ d
    go (x, y, z) =
        same_composite (eq_of_signs c.sign d.sign y) (eq_of_numbers c.scale d.scale z)
          (eq_of_primitives c.primitive d.primitive x)

abbrev is_yes : Option Bool → Bool
is_yes none = false
is_yes (some b) = b

no_answer : none ≡ some true → ⊥
no_answer e = subst (λ b. elim b [ true ↦ Unit | false ↦ ⊥ ]) (sym (ap is_yes e)) tt

module _ {L V : Type 0} (llvm : Llvm L V) (int32 : llvm.int32_type ≡ llvm.int_type 32) where
  impl_composite_type-impl_primitive_type :
      (c : CompositeType) (p : PrimitiveType)
      → c.scale == one && c.sign is_sign signed ≡ true
      → c.primitive is_primitive p ≡ true
      → c.primitive ≢ char
      → impl_composite_type llvm c ≡ some (success (impl_primitive_type llvm p))
  unfolding impl_composite_type impl_primitive_type impl_integral_type impl_float_type int_scale
  impl_composite_type-impl_primitive_type c p h k n = go (and_both _ _ h)
    where
      by_primitive :
          (q : PrimitiveType)
          → q ≢ char
          → impl_composite_type llvm (record { sign = signed; scale = one; primitive = q })
            ≡ some (success (impl_primitive_type llvm q))
      by_primitive int m = rw int32 refl
      by_primitive float m = refl
      by_primitive char m = absurd (m refl)

      go :
          (c.scale == one ≡ true) × (c.sign is_sign signed ≡ true)
          → impl_composite_type llvm c ≡ some (success (impl_primitive_type llvm p))
      go (x, y) =
          ap (impl_composite_type llvm)
            (same_composite (eq_of_signs c.sign signed y) (eq_of_numbers c.scale one x) refl)
          ∙ by_primitive c.primitive n
          ∙ ap (λ q. some (success (impl_primitive_type llvm q))) (eq_of_primitives c.primitive p k)

  module _ (members : ℕ → List TypePtr) (types : List GemType) where
    impl_loaded_eq :
        (t u : GemType) (rec : TypePtr → TypePtr → Option Bool)
        (implement : TypePtr → Option (Outcome L))
        → ((p q : TypePtr) → rec p q ≡ some true → implement p ≡ implement q)
        → ((c : CompositeType) → t ≡ composite c → c.primitive ≢ char)
        → compare_loaded rec t u ≡ some true
        → impl_loaded llvm members types implement t ≡ impl_loaded llvm members types implement u
    unfolding impl_loaded compare_loaded
    impl_loaded_eq (primitive p) (primitive q) rec implement h n e =
        ap (λ x. some (success (impl_primitive_type llvm x))) (eq_of_primitives p q (ap is_yes e))
    impl_loaded_eq (composite c) (primitive q) rec implement h n e = go (if_both _ _ (ap is_yes e))
      where
        go :
            (c.scale == one && c.sign is_sign signed ≡ true) × (c.primitive is_primitive q ≡ true)
            → impl_composite_type llvm c ≡ some (success (impl_primitive_type llvm q))
        go (x, y) = impl_composite_type-impl_primitive_type c q x y (n c refl)
    impl_loaded_eq (composite c) (composite d) rec implement h n e =
        ap (impl_composite_type llvm) (composites_eq c d (ap is_yes e))
    impl_loaded_eq (box b) (box c) rec implement h n e =
        ap (λ x. impl_members llvm implement (members x)) (eq_of_numbers b c (ap is_yes e))
    impl_loaded_eq (reference p) (reference q) rec implement h n e = ap (point_to llvm) (h p q e)
    impl_loaded_eq t u rec implement h n e =
        absurd (subst (λ b. elim b [ true ↦ Unit | false ↦ ⊥ ]) (sym (ap is_yes e)) tt)

    -- Where no composite is one of characters, two types that `compareTypes` finds equal have the same
    -- implementation, to whatever depth it is asked for: the same LLVM type, the same error, or none.
    pub get_type_impl-compare_in :
        ((p : TypePtr) (c : CompositeType) → cell types p ≡ some (composite c) → c.primitive ≢ char)
        → (fuel depth : ℕ) (l r : TypePtr) → compare_in fuel types l r ≡ some true
        → get_type_impl llvm members types depth l ≡ get_type_impl llvm members types depth r
    unfolding get_type_impl compare_in
    get_type_impl-compare_in plain zero depth l r e = absurd (no_answer e)
    get_type_impl-compare_in plain (suc fuel) zero l r e = refl
    get_type_impl-compare_in plain (suc fuel) (suc depth) l r e =
        go (cell types l) (cell types r) (plain l) (get_type_impl-compare_in plain fuel depth) e
      where
        go :
            (t u : Option GemType)
            → ((c : CompositeType) → t ≡ some (composite c) → c.primitive ≢ char)
            → ((p q : TypePtr)
                → compare_in fuel types p q ≡ some true
                → get_type_impl llvm members types depth p
                  ≡ get_type_impl llvm members types depth q)
            → elim t [
              | none ↦ none
              | some a ↦ elim u [
                | none ↦ none
                | some b ↦ compare_loaded (compare_in fuel types) a b
              ]
            ]
              ≡ some true
            → elim t as (λ x. Option (Outcome L)) [
              | none ↦ none
              | some a ↦ impl_loaded llvm members types (get_type_impl llvm members types depth) a
            ]
              ≡ elim u as (λ x. Option (Outcome L)) [
                | none ↦ none
                | some a ↦ impl_loaded llvm members types (get_type_impl llvm members types depth) a
              ]
        go none u n rec e = absurd (no_answer e)
        go (some a) none n rec e = absurd (no_answer e)
        go (some a) (some b) n rec e =
            impl_loaded_eq a b (compare_in fuel types) (get_type_impl llvm members types depth) rec
              (λ c h. n c (ap some h)) e
