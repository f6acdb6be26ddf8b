-- ===== src/Set/Compare/Grounded.antt =====
-- `compareTypes` and `type_to_string` follow references until they reach a type that is none: they end
-- where every reference points to a type that was made before it.
use gemstone.Prelude.{
  ap, ℕ, zero, suc, ◌<◌, ◌≤◌, ◌≡◌, refl, ◌∙◌, Bool, true, false, Option, none, some, List, length,
  ◌==◌, arith, get_elem?_of_lt,
}
use gemstone.Set.Types.{
  GemType, primitive, composite, box, reference, TypePtr, PrimitiveType, Sign, CompositeType, int,
  float, char, unsigned, signed, ◌is_primitive◌, ◌is_sign◌,
}
use gemstone.Set.Monad.{SetState, cell, ok}
use gemstone.Set.Compare.{compare_composites, compare_loaded, compare_in, compare_types}

-- Every reference points to an earlier type.
pub record Grounded (types : List GemType) : Type 0 where
  pub at : (p q : TypePtr) → cell types p ≡ some (reference q) → (0 < q) × (q < p)

-- An address that holds a type.
pub record IsAddress (types : List GemType) (p : TypePtr) : Type 0 where
  pub positive : 0 < p
  pub bounded : p < length types

some≢none : (x : Bool) → some x ≡ none → ⊥
some≢none x e = ground arith

pub loaded :
    (types : List GemType) (p : TypePtr)
    → IsAddress types p
    → (t : GemType) × (cell types p ≡ some t)
loaded types p h =
    let (t, e) = get_elem?_of_lt types p h.bounded in (t, ground (arith, h.positive, e))

IsAddress-lower :
    (types : List GemType) (p q : TypePtr)
    → IsAddress types p
    → (0 < q) × (q < p)
    → IsAddress types q
IsAddress-lower types p q h k = record { positive = k.0; bounded = omega (arith, k.1, h.bounded) }

pub primitive_refl : (p : PrimitiveType) → p is_primitive p ≡ true
primitive_refl int = refl
primitive_refl float = refl
primitive_refl char = refl

sign_refl : (s : Sign) → s is_sign s ≡ true
sign_refl unsigned = refl
sign_refl signed = refl

nat_refl : (n : ℕ) → n == n ≡ true
nat_refl n = ground arith

pub compare_composites_refl : (c : CompositeType) → compare_composites c c ≡ true
unfolding compare_composites
compare_composites_refl c =
    rw (primitive_refl c.primitive) (rw (sign_refl c.sign) (nat_refl c.scale))

compare_loaded-ends :
    (rec : TypePtr → TypePtr → Option Bool) (t u : GemType)
    → ((p q : TypePtr) → t ≡ reference p → u ≡ reference q → (b : Bool) × (rec p q ≡ some b))
    → (b : Bool) × (compare_loaded rec t u ≡ some b)
unfolding compare_loaded
compare_loaded-ends rec (reference p) (reference q) h = h p q refl refl
compare_loaded-ends rec (reference p) u h = (false, refl)
compare_loaded-ends rec (primitive p) (primitive q) h = (_, refl)
compare_loaded-ends rec (primitive p) (composite q) h = (_, refl)
compare_loaded-ends rec (primitive p) (box q) h = (_, refl)
compare_loaded-ends rec (primitive p) (reference q) h = (_, refl)
compare_loaded-ends rec (composite p) (primitive q) h = (_, refl)
compare_loaded-ends rec (composite p) (composite q) h = (_, refl)
compare_loaded-ends rec (composite p) (box q) h = (_, refl)
compare_loaded-ends rec (composite p) (reference q) h = (_, refl)
compare_loaded-ends rec (box p) (primitive q) h = (_, refl)
compare_loaded-ends rec (box p) (composite q) h = (_, refl)
compare_loaded-ends rec (box p) (box q) h = (_, refl)
compare_loaded-ends rec (box p) (reference q) h = (_, refl)

pub compare_in-step :
    (fuel : ℕ) (types : List GemType) (p q : TypePtr) (t u : GemType)
    → cell types p ≡ some t
    → cell types q ≡ some u
    → compare_in (suc fuel) types p q ≡ compare_loaded (compare_in fuel types) t u
unfolding compare_in
compare_in-step fuel types p q t u e f = rw (e, compare_in) (rw f refl)

module _ (types : List GemType) (grounded : Grounded types) where
  compare_in_refl :
      (fuel : ℕ) (p : TypePtr)
      → IsAddress types p
      → p ≤ fuel
      → compare_in fuel types p p ≡ some true
  unfolding compare_in compare_loaded
  compare_in_refl zero p h l = absurd (omega (arith, h.positive, l))
  compare_in_refl (suc fuel) p h l =
      go (loaded types p h).0 (loaded types p h).1 (compare_in_refl fuel)
    where
      go :
          (t : GemType)
          → cell types p ≡ some t
          → ((q : TypePtr) → IsAddress types q → q ≤ fuel → compare_in fuel types q q ≡ some true)
          → compare_in (suc fuel) types p p ≡ some true
      go (primitive k) e rec =
          rw (compare_in-step fuel types p p _ _ e e) (ap some (primitive_refl k))
      go (composite c) e rec =
          rw (compare_in-step fuel types p p _ _ e e) (ap some (compare_composites_refl c))
      go (box b) e rec = rw (compare_in-step fuel types p p _ _ e e) (ap some (nat_refl b))
      go (reference q) e rec = rw (compare_in-step fuel types p p _ _ e e) (
          rec q (IsAddress-lower types p q h (grounded.at p q e))
            (omega (arith, (grounded.at p q e).1, l)))

  compare_in-ends :
      (fuel : ℕ) (p q : TypePtr)
      → IsAddress types p
      → IsAddress types q
      → p ≤ fuel
      → (b : Bool) × (compare_in fuel types p q ≡ some b)
  unfolding compare_in
  compare_in-ends zero p q h k l = absurd (omega (arith, h.positive, l))
  compare_in-ends (suc fuel) p q h k l =
      go (loaded types p h).0 (loaded types q k).0 (loaded types p h).1 (loaded types q k).1
        (compare_in-ends fuel)
    where
      go :
          (t u : GemType)
          → cell types p ≡ some t
          → cell types q ≡ some u
          → ((p q : TypePtr)
              → IsAddress types p
              → IsAddress types q
              → p ≤ fuel
              → (b : Bool) × (compare_in fuel types p q ≡ some b))
          → (b : Bool) × (compare_in (suc fuel) types p q ≡ some b)
      go t u e f rec = rw (compare_in-step fuel types p q t u e f) (
          (compare_loaded-ends (compare_in fuel types) t u (λ p' q' i j.
            rec p' q' (IsAddress-lower types p p' h (grounded.at p p' (e ∙ ap some i)))
              (IsAddress-lower types q q' k (grounded.at q q' (f ∙ ap some j)))
              (omega (arith, (grounded.at p p' (e ∙ ap some i)).1, l)))))

-- Where every reference points to an earlier type, `compareTypes` ends on any two types, prints nothing
-- and changes nothing.
pub compare_types-ends :
    (p q : TypePtr) (s : SetState)
    → Grounded s.types
    → IsAddress s.types p
    → IsAddress s.types q
    → (b : Bool) × (compare_types p q s ≡ ok b s)
unfolding compare_types
compare_types-ends p q s g h k =
    let (b, e) = compare_in-ends s.types g (length s.types) p q h k (omega (arith, h.bounded)) in
    (b, rw e refl)

-- Every type is equal to itself: under the same condition `compareTypes` says so.
pub compare_types_refl :
    (p : TypePtr) (s : SetState)
    → Grounded s.types
    → IsAddress s.types p
    → compare_types p p s ≡ ok true s
unfolding compare_types
compare_types_refl p s g h =
    rw (compare_in_refl s.types g (length s.types) p h (omega (arith, h.bounded))) refl
