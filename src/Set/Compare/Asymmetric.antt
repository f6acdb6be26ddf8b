-- ===== src/Set/Compare/Asymmetric.antt =====
-- `compareTypes` is not symmetric.
use gemstone.Prelude.{ap, arith, ◌≡◌, refl, true, false, some, length, List, [], ◌∷◌}
use gemstone.Set.Types.{
  GemType, PrimitiveType, CompositeType, primitive, composite, signed, TypePtr,
}
use gemstone.Set.Scale.{one}
use gemstone.Set.Monad.{SetState, cell, ok}
use gemstone.Set.Compare.{compare_loaded, compare_in, compare_types}
use gemstone.Set.Compare.Grounded.{compare_in-step, primitive_refl}

-- The composite that a primitive is without a sign and factors.
abbrev pub plain : PrimitiveType → CompositeType
plain k = record { sign = signed; scale = one; primitive = k }

asymmetric_in :
    (h : List GemType) (p q : TypePtr) (k : PrimitiveType)
    → cell h p ≡ some (composite (plain k))
    → cell h q ≡ some (primitive k)
    → (compare_in (length h) h p q ≡ some true) × (compare_in (length h) h q p ≡ some false)
unfolding compare_loaded
asymmetric_in [] p q k e f = ground (arith, e)
asymmetric_in (t ∷ ts) p q k e f = (
  rw (compare_in-step (length ts) (t ∷ ts) p q _ _ e f) (ap some (primitive_refl k)),
  compare_in-step (length ts) (t ∷ ts) q p _ _ f e,
)

-- The order of the operands matters to `compareTypes`: a signed composite of scale one is found equal to
-- its primitive on the right, and different from it on the left.
pub compare_types-plain :
    (p q : TypePtr) (k : PrimitiveType) (s : SetState)
    → cell s.types p ≡ some (composite (plain k))
    → cell s.types q ≡ some (primitive k)
    → (compare_types p q s ≡ ok true s) × (compare_types q p s ≡ ok false s)
unfolding compare_types
compare_types-plain p q k s e f =
    let r = asymmetric_in s.types p q k e f in (rw (r.0) refl, rw (r.1) refl)
