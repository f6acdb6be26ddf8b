-- ===== src/Set/TypeImpl/Scales.antt =====
-- What `merge_scale_list` and `check_scale_factor` let through.
use gemstone.Prelude.{
  ℕ, ◌+◌, ◌≤◌, ◌<◌, ◌≡◌, refl, ap, List, [], ◌∷◌, Option, none, some, length, Bool, true, false,
  ◌||◌, if◌then◌else◌, arith, String, str_eq, eq_iff, Bool-cases, ◌⊎◌, inl, inr,
}
use gemstone.Ast.{Tree, value}
use gemstone.Set.TypeImpl.{merge_scale_list}
use gemstone.Set.Types.{Scale}
use gemstone.Set.Scale.{scale_factor_from, half, two, infinity, mul_scale}

mul_scale-half : (k : Scale) → 0 < k → k < infinity → mul_scale k half + 1 ≡ k
unfolding mul_scale
mul_scale-half k h l = ground arith

mul_scale-two : (k : Scale) → 0 < k → k + 1 < infinity → mul_scale k two ≡ k + 1
unfolding mul_scale
mul_scale-two k h l = ground arith

-- The words that halve a scale, and those that double it.
abbrev pub is_halving : String → Bool
is_halving word = str_eq word "half" || str_eq word "short"

abbrev pub is_doubling : String → Bool
is_doubling word = str_eq word "double" || str_eq word "long"

or-cases : (a b : Bool) → (a || b) ≡ true → (a ≡ true) ⊎ (b ≡ true)
or-cases true b h = inl refl
or-cases false b h = inr h

disjoint : (w : String) → is_halving w ≡ true → is_doubling w ≡ false
disjoint w h = elim (or-cases (str_eq w "half") (str_eq w "short") h) [
  | inl e ↦ rw ((eq_iff w "half").0 e) refl
  | inr e ↦ rw ((eq_iff w "short").0 e) refl
]

-- What a word stands for.
abbrev IsFactor : String → Option Scale → Type 0
IsFactor w (some f) =
    ((is_halving w ≡ true) × (is_doubling w ≡ false) × (f ≡ half))
    ⊎ ((is_halving w ≡ false) × (is_doubling w ≡ true) × (f ≡ two))
IsFactor w none = (is_halving w ≡ false) × (is_doubling w ≡ false)

scale_factor_from-IsFactor : (w : String) → IsFactor w (scale_factor_from w)
unfolding scale_factor_from
scale_factor_from-IsFactor w = elim (Bool-cases (is_halving w)) [
  | inl h ↦ rw h (inl (h, disjoint w h, refl))
  | inr h ↦ elim (Bool-cases (is_doubling w)) [
    | inl d ↦ rw (h, d) (inr (h, d, refl))
    | inr d ↦ rw (h, d) (h, d)
  ]
]

module _ {A : Type 0} where
  abbrev pub count : (String → Bool) → List (Tree A) → ℕ
  count test [] = 0
  count test (t ∷ ts) = (if test (value t) then 1 else 0) + count test ts

  -- The scale after the words, by how many halve and how many double; an error exactly for a word that
  -- does neither.
  abbrev pub Merges : List (Tree A) → Scale → Option Scale → Type 0
  Merges ts k (some k') =
      (k' + count is_halving ts ≡ k + count is_doubling ts)
      × (count is_halving ts + count is_doubling ts ≡ length ts)
  Merges ts k none = count is_halving ts + count is_doubling ts < length ts

  bounded : (ts : List (Tree A)) → count is_halving ts + count is_doubling ts ≤ length ts
  bounded [] = omega arith
  bounded (t ∷ ts) = ground (arith, bounded ts, disjoint (value t))

  -- One more word, which halves or doubles.
  Merges-half :
      (t : Tree A) (ts : List (Tree A)) (k k' : Scale) (o : Option Scale)
      → is_halving (value t) ≡ true
      → is_doubling (value t) ≡ false
      → k' + 1 ≡ k
      → Merges ts k' o
      → Merges (t ∷ ts) k o
  Merges-half t ts k k' none h d e m = rw (h, d) (omega (arith, m))
  Merges-half t ts k k' (some x) h d e m = rw (h, d) (omega (arith, m.0, e), omega (arith, m.1))

  Merges-two :
      (t : Tree A) (ts : List (Tree A)) (k k' : Scale) (o : Option Scale)
      → is_halving (value t) ≡ false
      → is_doubling (value t) ≡ true
      → k' ≡ k + 1
      → Merges ts k' o
      → Merges (t ∷ ts) k o
  Merges-two t ts k k' none h d e m = rw (h, d) (omega (arith, m))
  Merges-two t ts k k' (some x) h d e m = rw (h, d) (omega (arith, m.0, e), omega (arith, m.1))

  merge-cons :
      (t : Tree A) (ts : List (Tree A)) (k : Scale) (o : Option Scale)
      → scale_factor_from (value t) ≡ o
      → merge_scale_list (t ∷ ts) k
        ≡ elim o [ none ↦ none | some f ↦ merge_scale_list ts (mul_scale k f) ]
  unfolding merge_scale_list
  merge-cons t ts k o e = ap rest e
    where
      rest : Option Scale → Option Scale
      rest none = none
      rest (some f) = merge_scale_list ts (mul_scale k f)

  -- `merge_scale_list` on a list that is shorter than the exponents are far from zero and infinity: with
  -- a word that is no factor among them it is an error, and else the exponent has gone down by one for
  -- each "half" or "short" and up by one for each "double" or "long", in whatever order they stand.
  pub merge_scale_list-Merges :
      (ts : List (Tree A)) (k : Scale)
      → length ts < k
      → k + length ts < infinity
      → Merges ts k (merge_scale_list ts k)
  unfolding merge_scale_list
  merge_scale_list-Merges [] k h l = (refl, refl)
  merge_scale_list-Merges (t ∷ ts) k h l =
      go (scale_factor_from (value t)) (scale_factor_from-IsFactor (value t)) refl
        (merge_scale_list-Merges ts)
    where
      go :
          (o : Option Scale)
          → IsFactor (value t) o
          → scale_factor_from (value t) ≡ o
          → ((k : Scale)
              → length ts < k
              → k + length ts < infinity
              → Merges ts k (merge_scale_list ts k))
          → Merges (t ∷ ts) k (merge_scale_list (t ∷ ts) k)
      go none f e rest = rw (merge-cons t ts k none e) (rw (f.0, f.1) (omega (arith, bounded ts)))
      go (some x) (inl (i, d, f)) e rest =
          let down = mul_scale-half k (omega (arith, h)) (omega (arith, l)) in
          rw (merge-cons t ts k (some x) e) (
            rw f (
              Merges-half t ts k (mul_scale k half) _ i d down
                (rest (mul_scale k half) (omega (arith, h, down)) (omega (arith, l, down)))))
      go (some x) (inr (i, d, f)) e rest =
          let up = mul_scale-two k (omega (arith, h)) (omega (arith, l)) in
          rw (merge-cons t ts k (some x) e) (
            rw f (
              Merges-two t ts k (mul_scale k two) _ i d up
                (rest (mul_scale k two) (omega (arith, h, up)) (omega (arith, l, up)))))
