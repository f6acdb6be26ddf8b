-- ===== src/Driver/Pending.antt =====
-- The children of the files that are not imported yet, and what an import takes from them.
use mathlib.Core.Path.{subst}
use gemstone.Prelude.{
  ℕ, zero, suc, ◌+◌, ◌≤◌, ◌≡◌, refl, ap, String, true, false, ◌||◌, inl, inr, Bool-cases, Option,
  none, some, List, [], ◌∷◌, ◌++◌, str_eq, eq_iff, if◌then◌else◌, length, length-append, arith,
}
use gemstone.Ast.Children.{merge_modules}
use gemstone.Ast.Merge.{merge_modules-append}
use gemstone.Driver.Imports.{Outside, is_imported}

pub is_imported-last :
    (imports : List String) (p q : String)
    → is_imported (imports ++ p ∷ []) q ≡ (is_imported imports q || str_eq p q)
unfolding is_imported
is_imported-last [] p q = ground (arith)
is_imported-last (r ∷ imports) p q = ground (arith, is_imported-last imports p q)

-- A list in two, the first of a length.
abbrev Splits : {A : Type 0} → ℕ → List A → Type 0
Splits {A} k xs = (front : List A) × (back : List A) × (xs ≡ front ++ back) × (length front ≡ k)

split : {A : Type 0} (k : ℕ) (xs : List A) → k ≤ length xs → Splits k xs
split zero xs h = ([], xs, refl, refl)
split (suc k) [] h = absurd (omega (arith, h))
split (suc k) (x ∷ xs) h = go (split k xs (omega (arith, h)))
  where
    go : Splits k xs → Splits (suc k) (x ∷ xs)
    go (front, back, e, l) = (x ∷ front, back, ap (λ ys. x ∷ ys) e, ap suc l)

-- What a merge leaves of the children.
abbrev pub Merged : {A : Type 0} → List A → List A → Option (List A × List A) → Type 0
Merged dst src none = ⊥
Merged dst src (some (dst', src')) = length dst' ≡ length dst + length src

pub merge_modules-Merged :
    {A : Type 0} (dst : List A) (k : ℕ) (src : List A)
    → k ≤ length dst
    → Merged dst src (merge_modules dst k src)
merge_modules-Merged dst k src h = go (split k dst h)
  where
    go : Splits k dst → Merged dst src (merge_modules dst k src)
    go (front, back, e, l) = rw e (
        rw⁻¹ l (
          rw (merge_modules-append front back src) (
            omega (
              arith,
              length-append front (src ++ back),
              length-append src back,
              length-append front back,
            ))))

module _ (outside : Outside) where
  -- The number of children of the module in a file.
  unfoldable pub size : String → ℕ
  size path = elim (outside.parse path) [ none ↦ 0 | some nodes ↦ length nodes ]

  -- The children of the files of a list that are not imported yet.
  unfoldable pub pending : List String → List String → ℕ
  pending [] imports = 0
  pending (p ∷ ps) imports = (if is_imported imports p then 0 else size p) + pending ps imports

  pending_mono :
      (ps imports : List String) (p : String) → pending ps (imports ++ p ∷ []) ≤ pending ps imports
  unfolding pending
  pending_mono [] imports p = omega arith
  pending_mono (q ∷ ps) imports p =
      ground (arith, is_imported-last imports p q, pending_mono ps imports p)

  pub pending-last :
      (ps imports : List String) (p : String)
      → is_imported ps p ≡ true
      → is_imported imports p ≡ false
      → pending ps (imports ++ p ∷ []) + size p ≤ pending ps imports
  unfolding pending is_imported
  pending-last [] imports p h k = absurd (subst (λ b. elim b [ true ↦ ⊥ | false ↦ Unit ]) h tt)
  pending-last (q ∷ ps) imports p h k = elim (Bool-cases (str_eq q p)) [
    | inl e ↦
        rw ((eq_iff q p).0 e) (here (is_imported-last imports p p) (pending_mono ps imports p))
    | inr e ↦ ground (arith, is_imported-last imports p q, pending-last ps imports p (later e h) k)
  ]
    where
      here :
          is_imported (imports ++ p ∷ []) p ≡ (is_imported imports p || str_eq p p)
          → pending ps (imports ++ p ∷ []) ≤ pending ps imports
          → (if is_imported (imports ++ p ∷ []) p then 0 else size p)
              + pending ps (imports ++ p ∷ [])
              + size p
            ≤ (if is_imported imports p then 0 else size p) + pending ps imports
      here a b = rw a (rw k (rw ((eq_iff p p).1 refl) (omega (arith, b))))

      later : str_eq q p ≡ false → (str_eq q p || is_imported ps p) ≡ true → is_imported ps p ≡ true
      later e h = ground (arith, e, h)
