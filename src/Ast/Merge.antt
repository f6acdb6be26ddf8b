-- ===== src/Ast/Merge.antt =====
-- What merging a module into another does to their children.
use gemstone.Prelude.{ℕ, zero, suc, ◌≡◌, refl, Option, none, some, List, [], ◌∷◌, ◌++◌, length}
use gemstone.Ast.Children.{insert_val, remove_child, merge_from, merge_modules}

module _ {A : Type 0} where
  abbrev cons_first : A → Option (List A × List A) → Option (List A × List A)
  cons_first y none = none
  cons_first y (some (dst, src)) = some (y ∷ dst, src)

  merge_from-cons :
      (n at : ℕ) (y : A) (dst src : List A)
      → merge_from n (suc at) (y ∷ dst) src ≡ cons_first y (merge_from n at dst src)
  unfolding merge_from remove_child insert_val
  merge_from-cons zero at y dst src = refl
  merge_from-cons (suc n) at y dst [] = refl
  merge_from-cons (suc n) at y dst (x ∷ src) =
      go (insert_val at x dst) (λ d. merge_from-cons n (suc at) y d src)
    where
      go :
          (o : Option (List A))
          → ((d : List A)
              → merge_from n (suc (suc at)) (y ∷ d) src
                ≡ cons_first y (merge_from n (suc at) d src))
          → elim (elim o as (λ x. Option (List A)) [ none ↦ none | some d ↦ some (y ∷ d) ]) [
            | none ↦ none
            | some d ↦ merge_from n (suc (suc at)) d src
          ]
            ≡ cons_first y (elim o [ none ↦ none | some d ↦ merge_from n (suc at) d src ])
      go none rec = refl
      go (some d) rec = rec d

  merge_from-front :
      (back src : List A) → merge_from (length src) 0 back src ≡ some (src ++ back, [])
  unfolding merge_from remove_child insert_val
  merge_from-front back [] = refl
  merge_from-front back (x ∷ src) =
      rw (merge_from-cons (length src) 0 x back src) (rw (merge_from-front back src) refl)

  -- Merged at the end of the first children of a module, the children of the other module stand there,
  -- all of them in their order, and behind them the rest of the first module's children; the other
  -- module has none left.
  pub merge_modules-append :
      (front back src : List A)
      → merge_modules (front ++ back) (length front) src ≡ some (front ++ (src ++ back), [])
  unfolding merge_modules
  merge_modules-append [] back src = merge_from-front back src
  merge_modules-append (x ∷ front) back src =
      rw (merge_from-cons (length src) (length front) x (front ++ back) src)
        (rw (merge_modules-append front back src) refl)
