-- ===== src/Set/Keeps/Nodes.antt =====
-- Trees whose labels are routines that keep a relation.
use gemstone.Prelude.{ℕ, zero, suc, List, [], ◌∷◌, String}
use gemstone.Ast.{
  SyntaxElement, Tree, tree, Forest, nil, cons, label, children, to_list, annotate, annotate_all,
}
use gemstone.Set.Monad.{M, ◌>>=◌, get_node}
use gemstone.Set.Keeps.{Relation, Keeps, IsFrame}

module _ {A : Type 0} (R : Relation) where
  abbrev mutual
    pub KeepsTree : Tree (M A) → Type 0
    KeepsTree (tree k v a cs) = Keeps R a × KeepsForest cs

    pub KeepsForest : Forest (M A) → Type 0
    KeepsForest nil = Unit
    KeepsForest (cons t ts) = KeepsTree t × KeepsForest ts

  abbrev pub KeepsAll : List (Tree (M A)) → Type 0
  KeepsAll [] = Unit
  KeepsAll (t ∷ ts) = KeepsTree t × KeepsAll ts

module _ {A : Type 0} {R : Relation} (frame : IsFrame R) where
  pub label-Keeps : (t : Tree (M A)) → KeepsTree R t → Keeps R (label t)
  label-Keeps (tree k v a cs) h = h.0

  pub to_list-Keeps : (ts : Forest (M A)) → KeepsForest R ts → KeepsAll R (to_list ts)
  unfolding to_list
  to_list-Keeps nil h = tt
  to_list-Keeps (cons t ts) h = (h.0, to_list-Keeps ts h.1)

  pub children-Keeps : (t : Tree (M A)) → KeepsTree R t → KeepsAll R (children t)
  unfolding children
  children-Keeps (tree k v a cs) h = to_list-Keeps cs h.1

  -- A child that `AST_get_node` gives keeps the relation, so the rest of the routine may rely on it.
  pub Keeps-get_node :
      {B : Type 0} (ts : List (Tree (M A))) (i : ℕ) (k : Tree (M A) → M B)
      → KeepsAll R ts
      → ((t : Tree (M A)) → KeepsTree R t → Keeps R (k t))
      → Keeps R (get_node ts i >>= k)
  Keeps-get_node [] i k h hk = record { at = λ s. tt }
  Keeps-get_node (t ∷ ts) zero k h hk = record { at = λ s. (hk t h.0).at s }
  Keeps-get_node (t ∷ ts) (suc i) k h hk = Keeps-get_node ts i k h.1 hk

-- A tree that is labelled by a function which keeps the relation wherever the children do.
module _ {R : Relation} (frame : IsFrame R) {A B : Type 0}
    (f : SyntaxElement → String → A → List (Tree (M B)) → M B)
    (step : (k : SyntaxElement) (v : String) (a : A) (ts : List (Tree (M B)))
      → KeepsAll R ts
      → Keeps R (f k v a ts)) where
  mutual
    unfolding annotate annotate_all to_list

    annotate_keeps : (t : Tree A) → KeepsTree R (annotate f t)
    annotate_keeps (tree k v a cs) = (
      step k v a (to_list (annotate_all f cs))
          (to_list-Keeps frame (annotate_all f cs) (annotate_all_keeps cs)),
      annotate_all_keeps cs,
    )

    annotate_all_keeps : (ts : Forest A) → KeepsForest R (annotate_all f ts)
    annotate_all_keeps nil = tt
    annotate_all_keeps (cons t ts) = (annotate_keeps t, annotate_all_keeps ts)

  pub annotate-KeepsTree : (t : Tree A) → KeepsTree R (annotate f t)
  annotate-KeepsTree t = annotate_keeps t
