-- ===== src/Ast/Children.antt =====
-- The array of children of a node: `AST_get_node` to `AST_get_child_count` of src/ast/ast.c. A routine
-- is `none` where an assertion fails or an index behind the end of an array would leave a gap in it.
-- No routine sets the pointer to the parent, which is always `NULL`.
use gemstone.Prelude.{ℕ, zero, suc, Option, none, some, List, [], ◌∷◌, if◌then◌else◌, length}
use gemstone.Ast.{SyntaxElement, ◌is◌, Tree, kind}

module _ {A : Type 0} where
  -- `g_array_insert_val`.
  unfoldable pub insert_val : ℕ → A → List A → Option (List A)
  insert_val zero x xs = some (x ∷ xs)
  insert_val (suc i) x [] = none
  insert_val (suc i) x (y ∷ xs) = elim (insert_val i x xs) [
    | none ↦ none
    | some xs' ↦ some (y ∷ xs')
  ]

  -- `AST_remove_child`.
  unfoldable pub remove_child : List A → ℕ → Option (A × List A)
  remove_child [] i = none
  remove_child (x ∷ xs) zero = some (x, xs)
  remove_child (x ∷ xs) (suc i) = elim (remove_child xs i) [
    | none ↦ none
    | some (y, xs') ↦ some (y, x ∷ xs')
  ]

  -- `AST_insert_node`.
  abbrev pub insert_node : List A → ℕ → A → Option (List A)
  insert_node owner idx child = insert_val idx child owner

  -- The loop of `AST_merge_modules`: as many rounds as are left, from position `k + i` on.
  unfoldable pub merge_from : ℕ → ℕ → List A → List A → Option (List A × List A)
  merge_from zero at dst src = some (dst, src)
  merge_from (suc n) at dst src = elim (remove_child src 0) [
    | none ↦ none
    | some (child, src') ↦ elim (insert_node dst at child) [
      | none ↦ none
      | some dst' ↦ merge_from n (suc at) dst' src'
    ]
  ]

  -- `AST_merge_modules`: the children of the module, and those left of the other, which is then deleted.
  unfoldable pub merge_modules : List A → ℕ → List A → Option (List A × List A)
  merge_modules dst k src = merge_from (length src) k dst src

-- `AST_get_node_by_kind`: the first child of a kind.
unfoldable pub get_node_by_kind : {A : Type 0} → List (Tree A) → SyntaxElement → Option (Tree A)
get_node_by_kind [] k = none
get_node_by_kind (t ∷ ts) k = if kind t is k then some t else get_node_by_kind ts k
