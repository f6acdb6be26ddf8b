-- ===== src/Ast/Examples.antt =====
-- A merge of two lists of children.
use gemstone.Prelude.{ℕ, ◌≡◌, some, [], ◌∷◌}
use gemstone.Ast.Children.{merge_modules}
use gemstone.Ast.Merge.{merge_modules-append}

merge_modules-append_example :
    merge_modules {A = ℕ} (1 ∷ 2 ∷ 3 ∷ []) 1 (7 ∷ 8 ∷ []) ≡ some (1 ∷ 7 ∷ 8 ∷ 2 ∷ 3 ∷ [], [])
merge_modules-append_example = merge_modules-append (1 ∷ []) (2 ∷ 3 ∷ []) (7 ∷ 8 ∷ [])
