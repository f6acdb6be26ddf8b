-- ===== src/Set/Examples/Modules.antt =====
-- The theorems on blocks, modules and the types of operations at concrete trees and states.
use gemstone.Prelude.{◌≤◌, ◌≡◌, refl, true, false, List, [], ◌∷◌}
use gemstone.Ast.{
  ast_ident, ast_int, ast_scale, ast_decl, ast_list, ast_stmt_list, ast_stmt, ast_if,
  ast_ident_list, Tree, annotate, ast_sign, ast_typekind,
}
use gemstone.Set.Types.{PrimitiveType, Expression}
use gemstone.Set.Scale.{quarter, eight}
use gemstone.Set.Monad.{M, ok}
use gemstone.Set.Compare.{compare_types}
use gemstone.Set.TypeImpl.{set_impl_composite_type, set_get_type_impl}
use gemstone.Set.Operands.Agree.{OnOk}
use gemstone.Set.Expression.{Node, create_label}
use gemstone.Set.Module.{create_set, create_type_def}
use gemstone.Set.Keeps.{Ends}
use gemstone.Set.Statements.{create_block}
use gemstone.Set.Evaluation.{evaluation}
use gemstone.Set.Keeps.Blocks.{create_block-scope}
use gemstone.Set.Keeps.Analysed.{AnalysedModule, create_set-Analysed}
use gemstone.Set.Compare.Asymmetric.{compare_types-plain}
use gemstone.Set.TypeImpl.Bounds.{set_impl_composite_type-bounds}
use gemstone.Set.Module.Names.{Declares, create_type_def-Declares}
use gemstone.Set.Scope.{fill_tables_with_vars}
use gemstone.Set.Scope.Tables.{Filled, clash, fill_tables_with_vars-Filled}
use gemstone.Set.Samples.{
  program, node2, int_type, is_ok, leaf, node1, one_character, start, with_primitives,
}

-- `{ x: int { y: int } }`, the inner block that of a branch.
abbrev nested_block : Node
nested_block =
    node2 ast_stmt_list (node2 ast_decl int_type (node1 ast_ident_list (leaf ast_ident "x"))) (
      node1 ast_stmt (
        node2 ast_if (leaf ast_int "1") (
          node1 ast_stmt_list
            (node2 ast_decl int_type (node1 ast_ident_list (leaf ast_ident "y"))))))

nested_block_runs :
    is_ok (create_block (annotate (create_label one_character) nested_block) start) ≡ 0
unfolding evaluation
nested_block_runs = refl

create_block-scope_example :
    OnOk
      (λ b s'. s'.scope ≡ start.scope)
      (create_block (annotate (create_label one_character) nested_block) start)
create_block-scope_example = create_block-scope one_character nested_block start

create_set-Analysed_example : Ends AnalysedModule start (create_set one_character program start)
create_set-Analysed_example = create_set-Analysed one_character program start

abbrev type_nodes : List Node
type_nodes =
    leaf ast_sign "unsigned"
    ∷ node1 ast_list (leaf ast_scale "short")
    ∷ leaf ast_typekind "int"
    ∷ []

set_impl_composite_type-bounds_example :
    OnOk
      (λ c s'. (quarter ≤ c.scale) × (c.scale ≤ eight))
      (set_impl_composite_type type_nodes start)
set_impl_composite_type-bounds_example = set_impl_composite_type-bounds type_nodes start

abbrev labelled : Node → Tree (M Expression)
labelled = annotate (create_label one_character)

create_type_def-Declares_example :
    Declares []
      (labelled (leaf ast_ident "size"))
      (labelled (leaf ast_sign "signed") ∷ [])
      (set_get_type_impl (labelled int_type) start)
      (create_type_def [] (labelled int_type ∷ labelled (leaf ast_ident "size") ∷ []) start)
create_type_def-Declares_example =
    create_type_def-Declares [] (labelled (leaf ast_ident "size"))
      (labelled (leaf ast_sign "signed") ∷ []) (labelled int_type) [] start

declaration_succeeds :
    is_ok (create_type_def [] (labelled int_type ∷ labelled (leaf ast_ident "size") ∷ []) start) ≡ 0
unfolding evaluation
declaration_succeeds = refl

compare_types-plain_example :
    (compare_types 4 2 with_primitives ≡ ok true with_primitives)
    × (compare_types 2 4 with_primitives ≡ ok false with_primitives)
compare_types-plain_example = compare_types-plain 4 2 PrimitiveType.int with_primitives refl refl

fill_tables_with_vars-Filled_example :
    Filled
      (("x", 0) ∷ [])
      (("y", 1) ∷ ("x", 2) ∷ [])
      start
      "x"
      (clash (("x", 0) ∷ []) (("y", 1) ∷ ("x", 2) ∷ []))
      (fill_tables_with_vars (("x", 0) ∷ []) (("y", 1) ∷ ("x", 2) ∷ []) start)
fill_tables_with_vars-Filled_example =
    fill_tables_with_vars-Filled (("x", 0) ∷ []) (("y", 1) ∷ ("x", 2) ∷ []) start "x"
