-- ===== src/Set/Examples.antt =====
-- The theorems on src/set/set.c at concrete trees and states.
pub mod Modules
use gemstone.Prelude.{
  ◌≤◌, ℕ, zero, suc, ◌<◌, ◌≡◌, ◌≢◌, ◌∙◌, sym, refl, String, Bool, true, false, none, some, List, [],
  ◌∷◌, arith, lookup, insert, eq_iff, str_eq, ◌++◌,
}
use mathlib.Core.Bool.{true≢false}
use gemstone.Ast.{
  Tree, tree, nil, ast_mul, ast_ident, ast_int, ast_scale, ast_negate, ast_decl, ast_list, cons,
  children, to_list, ast_stmt_list, ast_stmt, ast_if, ast_ident_list, annotate, ast_sign,
  ast_typekind,
}
use gemstone.Set.Types.{
  GemType, primitive, composite, reference, CompositeType, PrimitiveType, unsigned, Variable,
  Parameter, Function, Expression, Expressions, constant, variable, operation, arithmetic_kind,
  arithmetic, negate, in_only, parameter_declaration_kind, declaration_kind, local,
}
use gemstone.Set.Scale.{one, quarter, eight}
use gemstone.Set.Monad.{reject, SetState, M, pure, ok, cell, ◌>>◌}
use gemstone.Set.Compare.{compare_types}
use gemstone.Set.Compare.Grounded.{Grounded, IsAddress, compare_types-ends, compare_types_refl}
use gemstone.Set.TypeImpl.{merge_scale_list, set_impl_composite_type, get_named_type}
use gemstone.Set.TypeImpl.Scales.{Merges, merge_scale_list-Merges}
use gemstone.Set.Scope.{find_in_scope, get_variable_from_scope}
use gemstone.Set.Scope.Names.{HasDistinctNames, Adds, add_var_to_scope-Adds}
use gemstone.Set.Scope.Lookup.{holders, first_holder, get_variable_from_scope-holders}
use gemstone.Set.Functions.{compare_parameter, add_function}
use gemstone.Set.Functions.Tables.{compare_parameter-length, add_function_twice}
use gemstone.Set.Operands.{create_type_from_operands}
use gemstone.Set.Operands.Agree.{OnOk, IsUniform, operands-agree}
use gemstone.Set.Operands.Symmetric.{create_type_from_operands_comm}
use gemstone.Set.Arithmetic.{create_arith_operation, create_relational_operation}
use gemstone.Set.Logic.{create_bool_operation, create_bool_not_operation, boolean_type}
use gemstone.Set.Bitwise.{create_bit_operation, create_bit_not_operation}
use gemstone.Set.Arithmetic.Negation.{with_signed, negation-with_signed}
use gemstone.Set.Expression.{Node, create_expression, create_label}
use gemstone.Set.Module.{create_box, create_set}
use gemstone.Set.Module.Boxes.{Never, create_box-fails}
use gemstone.Set.Keeps.{Ends}
use gemstone.Set.Keeps.Untouched.{Untouched}
use gemstone.Set.Keeps.Expression.{create_expression-Untouched}
use gemstone.Set.Statements.{create_block}
use gemstone.Set.Evaluation.{evaluation}
use gemstone.Set.Keeps.Blocks.{create_block-scope}
use gemstone.Set.Keeps.Analysed.{AnalysedModule, create_set-Analysed}
use gemstone.Set.Compare.Asymmetric.{plain, compare_types-plain}
use gemstone.Set.TypeImpl.Bounds.{set_impl_composite_type-bounds}
use gemstone.Set.Samples.{
  program, node2, int_type, is_ok, leaf, node1, one_character, start, unsigned_int, x, parameter_of,
  main, heap, with_x, with_size, with_primitives,
}

heap-Grounded : Grounded heap
heap-Grounded = record { at = go }
  where
    go : (p q : ℕ) → cell heap p ≡ some (reference q) → (0 < q) × (q < p)
    go zero q e = ground (arith, e)
    go (suc zero) q e = ground (arith, e)
    go (suc (suc zero)) q e = ground (arith, e)
    go (suc (suc (suc zero))) q e = ground (arith, e)
    go (suc (suc (suc (suc n)))) q e = ground (arith, e)

address : (p : ℕ) → 0 < p → p < 4 → IsAddress heap p
address p h l = record { positive = h; bounded = l }

with_x-HasDistinctNames : HasDistinctNames with_x
unfolding find_in_scope lookup
with_x-HasDistinctNames = record {
  once = λ name. ground arith;
  there = λ name v e. ground (arith, e);
  table = omega arith;
}

create_expression-Untouched_example :
    Ends Untouched with_x
      (create_expression one_character (node1 ast_negate (leaf ast_ident "x")) with_x)
create_expression-Untouched_example =
    create_expression-Untouched one_character (node1 ast_negate (leaf ast_ident "x")) with_x

abbrev literals : List (Tree (M Expression))
literals =
    tree ast_int "1" (pure (constant 1 "1")) nil ∷ tree ast_int "2" (pure (constant 2 "2")) nil ∷ []

operands-agree_example :
    OnOk IsUniform (create_arith_operation ast_mul literals 2 with_x)
    × OnOk IsUniform (create_relational_operation ast_mul literals with_x)
    × OnOk IsUniform (create_bool_operation ast_mul literals with_x)
    × OnOk IsUniform (create_bool_not_operation literals with_x)
    × OnOk IsUniform (create_bit_operation ast_mul literals with_x)
    × OnOk IsUniform (create_bit_not_operation literals with_x)
operands-agree_example = operands-agree literals ast_mul 2 with_x

create_type_from_operands_comm_example :
    create_type_from_operands 1 2 with_x ≡ create_type_from_operands 2 1 with_x
create_type_from_operands_comm_example = create_type_from_operands_comm 1 2 with_x

merge_scale_list-Merges_example :
    Merges
      (leaf ast_scale "short" ∷ leaf ast_scale "long" ∷ [])
      one
      (merge_scale_list (leaf ast_scale "short" ∷ leaf ast_scale "long" ∷ []) one)
merge_scale_list-Merges_example =
    merge_scale_list-Merges (leaf ast_scale "short" ∷ leaf ast_scale "long" ∷ []) one (omega arith)
      (omega arith)

compare_types-ends_example : (b : Bool) × (compare_types 3 1 with_x ≡ ok b with_x)
compare_types-ends_example =
    compare_types-ends 3 1 with_x heap-Grounded (address 3 (omega arith) (omega arith))
      (address 1 (omega arith) (omega arith))

compare_types_refl_example : compare_types 3 3 with_x ≡ ok true with_x
compare_types_refl_example =
    compare_types_refl 3 with_x heap-Grounded (address 3 (omega arith) (omega arith))

get_variable_from_scope-holders_example :
    get_variable_from_scope "x" with_x ≡ first_holder (holders "x" with_x.scope) with_x
get_variable_from_scope-holders_example = get_variable_from_scope-holders "x" with_x

-- With the tables of a module and of a block that hold the same name.
x_shadowed : holders "x" ((("x", 0) ∷ []) ∷ [] ∷ (("y", 1) ∷ ("x", 2) ∷ []) ∷ []) ≡ 0 ∷ 2 ∷ []
unfolding holders lookup
x_shadowed = refl

negation-with_signed_example :
    create_expression one_character (node1 ast_negate (leaf ast_ident "x")) with_x
    ≡ ok
        (operation 2 arithmetic_kind
          (arithmetic negate)
          (Expressions.cons (variable 2 0) Expressions.nil))
        (with_signed with_x 2 unsigned_int)
unfolding find_in_scope lookup
negation-with_signed_example =
    negation-with_signed one_character "x" with_x 0 x unsigned_int refl refl refl (omega arith)

compare_parameter-length_example :
    compare_parameter (parameter_of "a" ∷ []) (parameter_of "b" ∷ []) with_x ≡ ok true with_x
compare_parameter-length_example =
    compare_parameter-length (parameter_of "a" ∷ []) (parameter_of "b" ∷ []) with_x heap-Grounded
      (address 2 (omega arith) (omega arith), tt)

add_function_twice_example :
    (add_function "main" 0 >> add_function "main" 1) with_x
    ≡ ok tt (record with_x { declared_functions = insert (insert [] "main" 0) "main" 1 })
unfolding lookup
add_function_twice_example = add_function_twice "main" 0 1 with_x main main refl refl refl refl refl

abbrev member : Tree (M Expression)
member = tree ast_decl "" (pure (constant 2 "")) nil

abbrev members : Tree (M Expression)
members = tree ast_list "" (pure (constant 2 "")) (cons member nil)

create_box-fails_example : OnOk Never (create_box [] (member ∷ members ∷ []) with_x)
unfolding children to_list
create_box-fails_example = create_box-fails [] member members member [] [] with_x refl

different : (a b : String) → str_eq a b ≡ false → a ≢ b
different a b h e = true≢false (sym ((eq_iff a b).1 e) ∙ h)

add_var_to_scope-Adds_example : Adds "y" 0 with_x "x" none
unfolding find_in_scope lookup
add_var_to_scope-Adds_example =
    add_var_to_scope-Adds "y" 0 with_x with_x-HasDistinctNames (omega arith) "x"
      (different "y" "x" refl)
