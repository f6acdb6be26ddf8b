-- ===== src/Set/Evaluation.antt =====
-- All that a run of the analysis computes with: a test names `evaluation` on its `unfolding` line.
use gemstone.Prelude.{lookup, insert}
use gemstone.Ast.{kind_code, ◌is◌, lookup_table, node_to_string, to_list, children, annotate}
use gemstone.Set.Types.{of_list}
use gemstone.Set.Scale.{
  mul_scale, sign_from_string, primitive_from_string, scale_factor_from, int_scale, is_scale_equal,
}
use gemstone.Set.TypeImpl.{
  check_scale_factor, merge_scale_list, get_type_decl, named_composite, resolve_composite,
  find_primitive, set_impl_reference_type, read_sign, read_scale, set_impl_composite_type,
  new_named_type, get_named_type, set_get_type_impl,
}
use gemstone.Set.Compare.{
  compare_composites, compare_loaded, compare_in, compare_types, repeat, scale_to_string,
  composite_to_string, string_in, type_to_string, types_to_string,
}
use gemstone.Set.Scope.{
  get_parameter, find_in_scope, note_shadowing, found_variable, get_variable_from_scope,
  insert_last, add_unless, add_var_to_scope, fill_tables_with_vars,
}
use gemstone.Set.Functions.{
  compare_one, compare_each, compare_parameter, add_definition, add_redeclaration, add_function,
  get_function,
}
use gemstone.Set.Operands.{
  operand_type, create_type_from_operands, create_type_cast_from_expression, cast_operand,
  cast_operands, create_operands,
}
use gemstone.Set.Arithmetic.{
  negated_type, arithmetic_type, create_arith_operation, create_relational_operation,
}
use gemstone.Set.Logic.{
  check_no_float, boolean_type, create_bool_operation, boolean_not_type, create_bool_not_operation,
}
use gemstone.Set.Bitwise.{
  bitwise_type, create_bit_operation, bitwise_not_type, create_bit_not_operation,
}
use gemstone.Set.Access.{
  create_type_value, create_string, parameter_expression, create_identifier, create_type_cast,
  create_transmute, check_index, create_deref, create_address_of, access_box, create_box_access,
}
use gemstone.Set.Calls.{
  count_arguments, qualified_function, called_function, create_argument, create_arguments,
  create_argument_lists, createfuncall, create_call_expression,
}
use gemstone.Set.Expression.{create_by_kind, create_expression}
use gemstone.Set.Declarations.{
  qualifier_from_string, create_ref, declare_child, declare_children, add_variables, create_decl,
  define_child, define_children, initializer_at, create_def,
}
use gemstone.Set.Statements.{
  of_statements, storage_identifier, storage_dereference_of, create_storage_expr, create_assign,
  remove_last, fill_block, create_while, create_branch_part, create_statement_by_kind,
  create_statement,
}
use gemstone.Set.FunctionDefs.{
  io_qualifier, create_param, create_params, create_param_lists, create_return_value,
  create_fun_def, create_proc_def, create_proc_decl, create_fun_decl, create_function_by_kind,
  create_function,
}
use gemstone.Set.Module.{
  create_decl_member, create_box_function, create_box_member, create_box_members, create_box,
  create_type_def, add_to_functions, create_module_entry, create_module_entries, create_set,
}

unfoldable pub evaluation : Unit {0}
unfolding lookup insert kind_code ◌is◌ lookup_table node_to_string to_list children annotate of_list
    mul_scale sign_from_string primitive_from_string scale_factor_from int_scale is_scale_equal
    check_scale_factor merge_scale_list get_type_decl named_composite resolve_composite
    find_primitive set_impl_reference_type read_sign read_scale set_impl_composite_type
    new_named_type get_named_type set_get_type_impl compare_composites compare_loaded compare_in
    compare_types repeat scale_to_string composite_to_string string_in type_to_string
    types_to_string get_parameter find_in_scope note_shadowing found_variable
    get_variable_from_scope insert_last add_unless add_var_to_scope fill_tables_with_vars
    compare_one compare_each compare_parameter add_definition add_redeclaration add_function
    get_function operand_type create_type_from_operands create_type_cast_from_expression
    cast_operand cast_operands create_operands negated_type arithmetic_type create_arith_operation
    create_relational_operation check_no_float boolean_type create_bool_operation boolean_not_type
    create_bool_not_operation bitwise_type create_bit_operation bitwise_not_type
    create_bit_not_operation create_type_value create_string parameter_expression create_identifier
    create_type_cast create_transmute check_index create_deref create_address_of access_box
    create_box_access count_arguments qualified_function called_function create_argument
    create_arguments create_argument_lists createfuncall create_call_expression create_by_kind
    create_expression qualifier_from_string create_ref declare_child declare_children add_variables
    create_decl define_child define_children initializer_at create_def of_statements
    storage_identifier storage_dereference_of create_storage_expr create_assign remove_last
    fill_block create_while create_branch_part create_statement_by_kind create_statement
    io_qualifier create_param create_params create_param_lists create_return_value create_fun_def
    create_proc_def create_proc_decl create_fun_decl create_function_by_kind create_function
    create_decl_member create_box_function create_box_member create_box_members create_box
    create_type_def add_to_functions create_module_entry create_module_entries create_set
evaluation = tt
