-- ===== src/Set/Access.antt =====
-- Constants, identifiers, casts and references: `createTypeValue`, `createString`, `createTypeCast`,
-- `createTransmute`, `createDeref`, `createAddressOf`, `createBoxAccess` and the case `AST_Ident` of
-- `createExpression` in src/set/set.c.
use gemstone.Prelude.{ℕ, String, Bool, true, false, List, ◌==◌, length, if◌then◌else◌}
use gemstone.Ast.{SyntaxElement, ast_int, ast_float, ast_char, Tree, label, value}
use gemstone.Set.Types.{
  int, float, char, GemType, primitive, composite, box, reference, TypePtr, out_only, Parameter,
  VariablePtr, Expression, type_cast, transmute, constant, variable, parameter, dereference,
  address_of, result, ◌is_primitive◌, box_member_kind, VariableKind,
}
use gemstone.Set.Monad.{
  M, pure, fail, abort, unchecked, status, on_option, ◌>>=◌, ◌>>◌, reject, print_diagnostic,
  error_message, assertion, panic, uninitialised, get_node, new_type, load_type, load_variable,
  short_short_unsigned_int_type,
}
use gemstone.Set.TypeImpl.{set_get_type_impl}
use gemstone.Set.Scope.{get_parameter, get_variable_from_scope}
use gemstone.Set.Functions.{qualifier_code}

-- `utf8_strlen text n` is `g_utf8_strlen`: the characters in the first `n` bytes. A character
-- constant of another length is reported and kept.
module _ (utf8_strlen : String → ℕ → ℕ) where
  unfoldable pub create_type_value : SyntaxElement → String → M Expression
  create_type_value ast_int v = do type ← new_type (primitive int); pure (constant type v)
  create_type_value ast_float v = do type ← new_type (primitive float); pure (constant type v)
  create_type_value ast_char v = do
    (if utf8_strlen v 4 == 1
        then pure tt
        else print_diagnostic error_message "Character must be UTF-8 codepoint")
    type ← new_type (primitive char)
    pure (constant type v)
  create_type_value kind v = abort panic

unfoldable pub create_string : String → M Expression
create_string v = do
  type ← new_type (reference short_short_unsigned_int_type)
  pure (constant type v)

unfoldable pub parameter_expression : Parameter → M Expression
parameter_expression p =
    if qualifier_code p.qualifier == qualifier_code out_only
    then reject "Parameter is write-only: `%s`"
    else pure (parameter p.type p)

abbrev pub variable_expression : VariablePtr → M Expression
variable_expression v = do x ← load_variable v; pure (variable x.type v)

-- A variable of the name, or else a parameter.
unfoldable pub create_identifier : String → M Expression
create_identifier name = do
  found ← status (get_variable_from_scope name)
  on_option found
      (do
        found_parameter ← status (get_parameter name)
        on_option found_parameter (reject "Unknown identifier: `%s`") parameter_expression)
      variable_expression

abbrev pub is_castable : GemType → Bool
is_castable (box b) = false
is_castable t = true

unfoldable pub create_type_cast : List (Tree (M Expression)) → M Expression
create_type_cast nodes = do
  operand_node ← get_node nodes 0
  e ← label operand_node
  t ← load_type (result e)
  (if is_castable t then pure tt else reject "cannot cast type: `%s`")
  type_node ← get_node nodes 1
  target ← set_get_type_impl type_node
  pure (type_cast target e)

unfoldable pub create_transmute : List (Tree (M Expression)) → M Expression
create_transmute nodes = do
  operand_node ← get_node nodes 0
  e ← label operand_node
  type_node ← get_node nodes 1
  target ← status (set_get_type_impl type_node)
  on_option target (reject "Unknown type") (λ p. pure (transmute p e))

-- The index is an `int` or a composite of it.
unfoldable pub check_index : GemType → M (Unit {0})
check_index (primitive p) =
    if p is_primitive int
    then pure tt
    else reject "Index must a primitive int or composite variation"
check_index (composite c) =
    if c.primitive is_primitive int
    then pure tt
    else reject "Index must a primitive int or composite variation"
check_index t = reject "Index must a primitive int or composite variation"

abbrev pub pointee : GemType → M TypePtr
pointee (reference p) = pure p
pointee t = reject "Only references can be dereferenced"

-- The test after the second `createExpression` looks at the index again, so a failed operand is read
-- through `NULL`.
unfoldable pub create_deref : List (Tree (M Expression)) → M Expression
create_deref nodes =
    if length nodes == 2
    then (do
      index_node ← get_node nodes 1
      index ← label index_node
      index_type ← load_type (result index)
      check_index index_type
      variable_node ← get_node nodes 0
      e ← unchecked (label variable_node)
      t ← load_type (result e)
      p ← pointee t
      pure (dereference p index e))
    else abort assertion

unfoldable pub create_address_of : List (Tree (M Expression)) → M Expression
create_address_of nodes =
    if length nodes == 1
    then (do
      node ← get_node nodes 0
      e ← label node
      type ← new_type (reference (result e))
      pure (address_of type e))
    else abort assertion

abbrev pub is_box_member : VariableKind → Bool
is_box_member box_member_kind = true
is_box_member k = false

-- A box is written through the pointer `impl.variable`, which was never set.
abbrev pub write_box_access : GemType → M Expression
write_box_access (box b) = abort uninitialised
write_box_access t = fail

unfoldable pub access_box : VariablePtr → M Expression
access_box v = do
  x ← load_variable v
  (if is_box_member x.kind then fail else pure tt)
  t ← load_type x.type
  write_box_access t

unfoldable pub create_box_access : List (Tree (M Expression)) → M Expression
create_box_access nodes = do
  name_node ← get_node nodes 0
  found ← status (get_variable_from_scope (value name_node))
  on_option found (reject "Variable of name `%s` does not exist") access_box
