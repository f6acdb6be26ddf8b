-- ===== src/Set/Keeps/Access.antt =====
-- The routines on constants, names, casts, references and calls keep every frame, and so does
-- `createExpression`, whatever the tree.
use gemstone.Prelude.{◌+◌, ℕ, String, Option, none, some, List, [], ◌∷◌}
use gemstone.Ast.{SyntaxElement, Tree, label, children}
use gemstone.Set.Types.{GemType, Expression, VariablePtr, FunctionPtr, Parameter}
use gemstone.Set.Monad.{M}
use gemstone.Set.Access.{
  create_type_value, create_string, parameter_expression, variable_expression, create_identifier,
  create_type_cast, create_transmute, check_index, pointee, create_deref, create_address_of,
  write_box_access, access_box, create_box_access,
}
use gemstone.Set.Calls.{
  require_function, qualified_function, called_function, check_count, create_argument,
  create_arguments, create_argument_lists, createfuncall, create_call_expression,
}
use gemstone.Set.Keeps.{Relation, Keeps, IsFrame, keeps_rules, Keeps-bind, Keeps-pure}
use gemstone.Set.Keeps.Types.{
  set_get_type_impl-Keeps, compare_types-Keeps, types_to_string-Keeps, get_parameter-Keeps,
  get_variable_from_scope-Keeps, get_function-Keeps,
}
use gemstone.Set.Keeps.Nodes.{KeepsTree, KeepsAll, label-Keeps, children-Keeps, Keeps-get_node}

module _ {R : Relation} (frame : IsFrame R) where
  pub create_type_value-Keeps :
      (len : String → ℕ → ℕ) (k : SyntaxElement) (v : String) → Keeps R (create_type_value len k v)
  unfolding create_type_value
  create_type_value-Keeps len SyntaxElement.ast_char v = search (keeps_rules, frame) depth 8
  create_type_value-Keeps len _ v = search (keeps_rules, frame)

  pub create_string-Keeps : (v : String) → Keeps R (create_string v)
  unfolding create_string
  create_string-Keeps v = search (keeps_rules, frame)

  parameter_expression-Keeps : (p : Parameter) → Keeps R (parameter_expression p)
  unfolding parameter_expression
  parameter_expression-Keeps p = search (keeps_rules, frame)

  variable_expression-Keeps : (v : VariablePtr) → Keeps R (variable_expression v)
  variable_expression-Keeps v = search (keeps_rules, frame)

  pub create_identifier-Keeps : (name : String) → Keeps R (create_identifier name)
  unfolding create_identifier
  create_identifier-Keeps name =
      search
        (
          keeps_rules, frame, get_variable_from_scope-Keeps, get_parameter-Keeps,
          parameter_expression-Keeps, variable_expression-Keeps,
        )
        depth 10

  check_index-Keeps : (t : GemType) → Keeps R (check_index t)
  unfolding check_index
  check_index-Keeps (GemType.primitive p) = search (keeps_rules, frame)
  check_index-Keeps _ = search (keeps_rules, frame)

  pointee-Keeps : (t : GemType) → Keeps R (pointee t)
  pointee-Keeps (GemType.reference p) = search (keeps_rules, frame)
  pointee-Keeps _ = search (keeps_rules, frame)

  write_box_access-Keeps : (t : GemType) → Keeps R (write_box_access t)
  write_box_access-Keeps (GemType.box p) = search (keeps_rules, frame)
  write_box_access-Keeps _ = search (keeps_rules, frame)

  access_box-Keeps : (v : VariablePtr) → Keeps R (access_box v)
  unfolding access_box
  access_box-Keeps v = search (keeps_rules, frame, write_box_access-Keeps) depth 10

  require_function-Keeps : (o : Option FunctionPtr) → Keeps R (require_function o)
  require_function-Keeps none = search (keeps_rules, frame)
  require_function-Keeps (some f) = search (keeps_rules, frame)

  check_count-Keeps : (m n : ℕ) → Keeps R (check_count m n)
  check_count-Keeps m n = search (keeps_rules, frame)

  create_argument-Keeps :
      (ps : List Parameter) (i : ℕ) (t : Tree (M Expression))
      → KeepsTree R t
      → Keeps R (create_argument ps i t)
  unfolding create_argument
  create_argument-Keeps ps i t h =
      Keeps-bind frame (label t) _ (label-Keeps frame t h)
        (λ e. search (keeps_rules, frame, compare_types-Keeps, types_to_string-Keeps) depth 10)

  create_arguments-Keeps :
      (ps : List Parameter) (i : ℕ) (ts : List (Tree (M Expression)))
      → KeepsAll R ts
      → Keeps R (create_arguments ps i ts)
  unfolding create_arguments
  create_arguments-Keeps ps i [] h = search (keeps_rules, frame)
  create_arguments-Keeps ps i (t ∷ ts) h =
      Keeps-bind frame (create_arguments ps i ts) _ (create_arguments-Keeps ps i ts h.1) (λ later.
        Keeps-bind frame (create_argument ps _ t) _ (create_argument-Keeps ps _ t h.0)
          (λ e. Keeps-pure frame _))

  create_argument_lists-Keeps :
      (ps : List Parameter) (i : ℕ) (ts : List (Tree (M Expression)))
      → KeepsAll R ts
      → Keeps R (create_argument_lists ps i ts)
  unfolding create_argument_lists
  create_argument_lists-Keeps ps i [] h = search (keeps_rules, frame)
  create_argument_lists-Keeps ps i (t ∷ ts) h =
      Keeps-bind frame (create_arguments ps i (children t)) _
        (create_arguments-Keeps ps i (children t) (children-Keeps frame t h.0))
        (λ es.
          Keeps-bind frame (create_argument_lists ps (i + 1) ts) _
            (create_argument_lists-Keeps ps (i + 1) ts h.1) (λ rest. Keeps-pure frame _))

  qualified_function-Keeps :
      (ts : List (Tree (M Expression))) → KeepsAll R ts → Keeps R (qualified_function ts)
  unfolding qualified_function
  qualified_function-Keeps ts h =
      search (Keeps-get_node, keeps_rules, frame, h, get_function-Keeps, require_function-Keeps)
        depth 14

  called_function-Keeps : (t : Tree (M Expression)) → KeepsTree R t → Keeps R (called_function t)
  unfolding called_function
  called_function-Keeps t h =
      search
        (
          keeps_rules,
          frame,
          get_function-Keeps,
          require_function-Keeps,
          qualified_function-Keeps,
          children-Keeps frame t h,
        )
        depth 10

  module _ (ts : List (Tree (M Expression))) (h : KeepsAll R ts) where
    pub create_type_cast-Keeps : Keeps R (create_type_cast ts)
    unfolding create_type_cast
    create_type_cast-Keeps =
        search (Keeps-get_node, keeps_rules, frame, h, label-Keeps, set_get_type_impl-Keeps) depth
          16

    pub create_transmute-Keeps : Keeps R (create_transmute ts)
    unfolding create_transmute
    create_transmute-Keeps =
        search (Keeps-get_node, keeps_rules, frame, h, label-Keeps, set_get_type_impl-Keeps) depth
          16

    pub create_deref-Keeps : Keeps R (create_deref ts)
    unfolding create_deref
    create_deref-Keeps =
        search
          (Keeps-get_node, keeps_rules, frame, h, label-Keeps, check_index-Keeps, pointee-Keeps)
          depth 20

    pub create_address_of-Keeps : Keeps R (create_address_of ts)
    unfolding create_address_of
    create_address_of-Keeps = search (Keeps-get_node, keeps_rules, frame, h, label-Keeps) depth 14

    pub create_box_access-Keeps : Keeps R (create_box_access ts)
    unfolding create_box_access
    create_box_access-Keeps =
        search (keeps_rules, frame, get_variable_from_scope-Keeps, access_box-Keeps) depth 14

    pub createfuncall-Keeps : Keeps R (createfuncall ts)
    unfolding createfuncall
    createfuncall-Keeps =
        search
          (
            Keeps-get_node, keeps_rules, frame, h, called_function-Keeps, check_count-Keeps,
            create_argument_lists-Keeps, children-Keeps,
          )
          depth 20

    pub create_call_expression-Keeps : Keeps R (create_call_expression ts)
    unfolding create_call_expression
    create_call_expression-Keeps = search (keeps_rules, frame, createfuncall-Keeps) depth 14
