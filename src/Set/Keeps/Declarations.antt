-- ===== src/Set/Keeps/Declarations.antt =====
-- The parts of declarations, definitions and assignments that add no variable keep every frame.
use gemstone.Prelude.{String, [], ◌∷◌}
use gemstone.Ast.{
  cons, ast_parameter, ast_dereference, kind, ◌is◌, SyntaxElement, ast_storage, Tree, tree,
}
use gemstone.Set.Types.{reference, TypePtr, Expression}
use gemstone.Set.Monad.{M}
use gemstone.Set.Declarations.{
  Nodes, Declaration, qualifier_from_string, create_ref, declare_child, declare_children,
  define_child, define_children, initializer_at,
}
use gemstone.Set.Statements.{
  storage_parameter, StorageExpr, storage_identifier, storage_dereference_of, create_storage_expr,
  require_writable, array_element, create_assign,
}
use gemstone.Set.Keeps.{
  Keeps-if, GemType, Relation, Keeps, IsFrame, keeps_rules, Keeps-bind, Keeps-pure,
}
use gemstone.Set.Keeps.Types.{
  set_get_type_impl-Keeps, compare_types-Keeps, types_to_string-Keeps, get_parameter-Keeps,
  get_variable_from_scope-Keeps,
}
use gemstone.Set.Keeps.Nodes.{KeepsAll, KeepsTree, label-Keeps, Keeps-get_node}
use gemstone.Set.Keeps.Expressions.{create_type_cast_from_expression-Keeps}

ruleset child_rules = (set_get_type_impl-Keeps)

module _ {R : Relation} (frame : IsFrame R) where
  qualifier_from_string-Keeps : (word : String) → Keeps R (qualifier_from_string word)
  unfolding qualifier_from_string
  qualifier_from_string-Keeps word = search (keeps_rules, frame) depth 8

  create_ref-Keeps : (nodes : Nodes) → Keeps R (create_ref nodes)
  unfolding create_ref
  create_ref-Keeps nodes = search (keeps_rules, child_rules, frame) depth 8

  declare_child-Keeps :
      (k : SyntaxElement) (node : Tree (M Expression)) (d : Declaration)
      → Keeps R (declare_child k node d)
  unfolding declare_child
  declare_child-Keeps ast_storage node d =
      search (keeps_rules, frame, qualifier_from_string-Keeps) depth 8
  declare_child-Keeps _ node d =
      search (keeps_rules, frame, set_get_type_impl-Keeps, create_ref-Keeps) depth 8

  pub declare_children-Keeps :
      (nodes : Nodes) (d : Declaration) → Keeps R (declare_children nodes d)
  unfolding declare_children
  declare_children-Keeps [] d = Keeps-pure frame d
  declare_children-Keeps (node ∷ nodes) d =
      Keeps-bind frame _ _ (declare_child-Keeps _ node d) (declare_children-Keeps nodes)

  define_child-Keeps :
      (k : SyntaxElement) (node : Tree (M Expression)) (d : Declaration)
      → Keeps R (define_child k node d)
  unfolding define_child
  define_child-Keeps ast_storage node d =
      search (keeps_rules, frame, qualifier_from_string-Keeps) depth 8
  define_child-Keeps _ node d = search (keeps_rules, child_rules, frame) depth 8

  pub define_children-Keeps : (nodes : Nodes) (d : Declaration) → Keeps R (define_children nodes d)
  unfolding define_children
  define_children-Keeps [] d = Keeps-pure frame d
  define_children-Keeps (node ∷ nodes) d =
      Keeps-bind frame _ _ (define_child-Keeps _ node d) (define_children-Keeps nodes)

  pub initializer_at-Keeps : (p : TypePtr) (e : Expression) → Keeps R (initializer_at p e)
  unfolding initializer_at
  initializer_at-Keeps p e =
      search
        (
          keeps_rules, frame, compare_types-Keeps, types_to_string-Keeps,
          create_type_cast_from_expression-Keeps,
        )
        depth 10

  storage_identifier-Keeps : (name : String) → Keeps R (storage_identifier name)
  unfolding storage_identifier
  storage_identifier-Keeps name =
      search (keeps_rules, frame, get_variable_from_scope-Keeps, get_parameter-Keeps) depth 10

  array_element-Keeps : (t : GemType) → Keeps R (array_element t)
  array_element-Keeps (reference p) = search (keeps_rules, frame)
  array_element-Keeps _ = search (keeps_rules, frame)

  storage_dereference_of-Keeps :
      (m : M Expression) (n : M StorageExpr)
      → Keeps R m
      → Keeps R n
      → Keeps R (storage_dereference_of m n)
  unfolding storage_dereference_of
  storage_dereference_of-Keeps m n h k = search (keeps_rules, frame, array_element-Keeps) depth 10

  pub create_storage_expr-Keeps :
      (t : Tree (M Expression)) → KeepsTree R t → Keeps R (create_storage_expr t)
  unfolding create_storage_expr
  create_storage_expr-Keeps (tree k v a (cons array (cons index rest))) h =
      Keeps-if frame (k is ast_dereference) _ _
        (storage_dereference_of-Keeps _ _ (label-Keeps frame index h.1.1.0)
          (create_storage_expr-Keeps array h.1.0))
        (search (keeps_rules, frame, storage_identifier-Keeps) depth 6)
  create_storage_expr-Keeps (tree k v a _) h =
      search (keeps_rules, frame, storage_identifier-Keeps) depth 6

  require_writable-Keeps : (e : StorageExpr) → Keeps R (require_writable e)
  require_writable-Keeps (storage_parameter t p) = search (keeps_rules, frame)
  require_writable-Keeps _ = search (keeps_rules, frame)

  pub create_assign-Keeps : (nodes : Nodes) → KeepsAll R nodes → Keeps R (create_assign nodes)
  unfolding create_assign
  create_assign-Keeps nodes h = Keeps-get_node frame nodes 0 _ h (λ t ht.
      Keeps-bind frame _ _ (create_storage_expr-Keeps t ht) (λ d.
        Keeps-bind frame _ _
          (Keeps-if frame (kind t is ast_parameter) _ _ (require_writable-Keeps d)
            (Keeps-pure frame tt))
          (λ u. Keeps-get_node frame nodes 1 _ h (λ t' ht'.
            Keeps-bind frame _ _ (label-Keeps frame t' ht') (λ e.
              search (keeps_rules, frame, compare_types-Keeps, types_to_string-Keeps) depth 10)))))
