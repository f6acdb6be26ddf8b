-- ===== src/Set/Keeps/Functions.antt =====
-- Parameters, functions and the tables of functions keep the relations of `Statements.antt`.
use gemstone.Prelude.{
  true, false, if◌then◌else◌, insert, String, Option, none, some, List, [], ◌∷◌, Table, Bool,
  contains,
}
use gemstone.Ast.{
  SyntaxElement, ast_fun_def, ast_fun_decl, ast_proc_def, ast_proc_decl, Tree, children, kind,
}
use gemstone.Set.Types.{Expression, Function, FunctionPtr, Parameter}
use gemstone.Set.Monad.{reject, SetState, M}
use gemstone.Set.Declarations.{Nodes}
use gemstone.Set.Functions.{
  insert_declared, compare_one, compare_each, compare_parameter, add_definition, add_redeclaration,
  add_function,
}
use gemstone.Set.FunctionDefs.{
  set_function_parameter, io_qualifier, insert_parameter, create_param, create_params,
  create_param_lists, create_return_value, create_fun_def, create_proc_def, create_proc_decl,
  create_fun_decl, create_function_by_kind, create_function,
}
use gemstone.Set.Keeps.{
  Ends, Relation, Keeps, keeps_rules, Keeps-abort, Keeps-bind, Keeps-pure, Keeps-if, Keeps-fail,
  Keeps-reject,
}
use gemstone.Set.Keeps.Types.{set_get_type_impl-Keeps, compare_types-Keeps}
use gemstone.Set.Keeps.Nodes.{KeepsTree, KeepsAll, children-Keeps, Keeps-get_node}
use gemstone.Set.Keeps.Statements.{IsStoreFrame, create_block-Keeps}

module _ {R : Relation} (store : IsStoreFrame R) where
  open store use {frame, parameters, functions, renames, declares, composites}

  io_qualifier-Keeps : (nodes : Nodes) → Keeps R (io_qualifier nodes)
  unfolding io_qualifier
  io_qualifier-Keeps [] = search (keeps_rules, frame) depth 8
  io_qualifier-Keeps (a ∷ []) = search (keeps_rules, frame) depth 8
  io_qualifier-Keeps (a ∷ b ∷ []) = search (keeps_rules, frame) depth 8
  io_qualifier-Keeps (a ∷ b ∷ c ∷ rest) = search (keeps_rules, frame) depth 8

  -- A test that is made at the state.
  pub Ends-if :
      {A : Type 0} (b : Bool) (m n : M A) (s : SetState)
      → Keeps R m
      → Keeps R n
      → Ends R s (if b then m s else n s)
  Ends-if true m n s h k = h.at s
  Ends-if false m n s h k = k.at s

  insert_parameter-Keeps :
      (p : Parameter) (o : Option (Table Parameter)) → Keeps R (insert_parameter p o)
  insert_parameter-Keeps p none = Keeps-abort frame _
  insert_parameter-Keeps p (some table) = record {
    at = λ s.
        Ends-if (contains table p.name) (reject "Names of function parameters must be unique: %s")
          (set_function_parameter (some (insert table p.name p))) s (Keeps-reject frame _)
          (parameters (some (insert table p.name p)));
  }

  create_param-Keeps : (node : Tree (M Expression)) → Keeps R (create_param node)
  unfolding create_param
  create_param-Keeps node =
      search
        (keeps_rules, frame, io_qualifier-Keeps, set_get_type_impl-Keeps, insert_parameter-Keeps)
        depth 20

  create_params-Keeps : (nodes : Nodes) → Keeps R (create_params nodes)
  unfolding create_params
  create_params-Keeps [] = Keeps-pure frame []
  create_params-Keeps (node ∷ nodes) =
      Keeps-bind frame _ _ (create_params-Keeps nodes)
        (λ later. Keeps-bind frame _ _ (create_param-Keeps node) (λ p. Keeps-pure frame _))

  create_param_lists-Keeps : (nodes : Nodes) → Keeps R (create_param_lists nodes)
  unfolding create_param_lists
  create_param_lists-Keeps [] = Keeps-pure frame []
  create_param_lists-Keeps (list ∷ lists) =
      Keeps-bind frame _ _ (create_params-Keeps (children list))
        (λ ps. Keeps-bind frame _ _ (create_param_lists-Keeps lists) (λ rest. Keeps-pure frame _))

  create_return_value-Keeps : (node : Tree (M Expression)) → Keeps R (create_return_value node)
  unfolding create_return_value
  create_return_value-Keeps node = search (keeps_rules, frame, set_get_type_impl-Keeps) depth 8

  create_function_by_kind-Keeps :
      (k : SyntaxElement) (nodes : Nodes)
      → KeepsAll R nodes
      → Keeps R (create_function_by_kind k nodes)
  unfolding create_function_by_kind create_fun_def create_proc_def create_proc_decl create_fun_decl
  create_function_by_kind-Keeps ast_fun_decl nodes h =
      search (keeps_rules, frame, create_return_value-Keeps, create_param_lists-Keeps) depth 14
  create_function_by_kind-Keeps ast_fun_def nodes h = Keeps-get_node frame nodes 0 _ h (λ n hn.
      Keeps-get_node frame nodes 1 _ h (λ r hr. Keeps-get_node frame nodes 2 _ h (λ p hp.
        Keeps-get_node frame nodes 3 _ h (λ b hb.
          Keeps-bind frame _ _ (create_return_value-Keeps r) (λ rv.
            Keeps-bind frame _ _ (create_param_lists-Keeps (children p)) (λ ps.
              Keeps-bind frame _ _ (create_block-Keeps store b hb) (λ bl. Keeps-pure frame _)))))))
  create_function_by_kind-Keeps ast_proc_decl nodes h =
      search (keeps_rules, frame, create_param_lists-Keeps) depth 14
  create_function_by_kind-Keeps ast_proc_def nodes h = Keeps-get_node frame nodes 0 _ h (λ n hn.
      Keeps-get_node frame nodes 1 _ h (λ p hp. Keeps-get_node frame nodes 2 _ h (λ b hb.
        Keeps-bind frame _ _ (create_param_lists-Keeps (children p))
          (λ ps. Keeps-bind frame _ _ (create_block-Keeps store b hb) (λ bl. Keeps-pure frame _)))))
  create_function_by_kind-Keeps _ nodes h = Keeps-fail frame

  compare_one-Keeps : (p q : Parameter) → Keeps R (compare_one p q)
  unfolding compare_one
  compare_one-Keeps p q = search (keeps_rules, frame, compare_types-Keeps) depth 10

  compare_each-Keeps : (ps : List Parameter) → Keeps R (compare_each ps)
  unfolding compare_each
  compare_each-Keeps [] = Keeps-pure frame _
  compare_each-Keeps (p ∷ ps) =
      Keeps-bind frame _ _ (compare_one-Keeps p p)
        (λ b. Keeps-if frame b _ _ (compare_each-Keeps ps) (Keeps-pure frame _))

  compare_parameter-Keeps : (l r : List Parameter) → Keeps R (compare_parameter l r)
  unfolding compare_parameter
  compare_parameter-Keeps l r = search (keeps_rules, frame, compare_each-Keeps) depth 6

  add_definition-Keeps : (name : String) (f : FunctionPtr) → Keeps R (add_definition name f)
  unfolding add_definition
  add_definition-Keeps name f = record {
    at = λ s.
        Ends-if (contains s.defined_functions name) (reject "Multiple definition of function: `%s`")
          (insert_declared name f) s (Keeps-reject frame _) (declares name f);
  }

  add_redeclaration-Keeps :
      (name : String) (f : FunctionPtr) (g : Function) (p : FunctionPtr)
      → Keeps R (add_redeclaration name f g p)
  unfolding add_redeclaration
  add_redeclaration-Keeps name f g p =
      search (keeps_rules, frame, compare_parameter-Keeps, declares) depth 10

  pub add_function-Keeps : (name : String) (f : FunctionPtr) → Keeps R (add_function name f)
  unfolding add_function
  add_function-Keeps name f =
      search (keeps_rules, frame, add_definition-Keeps, add_redeclaration-Keeps, declares) depth 10

  pub create_function-Keeps :
      (t : Tree (M Expression)) → KeepsTree R t → Keeps R (create_function t)
  unfolding create_function
  create_function-Keeps t h =
      Keeps-bind frame (set_function_parameter (some [])) _ (parameters (some [])) (λ u.
        Keeps-bind frame _ _
          (create_function_by_kind-Keeps (kind t) (children t) (children-Keeps frame t h))
          (λ f. Keeps-bind frame (set_function_parameter none) _ (parameters none) (λ u'.
            Keeps-bind frame _ _ (functions f) (λ p.
              Keeps-bind frame _ _ (add_function-Keeps f.name p)
                (λ u''. Keeps-pure frame (p, f.name))))))
