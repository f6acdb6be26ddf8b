-- ===== src/Set/Keeps/Module.antt =====
-- Boxes, type definitions and whole modules keep the relations of `Statements.antt`.
use Prim.Native.String.{◌++◌ as str_append}
use gemstone.Prelude.{ℕ, insert, get_elem?, String, List, [], ◌∷◌, Table, contains}
use gemstone.Ast.{
  SyntaxElement, ast_decl, ast_def, ast_box, ast_fun_def, ast_fun_decl, ast_proc_def, ast_proc_decl,
  ast_typedef, ast_import, ast_include, Tree, annotate, children, kind, value,
}
use gemstone.Set.Types.{Expression, FunctionPtr, VariablePtr, TypePtr}
use gemstone.Set.Monad.{reject, abort, uninitialised, assertion, M, pure, ok}
use gemstone.Set.Scope.{fill_tables_with_vars}
use gemstone.Set.Declarations.{Nodes}
use gemstone.Set.Module.{
  empty_module, with_self, create_decl_member, create_box_function, create_box_member,
  create_box_members, create_box, declare_composite, create_type_def, Module, add_to_functions,
  add_variables_to, create_module_entry, create_module_entries,
}
use gemstone.Set.Expression.{Node, create_label}
use gemstone.Set.Keeps.{
  Keeps-new_type, Relation, Keeps, keeps_rules, Keeps-abort, Keeps-or_fault, Keeps-bind, Keeps-pure,
  Keeps-gets, Keeps-if, Keeps-fail, Keeps-reject, Keeps-status, Keeps-load_function,
}
use gemstone.Set.Keeps.Types.{set_get_type_impl-Keeps}
use gemstone.Set.Keeps.Nodes.{KeepsTree, KeepsAll, children-Keeps, Keeps-get_node}
use gemstone.Set.Keeps.Expression.{annotated-KeepsTree}
use gemstone.Set.Keeps.Functions.{Ends-if, add_function-Keeps, create_function-Keeps}
use gemstone.Set.Keeps.Statements.{IsStoreFrame, create_decl-Keeps, create_def-Keeps}

module _ {R : Relation} (store : IsStoreFrame R) where
  open store use {frame, renames, composites}

  create_decl_member-Keeps : (nodes : Nodes) → Keeps R (create_decl_member nodes)
  unfolding create_decl_member
  create_decl_member-Keeps nodes =
      Keeps-bind frame _ _ (Keeps-or_fault frame assertion (get_elem? nodes 0)) (λ t.
        Keeps-bind frame _ _ (set_get_type_impl-Keeps frame t) (λ p.
          Keeps-bind frame _ _ (Keeps-or_fault frame assertion (get_elem? nodes 1))
            (λ l. go (children l))))
    where
      go :
          (names : Nodes)
          → Keeps R (elim names [ [] ↦ pure tt | name ∷ rest ↦ abort uninitialised ])
      go [] = Keeps-pure frame tt
      go (name ∷ rest) = Keeps-abort frame _

  module _ (name : String) (type : TypePtr) where
    create_box_function-Keeps :
        (t : Tree (M Expression)) → KeepsTree R t → Keeps R (create_box_function name type t)
    unfolding create_box_function
    create_box_function-Keeps t h = Keeps-bind frame _ _ (create_function-Keeps store t h) (λ r.
        Keeps-bind frame _ _ (Keeps-load_function frame r.0) (λ f.
          Keeps-bind frame _ _ (renames r.0 (with_self name type f)) (λ u.
            Keeps-bind frame _ _
              (Keeps-status frame _
                (add_function-Keeps store (str_append name (str_append "." r.1)) r.0))
              (λ u'. Keeps-pure frame tt))))

    create_box_member-Keeps :
        (k : SyntaxElement) (t : Tree (M Expression))
        → KeepsTree R t
        → Keeps R (create_box_member name type k t)
    unfolding create_box_member
    create_box_member-Keeps ast_decl t h = create_decl_member-Keeps (children t)
    create_box_member-Keeps ast_def t h = create_decl_member-Keeps (children t)
    create_box_member-Keeps ast_fun_def t h = create_box_function-Keeps t h
    create_box_member-Keeps _ t h = Keeps-pure frame tt

    create_box_members-Keeps :
        (nodes : Nodes) → KeepsAll R nodes → Keeps R (create_box_members name type nodes)
    unfolding create_box_members
    create_box_members-Keeps [] h = Keeps-abort frame _
    create_box_members-Keeps (t ∷ ts) h =
        Keeps-bind frame _ _ (create_box_member-Keeps (kind t) t h.0)
          (λ u. create_box_members-Keeps ts h.1)

  create_box-Keeps :
      (boxes : Table TypePtr) (nodes : Nodes) → KeepsAll R nodes → Keeps R (create_box boxes nodes)
  unfolding create_box
  create_box-Keeps boxes nodes h = Keeps-get_node frame nodes 0 _ h (λ n hn.
      Keeps-get_node frame nodes 1 _ h (λ l hl.
        Keeps-bind frame _ _ (Keeps-gets frame (λ s. s.garbage)) (λ g.
          Keeps-bind frame _ _ (Keeps-new_type frame g) (λ p.
            Keeps-bind frame _ _ (go (value n) p (children l) (children-Keeps frame l hl)) (λ u.
              Keeps-if frame (contains boxes (value n)) _ _ (Keeps-fail frame)
                (Keeps-pure frame (insert boxes (value n) p)))))))
    where
      go :
          (name : String) (p : TypePtr) (members : Nodes)
          → KeepsAll R members
          → Keeps R (elim members [
            | [] ↦ pure tt
            | member ∷ rest ↦ create_box_members name p (member ∷ rest)
          ])
      go name p [] k = Keeps-pure frame tt
      go name p (member ∷ rest) k = create_box_members-Keeps name p (member ∷ rest) k

  declare_composite-Keeps : (name : String) (p : TypePtr) → Keeps R (declare_composite name p)
  declare_composite-Keeps name p = record {
    at = λ s.
        Ends-if store (contains s.declared_composites name)
          (reject "Multiple definition of type: `%s`")
          (λ t. ok tt (record t { declared_composites = insert t.declared_composites name p })) s
          (Keeps-reject frame _)
          (record { at = λ t. composites (insert t.declared_composites name p) t });
  }

  create_type_def-Keeps :
      (types : Table TypePtr) (nodes : Nodes) → Keeps R (create_type_def types nodes)
  unfolding create_type_def
  create_type_def-Keeps types nodes =
      search (keeps_rules, frame, set_get_type_impl-Keeps, declare_composite-Keeps) depth 14

  fill_tables_with_vars-Keeps :
      (table : Table VariablePtr) (vars : List (String × VariablePtr))
      → Keeps R (fill_tables_with_vars table vars)
  unfolding fill_tables_with_vars
  fill_tables_with_vars-Keeps table [] = Keeps-pure frame _
  fill_tables_with_vars-Keeps table ((name, v) ∷ rest) =
      Keeps-if frame (contains table name) _ _ (search (keeps_rules, frame) depth 6)
        (fill_tables_with_vars-Keeps (insert table name v) rest)

  add_variables_to-Keeps :
      (m : Module) (vars : List (String × VariablePtr)) → Keeps R (add_variables_to m vars)
  add_variables_to-Keeps m vars =
      Keeps-bind frame _ _ (fill_tables_with_vars-Keeps m.variables vars) (λ r. Keeps-pure frame _)

  add_to_functions-Keeps : (m : Module) (f : FunctionPtr × String) → Keeps R (add_to_functions m f)
  unfolding add_to_functions
  add_to_functions-Keeps m (f, name) = search (keeps_rules, frame) depth 6

  create_module_entry-Keeps :
      (k : SyntaxElement) (t : Tree (M Expression)) (m : Module)
      → KeepsTree R t
      → Keeps R (create_module_entry k t m)
  unfolding create_module_entry
  create_module_entry-Keeps ast_decl t m h =
      Keeps-bind frame _ _ (create_decl-Keeps store (children t)) (add_variables_to-Keeps m)
  create_module_entry-Keeps ast_def t m h =
      Keeps-bind frame _ _ (create_def-Keeps store (children t) (children-Keeps frame t h))
        (add_variables_to-Keeps m)
  create_module_entry-Keeps ast_box t m h =
      Keeps-bind frame _ _ (create_box-Keeps m.boxes (children t) (children-Keeps frame t h))
        (λ b. Keeps-pure frame _)
  create_module_entry-Keeps ast_fun_def t m h =
      Keeps-bind frame _ _ (create_function-Keeps store t h) (add_to_functions-Keeps m)
  create_module_entry-Keeps ast_fun_decl t m h =
      Keeps-bind frame _ _ (create_function-Keeps store t h) (add_to_functions-Keeps m)
  create_module_entry-Keeps ast_proc_def t m h =
      Keeps-bind frame _ _ (create_function-Keeps store t h) (add_to_functions-Keeps m)
  create_module_entry-Keeps ast_proc_decl t m h =
      Keeps-bind frame _ _ (create_function-Keeps store t h) (add_to_functions-Keeps m)
  create_module_entry-Keeps ast_typedef t m h =
      Keeps-bind frame _ _ (create_type_def-Keeps m.types (children t)) (λ ts. Keeps-pure frame _)
  create_module_entry-Keeps ast_import t m h = Keeps-pure frame _
  create_module_entry-Keeps ast_include t m h = Keeps-pure frame _
  create_module_entry-Keeps _ t m h = Keeps-pure frame _

  create_module_entries-Keeps :
      (nodes : Nodes) (m : Module) → KeepsAll R nodes → Keeps R (create_module_entries nodes m)
  unfolding create_module_entries
  create_module_entries-Keeps [] m h = Keeps-pure frame m
  create_module_entries-Keeps (t ∷ ts) m h =
      Keeps-bind frame _ _ (create_module_entry-Keeps (kind t) t m h.0)
        (λ m'. create_module_entries-Keeps ts m' h.1)

  -- What `create_set` does behind the creation of its tables.
  pub module_entries-Keeps :
      (len : String → ℕ → ℕ) (root : Node)
      → Keeps R (create_module_entries (children (annotate (create_label len) root)) empty_module)
  module_entries-Keeps len root =
      create_module_entries-Keeps _ empty_module
        (children-Keeps frame _ (annotated-KeepsTree frame len root))
