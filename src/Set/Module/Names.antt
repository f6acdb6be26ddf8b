-- ===== src/Set/Module/Names.antt =====
-- `createTypeDef` and the types that are written with the new name.
use gemstone.Prelude.{
  ◌≡◌, refl, ◌∙◌, String, Bool, true, false, ◌||◌, if◌then◌else◌, Bool-cases, inl, inr, some, List,
  [], ◌∷◌, ◌++◌, Table, lookup, insert, lookup-insert, contains, eq_iff,
}
use gemstone.Ast.{Tree, value}
use gemstone.Set.Types.{TypePtr, Expression}
use gemstone.Set.Monad.{
  SetState, M, Run, ok, error, fault, and_then, pure, reject, error_message, ◌>>◌,
}
use gemstone.Set.TypeImpl.{get_named_type, set_get_type_impl}
use gemstone.Set.TypeImpl.Bounds.{last?-append}
use gemstone.Set.Declarations.{Nodes}
use gemstone.Set.Module.{create_type_def, declare_composite}

lookup-insert_self :
    (table : Table TypePtr) (name : String) (p : TypePtr)
    → lookup (insert table name p) name ≡ some p
lookup-insert_self table name p =
    lookup-insert table name p name ∙ rw ((eq_iff name name).1 refl) refl

-- The error of `createTypeDef` for a name that is taken.
abbrev pub refused : SetState → Run (Table TypePtr)
refused t = error (record t {
  diagnostics =
      t.diagnostics
      ++ record { kind = error_message; text = "Multiple definition of type: `%s`" } ∷ [];
})

module _ (types : Table TypePtr) (name_node : Tree (M Expression))
    (before : List (Tree (M Expression))) where
  -- How a declaration ends, by whether the name is taken: with a table and a state in which the name stands
  -- for the type, in the source behind whatever words.
  abbrev pub Named : TypePtr → SetState → Bool → Run (Table TypePtr) → Type 0
  Named p t true r = r ≡ refused t
  Named p t false r =
      (types' : Table TypePtr) × (s' : SetState) × (r ≡ ok types' s')
      × (lookup types' (value name_node) ≡ some p)
      × (get_named_type (before ++ name_node ∷ []) s' ≡ ok p s')

  -- By how the analysis of the declared type has ended.
  abbrev pub Declares : Run TypePtr → Run (Table TypePtr) → Type 0
  Declares (ok p t) r =
      Named p t
        (contains types (value name_node) || contains t.declared_composites (value name_node)) r
  Declares (error t) r = r ≡ error t
  Declares (fault f) r = r ≡ fault f

  -- What `createTypeDef` does with the type.
  abbrev declare : TypePtr → M (Table TypePtr)
  declare p =
      if contains types (value name_node)
      then reject "Multiple definition of type: `%s`"
      else (do declare_composite (value name_node) p; pure (insert types (value name_node) p))

  named :
      (p : TypePtr) (t : SetState)
      → Named p t
          (contains types (value name_node) || contains t.declared_composites (value name_node))
          (declare p t)
  unfolding get_named_type
  named p t = elim (Bool-cases (contains types (value name_node))) [
    | inl there ↦ rw there refl
    | inr fresh ↦ rw fresh (elim (Bool-cases (contains t.declared_composites (value name_node))) [
      | inl there ↦ rw there refl
      | inr new ↦ rw new (
        insert types (value name_node) p,
        record t { declared_composites = insert t.declared_composites (value name_node) p },
        refl,
        lookup-insert_self types (value name_node) p,
        rw (last?-append before name_node)
            (rw (lookup-insert_self t.declared_composites (value name_node) p) refl),
      )
    ])
  ]

  -- `createTypeDef` ends as the analysis of the declared type does, if that is an error or a fault. Else it is
  -- an error with one diagnostic where the name is in the module's table of types or among the declared
  -- composites, and where it is in neither, the name is in the module's table with the type, and a type that
  -- is written with the name is from then on that very type, at the same address, in an unchanged state:
  -- whatever signs and factors stand before the name, none is an error and none changes anything.
  pub create_type_def-Declares :
      (type_node : Tree (M Expression)) (rest : Nodes) (s : SetState)
      → Declares
          (set_get_type_impl type_node s)
          (create_type_def types (type_node ∷ name_node ∷ rest) s)
  unfolding create_type_def
  create_type_def-Declares type_node rest s = go (set_get_type_impl type_node s)
    where
      go : (r : Run TypePtr) → Declares r (and_then r declare)
      go (ok p t) = named p t
      go (error t) = refl
      go (fault f) = refl
