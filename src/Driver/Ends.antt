-- ===== src/Driver/Ends.antt =====
-- The loop over the imports ends: cyclic imports and all, the files that can be found are finitely many.
use gemstone.Prelude.{
  ◌⊎◌, ℕ, zero, suc, ◌+◌, ◌≤◌, ◌<◌, ◌≡◌, refl, String, true, false, ◌||◌, inl, inr, Bool-cases,
  Option, none, some, List, [], ◌∷◌, ◌++◌, if◌then◌else◌, get_elem?, lt_of_get_elem?, length, arith,
}
use gemstone.Ast.{ast_import, ast_include, ◌is◌, kind, value}
use gemstone.Ast.Children.{merge_modules}
use gemstone.Io.{ModuleFileStack, push_file}
use gemstone.Driver.Pending.{Merged, merge_modules-Merged, size, pending, pending-last}
use gemstone.Driver.Imports.{
  Node, Outside, Compilation, is_imported, Round, ended, next, find_in, get_absolute_import_path,
  import_file, import_node, import_round, import_loop, compile_module_with_dependencies,
  exit_success, exit_failure, full_filename,
}

module _ (outside : Outside) where
  module _ (known : List String)
      (finite : (d n p : String) → outside.find d n ≡ some p → is_imported known p ≡ true) where
    -- What is found is known.
    abbrev Known : Option String → Type 0
    Known none = Unit
    Known (some p) = is_imported known p ≡ true

    find_in-Known : (ds : List String) (n : String) → Known (find_in outside ds n)
    unfolding find_in
    find_in-Known [] n = tt
    find_in-Known (d ∷ ds) n = go (outside.find d n) (finite d n) (find_in-Known ds n)
      where
        go :
            (o : Option String)
            → ((p : String) → o ≡ some p → is_imported known p ≡ true)
            → Known (find_in outside ds n)
            → Known (elim o [ none ↦ find_in outside ds n | some p ↦ some p ])
        go none h rec = rec
        go (some p) h rec = h p refl

    -- What a round does to the number of rounds that are still needed.
    abbrev Advances : ℕ → Compilation → Option Round → Type 0
    Advances i c none = ⊥
    Advances i c (some (ended status c')) = (status ≡ exit_success) ⊎ (status ≡ exit_failure)
    Advances i c (some (next c')) =
        (i < length c'.children)
        × (length c'.children + pending outside known c'.imports
            ≤ length c.children + pending outside known c.imports)

    import_file-Advances :
        (i : ℕ) (p : String) (c : Compilation)
        → i < length c.children
        → is_imported known p ≡ true
        → is_imported c.imports p ≡ false
        → Advances i c (import_file outside i p c)
    unfolding import_file size
    import_file-Advances i p c h k l =
        go (outside.parse p) (pending-last outside known c.imports p k l)
      where
        merged :
            (nodes : List Node)
            → pending outside known (c.imports ++ p ∷ []) + length nodes
              ≤ pending outside known c.imports
            → (m : Option (List Node × List Node)) → Merged c.children nodes m
            → Advances i c (elim m [
              | none ↦ none
              | some (children, rest) ↦ some (
                  next (record {
                    files = push_file c.files p;
                    import_paths = c.import_paths ++ outside.dirname p ∷ [];
                    children = children;
                    imports = c.imports ++ p ∷ [];
                  }))
            ])
        merged nodes e none f = f
        merged nodes e (some (children, rest)) f = (omega (arith, f, h), omega (arith, e, f))

        go :
            (o : Option (List Node))
            → pending outside known (c.imports ++ p ∷ [])
                + (elim o [ none ↦ 0 | some nodes ↦ length nodes ])
              ≤ pending outside known c.imports
            → Advances i c (elim o [
              | none ↦ some (ended exit_failure (record c { files = push_file c.files p }))
              | some nodes ↦ elim (merge_modules c.children (suc i) nodes) [
                | none ↦ none
                | some (children, rest) ↦ some (
                    next (record {
                      files = push_file c.files p;
                      import_paths = c.import_paths ++ outside.dirname p ∷ [];
                      children = children;
                      imports = c.imports ++ p ∷ [];
                    }))
              ]
            ])
        go none e = inr refl
        go (some nodes) e =
            merged nodes e (merge_modules c.children (suc i) nodes)
              (merge_modules-Merged c.children (suc i) nodes (omega (arith, h)))

    import_node-Advances :
        (i : ℕ) (child : Node) (c : Compilation)
        → i < length c.children
        → Advances i c (import_node outside i child c)
    unfolding import_node get_absolute_import_path
    import_node-Advances i child c h =
        elim (Bool-cases (kind child is ast_import || kind child is ast_include)) [
          | inl e ↦ rw e (
              go (find_in outside c.import_paths (full_filename (value child)))
                (find_in-Known c.import_paths (full_filename (value child))))
          | inr e ↦ rw e (h, omega arith)
        ]
      where
        go :
            (o : Option String)
            → Known o
            → Advances i c (elim o [
              | none ↦ some (ended exit_failure c)
              | some path ↦
                  if is_imported c.imports path then some (next c) else import_file outside i path c
            ])
        go none k = inr refl
        go (some p) k = elim (Bool-cases (is_imported c.imports p)) [
          | inl e ↦ rw e (h, omega arith)
          | inr e ↦ rw e (import_file-Advances i p c h k e)
        ]

    import_round-Advances : (i : ℕ) (c : Compilation) → Advances i c (import_round outside i c)
    unfolding import_round
    import_round-Advances i c = go (get_elem? c.children i) (lt_of_get_elem? c.children i)
      where
        go :
            (o : Option Node)
            → ((child : Node) → o ≡ some child → i < length c.children)
            → Advances i c (elim o [
              | none ↦ some (ended exit_success c)
              | some child ↦ import_node outside i child c
            ])
        go none h = inl refl
        go (some child) h = import_node-Advances i child c (h child refl)

    -- It ends with a status, by no failed assertion.
    abbrev pub Ends : Option (ℕ × Compilation) → Type 0
    Ends none = ⊥
    Ends (some (status, c)) = (status ≡ exit_success) ⊎ (status ≡ exit_failure)

    import_loop-Ends :
        (fuel i : ℕ) (c : Compilation)
        → i ≤ length c.children
        → length c.children + pending outside known c.imports < fuel + i
        → Ends (import_loop outside fuel i c)
    unfolding import_loop
    import_loop-Ends zero i c h k = absurd (omega (arith, h, k))
    import_loop-Ends (suc fuel) i c h k =
        go (import_round outside i c) (import_round-Advances i c) (import_loop-Ends fuel (suc i))
      where
        go :
            (r : Option Round)
            → Advances i c r
            → ((c' : Compilation)
                → suc i ≤ length c'.children
                → length c'.children + pending outside known c'.imports < fuel + suc i
                → Ends (import_loop outside fuel (suc i) c'))
            → Ends (elim r [
              | none ↦ none
              | some (ended status c') ↦ some (status, c')
              | some (next c') ↦ import_loop outside fuel (suc i) c'
            ])
        go none a rec = a
        go (some (ended status c')) a rec = a
        go (some (next c')) (a, b) rec = rec c' (omega (arith, a)) (omega (arith, b, k))

    -- Where the files that can be found are known, finitely many, `compile_module_with_dependencies` ends
    -- with a status in as many rounds as the file and the known files have children together, and one
    -- more: files that import each other are no obstacle, and no assertion fails.
    pub compile_module_with_dependencies-Ends :
        (files : ModuleFileStack) (import_paths : List String) (path : String) (fuel : ℕ)
        → size outside path + pending outside known [] < fuel
        → Ends (compile_module_with_dependencies outside fuel files import_paths path)
    unfolding compile_module_with_dependencies size
    compile_module_with_dependencies-Ends files import_paths path fuel h = go (outside.parse path) h
      where
        go :
            (o : Option (List Node))
            → (elim o [ none ↦ 0 | some nodes ↦ length nodes ]) + pending outside known [] < fuel
            → Ends (elim o [
              | none ↦ some (
                exit_failure,
                record { files = files; import_paths = import_paths; children = []; imports = [] },
              )
              | some nodes ↦ import_loop outside fuel 0 (record {
                files = files;
                import_paths = import_paths;
                children = nodes;
                imports = [];
              })
            ])
        go none k = inr refl
        go (some nodes) k = import_loop-Ends fuel 0 _ (omega arith) (omega (arith, k))
