-- ===== src/Driver/Distinct.antt =====
-- No file is imported twice.
use gemstone.Prelude.{
  ℕ, zero, suc, ◌+◌, ◌<◌, ◌≡◌, refl, ◌∙◌, ap, String, Bool, true, false, ◌&&◌, ◌||◌, not, inl, inr,
  Bool-cases, Option, none, some, List, [], ◌∷◌, ◌++◌, eq_iff, if◌then◌else◌, get_elem?, arith,
}
use gemstone.Ast.{ast_import, ast_include, ◌is◌, kind, value}
use gemstone.Ast.Children.{merge_modules}
use gemstone.Io.{ModuleFile, ModuleFileStack, push_file}
use gemstone.Driver.Imports.{
  Node, Outside, Compilation, is_imported, Round, ended, next, exit_success, exit_failure,
  get_absolute_import_path, import_file, import_node, import_round, import_loop,
  compile_module_with_dependencies,
}
use gemstone.Driver.Pending.{is_imported-last, size, pending}
use gemstone.Driver.Ends.{Ends, compile_module_with_dependencies-Ends}

-- No text is there twice.
unfoldable pub is_distinct : List String → Bool
is_distinct [] = true
is_distinct (p ∷ ps) = not (is_imported ps p) && is_distinct ps

is_distinct-last :
    (ps : List String) (p : String)
    → is_distinct ps ≡ true
    → is_imported ps p ≡ false
    → is_distinct (ps ++ p ∷ []) ≡ true
unfolding is_distinct is_imported
is_distinct-last [] p h k = refl
is_distinct-last (q ∷ ps) p h k =
    ground (arith, h, k, is_imported-last ps p q, is_distinct-last ps p, eq_iff p q, eq_iff q p)

unfoldable pub paths_of : List ModuleFile → List String
paths_of [] = []
paths_of (file ∷ files) = file.path ∷ paths_of files

-- The paths of the files on a stack.
abbrev pub paths : ModuleFileStack → List String
paths none = []
paths (some files) = paths_of files

paths_of-last :
    (files : List ModuleFile) (file : ModuleFile)
    → paths_of (files ++ file ∷ []) ≡ paths_of files ++ file.path ∷ []
unfolding paths_of
paths_of-last [] file = refl
paths_of-last (f ∷ files) file = ap (λ ps. f.path ∷ ps) (paths_of-last files file)

paths-push_file :
    (files : ModuleFileStack) (p : String) → paths (push_file files p) ≡ paths files ++ p ∷ []
unfolding push_file paths_of
paths-push_file none p = refl
paths-push_file (some files) p = paths_of-last files _

append_last : (xs ys : List String) (p : String) → (xs ++ ys) ++ p ∷ [] ≡ xs ++ (ys ++ p ∷ [])
append_last [] ys p = refl
append_last (x ∷ xs) ys p = ap (λ zs. x ∷ zs) (append_last xs ys p)

module _ (outside : Outside) (old : List String) where
  -- The files behind the old ones are those imported, no one twice.
  abbrev IsOnce : Compilation → Type 0
  IsOnce c = (is_distinct c.imports ≡ true) × (paths c.files ≡ old ++ c.imports)

  -- The files behind the old ones are different.
  abbrev pub AreDifferent : ModuleFileStack → Type 0
  AreDifferent files = (ps : List String) × (is_distinct ps ≡ true) × (paths files ≡ old ++ ps)

  abbrev KeepsOnce : Option Round → Type 0
  KeepsOnce none = Unit
  KeepsOnce (some (ended status c)) = AreDifferent c.files
  KeepsOnce (some (next c)) = IsOnce c

  pushed_paths :
      (files : ModuleFileStack) (ps : List String) (p : String)
      → paths files ≡ old ++ ps
      → paths (push_file files p) ≡ old ++ (ps ++ p ∷ [])
  pushed_paths files ps p h = paths-push_file files p ∙ rw h (append_last old ps p)

  import_file-KeepsOnce :
      (i : ℕ) (p : String) (c : Compilation)
      → IsOnce c
      → is_imported c.imports p ≡ false
      → KeepsOnce (import_file outside i p c)
  unfolding import_file
  import_file-KeepsOnce i p c (d, e) k = go (outside.parse p)
    where
      merged :
          (m : Option (List Node × List Node))
          → KeepsOnce (elim m [
            | none ↦ none
            | some (children, rest) ↦ some (
                next (record {
                  files = push_file c.files p;
                  import_paths = c.import_paths ++ outside.dirname p ∷ [];
                  children = children;
                  imports = c.imports ++ p ∷ [];
                }))
          ])
      merged none = tt
      merged (some (children, rest)) =
          (is_distinct-last c.imports p d k, pushed_paths c.files c.imports p e)

      go :
          (o : Option (List Node))
          → KeepsOnce (elim o [
            | none ↦ some (ended exit_failure (record c { files = push_file c.files p }))
            | some nodes ↦ elim (merge_modules c.children (suc i) nodes) [
              | none ↦ none
              | some (children, rest) ↦ some (
                  next (record {
                    files = push_file c.files p;
                    import_paths = c.import_paths ++ outside.dirname p ∷ [];
                    children = children;
                    imports = c.imports ++ p ∷ [];
                  }))
            ]
          ])
      go none = (
        c.imports ++ p ∷ [],
        is_distinct-last c.imports p d k,
        pushed_paths c.files c.imports p e,
      )
      go (some nodes) = merged (merge_modules c.children (suc i) nodes)

  import_node-KeepsOnce :
      (i : ℕ) (child : Node) (c : Compilation)
      → IsOnce c
      → KeepsOnce (import_node outside i child c)
  unfolding import_node
  import_node-KeepsOnce i child c (d, e) =
      elim (Bool-cases (kind child is ast_import || kind child is ast_include)) [
        | inl t ↦ rw t (go (get_absolute_import_path outside c.import_paths (value child)))
        | inr t ↦ rw t (d, e)
      ]
    where
      go :
          (o : Option String)
          → KeepsOnce (elim o [
            | none ↦ some (ended exit_failure c)
            | some path ↦
                if is_imported c.imports path then some (next c) else import_file outside i path c
          ])
      go none = (c.imports, d, e)
      go (some p) = elim (Bool-cases (is_imported c.imports p)) [
        | inl t ↦ rw t (d, e)
        | inr t ↦ rw t (import_file-KeepsOnce i p c (d, e) t)
      ]

  import_round-KeepsOnce :
      (i : ℕ) (c : Compilation) → IsOnce c → KeepsOnce (import_round outside i c)
  unfolding import_round
  import_round-KeepsOnce i c (d, e) = go (get_elem? c.children i)
    where
      go :
          (o : Option Node)
          → KeepsOnce (elim o [
            | none ↦ some (ended exit_success c)
            | some child ↦ import_node outside i child c
          ])
      go none = (c.imports, d, e)
      go (some child) = import_node-KeepsOnce i child c (d, e)

  abbrev Different : Option (ℕ × Compilation) → Type 0
  Different none = Unit
  Different (some (status, c)) = AreDifferent c.files

  import_loop-Different :
      (fuel i : ℕ) (c : Compilation) → IsOnce c → Different (import_loop outside fuel i c)
  unfolding import_loop
  import_loop-Different zero i c h = tt
  import_loop-Different (suc fuel) i c h =
      go (import_round outside i c) (import_round-KeepsOnce i c h)
        (import_loop-Different fuel (suc i))
    where
      go :
          (r : Option Round)
          → KeepsOnce r
          → ((c' : Compilation) → IsOnce c' → Different (import_loop outside fuel (suc i) c'))
          → Different (elim r [
            | none ↦ none
            | some (ended status c') ↦ some (status, c')
            | some (next c') ↦ import_loop outside fuel (suc i) c'
          ])
      go none k rec = tt
      go (some (ended status c')) k rec = k
      go (some (next c')) k rec = rec c' k

  -- It ends, and the files behind the old ones are different.
  abbrev pub EndsDifferent : Option (ℕ × Compilation) → Type 0
  EndsDifferent none = ⊥
  EndsDifferent (some (status, c)) = AreDifferent c.files

append_none : (xs : List String) → xs ≡ xs ++ []
append_none [] = refl
append_none (x ∷ xs) = ap (λ ys. x ∷ ys) (append_none xs)

compile_module_with_dependencies-Different :
    (outside : Outside) (files : ModuleFileStack) (import_paths : List String) (path : String)
    (fuel : ℕ)
    → Different outside
        (paths files)
        (compile_module_with_dependencies outside fuel files import_paths path)
unfolding compile_module_with_dependencies is_distinct
compile_module_with_dependencies-Different outside files import_paths path fuel =
    go (outside.parse path)
  where
    go :
        (o : Option (List Node))
        → Different outside (paths files) (elim o [
          | none ↦ some (
            exit_failure,
            record { files = files; import_paths = import_paths; children = []; imports = [] },
          )
          | some nodes ↦ import_loop outside fuel 0 (record {
            files = files;
            import_paths = import_paths;
            children = nodes;
            imports = [];
          })
        ])
    go none = ([], refl, append_none (paths files))
    go (some nodes) =
        import_loop-Different outside (paths files) fuel 0 _ (refl, append_none (paths files))

-- Where the files that can be found are known, finitely many, `compile_module_with_dependencies` ends
-- in as many rounds as the file and the known files have children together, and one more; whatever its
-- status, the paths of the files that it has pushed behind those on the stack are different from each other.
pub compile_module_with_dependencies-EndsDifferent :
    (outside : Outside) (known : List String)
    (finite : (d n p : String) → outside.find d n ≡ some p → is_imported known p ≡ true)
    (files : ModuleFileStack) (import_paths : List String) (path : String) (fuel : ℕ)
    → size outside path + pending outside known [] < fuel
    → EndsDifferent outside
        (paths files)
        (compile_module_with_dependencies outside fuel files import_paths path)
compile_module_with_dependencies-EndsDifferent outside known finite files import_paths path fuel h =
    go (compile_module_with_dependencies outside fuel files import_paths path)
      (compile_module_with_dependencies-Ends outside known finite files import_paths path fuel h)
      (compile_module_with_dependencies-Different outside files import_paths path fuel)
  where
    go :
        (r : Option (ℕ × Compilation))
        → Ends outside known finite r
        → Different outside (paths files) r
        → EndsDifferent outside (paths files) r
    go none e d = e
    go (some (status, c)) e d = d
