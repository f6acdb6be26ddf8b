-- ===== src/Driver/Imports.antt =====
-- Modules and what they import: `get_absolute_import_path` and `compile_module_with_dependencies` of
-- src/compiler.c.
use Prim.Native.String.{◌++◌ as join}
use gemstone.Prelude.{
  ℕ, zero, suc, String, Bool, false, ◌||◌, Option, none, some, List, [], ◌∷◌, ◌++◌, str_eq,
  if◌then◌else◌, get_elem?,
}
use gemstone.Ast.{ast_import, ast_include, ◌is◌, Tree, kind, value}
use gemstone.Ast.Children.{merge_modules}
use gemstone.Io.{ModuleFileStack, push_file}

abbrev pub Node : Type 0
Node = Tree (Unit {0})

-- What is outside: `compile_file_to_ast` with the parser gives the children of the module of a file, or
-- fails; `find` is the canonical path of a name in a directory, if there is such a file and
-- it is no directory; `dirname` is `g_path_get_dirname`.
pub record Outside : Type 0 where
  pub parse : String → Option (List Node)
  pub find : String → String → Option String
  pub dirname : String → String

-- `EXIT_SUCCESS` and `EXIT_FAILURE`.
abbrev pub exit_success : ℕ
exit_success = 0

abbrev pub exit_failure : ℕ
exit_failure = 1

-- `g_str_has_suffix(name, ".gsc")`.
unfoldable pub has_suffix : String → Bool
has_suffix String.[] = false
has_suffix (String.◌∷◌ c s) = str_eq (String.◌∷◌ c s) ".gsc" || has_suffix s

abbrev pub full_filename : String → String
full_filename name = if has_suffix name then name else join name ".gsc"

-- The first of the directories that holds the file.
unfoldable pub find_in : Outside → List String → String → Option String
find_in outside [] name = none
find_in outside (directory ∷ directories) name = elim (outside.find directory name) [
  | none ↦ find_in outside directories name
  | some path ↦ some path
]

-- `get_absolute_import_path`.
unfoldable pub get_absolute_import_path : Outside → List String → String → Option String
get_absolute_import_path outside import_paths import_target_name =
    find_in outside import_paths (full_filename import_target_name)

-- The files, the import paths of the target, the children of the root module, and the table `imports`.
pub record Compilation : Type 0 where
  pub files : ModuleFileStack
  pub import_paths : List String
  pub children : List Node
  pub imports : List String

-- `g_hash_table_contains(imports, path)`.
unfoldable pub is_imported : List String → String → Bool
is_imported [] path = false
is_imported (p ∷ imports) path = str_eq p path || is_imported imports path

-- How a round of the loop ends: with a status, or with the state for the next round.
pub data Round : Type 0 where
  ended : ℕ → Compilation → Round
  next : Compilation → Round

-- The import of a file that was not imported before. A position behind the end is a failed assertion, `none`.
unfoldable pub import_file : Outside → ℕ → String → Compilation → Option Round
import_file outside i path c =
    let pushed = push_file c.files path in
    elim (outside.parse path) [
      | none ↦ some (ended exit_failure (record c { files = pushed }))
      | some nodes ↦ elim (merge_modules c.children (suc i) nodes) [
        | none ↦ none
        | some (children, rest) ↦ some (
            next (record {
              files = pushed;
              import_paths = c.import_paths ++ outside.dirname path ∷ [];
              children = children;
              imports = c.imports ++ path ∷ [];
            }))
      ]
    ]

unfoldable pub import_node : Outside → ℕ → Node → Compilation → Option Round
import_node outside i child c =
    if kind child is ast_import || kind child is ast_include
    then elim (get_absolute_import_path outside c.import_paths (value child)) [
      | none ↦ some (ended exit_failure c)
      | some path ↦
          if is_imported c.imports path then some (next c) else import_file outside i path c
    ]
    else some (next c)

-- The body of the loop at a position; behind the last child the loop has ended.
unfoldable pub import_round : Outside → ℕ → Compilation → Option Round
import_round outside i c = elim (get_elem? c.children i) [
  | none ↦ some (ended exit_success c)
  | some child ↦ import_node outside i child c
]

-- The loop from a position on, in a number of rounds; `none` is a failed assertion or too few rounds.
unfoldable pub import_loop : Outside → ℕ → ℕ → Compilation → Option (ℕ × Compilation)
import_loop outside zero i c = none
import_loop outside (suc fuel) i c = elim (import_round outside i c) [
  | none ↦ none
  | some (ended status c') ↦ some (status, c')
  | some (next c') ↦ import_loop outside fuel (suc i) c'
]

-- `compile_module_with_dependencies` of the file at a path, which is on the stack already.
unfoldable pub compile_module_with_dependencies :
    Outside → ℕ → ModuleFileStack → List String → String → Option (ℕ × Compilation)
compile_module_with_dependencies outside fuel files import_paths path =
    let start : List Node → Compilation = λ nodes. record {
      files = files;
      import_paths = import_paths;
      children = nodes;
      imports = [];
    } in
    elim (outside.parse path) [
      | none ↦ some (exit_failure, start [])
      | some nodes ↦ import_loop outside fuel 0 (start nodes)
    ]
