-- ===== src/Driver/Examples.antt =====
-- The theorems on src/compiler.c at two files that import each other.
use mathlib.Core.Path.{subst}
use gemstone.Prelude.{
  inl, inr, Bool-cases, ◌+◌, ◌<◌, ◌≡◌, refl, ◌&&◌, String, true, Option, none, some, List, [], ◌∷◌,
  str_eq, if◌then◌else◌, Table, arith,
}
use gemstone.Ast.{ast_import, ast_decl, tree, nil}
use gemstone.Io.{ModuleFileStack, new_file_stack, push_file}
use gemstone.Opt.Target.{TargetConfig, default_target_config}
use gemstone.Opt.Project.{Toml}
use gemstone.Codegen.{success, implementation}
use gemstone.Driver.Imports.{
  Node, Outside, is_imported, exit_success, exit_failure, compile_module_with_dependencies,
}
use gemstone.Driver.Pending.{size, pending}
use gemstone.Driver.Ends.{Ends, compile_module_with_dependencies-Ends}
use gemstone.Driver.Distinct.{paths, EndsDifferent, compile_module_with_dependencies-EndsDifferent}
use gemstone.Driver.Builds.{Services, build_module, build_named}
use gemstone.Driver.Statuses.{generates, after, build_module-generates, build_named-after}

abbrev import_of : String → Node
import_of name = tree ast_import name tt nil

-- `a.gsc` imports `b`, and `b.gsc` imports `a`.
abbrev parsed : String → Option (List Node)
parsed path =
    if str_eq path "/a.gsc"
    then some (import_of "b" ∷ tree ast_decl "" tt nil ∷ [])
    else if str_eq path "/b.gsc"
    then some (import_of "a" ∷ [])
    else none

abbrev found : String → String → Option String
found directory name =
    if str_eq name "a.gsc"
    then some "/a.gsc"
    else if str_eq name "b.gsc"
    then some "/b.gsc"
    else none

abbrev two_files : Outside
two_files = record { parse = parsed; find = found; dirname = λ path. "/" }

abbrev known : List String
known = "/a.gsc" ∷ "/b.gsc" ∷ []

abbrev InKnown : Option String → Type 0
InKnown none = Unit
InKnown (some p) = is_imported known p ≡ true

found-InKnown : (d n : String) → InKnown (found d n)
unfolding is_imported
found-InKnown d n = elim (Bool-cases (str_eq n "a.gsc")) [
  | inl e ↦ rw e refl
  | inr e ↦ rw e (elim (Bool-cases (str_eq n "b.gsc")) [ inl f ↦ rw f refl | inr f ↦ rw f tt ])
]

found-known : (d n p : String) → found d n ≡ some p → is_imported known p ≡ true
found-known d n p h = subst InKnown h (found-InKnown d n)

few : size two_files "/a.gsc" + pending two_files known [] < 6
unfolding size pending is_imported
few = omega arith

abbrev files : ModuleFileStack
files = push_file new_file_stack "/a.gsc"

compile_module_with_dependencies-Ends_example :
    Ends two_files known found-known
      (compile_module_with_dependencies two_files 6 files ("." ∷ []) "/a.gsc")
compile_module_with_dependencies-Ends_example =
    compile_module_with_dependencies-Ends two_files known found-known files ("." ∷ []) "/a.gsc" 6
      few

compile_module_with_dependencies-EndsDifferent_example :
    EndsDifferent two_files
      (paths files)
      (compile_module_with_dependencies two_files 6 files ("." ∷ []) "/a.gsc")
compile_module_with_dependencies-EndsDifferent_example =
    compile_module_with_dependencies-EndsDifferent two_files known found-known files ("." ∷ [])
      "/a.gsc" 6 few

-- A back end that fails for one target.
abbrev services : Services (List Node)
services = record {
  outside = two_files;
  create_directory = λ path. true;
  create_set = λ children. some children;
  llvm_backend_codegen_init = success;
  llvm_backend_codegen =
      λ children target. if str_eq target.name "good" then success else implementation;
  llvm_backend_codegen_deinit = success;
}

abbrev good : TargetConfig
good = record default_target_config { name = "good"; root_module = some "/a.gsc" }

abbrev bad : TargetConfig
bad = record default_target_config { name = "bad"; root_module = some "/a.gsc" }

abbrev targets : Table TargetConfig
targets = ("good", good) ∷ ("bad", bad) ∷ []

build_module-generates_example :
    build_module services bad []
    ≡ (if true && true && generates services bad (some []) then exit_success else exit_failure)
build_module-generates_example = build_module-generates services bad []

build_named-after_example :
    build_named services 6 targets ("bad" ∷ "good" ∷ []) exit_success new_file_stack
    ≡ after services 6 targets "good"
        (build_named services 6 targets ("bad" ∷ []) exit_success new_file_stack)
build_named-after_example =
    build_named-after services 6 targets ("bad" ∷ []) "good" exit_success new_file_stack

abbrev no_toml : Toml (Unit {0})
no_toml = record {
  string_in = λ t k. none;
  bool_in = λ t k. none;
  int_in = λ t k. none;
  array_in = λ t k. none;
  table_in = λ t k. none;
  ntab = λ t. 0;
  key_in = λ t i. none;
}
