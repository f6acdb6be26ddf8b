-- ===== src/Opt/Examples.antt =====
-- The theorems on src/cfg/opt.c at small command lines and project files.
use Prim.Native.Nat.{zero, suc}
use mathlib.Core.List.Perm
use gemstone.Prelude.{
  suc, ℕ, ◌≡◌, refl, String, true, false, ◌||◌, Option, none, some, List, [], ◌∷◌, str_eq,
  if◌then◌else◌, lookup, insert, is_some,
}
use gemstone.Opt.Arguments.{
  Argument, parse_argument, parse_options, parse_from, get_option, get_non_options_after,
  has_dashes, before_equals, after_equals,
}
use gemstone.Opt.Arguments.Lookup.{last_named, get_option-parse_options}
use gemstone.Opt.Arguments.RoundTrip.{print_argument, lacks_equals, parse_argument-print_argument}
use gemstone.Opt.Arguments.Files.{times, is_file, is_empty_array, get_non_options_after-count}
use gemstone.Opt.Target.{option_value, configured, default_target_config_from_args}
use gemstone.Opt.Target.Paths.{value_paths, value_has_comma, default_target_config_from_args-ends}
use gemstone.Opt.Project.{
  Toml, default_project_config, project_ok, project_semantic_err, parse_project_table,
  load_project_config,
}
use gemstone.Opt.Project.Names.{name_read, parse_project_table-name}
use gemstone.Opt.Project.Loads.{Loaded, has_version, load_project_config-Loaded}

abbrev command_line : List String
command_line =
    "gsc" ∷ "compile" ∷ "--mode=lib" ∷ "--link-paths=a,b" ∷ "main.gsc" ∷ "--mode=app" ∷ []

last_mode :
    get_option (parse_options command_line) "mode"
    ≡ some (record { index = 5; string = "mode"; value = some "app"; is_opt = true })
unfolding get_option parse_options parse_from parse_argument has_dashes before_equals after_equals
    lookup insert
last_mode = refl

get_option-parse_options_example :
    get_option (parse_options command_line) "mode" ≡ last_named "mode" 0 command_line
get_option-parse_options_example = get_option-parse_options command_line "mode"

abbrev output : Argument
output = record { index = 0; string = "output"; value = some "a=b"; is_opt = true }

output_lacks : lacks_equals "output" ≡ true
unfolding lacks_equals
output_lacks = refl

parse_argument-print_argument_example :
    parse_argument 3 (print_argument output) ≡ record output { index = 3 }
parse_argument-print_argument_example = parse_argument-print_argument 3 output output_lacks refl

get_non_options_after-count_example :
    (times (get_non_options_after (λ args. args) (parse_options command_line) "compile") "main.gsc"
      ≡ (if is_file (last_named "compile" 0 command_line) (last_named "main.gsc" 0 command_line)
          then 1
          else 0))
    × (is_empty_array (get_non_options_after (λ args. args) (parse_options command_line) "compile")
        ≡ false)
get_non_options_after-count_example =
    get_non_options_after-count (λ args. args) Perm.refl command_line "compile" "main.gsc"

main_is_file :
    is_file (last_named "compile" 0 command_line) (last_named "main.gsc" 0 command_line) ≡ true
unfolding last_named parse_argument has_dashes before_equals after_equals
main_is_file = refl

default_target_config_from_args-ends_example :
    default_target_config_from_args (λ args. args) "/home" 100 (parse_options command_line) ≡ (
      if value_has_comma (option_value (parse_options command_line) "link-paths")
        || value_has_comma (option_value (parse_options command_line) "import-paths")
      then none
      else some (
          configured
            (λ args. args)
            "/home"
            (parse_options command_line)
            (value_paths (option_value (parse_options command_line) "link-paths"))
            (value_paths (option_value (parse_options command_line) "import-paths"))))
default_target_config_from_args-ends_example =
    default_target_config_from_args-ends (λ args. args) "/home" 99 (parse_options command_line)

-- Tables of texts and tables.
data Tree : Type 0 where
  leaf : Tree
  text : String → String → Tree → Tree
  table : String → Tree → Tree → Tree

unfoldable text_in : Tree → String → Option String
text_in leaf k = none
text_in (text j s t) k = if str_eq j k then some s else text_in t k
text_in (table j u t) k = text_in t k

unfoldable subtable : Tree → String → Option Tree
subtable leaf k = none
subtable (text j s t) k = subtable t k
subtable (table j u t) k = if str_eq j k then some u else subtable t k

unfoldable key_at : Tree → ℕ → Option String
key_at leaf i = none
key_at (text j s t) i = key_at t i
key_at (table j u t) zero = some j
key_at (table j u t) (suc i) = key_at t i

unfoldable tables : Tree → ℕ
tables leaf = 0
tables (text j s t) = tables t
tables (table j u t) = suc (tables t)

abbrev trees : Toml Tree
trees = record {
  string_in = text_in;
  bool_in = λ t k. none;
  int_in = λ t k. none;
  array_in = λ t k. none;
  table_in = subtable;
  ntab = tables;
  key_in = key_at;
}

abbrev project : Tree
project = text "name" "compiler" leaf

abbrev two_targets : Tree
two_targets =
    table "debug" (text "mode" "application" leaf) (table "bad" (text "mode" "app" leaf) leaf)

named_but_rejected :
    (parse_project_table Tree trees project default_project_config).0 ≡ project_semantic_err
unfolding parse_project_table text_in
named_but_rejected = refl

parse_project_table-name_example :
    ((parse_project_table Tree trees project default_project_config).0
      ≡ (if is_some (text_in project "version") then project_ok else project_semantic_err))
    × ((parse_project_table Tree trees project default_project_config).1.name
        ≡ name_read (text_in project "version") (text_in project "name"))
    × ((parse_project_table Tree trees project default_project_config).1.version ≡ none)
parse_project_table-name_example =
    parse_project_table-name Tree trees project default_project_config refl

abbrev file : Tree
file = table "project" (text "version" "1.0" leaf) (table "target" two_targets leaf)

load_project_config-Loaded_example :
    Loaded Tree trees
      (has_version Tree trees (subtable file "project"))
      (subtable file "target")
      (load_project_config Tree trees "/home" (some file) default_project_config)
load_project_config-Loaded_example = load_project_config-Loaded Tree trees "/home" file
