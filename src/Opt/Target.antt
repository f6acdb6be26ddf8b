-- ===== src/Opt/Target.antt =====
-- Targets: `default_target_config` and `default_target_config_from_args` of src/cfg/opt.c.
pub mod Paths
use Prim.Native.Char.{code}
use gemstone.Prelude.{
  ℕ, suc, zero, String, Bool, true, false, ◌||◌, Option, none, some, List, [], ◌∷◌, ◌++◌, ◌==◌, ltb,
  str_eq, if◌then◌else◌,
}
use gemstone.Opt.Arguments.{Argument, Arguments, is_option_set, get_option, get_non_options_after}

-- `TargetCompilationMode`.
pub data TargetCompilationMode : Type 0 where
  application library : TargetCompilationMode

-- `TargetConfig`. A `NULL` text is `none`.
pub record TargetConfig : Type 0 where
  pub name : String
  pub print_ast : Bool
  pub print_asm : Bool
  pub print_ir : Bool
  pub root_module : Option String
  pub output_directory : String
  pub archive_directory : String
  pub driver : String
  pub mode : TargetCompilationMode
  -- an `int`, by its bits in two's complement
  pub optimization_level : ℕ
  pub link_search_paths : List String
  pub lld_fatal_warnings : Bool
  pub gsc_fatal_warnings : Bool
  pub import_paths : List String

-- A call of `print_message`, with its format.
pub data Message : Type 0 where
  warning error : String → Message

abbrev pub default_target_config : TargetConfig
default_target_config = record {
  name = "out";
  print_ast = false;
  print_asm = false;
  print_ir = false;
  root_module = none;
  output_directory = "bin";
  archive_directory = "archive";
  driver = "clang";
  mode = application;
  optimization_level = 1;
  link_search_paths = [];
  lld_fatal_warnings = false;
  gsc_fatal_warnings = false;
  import_paths = [];
}

-- `strchr(start, ',')`: the text before the first comma, and that from it on.
unfoldable pub find_comma : String → Option (String × String)
find_comma String.[] = none
find_comma (String.◌∷◌ c s) =
    if code c == b','
    then some (String.[], String.◌∷◌ c s)
    else elim (find_comma s) [ none ↦ none | some (p, rest) ↦ some (String.◌∷◌ c p, rest) ]

-- The rest behind the last comma found is a path, if it is not empty.
abbrev pub last_path : String → List String
last_path String.[] = []
last_path (String.◌∷◌ c s) = String.◌∷◌ c s ∷ []

-- The loop over the text of `link-paths`, and that of `import-paths`, in a number of rounds: the paths
-- that are appended. It goes on from `start = end`.
unfoldable pub split_paths : ℕ → String → Option (List String)
split_paths zero start = none
split_paths (suc fuel) start = elim (find_comma start) [
  | none ↦ some (last_path start)
  | some (path, end) ↦ elim (split_paths fuel end) [
    | none ↦ none
    | some paths ↦ some (path ∷ paths)
  ]
]

-- The paths of an option.
unfoldable pub option_paths : ℕ → Arguments → String → Option (List String)
option_paths fuel args name = elim (get_option args name) [
  | none ↦ some []
  | some option ↦ elim option.value [ none ↦ some [] | some value ↦ split_paths fuel value ]
]

-- The value of an option, if it has one.
unfoldable pub option_value : Arguments → String → Option String
option_value args name = elim (get_option args name) [ none ↦ none | some option ↦ option.value ]

abbrev pub or_default : {A : Type 0} → A → Option A → A
or_default x none = x
or_default x (some y) = y

-- The mode that is written, or the default with a warning.
unfoldable pub mode_from_value : Option String → TargetCompilationMode × List Message
mode_from_value none = (application, [])
mode_from_value (some value) =
    if str_eq value "app"
    then (application, [])
    else if str_eq value "lib"
    then (library, [])
    else (application, warning "Invalid compilation mode: %s" ∷ [])

-- The root module from the files behind `compile`.
unfoldable pub root_from_files : Option (List String) → Option String × List Message
root_from_files none = (none, error "No input file provided." ∷ [])
root_from_files (some []) = (none, [])
root_from_files (some (f ∷ [])) = (some f, [])
root_from_files (some (f ∷ g ∷ fs)) =
    (some f, warning "Got more than one file to compile, using first, ignoring others." ∷ [])

module _ (iterate : Arguments → List (String × Argument)) (cwd : String) where
  abbrev pub configured : Arguments → List String → List String → TargetConfig × List Message
  configured args link_paths import_paths =
      let fatal_warnings = is_option_set args "all-fatal-warnings" in
      let (mode, mode_messages) = mode_from_value (option_value args "mode") in
      let (root, root_messages) = root_from_files (get_non_options_after iterate args "compile") in
      (
        record {
          name = or_default "out" (option_value args "output");
          print_ast = is_option_set args "print-ast";
          print_asm = is_option_set args "print-asm";
          print_ir = is_option_set args "print-ir";
          root_module = root;
          output_directory = "bin";
          archive_directory = "archive";
          driver = or_default "clang" (option_value args "driver");
          mode = mode;
          optimization_level = 1;
          link_search_paths = cwd ∷ link_paths;
          lld_fatal_warnings = fatal_warnings || is_option_set args "lld-fatal-warnings";
          gsc_fatal_warnings = fatal_warnings || is_option_set args "gsc-fatal-warnings";
          import_paths = "." ∷ import_paths;
        },
        mode_messages ++ root_messages,
      )

  -- `default_target_config_from_args`, where the two loops end in a number of rounds.
  unfoldable pub default_target_config_from_args :
      ℕ → Arguments → Option (TargetConfig × List Message)
  default_target_config_from_args fuel args = elim (option_paths fuel args "link-paths") [
    | none ↦ none
    | some link_paths ↦ elim (option_paths fuel args "import-paths") [
      | none ↦ none
      | some import_paths ↦ some (configured args link_paths import_paths)
    ]
  ]
