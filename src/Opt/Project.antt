-- ===== src/Opt/Project.antt =====
-- Project files: `get_bool` to `load_project_config` of src/cfg/opt.c. The TOML library is a parameter.
pub mod Names
pub mod Targets
pub mod Loads
use gemstone.Prelude.{
  ℕ, suc, zero, ◌+◌, ◌%◌, String, Bool, true, false, Option, none, some, List, [], ◌∷◌, ◌++◌, ◌==◌,
  str_eq, if◌then◌else◌, Table, insert,
}
use gemstone.Opt.Target.{
  TargetCompilationMode, application, library, TargetConfig, Message, warning, error,
  default_target_config,
}

-- What is read of a table. An array is given by its elements, a text or none, and an `int64_t` by its bits
-- in two's complement, as a number below 2^64.
pub record Toml (T : Type 0) : Type 0 where
  pub string_in : T → String → Option String
  pub bool_in : T → String → Option Bool
  pub int_in : T → String → Option ℕ
  pub array_in : T → String → Option (List (Option String))
  pub table_in : T → String → Option T
  pub ntab : T → ℕ
  pub key_in : T → ℕ → Option String

-- `ProjectConfig`. A `NULL` is `none`.
pub record ProjectConfig : Type 0 where
  pub name : Option String
  pub desc : Option String
  pub version : Option String
  pub license : Option String
  pub authors : Option (List String)
  pub targets : Option (Table TargetConfig)

abbrev pub default_project_config : ProjectConfig
default_project_config = record {
  name = none;
  desc = none;
  version = none;
  license = none;
  authors = none;
  targets = none;
}

abbrev pub project_ok : ℕ
project_ok = 0

abbrev pub project_semantic_err : ℕ
project_semantic_err = 2

-- What `get_bool`, `get_str` and `get_int` leave in the place that they are given.
abbrev pub get_datum : {A : Type 0} → A → Option A → A
get_datum old none = old
get_datum old (some x) = x

abbrev pub get_text : Option String → Option String → Option String
get_text old none = old
get_text old (some s) = some s

-- The `int64_t` as an `int`; both are given by their bits in two's complement.
abbrev pub get_int : ℕ → Option ℕ → ℕ
get_int old none = old
get_int old (some i) = i % 4294967296

-- The texts of an array.
unfoldable pub texts : List (Option String) → List String
texts [] = []
texts (none ∷ elements) = texts elements
texts (some s ∷ elements) = s ∷ texts elements

-- `get_array`.
abbrev pub get_array : List String → Option (List (Option String)) → List String
get_array array none = array
get_array array (some elements) = array ++ texts elements

-- The loop over the authors ends at the first that is no text.
unfoldable pub leading_texts : List (Option String) → List String
leading_texts [] = []
leading_texts (none ∷ elements) = []
leading_texts (some s ∷ elements) = s ∷ leading_texts elements

abbrev pub get_authors : Option (List String) → Option (List (Option String)) → Option (List String)
get_authors old none = old
get_authors old (some elements) = some (leading_texts elements)

-- `get_mode_from_str`: the status and the mode. To compare with `NULL` is undefined.
unfoldable pub get_mode_from_str :
    TargetCompilationMode → Option String → Option (ℕ × TargetCompilationMode)
get_mode_from_str mode none = none
get_mode_from_str mode (some name) = some (
    if str_eq name "application"
    then (project_ok, application)
    else if str_eq name "library"
    then (project_ok, library)
    else (project_semantic_err, mode))

module _ (T : Type 0) (toml : Toml T) where
  -- The rest of `parse_project_table`, with the name that it has read.
  abbrev pub described : T → Option String → ProjectConfig → ProjectConfig
  described table name config = record config {
    name = get_text name (toml.string_in table "name");
    authors = get_authors config.authors (toml.array_in table "authors");
    desc = get_text config.desc (toml.string_in table "description");
    license = get_text config.license (toml.string_in table "license");
  }

  -- `parse_project_table`. The key of the first text read is `version`.
  unfoldable pub parse_project_table : T → ProjectConfig → ℕ × ProjectConfig
  parse_project_table table config = elim (get_text config.name (toml.string_in table "version")) [
    | none ↦ (project_semantic_err, record config { name = none })
    | some name ↦ (project_ok, described table (some name) config)
  ]

  module _ (cwd : String) where
    abbrev pub target_of : T → String → TargetCompilationMode → TargetConfig
    target_of table name mode = record {
      name = name;
      print_ast = get_datum false (toml.bool_in table "print_ast");
      print_asm = get_datum false (toml.bool_in table "print_asm");
      print_ir = get_datum false (toml.bool_in table "print_ir");
      root_module = get_text none (toml.string_in table "root");
      output_directory = get_datum "bin" (toml.string_in table "output");
      archive_directory = get_datum "archive" (toml.string_in table "archive");
      driver = get_datum "clang" (toml.string_in table "driver");
      mode = mode;
      optimization_level = get_int 1 (toml.int_in table "opt");
      link_search_paths = get_array (cwd ∷ []) (toml.array_in table "link-paths");
      lld_fatal_warnings = get_datum false (toml.bool_in table "lld_fatal_warnings");
      gsc_fatal_warnings = get_datum false (toml.bool_in table "gsc_fatal_warnings");
      import_paths = get_array (cwd ∷ []) (toml.array_in table "import-paths");
    }

    -- `parse_target`: the status, and the targets. What reads from `NULL` is undefined.
    unfoldable pub parse_target :
        Option T → String → Table TargetConfig → Option (ℕ × Table TargetConfig)
    parse_target none name targets = none
    parse_target (some table) name targets =
        elim (get_mode_from_str application (toml.string_in table "mode")) [
          | none ↦ none
          | some (err, mode) ↦ some (
              if err == project_ok
              then (project_ok, insert targets name (target_of table name mode))
              else (err, targets))
        ]

    -- The loop of `parse_targets` over some of the keys, from a position on. The status is dropped.
    unfoldable pub parse_each : ℕ → ℕ → T → Table TargetConfig → Option (Table TargetConfig)
    parse_each zero i table targets = some targets
    parse_each (suc n) i table targets = elim (toml.key_in table i) [
      | none ↦ some targets
      | some key ↦ elim (parse_target (toml.table_in table key) key targets) [
        | none ↦ none
        | some (err, targets') ↦ parse_each n (suc i) table targets'
      ]
    ]

    -- `parse_targets`.
    unfoldable pub parse_targets : T → ProjectConfig → Option (ℕ × ProjectConfig)
    parse_targets root config = elim (toml.table_in root "target") [
      | none ↦ some (project_semantic_err, config)
      | some table ↦ elim (parse_each (toml.ntab table) 0 table []) [
        | none ↦ none
        | some targets ↦ some (project_ok, record config { targets = some targets })
      ]
    ]

    -- `load_project_config` on a file that is parsed; one that is missing or invalid is an error.
    unfoldable pub load_project_config : Option T → ProjectConfig → Option (ℕ × ProjectConfig)
    load_project_config none config = some (project_semantic_err, config)
    load_project_config (some conf) config = elim (toml.table_in conf "project") [
      | none ↦ some (project_semantic_err, config)
      | some project ↦
          let (status, config') = parse_project_table project config in
          if status == project_ok
          then parse_targets conf config'
          else some (project_semantic_err, config')
    ]
