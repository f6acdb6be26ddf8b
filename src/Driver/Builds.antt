-- ===== src/Driver/Builds.antt =====
-- Targets and projects: `setup_target_environment` to `run_compiler` of src/compiler.c. A result is a
-- status and the files; `none` is a failed assertion, a `NULL` that is followed, or too few rounds.
use gemstone.Prelude.{
  ℕ, String, Bool, Option, none, some, List, [], ◌∷◌, ◌==◌, if◌then◌else◌, Table, lookup,
}
use gemstone.Io.{ModuleFileStack, new_file_stack, push_file, delete_files}
use gemstone.Opt.Arguments.{Argument, Arguments, is_option_set, get_non_options_after}
use gemstone.Opt.Target.{TargetConfig, default_target_config_from_args}
use gemstone.Opt.Project.{Toml, default_project_config, project_ok, load_project_config}
use gemstone.Codegen.{
  BackendErrorKind, is_success, CodegenBackend, set_backend, init_backend, generate_code,
  deinit_backend,
}
use gemstone.Driver.Imports.{
  Node, Outside, exit_success, exit_failure, compile_module_with_dependencies,
}

-- What else is outside: whether a directory is there or can be made, the analysis of the children of a
-- module, and what the three functions of the LLVM back end answer.
pub record Services (Module : Type 0) : Type 0 where
  pub outside : Outside
  pub create_directory : String → Bool
  pub create_set : List Node → Option Module
  pub llvm_backend_codegen_init : BackendErrorKind
  pub llvm_backend_codegen : Module → TargetConfig → BackendErrorKind
  pub llvm_backend_codegen_deinit : BackendErrorKind

abbrev pub Result : Type 0
Result = Option (ℕ × ModuleFileStack)

module _ {Module : Type 0} (services : Services Module) where
  -- `setup_target_environment`.
  unfoldable pub setup_target_environment : TargetConfig → ℕ
  setup_target_environment target =
      if services.create_directory target.archive_directory
      then if services.create_directory target.output_directory then exit_success else exit_failure
      else exit_failure

  -- `llvm_backend_init`: the functions of the back end are set.
  abbrev pub llvm_backend_init : CodegenBackend Module
  llvm_backend_init =
      set_backend services.llvm_backend_codegen_init services.llvm_backend_codegen_deinit
        services.llvm_backend_codegen

  -- `run_backend_codegen`.
  unfoldable pub run_backend_codegen : Module → TargetConfig → ℕ
  run_backend_codegen analysed target =
      if is_success (init_backend llvm_backend_init)
      then if is_success (generate_code llvm_backend_init analysed target)
        then if is_success (deinit_backend llvm_backend_init) then exit_success else exit_failure
        else exit_failure
      else exit_failure

  -- The part of `build_target` behind the parser.
  unfoldable pub build_module : TargetConfig → List Node → ℕ
  build_module target children =
      if setup_target_environment target == exit_success
      then elim (services.create_set children) [
        | none ↦ exit_failure
        | some analysed ↦ run_backend_codegen analysed target
      ]
      else setup_target_environment target

  module _ (fuel : ℕ) where
    -- `build_target`; the path of a file is asserted not to be `NULL`.
    unfoldable pub build_target : TargetConfig → ModuleFileStack → Result
    build_target target files = elim target.root_module [
      | none ↦ none
      | some root ↦
          elim (compile_module_with_dependencies services.outside fuel (push_file files root)
            target.import_paths root) [
              | none ↦ none
              | some (err, c) ↦
                  some
                    (if err == exit_success then build_module target c.children else err, c.files)
            ]
    ]

    -- The loop over all targets, in the order of the iteration.
    unfoldable pub build_all : List (String × TargetConfig) → ℕ → ModuleFileStack → Result
    build_all [] err files = some (err, files)
    build_all ((name, target) ∷ targets) err files = elim (build_target target files) [
      | none ↦ none
      | some (err', files') ↦ build_all targets err' files'
    ]

    -- The loop over the targets that are named. One that there is not is an error message.
    unfoldable pub build_named : Table TargetConfig → List String → ℕ → ModuleFileStack → Result
    build_named targets [] err files = some (err, files)
    build_named targets (name ∷ names) err files = elim (lookup targets name) [
      | none ↦ build_named targets names err files
      | some target ↦ elim (build_target target files) [
        | none ↦ none
        | some (err', files') ↦ build_named targets names err' files'
      ]
    ]

    module _ (iterate : Arguments → List (String × Argument))
        (iterate_targets : Table TargetConfig → List (String × TargetConfig)) (args : Arguments)
        (cwd : String) where
      -- `build_project_targets`.
      unfoldable pub build_project_targets : Table TargetConfig → ModuleFileStack → Result
      build_project_targets targets files =
          if is_option_set args "all"
          then build_all (iterate_targets targets) exit_success files
          else elim (get_non_options_after iterate args "build") [
            | none ↦ some (exit_success, files)
            | some names ↦ build_named targets names exit_success files
          ]

      -- `compile_file`.
      unfoldable pub compile_file : ModuleFileStack → Result
      compile_file files = elim (default_target_config_from_args iterate cwd fuel args) [
        | none ↦ none
        | some (target, messages) ↦ elim target.root_module [
          | none ↦ some (exit_failure, files)
          | some root ↦ build_target target files
        ]
      ]

      module _ (T : Type 0) (toml : Toml T) (conf : Option T) where
        -- `build_project`; `conf` is the project file, if it can be parsed.
        unfoldable pub build_project : ModuleFileStack → Result
        build_project files = elim (load_project_config T toml cwd conf default_project_config) [
          | none ↦ none
          | some (err, config) ↦
              if err == project_ok
              then elim config.targets [
                | none ↦ none
                | some targets ↦ build_project_targets targets files
              ]
              else some (err, files)
        ]

        -- `run_compiler`: the status.
        unfoldable pub run_compiler : Option ℕ
        run_compiler =
            let built =
              if is_option_set args "build"
              then build_project new_file_stack
              else if is_option_set args "compile"
              then compile_file new_file_stack
              else some (exit_success, new_file_stack) in
            elim built [
              | none ↦ none
              | some (status, files) ↦ elim (delete_files files) [
                | none ↦ none
                | some u ↦ some status
              ]
            ]
