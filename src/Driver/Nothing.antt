-- ===== src/Driver/Nothing.antt =====
-- What the compiler does without a file.
use gemstone.Prelude.{◌⊎◌, ℕ, ◌≡◌, String, false, Option, none, some, List, Table}
use gemstone.Io.{delete_files}
use gemstone.Opt.Arguments.{Argument, Arguments, is_option_set, get_non_options_after}
use gemstone.Opt.Target.{TargetConfig, Message}
use gemstone.Opt.Project.{Toml}
use gemstone.Driver.Builds.{Services, Result}

module _ {Module : Type 0} (services : Services Module) where
  module _ (fuel : ℕ) (iterate : Arguments → List (String × Argument))
      (iterate_targets : Table TargetConfig → List (String × TargetConfig)) (args : Arguments)
      (cwd : String) (T : Type 0) (toml : Toml T) (conf : Option T) where
    abbrev pub NothingToCompile : Type 0
    NothingToCompile =
        (is_option_set args "compile" ≡ false)
        ⊎ (get_non_options_after iterate args "compile" ≡ none)

    -- There is no configuration, or one without a root module.
    abbrev NoRoot : Option (TargetConfig × List Message) → Type 0
    NoRoot none = Unit
    NoRoot (some (target, messages)) = target.root_module ≡ none

    -- No file is on the stack.
    abbrev NoFile : Result → Type 0
    NoFile none = Unit
    NoFile (some (status, files)) = files ≡ none

    status_of : Result → Option ℕ
    status_of r = elim r [
      | none ↦ none
      | some (status, files) ↦ elim (delete_files files) [ none ↦ none | some u ↦ some status ]
    ]
