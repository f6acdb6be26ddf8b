-- ===== src/Io/Totals.antt =====
-- What the statistics of all files say.
use gemstone.Prelude.{ℕ, String, ◌+◌, Option, none, some, List, [], ◌∷◌, ◌==◌, if◌then◌else◌}
use gemstone.Io.{ModuleFile, print_counts}

-- All warnings, and all errors, of the files.
unfoldable pub all_warnings : List ModuleFile → ℕ
all_warnings [] = 0
all_warnings (file ∷ files) = file.statistics.warning_count + all_warnings files

unfoldable pub all_errors : List ModuleFile → ℕ
all_errors [] = 0
all_errors (file ∷ files) = file.statistics.error_count + all_errors files

abbrev pub reported : ℕ → ℕ → ℕ → Option (ℕ × List (ℕ × String))
reported n warnings errors =
    if warnings + errors == 0
    then none
    else some (
      n,
      print_counts
          (record { error_count = errors; warning_count = warnings; info_count = warnings }),
    )
