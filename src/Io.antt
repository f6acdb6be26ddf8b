-- ===== src/Io.antt =====
-- Source files and what was said about them: src/io/files.c. The numbers wrap as an `unsigned long`.
pub mod Totals
pub mod Examples
use gemstone.Prelude.{
  ℕ, ◌+◌, ◌%◌, String, Option, none, some, List, [], ◌∷◌, ◌++◌, ◌==◌, ltb, if◌then◌else◌, length,
  map,
}

-- `FileDiagnosticStatistics`.
pub record FileStatistics : Type 0 where
  pub error_count : ℕ
  pub warning_count : ℕ
  pub info_count : ℕ

-- `ModuleFile`, without its handle.
pub record ModuleFile : Type 0 where
  pub path : String
  pub statistics : FileStatistics

-- `ModuleFileStack`; the array is `NULL` before the first file.
abbrev pub ModuleFileStack : Type 0
ModuleFileStack = Option (List ModuleFile)

abbrev pub new_file_stack : ModuleFileStack
new_file_stack = none

abbrev pub no_diagnostics : FileStatistics
no_diagnostics = record { error_count = 0; warning_count = 0; info_count = 0 }

-- `push_file`.
unfoldable pub push_file : ModuleFileStack → String → ModuleFileStack
push_file none path = some (record { path = path; statistics = no_diagnostics } ∷ [])
push_file (some files) path =
    some (files ++ record { path = path; statistics = no_diagnostics } ∷ [])

-- `delete_files` reads the array before it looks whether there is one.
unfoldable pub delete_files : ModuleFileStack → Option (Unit {0})
delete_files none = none
delete_files (some files) = some tt

pub data MessageKind : Type 0 where
  info warning error : MessageKind

abbrev pub long_mod : ℕ
long_mod = 18446744073709551616

-- What `print_diagnostic` counts.
unfoldable pub count_diagnostic : MessageKind → FileStatistics → FileStatistics
count_diagnostic info s = record s { info_count = (s.info_count + 1) % long_mod }
count_diagnostic warning s = record s { warning_count = (s.warning_count + 1) % long_mod }
count_diagnostic error s = record s { error_count = (s.error_count + 1) % long_mod }

abbrev pub if_positive : ℕ → String → List (ℕ × String)
if_positive n word = if ltb 0 n then (n, word) ∷ [] else []

-- The numbers that are printed, with the words behind them.
abbrev pub print_counts : FileStatistics → List (ℕ × String)
print_counts s =
    if_positive s.info_count "notice(s)"
    ++ if_positive s.warning_count "warning(s)"
    ++ if_positive s.error_count "error(s)"

-- `print_file_statistics`: nothing, or the path and the numbers.
unfoldable pub print_file_statistics : ModuleFile → Option (String × List (ℕ × String))
print_file_statistics file =
    let s = file.statistics in
    if ltb ((s.info_count + s.warning_count + s.error_count) % long_mod) 1
    then none
    else some (file.path, print_counts s)

-- The sum over the files, as the loop of `print_unit_statistics` takes it.
abbrev pub add_file : FileStatistics → FileStatistics → FileStatistics
add_file stats s = record {
  error_count = (stats.error_count + s.error_count) % long_mod;
  warning_count = (stats.warning_count + s.warning_count) % long_mod;
  info_count = (stats.info_count + s.warning_count) % long_mod;
}

unfoldable pub sum_files : FileStatistics → List ModuleFile → FileStatistics
sum_files stats [] = stats
sum_files stats (file ∷ files) = sum_files (add_file stats file.statistics) files

-- `print_unit_statistics`: nothing, or the number of files and the numbers.
unfoldable pub print_unit_statistics : List ModuleFile → Option (ℕ × List (ℕ × String))
print_unit_statistics files =
    let stats = sum_files no_diagnostics files in
    if ltb ((stats.info_count + stats.warning_count + stats.error_count) % long_mod) 1
    then none
    else some (length files, print_counts stats)
