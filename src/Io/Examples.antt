-- ===== src/Io/Examples.antt =====
-- The statistics of two files.
use gemstone.Prelude.{List, [], ◌∷◌}
use gemstone.Io.{ModuleFile}

abbrev two_files : List ModuleFile
two_files =
    record {
      path = "a.gsc";
      statistics = record { error_count = 1; warning_count = 2; info_count = 0 };
    }
    ∷ record {
      path = "b.gsc";
      statistics = record { error_count = 0; warning_count = 1; info_count = 5 };
    }
    ∷ []
