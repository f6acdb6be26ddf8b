-- ===== src/Opt/Project/Names.antt =====
-- The name and the version of a project in src/cfg/opt.c.
use gemstone.Prelude.{ℕ, ◌≡◌, refl, String, Option, none, some, if◌then◌else◌, is_some}
use gemstone.Opt.Project.{
  Toml, ProjectConfig, project_ok, project_semantic_err, get_text, described, parse_project_table,
}

-- The project's name, where there is a version: the name that is written, and else the version.
abbrev pub name_read : Option String → Option String → Option String
name_read none name = none
name_read (some version) name = get_text (some version) name

module _ (T : Type 0) (toml : Toml T) (table : T) (config : ProjectConfig) where
  -- A project is accepted just when its table has a version, whether it has a name or not; the name read is
  -- that of the table, or the version if there is no name, and none without a version; the version is never
  -- set. This is for a configuration without a name, as the default one.
  pub parse_project_table-name :
      config.name ≡ none
      → ((parse_project_table T toml table config).0
          ≡ (if is_some (toml.string_in table "version") then project_ok else project_semantic_err))
        × ((parse_project_table T toml table config).1.name
            ≡ name_read (toml.string_in table "version") (toml.string_in table "name"))
        × ((parse_project_table T toml table config).1.version ≡ config.version)
  unfolding parse_project_table
  parse_project_table-name h = rw h (go (toml.string_in table "version"))
    where
      abbreviated : Option String → ℕ × ProjectConfig
      abbreviated o = elim (get_text none o) [
        | none ↦ (project_semantic_err, record config { name = none })
        | some name ↦ (project_ok, described T toml table (some name) config)
      ]

      go :
          (o : Option String)
          → ((abbreviated o).0 ≡ (if is_some o then project_ok else project_semantic_err))
            × ((abbreviated o).1.name ≡ name_read o (toml.string_in table "name"))
            × ((abbreviated o).1.version ≡ config.version)
      go none = (refl, refl, refl)
      go (some v) = (refl, refl, refl)
