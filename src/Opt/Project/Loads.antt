-- ===== src/Opt/Project/Loads.antt =====
-- What `load_project_config` of src/cfg/opt.c makes of a project file.
use gemstone.Prelude.{
  ℕ, ◌≡◌, refl, String, Bool, true, false, ◌&&◌, not, Option, none, some, [], ◌==◌, if◌then◌else◌,
  Table, lookup, is_some, contains,
}
use gemstone.Opt.Target.{TargetConfig}
use gemstone.Opt.Project.{
  Toml, ProjectConfig, default_project_config, project_ok, project_semantic_err, described,
  get_text, parse_project_table, parse_each, parse_targets, load_project_config,
}
use gemstone.Opt.Project.Targets.{modes_written, has_target, EachParsed, parse_each-EachParsed}

abbrev targets_or_none : Option (Table TargetConfig) → Table TargetConfig
targets_or_none none = []
targets_or_none (some targets) = targets

module _ (T : Type 0) (toml : Toml T) where
  abbrev pub has_version : Option T → Bool
  has_version none = false
  has_version (some project) = is_some (toml.string_in project "version")

  abbrev pub modes_in : Option T → Bool
  modes_in none = true
  modes_in (some table) = modes_written T toml (toml.ntab table) 0 table

  abbrev pub target_in : Option T → String → Bool
  target_in none name = false
  target_in (some table) name = has_target T toml (toml.ntab table) 0 table name

  -- A load, by the tables of the project and of the targets.
  abbrev pub Loaded : Bool → Option T → Option (ℕ × ProjectConfig) → Type 0
  Loaded versioned targets none = (versioned && not (modes_in targets)) ≡ true
  Loaded versioned targets (some (status, config)) =
      ((versioned && not (modes_in targets)) ≡ false)
      × (status ≡ (if versioned && is_some targets then project_ok else project_semantic_err))
      × ((name : String)
          → contains (targets_or_none config.targets) name ≡ (versioned && target_in targets name))

  module _ (cwd : String) (conf : T) where
    parse_targets-Loaded :
        (config : ProjectConfig)
        → config.targets ≡ none
        → Loaded true (toml.table_in conf "target") (parse_targets T toml cwd conf config)
    unfolding parse_targets lookup
    parse_targets-Loaded config e = go (toml.table_in conf "target")
      where
        parsed :
            (table : T) (r : Option (Table TargetConfig))
            → EachParsed (modes_in (some table)) (target_in (some table)) [] r
            → Loaded true (some table) (elim r [
              | none ↦ none
              | some targets ↦ some (project_ok, record config { targets = some targets })
            ])
        parsed table none h = rw h refl
        parsed table (some targets) (h, k) = (rw h refl, refl, k)

        go :
            (o : Option T)
            → Loaded true o (elim o [
              | none ↦ some (project_semantic_err, config)
              | some table ↦ elim (parse_each T toml cwd (toml.ntab table) 0 table []) [
                | none ↦ none
                | some targets ↦ some (project_ok, record config { targets = some targets })
              ]
            ])
        go none = (refl, refl, λ name. rw e refl)
        go (some table) =
            parsed table _ (parse_each-EachParsed T toml cwd (toml.ntab table) 0 table [])

    -- From the default configuration, a project file is loaded as follows. Something is read from `NULL`
    -- just when its project has a version and some target gives no mode as a text. Else the status is
    -- success just when the project has a version and there is a table of targets, and then the targets
    -- are those whose mode is `application` or `library`, and no other; otherwise there are none.
    pub load_project_config-Loaded :
        Loaded
          (has_version (toml.table_in conf "project"))
          (toml.table_in conf "target")
          (load_project_config T toml cwd (some conf) default_project_config)
    unfolding load_project_config parse_project_table lookup
    load_project_config-Loaded = go (toml.table_in conf "project")
      where
        named : T → Option String → ℕ × ProjectConfig
        named project v = elim (get_text none v) [
          | none ↦ (project_semantic_err, record default_project_config { name = none })
          | some name ↦ (project_ok, described T toml project (some name) default_project_config)
        ]

        by_version :
            (project : T) (v : Option String)
            → Loaded (is_some v) (toml.table_in conf "target") (
                if (named project v).0 == project_ok
                then parse_targets T toml cwd conf (named project v).1
                else some (project_semantic_err, (named project v).1))
        by_version project none = (refl, refl, λ name. refl)
        by_version project (some name) = parse_targets-Loaded _ refl

        go :
            (p : Option T)
            → Loaded (has_version p) (toml.table_in conf "target") (elim p [
              | none ↦ some (project_semantic_err, default_project_config)
              | some project ↦
                  let (status, config') =
                    parse_project_table T toml project default_project_config in
                  if status == project_ok
                  then parse_targets T toml cwd conf config'
                  else some (project_semantic_err, config')
            ])
        go none = (refl, refl, λ name. refl)
        go (some project) = by_version project (toml.string_in project "version")
