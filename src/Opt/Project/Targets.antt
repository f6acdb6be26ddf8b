-- ===== src/Opt/Project/Targets.antt =====
-- The targets of a project in src/cfg/opt.c.
use gemstone.Prelude.{
  ℕ, zero, suc, ◌≡◌, refl, ◌∙◌, String, Bool, true, false, ◌&&◌, ◌||◌, inl, inr, Bool-cases, Option,
  none, some, ◌==◌, str_eq, if◌then◌else◌, Table, lookup, insert, lookup-insert, is_some, contains,
}
use gemstone.Opt.Target.{application, TargetConfig}
use gemstone.Opt.Project.{Toml, project_ok, get_mode_from_str, target_of, parse_target, parse_each}

-- What a mode says: nothing, if there is none.
abbrev pub is_mode : Option String → Bool
is_mode none = false
is_mode (some mode) = str_eq mode "application" || str_eq mode "library"

contains-insert :
    (t : Table TargetConfig) (k : String) (v : TargetConfig) (j : String)
    → contains (insert t k v) j ≡ (contains t j || str_eq k j && true)
contains-insert t k v j = rw (lookup-insert t k v j) (go (str_eq k j) (lookup t j))
  where
    go :
        (b : Bool) (o : Option TargetConfig)
        → is_some (if b then some v else o) ≡ (is_some o || b && true)
    go true none = refl
    go true (some w) = refl
    go false none = refl
    go false (some w) = refl

or_and_false : (a b : Bool) → a ≡ (a || b && false)
or_and_false true b = refl
or_and_false false true = refl
or_and_false false false = refl

or_false : (a : Bool) → a ≡ (a || false)
or_false true = refl
or_false false = refl

or_assoc : (a b c : Bool) → ((a || b) || c) ≡ (a || (b || c))
or_assoc true b c = refl
or_assoc false b c = refl

-- What `parse_target` does to the targets.
abbrev pub Parses :
    String → Option String → Table TargetConfig → Option (ℕ × Table TargetConfig) → Type 0
Parses key mode targets none = mode ≡ none
Parses key mode targets (some (err, targets')) =
    (is_some mode ≡ true)
    × ((name : String)
        → contains targets' name ≡ (contains targets name || str_eq key name && is_mode mode))

-- What the loop leaves, where the keys that it has seen are these.
abbrev pub EachParsed :
    Bool → (String → Bool) → Table TargetConfig → Option (Table TargetConfig) → Type 0
EachParsed modes has targets none = modes ≡ false
EachParsed modes has targets (some targets') =
    (modes ≡ true)
    × ((name : String) → contains targets' name ≡ (contains targets name || has name))

EachParsed-step :
    (key : String) (mode : Option String) (targets : Table TargetConfig) (modes : Bool)
    (has : String → Bool) (rest : Table TargetConfig → Option (Table TargetConfig))
    → ((ts : Table TargetConfig) → EachParsed modes has ts (rest ts))
    → (r : Option (ℕ × Table TargetConfig)) → Parses key mode targets r
    → EachParsed
        (is_some mode && modes)
        (λ name. str_eq key name && is_mode mode || has name)
        targets
        (elim r [ none ↦ none | some (err, targets') ↦ rest targets' ])
EachParsed-step key mode targets modes has rest rec none h = rw h refl
EachParsed-step key mode targets modes has rest rec (some (err, targets')) (h, k) =
    go (rest targets') (rec targets')
  where
    go :
        (o : Option (Table TargetConfig))
        → EachParsed modes has targets' o
        → EachParsed
            (is_some mode && modes)
            (λ name. str_eq key name && is_mode mode || has name)
            targets
            o
    go none e = rw h e
    go (some targets'') (e, f) =
        (rw h e, λ name. f name ∙ rw (k name) (or_assoc (contains targets name) _ (has name)))

module _ (T : Type 0) (toml : Toml T) where
  abbrev pub mode_of : Option T → Option String
  mode_of none = none
  mode_of (some table) = toml.string_in table "mode"

  -- Every key, from a position on, up to the first position without one, is that of a table with a mode.
  unfoldable pub modes_written : ℕ → ℕ → T → Bool
  modes_written zero i table = true
  modes_written (suc n) i table = elim (toml.key_in table i) [
    | none ↦ true
    | some key ↦ is_some (mode_of (toml.table_in table key)) && modes_written n (suc i) table
  ]

  -- One of the keys is a name, and that of a table with a mode that there is.
  unfoldable pub has_target : ℕ → ℕ → T → String → Bool
  has_target zero i table name = false
  has_target (suc n) i table name = elim (toml.key_in table i) [
    | none ↦ false
    | some key ↦
        str_eq key name && is_mode (mode_of (toml.table_in table key))
        || has_target n (suc i) table name
  ]

  module _ (cwd : String) where
    parse_target-Parses :
        (o : Option T) (key : String) (targets : Table TargetConfig)
        → Parses key (mode_of o) targets (parse_target T toml cwd o key targets)
    unfolding parse_target get_mode_from_str
    parse_target-Parses none key targets = refl
    parse_target-Parses (some table) key targets = go (toml.string_in table "mode")
      where
        go :
            (m : Option String)
            → Parses key m targets (elim (get_mode_from_str application m) [
              | none ↦ none
              | some (err, mode) ↦ some (
                  if err == project_ok
                  then (project_ok, insert targets key (target_of T toml cwd table key mode))
                  else (err, targets))
            ])
        go none = refl
        go (some m) = elim (Bool-cases (str_eq m "application")) [
          | inl e ↦ rw e (refl, λ name. contains-insert targets key _ name)
          | inr e ↦ rw e (elim (Bool-cases (str_eq m "library")) [
            | inl f ↦ rw f (refl, λ name. contains-insert targets key _ name)
            | inr f ↦ rw f (refl, λ name. or_and_false _ _)
          ])
        ]

    -- The loop over the targets ends, without reading from `NULL`, just when the table of every key gives
    -- a mode as a text. Then the targets are those from before and, whatever the errors, one for each
    -- key whose mode is `application` or `library`, and no other.
    pub parse_each-EachParsed :
        (n i : ℕ) (table : T) (targets : Table TargetConfig)
        → EachParsed
            (modes_written n i table)
            (has_target n i table)
            targets
            (parse_each T toml cwd n i table targets)
    unfolding parse_each modes_written has_target
    parse_each-EachParsed zero i table targets = (refl, λ name. or_false _)
    parse_each-EachParsed (suc n) i table targets =
        go (toml.key_in table i) (parse_each-EachParsed n (suc i) table)
      where
        go :
            (o : Option String)
            → ((ts : Table TargetConfig)
                → EachParsed
                    (modes_written n (suc i) table)
                    (has_target n (suc i) table)
                    ts
                    (parse_each T toml cwd n (suc i) table ts))
            → EachParsed
                (elim o [
                  | none ↦ true
                  | some key ↦
                      is_some (mode_of (toml.table_in table key)) && modes_written n (suc i) table
                ])
                (λ name. elim o [
                  | none ↦ false
                  | some key ↦
                      str_eq key name && is_mode (mode_of (toml.table_in table key))
                      || has_target n (suc i) table name
                ])
                targets
                (elim o [
                  | none ↦ some targets
                  | some key ↦
                      elim (parse_target T toml cwd (toml.table_in table key) key targets) [
                        | none ↦ none
                        | some (err, targets') ↦ parse_each T toml cwd n (suc i) table targets'
                      ]
                ])
        go none rec = (refl, λ name. or_false _)
        go (some key) rec =
            EachParsed-step key (mode_of (toml.table_in table key)) targets _ _
              (λ ts. parse_each T toml cwd n (suc i) table ts) rec
              (parse_target T toml cwd (toml.table_in table key) key targets)
              (parse_target-Parses (toml.table_in table key) key targets)
