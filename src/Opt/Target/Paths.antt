-- ===== src/Opt/Target/Paths.antt =====
-- When the loops over the paths of src/cfg/opt.c end.
use Prim.Native.Char.{code}
use gemstone.Prelude.{
  ℕ, zero, suc, ◌≡◌, refl, String, Bool, true, false, ◌||◌, inl, inr, Bool-cases, Option, none,
  some, List, [], ◌∷◌, ◌==◌, if◌then◌else◌,
}
use gemstone.Opt.Arguments.{Argument, Arguments, get_option}
use gemstone.Opt.Target.{
  find_comma, last_path, split_paths, option_paths, option_value, configured,
  default_target_config_from_args,
}

unfoldable pub has_comma : String → Bool
has_comma String.[] = false
has_comma (String.◌∷◌ c s) = code c == b',' || has_comma s

-- What `find_comma` finds begins with a comma, so it is found again.
abbrev Finds : String → Option (String × String) → Type 0
Finds s none = has_comma s ≡ false
Finds s (some (p, end)) = (has_comma s ≡ true) × (find_comma end ≡ some (String.[], end))

find_comma-Finds : (s : String) → Finds s (find_comma s)
unfolding find_comma has_comma
find_comma-Finds String.[] = refl
find_comma-Finds (String.◌∷◌ c s) = elim (Bool-cases (code c == b',')) [
  | inl e ↦ rw e (rw (e, has_comma) refl, rw e refl)
  | inr e ↦ rw e (go e (find_comma s) (find_comma-Finds s))
]
  where
    go :
        code c == b',' ≡ false
        → (o : Option (String × String)) → Finds s o
        → Finds
            (String.◌∷◌ c s)
            (elim o [ none ↦ none | some (p, rest) ↦ some (String.◌∷◌ c p, rest) ])
    go e none h = rw e h
    go e (some (p, rest)) (h, k) = (rw e h, k)

split_paths-stays :
    (fuel : ℕ) (s : String) → find_comma s ≡ some (String.[], s) → split_paths fuel s ≡ none
unfolding split_paths
split_paths-stays zero s h = refl
split_paths-stays (suc fuel) s h = rw (h, split_paths) (rw (split_paths-stays fuel s h) refl)

split_paths-has_comma :
    (fuel : ℕ) (s : String)
    → split_paths (suc fuel) s ≡ (if has_comma s then none else some (last_path s))
unfolding split_paths
split_paths-has_comma fuel s = go (find_comma s) (find_comma-Finds s)
  where
    go :
        (o : Option (String × String))
        → Finds s o
        → elim o [
          | none ↦ some (last_path s)
          | some (path, end) ↦ elim (split_paths fuel end) [
            | none ↦ none
            | some paths ↦ some (path ∷ paths)
          ]
        ]
          ≡ (if has_comma s then none else some (last_path s))
    go none h = rw h refl
    go (some (p, end)) (h, k) = rw h (rw (split_paths-stays fuel end k) refl)

-- The paths of a value: one, or none if the value is empty or missing.
abbrev pub value_paths : Option String → List String
value_paths none = []
value_paths (some s) = last_path s

abbrev pub value_has_comma : Option String → Bool
value_has_comma none = false
value_has_comma (some s) = has_comma s

option_paths-has_comma :
    (fuel : ℕ) (args : Arguments) (name : String)
    → option_paths (suc fuel) args name ≡ (
        if value_has_comma (option_value args name)
        then none
        else some (value_paths (option_value args name)))
unfolding option_paths option_value
option_paths-has_comma fuel args name = go (get_option args name)
  where
    by_value :
        (o : Option String)
        → elim o [ none ↦ some [] | some value ↦ split_paths (suc fuel) value ]
          ≡ (if value_has_comma o then none else some (value_paths o))
    by_value none = refl
    by_value (some value) = split_paths-has_comma fuel value

    go :
        (o : Option Argument)
        → elim o [
          | none ↦ some []
          | some option ↦ elim option.value [
            | none ↦ some []
            | some value ↦ split_paths (suc fuel) value
          ]
        ]
          ≡ (if value_has_comma (elim o [ none ↦ none | some option ↦ option.value ])
              then none
              else some (value_paths (elim o [ none ↦ none | some option ↦ option.value ])))
    go none = refl
    go (some option) = by_value option.value

-- The configuration from the command line ends just when neither the value of `link-paths` nor that of
-- `import-paths` holds a comma, whatever the number of rounds the two loops are given, if it is at least one. Then each of the
-- two values, if it is there and not empty, is one path.
pub default_target_config_from_args-ends :
    (iterate : Arguments → List (String × Argument)) (cwd : String) (fuel : ℕ) (args : Arguments)
    → default_target_config_from_args iterate cwd (suc fuel) args ≡ (
        if value_has_comma (option_value args "link-paths")
          || value_has_comma (option_value args "import-paths")
        then none
        else some (
            configured iterate cwd args
              (value_paths (option_value args "link-paths"))
              (value_paths (option_value args "import-paths"))))
unfolding default_target_config_from_args
default_target_config_from_args-ends iterate cwd fuel args =
    go _ _ (value_has_comma (option_value args "link-paths"))
      (value_has_comma (option_value args "import-paths"))
      (option_paths (suc fuel) args "link-paths") (option_paths (suc fuel) args "import-paths")
      (option_paths-has_comma fuel args "link-paths")
      (option_paths-has_comma fuel args "import-paths")
  where
    go :
        (ps qs : List String) (a b : Bool) (x y : Option (List String))
        → x ≡ (if a then none else some ps)
        → y ≡ (if b then none else some qs)
        → elim x [
          | none ↦ none
          | some link_paths ↦ elim y [
            | none ↦ none
            | some import_paths ↦ some (configured iterate cwd args link_paths import_paths)
          ]
        ]
          ≡ (if a || b then none else some (configured iterate cwd args ps qs))
    go ps qs true b x y h k = rw h refl
    go ps qs false true x y h k = rw h (rw k refl)
    go ps qs false false x y h k = rw h (rw k refl)
