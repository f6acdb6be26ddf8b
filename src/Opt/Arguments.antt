-- ===== src/Opt/Arguments.antt =====
-- The arguments of the command line: `parse_options` to `get_non_options_after` of src/cfg/opt.c.
pub mod Lookup
pub mod RoundTrip
pub mod Files
use Prim.Native.Char.{code}
use gemstone.Prelude.{
  ℕ, suc, String, Bool, false, ◌&&◌, not, Option, none, some, List, [], ◌∷◌, ◌==◌, ltb,
  if◌then◌else◌, Table, lookup, insert, contains,
}

-- `Option`, an argument. A `NULL` value is `none`.
pub record Argument : Type 0 where
  pub index : ℕ
  pub string : String
  pub value : Option String
  pub is_opt : Bool

-- `g_str_has_prefix(argument, "--")`.
unfoldable pub has_dashes : String → Bool
has_dashes String.[] = false
has_dashes (String.◌∷◌ c String.[]) = false
has_dashes (String.◌∷◌ c (String.◌∷◌ d s)) = code c == b'-' && code d == b'-'

-- The text from its third character on.
abbrev pub skip_dashes : String → String
skip_dashes String.[] = String.[]
skip_dashes (String.◌∷◌ c String.[]) = String.[]
skip_dashes (String.◌∷◌ c (String.◌∷◌ d s)) = s

-- What `strchr(string, '=')` splits: the text before the first `=`, and that after it, if there is one.
unfoldable pub before_equals : String → String
before_equals String.[] = String.[]
before_equals (String.◌∷◌ c s) =
    if code c == b'=' then String.[] else String.◌∷◌ c (before_equals s)

unfoldable pub after_equals : String → Option String
after_equals String.[] = none
after_equals (String.◌∷◌ c s) = if code c == b'=' then some s else after_equals s

-- The body of the loop of `parse_options`.
unfoldable pub parse_argument : ℕ → String → Argument
parse_argument i arg =
    let is_opt = has_dashes arg in
    let string = if is_opt then skip_dashes arg else arg in
    record {
      index = i;
      string = before_equals string;
      value = after_equals string;
      is_opt = is_opt;
    }

abbrev pub Arguments : Type 0
Arguments = Table Argument

unfoldable pub parse_from : ℕ → List String → Arguments → Arguments
parse_from i [] args = args
parse_from i (arg ∷ argv) args =
    let option = parse_argument i arg in parse_from (suc i) argv (insert args option.string option)

-- `parse_options`: the table `args`.
unfoldable pub parse_options : List String → Arguments
parse_options argv = parse_from 0 argv []

-- `is_option_set` and `get_option`, once there is a table.
abbrev pub is_option_set : Arguments → String → Bool
is_option_set args option = contains args option

unfoldable pub get_option : Arguments → String → Option Argument
get_option args option = lookup args option

-- The arguments that are no options and stand behind an index, as the iteration gives them.
unfoldable pub non_options_behind : ℕ → List (String × Argument) → List String
non_options_behind i [] = []
non_options_behind i ((key, option) ∷ entries) =
    if not option.is_opt && ltb i option.index
    then option.string ∷ non_options_behind i entries
    else non_options_behind i entries

-- An array of no elements is given as `NULL`.
abbrev pub null_if_empty : List String → Option (List String)
null_if_empty [] = none
null_if_empty (s ∷ ss) = some (s ∷ ss)

-- `get_non_options_after`. In which order GLib iterates over a table is not known.
module _ (iterate : Arguments → List (String × Argument)) where
  unfoldable pub get_non_options_after : Arguments → String → Option (List String)
  get_non_options_after args command = elim (get_option args command) [
    | none ↦ none
    | some option ↦ null_if_empty (non_options_behind option.index (iterate args))
  ]
