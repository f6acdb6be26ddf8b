-- ===== src/Opt/Arguments/Lookup.antt =====
-- What `get_option` of src/cfg/opt.c finds in the table that `parse_options` fills.
use gemstone.Prelude.{
  ℕ, suc, ◌≡◌, refl, ◌∙◌, String, Bool, true, false, Option, none, some, List, [], ◌∷◌, str_eq,
  if◌then◌else◌, lookup, insert, lookup-insert,
}
use gemstone.Opt.Arguments.{
  Argument, Arguments, parse_argument, parse_from, parse_options, get_option,
}

abbrev or_else : Option Argument → Option Argument → Option Argument
or_else none o = o
or_else (some a) o = some a

-- The last argument of a name, with the position of the first argument given.
unfoldable pub last_named : String → ℕ → List String → Option Argument
last_named k i [] = none
last_named k i (arg ∷ argv) =
    or_else (last_named k (suc i) argv)
      (if str_eq (parse_argument i arg).string k then some (parse_argument i arg) else none)

or_else-insert :
    (o : Option Argument) (a : Argument) (old : Option Argument) (b : Bool)
    → or_else o (if b then some a else old) ≡ or_else (or_else o (if b then some a else none)) old
or_else-insert none a old true = refl
or_else-insert none a old false = refl
or_else-insert (some x) a old b = refl

or_else-none : (o : Option Argument) → or_else o none ≡ o
or_else-none none = refl
or_else-none (some a) = refl

parse_from-lookup :
    (k : String) (argv : List String) (i : ℕ) (args : Arguments)
    → lookup (parse_from i argv args) k ≡ or_else (last_named k i argv) (lookup args k)
unfolding parse_from last_named
parse_from-lookup k [] i args = refl
parse_from-lookup k (arg ∷ argv) i args =
    parse_from-lookup k argv (suc i)
      (insert args (parse_argument i arg).string (parse_argument i arg))
    ∙ rw (lookup-insert args (parse_argument i arg).string (parse_argument i arg) k)
        (or_else-insert (last_named k (suc i) argv) (parse_argument i arg) (lookup args k) _)

-- What `get_option` finds is the last argument of that name, with its position, and nothing if there is none.
pub get_option-parse_options :
    (argv : List String) (k : String) → get_option (parse_options argv) k ≡ last_named k 0 argv
unfolding get_option parse_options lookup
get_option-parse_options argv k = parse_from-lookup k argv 0 [] ∙ or_else-none (last_named k 0 argv)
