-- ===== src/Opt/Arguments/RoundTrip.antt =====
-- Arguments of src/cfg/opt.c, written and parsed back.
use Prim.Native.Char.{code}
use gemstone.Prelude.{
  ℕ, ◌≡◌, refl, String, Bool, true, false, ◌&&◌, not, Option, none, some, ◌==◌, if◌then◌else◌,
  arith,
}
use gemstone.Opt.Arguments.{Argument, has_dashes, before_equals, after_equals, parse_argument}

-- One text behind another.
unfoldable pub append : String → String → String
append String.[] t = t
append (String.◌∷◌ c s) t = String.◌∷◌ c (append s t)

abbrev pub value_text : Option String → String
value_text none = ""
value_text (some v) = append "=" v

-- An argument as a user writes it.
unfoldable pub print_argument : Argument → String
print_argument o = append (if o.is_opt then "--" else "") (append o.string (value_text o.value))

unfoldable pub lacks_equals : String → Bool
lacks_equals String.[] = true
lacks_equals (String.◌∷◌ c s) = if code c == b'=' then false else lacks_equals s

before_equals-append :
    (s : String) (o : Option String)
    → lacks_equals s ≡ true
    → before_equals (append s (value_text o)) ≡ s
unfolding before_equals lacks_equals append
before_equals-append String.[] none h = refl
before_equals-append String.[] (some v) h = refl
before_equals-append (String.◌∷◌ c s) o h = ground (arith, h, before_equals-append s o)

after_equals-append :
    (s : String) (o : Option String)
    → lacks_equals s ≡ true
    → after_equals (append s (value_text o)) ≡ o
unfolding after_equals lacks_equals append
after_equals-append String.[] none h = refl
after_equals-append String.[] (some v) h = refl
after_equals-append (String.◌∷◌ c s) o h = ground (arith, h, after_equals-append s o)

has_dashes-append :
    (s : String) (o : Option String)
    → has_dashes s ≡ false
    → has_dashes (append s (value_text o)) ≡ false
unfolding has_dashes append
has_dashes-append String.[] none h = refl
has_dashes-append String.[] (some String.[]) h = refl
has_dashes-append String.[] (some (String.◌∷◌ c v)) h = refl
has_dashes-append (String.◌∷◌ c String.[]) none h = refl
has_dashes-append (String.◌∷◌ c String.[]) (some v) h = ground arith
has_dashes-append (String.◌∷◌ c (String.◌∷◌ d s)) o h = h

parsed :
    (i : ℕ) (string : String) (value : Option String) (is_opt : Bool)
    → lacks_equals string ≡ true
    → not is_opt && has_dashes string ≡ false
    → parse_argument i (append (if is_opt then "--" else "") (append string (value_text value)))
      ≡ record { index = i; string = string; value = value; is_opt = is_opt }
unfolding parse_argument append has_dashes
parsed i s v true h k = rw (before_equals-append s v h) (rw (after_equals-append s v h) refl)
parsed i s v false h k =
    rw (has_dashes-append s v k)
      (rw (before_equals-append s v h) (rw (after_equals-append s v h) refl))

-- An argument whose name holds no `=` and, if it is no option, does not begin with two dashes, is
-- parsed back from its text at any position: with that position, and its name, its value and its kind.
pub parse_argument-print_argument :
    (i : ℕ) (o : Argument)
    → lacks_equals o.string ≡ true
    → not o.is_opt && has_dashes o.string ≡ false
    → parse_argument i (print_argument o) ≡ record o { index = i }
unfolding print_argument
parse_argument-print_argument i o h k = parsed i o.string o.value o.is_opt h k
