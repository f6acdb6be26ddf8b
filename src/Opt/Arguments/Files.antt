-- ===== src/Opt/Arguments/Files.antt =====
-- The files that `get_non_options_after` of src/cfg/opt.c gives, in whatever order GLib iterates.
use mathlib.Core.Logic.{∥∥₁_elim}
use mathlib.Core.List.{Perm, Permᴰ}
use native.Mathlib.Nat.{ℕ_set}
use gemstone.Prelude.{
  ℕ, suc, ◌+◌, ◌≡◌, refl, sym, ap, ◌∙◌, String, Bool, true, false, ◌&&◌, not, Option, none, some,
  List, [], ◌∷◌, ltb, str_eq, eq_iff, Bool-cases, inl, inr, if◌then◌else◌, lookup, insert,
  lookup-insert, arith,
}
use gemstone.Opt.Arguments.{
  Argument, Arguments, parse_argument, parse_from, parse_options, get_option, non_options_behind,
  null_if_empty, get_non_options_after,
}
use gemstone.Opt.Arguments.Lookup.{last_named, get_option-parse_options}

abbrev one_if : Bool → ℕ
one_if b = if b then 1 else 0

-- How often a text is among others.
unfoldable pub count : String → List String → ℕ
count k [] = 0
count k (s ∷ ss) = one_if (str_eq s k) + count k ss

count-cons_if :
    (k s : String) (b : Bool) (ss : List String)
    → count k (if b then s ∷ ss else ss) ≡ one_if (b && str_eq s k) + count k ss
unfolding count
count-cons_if k s true ss = refl
count-cons_if k s false ss = omega arith

-- An argument stands behind an index and is no option.
abbrev pub is_behind : ℕ → Option Argument → Bool
is_behind i none = false
is_behind i (some a) = not a.is_opt && ltb i a.index

abbrev pub at : String → Argument → ℕ → ℕ
at k a i = one_if ((not a.is_opt && ltb i a.index) && str_eq a.string k)

count-step :
    (k key : String) (a : Argument) (i : ℕ) (entries : List (String × Argument))
    → count k (non_options_behind i ((key, a) ∷ entries))
      ≡ at k a i + count k (non_options_behind i entries)
unfolding non_options_behind
count-step k key a i entries = count-cons_if k a.string _ (non_options_behind i entries)

count-swap :
    (k : String) (i : ℕ) (e f : String × Argument) (xs : List (String × Argument))
    → count k (non_options_behind i (e ∷ f ∷ xs)) ≡ count k (non_options_behind i (f ∷ e ∷ xs))
count-swap k i (key, a) (key', a') xs =
    rw (count-step k key a i ((key', a') ∷ xs), count-step k key' a' i ((key, a) ∷ xs))
      (rw (count-step k key' a' i xs, count-step k key a i xs) (omega arith))

count-cons :
    (k : String) (i : ℕ) (e : String × Argument) (xs ys : List (String × Argument))
    → count k (non_options_behind i xs) ≡ count k (non_options_behind i ys)
    → count k (non_options_behind i (e ∷ xs)) ≡ count k (non_options_behind i (e ∷ ys))
count-cons k i (key, a) xs ys h =
    rw (count-step k key a i xs, count-step k key a i ys) (ap (λ n. at k a i + n) h)

count-Permᴰ :
    (k : String) (i : ℕ) {es fs : List (String × Argument)}
    → Permᴰ es fs
    → count k (non_options_behind i es) ≡ count k (non_options_behind i fs)
count-Permᴰ k i Permᴰ.nil = refl
count-Permᴰ k i (Permᴰ.cons {a = a} {l₁ = xs} {l₂ = ys} e p) =
    count-cons k i a xs ys (count-Permᴰ k i p) ∙ ap (λ x. count k (non_options_behind i (x ∷ ys))) e
count-Permᴰ k i (Permᴰ.swap {a = a} {b = b} {a' = a'} {l = xs} e f) =
    count-swap k i a b xs
    ∙ (ap (λ x. count k (non_options_behind i (x ∷ a ∷ xs))) f
        ∙ ap (λ x. count k (non_options_behind i (a' ∷ x ∷ xs))) e)
count-Permᴰ k i (Permᴰ.trans p q) = count-Permᴰ k i p ∙ count-Permᴰ k i q

-- The order of the entries does not matter.
count-Perm :
    (k : String) (i : ℕ) {es fs : List (String × Argument)}
    → Perm es fs
    → count k (non_options_behind i es) ≡ count k (non_options_behind i fs)
count-Perm k i p = ∥∥₁_elim p (ℕ_set _ _) (count-Permᴰ k i)

str_eq_comm : (a b : String) → str_eq a b ≡ str_eq b a
str_eq_comm a b = ground (arith, eq_iff a b, eq_iff b a)

-- Every argument is under its name, and no name has two.
abbrev Keyed : Arguments → Type 0
Keyed [] = Unit
Keyed ((key, a) ∷ args) = (a.string ≡ key) × (lookup args key ≡ none) × Keyed args

Keyed-insert : (args : Arguments) (a : Argument) → Keyed args → Keyed (insert args a.string a)
unfolding insert lookup
Keyed-insert [] a h = (refl, refl, tt)
Keyed-insert ((key, b) ∷ args) a (e, fresh, h) = elim (Bool-cases (str_eq key a.string)) [
  | inl same ↦ rw same (refl, rw (← (eq_iff key a.string).0 same) fresh, h)
  | inr other ↦ rw other (e, still other, Keyed-insert args a h)
]
  where
    still : str_eq key a.string ≡ false → lookup (insert args a.string a) key ≡ none
    still other =
        rw (lookup-insert args a.string a key) (rw (str_eq_comm a.string key, other) fresh)

Keyed-parse :
    (argv : List String) (i : ℕ) (args : Arguments) → Keyed args → Keyed (parse_from i argv args)
unfolding parse_from
Keyed-parse [] i args h = h
Keyed-parse (arg ∷ argv) i args h =
    Keyed-parse argv (suc i) _ (Keyed-insert args (parse_argument i arg) h)

one_if-true : (b : Bool) → one_if (b && true) + 0 ≡ one_if b
one_if-true true = refl
one_if-true false = refl

one_if-false : (b : Bool) (n : ℕ) → one_if (b && false) + n ≡ n
one_if-false true n = omega arith
one_if-false false n = omega arith

-- In such a table a name is counted once or not at all.
count-Keyed :
    (k : String) (i : ℕ) (args : Arguments)
    → Keyed args
    → count k (non_options_behind i args) ≡ one_if (is_behind i (lookup args k))
unfolding lookup non_options_behind count
count-Keyed k i [] h = refl
count-Keyed k i ((key, a) ∷ args) (e, fresh, h) =
    count-step k key a i args
    ∙ rw (count-Keyed k i args h) (elim (Bool-cases (str_eq key k)) [
      | inl same ↦
          let gone : lookup args k ≡ none =
            ap (lookup args) (sym ((eq_iff key k).0 same)) ∙ fresh in
          let here : str_eq a.string k ≡ true = rw e same in
          rw (same, here, gone) (one_if-true (not a.is_opt && ltb i a.index))
      | inr other ↦
          let elsewhere : str_eq a.string k ≡ false = rw e other in
          rw (other, elsewhere) (one_if-false (not a.is_opt && ltb i a.index) _)
    ])

abbrev pub times : Option (List String) → String → ℕ
times none k = 0
times (some files) k = count k files

-- Whether the last argument of a name is no option and stands behind the last one of the command's name.
abbrev pub is_file : Option Argument → Option Argument → Bool
is_file none file = false
is_file (some command) file = is_behind command.index file

abbrev pub is_empty_array : Option (List String) → Bool
is_empty_array none = false
is_empty_array (some []) = true
is_empty_array (some (s ∷ ss)) = false

null_if_empty-filled : (ss : List String) → is_empty_array (null_if_empty ss) ≡ false
null_if_empty-filled [] = refl
null_if_empty-filled (s ∷ ss) = refl

count-null_if_empty : (k : String) (ss : List String) → times (null_if_empty ss) k ≡ count k ss
unfolding count
count-null_if_empty k [] = refl
count-null_if_empty k (s ∷ ss) = refl

module _ (iterate : Arguments → List (String × Argument))
    (reordered : (args : Arguments) → Perm (iterate args) args) where
  -- The files behind a command that is found, or not.
  behind : Option Argument → Arguments → Option (List String)
  behind none args = none
  behind (some command) args = null_if_empty (non_options_behind command.index (iterate args))

  behind-count :
      (command : Option Argument) (args : Arguments) (file : String)
      → Keyed args
      → times (behind command args) file ≡ one_if (is_file command (lookup args file))
  unfolding behind
  behind-count none args file h = refl
  behind-count (some command) args file h =
      count-null_if_empty file (non_options_behind command.index (iterate args))
      ∙ count-Perm file command.index (reordered args)
      ∙ count-Keyed file command.index args h

  behind-filled :
      (command : Option Argument) (args : Arguments) → is_empty_array (behind command args) ≡ false
  unfolding behind
  behind-filled none args = refl
  behind-filled (some command) args = null_if_empty-filled _

  get_non_options_after-behind :
      (args : Arguments) (command : String)
      → get_non_options_after iterate args command ≡ behind (get_option args command) args
  unfolding get_non_options_after behind
  get_non_options_after-behind args command = go (get_option args command) refl
    where
      go :
          (o : Option Argument)
          → get_option args command ≡ o
          → get_non_options_after iterate args command ≡ behind o args
      go none e = rw (e, get_non_options_after) refl
      go (some option) e = rw (e, get_non_options_after) refl

  -- Where an iteration over a table visits every entry once, in any order, a text is among what
  -- `get_non_options_after` gives for a command line just when the last argument of that name is no option
  -- and stands behind the last argument of the command's name, and then it is there once. Where the
  -- command is not there, no text is. There is never an empty array, but `NULL`.
  pub get_non_options_after-count :
      (argv : List String) (command file : String)
      → (times (get_non_options_after iterate (parse_options argv) command) file
          ≡ (if is_file (last_named command 0 argv) (last_named file 0 argv) then 1 else 0))
        × (is_empty_array (get_non_options_after iterate (parse_options argv) command) ≡ false)
  unfolding parse_options get_option
  get_non_options_after-count argv command file =
      rw (get_non_options_after-behind (parse_options argv) command) (
        behind-count (get_option (parse_options argv) command) (parse_options argv) file
              (Keyed-parse argv 0 [] tt)
            ∙ (ap (λ o. one_if (is_file o (lookup (parse_options argv) file)))
                  (get_option-parse_options argv command)
                ∙ ap (λ o. one_if (is_file (last_named command 0 argv) o))
                    (get_option-parse_options argv file)),
        behind-filled (get_option (parse_options argv) command) (parse_options argv),
      )
