-- ===== src/Set/Scope/Lookup.antt =====
-- What `getVariableFromScope` finds in any scope, shadowed names and all.
use gemstone.Prelude.{
  ℕ, ◌+◌, ◌≡◌, refl, ap, ◌∙◌, String, Option, none, some, true, List, [], ◌∷◌, length, ltb, Table,
  lookup, arith,
}
use gemstone.Set.Types.{VariablePtr}
use gemstone.Set.Monad.{SetState, M, pure, fail, ◌>>◌, load_variable, print_diagnostic, warning}
use gemstone.Set.Scope.{find_in_scope, note_shadowing, found_variable, get_variable_from_scope}

-- The variables that the tables hold under a name, the module's table first.
unfoldable pub holders : String → List (Table VariablePtr) → List VariablePtr
holders name [] = []
holders name (table ∷ tables) = elim (lookup table name) [
  | none ↦ holders name tables
  | some v ↦ v ∷ holders name tables
]

-- The answer, by the variables of the name: an error, the variable, or the first of them with a warning.
unfoldable pub first_holder : List VariablePtr → M VariablePtr
first_holder [] = fail
first_holder (v ∷ []) = do load_variable v; pure v
first_holder (v ∷ w ∷ vs) = do
  load_variable v
  print_diagnostic warning "Parameter shadows variable of same name: %s"
  pure v

abbrev first : List VariablePtr → Option VariablePtr
first [] = none
first (v ∷ vs) = some v

abbrev here : Option VariablePtr → Option VariablePtr × ℕ → Option VariablePtr × ℕ
here none later = later
here (some v) later = (some v, later.1 + 1)

abbrev held : Option VariablePtr → List VariablePtr → List VariablePtr
held none vs = vs
held (some v) vs = v ∷ vs

here-held :
    (o : Option VariablePtr) (vs : List VariablePtr)
    → here o (first vs, length vs) ≡ (first (held o vs), length (held o vs))
here-held none vs = refl
here-held (some v) vs = ap (λ n. (some v, n)) (omega arith)

find_in_scope-holders :
    (name : String) (tables : List (Table VariablePtr))
    → find_in_scope name tables ≡ (first (holders name tables), length (holders name tables))
unfolding find_in_scope holders
find_in_scope-holders name [] = refl
find_in_scope-holders name (table ∷ tables) =
    go (lookup table name) refl (find_in_scope-holders name tables)
  where
    go :
        (o : Option VariablePtr)
        → lookup table name ≡ o
        → find_in_scope name tables ≡ (first (holders name tables), length (holders name tables))
        → find_in_scope name (table ∷ tables)
          ≡ (first (holders name (table ∷ tables)), length (holders name (table ∷ tables)))
    go none e h = rw (e, find_in_scope, holders) h
    go (some v) e h =
        rw (e, find_in_scope, holders)
          (ap (here (some v)) h ∙ here-held (some v) (holders name tables))

found_variable-first_holder :
    (vs : List VariablePtr) (s : SetState)
    → found_variable (first vs) (length vs) s ≡ first_holder vs s
unfolding found_variable note_shadowing first_holder
found_variable-first_holder [] s = refl
found_variable-first_holder (v ∷ []) s = refl
found_variable-first_holder (v ∷ w ∷ vs) s = rw many refl
  where
    many : ltb 1 (length (v ∷ w ∷ vs)) ≡ true
    many = ground arith

-- Whatever the scope: a name that no table holds is an error, and nothing is printed; a name that one table
-- holds gives its variable, and nothing is printed; a name that several hold gives the variable of the first
-- of these tables, and one warning is printed. An address at which there is no variable is a fault.
pub get_variable_from_scope-holders :
    (name : String) (s : SetState)
    → get_variable_from_scope name s ≡ first_holder (holders name s.scope) s
unfolding get_variable_from_scope
get_variable_from_scope-holders name s =
    ap (λ r. found_variable r.0 r.1 s) (find_in_scope-holders name s.scope)
    ∙ found_variable-first_holder (holders name s.scope) s
