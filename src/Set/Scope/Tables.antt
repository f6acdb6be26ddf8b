-- ===== src/Set/Scope/Tables.antt =====
-- What `fillTablesWithVars` makes of a table and of variables whose names may be taken.
use mathlib.Core.Bool.{true≢false}
use gemstone.Prelude.{
  ◌≡◌, refl, ◌∙◌, ◌⊎◌, inl, inr, String, Bool, true, false, ◌||◌, Option, none, some, List, [], ◌∷◌,
  ◌++◌, Table, lookup, insert, lookup-insert, contains, is_some, eq_iff, str_eq, if◌then◌else◌,
  Bool-cases, arith,
}
use gemstone.Set.Types.{VariablePtr}
use gemstone.Set.Monad.{SetState, Run, ok, error_message}
use gemstone.Set.Scope.{fill_tables_with_vars}

abbrev pub Variables : Type 0
Variables = List (String × VariablePtr)

-- Some name is in the table, or given twice.
unfoldable pub clash : Table VariablePtr → Variables → Bool
clash table [] = false
clash table ((name, v) ∷ vars) = contains table name || (contains vars name || clash table vars)

abbrev pub or_else : Option VariablePtr → Option VariablePtr → Option VariablePtr
or_else none o = o
or_else (some v) o = some v

-- How the filling ends for a name, by whether there is a clash.
abbrev pub Filled :
    Table VariablePtr
    → Variables
    → SetState
    → String
    → Bool
    → Run (Table VariablePtr × Bool)
    → Type 0
Filled table vars s j false r =
    (filled : Table VariablePtr) × (r ≡ ok (filled, true) s)
    × (lookup filled j ≡ or_else (lookup table j) (lookup vars j))
Filled table vars s j true r =
    (filled : Table VariablePtr) × (r
      ≡ ok (filled, false)
          (record s {
            diagnostics =
                s.diagnostics
                ++ record { kind = error_message; text = "Variable already exists" } ∷ [];
          }))
    × ((lookup filled j ≡ lookup table j)
        ⊎ (lookup filled j ≡ or_else (lookup table j) (lookup vars j)))

str_eq_comm : (a b : String) → str_eq a b ≡ str_eq b a
str_eq_comm a b = ground (arith, eq_iff a b, eq_iff b a)

module _ (v w : VariablePtr) where
  -- A name that is taken twice is taken, in whatever order one looks.
  taken_order :
      (same : Bool) (o o' : Option VariablePtr) (m c : Bool)
      → (is_some (if same then some v else o) || (m || (is_some o' || c)))
        ≡ (is_some (if same then some w else o') || (is_some o || (m || c)))
  taken_order true o o' m c = refl
  taken_order false none none m c = refl
  taken_order false none (some _) true c = refl
  taken_order false none (some _) false c = refl
  taken_order false (some _) none m c = refl
  taken_order false (some _) (some _) m c = refl

clash-insert :
    (table : Table VariablePtr) (name : String) (v : VariablePtr) (vars : Variables)
    → clash (insert table name v) vars ≡ (contains vars name || clash table vars)
unfolding clash lookup
clash-insert table name v [] = refl
clash-insert table name v ((m, w) ∷ vars) =
    rw (lookup-insert table name v m, clash-insert table name v vars, str_eq_comm m name)
      (taken_order v w (str_eq name m) (lookup table m) (lookup vars name) (contains vars m)
        (clash table vars))

-- A name that is not in the table is looked for further on.
or_else-fresh : (o o' : Option VariablePtr) → is_some o ≡ false → o' ≡ or_else o o'
or_else-fresh none o' h = refl
or_else-fresh (some w) o' h = absurd (true≢false h)

-- The lookups behind an insertion of a name that is not there.
module _ (table : Table VariablePtr) (name : String) (v : VariablePtr) (vars : Variables)
    (j : String) (fresh : contains table name ≡ false) where
  inserted_here : str_eq name j ≡ true → some v ≡ or_else (lookup table j) (some v)
  inserted_here e = or_else-fresh (lookup table j) (some v) (rw (← (eq_iff name j).0 e) fresh)

  after_insert :
      or_else (lookup (insert table name v) j) (lookup vars j)
      ≡ or_else (lookup table j) (lookup ((name, v) ∷ vars) j)
  unfolding lookup
  after_insert =
      rw (lookup-insert table name v j)
        (elim (Bool-cases (str_eq name j)) [ inl e ↦ rw e (inserted_here e) | inr e ↦ rw e refl ])

  kept_or_new :
      (lookup (insert table name v) j ≡ lookup table j)
      ⊎ (lookup (insert table name v) j ≡ or_else (lookup table j) (lookup ((name, v) ∷ vars) j))
  unfolding lookup
  kept_or_new = rw (lookup-insert table name v j) (elim (Bool-cases (str_eq name j)) [
    | inl e ↦ inr (rw e (inserted_here e))
    | inr e ↦ inl (rw e refl)
  ])

-- Where one more variable was added, the rest is filled as from the table with it.
Filled-step :
    (table : Table VariablePtr) (name : String) (v : VariablePtr) (vars : Variables) (s : SetState)
    (j : String) (b : Bool) (r : Run (Table VariablePtr × Bool))
    → contains table name ≡ false
    → Filled (insert table name v) vars s j b r
    → Filled table ((name, v) ∷ vars) s j b r
unfolding lookup
Filled-step table name v vars s j false r fresh (t, e, h) =
    (t, e, h ∙ after_insert table name v vars j fresh)
Filled-step table name v vars s j true r fresh (t, e, inl h) =
    (t, e, rw h (kept_or_new table name v vars j fresh))
Filled-step table name v vars s j true r fresh (t, e, inr h) =
    (t, e, inr (h ∙ after_insert table name v vars j fresh))

-- `fillTablesWithVars` is a success, and prints nothing, just when no name of the variables is in the table or
-- given twice; then a name gives what the table gave, and otherwise its variable. Else the status is an
-- error, one diagnostic is printed, and every name gives what the table gave or, where that is nothing, still
-- nothing or its variable.
pub fill_tables_with_vars-Filled :
    (table : Table VariablePtr) (vars : Variables) (s : SetState) (j : String)
    → Filled table vars s j (clash table vars) (fill_tables_with_vars table vars s)
unfolding fill_tables_with_vars clash lookup
fill_tables_with_vars-Filled table [] s j = (table, refl, or_none (lookup table j))
  where
    or_none : (o : Option VariablePtr) → o ≡ or_else o none
    or_none none = refl
    or_none (some v) = refl
fill_tables_with_vars-Filled table ((name, v) ∷ vars) s j =
    elim (Bool-cases (contains table name)) [
      | inl taken ↦ rw taken (table, refl, inl refl)
      | inr fresh ↦ rw fresh (
          rw (← clash-insert table name v vars) (
            Filled-step table name v vars s j (clash (insert table name v) vars) _ fresh
              (fill_tables_with_vars-Filled (insert table name v) vars s j)))
    ]
