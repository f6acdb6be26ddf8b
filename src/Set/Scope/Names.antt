-- ===== src/Set/Scope/Names.antt =====
-- The names in scope: `addVarToScope` keeps them different, so a lookup never warns of shadowing.
use gemstone.Prelude.{
  ◌⊎◌, inl, inr, Bool-cases, str_eq, Bool-cases, ◌⊎◌, ℕ, ◌+◌, ◌≤◌, ◌<◌, ◌≡◌, ◌≢◌, refl, ◌∙◌, ap,
  sym, String, List, [], ◌∷◌, Option, none, some, length, ltb, Table, lookup, insert, lookup-insert,
  eq_iff, arith, false, get_elem?_of_lt,
}
use mathlib.Core.Bool.{true≢false}
use gemstone.Set.Types.{VariablePtr}
use gemstone.Set.Monad.{reject, SetState, ok, or_fail}
use gemstone.Set.Scope.{
  find_in_scope, note_shadowing, found_variable, insert_last, get_variable_from_scope, add_unless,
  add_var_to_scope,
}

-- The steps of the loop of `getVariableFromScope`.
abbrev found_here : Option VariablePtr → Option VariablePtr × ℕ → Option VariablePtr × ℕ
found_here none later = later
found_here (some v) later = (some v, later.1 + 1)

find-cons :
    (name : String) (t : Table VariablePtr) (ts : List (Table VariablePtr))
    → find_in_scope name (t ∷ ts) ≡ found_here (lookup t name) (find_in_scope name ts)
unfolding find_in_scope
find-cons name t ts = go (lookup t name) refl
  where
    go :
        (o : Option VariablePtr)
        → lookup t name ≡ o
        → find_in_scope name (t ∷ ts) ≡ found_here o (find_in_scope name ts)
    go none e = rw (e, find_in_scope) refl
    go (some v) e = rw (e, find_in_scope) refl

find-nil : (name : String) → find_in_scope name [] ≡ (none, 0)
unfolding find_in_scope
find-nil name = refl

found_here-none :
    (o : Option VariablePtr) (l : Option VariablePtr × ℕ)
    → (found_here o l).0 ≡ none
    → (o ≡ none) × (found_here o l ≡ l)
found_here-none none l e = (refl, refl)
found_here-none (some v) l e = ground (arith, e)

-- A name that is not found is in no table.
find-missing :
    (name : String) (t : Table VariablePtr) (ts : List (Table VariablePtr))
    → (find_in_scope name (t ∷ ts)).0 ≡ none
    → (lookup t name ≡ none) × (find_in_scope name (t ∷ ts) ≡ find_in_scope name ts)
find-missing name t ts e =
    let step = find-cons name t ts in
    let here =
      found_here-none (lookup t name) (find_in_scope name ts) (ap (λ x. x.0) (sym step) ∙ e) in
    (here.0, step ∙ here.1)

-- A name that is not found is counted nowhere.
find-none :
    (name : String) (ts : List (Table VariablePtr))
    → (find_in_scope name ts).0 ≡ none
    → (find_in_scope name ts).1 ≡ 0
find-none name [] e = ap (λ x. x.1) (find-nil name)
find-none name (t ∷ ts) e =
    let same = (find-missing name t ts e).1 in
    ap (λ x. x.1) same ∙ find-none name ts (ap (λ x. x.0) (sym same) ∙ e)

module _ (name : String) (v : VariablePtr) where
  lookup-insert_ne :
      (t : Table VariablePtr) (j : String) → name ≢ j → lookup (insert t name v) j ≡ lookup t j
  lookup-insert_ne t j h = ground (arith, lookup-insert t name v j, eq_iff name j)

  lookup-insert_self : (t : Table VariablePtr) → lookup (insert t name v) name ≡ some v
  lookup-insert_self t = ground (arith, lookup-insert t name v name, eq_iff name name)

  -- The tables after an insertion into the last: there is one, the name is in it, and every other name
  -- is found as before.
  record Inserted (scope scope' : List (Table VariablePtr)) : Type 0 where
    does : insert_last name v scope ≡ some scope'
    others : (j : String) → name ≢ j → find_in_scope j scope' ≡ find_in_scope j scope
    new : (find_in_scope name scope).0 ≡ none → find_in_scope name scope' ≡ (some v, 1)
    more : 0 < length scope'

  insert_last-Inserted :
      (t : Table VariablePtr) (ts : List (Table VariablePtr))
      → (scope' : List (Table VariablePtr)) × Inserted (t ∷ ts) scope'
  unfolding insert_last
  insert_last-Inserted t [] = (
    insert t name v ∷ [],
    record {
      does = refl;
      others = λ j h.
          find-cons j (insert t name v) [] ∙ (rw (lookup-insert_ne t j h) (sym (find-cons j t [])));
      new = λ e.
          find-cons name (insert t name v) []
          ∙ rw (lookup-insert_self t) (ap (found_here (some v)) (find-nil name));
      more = omega arith;
    },
  )
  insert_last-Inserted t (u ∷ us) =
      let (rest, i) = insert_last-Inserted u us in
      (
        t ∷ rest,
        record {
          does = rw (i.does) refl;
          others = λ j h. find-cons j t rest ∙ (rw (i.others j h) (sym (find-cons j t (u ∷ us))));
          new = λ e.
              let gone = find-missing name t (u ∷ us) e in
              find-cons name t rest ∙ rw (gone.0) (i.new (ap (λ x. x.0) (sym gone.1) ∙ e));
          more = omega arith;
        },
      )

  inserted :
      (scope : List (Table VariablePtr))
      → 0 < length scope
      → (scope' : List (Table VariablePtr)) × Inserted scope scope'
  inserted [] h = absurd (omega (arith, h))
  inserted (t ∷ ts) h = insert_last-Inserted t ts

-- Every name is in at most one table, every variable that is found is there, and there is a table.
pub record HasDistinctNames (s : SetState) : Type 0 where
  pub once : (name : String) → (find_in_scope name s.scope).1 ≤ 1
  pub there :
      (name : String) (v : VariablePtr)
      → (find_in_scope name s.scope).0 ≡ some v
      → v < length s.variables
  pub table : 0 < length s.scope

at_most_one : (n : ℕ) → n ≤ 1 → ltb 1 n ≡ false
at_most_one n h = ground arith

-- While the names in scope are different, `getVariableFromScope` gives the variable of the name or its
-- error, and prints nothing: the warning that a name is shadowed is never reached.
get_variable_from_scope-quiet :
    (name : String) (s : SetState)
    → HasDistinctNames s
    → get_variable_from_scope name s ≡ or_fail (find_in_scope name s.scope).0 s
unfolding get_variable_from_scope found_variable note_shadowing
get_variable_from_scope-quiet name s h =
    go (find_in_scope name s.scope).0 (find_in_scope name s.scope).1 (h.once name) (h.there name)
  where
    go :
        (o : Option VariablePtr) (n : ℕ)
        → n ≤ 1
        → ((v : VariablePtr) → o ≡ some v → v < length s.variables)
        → found_variable o n s ≡ or_fail o s
    go none n small there = refl
    go (some v) n small there =
        let (x, e) = get_elem?_of_lt s.variables v (there v refl) in
        rw (e, at_most_one n small) refl

string_cases : (a b : String) → (a ≡ b) ⊎ (a ≢ b)
string_cases a b = elim (Bool-cases (str_eq a b)) [
  | inl e ↦ inl ((eq_iff a b).0 e)
  | inr e ↦ inr (λ p. true≢false ((sym ((eq_iff a b).1 p)) ∙ e))
]

some-bounded : (v w n : ℕ) → some v ≡ some w → v < n → w < n
some-bounded v w n e h = ground (arith, e, h)

module _ (name : String) (v : VariablePtr) (s : SetState) where
  -- How `addVarToScope` ends, by what a lookup of its name finds before.
  abbrev pub Adds : String → Option VariablePtr → Type 0
  Adds j none =
      (s' : SetState) × (add_var_to_scope name v s ≡ ok tt s')
      × HasDistinctNames s'
      × (get_variable_from_scope name s' ≡ ok v s')
      × (find_in_scope j s'.scope ≡ find_in_scope j s.scope)
  Adds j (some w) = add_var_to_scope name v s ≡ reject "Variable already exist: " s

module _ (name : String) (v : VariablePtr) (s : SetState) (h : HasDistinctNames s)
    (known : v < length s.variables) where
  Inserted-HasDistinctNames :
      (scope' : List (Table VariablePtr))
      → (find_in_scope name s.scope).0 ≡ none
      → Inserted name v s.scope scope'
      → HasDistinctNames (record s { scope = scope' })
  Inserted-HasDistinctNames scope' e i = record {
    once = λ j. elim (string_cases name j) [
      | inl p ↦ rw (← p) (rw (i.new e) (omega arith))
      | inr n ↦ rw (i.others j n) (h.once j)
    ];
    there = λ j w f. elim (string_cases name j) [
      | inl p ↦
          some-bounded v w (length s.variables)
            (ap (λ x. x.0) (sym (i.new e)) ∙ (ap (λ k. (find_in_scope k scope').0) p ∙ f)) known
      | inr n ↦ h.there j w (ap (λ x. x.0) (sym (i.others j n)) ∙ f)
    ];
    table = i.more;
  }

  -- With different names in scope, `addVarToScope` ends in one of two ways. A name that is not found is
  -- added: the names are still different, a lookup then gives the variable and prints nothing, and any
  -- other name is found as before. A name that is found is refused with an error message, and the scope
  -- stays as it was.
  pub add_var_to_scope-Adds :
      (j : String) → name ≢ j → Adds name v s j (find_in_scope name s.scope).0
  unfolding add_var_to_scope add_unless
  add_var_to_scope-Adds j n = go (find_in_scope name s.scope).0 refl
    where
      go : (o : Option VariablePtr) → (find_in_scope name s.scope).0 ≡ o → Adds name v s j o
      go none e =
          let (scope', i) = inserted name v s.scope h.table in
          let s' : SetState = record s { scope = scope' } in
          let distinct = Inserted-HasDistinctNames scope' e i in
          (
            s',
            rw (get_variable_from_scope-quiet name s h) (rw e (rw (i.does) refl)),
            distinct,
            get_variable_from_scope-quiet name s' distinct ∙ ap (λ r. or_fail r.0 s') (i.new e),
            i.others j n,
          )
      go (some w) e = rw (get_variable_from_scope-quiet name s h) (rw e refl)
