-- ===== src/Set/Keeps/Scopes.antt =====
-- Routines that, where they return, leave every scope but the innermost as it was. A routine that
-- reports an error may leave the scope of an unfinished block behind.
use gemstone.Prelude.{
  arith, String, ◌≡◌, refl, ◌∙◌, ap, Bool, true, false, Option, none, some, List, [], ◌∷◌, ◌++◌,
  length, suc, Table, if◌then◌else◌,
}
use gemstone.Set.Types.{VariablePtr, Variable}
use gemstone.Set.Monad.{fail, SetState, M, Run, ok, error, fault, and_then, ◌>>=◌, new_variable}
use gemstone.Set.Scope.{insert_last, set_scope, add_unless, add_var_to_scope}
use gemstone.Set.Statements.{Statement, remove_last, pop_scope, fill_block, of_statements}
use gemstone.Set.Operands.Agree.{OnOk}
use gemstone.Set.Keeps.{
  Keeps-fail, pure, Keeps-reject, Keeps-status, Relation, Keeps, IsFrame, Ends, Keeps-pure,
}
use gemstone.Set.Keeps.Types.{get_variable_from_scope-Keeps}
use gemstone.Set.Keeps.Untouched.{Untouched, Untouched-IsFrame}

pub record SameOuter (s s' : SetState) : Type 0 where
  pub outer : remove_last s'.scope ≡ remove_last s.scope
  pub depth : length s'.scope ≡ length s.scope

of_scope : (s s' : SetState) → s'.scope ≡ s.scope → SameOuter s s'
of_scope s s' e = record { outer = ap remove_last e; depth = ap length e }

Ends-SameOuter : {A : Type 0} (s : SetState) (r : Run A) → Ends Untouched s r → Ends SameOuter s r
Ends-SameOuter s (ok a s') h = of_scope s s' h.scope
Ends-SameOuter s (error s') h = of_scope s s' h.scope
Ends-SameOuter s (fault f) h = tt

weaken : {A : Type 0} (m : M A) → Keeps Untouched m → Keeps SameOuter m
weaken m h = record { at = λ s. Ends-SameOuter s (m s) (h.at s) }

pub SameOuter-IsFrame : IsFrame SameOuter
SameOuter-IsFrame = record {
  same = λ s. of_scope s s refl;
  trans = λ s t u h k. record { outer = k.outer ∙ h.outer; depth = k.depth ∙ h.depth };
  prints = λ k text. weaken _ (Untouched-IsFrame.prints k text);
  grows = λ t. weaken _ (Untouched-IsFrame.grows t);
  negates = λ p. weaken _ (Untouched-IsFrame.negates p);
}

-- Where a routine returned.
abbrev pub OnReturn : {A : Type 0} → Relation → SetState → Run A → Type 0
OnReturn R s (ok a s') = R s s'
OnReturn R s (error s') = Unit
OnReturn R s (fault f) = Unit

pub record Leaves {A : Type 0} (m : M A) : Type 0 where
  pub at : (s : SetState) → OnReturn SameOuter s (m s)

on_return : {A : Type 0} (s : SetState) (r : Run A) → Ends SameOuter s r → OnReturn SameOuter s r
on_return s (ok a s') h = h
on_return s (error s') h = tt
on_return s (fault f) h = tt

pub Leaves-Keeps : {A : Type 0} (m : M A) → Keeps SameOuter m → Leaves m
Leaves-Keeps m h = record { at = λ s. on_return s (m s) (h.at s) }

return_trans :
    {A : Type 0} (s t : SetState) (r : Run A)
    → SameOuter s t
    → OnReturn SameOuter t r
    → OnReturn SameOuter s r
return_trans s t (ok a u) h k = SameOuter-IsFrame.trans s t u h k
return_trans s t (error u) h k = tt
return_trans s t (fault f) h k = tt

return_bind :
    {A B : Type 0} (s : SetState) (r : Run A) (k : A → M B)
    → OnReturn SameOuter s r
    → ((a : A) → Leaves (k a))
    → OnReturn SameOuter s (and_then r k)
return_bind s (ok a t) k h hk = return_trans s t (k a t) h ((hk a).at t)
return_bind s (error t) k h hk = tt
return_bind s (fault f) k h hk = tt

pub Leaves-bind :
    {A B : Type 0} (m : M A) (k : A → M B) → Leaves m → ((a : A) → Leaves (k a)) → Leaves (m >>= k)
Leaves-bind m k hm hk = record { at = λ s. return_bind s (m s) k (hm.at s) hk }

pub Leaves-pure : {A : Type 0} (a : A) → Leaves (ok a)
Leaves-pure a = Leaves-Keeps _ (Keeps-pure SameOuter-IsFrame a)

pub Leaves-if :
    {A : Type 0} (b : Bool) (m n : M A) → Leaves m → Leaves n → Leaves (if b then m else n)
Leaves-if true m n hm hn = hm
Leaves-if false m n hm hn = hn

pub Leaves-new_variable : (v : Variable) → Leaves (new_variable v)
Leaves-new_variable v = record { at = λ s. of_scope s _ refl }

-- Inserting into the last table keeps the others.
insert_last-cons :
    (name : String) (v : VariablePtr) (t u : Table VariablePtr) (rest : List (Table VariablePtr))
    (o : Option (List (Table VariablePtr)))
    → insert_last name v (u ∷ rest) ≡ o
    → insert_last name v (t ∷ u ∷ rest) ≡ elim o [ none ↦ none | some rest' ↦ some (t ∷ rest') ]
unfolding insert_last
insert_last-cons name v t u rest o e = ap later e
  where
    later : Option (List (Table VariablePtr)) → Option (List (Table VariablePtr))
    later none = none
    later (some rest') = some (t ∷ rest')

-- What `set_scope` is called with, against the scope before.
abbrev IsOuter : List (Table VariablePtr) → Option (List (Table VariablePtr)) → Type 0
IsOuter scope none = Unit
IsOuter scope (some scope') =
    (remove_last scope' ≡ remove_last scope) × (length scope' ≡ length scope)

IsOuter-cons :
    (t u : Table VariablePtr) (rest : List (Table VariablePtr))
    (o : Option (List (Table VariablePtr)))
    → IsOuter (u ∷ rest) o
    → IsOuter (t ∷ u ∷ rest) (elim o [ none ↦ none | some rest' ↦ some (t ∷ rest') ])
unfolding remove_last
IsOuter-cons t u rest none h = tt
IsOuter-cons t u rest (some []) h = ground (arith, h.1)
IsOuter-cons t u rest (some (w ∷ ws)) h = (ap (λ xs. t ∷ xs) h.0, ap suc h.1)

insert_last-IsOuter :
    (name : String) (v : VariablePtr) (scope : List (Table VariablePtr))
    → IsOuter scope (insert_last name v scope)
unfolding insert_last remove_last
insert_last-IsOuter name v [] = tt
insert_last-IsOuter name v (t ∷ []) = (refl, refl)
insert_last-IsOuter name v (t ∷ u ∷ rest) =
    rw (insert_last-cons name v t u rest (insert_last name v (u ∷ rest)) refl) (
      IsOuter-cons t u rest (insert_last name v (u ∷ rest)) (insert_last-IsOuter name v (u ∷ rest)))

set_scope-SameOuter :
    (s : SetState) (o : Option (List (Table VariablePtr)))
    → IsOuter s.scope o
    → OnReturn SameOuter s (set_scope o s)
set_scope-SameOuter s none h = tt
set_scope-SameOuter s (some scope) h = record { outer = h.0; depth = h.1 }

add_unless-Leaves :
    (name : String) (v : VariablePtr) (o : Option VariablePtr) → Leaves (add_unless name v o)
unfolding add_unless
add_unless-Leaves name v none = record {
  at = λ s. set_scope-SameOuter s (insert_last name v s.scope) (insert_last-IsOuter name v s.scope);
}
add_unless-Leaves name v (some w) = Leaves-Keeps _ (Keeps-reject SameOuter-IsFrame _)

pub add_var_to_scope-Leaves : (name : String) (v : VariablePtr) → Leaves (add_var_to_scope name v)
unfolding add_var_to_scope
add_var_to_scope-Leaves name v =
    Leaves-bind _ _
      (Leaves-Keeps _
        (Keeps-status SameOuter-IsFrame _ (get_variable_from_scope-Keeps SameOuter-IsFrame name)))
      (add_unless-Leaves name v)

remove_last-append : {A : Type 0} (xs : List A) (x : A) → remove_last (xs ++ x ∷ []) ≡ xs
unfolding remove_last
remove_last-append [] x = refl
remove_last-append (y ∷ []) x = refl
remove_last-append (y ∷ z ∷ xs) x = ap (λ ys. y ∷ ys) (remove_last-append (z ∷ xs) x)

-- A block that is filled leaves the scope as it found it.
pub fill_block-scope :
    (m : M (List Statement)) (s : SetState)
    → Leaves m
    → OnOk (λ b s'. s'.scope ≡ s.scope) (fill_block m s)
unfolding fill_block
fill_block-scope m s h = go (m pushed) (h.at pushed)
  where
    pushed : SetState
    pushed = record s { scope = s.scope ++ [] ∷ [] }

    go :
        (r : Run (List Statement))
        → OnReturn SameOuter pushed r
        → OnOk
            (λ b s'. s'.scope ≡ s.scope)
            (and_then r (λ ss. pop_scope >>= λ u. pure (of_statements ss)))
    go (ok ss s') k = k.outer ∙ remove_last-append s.scope []
    go (error s') k = tt
    go (fault f) k = tt

-- A routine whose result is not used further.
pub Leaves-fail : {A : Type 0} → Leaves (fail {A = A})
Leaves-fail = Leaves-Keeps _ (Keeps-fail SameOuter-IsFrame)

scope_return :
    {A : Type 0} (s : SetState) (r : Run A)
    → OnOk (λ a s'. s'.scope ≡ s.scope) r
    → OnReturn SameOuter s r
scope_return s (ok a s') h = of_scope s s' h
scope_return s (error s') h = tt
scope_return s (fault f) h = tt

pub fill_block-Leaves : (m : M (List Statement)) → Leaves m → Leaves (fill_block m)
fill_block-Leaves m h = record {
  at = λ s. scope_return s (fill_block m s) (fill_block-scope m s h);
}
