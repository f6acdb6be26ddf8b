-- ===== src/Set/Keeps/Analysed.antt =====
-- What `create_set` leaves as it was, over the whole analysis of a module.
use mathlib.Core.Path.{subst}
use gemstone.Prelude.{
  ℕ, ◌≡◌, refl, ◌∙◌, String, some, [], ◌∷◌, get_elem?, get_elem?-append_old, lt_of_get_elem?,
}
use gemstone.Set.Types.{Variable, VariablePtr}
use gemstone.Set.Monad.{SetState, M, Run, ok, error, fault}
use gemstone.Set.Expression.{Node}
use gemstone.Set.Module.{create_set}
use gemstone.Set.Keeps.{Keeps, IsFrame, Ends}
use gemstone.Set.Keeps.Untouched.{
  Extends-refl, Extends-trans, Extends, Untouched, Untouched-IsFrame,
}
use gemstone.Set.Keeps.Statements.{IsStoreFrame}
use gemstone.Set.Keeps.Module.{module_entries-Keeps}

-- The types that were there are there up to the sign of a composite, the variables that were there are
-- there as they were, and so are the tables of defined functions and of declared boxes.
pub record Analysed (s s' : SetState) : Type 0 where
  pub heap : Extends s.types s'.types
  pub variables :
      (v : VariablePtr) (x : Variable)
      → get_elem? s.variables v ≡ some x
      → get_elem? s'.variables v ≡ some x
  pub declared_boxes : s'.declared_boxes ≡ s.declared_boxes
  pub defined_functions : s'.defined_functions ≡ s.defined_functions

-- A step that writes neither types nor variables nor those tables.
unchanged :
    (s s' : SetState)
    → s'.types ≡ s.types
    → s'.variables ≡ s.variables
    → s'.declared_boxes ≡ s.declared_boxes
    → s'.defined_functions ≡ s.defined_functions
    → Analysed s s'
unchanged s s' t v b d = record {
  heap = rw t (Extends-refl s.types);
  variables = λ i x e. rw v e;
  declared_boxes = b;
  defined_functions = d;
}

Untouched-Analysed : (s s' : SetState) → Untouched s s' → Analysed s s'
Untouched-Analysed s s' h = record {
  heap = h.heap;
  variables = λ i x e. rw (h.variables) e;
  declared_boxes = h.declared_boxes;
  defined_functions = h.defined_functions;
}

Ends-Analysed : {A : Type 0} (s : SetState) (r : Run A) → Ends Untouched s r → Ends Analysed s r
Ends-Analysed s (ok a s') h = Untouched-Analysed s s' h
Ends-Analysed s (error s') h = Untouched-Analysed s s' h
Ends-Analysed s (fault f) h = tt

weaken : {A : Type 0} (m : M A) → Keeps Untouched m → Keeps Analysed m
weaken m h = record { at = λ s. Ends-Analysed s (m s) (h.at s) }

Analysed-IsFrame : IsFrame Analysed
Analysed-IsFrame = record {
  same = λ s. unchanged s s refl refl refl refl;
  trans = λ s t u h k. record {
    heap = Extends-trans s.types t.types u.types h.heap k.heap;
    variables = λ i x e. k.variables i x (h.variables i x e);
    declared_boxes = k.declared_boxes ∙ h.declared_boxes;
    defined_functions = k.defined_functions ∙ h.defined_functions;
  };
  prints = λ k text. weaken _ (Untouched-IsFrame.prints k text);
  grows = λ t. weaken _ (Untouched-IsFrame.grows t);
  negates = λ p. weaken _ (Untouched-IsFrame.negates p);
}

Analysed-IsStoreFrame : IsStoreFrame Analysed
Analysed-IsStoreFrame = record {
  frame = Analysed-IsFrame;
  scopes = λ scope s. unchanged s _ refl refl refl refl;
  variables = λ v. record {
    at = λ s. record {
      heap = Extends-refl s.types;
      variables = λ i x e.
          get_elem?-append_old s.variables (v ∷ []) i (lt_of_get_elem? s.variables i x e) ∙ e;
      declared_boxes = refl;
      defined_functions = refl;
    };
  };
  parameters = λ table. record { at = λ s. unchanged s _ refl refl refl refl };
  functions = λ f. record { at = λ s. unchanged s _ refl refl refl refl };
  renames = λ p f. record { at = λ s. unchanged s _ refl refl refl refl };
  declares = λ name f. record { at = λ s. unchanged s _ refl refl refl refl };
  composites = λ table s. unchanged s _ refl refl refl refl;
}

-- What a module leaves of the types and variables from before, and in the tables made for it.
pub record AnalysedModule (s s' : SetState) : Type 0 where
  pub heap : Extends s.types s'.types
  pub variables :
      (v : VariablePtr) (x : Variable)
      → get_elem? s.variables v ≡ some x
      → get_elem? s'.variables v ≡ some x
  pub no_boxes : s'.declared_boxes ≡ []
  pub no_definitions : s'.defined_functions ≡ []

module_of :
    (s t u : SetState)
    → t.types ≡ s.types
    → t.variables ≡ s.variables
    → t.declared_boxes ≡ []
    → t.defined_functions ≡ []
    → Analysed t u
    → AnalysedModule s u
module_of s t u e f g k h = record {
  heap = subst (λ types. Extends types u.types) e h.heap;
  variables = λ v x l. h.variables v x (rw f l);
  no_boxes = h.declared_boxes ∙ g;
  no_definitions = h.defined_functions ∙ k;
}

-- From a state that has the types and variables of another one, and empty tables.
from_tables :
    {A : Type 0} (s t : SetState) (r : Run A)
    → t.types ≡ s.types
    → t.variables ≡ s.variables
    → t.declared_boxes ≡ []
    → t.defined_functions ≡ []
    → Ends Analysed t r
    → Ends AnalysedModule s r
from_tables s t (ok a u) e f g k h = module_of s t u e f g k h
from_tables s t (error u) e f g k h = module_of s t u e f g k h
from_tables s t (fault x) e f g k h = tt

-- Whatever the tree of a module and the state, with whatever tables an earlier module has left, `create_set`
-- ends in a fault or, with a module or an error, in a state where every type that was there is what it was,
-- up to the sign of a composite, every variable that was there is what it was, and the tables of declared
-- boxes and of defined functions are empty, whatever boxes and functions the module has.
pub create_set-Analysed :
    (len : String → ℕ → ℕ) (root : Node) (s : SetState)
    → Ends AnalysedModule s (create_set len root s)
unfolding create_set
create_set-Analysed len root s =
    from_tables s _ _ refl refl refl refl
      ((module_entries-Keeps Analysed-IsStoreFrame len root).at _)
