-- ===== src/Set/Keeps/Untouched.antt =====
-- What the analysis of an expression leaves as it was: every table and store but the heap of types,
-- which grows, and where a cell changes at most its sign.
use gemstone.Prelude.{
  ℕ, String, ◌≡◌, refl, ◌∙◌, Option, some, List, [], ◌∷◌, ◌++◌, arith, get_elem?, set, ltb,
  Bool-cases, inl, inr, get_elem?-append_old, lt_of_get_elem?, get_elem?-set_self, get_elem?-set_ne,
}
use native.Mathlib.Decide.{ℕ_discrete}
use gemstone.Set.Types.{GemType, primitive, composite, box, reference, TypePtr, signed}
use gemstone.Set.Monad.{SetState, cell, ◌>>=◌, load_type, new_type, print_diagnostic, Message}
use gemstone.Set.Keeps.{Keeps, IsFrame, Ends}
use gemstone.Set.Arithmetic.{negated_type}

abbrev pub erase_sign : GemType → GemType
erase_sign (composite c) = composite (record c { sign = signed })
erase_sign t = t

pub record Extends (old new : List GemType) : Type 0 where
  pub at :
      (i : ℕ) (t : GemType)
      → get_elem? old i ≡ some t
      → (u : GemType) × (get_elem? new i ≡ some u) × (erase_sign u ≡ erase_sign t)

pub record Untouched (s s' : SetState) : Type 0 where
  pub heap : Extends s.types s'.types
  pub variables : s'.variables ≡ s.variables
  pub functions : s'.functions ≡ s.functions
  pub garbage : s'.garbage ≡ s.garbage
  pub declared_composites : s'.declared_composites ≡ s.declared_composites
  pub declared_boxes : s'.declared_boxes ≡ s.declared_boxes
  pub function_parameter : s'.function_parameter ≡ s.function_parameter
  pub defined_functions : s'.defined_functions ≡ s.defined_functions
  pub declared_functions : s'.declared_functions ≡ s.declared_functions
  pub scope : s'.scope ≡ s.scope

pub Extends-refl : (h : List GemType) → Extends h h
Extends-refl h = record { at = λ i t e. (t, e, refl) }

pub Extends-trans : (a b c : List GemType) → Extends a b → Extends b c → Extends a c
Extends-trans a b c h k = record {
  at = λ i t e. let (u, f, p) = h.at i t e in let (v, g, q) = k.at i u f in (v, g, q ∙ p);
}

Extends-append : (h : List GemType) (t : GemType) → Extends h (h ++ t ∷ [])
Extends-append h t = record {
  at = λ i u e. (u, get_elem?-append_old h (t ∷ []) i (lt_of_get_elem? h i u e) ∙ e, refl);
}

-- A write of the same type up to its sign.
Extends-set :
    (h : List GemType) (p : ℕ) (t u : GemType)
    → get_elem? h p ≡ some t
    → erase_sign u ≡ erase_sign t
    → Extends h (set h p u)
Extends-set h p t u e same = record {
  at = λ i v f. elim (ℕ_discrete p i) [
    | yes q ↦ (u, rw (← q) (get_elem?-set_self h p u (lt_of_get_elem? h p t e)), cc)
    | no q ↦ (v, get_elem?-set_ne h p i u q ∙ f, refl)
  ];
}

with_heap :
    (s : SetState) (h : List GemType) → Extends s.types h → Untouched s (record s { types = h })
with_heap s h e = record {
  heap = e;
  variables = refl;
  functions = refl;
  garbage = refl;
  declared_composites = refl;
  declared_boxes = refl;
  function_parameter = refl;
  defined_functions = refl;
  declared_functions = refl;
  scope = refl;
}

Untouched-trans : (s t u : SetState) → Untouched s t → Untouched t u → Untouched s u
Untouched-trans s t u h k = record {
  heap = Extends-trans _ _ _ h.heap k.heap;
  variables = k.variables ∙ h.variables;
  functions = k.functions ∙ h.functions;
  garbage = k.garbage ∙ h.garbage;
  declared_composites = k.declared_composites ∙ h.declared_composites;
  declared_boxes = k.declared_boxes ∙ h.declared_boxes;
  function_parameter = k.function_parameter ∙ h.function_parameter;
  defined_functions = k.defined_functions ∙ h.defined_functions;
  declared_functions = k.declared_functions ∙ h.declared_functions;
  scope = k.scope ∙ h.scope;
}

print-Untouched : (k : Message) (text : String) → Keeps Untouched (print_diagnostic k text)
print-Untouched k text = record {
  at = λ s. record {
    heap = Extends-refl _;
    variables = refl;
    functions = refl;
    garbage = refl;
    declared_composites = refl;
    declared_boxes = refl;
    function_parameter = refl;
    defined_functions = refl;
    declared_functions = refl;
    scope = refl;
  };
}

new_type-Untouched : (t : GemType) → Keeps Untouched (new_type t)
new_type-Untouched t = record { at = λ s. with_heap s _ (Extends-append s.types t) }

pub cell→get_elem? :
    (h : List GemType) (p : ℕ) (t : GemType) → cell h p ≡ some t → get_elem? h p ≡ some t
cell→get_elem? h p t e = ground arith

negated-Untouched :
    (p : TypePtr) (t : GemType) (s : SetState)
    → get_elem? s.types p ≡ some t
    → Ends Untouched s (negated_type p t s)
unfolding negated_type
negated-Untouched p (composite c) s e = elim (Bool-cases (ltb 1 p)) [
  | inl big ↦ rw big (with_heap s _ (Extends-set s.types p (composite c) _ e refl))
  | inr small ↦ rw small tt
]
negated-Untouched p (primitive q) s e = with_heap s s.types (Extends-refl _)
negated-Untouched p (reference q) s e = (print-Untouched _ _).at s
negated-Untouched p (box q) s e = (print-Untouched _ _).at s

-- Negation writes the sign of the type that it loaded, and nothing else.
negation-Untouched : (p : TypePtr) → Keeps Untouched (load_type p >>= negated_type p)
negation-Untouched p = record { at = λ s. go s (cell s.types p) refl }
  where
    go :
        (s : SetState) (o : Option GemType)
        → cell s.types p ≡ o
        → Ends Untouched s ((load_type p >>= negated_type p) s)
    go s Option.none e = rw e tt
    go s (some t) e = rw e (negated-Untouched p t s (cell→get_elem? s.types p t e))

pub Untouched-IsFrame : IsFrame Untouched
Untouched-IsFrame = record {
  same = λ s. with_heap s s.types (Extends-refl _);
  trans = Untouched-trans;
  prints = print-Untouched;
  grows = new_type-Untouched;
  negates = negation-Untouched;
}
