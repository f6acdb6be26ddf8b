-- ===== src/Set/Keeps.antt =====
-- Routines that keep a relation between the state before and the state after, whether they return or
-- report an error: one rule for each way to build a routine of `Set/Monad.antt`.
pub mod Analysed
pub mod Functions
pub mod Module
pub mod Statements
pub mod Blocks
pub mod Declarations
pub mod Scopes
pub mod Types
pub mod Nodes
pub mod Expressions
pub mod Access
pub mod Expression
pub mod Untouched
use gemstone.Prelude.{String, Bool, true, false, Option, none, some, get_elem?, if◌then◌else◌}
use gemstone.Set.Arithmetic.{negated_type}
use gemstone.Set.Types.{GemType, TypePtr, VariablePtr, FunctionPtr}
use gemstone.Set.Monad.{
  SetState, Message, error_message, bad_pointer, Run, ok, error, fault, Fault, M, pure, and_then,
  without_null, on_option, with_status, ◌>>=◌, fail, abort, unchecked, status, or_fault, or_fail,
  gets, print_diagnostic, reject, cell, load_type, new_type, load_variable, load_function,
}

abbrev pub Relation : Type 1
Relation = SetState → SetState → Type 0

-- How a run ended, against the state that it started from.
abbrev pub Ends : {A : Type 0} → Relation → SetState → Run A → Type 0
Ends R s (ok a s') = R s s'
Ends R s (error s') = R s s'
Ends R s (fault f) = Unit

pub record Keeps {A : Type 0} (R : Relation) (m : M A) : Type 0 where
  pub at : (s : SetState) → Ends R s (m s)

-- A preorder that printing, a new type and a negation keep.
pub record IsFrame (R : Relation) : Type 0 where
  pub same : (s : SetState) → R s s
  pub trans : (s t u : SetState) → R s t → R t u → R s u
  pub prints : (k : Message) (text : String) → Keeps R (print_diagnostic k text)
  pub grows : (t : GemType) → Keeps R (new_type t)
  pub negates : (p : TypePtr) → Keeps R (load_type p >>= negated_type p)

module _ {R : Relation} (frame : IsFrame R) where
  open frame use {same, trans, prints, grows, negates}

  module _ {A : Type 0} where
    pub Keeps-pure : (a : A) → Keeps R (pure a)
    Keeps-pure a = record { at = same }

    pub Keeps-fail : Keeps R (fail {A = A})
    Keeps-fail = record { at = same }

    pub Keeps-abort : (f : Fault) → Keeps R (abort {A = A} f)
    Keeps-abort f = record { at = λ s. tt }

    pub Keeps-gets : (f : SetState → A) → Keeps R (gets f)
    Keeps-gets f = record { at = same }

    pub Keeps-or_fault : (f : Fault) (o : Option A) → Keeps R (or_fault f o)
    Keeps-or_fault f none = Keeps-abort f
    Keeps-or_fault f (some a) = Keeps-pure a

    pub Keeps-or_fail : (o : Option A) → Keeps R (or_fail o)
    Keeps-or_fail none = Keeps-fail
    Keeps-or_fail (some a) = Keeps-pure a

    pub Keeps-if : (b : Bool) (m n : M A) → Keeps R m → Keeps R n → Keeps R (if b then m else n)
    Keeps-if true m n km kn = km
    Keeps-if false m n km kn = kn

    pub Keeps-on_option :
        {B : Type 0} (o : Option B) (m : M A) (k : B → M A)
        → Keeps R m
        → ((b : B) → Keeps R (k b))
        → Keeps R (on_option o m k)
    Keeps-on_option none m k hm hk = hm
    Keeps-on_option (some b) m k hm hk = hk b

    Ends-unchecked : (s : SetState) (r : Run A) → Ends R s r → Ends R s (without_null r)
    Ends-unchecked s (ok a t) h = h
    Ends-unchecked s (error t) h = tt
    Ends-unchecked s (fault f) h = tt

    Ends-status : (s : SetState) (r : Run A) → Ends R s r → Ends R s (with_status r)
    Ends-status s (ok a t) h = h
    Ends-status s (error t) h = h
    Ends-status s (fault f) h = tt

    pub Keeps-unchecked : (m : M A) → Keeps R m → Keeps R (unchecked m)
    Keeps-unchecked m h = record { at = λ s. Ends-unchecked s (m s) (h.at s) }

    pub Keeps-status : (m : M A) → Keeps R m → Keeps R (status m)
    Keeps-status m h = record { at = λ s. Ends-status s (m s) (h.at s) }

  module _ {A B : Type 0} where
    Ends-and_then :
        (s : SetState) (r : Run A) (k : A → M B)
        → Ends R s r
        → ((a : A) → Keeps R (k a))
        → Ends R s (and_then r k)
    Ends-and_then s (ok a t) k h hk = Ends-trans s t (k a t) h ((hk a).at t)
      where
        Ends-trans : (s t : SetState) (r : Run B) → R s t → Ends R t r → Ends R s r
        Ends-trans s t (ok b u) h h' = trans s t u h h'
        Ends-trans s t (error u) h h' = trans s t u h h'
        Ends-trans s t (fault f) h h' = tt
    Ends-and_then s (error t) k h hk = h
    Ends-and_then s (fault f) k h hk = tt

    pub Keeps-bind :
        (m : M A) (k : A → M B) → Keeps R m → ((a : A) → Keeps R (k a)) → Keeps R (m >>= k)
    Keeps-bind m k hm hk = record { at = λ s. Ends-and_then s (m s) k (hm.at s) hk }

  pub Keeps-reject : {A : Type 0} (text : String) → Keeps R (reject {A = A} text)
  Keeps-reject text = Keeps-bind _ _ (prints error_message text) (λ a. Keeps-fail)

  pub Keeps-load_type : (p : TypePtr) → Keeps R (load_type p)
  Keeps-load_type p = record { at = λ s. (Keeps-or_fault bad_pointer (cell s.types p)).at s }

  pub Keeps-load_variable : (p : VariablePtr) → Keeps R (load_variable p)
  Keeps-load_variable p = record {
    at = λ s. (Keeps-or_fault bad_pointer (get_elem? s.variables p)).at s;
  }

  pub Keeps-load_function : (p : FunctionPtr) → Keeps R (load_function p)
  Keeps-load_function p = record {
    at = λ s. (Keeps-or_fault bad_pointer (get_elem? s.functions p)).at s;
  }

  pub Keeps-new_type : (t : GemType) → Keeps R (new_type t)
  Keeps-new_type = grows

  pub Keeps-print : (k : Message) (text : String) → Keeps R (print_diagnostic k text)
  Keeps-print = prints

  pub Keeps-negation : (p : TypePtr) → Keeps R (load_type p >>= negated_type p)
  Keeps-negation = negates

pub ruleset keeps_rules = (
  Keeps-pure, Keeps-fail, Keeps-abort, Keeps-gets, Keeps-or_fault, Keeps-or_fail, Keeps-if,
  Keeps-on_option, Keeps-unchecked, Keeps-status, Keeps-bind, Keeps-reject, Keeps-load_type,
  Keeps-load_variable, Keeps-load_function, Keeps-new_type, Keeps-print,
)
