-- ===== src/Set/Monad.antt =====
-- The state of src/set/set.c (its static tables, the heap of `Type`, `Variable` and `Function`
-- structures, the diagnostics printed) and the monad of its routines. `error` is the status
-- `SEMANTIC_ERROR` or a `NULL` result; `fault` ends the process. Allocation is taken to succeed.
use gemstone.Prelude.{
  ℕ, String, Option, ◌==◌, ltb, if◌then◌else◌, none, some, List, [], ◌∷◌, ◌++◌, length, get_elem?,
  set, last?, Table,
}
use gemstone.Set.Types.{GemType, TypePtr, Parameter, Variable, VariablePtr, Function, FunctionPtr}

pub data Message : Type 0 where
  info warning error_message : Message

-- What `print_diagnostic` and `print_message` are called with, before the format is filled in.
pub record Diagnostic : Type 0 where
  pub kind : Message
  pub text : String

-- A failed `assert` or `PANIC`, a read through `NULL`, a wild pointer or memory never written.
pub data Fault : Type 0 where
  assertion panic null_pointer bad_pointer uninitialised : Fault

pub record SetState : Type 0 where
  -- the heap
  pub types : List GemType
  pub variables : List Variable
  pub functions : List Function
  -- what a `Type` that was allocated and never written holds
  pub garbage : GemType
  -- the static tables
  pub declared_composites : Table TypePtr
  pub declared_boxes : Table TypePtr
  pub function_parameter : Option (Table Parameter)
  pub defined_functions : Table FunctionPtr
  pub declared_functions : Table FunctionPtr
  pub scope : List (Table VariablePtr)
  -- what was printed
  pub diagnostics : List Diagnostic

pub data Run (A : Type 0) : Type 0 where
  ok : A → SetState → Run A
  error : SetState → Run A
  fault : Fault → Run A

abbrev pub M : Type 0 → Type 0
M A = SetState → Run A

abbrev pub pure : {A : Type 0} → A → M A
pure = ok

module _ {A B : Type 0} where
  abbrev pub and_then : Run A → (A → M B) → Run B
  and_then (ok a s) k = k a s
  and_then (error s) k = error s
  and_then (fault f) k = fault f

  infixl 5 ◌>>=◌ ◌>>◌
  abbrev pub ◌>>=◌ : M A → (A → M B) → M B
  m >>= k = λ s. and_then (m s) k

  abbrev pub ◌>>◌ : M A → M B → M B
  m >> n = m >>= λ _. n

module _ {A : Type 0} where
  -- `return SEMANTIC_ERROR` or `return NULL`.
  abbrev pub fail : M A
  fail = error

  abbrev pub abort : Fault → M A
  abort f s = fault f

  abbrev pub without_null : Run A → Run A
  without_null (ok a s) = ok a s
  without_null (error s) = fault null_pointer
  without_null (fault f) = fault f

  abbrev pub with_status : Run A → Run (Option A)
  with_status (ok a s) = ok (some a) s
  with_status (error s) = ok none s
  with_status (fault f) = fault f

  -- A pointer result that the caller uses without a test for `NULL`.
  abbrev pub unchecked : M A → M A
  unchecked m s = without_null (m s)

  -- A status that the caller looks at itself.
  abbrev pub status : M A → M (Option A)
  status m s = with_status (m s)

  abbrev pub or_fault : Fault → Option A → M A
  or_fault f none = abort f
  or_fault f (some a) = pure a

  -- A status that the routine passes on.
  abbrev pub or_fail : Option A → M A
  or_fail none = fail
  or_fail (some a) = pure a

  -- `AST_get_last_node`, which reads before the array where there is no child.
  abbrev pub get_last_node : List A → M A
  get_last_node xs = or_fault bad_pointer (last? xs)

  -- `AST_get_node`, which asserts that the index is in range.
  abbrev pub get_node : List A → ℕ → M A
  get_node xs i = or_fault assertion (get_elem? xs i)

-- A test for `NULL`, or of a status: what is done without a value, and with one.
abbrev pub on_option : {A B : Type 0} → Option A → M B → (A → M B) → M B
on_option none m k = m
on_option (some a) m k = k a

abbrev pub gets : {A : Type 0} → (SetState → A) → M A
gets f s = ok (f s) s

abbrev pub print_diagnostic : Message → String → M (Unit {0})
print_diagnostic k t s =
    ok tt (record s { diagnostics = s.diagnostics ++ record { kind = k; text = t } ∷ [] })

-- `print_diagnostic` with the kind `Error`, and the error status.
abbrev pub reject : {A : Type 0} → String → M A
reject t = print_diagnostic error_message t >>= λ _. fail

-- `mem_alloc` of a `Type` that is filled in at once.
abbrev pub new_type : GemType → M TypePtr
new_type t s = ok (length s.types) (record s { types = s.types ++ t ∷ [] })

-- Address 0 is `NULL`.
abbrev pub cell : List GemType → TypePtr → Option GemType
cell types p = if p == 0 then none else get_elem? types p

abbrev pub load_type : TypePtr → M GemType
load_type p s = or_fault bad_pointer (cell s.types p) s

-- The static `ShortShortUnsingedIntType`, which the type of every string literal refers to. It is
-- `const`.
abbrev pub short_short_unsigned_int_type : TypePtr
short_short_unsigned_int_type = 1

-- A write into a `Type`.
abbrev pub store_type : TypePtr → GemType → M (Unit {0})
store_type p t s =
    if ltb short_short_unsigned_int_type p
    then ok tt (record s { types = set s.types p t })
    else fault bad_pointer

abbrev pub load_variable : VariablePtr → M Variable
load_variable p s = or_fault bad_pointer (get_elem? s.variables p) s

abbrev pub new_variable : Variable → M VariablePtr
new_variable v s = ok (length s.variables) (record s { variables = s.variables ++ v ∷ [] })

abbrev pub load_function : FunctionPtr → M Function
load_function p s = or_fault bad_pointer (get_elem? s.functions p) s
