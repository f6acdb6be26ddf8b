-- ===== src/Set/Types.antt =====
-- The data of src/set/types.h. Pointers to a `Type`, a `Variable` or a `Function` are indices into
-- the stores of `Set/Monad.antt`. The back pointers to syntax nodes are left out: they only place
-- diagnostics.
use gemstone.Prelude.{ℕ, String, Bool, Option, List, ◌==◌}

pub data PrimitiveType : Type 0 where
  int float char : PrimitiveType

pub data Sign : Type 0 where
  unsigned signed : Sign

-- A power of two as its exponent plus 1075; see `Set/Scale.antt`.
abbrev pub Scale : Type 0
Scale = ℕ

pub record CompositeType : Type 0 where
  pub sign : Sign
  pub scale : Scale
  pub primitive : PrimitiveType

abbrev pub TypePtr : Type 0
TypePtr = ℕ

-- `Type_t`: its kind and its union; `box` holds the address of the `BoxType`.
pub data GemType : Type 0 where
  primitive : PrimitiveType → GemType
  composite : CompositeType → GemType
  box : ℕ → GemType
  reference : TypePtr → GemType

pub data IoQualifier : Type 0 where
  in_only out_only in_out : IoQualifier

pub data StorageQualifier : Type 0 where
  local static global : StorageQualifier

pub data ParameterKind : Type 0 where
  parameter_declaration_kind parameter_definition_kind : ParameterKind

-- Both variants of the union hold a declaration.
pub record Parameter : Type 0 where
  pub name : String
  pub kind : ParameterKind
  pub qualifier : IoQualifier
  pub type : TypePtr

pub data ArithmeticOperator : Type 0 where
  add sub mul div negate : ArithmeticOperator

pub data RelationalOperator : Type 0 where
  equal greater less : RelationalOperator

pub data BooleanOperator : Type 0 where
  boolean_and boolean_or boolean_not boolean_xor : BooleanOperator

pub data BitwiseOperator : Type 0 where
  bitwise_and bitwise_or bitwise_not bitwise_xor : BitwiseOperator

pub data OperationKind : Type 0 where
  arithmetic_kind relational_kind boolean_kind logical_kind bitwise_kind : OperationKind

-- The union `OperationImplementation`, which `OperationKind` is meant to tell apart.
pub data OperationImpl : Type 0 where
  arithmetic : ArithmeticOperator → OperationImpl
  relational : RelationalOperator → OperationImpl
  boolean : BooleanOperator → OperationImpl
  bitwise : BitwiseOperator → OperationImpl

abbrev pub VariablePtr : Type 0
VariablePtr = ℕ

abbrev pub FunctionPtr : Type 0
FunctionPtr = ℕ

mutual
  -- An expression: the type of its result, and the union by its kind.
  pub data Expression : Type 0 where
    operation : TypePtr → OperationKind → OperationImpl → Expressions → Expression
    type_cast : TypePtr → Expression → Expression
    transmute : TypePtr → Expression → Expression
    constant : TypePtr → String → Expression
    variable : TypePtr → VariablePtr → Expression
    parameter : TypePtr → Parameter → Expression
    dereference : TypePtr → (index operand : Expression) → Expression
    address_of : TypePtr → Expression → Expression
    function_call : TypePtr → FunctionPtr → Expressions → Expression

  pub data Expressions : Type 0 where
    nil : Expressions
    cons : Expression → Expressions → Expressions

-- `expression->result`.
abbrev pub result : Expression → TypePtr
result (operation t k o es) = t
result (type_cast t e) = t
result (transmute t e) = t
result (constant t v) = t
result (variable t v) = t
result (parameter t p) = t
result (dereference t i e) = t
result (address_of t e) = t
result (function_call t f es) = t

unfoldable pub of_list : List Expression → Expressions
of_list List.[] = nil
of_list (List.◌∷◌ e es) = cons e (of_list es)

pub data VariableKind : Type 0 where
  declaration_kind definition_kind box_member_kind : VariableKind

pub record Variable : Type 0 where
  pub name : String
  pub kind : VariableKind
  pub qualifier : StorageQualifier
  pub type : TypePtr
  pub initializer : Option Expression

-- The parameter list and the return value, `NULL` for a procedure, are in both variants of the union.
pub record Function : Type 0 where
  pub name : String
  pub is_definition : Bool
  pub parameters : List Parameter
  pub return_value : Option TypePtr

-- The values of the enumerators, by which `MAX` compares.
abbrev pub primitive_code : PrimitiveType → ℕ
primitive_code int = 0
primitive_code float = 1
primitive_code char = 2

abbrev pub sign_code : Sign → ℕ
sign_code unsigned = 0
sign_code signed = 1

infix 50 ◌is_primitive◌ ◌is_sign◌
abbrev pub ◌is_primitive◌ : PrimitiveType → PrimitiveType → Bool
p is_primitive q = primitive_code p == primitive_code q

abbrev pub ◌is_sign◌ : Sign → Sign → Bool
s is_sign t = sign_code s == sign_code t
