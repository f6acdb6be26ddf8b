-- ===== src/Set/Samples.antt =====
-- Source trees and states for the tests and the witnesses.
use gemstone.Prelude.{ℕ, ◌≡◌, refl, String, true, none, List, [], ◌∷◌}
use gemstone.Ast.{
  SyntaxElement, tree, nil, cons, ast_int, ast_add, ast_type, ast_typekind, ast_ident, ast_scale,
  ast_list, ast_sign, ast_module, ast_decl, ast_ident_list, ast_negate, ast_fun_def, ast_stmt_list,
  ast_return,
}
use gemstone.Set.Types.{
  signed, primitive, PrimitiveType, GemType, composite, reference, CompositeType, unsigned,
  Variable, Parameter, Function, in_only, parameter_declaration_kind, declaration_kind, local,
}
use gemstone.Set.Monad.{SetState, Run}
use gemstone.Set.Expression.{Node}
use gemstone.Set.Evaluation.{evaluation}
use gemstone.Set.Module.{initial_state, create_set}
use gemstone.Set.Scale.{one}

abbrev pub leaf : SyntaxElement → String → Node
leaf k v = tree k v tt nil

abbrev pub node1 : SyntaxElement → Node → Node
node1 k a = tree k "" tt (cons a nil)

abbrev pub node2 : SyntaxElement → Node → Node → Node
node2 k a b = tree k "" tt (cons a (cons b nil))

abbrev pub node3 : SyntaxElement → Node → Node → Node → Node
node3 k a b c = tree k "" tt (cons a (cons b (cons c nil)))

abbrev pub node4 : SyntaxElement → Node → Node → Node → Node → Node
node4 k a b c d = tree k "" tt (cons a (cons b (cons c (cons d nil))))

-- One character, whatever the text.
abbrev pub one_character : String → ℕ → ℕ
one_character text n = 1

abbrev pub start : SetState
start = initial_state (primitive PrimitiveType.int)

abbrev pub int_type : Node
int_type = node1 ast_type (leaf ast_typekind "int")

abbrev pub unsigned_short_int_type : Node
unsigned_short_int_type =
    node3 ast_type (leaf ast_sign "unsigned") (node1 ast_list (leaf ast_scale "short"))
      (leaf ast_typekind "int")

-- `x: unsigned short int`, `fun int: f() { return -x + 1 }`
abbrev pub program : Node
program =
    node2 ast_module
      (node2 ast_decl unsigned_short_int_type (node1 ast_ident_list (leaf ast_ident "x")))
      (node4 ast_fun_def (leaf ast_ident "f") int_type (leaf ast_list "") (
        node1 ast_stmt_list (
          node1 ast_return
            (node2 ast_add (node1 ast_negate (leaf ast_ident "x")) (leaf ast_int "1")))))

abbrev pub is_ok : {A : Type 0} → Run A → ℕ
is_ok (Run.ok a s) = 0
is_ok (Run.error s) = 1
is_ok (Run.fault f) = 2

program_runs : is_ok (create_set one_character program start) ≡ 0
unfolding evaluation
program_runs = refl

abbrev pub unsigned_int : CompositeType
unsigned_int = record { sign = unsigned; scale = one; primitive = PrimitiveType.int }

abbrev pub x : Variable
x = record { name = "x"; kind = declaration_kind; qualifier = local; type = 2; initializer = none }

abbrev pub parameter_of : String → Parameter
parameter_of name = record {
  name = name;
  kind = parameter_declaration_kind;
  qualifier = in_only;
  type = 2;
}

abbrev pub main : Function
main = record { name = "main"; is_definition = true; parameters = []; return_value = none }

-- The cells: `NULL`, the type of string elements, `unsigned int` and a reference to it.
abbrev pub heap : List GemType
heap =
    primitive PrimitiveType.int ∷ composite unsigned_int ∷ composite unsigned_int ∷ reference 2 ∷ []

-- A variable `x` in the scope of the module, and two definitions of a function.
abbrev pub with_x : SetState
with_x = record start {
  types = heap;
  variables = x ∷ [];
  functions = main ∷ main ∷ [];
  scope = (("x", 0) ∷ []) ∷ [];
}

-- Where the name `size` is declared as `unsigned int`.
abbrev pub with_size : SetState
with_size = record with_x { declared_composites = ("size", 2) ∷ [] }

-- The cells 2 to 4 hold `int`, `float` and the composite that is `int`.
abbrev pub with_primitives : SetState
with_primitives = record start {
  types =
      primitive PrimitiveType.int
      ∷ composite unsigned_int
      ∷ primitive PrimitiveType.int
      ∷ primitive PrimitiveType.float
      ∷ composite (record { sign = signed; scale = one; primitive = PrimitiveType.int })
      ∷ [];
}
