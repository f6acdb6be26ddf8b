-- ===== src/Ast.antt =====
-- Syntax trees (src/ast/ast.h, src/ast/ast.c): the kinds of nodes, their names, and the tree that the
-- semantic analysis reads. A tree carries a label at each node; the analysis labels every node with
-- the analysis of that node, so that a routine finds at a child what the source calls on it.
pub mod Children
pub mod Merge
pub mod Examples
use gemstone.Prelude.{ℕ, String, Bool, Option, none, some, List, [], ◌∷◌, ◌==◌}

pub data SyntaxElement : Type 0 where
  ast_stmt ast_module ast_expr ast_int ast_float ast_string : SyntaxElement
  ast_while ast_if ast_if_else ast_else ast_condition ast_decl : SyntaxElement
  ast_assign ast_def ast_ident ast_add ast_sub ast_mul : SyntaxElement
  ast_div ast_bit_and ast_bit_or ast_bit_xor ast_bit_not ast_bool_and : SyntaxElement
  ast_bool_or ast_bool_xor ast_bool_not ast_eq ast_greater ast_less : SyntaxElement
  ast_typecast ast_transmute ast_call ast_macro ast_typedef ast_box : SyntaxElement
  ast_fun_decl ast_fun_def ast_proc_decl ast_proc_def ast_import ast_list : SyntaxElement
  ast_expr_list ast_arg_list ast_param_list ast_stmt_list ast_ident_list ast_storage : SyntaxElement
  ast_type ast_typekind ast_sign ast_scale ast_negate ast_parameter : SyntaxElement
  ast_qualifyier ast_param_decl ast_address_of ast_dereference ast_reference ast_include :
      SyntaxElement
  ast_char ast_return : SyntaxElement

-- The value of the enumerator.
unfoldable pub kind_code : SyntaxElement → ℕ
kind_code ast_stmt = 0
kind_code ast_module = 1
kind_code ast_expr = 2
kind_code ast_int = 3
kind_code ast_float = 4
kind_code ast_string = 5
kind_code ast_while = 6
kind_code ast_if = 7
kind_code ast_if_else = 8
kind_code ast_else = 9
kind_code ast_condition = 10
kind_code ast_decl = 11
kind_code ast_assign = 12
kind_code ast_def = 13
kind_code ast_ident = 14
kind_code ast_add = 15
kind_code ast_sub = 16
kind_code ast_mul = 17
kind_code ast_div = 18
kind_code ast_bit_and = 19
kind_code ast_bit_or = 20
kind_code ast_bit_xor = 21
kind_code ast_bit_not = 22
kind_code ast_bool_and = 23
kind_code ast_bool_or = 24
kind_code ast_bool_xor = 25
kind_code ast_bool_not = 26
kind_code ast_eq = 27
kind_code ast_greater = 28
kind_code ast_less = 29
kind_code ast_typecast = 30
kind_code ast_transmute = 31
kind_code ast_call = 32
kind_code ast_macro = 33
kind_code ast_typedef = 34
kind_code ast_box = 35
kind_code ast_fun_decl = 36
kind_code ast_fun_def = 37
kind_code ast_proc_decl = 38
kind_code ast_proc_def = 39
kind_code ast_import = 40
kind_code ast_list = 41
kind_code ast_expr_list = 42
kind_code ast_arg_list = 43
kind_code ast_param_list = 44
kind_code ast_stmt_list = 45
kind_code ast_ident_list = 46
kind_code ast_storage = 47
kind_code ast_type = 48
kind_code ast_typekind = 49
kind_code ast_sign = 50
kind_code ast_scale = 51
kind_code ast_negate = 52
kind_code ast_parameter = 53
kind_code ast_qualifyier = 54
kind_code ast_param_decl = 55
kind_code ast_address_of = 56
kind_code ast_dereference = 57
kind_code ast_reference = 58
kind_code ast_include = 59
kind_code ast_char = 60
kind_code ast_return = 61

infix 50 ◌is◌
unfoldable pub ◌is◌ : SyntaxElement → SyntaxElement → Bool
k is j = kind_code k == kind_code j

-- The table that `AST_init` fills; an entry that it leaves out is `NULL`, the first one aside.
unfoldable pub lookup_table : SyntaxElement → Option String
lookup_table ast_stmt = some "stmt"
lookup_table ast_module = some "module"
lookup_table ast_expr = some "expr"
lookup_table ast_while = some "while"
lookup_table ast_if = some "if"
lookup_table ast_if_else = some "else if"
lookup_table ast_else = some "else"
lookup_table ast_condition = some "condition"
lookup_table ast_decl = some "decl"
lookup_table ast_assign = some "assign"
lookup_table ast_def = some "def"
lookup_table ast_add = some "+"
lookup_table ast_sub = some "-"
lookup_table ast_mul = some "*"
lookup_table ast_div = some "/"
lookup_table ast_bit_and = some "&"
lookup_table ast_bit_or = some "|"
lookup_table ast_bit_xor = some "^"
lookup_table ast_bit_not = some "!"
lookup_table ast_bool_and = some "&&"
lookup_table ast_bool_or = some "||"
lookup_table ast_bool_xor = some "^^"
lookup_table ast_bool_not = some "!!"
lookup_table ast_eq = some "=="
lookup_table ast_greater = some ">"
lookup_table ast_less = some "<"
lookup_table ast_typecast = some "typecast"
lookup_table ast_transmute = some "transmute"
lookup_table ast_call = some "funcall"
lookup_table ast_typedef = some "typedef"
lookup_table ast_box = some "box"
lookup_table ast_fun_decl = some "fun"
lookup_table ast_fun_def = some "fun"
lookup_table ast_proc_decl = some "fun"
lookup_table ast_proc_def = some "fun"
lookup_table ast_list = some "list"
lookup_table ast_expr_list = some "expr list"
lookup_table ast_arg_list = some "arg list"
lookup_table ast_param_list = some "param list"
lookup_table ast_stmt_list = some "stmt list"
lookup_table ast_ident_list = some "ident list"
lookup_table ast_type = some "type"
lookup_table ast_negate = some "-"
lookup_table ast_parameter = some "parameter"
lookup_table ast_param_decl = some "parameter-declaration"
lookup_table ast_address_of = some "address of"
lookup_table ast_dereference = some "deref"
lookup_table ast_reference = some "ref"
lookup_table ast_return = some "ret"
lookup_table _ = none

unfoldable pub node_to_string : SyntaxElement → Option String → Option String
node_to_string ast_int value = value
node_to_string ast_char value = value
node_to_string ast_float value = value
node_to_string ast_string value = value
node_to_string ast_ident value = value
node_to_string ast_macro value = value
node_to_string ast_import value = value
node_to_string ast_include value = value
node_to_string ast_storage value = value
node_to_string ast_typekind value = value
node_to_string ast_sign value = value
node_to_string ast_scale value = value
node_to_string ast_qualifyier value = value
node_to_string kind value = lookup_table kind

mutual
  -- Kind, value, label and children. A value is a text: where it is `NULL`, as that of a list or an
  -- operation, it is taken not to be looked at, and a read through it is no fault of the model.
  pub data Tree (A : Type 0) : Type 0 where
    tree : SyntaxElement → String → A → Forest A → Tree A

  pub data Forest (A : Type 0) : Type 0 where
    nil : Forest A
    cons : Tree A → Forest A → Forest A

module _ {A : Type 0} where
  unfoldable pub to_list : Forest A → List (Tree A)
  to_list nil = []
  to_list (cons t f) = t ∷ to_list f

  abbrev pub kind : Tree A → SyntaxElement
  kind (tree k v a cs) = k

  abbrev pub value : Tree A → String
  value (tree k v a cs) = v

  abbrev pub label : Tree A → A
  label (tree k v a cs) = a

  unfoldable pub children : Tree A → List (Tree A)
  children (tree k v a cs) = to_list cs

-- Labels every node by a function of its kind, its value, its old label and its labelled children.
module _ {A B : Type 0} (f : SyntaxElement → String → A → List (Tree B) → B) where
  unfoldable mutual
    pub annotate : Tree A → Tree B
    annotate (tree k v a cs) = let cs' = annotate_all cs in tree k v (f k v a (to_list cs')) cs'

    pub annotate_all : Forest A → Forest B
    annotate_all nil = nil
    annotate_all (cons t ts) = cons (annotate t) (annotate_all ts)
