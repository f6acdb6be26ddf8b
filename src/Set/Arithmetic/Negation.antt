-- ===== src/Set/Arithmetic/Negation.antt =====
-- Negation writes into the type of its operand.
use gemstone.Prelude.{
  ℕ, ◌≡◌, refl, ◌<◌, String, List, [], ◌∷◌, ap, some, set, get_elem?, length, ltb, true, arith,
  get_elem?-set_self, lt_of_get_elem?,
}
use gemstone.Ast.{ast_negate, ast_ident, tree, nil, cons, to_list, annotate}
use gemstone.Set.Types.{
  GemType, composite, Variable, VariablePtr, TypePtr, CompositeType, Expressions, operation,
  variable, arithmetic_kind, arithmetic, negate, signed, of_list,
}
use gemstone.Set.Monad.{SetState, ok, cell}
use gemstone.Set.Compare.{compare_loaded, compare_types, compare_in}
use gemstone.Set.Compare.Grounded.{compare_in-step, compare_composites_refl}
use gemstone.Set.Keeps.Untouched.{cell→get_elem?}
use gemstone.Set.Scope.{find_in_scope, note_shadowing, found_variable, get_variable_from_scope}
use gemstone.Set.Access.{create_identifier}
use gemstone.Set.Operands.{create_operands, cast_operand, cast_operands}
use gemstone.Set.Arithmetic.{negated_type, arithmetic_type, create_arith_operation}
use gemstone.Set.Expression.{create_by_kind, create_expression}

-- The state after the write of a sign.
abbrev pub with_signed : SetState → TypePtr → CompositeType → SetState
with_signed s p c = record s { types = set s.types p (composite (record c { sign = signed })) }

cell-store :
    (h : List GemType) (p : TypePtr) (t u : GemType)
    → cell h p ≡ some t
    → 1 < p
    → cell (set h p u) p ≡ some u
cell-store h p t u e big = ground (
  arith,
  get_elem?-set_self h p u (lt_of_get_elem? h p t (cell→get_elem? h p t e)),
  cell→get_elem? h p t e,
)

same_in :
    (h : List GemType) (p : TypePtr) (c : CompositeType)
    → cell h p ≡ some (composite c)
    → compare_in (length h) h p p ≡ some true
unfolding compare_loaded
same_in [] p c e = ground (arith, e)
same_in (t ∷ ts) p c e =
    rw (compare_in-step (length ts) (t ∷ ts) p p _ _ e e) (ap some (compare_composites_refl c))

same_type :
    (s : SetState) (p : TypePtr) (c : CompositeType)
    → cell s.types p ≡ some (composite c)
    → compare_types p p s ≡ ok true s
unfolding compare_types
same_type s p c e = rw (same_in s.types p c e) refl

module _ (len : String → ℕ → ℕ) (name : String) (s : SetState) (v : VariablePtr) (x : Variable)
    (c : CompositeType) (found : find_in_scope name s.scope ≡ (some v, 1))
    (there : get_elem? s.variables v ≡ some x) (typed : cell s.types x.type ≡ some (composite c))
    (big : 1 < x.type) where
  identifier : create_identifier name s ≡ ok (variable x.type v) s
  unfolding create_identifier get_variable_from_scope found_variable note_shadowing
  identifier = rw (found, there) (rw there refl)

  big? : ltb 1 x.type ≡ true
  big? = ground (arith, big)

  -- The negation of a variable of a composite type makes the type of the variable signed: the result is
  -- the negation at that very type, and the state after it has the sign `signed` in the cell that the
  -- variable was declared with.
  pub negation-with_signed :
      create_expression len (tree ast_negate "" tt (cons (tree ast_ident name tt nil) nil)) s
      ≡ ok
          (operation x.type arithmetic_kind
            (arithmetic negate)
            (Expressions.cons (variable x.type v) Expressions.nil))
          (with_signed s x.type c)
  unfolding create_expression annotate create_by_kind create_arith_operation create_operands to_list
      arithmetic_type negated_type cast_operands cast_operand of_list
  negation-with_signed = rw identifier (
      rw (typed, big?)
        (rw
          (same_type (with_signed s x.type c) x.type (record c { sign = signed })
            (cell-store s.types x.type (composite c) _ typed big))
          refl))
