-- ===== src/Set/Operands/Agree.antt =====
-- After the loop that casts, every operand of an operation has the type of the operation: the loop of
-- `createArithOperation`, `createRelationalOperation`, `createBoolOperation` and `createBitOperation`.
use gemstone.Prelude.{
  inr, length, ◌==◌, ◌⊎◌, inl, ℕ, ◌≡◌, refl, Bool, true, false, List, [], ◌∷◌, Option, none, some,
  if◌then◌else◌,
}
use gemstone.Ast.{SyntaxElement, Tree}
use gemstone.Set.Types.{
  OperationImpl, OperationKind, TypePtr, Expression, Expressions, result, of_list,
}
use gemstone.Set.Monad.{
  Fault, bad_pointer, pure, SetState, M, Run, ok, error, fault, and_then, or_fault, cell, ◌>>=◌,
}
use gemstone.Set.Compare.{compare_in, compare_types}
use gemstone.Set.Operands.{create_type_cast_from_expression, cast_operand, cast_operands, is_scalar}
use gemstone.Set.Arithmetic.{create_relational_operation, create_arith_operation}
use gemstone.Set.Logic.{create_bool_operation, create_bool_not_operation}
use gemstone.Set.Bitwise.{create_bit_operation, create_bit_not_operation}

-- What holds of a result and its state, where a routine gives one.
abbrev pub OnOk : {A : Type 0} → (A → SetState → Type 0) → Run A → Type 0
OnOk P (ok a s) = P a s
OnOk P (error s) = Unit
OnOk P (fault f) = Unit

pub OnOk-bind :
    {A B : Type 0} (Q : A → SetState → Type 0) (P : B → SetState → Type 0) (r : Run A) (k : A → M B)
    → OnOk Q r
    → ((a : A) (s : SetState) → Q a s → OnOk P (k a s))
    → OnOk P (and_then r k)
OnOk-bind Q P (ok a s) k h hk = hk a s h
OnOk-bind Q P (error s) k h hk = tt
OnOk-bind Q P (fault f) k h hk = tt

pub OnOk-then :
    {A B : Type 0} (P : B → SetState → Type 0) (r : Run A) (k : A → M B)
    → ((a : A) (s : SetState) → OnOk P (k a s))
    → OnOk P (and_then r k)
OnOk-then P (ok a s) k hk = hk a s
OnOk-then P (error s) k hk = tt
OnOk-then P (fault f) k hk = tt

OnOk-or_fault :
    {A : Type 0} (f : Fault) (o : Option A) (s : SetState) → OnOk (λ a s'. s' ≡ s) (or_fault f o s)
OnOk-or_fault f none s = tt
OnOk-or_fault f (some a) s = refl

OnOk-if :
    {A : Type 0} (P : A → SetState → Type 0) (b : Bool) (m n : M A) (s : SetState)
    → OnOk P (m s)
    → OnOk P (n s)
    → OnOk P ((if b then m else n) s)
OnOk-if P true m n s h k = h
OnOk-if P false m n s h k = k

-- An operand of the type, as it is or by a cast to it.
abbrev pub HasType : SetState → TypePtr → Expression → Type 0
HasType s p e = (result e ≡ p) ⊎ (compare_types (result e) p s ≡ ok true s)

abbrev pub Agrees : SetState → TypePtr → Expressions → Type 0
Agrees s p Expressions.nil = Unit
Agrees s p (Expressions.cons e es) = HasType s p e × Agrees s p es

cast-HasType :
    (p : TypePtr) (e : Expression) (s : SetState)
    → OnOk (λ e' s'. (s' ≡ s) × HasType s p e') (create_type_cast_from_expression e p s)
unfolding create_type_cast_from_expression
cast-HasType p e s =
    OnOk-bind (λ t s'. s' ≡ s) _ _ _ (OnOk-or_fault bad_pointer (cell s.types (result e)) s)
      (λ t s' h. OnOk-if _ (is_scalar t) _ _ s' (h, inl refl) tt)

-- The comparison, with its answer.
compared :
    (p q : TypePtr) (s : SetState)
    → OnOk (λ b s'. (s' ≡ s) × (compare_types p q s ≡ ok b s)) (compare_types p q s)
unfolding compare_types
compared p q s = go (compare_in (length s.types) s.types p q)
  where
    go :
        (o : Option Bool)
        → OnOk (λ b s'. (s' ≡ s) × (or_fault bad_pointer o s ≡ ok b s)) (or_fault bad_pointer o s)
    go none = tt
    go (some b) = (refl, refl)

cast_operand-HasType :
    (p : TypePtr) (e : Expression) (s : SetState)
    → OnOk (λ e' s'. (s' ≡ s) × HasType s p e') (cast_operand p e s)
unfolding cast_operand
cast_operand-HasType p e s =
    OnOk-bind (λ b s'. (s' ≡ s) × (compare_types (result e) p s ≡ ok b s)) _ _ _
      (compared (result e) p s) (λ b s' h. go b s' h)
  where
    go :
        (b : Bool) (s' : SetState)
        → (s' ≡ s) × (compare_types (result e) p s ≡ ok b s)
        → OnOk
            (λ e' s'. (s' ≡ s) × HasType s p e')
            ((if b then pure e else create_type_cast_from_expression e p) s')
    go true s' h = (h.0, inr h.1)
    go false s' h = rw (h.0) (cast-HasType p e s)

pub cast_operands-Agrees :
    (p : TypePtr) (es : List Expression) (s : SetState)
    → OnOk (λ es' s'. (s' ≡ s) × Agrees s p (of_list es')) (cast_operands p es s)
unfolding cast_operands of_list
cast_operands-Agrees p [] s = (refl, tt)
cast_operands-Agrees p (e ∷ es) s =
    OnOk-bind (λ e' s'. (s' ≡ s) × HasType s p e') _ _ _ (cast_operand-HasType p e s)
      (λ e' s' h.
        OnOk-bind (λ es' u. (u ≡ s) × Agrees s p (of_list es')) _ (cast_operands p es s') _
          (rw (h.0) (cast_operands-Agrees p es s)) (λ es' u k. (k.0, (h.1, k.1))))

-- The operands of an operation have its type, in the state it was made in.
abbrev pub IsUniform : Expression → SetState → Type 0
IsUniform (Expression.operation p k o es) s = Agrees s p es
IsUniform e s = ⊥

-- The common end of the six routines.
cast-IsUniform :
    (k : OperationKind) (o : OperationImpl) (es : List Expression) (p : TypePtr) (u : SetState)
    → OnOk IsUniform
        ((cast_operands p es >>= λ es'. pure (Expression.operation p k o (of_list es'))) u)
cast-IsUniform k o es p u =
    OnOk-bind (λ es' v. (v ≡ u) × Agrees u p (of_list es')) IsUniform (cast_operands p es u) _
      (cast_operands-Agrees p es u) (λ es' v h. rw (h.0) h.1)

ruleset agree = (OnOk-then, cast-IsUniform)

-- Where the analysis of an operation (arithmetic, relational, Boolean or on bits, negations included)
-- succeeds, every operand of the operation that it makes is a cast to the type of the operation, or
-- has that type, or one that `compareTypes` finds equal to it in the state that the analysis ends in.
pub operands-agree :
    (ts : List (Tree (M Expression))) (k : SyntaxElement) (n : ℕ) (s : SetState)
    → OnOk IsUniform (create_arith_operation k ts n s)
      × OnOk IsUniform (create_relational_operation k ts s)
      × OnOk IsUniform (create_bool_operation k ts s)
      × OnOk IsUniform (create_bool_not_operation ts s)
      × OnOk IsUniform (create_bit_operation k ts s)
      × OnOk IsUniform (create_bit_not_operation ts s)
unfolding create_arith_operation create_relational_operation create_bool_operation
    create_bool_not_operation create_bit_operation create_bit_not_operation
operands-agree ts k n s = (
  OnOk-if IsUniform (n == length ts) _ _ s (search agree depth 12) tt,
  search agree depth 12,
  search agree depth 14,
  search agree depth 12,
  search agree depth 14,
  search agree depth 12,
)
